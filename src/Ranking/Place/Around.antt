-- ===== src/Ranking/Place/Around.antt =====
-- The rows beside the one that a placement writes.
use mathlib.Core.List.{Permᴰ}
use golf_rank.Base.{
  ℕ, ◌≡◌, ◌≢◌, sym, ap, subst, ◌∙◌, Bool, true, false, not, ◌&&◌, List, ◌∷◌, map, arith, ◌==◌,
  if◌then◌else◌, All-map, keep, keep-keep, keep-cong, map-keep, remove, sort_by,
}
use golf_rank.Ranking.Tier.{Tier}
use golf_rank.Ranking.Table.{Assignment, before, in_tier, owns, tier_rows, course_order, save_row}
use golf_rank.Ranking.Table.Distinct.{DistinctIds, DistinctIds-keep}
use golf_rank.Ranking.Table.Order.{sort_by_unique}
use golf_rank.Ranking.Table.Filtered.{keep-perm, keep-sort_by}
use golf_rank.Ranking.Table.Saved.{others, save_row-perm, DistinctIds-save_row}
use golf_rank.Ranking.Place.{peers}
use golf_rank.Ranking.Table.Lookup.{Picks}

module _ (p : Assignment → Bool) (a : Assignment) (rows : List Assignment)
    (ids : DistinctIds rows) where
  pub saved_out : p a ≡ false → Permᴰ (keep p (save_row a rows)) (keep p (others a.id rows))
  saved_out e =
      subst
        (λ b.
          Permᴰ (keep p (save_row a rows))
            (if b then a ∷ keep p (others a.id rows) else keep p (others a.id rows)))
        e (keep-perm p (save_row-perm a rows ids))

  pub saved_in : p a ≡ true → Permᴰ (keep p (save_row a rows)) (a ∷ keep p (others a.id rows))
  saved_in e =
      subst
        (λ b.
          Permᴰ (keep p (save_row a rows))
            (if b then a ∷ keep p (others a.id rows) else keep p (others a.id rows)))
        e (keep-perm p (save_row-perm a rows ids))

other_course :
    (u c i : ℕ) (t : Tier) (r : Assignment)
    → owns u c r ≡ (r.id == i)
    → (in_tier u t r && not (r.id == i)) ≡ (not (r.course_id == c) && in_tier u t r)
other_course u c i t r h =
    subst (λ b. (in_tier u t r && not b) ≡ (not (r.course_id == c) && in_tier u t r)) h
      (ground arith)

peer_test :
    (u c i : ℕ) (t : Tier) (r : Assignment)
    → owns u c r ≡ (r.id == i)
    → ((in_tier u t r && not (r.course_id == c)) && not (r.id == i))
      ≡ (in_tier u t r && not (r.id == i))
peer_test u c i t r h =
    subst (λ b. ((in_tier u t r && not (r.course_id == c)) && not b) ≡ (in_tier u t r && not b)) h
      (ground arith)

module _ (u c : ℕ) (t : Tier) (a : Assignment) (rows : List Assignment) (ids : DistinctIds rows)
    (picks : Picks u c a.id rows) where
  others-in_tier :
      keep (in_tier u t) (others a.id rows)
      ≡ keep (λ r. not (r.course_id == c)) (keep (in_tier u t) rows)
  others-in_tier =
      keep-keep (in_tier u t) (λ r. not (r.id == a.id)) rows
      ∙ keep-cong _ _ rows (All-map (other_course u c a.id t) rows picks)
      ∙ sym (keep-keep (λ r. not (r.course_id == c)) (in_tier u t) rows)

  -- The courses around the placed one: those of the tier without it.
  pub others_order :
      map (λ r. r.course_id) (sort_by before (keep (in_tier u t) (others a.id rows)))
      ≡ remove c (course_order u t rows)
  unfolding course_order tier_rows
  others_order =
      ap (λ xs. map (λ r. r.course_id) (sort_by before xs)) others-in_tier
      ∙ ap (map (λ r. r.course_id)) (
          sym (
            keep-sort_by (λ r. not (r.course_id == c)) (keep (in_tier u t) rows)
              (DistinctIds-keep (in_tier u t) rows ids)))
      ∙ sym (
          map-keep (λ x. not (x == c)) (λ (r : Assignment). r.course_id)
            (sort_by before (keep (in_tier u t) rows)))

  pub peers-others :
      owns u c a ≡ true
      → peers u t c (save_row a rows) ≡ sort_by before (keep (in_tier u t) (others a.id rows))
  peers-others mine =
      sort_by_unique (saved_out _ a rows ids (ground arith))
        (DistinctIds-keep _ _ (DistinctIds-save_row a rows ids))
      ∙ ap (sort_by before) (
          keep-keep _ (λ r. not (r.id == a.id)) rows
          ∙ keep-cong _ _ rows (All-map (peer_test u c a.id t) rows picks)
          ∙ sym (keep-keep (in_tier u t) (λ r. not (r.id == a.id)) rows))

  -- Another user's rows are all among the others.
  pub others_of_user :
      (v : ℕ) (s : Tier) → u ≢ v → keep (in_tier v s) (others a.id rows) ≡ keep (in_tier v s) rows
  others_of_user v s ne =
      keep-keep (in_tier v s) (λ r. not (r.id == a.id)) rows
      ∙ keep-cong _ _ rows (All-map other_user rows picks)
    where
      other_user :
          (r : Assignment)
          → owns u c r ≡ (r.id == a.id)
          → (in_tier v s r && not (r.id == a.id)) ≡ in_tier v s r
      other_user r h = subst (λ b. (in_tier v s r && not b) ≡ in_tier v s r) h (ground arith)
