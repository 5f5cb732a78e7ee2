-- ===== src/Ranking/Normalize/Dense.antt =====
-- The tiers and the positions after `_normalize_positions`.
use mathlib.Core.List.{Permᴰ}
use mathlib.Core.List.Permᴰ
use golf_rank.Base.{
  ℕ, ◌+◌, ◌≡◌, ◌≢◌, refl, sym, ap, ap₂, subst, ◌∙◌, inl, inr, true, false, ◌&&◌, List, [], ◌∷◌,
  ◌++◌, map, arith, ◌==◌, Bool-cases, if◌then◌else◌, All, keep, keep-keep, keep-cong, sort_by,
  length, range_from,
}
use golf_rank.Ranking.Tier.{
  Tier, green, fairway, rough, bunker, not_sure, tier_order, same_tier, same_tier-eq,
}
use golf_rank.Ranking.Table.{
  Assignment, before, in_tier, tier_rows, course_order, write_positions, renumber,
}
use golf_rank.Ranking.Table.Distinct.{DistinctIds, DistinctIds-keep, DistinctIds-write_positions}
use golf_rank.Ranking.Table.Order.{sort_by-perm}
use golf_rank.Ranking.Table.Filtered.{keep-sort_by}
use golf_rank.Ranking.Table.Positions.{tier_rows-write_positions}
use golf_rank.Ranking.Table.Untouched.{tier_rows_other}
use golf_rank.Ranking.Place.Written.{map-renumber}
use golf_rank.Ranking.Normalize.{
  user_rows, group, write_groups, normalize_positions, ordered_groups, normalized_order,
}

All-always : {A : Type 0} (P : A → Type 0) → ((x : A) → P x) → (xs : List A) → All P xs
All-always P f [] = tt
All-always P f (x ∷ xs) = (f x, All-always P f xs)

in_group :
    (u : ℕ) (t : Tier) (r : Assignment) → (same_tier r.tier t && r.user_id == u) ≡ in_tier u t r
in_group u t r = ground arith

group-user_rows :
    (u : ℕ) (t : Tier) (rows : List Assignment)
    → DistinctIds rows
    → group t (user_rows u rows) ≡ tier_rows u t rows
unfolding tier_rows
group-user_rows u t rows d =
    keep-sort_by _ _ (DistinctIds-keep _ rows d)
    ∙ ap (sort_by before)
        (keep-keep _ _ rows ∙ keep-cong _ _ rows (All-always _ (in_group u t) rows))

tiers_apart :
    (u : ℕ) (s t : Tier)
    → same_tier s t ≡ false
    → (r : Assignment) → in_tier u s r ≡ true
    → in_tier u t r ≡ false
tiers_apart u s t h r e = ground arith

users_apart :
    (u v : ℕ) (s t : Tier) → u ≢ v → (r : Assignment) → in_tier u s r ≡ true → in_tier v t r ≡ false
users_apart u v s t h r e = ground arith

-- The tier stands once in the list, at the place where this holds.
abbrev Once : Tier → List Tier → Type 0
Once t [] = ⊥
Once t (s ∷ tiers) = if same_tier s t then All (λ x. same_tier x t ≡ false) tiers else Once t tiers

abbrev DistinctTiers : List Tier → Type 0
DistinctTiers [] = Unit {0}
DistinctTiers (s ∷ tiers) = All (λ x. same_tier s x ≡ false) tiers × DistinctTiers tiers

abbrev pub concat_tiers : (Tier → List Assignment) → List Tier → List Assignment
concat_tiers f [] = []
concat_tiers f (t ∷ tiers) = f t ++ concat_tiers f tiers

module _ (u : ℕ) (grouped : List Assignment) where
  -- The groups that are still to be written are what the table says.
  abbrev Current : List Assignment → Tier → Type 0
  Current rows t = group t grouped ≡ tier_rows u t rows

  arrangement :
      (t : Tier) (rows : List Assignment)
      → Current rows t
      → Permᴰ (keep (in_tier u t) rows) (group t grouped)
  unfolding tier_rows
  arrangement t rows h =
      subst (Permᴰ (keep (in_tier u t) rows)) (sym h) (Permᴰ.symm (sort_by-perm _))

  write_one : Tier → List Assignment → List Assignment
  write_one t rows = write_positions 1 (group t grouped) rows

  other_tier :
      (s t : Tier) (rows : List Assignment)
      → DistinctIds rows
      → Current rows s
      → same_tier s t ≡ false
      → tier_rows u t (write_one s rows) ≡ tier_rows u t rows
  unfolding write_one
  other_tier s t rows d h e =
      tier_rows_other u u s t 1 (group s grouped) rows d (arrangement s rows h)
        (tiers_apart u s t e)

  still-Current :
      (s : Tier) (tiers : List Tier) (rows : List Assignment)
      → DistinctIds rows
      → Current rows s
      → All (λ x. same_tier s x ≡ false) tiers
      → All (Current rows) tiers
      → All (Current (write_one s rows)) tiers
  still-Current s [] rows d h e k = tt
  still-Current s (t ∷ tiers) rows d h e k =
      (k.0 ∙ sym (other_tier s t rows d h e.0), still-Current s tiers rows d h e.1 k.1)

  untouched :
      (t : Tier) (tiers : List Tier) (rows : List Assignment)
      → DistinctIds rows
      → DistinctTiers tiers
      → All (Current rows) tiers
      → All (λ x. same_tier x t ≡ false) tiers
      → tier_rows u t (write_groups tiers grouped rows) ≡ tier_rows u t rows
  unfolding write_groups write_one
  untouched t [] rows d n h e = refl
  untouched t (s ∷ tiers) rows d n h e =
      untouched t tiers (write_one s rows) (DistinctIds-write_positions 1 _ rows d) n.1
        (still-Current s tiers rows d h.0 n.0 h.1) e.1
      ∙ other_tier s t rows d h.0 e.0

  written :
      (t : Tier) (tiers : List Tier) (rows : List Assignment)
      → DistinctIds rows
      → DistinctTiers tiers
      → All (Current rows) tiers
      → Once t tiers
      → tier_rows u t (write_groups tiers grouped rows) ≡ renumber 1 (group t grouped)
  unfolding write_groups write_one
  written t [] rows d n h o = absurd o
  written t (s ∷ tiers) rows d n h o = elim (Bool-cases (same_tier s t)) [
    | inl e ↦
        untouched t tiers (write_one s rows) (DistinctIds-write_positions 1 _ rows d) n.1
          (still-Current s tiers rows d h.0 n.0 h.1) (rw e at o)
        ∙ subst (λ x. tier_rows u x (write_one s rows) ≡ renumber 1 (group x grouped))
            (same_tier-eq s t e)
            (tier_rows-write_positions u s (group s grouped) rows d (arrangement s rows h.0))
    | inr e ↦
        written t tiers (write_one s rows) (DistinctIds-write_positions 1 _ rows d) n.1
          (still-Current s tiers rows d h.0 n.0 h.1) (rw e at o)
  ]

  other_user :
      (v : ℕ) (t : Tier) (tiers : List Tier) (rows : List Assignment)
      → u ≢ v
      → DistinctIds rows
      → DistinctTiers tiers
      → All (Current rows) tiers
      → tier_rows v t (write_groups tiers grouped rows) ≡ tier_rows v t rows
  unfolding write_groups write_one
  other_user v t [] rows ne d n h = refl
  other_user v t (s ∷ tiers) rows ne d n h =
      other_user v t tiers (write_one s rows) ne (DistinctIds-write_positions 1 _ rows d) n.1
        (still-Current s tiers rows d h.0 n.0 h.1)
      ∙ tier_rows_other u v s t 1 (group s grouped) rows d (arrangement s rows h.0)
          (users_apart u v s t ne)

Once-tier_order : (t : Tier) → Once t tier_order
Once-tier_order green = (refl, (refl, (refl, (refl, tt))))
Once-tier_order fairway = (refl, (refl, (refl, tt)))
Once-tier_order rough = (refl, (refl, tt))
Once-tier_order bunker = (refl, tt)
Once-tier_order not_sure = tt

DistinctTiers-tier_order : DistinctTiers tier_order
DistinctTiers-tier_order = ground arith

-- In a table with distinct ids, after normalising the positions of a user, the query of each of the
-- user's tiers answers the same rows in the same order, with the positions 1, 2, 3, ...
pub tier_rows-normalize_positions :
    (u : ℕ) (t : Tier) (rows : List Assignment)
    → DistinctIds rows
    → tier_rows u t (normalize_positions u rows) ≡ renumber 1 (tier_rows u t rows)
unfolding normalize_positions
tier_rows-normalize_positions u t rows d =
    written u (user_rows u rows) t tier_order rows d DistinctTiers-tier_order
      (All-always _ (λ s. group-user_rows u s rows d) tier_order) (Once-tier_order t)
    ∙ ap (renumber 1) (group-user_rows u t rows d)

pub course_order-normalize_positions :
    (u : ℕ) (t : Tier) (rows : List Assignment)
    → DistinctIds rows
    → course_order u t (normalize_positions u rows) ≡ course_order u t rows
unfolding course_order
course_order-normalize_positions u t rows d =
    ap (map (λ r. r.course_id)) (tier_rows-normalize_positions u t rows d)
    ∙ map-renumber 1 (tier_rows u t rows)

positions-renumber :
    (k : ℕ) (rows : List Assignment)
    → map (λ r. r.ordinal_position) (renumber k rows) ≡ range_from k (length rows)
unfolding renumber
positions-renumber k [] = refl
positions-renumber k (r ∷ rows) = ap (λ xs. k ∷ xs) (positions-renumber (k + 1) rows)

pub positions-normalize_positions :
    (u : ℕ) (t : Tier) (rows : List Assignment)
    → DistinctIds rows
    → map (λ r. r.ordinal_position) (tier_rows u t (normalize_positions u rows))
      ≡ range_from 1 (length (tier_rows u t rows))
positions-normalize_positions u t rows d =
    ap (map (λ r. r.ordinal_position)) (tier_rows-normalize_positions u t rows d)
    ∙ positions-renumber 1 (tier_rows u t rows)

-- In a table with distinct ids, normalising the positions of a user leaves the query of every tier
-- of every other user as it was.
pub normalize_positions-other_user :
    (u v : ℕ) (t : Tier) (rows : List Assignment)
    → u ≢ v
    → DistinctIds rows
    → tier_rows v t (normalize_positions u rows) ≡ tier_rows v t rows
unfolding normalize_positions
normalize_positions-other_user u v t rows ne d =
    other_user u (user_rows u rows) v t tier_order rows ne d DistinctTiers-tier_order
      (All-always _ (λ s. group-user_rows u s rows d) tier_order)

-- In a table with distinct ids, the list that normalising returns is what the queries of the user's
-- tiers answer afterwards, from the best tier to the worst.
pub normalized_order_lem :
    (u : ℕ) (rows : List Assignment)
    → DistinctIds rows
    → normalized_order u rows
      ≡ concat_tiers (λ t. tier_rows u t (normalize_positions u rows)) tier_order
unfolding normalized_order ordered_groups
normalized_order_lem u rows d = go tier_order
  where
    go :
        (tiers : List Tier)
        → ordered_groups tiers (user_rows u rows)
          ≡ concat_tiers (λ t. tier_rows u t (normalize_positions u rows)) tiers
    go [] = refl
    go (t ∷ tiers) =
        ap₂ (λ xs ys. xs ++ ys)
          (ap (renumber 1) (group-user_rows u t rows d)
            ∙ sym (tier_rows-normalize_positions u t rows d))
          (go tiers)
