-- ===== src/Ranking/Handlers/Staged.antt =====
-- What the snapshot at the end of a handler does to the state.
use mathlib.Core.Path.{fun_ext}
use golf_rank.Base.{
  ℕ, ◌+◌, ◌≡◌, ◌<◌, refl, sym, ap, subst, ◌∙◌, Bool, List, [], ◌∷◌, arith, All, ok,
}
use golf_rank.Base.Rounding.{Rounding}
use golf_rank.Ranking.Tier.{Tier, tier_order}
use golf_rank.Ranking.Table.{Assignment, tier_rows, renumber}
use golf_rank.Ranking.Table.Distinct.{DistinctIds, DistinctIds-write_positions}
use golf_rank.Ranking.Place.{Assignments}
use golf_rank.Ranking.Place.Keys.{IsWellFormed}
use golf_rank.Ranking.Place.Preserved.{
  DistinctKeys-write_positions, All-write_positions, issued_place,
}
use golf_rank.Ranking.Place.Refines.{board}
use golf_rank.Ranking.Normalize.{
  normalize_positions, normalized_order, write_groups, group, user_rows,
}
use golf_rank.Ranking.Normalize.Dense.{
  concat_tiers, normalized_order_lem, tier_rows-normalize_positions,
  course_order-normalize_positions,
}
use golf_rank.Ranking.Compare.Prefer.{IsNormalized}
use golf_rank.Ranking.Snapshot.{ranked, comparison_counts, last_version}
use golf_rank.Ranking.Snapshot.Descending.{IsDescending, finished_ratings}
use golf_rank.Ranking.Snapshot.Entries.{
  Lists, snapshot_entries-Lists, snapshot_entries-IsDescending,
}
use golf_rank.Ranking.Handlers.{
  Snapshot, RankingState, user_versions, commit_snapshot, make_snapshot, stage_snapshot,
}

groups-IsWellFormed :
    (tiers : List Tier) (grouped rows : List Assignment) (n : ℕ)
    → IsWellFormed (record { rows = rows; next_id = n })
    → IsWellFormed (record { rows = write_groups tiers grouped rows; next_id = n })
unfolding write_groups
groups-IsWellFormed [] grouped rows n w = w
groups-IsWellFormed (t ∷ tiers) grouped rows n w = groups-IsWellFormed tiers grouped _ n (record {
  ids = DistinctIds-write_positions 1 (group t grouped) rows w.ids;
  keys = DistinctKeys-write_positions 1 (group t grouped) rows w.keys;
  issued = All-write_positions (λ r. r.id < n) (issued_place n) 1 (group t grouped) rows w.issued;
})

pub normalize_positions-IsWellFormed :
    (u : ℕ) (s : Assignments)
    → IsWellFormed s
    → IsWellFormed (record s { rows = normalize_positions u s.rows })
unfolding normalize_positions
normalize_positions-IsWellFormed u s w =
    groups-IsWellFormed tier_order (user_rows u s.rows) s.rows s.next_id w

renumber-renumber :
    (k j : ℕ) (rows : List Assignment) → renumber k (renumber j rows) ≡ renumber k rows
unfolding renumber
renumber-renumber k j [] = refl
renumber-renumber k j (r ∷ rows) =
    ap (λ z. record r { ordinal_position = k } ∷ z) (renumber-renumber (k + 1) (j + 1) rows)

pub normalize_positions-IsNormalized :
    (u : ℕ) (t : Tier) (rows : List Assignment)
    → DistinctIds rows
    → IsNormalized u t (normalize_positions u rows)
normalize_positions-IsNormalized u t rows d =
    let e = tier_rows-normalize_positions u t rows d in
    e ∙ sym (renumber-renumber 1 1 (tier_rows u t rows)) ∙ ap (renumber 1) (sym e)

pub board-normalize_positions :
    (u : ℕ) (rows : List Assignment)
    → DistinctIds rows
    → board u (normalize_positions u rows) ≡ board u rows
board-normalize_positions u rows d = fun_ext λ t. course_order-normalize_positions u t rows d

last_version-ge : (vs : List ℕ) (n : ℕ) → last_version vs < n → All (λ v. v < n) vs
unfolding last_version
last_version-ge [] n h = tt
last_version-ge (v ∷ vs) n h = (omega (arith, h), last_version-ge vs n (omega (arith, h)))

-- What a snapshot of a user is to be, after these versions, for a table that holds these rows.
pub record IsSnapshot (versions : List ℕ) (rows : List Assignment) (user : ℕ) (x : Snapshot)
    : Type 0 where
  pub owner : x.user_id ≡ user
  pub newer : All (λ v. v < x.version) versions
  pub listed : Lists 1 (ranked (concat_tiers (λ t. tier_rows user t rows) tier_order)) x.entries
  pub descending : IsDescending (finished_ratings x.entries)

module _ (rd : Rounding) (user : ℕ) (s : RankingState) (d : DistinctIds s.assignments.rows) where
  -- Staging a snapshot never fails, and it answers a snapshot of the rows that it leaves.
  pub stage_snapshot_lem :
      (emit : Bool)
      → (x : Snapshot) × (stage_snapshot rd user emit s ≡ ok (commit_snapshot user emit x s, x))
        × IsSnapshot
            (user_versions user s.snapshots)
            (normalize_positions user s.assignments.rows)
            user
            x
  unfolding stage_snapshot
  stage_snapshot_lem emit =
      let rows = normalized_order user s.assignments.rows in
      let (es, e, listed) = snapshot_entries-Lists rd (comparison_counts user s.comparisons) rows in
      (
        make_snapshot rd user s es,
        rw e refl,
        record {
          owner = refl;
          newer = last_version-ge _ _ (omega arith);
          listed =
              subst (λ z. Lists 1 (ranked z) es) (normalized_order_lem user s.assignments.rows d)
                listed;
          descending =
              snapshot_entries-IsDescending rd (comparison_counts user s.comparisons) user
                s.assignments.rows es e;
        },
      )
