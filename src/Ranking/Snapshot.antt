-- ===== src/Ranking/Snapshot.antt =====
-- `_stage_snapshot` of ranking.py: the entries of a snapshot, its confidence and its version, and
-- the rating projections that follow them. Ratings are in tenths of a point, confidences in
-- hundredths.
pub mod Descending
pub mod Tiered
pub mod Confidence
pub mod Entries
use golf_rank.Base.{
  ℕ, ◌+◌, ◌-◌, ◌*◌, min, max, String, Bool, true, false, not, ◌&&◌, ◌||◌, Option, none, some, List,
  [], ◌∷◌, ◌++◌, ◌==◌, leb, if◌then◌else◌, keep, map, length,
}
use golf_rank.Base.Rounding.{Rounding}
use golf_rank.Ranking.Tier.{Tier, not_sure, same_tier}
use golf_rank.Ranking.Rating.{rating}
use golf_rank.Ranking.Table.{Assignment}
use golf_rank.Ranking.Compare.{Answer, course_a, course_b, too_close}

-- A row of `comparisons`.
pub record Comparison : Type 0 where
  pub user_id : ℕ
  pub course_a_id : ℕ
  pub course_b_id : ℕ
  pub preferred_course_id : Option ℕ
  pub outcome : Answer

-- Decisive and uncertain comparisons of a course.
pub record Counts : Type 0 where
  pub decisive : ℕ
  pub uncertain : ℕ

-- `outcome in ("course_a", "course_b", "decisive")`
abbrev pub is_decisive : Answer → Bool
is_decisive course_a = true
is_decisive course_b = true
is_decisive too_close = false

-- `counts[course][bucket] += 1`
abbrev pub count_for : ℕ → Answer → (ℕ → Counts) → ℕ → Counts
count_for course outcome counts c =
    if course == c
    then (if is_decisive outcome
        then record (counts c) { decisive = (counts c).decisive + 1 }
        else record (counts c) { uncertain = (counts c).uncertain + 1 })
    else counts c

unfoldable pub count_all : List Comparison → (ℕ → Counts) → ℕ → Counts
count_all [] counts = counts
count_all (c ∷ comparisons) counts =
    count_all comparisons
      (count_for c.course_b_id c.outcome (count_for c.course_a_id c.outcome counts))

-- `_comparison_counts`, with (0, 0) for a course that has none.
abbrev pub comparison_counts : ℕ → List Comparison → ℕ → Counts
comparison_counts user comparisons =
    count_all (keep (λ c. c.user_id == user) comparisons)
      (λ _. record { decisive = 0; uncertain = 0 })

-- `_confidence`
unfoldable pub confidence : Counts → ℕ
confidence c = max 15 (min 95 ((35 + c.decisive * 15) - c.uncertain * 10))

pub data Label : Type 0 where
  high medium low : Label

-- `_confidence_label`
unfoldable pub confidence_label : ℕ → Label
confidence_label score = if leb 75 score then high else if leb 50 score then medium else low

pub record Entry : Type 0 where
  pub rank : ℕ
  pub course_id : ℕ
  pub tier : Tier
  pub tier_position : ℕ
  pub personal_rating : ℕ
  pub confidence_score : ℕ
  pub label : Label
  pub incomplete : Bool

-- The finished rows of a tier are counted apart from the unfinished ones.
abbrev pub alike : Tier → Bool → Assignment → Bool
alike tier incomplete r =
    same_tier r.tier tier && (if r.is_incomplete then incomplete else not incomplete)

-- `tier_counts` and `incomplete_tier_counts`
unfoldable pub tier_count : Tier → Bool → List Assignment → ℕ
tier_count tier incomplete rows = length (keep (alike tier incomplete) rows)

abbrev pub ranked : List Assignment → List Assignment
ranked rows = keep (λ r. not (same_tier r.tier not_sure)) rows

abbrev pub unranked : List Assignment → List Assignment
unranked rows = keep (λ r. same_tier r.tier not_sure) rows

-- `tier_indexes[tier] += 1`, or the same of `incomplete_tier_indexes`.
abbrev pub step_index : Assignment → (Tier → Bool → ℕ) → Tier → Bool → ℕ
step_index r indexes tier incomplete =
    if alike tier incomplete r then indexes tier incomplete + 1 else indexes tier incomplete

abbrev pub make_entry : (ℕ → Counts) → ℕ → Assignment → ℕ → Entry
make_entry counts rank r score = record {
  rank = rank;
  course_id = r.course_id;
  tier = r.tier;
  tier_position = r.ordinal_position;
  personal_rating = score;
  confidence_score = confidence (counts r.course_id);
  label = confidence_label (confidence (counts r.course_id));
  incomplete = r.is_incomplete;
}

abbrev pub cons_entry : (ℕ → Entry) → Option ℕ → Option (List Entry) → Option (List Entry)
cons_entry make none rest = none
cons_entry make (some score) none = none
cons_entry make (some score) (some entries) = some (make score ∷ entries)

abbrev pub sum : List ℕ → ℕ
sum [] = 0
sum (n ∷ ns) = n + sum ns

-- `max(version) or 0`
unfoldable pub last_version : List ℕ → ℕ
last_version [] = 0
last_version (v ∷ versions) = max v (last_version versions)

-- A row of `user_course_ratings` of the user.
pub record Projection : Type 0 where
  pub rated_course : ℕ
  pub round_id : ℕ
  pub rated_tier : Tier
  pub score : ℕ
  pub certainty : ℕ

unfoldable pub entry_of : ℕ → List Entry → Option Entry
entry_of course [] = none
entry_of course (e ∷ entries) = if e.course_id == course then some e else entry_of course entries

unfoldable pub projection_of : ℕ → List Projection → Option Projection
projection_of course [] = none
projection_of course (p ∷ ps) = if p.rated_course == course then some p else projection_of course ps

abbrev pub follow_entry : Projection → Entry → Projection
follow_entry p e = record p {
  rated_tier = e.tier;
  score = e.personal_rating;
  certainty = e.confidence_score;
}

module _ (rd : Rounding) (counts : ℕ → Counts) (totals : Tier → Bool → ℕ) where
  -- The loop over the ranked rows; `none` is a KeyError of `_rating`.
  unfoldable pub entries_from : (Tier → Bool → ℕ) → ℕ → List Assignment → Option (List Entry)
  entries_from indexes rank [] = some []
  entries_from indexes rank (r ∷ rows) =
      cons_entry (make_entry counts rank r)
        (rating rd r.tier (indexes r.tier r.is_incomplete) (totals r.tier r.is_incomplete))
        (entries_from (step_index r indexes) (rank + 1) rows)

module _ (rd : Rounding) where
  unfoldable pub snapshot_entries : (ℕ → Counts) → List Assignment → Option (List Entry)
  snapshot_entries counts rows =
      entries_from rd counts (λ tier incomplete. tier_count tier incomplete (ranked rows))
        (λ _ _. 0) 1 (ranked rows)

  -- `round(sum(confidence_scores) / len(confidence_scores), 2)`
  unfoldable pub overall_confidence : List Entry → ℕ
  overall_confidence [] = 0
  overall_confidence (e ∷ entries) =
      rd.round_quot (sum (map (λ x. x.confidence_score) (e ∷ entries))) (length (e ∷ entries))
