-- ===== src/Ranking/Snapshot/Confidence.antt =====
-- The confidence of a course, and the comparisons that it counts.
use golf_rank.Base.{
  ℕ, ◌+◌, ◌≡◌, ◌≤◌, Bool, true, false, not, ◌&&◌, List, [], ◌∷◌, arith, ◌==◌, if◌then◌else◌, keep,
  length,
}
use golf_rank.Ranking.Snapshot.{
  Comparison, Counts, is_decisive, count_for, count_all, comparison_counts, confidence,
}

-- More decisive and fewer uncertain comparisons never lower the confidence, which stays between
-- 0.15 and 0.95.
pub confidence_mono :
    (c d : Counts)
    → c.decisive ≤ d.decisive
    → d.uncertain ≤ c.uncertain
    → (15 ≤ confidence c) × (confidence c ≤ confidence d) × (confidence d ≤ 95)
unfolding confidence
confidence_mono c d h k = (omega arith, omega arith, omega arith)

-- How often the course stands in a comparison of the user with such an outcome, on either side.
abbrev pub sides : ℕ → Bool → List Comparison → ℕ
sides c wanted comparisons =
    length (
      keep (λ x. x.course_a_id == c && (if is_decisive x.outcome then wanted else not wanted))
        comparisons)
    + length (
        keep (λ x. x.course_b_id == c && (if is_decisive x.outcome then wanted else not wanted))
          comparisons)

count_all_lem :
    (c : ℕ) (comparisons : List Comparison) (counts : ℕ → Counts)
    → ((count_all comparisons counts c).decisive ≡ (counts c).decisive + sides c true comparisons)
      × ((count_all comparisons counts c).uncertain
          ≡ (counts c).uncertain + sides c false comparisons)
unfolding count_all
count_all_lem c [] counts = (omega arith, omega arith)
count_all_lem c (x ∷ comparisons) counts =
    let below =
      count_all_lem c comparisons
        (count_for x.course_b_id x.outcome (count_for x.course_a_id x.outcome counts)) in
    ground (arith, below)

-- The counts of a course are the numbers of its decisive and of its uncertain comparisons by the
-- user, on either side.
pub comparison_counts_lem :
    (u c : ℕ) (comparisons : List Comparison)
    → ((comparison_counts u comparisons c).decisive
        ≡ sides c true (keep (λ x. x.user_id == u) comparisons))
      × ((comparison_counts u comparisons c).uncertain
          ≡ sides c false (keep (λ x. x.user_id == u) comparisons))
comparison_counts_lem u c comparisons =
    let h =
      count_all_lem c (keep (λ x. x.user_id == u) comparisons)
        (λ _. record { decisive = 0; uncertain = 0 }) in
    (omega (arith, h.0), omega (arith, h.1))
