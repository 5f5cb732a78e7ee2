-- ===== src/Ranking/Handlers/Refused.antt =====
-- The errors of `place_in_tiers`.
use golf_rank.Base.{
  ◌≡◌, ◌⊎◌, inl, inr, sym, ap, ◌∙◌, String, not, Option, none, some, List, [], ◌∷◌, Bool-cases,
  HttpException, err, ok_or_err, err≢ok, require, ◌>>=◌, ◌>>◌, arith,
}
use golf_rank.Base.Rounding.{Rounding}
use golf_rank.Domain.Course.{Catalog, require_course}
use golf_rank.Domain.Course.Errors.{status_of, require_course_status}
use golf_rank.Domain.User.{User, Accounts, find_user, stored_user_created, found_or_created}
use golf_rank.Ranking.Place.{Placement}
use golf_rank.Ranking.Place.Keys.{IsWellFormed}
use golf_rank.Ranking.Handlers.{
  RankingState, has_duplicates, placed_courses, resolve_all, place_for, place_in_tiers,
}
use golf_rank.Ranking.Handlers.Placed.{place_for_lem}

resolve_all_status :
    (db : Catalog) (ps : List Placement) (e : HttpException)
    → resolve_all db ps ≡ err e
    → e.status ≡ 404
unfolding resolve_all
resolve_all_status db [] e = λ h. absurd (err≢ok e [] (sym h))
resolve_all_status db (p ∷ ps) e = elim (ok_or_err (require_course db p.course_id)) [
  | inl (course, k) ↦ elim (ok_or_err (resolve_all db ps)) [
    | inl (rest, l) ↦ rw (k, l) (λ h. absurd (err≢ok e _ (sym h)))
    | inr (e', l) ↦ rw (k, l) (λ h. sym (ap status_of h) ∙ resolve_all_status db ps e' l)
  ]
  | inr (e', k) ↦ rw k (λ h. sym (ap status_of h) ∙ require_course_status db p.course_id e' k)
]

created_status :
    (db : Accounts) (subject : String) (found : Option User) (e : HttpException)
    → found_or_created db subject found ≡ err e
    → e.status ≡ 410
created_status db subject none e = ground arith
created_status db subject (some u) e = λ h. absurd (err≢ok e _ (sym h))

abbrev Refusal : HttpException → Type 0
Refusal e = (e.status ≡ 404) ⊎ (e.status ≡ 422) ⊎ (e.status ≡ 410)

module _ (rd : Rounding) (subject : String) (payload : List Placement) (s : RankingState)
    (w : IsWellFormed s.assignments) where
  -- Once the courses are resolved.
  resolved-Refusal :
      (placements : List Placement) (e : HttpException)
      → (require
            (not (has_duplicates (placed_courses placements)))
            422
            "Each course can appear only once per request"
          >> (stored_user_created s.accounts subject >>= place_for rd s placements))
        ≡ err e
      → Refusal e
  resolved-Refusal placements e = elim (Bool-cases (has_duplicates (placed_courses placements))) [
    | inl d ↦ rw d (λ h. inr (inl (sym (ap status_of h))))
    | inr d ↦ elim (ok_or_err (stored_user_created s.accounts subject)) [
      | inl (account, k) ↦
          let (s', x, staged, _) =
            place_for_lem rd subject payload placements s account.0 account.1 w in
          rw (d, k, staged) (λ h. absurd (err≢ok e (s', x) (sym h)))
      | inr (e', k) ↦
          rw (d, k)
            (λ h. inr (
              inr (
                sym (ap status_of h)
                ∙ created_status s.accounts subject (find_user subject s.accounts.users) e'
                    (unfold stored_user_created in k))))
    ]
  ]

  -- If the assignments are well formed, a request to place courses is refused with no status but
  -- 404, 422 and 410.
  pub place_in_tiers_refuses :
      (e : HttpException)
      → place_in_tiers rd subject payload s ≡ err e
      → (e.status ≡ 404) ⊎ (e.status ≡ 422) ⊎ (e.status ≡ 410)
  unfolding place_in_tiers
  place_in_tiers_refuses e = elim (ok_or_err (resolve_all s.catalog payload)) [
    | inl (placements, k) ↦ rw k (resolved-Refusal placements e)
    | inr (e', k) ↦
        rw k (λ h. inl (sym (ap status_of h) ∙ resolve_all_status s.catalog payload e' k))
  ]
