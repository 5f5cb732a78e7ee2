-- ===== src/Social/Summary/Private.antt =====
-- What does not reach a summary.
use mathlib.Core.Path.{fun_ext}
use golf_rank.Base.{
  ℕ, String, ◌≡◌, refl, ap, ◌∙◌, Bool, true, false, not, ◌&&◌, Option, none, some, List, arith,
  ◌==◌, keep, keep-keep, sort_by, ok, require, ◌>>=◌, ◌>>◌,
}
use golf_rank.Base.Rounding.{Rounding}
use golf_rank.Domain.Courses.{among}
use golf_rank.Domain.Audience.{either_ids}
use golf_rank.Domain.User.{User}
use golf_rank.Rounds.{Round, Visibility, only_me, friends, everyone, RoundState}
use golf_rank.Rounds.Output.{owner_blocked_ids, round_out}
use golf_rank.Rounds.Handlers.{require_user, latest_out, is_newer, first}
use golf_rank.Social.{SocialState}
use golf_rank.Social.Graph.{get_user, or_unknown, relationship_sets, with_base}
use golf_rank.Social.Summary.{
  sees, base_rounds, summary_of, summary_between, get_user_round_summary,
}

abbrev pub is_private : Visibility → Bool
is_private only_me = true
is_private friends = false
is_private everyone = false

-- The rounds without the private ones of the owner.
abbrev pub without_private : ℕ → List Round → List Round
without_private owner rounds =
    keep (λ r. not (r.user_id == owner && is_private r.visibility)) rounds

abbrev pub hide_private : ℕ → SocialState → SocialState
hide_private owner db =
    with_base db (record db.base { rounds = without_private owner db.base.rounds })

not_private :
    (v : Visibility) (b follows : Bool)
    → ((b && sees false follows v) && not (b && is_private v)) ≡ (b && sees false follows v)
not_private only_me b follows = ground arith
not_private friends b follows = ground arith
not_private everyone b follows = ground arith

keep-ext :
    (p q : Round → Bool) (xs : List Round) → ((r : Round) → p r ≡ q r) → keep p xs ≡ keep q xs
keep-ext p q xs h = ap (λ r. keep r xs) (fun_ext h)

base_rounds-without_private :
    (owner : ℕ) (follows : Bool) (rounds : List Round)
    → base_rounds owner false follows (without_private owner rounds)
      ≡ base_rounds owner false follows rounds
base_rounds-without_private owner follows rounds =
    keep-keep _ _ rounds
    ∙ keep-ext _ _ rounds (λ r. not_private r.visibility (r.user_id == owner) follows)

latest_out-rounds :
    (db : RoundState) (rounds : List Round) (o : Option Round)
    → latest_out (record db { rounds = rounds }) o ≡ latest_out db o
unfolding round_out owner_blocked_ids
latest_out-rounds db rounds none = refl
latest_out-rounds db rounds (some r) = refl

module _ (rd : Rounding) where
  summary_of-rounds :
      (year : ℕ) (db : RoundState) (own is_mutual : Bool) (rounds shown : List Round)
      → summary_of rd year (record db { rounds = rounds }) own is_mutual shown
        ≡ summary_of rd year db own is_mutual shown
  summary_of-rounds year db own is_mutual rounds shown =
      rw (latest_out-rounds db rounds (first (sort_by is_newer shown))) refl

  summary_between-private :
      (year viewer owner : ℕ) (db : SocialState)
      → (owner == viewer) ≡ false
      → summary_between rd year viewer owner (hide_private owner db)
        ≡ summary_between rd year viewer owner db
  summary_between-private year viewer owner db other =
      let (followed_ids, mutual_ids) = relationship_sets viewer db.base.follows in
      rw other (
        summary_of-rounds year db.base false (among mutual_ids owner)
          (without_private owner db.base.rounds)
          (base_rounds owner false (among followed_ids owner)
            (without_private owner db.base.rounds))
        ∙ ap (summary_of rd year db.base false (among mutual_ids owner))
            (base_rounds-without_private owner (among followed_ids owner) db.base.rounds))

  -- What a user is told of the rounds of another is the same, answer or error, as if the other's private
  -- rounds were not there.
  pub get_user_round_summary-private :
      (subject : String) (year owner : ℕ) (db : SocialState) (viewer : User)
      → require_user db.base.ranking.accounts subject ≡ ok viewer
      → (owner == viewer.id) ≡ false
      → get_user_round_summary rd subject year owner (hide_private owner db)
        ≡ get_user_round_summary rd subject year owner db
  unfolding get_user_round_summary
  get_user_round_summary-private subject year owner db viewer u other = rw u (
      ap
        (λ x. or_unknown (get_user owner db.base.ranking.accounts.users) >>= λ target.
          (require (not (among (either_ids viewer.id db.base.blocks) owner)) 404 "User not found"
            >> x))
        (summary_between-private year viewer.id owner db other))
