-- ===== src/Domain/User.antt =====
-- `stored_user` of domain.py: the row of the signed-in identity.
use text.Mathlib.Text.{◌==◌ as str_eq}
use golf_rank.Base.{
  ℕ, ◌+◌, String, Option, none, some, List, [], ◌∷◌, ◌++◌, if◌then◌else◌, any, Result, ok, raise,
}

pub record User : Type 0 where
  pub id : ℕ
  pub provider_subject : String

pub record Accounts : Type 0 where
  pub users : List User
  -- the primary keys of `deleted_identities`
  pub deleted : List String
  pub next_id : ℕ

unfoldable pub find_user : String → List User → Option User
find_user subject [] = none
find_user subject (u ∷ users) =
    if str_eq u.provider_subject subject then some u else find_user subject users

abbrev pub new_user : Accounts → String → User
new_user db subject = record { id = db.next_id; provider_subject = subject }

-- `create=True` for an identity without a row.
abbrev pub create_user : Accounts → String → Result (Accounts × User)
create_user db subject =
    if any (λ s. str_eq s subject) db.deleted
    then raise 410 "Account has been deleted"
    else ok (
      record db { users = db.users ++ new_user db subject ∷ []; next_id = db.next_id + 1 },
      new_user db subject,
    )

abbrev pub found_or_created : Accounts → String → Option User → Result (Accounts × User)
found_or_created db subject none = create_user db subject
found_or_created db subject (some user) = ok (db, user)

-- `stored_user(session, current, create=True)`
unfoldable pub stored_user_created : Accounts → String → Result (Accounts × User)
stored_user_created db subject = found_or_created db subject (find_user subject db.users)
