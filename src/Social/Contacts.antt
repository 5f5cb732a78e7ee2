-- ===== src/Social/Contacts.antt =====
-- The contacts of social.py: `link_contacts`, `linked_contact_status`, `unlink_contacts` and
-- `notify_linked_contacts`. A contact is known by the keyed hash of its identifier, which is a number
-- here.
use golf_rank.Base.{
  ℕ, ◌+◌, String, Bool, not, ◌&&◌, ◌||◌, Option, none, some, List, [], ◌∷◌, ◌++◌, ◌==◌, ltb,
  if◌then◌else◌, keep, map, length, dedupe, Result, ok, err, ◌>>=◌,
}
use golf_rank.Domain.Courses.{among}
use golf_rank.Domain.Audience.{either_ids, unique}
use golf_rank.Domain.User.{User, Accounts, find_user, stored_user_created}
use golf_rank.Domain.People.{notifications_enabled, Notification, contact_joined, has_notified}
use golf_rank.Rounds.{RoundState}
use golf_rank.Rounds.Handlers.{require_user}
use golf_rank.Social.{SocialState}
use golf_rank.Social.Graph.{new_notification, with_accounts, with_base}

-- A row of `linked_contacts`.
pub record LinkedContact : Type 0 where
  pub user_id : ℕ
  pub identifier_hash : ℕ

pub record ContactState : Type 0 where
  pub social : SocialState
  pub contacts : List LinkedContact

abbrev pub hashes_of : ℕ → List LinkedContact → List ℕ
hashes_of user rows = map (λ c. c.identifier_hash) (keep (λ c. c.user_id == user) rows)

-- The users other than this one who have the identity among their contacts.
abbrev pub recipients_of : ℕ → ℕ → List LinkedContact → List ℕ
recipients_of user identity rows = unique (
    map (λ c. c.user_id)
      (keep (λ c. c.identifier_hash == identity && not (c.user_id == user)) rows))

abbrev pub is_passed_over : ℕ → RoundState → ℕ → List Notification → Bool
is_passed_over user db recipient sent =
    (among (either_ids recipient db.blocks) user
      || not (notifications_enabled db.preferences recipient))
    || has_notified recipient user contact_joined sent

module _ (user : ℕ) (db : RoundState) where
  -- The loop over the recipients of one identity, given what is there.
  unfoldable pub notify_recipients : ℕ → List ℕ → List Notification → List Notification
  notify_recipients id [] sent = []
  notify_recipients id (recipient ∷ recipients) sent =
      let n = new_notification id recipient user contact_joined in
      let skipped = notify_recipients id recipients sent in
      let added = notify_recipients (id + 1) recipients (sent ++ n ∷ []) in
      if is_passed_over user db recipient sent then skipped else n ∷ added

  -- `notify_linked_contacts`, for the hashes of the verified identifiers.
  unfoldable pub notify_linked :
      List LinkedContact → ℕ → List ℕ → List Notification → List Notification
  notify_linked contacts id [] sent = []
  notify_linked contacts id (identity ∷ identities) sent =
      let new = notify_recipients id (recipients_of user identity contacts) sent in
      new ++ notify_linked contacts (id + length new) identities (sent ++ new)

abbrev pub linked_rows : ℕ → List ℕ → List LinkedContact
linked_rows user hashes = map (λ h. record { user_id = user; identifier_hash = h }) hashes

abbrev pub without_rows : ℕ → List LinkedContact → List LinkedContact
without_rows user rows = keep (λ c. not (c.user_id == user)) rows

-- The rows after a link: the old ones go first when they are replaced.
unfoldable pub link_rows : ℕ → Bool → List ℕ → List LinkedContact → List LinkedContact
link_rows user replace hashes rows =
    let kept = if replace then without_rows user rows else rows in
    kept ++ linked_rows user (keep (λ h. not (among (hashes_of user kept) h)) (dedupe hashes))

-- The verified identifiers of the caller, or the error of asking for them, in which case nobody is
-- notified.
abbrev pub joined_notifications :
    ℕ → RoundState → List LinkedContact → Result (List ℕ) → List Notification
joined_notifications user db contacts (err e) = []
joined_notifications user db contacts (ok identities) =
    notify_linked user db contacts db.next_notification (unique identities) db.notifications

abbrev pub with_notifications : List Notification → RoundState → RoundState
with_notifications created db = record db {
  notifications = db.notifications ++ created;
  next_notification = db.next_notification + length created;
}

abbrev pub link_for :
    Bool → List ℕ → Result (List ℕ) → ContactState → Accounts × User → ContactState × List ℕ
link_for replace hashes identities db (accounts, user) =
    let base = with_accounts accounts db.social.base in
    let contacts = link_rows user.id replace hashes db.contacts in
    let created = joined_notifications user.id base contacts identities in
    (
      record {
        social = with_base db.social (with_notifications created base);
        contacts = contacts;
      },
      map (λ n. n.id) created,
    )

-- `link_contacts`, its identifiers hashed, or the error 422 of one that is no identifier.
unfoldable pub link_contacts :
    String
    → Bool
    → Result (List ℕ)
    → Result (List ℕ)
    → ContactState
    → Result (ContactState × List ℕ)
link_contacts subject replace hashed identities db = do
  account ← stored_user_created db.social.base.ranking.accounts subject
  hashes ← hashed
  ok (link_for replace hashes identities db account)

abbrev pub contact_count : ContactState → Option User → ℕ
contact_count db none = 0
contact_count db (some user) = length (hashes_of user.id db.contacts)

-- `linked_contact_status`
unfoldable pub linked_contact_status : String → ContactState → Bool × ℕ
linked_contact_status subject db =
    let count = contact_count db (find_user subject db.social.base.ranking.accounts.users) in
    (ltb 0 count, count)

-- `unlink_contacts`
unfoldable pub unlink_contacts : String → ContactState → Result ContactState
unlink_contacts subject db = do
  user ← require_user db.social.base.ranking.accounts subject
  ok (record db { contacts = without_rows user.id db.contacts })
