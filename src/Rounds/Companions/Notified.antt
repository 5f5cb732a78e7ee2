-- ===== src/Rounds/Companions/Notified.antt =====
-- What the loop over the recipients creates.
use golf_rank.Base.{
  ℕ, ◌+◌, String, ◌≡◌, refl, sym, ap, ◌∙◌, inl, inr, Bool, true, false, not, ◌&&◌, ◌||◌, Option,
  none, some, List, [], ◌∷◌, ◌++◌, map, arith, ◌==◌, ==-refl, if◌then◌else◌, keep, any, every,
  Bool-cases,
}
use golf_rank.Domain.Courses.{among}
use golf_rank.Domain.People.{
  Preferences, Notification, NotificationType, followed_you, mutual_follow, contact_joined,
  tagged_in_round, reacted_to_round, is_tag, is_about, is_not_false, notifications_enabled,
  preferences_of,
}
use golf_rank.Rounds.{RoundCompanion, Identity, friend, guest}
use golf_rank.Rounds.Companions.{
  is_tag_of, tag_notification, is_skipped, notify_tagged, friends_of, tagged_ids, add_companions,
  replace_companions,
}

any-append :
    (p : Notification → Bool) (xs : List Notification) (n : Notification)
    → any p (xs ++ n ∷ []) ≡ (any p xs || p n)
any-append p [] n = elim (Bool-cases (p n)) [ inl e ↦ rw e refl | inr e ↦ rw e refl ]
any-append p (x ∷ xs) n = elim (Bool-cases (p x)) [
  | inl e ↦ rw e refl
  | inr e ↦ rw e (any-append p xs n)
]

equal : (a b : ℕ) → (a == b) ≡ true → a ≡ b
equal a b h = ground arith

abbrev pub is_tagging : NotificationType → Bool
is_tagging tagged_in_round = true
is_tagging followed_you = false
is_tagging mutual_follow = false
is_tagging contact_joined = false
is_tagging reacted_to_round = false

abbrev pub concerns : ℕ → Option ℕ → Bool
concerns r none = false
concerns r (some q) = q == r

abbrev pub is_off : Option Bool → Bool
is_off none = false
is_off (some b) = not b

-- A user has notifications on unless the row of the user's preferences turns them off.
abbrev pub wants_notifications : ℕ → List Preferences → Bool
wants_notifications v [] = true
wants_notifications v (p ∷ ps) =
    if p.user_id == v then not (is_off p.notifications) else wants_notifications v ps

wants_lem : (v : ℕ) (ps : List Preferences) → notifications_enabled ps v ≡ wants_notifications v ps
unfolding notifications_enabled preferences_of
wants_lem v [] = refl
wants_lem v (p ∷ ps) = elim (Bool-cases (p.user_id == v)) [
  | inl e ↦ rw e (value p.notifications)
  | inr e ↦ rw e (wants_lem v ps)
]
  where
    value : (o : Option Bool) → is_not_false o ≡ not (is_off o)
    value none = refl
    value (some true) = refl
    value (some false) = refl

module _ (ps : List Preferences) (actor round_id : ℕ) (previous : List ℕ) where
  -- A notification that tells `v` of a tag of the actor in the round.
  abbrev pub tells : ℕ → Notification → Bool
  tells v n =
      (n.recipient_user_id == v && n.actor_user_id == actor)
      && (is_tagging n.notification_type && concerns round_id n.subject_id)

  abbrev pub notified : ℕ → List Notification → Bool
  notified v ns = any (tells v) ns

  -- Nothing speaks against telling `v`.
  abbrev pub is_due : ℕ → List Notification → Bool
  is_due v sent =
      (not (among previous v) && not (v == actor))
      && (wants_notifications v ps && not (notified v sent))

  tells_lem : (v : ℕ) (n : Notification) → is_tag_of actor round_id v n ≡ tells v n
  tells_lem v n =
      rw (type n.notification_type, subject n.subject_id)
        (regroup (n.recipient_user_id == v) (n.actor_user_id == actor)
          (is_tagging n.notification_type) (concerns round_id n.subject_id))
    where
      type : (t : NotificationType) → is_tag t ≡ is_tagging t
      type tagged_in_round = refl
      type followed_you = refl
      type mutual_follow = refl
      type contact_joined = refl
      type reacted_to_round = refl

      subject : (o : Option ℕ) → is_about round_id o ≡ concerns round_id o
      subject none = refl
      subject (some q) = refl

      regroup : (a b c d : Bool) → (a && (b && (c && d))) ≡ ((a && b) && (c && d))
      regroup a b c d = ground arith

  any-tells :
      (v : ℕ) (sent : List Notification) → any (is_tag_of actor round_id v) sent ≡ notified v sent
  any-tells v [] = refl
  any-tells v (n ∷ sent) = rw (tells_lem v n, any-tells v sent) refl

  due_lem :
      (v : ℕ) (sent : List Notification)
      → not (is_skipped ps actor round_id previous v sent) ≡ is_due v sent
  due_lem v sent =
      rw (wants_lem v ps, any-tells v sent)
        (apart (among previous v) (v == actor) (wants_notifications v ps) (notified v sent))
    where
      apart : (a b c d : Bool) → not ((a || b) || (not c || d)) ≡ ((not a && not b) && (c && not d))
      apart a b c d = ground arith

  -- A notification of another recipient does not count as one of `v`.
  skipped-append :
      (id x v : ℕ) (sent : List Notification)
      → (x == v) ≡ false
      → is_skipped ps actor round_id previous v (sent ++ tag_notification id actor round_id x ∷ [])
        ≡ is_skipped ps actor round_id previous v sent
  skipped-append id x v sent ne =
      rw (any-append (is_tag_of actor round_id v) sent (tag_notification id actor round_id x), ne)
        (ground arith)

  -- What is created for a recipient tells the recipient, and no one else.
  tells_recipient : (id x v : ℕ) → tells v (tag_notification id actor round_id x) ≡ (x == v)
  tells_recipient id x v = rw (==-refl actor, ==-refl round_id) (both (x == v))
    where
      both : (a : Bool) → ((a && true) && true) ≡ a
      both a = ground arith

  notified_or_skipped :
      (id : ℕ) (recipients : List ℕ) (sent : List Notification) (v : ℕ)
      → notified v (notify_tagged ps actor round_id previous id recipients sent)
        ≡ (among recipients v && not (is_skipped ps actor round_id previous v sent))
  unfolding notify_tagged
  notified_or_skipped id [] sent v = refl
  notified_or_skipped id (x ∷ xs) sent v =
      elim (Bool-cases (is_skipped ps actor round_id previous x sent)) [
        | inl s ↦ rw s (elim (Bool-cases (x == v)) [
          | inl e ↦
              let over =
                ap (λ z. is_skipped ps actor round_id previous z sent) (sym (equal x v e)) ∙ s in
              rw e (notified_or_skipped id xs sent v ∙ rw over (ground arith))
          | inr e ↦ rw e (notified_or_skipped id xs sent v)
        ])
        | inr s ↦ rw s (elim (Bool-cases (x == v)) [
          | inl e ↦
              let over =
                ap (λ z. is_skipped ps actor round_id previous z sent) (sym (equal x v e)) ∙ s in
              rw (tells_recipient id x v ∙ e) (rw (e, over) refl)
          | inr e ↦
              let below =
                notified_or_skipped (id + 1) xs (sent ++ tag_notification id actor round_id x ∷ [])
                  v in
              rw (tells_recipient id x v ∙ e)
                (rw e (below ∙ rw (skipped-append id x v sent e) refl))
        ])
      ]

  -- The loop creates a notification that tells a user of the actor's tag in the round just if the user
  -- is among the recipients, was not tagged before, is not the actor, has notifications on, which is
  -- so unless the user's preferences turn them off, and has no such notification yet.
  pub notify_tagged_lem :
      (id : ℕ) (recipients : List ℕ) (sent : List Notification) (v : ℕ)
      → notified v (notify_tagged ps actor round_id previous id recipients sent)
        ≡ (among recipients v && is_due v sent)
  notify_tagged_lem id recipients sent v =
      notified_or_skipped id recipients sent v ∙ ap (λ b. among recipients v && b) (due_lem v sent)

  pub notify_tagged-tagged :
      (id : ℕ) (recipients : List ℕ) (sent : List Notification)
      → every (among previous) recipients ≡ true
      → notify_tagged ps actor round_id previous id recipients sent ≡ []
  unfolding notify_tagged
  notify_tagged-tagged id [] sent h = refl
  notify_tagged-tagged id (x ∷ xs) sent h = elim (Bool-cases (among previous x)) [
    | inl e ↦ rw e (
        notify_tagged-tagged id xs sent
          (sym (ap (λ b. if b then every (among previous) xs else false) e) ∙ h))
    | inr e ↦
        absurd (impossible (sym (ap (λ b. if b then every (among previous) xs else false) e) ∙ h))
  ]
    where
      impossible : false ≡ true → ⊥
      impossible h = cc

friends-append :
    (w : Identity) (xs ys : List ℕ) → friends_of w ++ (xs ++ ys) ≡ (friends_of w ++ xs) ++ ys
friends-append (friend f) xs ys = refl
friends-append (guest name) xs ys = refl

-- The friends that the rows of the round name.
tagged_ids-append :
    (r : ℕ) (xs ys : List RoundCompanion)
    → tagged_ids r (xs ++ ys) ≡ tagged_ids r xs ++ tagged_ids r ys
unfolding tagged_ids
tagged_ids-append r [] ys = refl
tagged_ids-append r (c ∷ xs) ys = elim (Bool-cases (c.round_id == r)) [
  | inl e ↦ rw e (
      ap (λ zs. friends_of c.who ++ zs) (tagged_ids-append r xs ys)
      ∙ friends-append c.who (tagged_ids r xs) (tagged_ids r ys))
  | inr e ↦ rw e (tagged_ids-append r xs ys)
]

tagged_ids-dropped :
    (r : ℕ) (rows : List RoundCompanion)
    → tagged_ids r (keep (λ c. not (c.round_id == r)) rows) ≡ []
unfolding tagged_ids
tagged_ids-dropped r [] = refl
tagged_ids-dropped r (c ∷ rows) = elim (Bool-cases (c.round_id == r)) [
  | inl e ↦ rw e (tagged_ids-dropped r rows)
  | inr e ↦ rw e (rw e (tagged_ids-dropped r rows))
]

tagged_ids-guests :
    (r n : ℕ) (names : List String) → tagged_ids r (add_companions n r (map guest names)) ≡ []
unfolding tagged_ids add_companions
tagged_ids-guests r n [] = refl
tagged_ids-guests r n (name ∷ names) = rw (==-refl r) (tagged_ids-guests r (n + 1) names)

tagged_ids-added :
    (r n : ℕ) (ids : List ℕ) (names : List String)
    → tagged_ids r (add_companions n r (map friend ids ++ map guest names)) ≡ ids
unfolding tagged_ids add_companions
tagged_ids-added r n [] names = tagged_ids-guests r n names
tagged_ids-added r n (f ∷ ids) names =
    rw (==-refl r) (ap (λ xs. f ∷ xs) (tagged_ids-added r (n + 1) ids names))

pub tagged_ids-replace_companions :
    (r n : ℕ) (ids : List ℕ) (names : List String) (rows : List RoundCompanion)
    → tagged_ids r (replace_companions n r ids names rows) ≡ ids
unfolding replace_companions
tagged_ids-replace_companions r n ids names rows =
    tagged_ids-append r (keep (λ c. not (c.round_id == r)) rows)
      (add_companions n r (map friend ids ++ map guest names))
    ∙ rw (tagged_ids-dropped r rows) (tagged_ids-added r n ids names)
