-- ===== src/Rounds/Companions/Valid.antt =====
-- Which friends a round can name.
use golf_rank.Base.{
  ℕ, ◌≡◌, refl, sym, ap, ap₂, ◌∙◌, inl, inr, Bool, true, false, not, ◌&&◌, ◌||◌, List, [], ◌∷◌,
  arith, ◌==◌, if◌then◌else◌, keep, any, every, is_empty, remove, dedupe, Bool-cases, ok, raise,
  map,
}
use golf_rank.Domain.Courses.{among}
use golf_rank.Domain.Audience.{Edge, outgoing, either_ids}
use golf_rank.Domain.Audience.Mutual.{linked, among-keep, among-outgoing, among-either_ids}
use golf_rank.Domain.User.{User}
use golf_rank.Rounds.Companions.{companion_blocked_ids, same_set, are_taggable, validate_friend_ids}

equal : (a b : ℕ) → (a == b) ≡ true → a ≡ b
equal a b h = ground arith

-- A test on every element only asks for what holds at each of them.
pub every-cong :
    (p q : ℕ → Bool) (xs : List ℕ)
    → ((x : ℕ) → among xs x ≡ true → p x ≡ q x)
    → every p xs ≡ every q xs
every-cong p q [] h = refl
every-cong p q (x ∷ xs) h =
    rw (h x (ground arith))
      (ap (λ b. if q x then b else false) (every-cong p q xs (λ y m. h y (behind y m))))
  where
    behind : (y : ℕ) → among xs y ≡ true → among (x ∷ xs) y ≡ true
    behind y m = elim (Bool-cases (x == y)) [ inl e ↦ rw e refl | inr e ↦ rw e m ]

pub every-true : (xs : List ℕ) → every (λ x. true) xs ≡ true
every-true [] = refl
every-true (x ∷ xs) = every-true xs

every-and : (p q : ℕ → Bool) (xs : List ℕ) → every (λ x. p x && q x) xs ≡ (every p xs && every q xs)
every-and p q [] = refl
every-and p q (x ∷ xs) = ground (arith, every-and p q xs)

every-keep : (p : ℕ → Bool) (xs : List ℕ) → every p (keep p xs) ≡ true
every-keep p [] = refl
every-keep p (x ∷ xs) = elim (Bool-cases (p x)) [
  | inl e ↦ rw e (rw e (every-keep p xs))
  | inr e ↦ rw e (every-keep p xs)
]

every-remove :
    (p : ℕ → Bool) (a : ℕ) (xs : List ℕ) → p a ≡ true → every p (remove a xs) ≡ every p xs
every-remove p a [] h = refl
every-remove p a (x ∷ xs) h = elim (Bool-cases (x == a)) [
  | inl e ↦ let here : p x ≡ true = ap p (equal x a e) ∙ h in rw (e, here) (every-remove p a xs h)
  | inr e ↦ rw e (ap (λ b. if p x then b else false) (every-remove p a xs h))
]

pub every-dedupe : (p : ℕ → Bool) (xs : List ℕ) → every p (dedupe xs) ≡ every p xs
every-dedupe p [] = refl
every-dedupe p (x ∷ xs) = elim (Bool-cases (p x)) [
  | inl e ↦ rw e (every-remove p x (dedupe xs) e ∙ every-dedupe p xs)
  | inr e ↦ rw e refl
]

-- The set of the ids found is the set of ids just if every id is found.
same_set-keep : (ids xs : List ℕ) → same_set (keep (among ids) xs) ids ≡ every (among xs) ids
same_set-keep ids xs = rw (every-keep (among ids) xs) (
    every-cong (among (keep (among ids) xs)) (among xs) ids
      (λ x m. among-keep (among ids) x xs ∙ rw m refl))

empty-keep : (ids xs : List ℕ) → is_empty (keep (among ids) xs) ≡ every (λ x. not (among ids x)) xs
empty-keep ids [] = refl
empty-keep ids (x ∷ xs) = elim (Bool-cases (among ids x)) [
  | inl e ↦ rw e refl
  | inr e ↦ rw e (empty-keep ids xs)
]

every-other : (y : ℕ) (xs : List ℕ) → every (λ x. not (y == x)) xs ≡ not (among xs y)
every-other y [] = refl
every-other y (x ∷ xs) = ground (arith, every-other y xs)

-- Two lists are disjoint whichever is asked.
every-apart : (xs ys : List ℕ) → every (λ x. not (among ys x)) xs ≡ every (λ y. not (among xs y)) ys
every-apart xs [] = every-true xs
every-apart xs (y ∷ ys) =
    every-cong (λ x. not (among (y ∷ ys) x)) (λ x. not (y == x) && not (among ys x)) xs
      (λ x m. ground arith)
    ∙ every-and (λ x. not (y == x)) (λ x. not (among ys x)) xs
    ∙ rw (every-other y xs, every-apart xs ys) (ground arith)

pub every_self : (xs : List ℕ) → every (among xs) xs ≡ true
every_self xs = every-cong (among xs) (λ x. true) xs (λ x m. m) ∙ every-true xs

is_known : List User → ℕ → Bool
is_known users f = any (λ u. u.id == f) users

among-user_ids : (users : List User) (f : ℕ) → among (map (λ u. u.id) users) f ≡ is_known users f
unfolding is_known
among-user_ids [] f = refl
among-user_ids (u ∷ users) f = ap (λ b. if u.id == f then true else b) (among-user_ids users f)

module _ (users : List User) (follows blocks : List Edge) (user : ℕ) where
  -- A friend that a round can name: a known user whom the user follows, no block between them.
  abbrev pub is_taggable : ℕ → Bool
  is_taggable f =
      any (λ u. u.id == f) users
      && (linked follows user f && not (linked blocks user f || linked blocks f user))

  empty-blocked :
      (ids : List ℕ)
      → is_empty (companion_blocked_ids blocks user ids)
        ≡ every (λ f. not (linked blocks user f || linked blocks f user)) ids
  unfolding companion_blocked_ids
  empty-blocked [] = refl
  empty-blocked (x ∷ xs) =
      empty-keep (x ∷ xs) (either_ids user blocks)
      ∙ every-apart (either_ids user blocks) (x ∷ xs)
      ∙ every-cong _ _ (x ∷ xs) (λ f m. ap not (among-either_ids user f blocks))

  are_taggable-every :
      (ids : List ℕ) → are_taggable users follows blocks user ids ≡ every is_taggable ids
  unfolding is_known
  are_taggable-every ids =
      rw
        (
          same_set-keep ids (map (λ u. u.id) users),
          same_set-keep ids (outgoing user follows),
          empty-blocked ids,
        )
        (sym (
          every-and _ _ ids
          ∙ ap₂ (λ a b. a && b) (every-cong _ _ ids (λ f m. sym (among-user_ids users f)))
              (every-and _ _ ids
                ∙ ap (λ b. b && every (λ f. not (linked blocks user f || linked blocks f user)) ids)
                    (every-cong _ _ ids (λ f m. sym (among-outgoing user f follows))))))

  -- The friends of a round are accepted just if each of them is a user whom the user follows and no
  -- block stands between the two in either direction. They are then answered once each, in the order
  -- of their first mention.
  pub validate_friend_ids_lem :
      (ids : List ℕ)
      → validate_friend_ids users follows blocks user ids ≡ (
          if every is_taggable ids
          then ok (dedupe ids)
          else raise 422 "All friend_user_ids must be followed users")
  unfolding validate_friend_ids
  validate_friend_ids_lem [] = refl
  validate_friend_ids_lem (x ∷ xs) =
      rw (are_taggable-every (dedupe (x ∷ xs)), every-dedupe is_taggable (x ∷ xs)) refl
