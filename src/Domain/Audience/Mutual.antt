-- ===== src/Domain/Audience/Mutual.antt =====
-- The members of the lists of Audience.antt.
use golf_rank.Base.{
  ℕ, ◌≡◌, refl, sym, ap, ap₂, ◌∙◌, inl, inr, Bool, true, not, ◌&&◌, ◌||◌, List, [], ◌∷◌, ◌++◌,
  arith, ◌==◌, leb, if◌then◌else◌, keep, any, insert_by, sort_by, Bool-cases,
}
use golf_rank.Domain.Courses.{among}
use golf_rank.Domain.Audience.{Edge, outgoing, incoming, either_ids, unique, friend_ids}

-- Whether there is an edge.
abbrev pub linked : List Edge → ℕ → ℕ → Bool
linked edges u v = any (λ e. e.source == u && e.target == v) edges

pub among-outgoing : (u v : ℕ) (edges : List Edge) → among (outgoing u edges) v ≡ linked edges u v
among-outgoing u v [] = refl
among-outgoing u v (e ∷ edges) = ground (arith, among-outgoing u v edges)

pub among-incoming : (u v : ℕ) (edges : List Edge) → among (incoming u edges) v ≡ linked edges v u
among-incoming u v [] = refl
among-incoming u v (e ∷ edges) = ground (arith, among-incoming u v edges)

pub among-append : (v : ℕ) (xs ys : List ℕ) → among (xs ++ ys) v ≡ (among xs v || among ys v)
among-append v [] ys = refl
among-append v (x ∷ xs) ys = ground (arith, among-append v xs ys)

pub among-either_ids :
    (u v : ℕ) (edges : List Edge)
    → among (either_ids u edges) v ≡ (linked edges u v || linked edges v u)
among-either_ids u v edges =
    among-append v (outgoing u edges) (incoming u edges)
    ∙ ap₂ (λ a b. a || b) (among-outgoing u v edges) (among-incoming u v edges)

among-insert_by : (v x : ℕ) (xs : List ℕ) → among (insert_by leb x xs) v ≡ among (x ∷ xs) v
among-insert_by v x [] = refl
among-insert_by v x (y ∷ xs) = ground (arith, among-insert_by v x xs)

among-sort_by : (v : ℕ) (xs : List ℕ) → among (sort_by leb xs) v ≡ among xs v
among-sort_by v [] = refl
among-sort_by v (x ∷ xs) =
    among-insert_by v x (sort_by leb xs) ∙ ap (λ b. if x == v then true else b) (among-sort_by v xs)

pub among-unique : (v : ℕ) (xs : List ℕ) → among (unique xs) v ≡ among xs v
unfolding unique
among-unique v [] = refl
among-unique v (x ∷ xs) =
    let below = among-unique v xs in
    elim (Bool-cases (among (unique xs) x)) [
      | inl e ↦ rw e (elim (Bool-cases (x == v)) [
        | inl k ↦ rw k (ap (among (unique xs)) (sym (same k)) ∙ e)
        | inr k ↦ rw k below
      ])
      | inr e ↦ rw e (ap (λ b. if x == v then true else b) below)
    ]
  where
    same : (x == v) ≡ true → x ≡ v
    same k = ground (arith, k)

pub among-keep : (p : ℕ → Bool) (v : ℕ) (xs : List ℕ) → among (keep p xs) v ≡ (p v && among xs v)
among-keep p v [] = ground arith
among-keep p v (x ∷ xs) =
    let below = among-keep p v xs in
    elim (Bool-cases (x == v)) [
      | inl k ↦
          let here : p x ≡ p v = ap p (same k) in
          elim (Bool-cases (p v)) [
            | inl e ↦ rw (here, e) (rw k refl)
            | inr e ↦ rw (here, e) (below ∙ rw e refl)
          ]
      | inr k ↦ elim (Bool-cases (p x)) [ inl e ↦ rw e (rw k below) | inr e ↦ rw (e, k) below ]
    ]
  where
    same : (x == v) ≡ true → x ≡ v
    same k = ground (arith, k)

abbrev pub befriended : List Edge → List Edge → List Edge → ℕ → ℕ → Bool
befriended follows blocks mutes u v =
    (linked follows v u
      && (not (linked blocks u v || linked blocks v u)
          && not (linked mutes u v || linked mutes v u)))
    && linked follows u v

-- A user stands among the friends of another just if each of the two follows the other and neither
-- has blocked or muted the other.
pub among-friend_ids :
    (follows blocks mutes : List Edge) (u v : ℕ)
    → among (friend_ids follows blocks mutes u) v ≡ befriended follows blocks mutes u v
unfolding friend_ids
among-friend_ids follows blocks mutes u v =
    among-sort_by v _
    ∙ among-unique v _
    ∙ among-keep _ v (outgoing u follows)
    ∙ rw
        (
          among-outgoing u v follows,
          among-incoming u v follows,
          among-either_ids u v blocks,
          among-either_ids u v mutes,
        )
        refl

-- A user stands among the friends of another just if the other stands among the friends of the
-- first.
pub friend_ids_mutual :
    (follows blocks mutes : List Edge) (u v : ℕ)
    → among (friend_ids follows blocks mutes u) v ≡ among (friend_ids follows blocks mutes v) u
friend_ids_mutual follows blocks mutes u v =
    among-friend_ids follows blocks mutes u v
    ∙ swapped
    ∙ sym (among-friend_ids follows blocks mutes v u)
  where
    swapped : befriended follows blocks mutes u v ≡ befriended follows blocks mutes v u
    swapped = ground arith
