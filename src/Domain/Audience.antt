-- ===== src/Domain/Audience.antt =====
-- Who sees whom: `blocked_ids` and `muted_ids` of domain.py, and the friends of
-- `get_friend_rankings` of ranking.py.
pub mod Mutual
use golf_rank.Base.{
  ℕ, Bool, true, false, not, ◌&&◌, ◌||◌, List, [], ◌∷◌, ◌++◌, map, ◌==◌, leb, if◌then◌else◌, keep,
  any, sort_by,
}
use golf_rank.Domain.Courses.{among}

-- A row of `follows`, `user_blocks` or `user_mutes`: who follows, blocks or mutes whom.
pub record Edge : Type 0 where
  pub source : ℕ
  pub target : ℕ

-- `select(target).where(source == user)`
abbrev pub outgoing : ℕ → List Edge → List ℕ
outgoing user edges = map (λ e. e.target) (keep (λ e. e.source == user) edges)

-- `select(source).where(target == user)`
abbrev pub incoming : ℕ → List Edge → List ℕ
incoming user edges = map (λ e. e.source) (keep (λ e. e.target == user) edges)

-- `set(outgoing) | set(incoming)`: `blocked_ids` of the blocks, `muted_ids` of the mutes.
abbrev pub either_ids : ℕ → List Edge → List ℕ
either_ids user edges = outgoing user edges ++ incoming user edges

-- `set(xs)`, as the list of its elements.
unfoldable pub unique : List ℕ → List ℕ
unique [] = []
unique (x ∷ xs) = let rest = unique xs in if among rest x then rest else x ∷ rest

-- `sorted((following & followers) - blocked - muted)`
unfoldable pub friend_ids : List Edge → List Edge → List Edge → ℕ → List ℕ
friend_ids follows blocks mutes user = sort_by leb (
    unique (
      keep
        (λ x.
          among (incoming user follows) x
          && (not (among (either_ids user blocks) x) && not (among (either_ids user mutes) x)))
        (outgoing user follows)))
