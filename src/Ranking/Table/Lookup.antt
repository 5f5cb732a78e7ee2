-- ===== src/Ranking/Table/Lookup.antt =====
-- Looking up the row of a user's course, under the unique constraint on (user_id, course_id).
use golf_rank.Base.{
  ℕ, ◌≡◌, ◌≢◌, refl, sym, ap, ap₂, subst, subst₂, ◌∙◌, inl, inr, Bool, true, false, Option, none,
  some, List, [], ◌∷◌, arith, ◌==◌, ==-refl, Bool-cases, All, keep, if◌then◌else◌, any,
}
use golf_rank.Ranking.Table.{Assignment, owns, find_row}
use golf_rank.Ranking.Table.Distinct.{Fresh, DistinctIds}

abbrev pub DistinctKeys : List Assignment → Type 0
DistinctKeys [] = Unit {0}
DistinctKeys (r ∷ rows) = All (λ s. owns r.user_id r.course_id s ≡ false) rows × DistinctKeys rows

-- The rows of the user's course are those with the id of `a`.
abbrev pub Picks : ℕ → ℕ → ℕ → List Assignment → Type 0
Picks user course i rows = All (λ r. owns user course r ≡ (r.id == i)) rows

pub find_row-id :
    (u c i : ℕ) (r : Assignment) (rows : List Assignment)
    → Fresh i rows
    → find_row u c rows ≡ some r
    → r.id ≢ i
unfolding find_row
find_row-id u c i r [] h e = cc
find_row-id u c i r (s ∷ rows) h e = ground (arith, find_row-id u c i r rows h.1)

pub owner : (u c : ℕ) (r : Assignment) → owns u c r ≡ true → (r.user_id ≡ u) × (r.course_id ≡ c)
owner u c r h = ground arith

pub find_row_here :
    (u c : ℕ) (r s : Assignment) (rows : List Assignment)
    → owns u c s ≡ true
    → find_row u c (s ∷ rows) ≡ some r
    → s ≡ r
unfolding find_row
find_row_here u c r s rows o e = ground arith

pub find_row_next :
    (u c : ℕ) (s : Assignment) (rows : List Assignment) (x : Option Assignment)
    → owns u c s ≡ false
    → find_row u c (s ∷ rows) ≡ x
    → find_row u c rows ≡ x
unfolding find_row
find_row_next u c s rows x o e = sym (rw o) ∙ e

pub find_row-owns :
    (u c : ℕ) (r : Assignment) (rows : List Assignment)
    → find_row u c rows ≡ some r
    → owns u c r ≡ true
unfolding find_row
find_row-owns u c r [] e = cc
find_row-owns u c r (s ∷ rows) e = elim (Bool-cases (owns u c s)) [
  | inl o ↦ subst (λ x. owns u c x ≡ true) (find_row_here u c r s rows o e) o
  | inr o ↦ find_row-owns u c r rows (find_row_next u c s rows _ o e)
]

-- Below the row that is found no row owns the key or has the id.
pub Picks-tail :
    (u c i : ℕ) (rows : List Assignment)
    → All (λ s. owns u c s ≡ false) rows
    → Fresh i rows
    → Picks u c i rows
Picks-tail u c i [] h k = tt
Picks-tail u c i (s ∷ rows) h k = (ground arith, Picks-tail u c i rows h.1 k.1)

pub find_row-Picks :
    (u c : ℕ) (r : Assignment) (rows : List Assignment)
    → DistinctIds rows
    → DistinctKeys rows
    → find_row u c rows ≡ some r
    → Picks u c r.id rows
unfolding find_row
find_row-Picks u c r [] d k e = tt
find_row-Picks u c r (s ∷ rows) d k e = elim (Bool-cases (owns u c s)) [
  | inl o ↦
      subst (λ x. Picks u c x.id (s ∷ rows)) (find_row_here u c r s rows o e)
        (
          ground arith,
          Picks-tail u c s.id rows
              (subst₂ (λ x y. All (λ z. owns x y z ≡ false) rows) (owner u c s o).0
                (owner u c s o).1 k.0)
              d.0,
        )
  | inr o ↦ (
    ground (arith, find_row-id u c s.id r rows d.0),
    find_row-Picks u c r rows d.1 k.1 (find_row_next u c s rows _ o e),
  )
]

find_row_some :
    (u c : ℕ) (s : Assignment) (rows : List Assignment)
    → owns u c s ≡ true
    → find_row u c (s ∷ rows) ≢ none
unfolding find_row
find_row_some u c s rows o e = ground arith

pub find_row-none :
    (u c : ℕ) (rows : List Assignment)
    → find_row u c rows ≡ none
    → All (λ s. owns u c s ≡ false) rows
unfolding find_row
find_row-none u c [] e = tt
find_row-none u c (s ∷ rows) e = elim (Bool-cases (owns u c s)) [
  | inl o ↦ absurd (find_row_some u c s rows o e)
  | inr o ↦ (o, find_row-none u c rows (find_row_next u c s rows _ o e))
]

-- Two rows with one id are one row.
Fresh-unique :
    (i : ℕ) (a : Assignment) (rows : List Assignment)
    → Fresh i rows
    → i ≡ a.id
    → All (λ r. r.id ≡ a.id → r ≡ a) rows
Fresh-unique i a [] h e = tt
Fresh-unique i a (r ∷ rows) h e = ((λ f. absurd (h.0 (f ∙ sym e))), Fresh-unique i a rows h.1 e)

pub find_row_unique :
    (u c : ℕ) (a : Assignment) (rows : List Assignment)
    → DistinctIds rows
    → find_row u c rows ≡ some a
    → All (λ r. r.id ≡ a.id → r ≡ a) rows
find_row_unique u c a [] d e = tt
find_row_unique u c a (r ∷ rows) d e = elim (Bool-cases (owns u c r)) [
  | inl o ↦ (
    (λ _. find_row_here u c a r rows o e),
    Fresh-unique r.id a rows d.0 (ap (λ (x : Assignment). x.id) (find_row_here u c a r rows o e)),
  )
  | inr o ↦ (
    (λ f. absurd (find_row-id u c r.id a rows d.0 (find_row_next u c r rows _ o e) (sym f))),
    find_row_unique u c a rows d.1 (find_row_next u c r rows _ o e),
  )
]

-- The row is among those that pass a test that it passes.
pub any-find_row :
    (u c : ℕ) (a : Assignment) (p : Assignment → Bool) (rows : List Assignment)
    → find_row u c rows ≡ some a
    → p a ≡ true
    → any (λ r. r.id == a.id) (keep p rows) ≡ true
any-find_row u c a p [] e h = unfold find_row in cc
any-find_row u c a p (r ∷ rows) e h = elim (Bool-cases (owns u c r)) [
  | inl o ↦
      subst (λ (x : Assignment). any (λ r. r.id == x.id) (keep p (r ∷ rows)) ≡ true)
        (find_row_here u c a r rows o e)
        (rw (subst (λ x. p x ≡ true) (sym (find_row_here u c a r rows o e)) h, ==-refl r.id))
  | inr o ↦ in_tail (p r) (any-find_row u c a p rows (find_row_next u c r rows _ o e) h)
]
  where
    in_tail :
        (kept : Bool)
        → any (λ r. r.id == a.id) (keep p rows) ≡ true
        → any (λ r. r.id == a.id) (if kept then r ∷ keep p rows else keep p rows) ≡ true
    in_tail true h = elim (Bool-cases (r.id == a.id)) [ inl e ↦ rw e | inr e ↦ rw e h ]
    in_tail false h = h

pub keep_none :
    (p : Assignment → Bool) (rows : List Assignment)
    → All (λ r. p r ≡ false) rows
    → keep p rows ≡ []
keep_none p [] h = refl
keep_none p (r ∷ rows) h = rw h.0 (keep_none p rows h.1)

-- Below the row that is found no row owns the key.
pub unowned_below :
    (u c : ℕ) (r : Assignment) (rows : List Assignment)
    → owns u c r ≡ true
    → All (λ s. owns r.user_id r.course_id s ≡ false) rows
    → All (λ s. owns u c s ≡ false) rows
unowned_below u c r rows o =
    subst₂ (λ x y. All (λ s. owns x y s ≡ false) rows) (owner u c r o).0 (owner u c r o).1

-- The rows of the key are that one row.
pub keep-owns :
    (u c : ℕ) (a : Assignment) (rows : List Assignment)
    → DistinctKeys rows
    → find_row u c rows ≡ some a
    → keep (owns u c) rows ≡ a ∷ []
keep-owns u c a [] k e = unfold find_row in absurd (cc e)
keep-owns u c a (r ∷ rows) k e = elim (Bool-cases (owns u c r)) [
  | inl o ↦ rw o (
      ap₂ (λ x xs. x ∷ xs) (find_row_here u c a r rows o e)
        (keep_none (owns u c) rows (unowned_below u c r rows o k.0)))
  | inr o ↦ rw o (keep-owns u c a rows k.1 (find_row_next u c r rows _ o e))
]

pub find_row-All :
    (P : Assignment → Type 0) (u c : ℕ) (r : Assignment) (rows : List Assignment)
    → All P rows
    → find_row u c rows ≡ some r
    → P r
unfolding find_row
find_row-All P u c r [] h e = absurd (cc e)
find_row-All P u c r (s ∷ rows) h e = elim (Bool-cases (owns u c s)) [
  | inl o ↦ subst P (find_row_here u c r s rows o e) h.0
  | inr o ↦ find_row-All P u c r rows h.1 (find_row_next u c s rows _ o e)
]
