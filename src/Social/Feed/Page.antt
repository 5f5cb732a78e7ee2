-- ===== src/Social/Feed/Page.antt =====
-- What the loop of the feed answers.
use golf_rank.Base.{
  ℕ, zero, suc, ◌+◌, ◌≤◌, ◌<◌, ◌≡◌, refl, sym, ap, subst, ◌∙◌, inl, inr, Bool, true, false, List,
  [], ◌∷◌, ◌++◌, arith, ltb, keep, length, length-append, is_empty, take, drop, Bool-cases,
}
use golf_rank.Base.Slices.{
  append_nil, append_assoc, take-drop, drop-length-take, drop-drop, take-short, take-append,
  take-append-take, keep-append, length-take-short, take_whole,
}
use golf_rank.Social.{Event}
use golf_rank.Social.Feed.{collect, feed_loop}

not_above : (a b : ℕ) → ltb a b ≡ false → b ≤ a
not_above a b h = ground (arith, h)

above : (a b : ℕ) → ltb a b ≡ true → a < b
above a b h = ground (arith, h)

length-snoc : (xs : List Event) (e : Event) → length (xs ++ e ∷ []) ≡ length xs + 1
length-snoc xs e = length-append xs (e ∷ [])

module _ (p : Event → Bool) (limit : ℕ) where
  -- The loop that appends answers what is there and the first of the events that pass.
  pub collect_lem :
      (output events : List Event)
      → length output ≤ limit
      → collect p limit output events ≡ take (limit + 1) (output ++ keep p events)
  unfolding collect
  collect_lem output [] h = sym (
      take-short (limit + 1) (output ++ []) (omega (arith, length-append output []))
      ∙ append_nil output)
  collect_lem output (e ∷ events) h = elim (Bool-cases (p e)) [
    | inl q ↦ rw q (elim (Bool-cases (ltb limit (length (output ++ e ∷ [])))) [
      | inl f ↦ rw f (sym (full (above limit (length (output ++ e ∷ [])) f)))
      | inr f ↦ rw f (
          collect_lem (output ++ e ∷ []) events (not_above limit (length (output ++ e ∷ [])) f)
          ∙ ap (take (limit + 1)) (append_assoc output (e ∷ []) (keep p events)))
    ])
    | inr q ↦ rw q (collect_lem output events h)
  ]
    where
      full :
          limit < length (output ++ e ∷ [])
          → take (limit + 1) (output ++ e ∷ keep p events) ≡ output ++ e ∷ []
      full f =
          ap (take (limit + 1)) (sym (append_assoc output (e ∷ []) (keep p events)))
          ∙ take-append (limit + 1) (output ++ e ∷ []) (keep p events) (omega (arith, f))
          ∙ take-short (limit + 1) (output ++ e ∷ []) (omega (arith, length-snoc output e, h))

keep_all : (xs : List Event) → keep (λ _. true) xs ≡ xs
keep_all [] = refl
keep_all (x ∷ xs) = ap (λ ys. x ∷ ys) (keep_all xs)

empty_nil : (n : ℕ) (xs : List Event) → 0 < n → is_empty (take n xs) ≡ true → xs ≡ []
empty_nil zero xs h e = absurd (impossible h)
  where
    impossible : 0 < 0 → ⊥
    impossible h = omega arith
empty_nil (suc n) [] h e = refl
empty_nil (suc n) (x ∷ xs) h e = absurd cc

length-nonempty : (xs : List Event) → is_empty xs ≡ false → 0 < length xs
length-nonempty [] h = absurd cc
length-nonempty (x ∷ xs) h = omega arith

module _ (rows : List Event) (passes : Event → Bool) (limit batch_size : ℕ)
    (some_batch : 0 < batch_size) where
  -- One round of the loop.
  batch_lem :
      (output events : List Event)
      → length output ≤ limit
      → collect (λ _. true) limit output (collect passes limit [] events)
        ≡ take (limit + 1) (output ++ keep passes events)
  batch_lem output events h =
      collect_lem (λ _. true) limit output (collect passes limit [] events) h
      ∙ ap (λ xs. take (limit + 1) (output ++ xs))
          (keep_all (collect passes limit [] events)
            ∙ collect_lem passes limit [] events (omega arith))
      ∙ take-append-take (limit + 1) (limit + 1) output (keep passes events) (omega arith)

  -- With fuel for every row that is left, the loop answers what is there and the first of the rows left
  -- that pass.
  pub feed_loop_lem :
      (fuel offset : ℕ) (output : List Event)
      → length (drop offset rows) < fuel
      → length output ≤ limit
      → feed_loop rows passes limit batch_size fuel offset output
        ≡ take (limit + 1) (output ++ keep passes (drop offset rows))
  unfolding feed_loop
  feed_loop_lem zero offset output f h = absurd (impossible f)
    where
      impossible : length (drop offset rows) < 0 → ⊥
      impossible q = omega arith
  feed_loop_lem (suc fuel) offset output f h =
      let left = drop offset rows in
      let batch = take batch_size left in
      let rest = drop batch_size left in
      let next = collect (λ _. true) limit output (collect passes limit [] batch) in
      let filled : next ≡ take (limit + 1) (output ++ keep passes batch) =
        batch_lem output batch h in
      let parts : take (limit + 1) (output ++ keep passes left)
          ≡ take (limit + 1) ((output ++ keep passes batch) ++ keep passes rest) =
        ap (λ xs. take (limit + 1) (output ++ xs))
          (ap (keep passes) (sym (take-drop batch_size left)) ∙ keep-append passes batch rest)
        ∙ ap (take (limit + 1))
            (sym (append_assoc output (keep passes batch) (keep passes rest))) in
      elim (Bool-cases (is_empty batch)) [
        | inl e ↦ rw e (
            sym (
              ap (λ xs. take (limit + 1) (output ++ keep passes xs))
                (empty_nil batch_size left some_batch e)
              ∙ ap (take (limit + 1)) (append_nil output)
              ∙ take-short (limit + 1) output (omega (arith, h))))
        | inr e ↦ rw e (elim (Bool-cases (ltb limit (length next))) [
          | inl a ↦ rw a (
              filled
              ∙ sym (
                  parts
                  ∙ take-append (limit + 1) (output ++ keep passes batch) (keep passes rest) (
                      wide next (output ++ keep passes batch) (above limit (length next) a)
                        filled)))
          | inr a ↦ rw a (elim (Bool-cases (ltb (length batch) batch_size)) [
            | inl b ↦ rw b (
                filled
                ∙ ap (λ xs. take (limit + 1) (output ++ keep passes xs))
                    (take_whole batch_size left (above (length batch) batch_size b)))
            | inr b ↦
                let onward : drop (offset + length batch) rows ≡ rest =
                  sym (drop-drop offset (length batch) rows) ∙ drop-length-take batch_size left in
                let whole : next ≡ output ++ keep passes batch =
                  filled
                  ∙ take_whole (limit + 1) (output ++ keep passes batch) (
                      fits next (output ++ keep passes batch) (not_above limit (length next) a)
                        filled) in
                rw b (
                  feed_loop_lem fuel (offset + length batch) next
                    (subst (λ xs. length xs < fuel) (sym onward)
                      (shrinks (length-nonempty batch e) f))
                    (not_above limit (length next) a)
                  ∙ ap (λ xs. take (limit + 1) (next ++ keep passes xs)) onward
                  ∙ ap (λ xs. take (limit + 1) (xs ++ keep passes rest)) whole
                  ∙ sym parts)
          ])
        ])
      ]
    where
      wide :
          (next xs : List Event)
          → limit < length next
          → next ≡ take (limit + 1) xs
          → limit + 1 ≤ length xs
      wide next xs a q = omega (arith, a, ap length q, length-take-short (limit + 1) xs)

      fits :
          (next xs : List Event)
          → length next ≤ limit
          → next ≡ take (limit + 1) xs
          → length (take (limit + 1) xs) < limit + 1
      fits next xs a q = omega (arith, a, ap length q)

      shrinks :
          0 < length (take batch_size (drop offset rows))
          → length (drop offset rows) < suc fuel
          → length (drop batch_size (drop offset rows)) < fuel
      shrinks a q = omega (
        arith,
        a,
        q,
        ap length (take-drop batch_size (drop offset rows)),
        length-append (take batch_size (drop offset rows)) (drop batch_size (drop offset rows)),
      )
