-- ===== src/Social/Feed/Paged.antt =====
-- The feed read page by page.
use mathlib.Core.Path.{fun_ext}
use golf_rank.Base.{
  ℕ, zero, suc, ◌+◌, ◌*◌, ◌<◌, max, ◌≡◌, ◌≢◌, refl, sym, ap, ap₂, subst, ◌∙◌, inl, inr, Bool, true,
  false, not, ◌&&◌, Option, none, some, List, [], ◌∷◌, ◌++◌, arith, ◌==◌, ltb, keep, keep-keep,
  length, length-append, take, drop, sort_by, Bool-cases, All,
}
use golf_rank.Base.Distinct.{DistinctOn, FreshIn, DistinctOn-keep}
use golf_rank.Base.Slices.{
  append_nil, append_assoc, take-drop, take_whole, take-take, length-take-short, length-take-eq,
}
use golf_rank.Base.Sorted.{
  IsSorted, Before, IsSorted-sort_by, IsSorted-keep, DistinctOn-sort_by, keep-sort_by,
}
use golf_rank.Social.{Event, SocialState}
use golf_rank.Social.Feed.{
  Circle, selected, survives, Cursor, not_later, is_past, comes_first, last_of, page_of, feed_rows,
  feed_for,
}
use golf_rank.Social.Feed.Page.{feed_loop_lem}

total : (a b : Event) → comes_first a b ≡ false → comes_first b a ≡ true
total a b h = ground (arith, h)

trans : (a b c : Event) → comes_first a b ≡ true → comes_first b c ≡ true → comes_first a c ≡ true
trans a b c h k = ground (arith, h, k)

-- What stands behind the cursor.
abbrev pub is_after : Option Cursor → Event → Bool
is_after cursor e = not_later cursor e && not (is_past cursor e)

abbrev key : Event → Cursor
key e = (e.created_at, e.id)

before_gone : (x y : Event) → comes_first y x ≡ true → is_after (some (key x)) y ≡ false
before_gone x y h = ground (arith, h)

self_gone : (x : Event) → is_after (some (key x)) x ≡ false
self_gone x = ground arith

behind_kept :
    (x y : Event) → comes_first x y ≡ true → y.id ≢ x.id → is_after (some (key x)) y ≡ true
behind_kept x y h d = strict (apart d)
  where
    apart : y.id ≢ x.id → (y.id == x.id) ≡ false
    apart q = elim (Bool-cases (y.id == x.id)) [
      | inl e ↦ absurd (q (ground (arith, e)))
      | inr e ↦ e
    ]

    strict : (y.id == x.id) ≡ false → is_after (some (key x)) y ≡ true
    strict q = ground (arith, q, h)

keep_behind :
    (x : Event) (ys : List Event)
    → Before comes_first x ys
    → FreshIn (λ e. e.id) x.id ys
    → keep (is_after (some (key x))) ys ≡ ys
keep_behind x [] b f = refl
keep_behind x (y ∷ ys) b f =
    rw (behind_kept x y b.0 f.0) (ap (λ zs. y ∷ zs) (keep_behind x ys b.1 f.1))

All-middle {ℓ} :
    (P : Event → Type ℓ) (xs : List Event) (x : Event) (ys : List Event)
    → All P (xs ++ x ∷ ys)
    → P x
All-middle P [] x ys h = h.0
All-middle P (z ∷ xs) x ys h = All-middle P xs x ys h.1

-- Behind the cursor of an event stands what follows it.
after_position :
    (xs : List Event) (x : Event) (ys : List Event)
    → IsSorted comes_first (xs ++ x ∷ ys)
    → DistinctOn (λ e. e.id) (xs ++ x ∷ ys)
    → keep (is_after (some (key x))) (xs ++ x ∷ ys) ≡ ys
after_position [] x ys s d = rw (self_gone x) (keep_behind x ys s.0 d.0)
after_position (z ∷ xs) x ys s d =
    rw (before_gone x z (All-middle (λ y. comes_first z y ≡ true) xs x ys s.0))
      (after_position xs x ys s.1 d.1)

-- The last of a list that is not empty.
last_split :
    (xs : List Event)
    → 0 < length xs
    → (init : List Event) × (x : Event) × (xs ≡ init ++ x ∷ []) × (last_of xs ≡ some (key x))
unfolding last_of
last_split [] h = absurd (impossible h)
  where
    impossible : 0 < 0 → ⊥
    impossible h = omega arith
last_split (x ∷ []) h = ([], x, refl, refl)
last_split (x ∷ y ∷ xs) h =
    let (init, z, e, l) = last_split (y ∷ xs) (omega arith) in (x ∷ init, z, ap (λ ys. x ∷ ys) e, l)

module _ (c : Circle) (db : SocialState) where
  abbrev pub shown : Event → Bool
  shown e = selected c e && survives c db.base.rounds db.base.ranking.accounts.users e

  -- Every event that the viewer may see, newest first.
  abbrev pub whole_feed : List Event
  whole_feed = keep shown (sort_by comes_first db.activity)

  keep-ext :
      (p q : Event → Bool) (xs : List Event) → ((e : Event) → p e ≡ q e) → keep p xs ≡ keep q xs
  keep-ext p q xs h = ap (λ r. keep r xs) (fun_ext h)

  shuffle : (a b s t : Bool) → ((not a && b) && (s && t)) ≡ ((t && not a) && (s && b))
  shuffle a b s t = ground arith

  -- The rows of a page that pass are those of the whole feed behind the cursor.
  rows_lem :
      (cursor : Option Cursor)
      → keep
          (λ e.
            not (is_past cursor e) && survives c db.base.rounds db.base.ranking.accounts.users e)
          (feed_rows c cursor db.activity)
        ≡ keep (is_after cursor) whole_feed
  rows_lem cursor =
      ap (keep _) (
        sym (
          keep-sort_by comes_first total trans (λ e. selected c e && not_later cursor e)
            db.activity))
      ∙ keep-keep _ _ (sort_by comes_first db.activity)
      ∙ keep-ext _ _ (sort_by comes_first db.activity) (λ e.
        shuffle (is_past cursor e) (survives c db.base.rounds db.base.ranking.accounts.users e)
          (selected c e) (not_later cursor e))
      ∙ sym (keep-keep (is_after cursor) shown (sort_by comes_first db.activity))

  -- A page holds the first events behind its cursor.
  pub feed_for_lem :
      (limit : ℕ) (cursor : Option Cursor)
      → feed_for c limit cursor db
        ≡ page_of limit (take (limit + 1) (keep (is_after cursor) whole_feed))
  feed_for_lem limit cursor = ap (page_of limit) (
      feed_loop_lem (feed_rows c cursor db.activity) _ limit (max 100 (limit * 2)) (omega arith)
        (suc (length (feed_rows c cursor db.activity))) 0 [] (omega arith) (omega arith)
      ∙ ap (take (limit + 1)) (rows_lem cursor))

  abbrev pub follow_cursor : Option Cursor → (Cursor → List Event) → List Event
  follow_cursor none read = []
  follow_cursor (some k) read = read k

  module _ (limit : ℕ) where
    -- A client that asks for pages until there is no cursor, `fuel` pages at most.
    unfoldable pub read_feed : ℕ → Option Cursor → List Event
    read_feed zero cursor = []
    read_feed (suc fuel) cursor =
        let page = feed_for c limit cursor db in
        page.items ++ follow_cursor page.next_cursor (λ k. read_feed fuel (some k))

    module _ (some_limit : 0 < limit) (distinct : DistinctOn (λ e. e.id) db.activity) where
      whole-IsSorted : IsSorted comes_first whole_feed
      whole-IsSorted =
          IsSorted-keep comes_first total trans shown (sort_by comes_first db.activity)
            (IsSorted-sort_by comes_first total trans db.activity)

      whole-DistinctOn : DistinctOn (λ e. e.id) whole_feed
      whole-DistinctOn =
          DistinctOn-keep (λ e. e.id) shown (sort_by comes_first db.activity)
            (DistinctOn-sort_by comes_first (λ e. e.id) db.activity distinct)

      read_from :
          (fuel : ℕ) (cursor : Option Cursor) (before left : List Event)
          → keep (is_after cursor) whole_feed ≡ left
          → whole_feed ≡ before ++ left
          → length left < fuel
          → read_feed fuel cursor ≡ left
      unfolding read_feed
      read_from zero cursor before left k w f = absurd (impossible f)
        where
          impossible : length left < 0 → ⊥
          impossible q = omega arith
      read_from (suc fuel) cursor before left k w f =
          let page : feed_for c limit cursor db ≡ page_of limit (take (limit + 1) left) =
            feed_for_lem limit cursor ∙ ap (λ xs. page_of limit (take (limit + 1) xs)) k in
          let rest = drop limit left in
          let same : take limit (take (limit + 1) left) ≡ take limit left =
            take-take limit (limit + 1) left (omega arith) in
          let on : whole_feed ≡ (before ++ take limit left) ++ rest =
            w
            ∙ ap (λ xs. before ++ xs) (sym (take-drop limit left))
            ∙ sym (append_assoc before (take limit left) rest) in
          rw page (elim (Bool-cases (ltb limit (length (take (limit + 1) left)))) [
            | inl a ↦
                let more = longer a in
                let (init, x, e, l) =
                  last_split (take limit (take (limit + 1) left)) (filled more) in
                let split : whole_feed ≡ (before ++ init) ++ x ∷ rest =
                  on
                  ∙ append_assoc before (take limit left) rest
                  ∙ ap (λ xs. before ++ (xs ++ rest)) (sym same ∙ e)
                  ∙ ap (λ xs. before ++ xs) (append_assoc init (x ∷ []) rest)
                  ∙ sym (append_assoc before init (x ∷ rest)) in
                let behind =
                  ap (keep (is_after (some (key x)))) split
                  ∙ after_position (before ++ init) x rest
                      (subst (IsSorted comes_first) split whole-IsSorted)
                      (subst (DistinctOn (λ y. y.id)) split whole-DistinctOn) in
                rw a (
                  rw l (
                    ap₂ (λ xs ys. xs ++ ys) same
                      (read_from fuel (some (key x)) (before ++ take limit left) rest behind on
                        (shrinks more))
                    ∙ take-drop limit left))
            | inr a ↦ rw a (
                append_nil (take (limit + 1) left)
                ∙ take_whole (limit + 1) left (short (length (take (limit + 1) left)) a))
          ])
        where
          over : (n : ℕ) → ltb limit n ≡ true → limit < n
          over n a = ground (arith, a)

          short : (n : ℕ) → ltb limit n ≡ false → n < limit + 1
          short n a = ground (arith, a)

          longer : ltb limit (length (take (limit + 1) left)) ≡ true → limit < length left
          longer a =
              omega
                (arith, over (length (take (limit + 1) left)) a, length-take-short (limit + 1) left)

          filled : limit < length left → 0 < length (take limit (take (limit + 1) left))
          filled q = omega (
            arith,
            q,
            ap length (take-take limit (limit + 1) left (omega arith)),
            length-take-eq limit left (omega (arith, q)),
          )

          shrinks : limit < length left → length (drop limit left) < fuel
          shrinks q = omega (
            arith,
            q,
            f,
            ap length (take-drop limit left),
            length-append (take limit left) (drop limit left),
            length-take-eq limit left (omega (arith, q)),
          )

      -- Reading the feed page after page, each from the cursor of the one before, gives every event
      -- that the user may see, newest first and each once, whatever the page size, provided that the
      -- ids of the events are distinct.
      pub read_feed_lem : (fuel : ℕ) → length whole_feed < fuel → read_feed fuel none ≡ whole_feed
      read_feed_lem fuel f = read_from fuel none [] whole_feed (keep_true whole_feed) refl f
        where
          keep_true : (xs : List Event) → keep (is_after none) xs ≡ xs
          keep_true [] = refl
          keep_true (x ∷ xs) = ap (λ ys. x ∷ ys) (keep_true xs)
