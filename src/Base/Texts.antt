-- ===== src/Base/Texts.antt =====
-- Python's `str.strip`, `str.removeprefix`, `str` of a number, and the truth of a text.
use Prim.Native.Nat.{ℕ, zero, suc, ◌/◌, ◌%◌}
use Prim.Native.Char.{code}
use Prim.Native.String.{String, [] as empty, ◌∷◌ as ◌⊳◌, ◌++◌ as ◌⊹◌}
use mathlib.Core.Bool.{Bool, true, false, ◌&&◌, ◌||◌}
use mathlib.Core.Option.{Option, none, some}
use mathlib.Core.List.{List, [], ◌∷◌}
use golf_rank.Base.Tests.{ltb, leb, ◌==◌, if◌then◌else◌}

-- `str.isspace` of one character.
abbrev pub is_space : ℕ → Bool
is_space n =
    (leb 9 n && leb n 13)
    || ((leb 28 n && leb n 32)
        || (n == 133
            || (n == 160
                || (n == 5760
                    || ((leb 8192 n && leb n 8202)
                        || (n == 8232
                            || (n == 8233 || (n == 8239 || (n == 8287 || n == 12288)))))))))

-- `bool(s)`
abbrev pub is_nonempty : String → Bool
is_nonempty empty = false
is_nonempty (c ⊳ s) = true

abbrev pub strip_left : String → String
strip_left empty = empty
strip_left (c ⊳ s) = if is_space (code c) then strip_left s else c ⊳ s

abbrev pub strip_right : String → String
strip_right empty = empty
strip_right (c ⊳ s) =
    let rest = strip_right s in
    if is_space (code c) then (if is_nonempty rest then c ⊳ rest else empty) else c ⊳ rest

abbrev pub strip : String → String
strip s = strip_right (strip_left s)

-- The text after the prefix, where `s` starts with it.
abbrev pub after_prefix : String → String → Option String
after_prefix empty s = some s
after_prefix (c ⊳ p) empty = none
after_prefix (c ⊳ p) (d ⊳ s) = if code c == code d then after_prefix p s else none

abbrev pub text_at : ℕ → List String → String
text_at n [] = empty
text_at zero (t ∷ ts) = t
text_at (suc n) (t ∷ ts) = text_at n ts

abbrev pub digit : ℕ → String
digit n = text_at n ("0" ∷ "1" ∷ "2" ∷ "3" ∷ "4" ∷ "5" ∷ "6" ∷ "7" ∷ "8" ∷ "9" ∷ [])

-- The digits of `n`, on fuel.
abbrev pub digits : ℕ → ℕ → String
digits zero n = empty
digits (suc fuel) n =
    let high = digits fuel (n / 10) in if ltb n 10 then digit n else high ⊹ digit (n % 10)

-- `str(n)`; a number has at most as many digits as its successor.
abbrev pub decimal : ℕ → String
decimal n = digits (suc n) n
