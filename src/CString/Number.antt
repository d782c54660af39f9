-- ===== src/CString/Number.antt =====
-- atoi() of <stdlib.h>, and what printf() makes of `%d`. Values that do not fit an `int` are not
-- modelled: atoi() is undefined on them.
use mx3bot.Base.{
  ℕ, zero, suc, ◌+◌, ◌-◌, ◌*◌, ◌/◌, ◌%◌, ◌≡◌, ◌<◌, Bool, true, false, ◌&&◌, ◌||◌, [], ◌∷◌, ◌++◌,
  leb, ltb, ◌==◌, if◌then◌else◌, arith, Bool-cases, inl, inr, ◌∙◌, ap, refl,
}
use mx3bot.Base.Int.{ℤ, pos, negsuc}
use mx3bot.CString.{Str, is_digit}

-- The digits at the start of a text, read behind `n`.
digits_value : ℕ → Str → ℕ
digits_value n [] = n
digits_value n (c ∷ s) =
    let rest = digits_value (n * 10 + (c - b'0')) s in if is_digit c then rest else n

negated : ℕ → ℤ
negated zero = pos 0
negated (suc n) = negsuc n

-- isspace()
abbrev is_space : ℕ → Bool
is_space c = c == b' ' || (leb 9 c && leb c 13)

signed : Str → ℤ
unfolding negated digits_value
signed [] = pos 0
signed (c ∷ s) =
    if c == b'-'
    then negated (digits_value 0 s)
    else if c == b'+'
    then pos (digits_value 0 s)
    else pos (digits_value 0 (c ∷ s))

skip_space : Str → Str
skip_space [] = []
skip_space (c ∷ s) = if is_space c then skip_space s else c ∷ s

unfoldable pub atoi : Str → ℤ
unfolding signed skip_space
atoi s = signed (skip_space s)

-- The digits of a number; the fuel is enough where it is above the number.
unfoldable pub digits : ℕ → ℕ → Str
digits zero n = []
digits (suc fuel) n =
    let front = digits fuel (n / 10) in
    if ltb n 10 then (n + b'0') ∷ [] else front ++ (n % 10 + b'0') ∷ []

-- `%d`
unfoldable pub format_int : ℤ → Str
unfolding digits
format_int (pos n) = digits (suc n) n
format_int (negsuc n) = b'-' ∷ digits (suc (suc n)) (suc n)

-- Digits, at least one of them.
abbrev pub AreDigits : Str → Type 0
AreDigits [] = true ≡ false
AreDigits (c ∷ []) = is_digit c ≡ true
AreDigits (c ∷ d ∷ s) = (is_digit c ≡ true) × AreDigits (d ∷ s)

AreDigits-append : (s : Str) (c : ℕ) → AreDigits s → is_digit c ≡ true → AreDigits (s ++ c ∷ [])
AreDigits-append [] c h e = e
AreDigits-append (d ∷ []) c h e = (h, e)
AreDigits-append (d ∷ d' ∷ s) c h e = (h.0, AreDigits-append (d' ∷ s) c h.1 e)

digit : (n : ℕ) → is_digit (n % 10 + b'0') ≡ true
digit n = ground arith

below_ten : (n : ℕ) → ltb n 10 ≡ true → is_digit (n + b'0') ≡ true
below_ten n h = ground arith

pub digits-AreDigits : (fuel n : ℕ) → n < fuel → AreDigits (digits fuel n)
unfolding digits
digits-AreDigits zero n h = absurd (omega arith)
digits-AreDigits (suc fuel) n h = elim (Bool-cases (ltb n 10)) [
  | inl e ↦ rw e (below_ten n e)
  | inr e ↦ rw e (
      AreDigits-append (digits fuel (n / 10)) (n % 10 + b'0')
        (digits-AreDigits fuel (n / 10) (ground arith)) (digit n))
]

-- The digits of a number are read as the number.
digits_value-append :
    (a : ℕ) (s : Str) (c : ℕ)
    → AreDigits s
    → is_digit c ≡ true
    → digits_value a (s ++ c ∷ []) ≡ digits_value a s * 10 + (c - b'0')
unfolding digits_value
digits_value-append a [] c h e = cc
digits_value-append a (d ∷ []) c h e = rw (h, e) refl
digits_value-append a (d ∷ d' ∷ s) c h e =
    rw (h.0) (digits_value-append (a * 10 + (d - b'0')) (d' ∷ s) c h.1 e)

digits_value-digits : (fuel n : ℕ) → n < fuel → digits_value 0 (digits fuel n) ≡ n
unfolding digits digits_value
digits_value-digits zero n h = absurd (omega arith)
digits_value-digits (suc fuel) n h = elim (Bool-cases (ltb n 10)) [
  | inl e ↦ rw (e, below_ten n e) (ground arith)
  | inr e ↦
      let front : n / 10 < fuel = ground arith in
      rw
        (
          e,
          digits_value-append 0 (digits fuel (n / 10)) (n % 10 + b'0')
              (digits-AreDigits fuel (n / 10) front) (digit n),
          digits_value-digits fuel (n / 10) front,
        )
        (omega arith)
]

signed-skip_space :
    (c : ℕ) (s : Str)
    → is_digit c ≡ true
    → signed (skip_space (c ∷ s)) ≡ pos (digits_value 0 (c ∷ s))
unfolding signed skip_space
signed-skip_space c s h =
    let space : is_space c ≡ false = ground (arith, h) in
    let minus : (c == b'-') ≡ false = ground (arith, h) in
    let plus : (c == b'+') ≡ false = ground (arith, h) in rw (space, minus, plus) refl

digits_value-signed : (s : Str) → AreDigits s → signed (skip_space s) ≡ pos (digits_value 0 s)
digits_value-signed [] h = cc
digits_value-signed (c ∷ []) h = signed-skip_space c [] h
digits_value-signed (c ∷ d ∷ s) h = signed-skip_space c (d ∷ s) h.0

pub format_int-AreDigits : (n : ℕ) → AreDigits (format_int (pos n))
unfolding format_int
format_int-AreDigits n = digits-AreDigits (suc n) n (omega arith)

pub atoi-format_int : (n : ℕ) → atoi (format_int (pos n)) ≡ pos n
unfolding atoi format_int
atoi-format_int n =
    digits_value-signed (digits (suc n) n) (digits-AreDigits (suc n) n (omega arith))
    ∙ ap pos (digits_value-digits (suc n) n (omega arith))
