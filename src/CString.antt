-- ===== src/CString.antt =====
-- C strings, and the functions of <string.h>, <strings.h> and <ctype.h> that the program calls.
-- A string is the list of its bytes before the terminating NUL, and a `char[n]` is the bytes that
-- the last write left in it. `strncpy` writes no terminator where the source has `n` bytes or
-- more; reading such an array on past its end is undefined in C, and the list just ends there.
pub mod Number
use mathlib.Core.Bool.{true≢false}
use mx3bot.Base.{
  ap, ℕ, suc, ◌+◌, ◌≤◌, ◌≡◌, refl, sym, ◌∙◌, ◌↔◌, inl, inr, Bool, true, false, ◌&&◌, List, [], ◌∷◌,
  map, arith, leb, ◌==◌, if◌then◌else◌, Bool-cases, length, take, length-take_le, take_all,
}

abbrev pub Str : Type 0
Str = List ℕ

-- s[0] == 0
abbrev pub is_empty : Str → Bool
is_empty [] = true
is_empty (c ∷ s) = false

unfoldable pub strncpy : ℕ → Str → Str
strncpy n s = take n s

abbrev pub to_lower : ℕ → ℕ
to_lower c = if leb b'A' c && leb c b'Z' then c + 32 else c

abbrev pub is_digit : ℕ → Bool
is_digit c = leb b'0' c && leb c b'9'

-- strcmp(a, b) == 0
unfoldable pub str_eq : Str → Str → Bool
str_eq [] [] = true
str_eq [] (d ∷ b) = false
str_eq (c ∷ a) [] = false
str_eq (c ∷ a) (d ∷ b) = (c == d) && str_eq a b

-- strcasecmp(a, b) == 0
unfoldable pub str_case_eq : Str → Str → Bool
str_case_eq [] [] = true
str_case_eq [] (d ∷ b) = false
str_case_eq (c ∷ a) [] = false
str_case_eq (c ∷ a) (d ∷ b) = (to_lower c == to_lower d) && str_case_eq a b

abbrev pub fold : Str → Str
fold = map to_lower

pub str_eq_iff : (a b : Str) → (str_eq a b ≡ true) ↔ (a ≡ b)
unfolding str_eq
str_eq_iff [] [] = (λ h. refl, λ h. refl)
str_eq_iff [] (d ∷ b) = (λ h. cc, λ h. cc)
str_eq_iff (c ∷ a) [] = (λ h. cc, λ h. cc)
str_eq_iff (c ∷ a) (d ∷ b) =
    (λ h. ground (arith, (str_eq_iff a b).0), λ h. ground (arith, (str_eq_iff a b).1))

-- Two names are equal for strcasecmp exactly if they are equal once folded to lower case.
pub str_case_eq_iff : (a b : Str) → (str_case_eq a b ≡ true) ↔ (fold a ≡ fold b)
unfolding str_case_eq
str_case_eq_iff [] [] = (λ h. refl, λ h. refl)
str_case_eq_iff [] (d ∷ b) = (λ h. cc, λ h. cc)
str_case_eq_iff (c ∷ a) [] = (λ h. cc, λ h. cc)
str_case_eq_iff (c ∷ a) (d ∷ b) =
    (λ h. ground (arith, (str_case_eq_iff a b).0), λ h. ground (arith, (str_case_eq_iff a b).1))

pub str_case_eq_refl : (a : Str) → str_case_eq a a ≡ true
str_case_eq_refl a = (str_case_eq_iff a a).1 refl

pub str_case_eq_sym : (a b : Str) → str_case_eq a b ≡ str_case_eq b a
unfolding str_case_eq
str_case_eq_sym [] [] = refl
str_case_eq_sym [] (d ∷ b) = refl
str_case_eq_sym (c ∷ a) [] = refl
str_case_eq_sym (c ∷ a) (d ∷ b) = ground (arith, str_case_eq_sym a b)

-- Equal names are told from a third alike.
pub str_case_eq_cong : (a b k : Str) → str_case_eq a b ≡ true → str_case_eq a k ≡ str_case_eq b k
str_case_eq_cong a b k h = elim (Bool-cases (str_case_eq b k)) [
  | inl e ↦ (str_case_eq_iff a k).1 ((str_case_eq_iff a b).0 h ∙ (str_case_eq_iff b k).0 e) ∙ sym e
  | inr e ↦ elim (Bool-cases (str_case_eq a k)) [
    | inl e' ↦
        let both =
          (str_case_eq_iff b k).1 (sym ((str_case_eq_iff a b).0 h) ∙ (str_case_eq_iff a k).0 e') in
        cc (both, e')
    | inr e' ↦ e' ∙ sym e
  ]
]

-- An empty name equals no other.
pub str_case_eq_empty :
    (a k : Str) → is_empty k ≡ false → is_empty a ≡ true → str_case_eq a k ≡ false
unfolding str_case_eq
str_case_eq_empty [] [] h e = cc
str_case_eq_empty [] (c ∷ k) h e = refl
str_case_eq_empty (c ∷ a) k h e = cc

pub strncpy_fits : (n : ℕ) (s : Str) → length s ≤ n → strncpy n s ≡ s
unfolding strncpy
strncpy_fits n s h = take_all n s h

pub strncpy_bound : (n : ℕ) (s : Str) → length (strncpy n s) ≤ n
unfolding strncpy
strncpy_bound n s = length-take_le n s

pub is_empty-strncpy : (n : ℕ) (s : Str) → is_empty (strncpy (suc n) s) ≡ is_empty s
unfolding strncpy
is_empty-strncpy n [] = refl
is_empty-strncpy n (c ∷ s) = refl

pub str_eq-str_case_eq : (a b : Str) → str_eq a b ≡ true → str_case_eq a b ≡ true
str_eq-str_case_eq a b h = (str_case_eq_iff a b).1 (ap fold ((str_eq_iff a b).0 h))

pub unequal_names : (a b : Str) → str_case_eq a b ≡ false → str_eq a b ≡ false
unequal_names a b h = elim (Bool-cases (str_eq a b)) [
  | inl e ↦ absurd (true≢false (sym (str_eq-str_case_eq a b e) ∙ h))
  | inr e ↦ e
]

pub str_eq_refl : (a : Str) → str_eq a a ≡ true
str_eq_refl a = (str_eq_iff a a).1 refl
