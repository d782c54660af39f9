-- ===== src/Misc/Mask/Plain.antt =====
-- mask_match() always ends, and compares a mask without wildcards by strcasecmp().
use native.Mathlib.Numerals.{add-one}
use mx3bot.Base.{
  ℕ, zero, suc, ◌+◌, ◌≤◌, ◌<◌, ◌≡◌, ◌≢◌, refl, Bool, false, Option, none, some, [], ◌∷◌, ◌==◌,
  length, arith, Bool-cases, Option-cases, inl, inr, Yields, yields, Yields-if, Yields-inv,
}
use mx3bot.CString.{Str, is_empty, to_lower, str_case_eq}
use mx3bot.Misc.Mask.{
  compare_text, skip_wildcards, segment, last_occurrence, match_loop, mask_match, past_text,
  past_wildcards, seek,
}
use mx3bot.Misc.Mask.Glob.{Stops, compare_text-Stops}

length-skip_wildcards : (m : Str) → length (skip_wildcards m) ≤ length m
unfolding skip_wildcards
length-skip_wildcards [] = omega arith
length-skip_wildcards (c ∷ m) = ground (arith, length-skip_wildcards m)

length-skip_wildcards_star :
    (c : ℕ) (m : Str) → c ≡ b'*' → length (skip_wildcards (c ∷ m)) ≤ length m
unfolding skip_wildcards
length-skip_wildcards_star c m e = ground (arith, length-skip_wildcards m)

abbrev Fits : ℕ → Option (Str × Str) → Type 0
Fits n none = Unit {0}
Fits n (some (m, v)) = length m ≤ n

Fits-suc : (n : ℕ) (o : Option (Str × Str)) → Fits n o → Fits (suc n) o
Fits-suc n none h = tt
Fits-suc n (some (m, v)) h = omega arith

compare_text-Fits : (m v : Str) → Fits (length m) (compare_text m v)
unfolding compare_text
compare_text-Fits [] v = omega arith
compare_text-Fits (c ∷ m) [] = elim (Bool-cases (c == b'*')) [
  | inl star ↦ rw star (omega arith)
  | inr other ↦ rw other tt
]
compare_text-Fits (c ∷ m) (d ∷ v) = elim (Bool-cases (c == b'*')) [
  | inl star ↦ rw star (omega arith)
  | inr other ↦ elim (Bool-cases (to_lower c == to_lower d)) [
    | inl same ↦ rw (other, same) (Fits-suc (length m) _ (compare_text-Fits m v))
    | inr differs ↦ rw (other, differs) tt
  ]
]

abbrev Ends : Option Bool → Type 0
Ends = Yields (λ (b : Bool). Unit {0})

past_text-Ends :
    (rest : Str → Str → Option Bool) (n : ℕ) (o : Option (Str × Str))
    → ((m v : Str) → length m < n → Ends (rest m v))
    → Stops o
    → Fits n o
    → Ends (past_text rest o)
unfolding past_text past_wildcards seek
past_text-Ends rest n none ends stops fits = yields tt
past_text-Ends rest n (some ([], v)) ends stops fits = yields tt
past_text-Ends rest n (some (c ∷ m, v)) ends stops fits =
    let m2 = skip_wildcards (c ∷ m) in
    Yields-if (is_empty m2) (λ last. yields tt)
      λ inner. elim (Option-cases (last_occurrence (segment m2) v)) [
        | inl missing ↦ rw (missing, seek) (yields tt)
        | inr (w, found) ↦
            rw (found, seek) (ends m2 w (omega (arith, length-skip_wildcards_star c m stops)))
      ]

match_loop-Ends : (fuel : ℕ) (m v : Str) → length m < fuel → Ends (match_loop fuel m v)
unfolding match_loop
match_loop-Ends zero m v h = absurd (omega arith)
match_loop-Ends (suc fuel) [] v h = yields tt
match_loop-Ends (suc fuel) (c ∷ m) v h =
    Yields-if (is_empty v) (λ e. yields tt)
      λ e.
        past_text-Ends (match_loop fuel) (length (c ∷ m)) (compare_text (c ∷ m) v)
          (λ m' v' l. match_loop-Ends fuel m' v' (omega arith)) (compare_text-Stops (c ∷ m) v)
          (compare_text-Fits (c ∷ m) v)

-- mask_match() ends on every mask and value.
pub mask_match-total :
    (regex : Str → Str → Bool) (mask val : Str) → (b : Bool) × (mask_match regex mask val ≡ some b)
unfolding mask_match
mask_match-total regex [] val = (is_empty val, refl)
mask_match-total regex (c ∷ mask) val = elim (Bool-cases (c == b'$')) [
  | inl regular ↦ (regex mask val, rw regular)
  | inr other ↦
      let (b, e, _) =
        Yields-inv (match_loop-Ends (length (c ∷ mask) + 1) (c ∷ mask) val (omega arith)) in
      (b, rw other e)
]

-- No character of the mask is a wildcard.
abbrev pub IsPlain : Str → Type 0
IsPlain [] = Unit {0}
IsPlain (c ∷ m) = (c ≢ b'*') × IsPlain m

past_text-IsPlain :
    (rest : Str → Str → Option Bool) (m v : Str)
    → IsPlain m
    → past_text rest (compare_text m v) ≡ some (str_case_eq m v)
unfolding past_text compare_text str_case_eq
past_text-IsPlain rest [] [] h = refl
past_text-IsPlain rest [] (d ∷ v) h = refl
past_text-IsPlain rest (c ∷ m) [] h = elim (Bool-cases (c == b'*')) [
  | inl star ↦ absurd (ground (arith, h.0))
  | inr other ↦ rw other refl
]
past_text-IsPlain rest (c ∷ m) (d ∷ v) h = elim (Bool-cases (c == b'*')) [
  | inl star ↦ absurd (ground (arith, h.0))
  | inr other ↦ elim (Bool-cases (to_lower c == to_lower d)) [
    | inl same ↦ rw (other, same) (past_text-IsPlain rest m v h.1)
    | inr differs ↦ rw (other, differs) refl
  ]
]

match_loop-IsPlain :
    (fuel c : ℕ) (m v : Str)
    → IsPlain (c ∷ m)
    → match_loop (suc fuel) (c ∷ m) v ≡ some (str_case_eq (c ∷ m) v)
unfolding match_loop str_case_eq
match_loop-IsPlain fuel c m [] h = refl
match_loop-IsPlain fuel c m (d ∷ v) h = past_text-IsPlain (match_loop fuel) (c ∷ m) (d ∷ v) h

-- A mask with no wildcard and no leading `$` is matched exactly by the values that strcasecmp()
-- calls equal to it.
pub mask_match-IsPlain :
    (regex : Str → Str → Bool) (c : ℕ) (mask val : Str)
    → c ≢ b'$'
    → IsPlain (c ∷ mask)
    → mask_match regex (c ∷ mask) val ≡ some (str_case_eq (c ∷ mask) val)
unfolding mask_match
mask_match-IsPlain regex c mask val plain h =
    let other : (c == b'$') ≡ false = ground arith in
    rw (other, add-one (suc (length mask)))
      (rw (match_loop-IsPlain (suc (length mask)) c mask val h))
