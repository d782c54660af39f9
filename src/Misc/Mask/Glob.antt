-- ===== src/Misc/Mask/Glob.antt =====
-- What a mask means, and that mask_match() accepts nothing else.
use mx3bot.Base.{
  ℕ, zero, suc, ◌+◌, ◌≡◌, ◌≢◌, Bool, true, false, Option, none, some, [], ◌∷◌, ◌==◌, length, arith,
  Bool-cases, Option-cases, inl, inr, some_eq, ap, subst, sym, ◌++◌,
}
use mx3bot.CString.{Str, is_empty, to_lower}
use mx3bot.Misc.Mask.{
  compare_text, skip_wildcards, segment, starts_with, last_occurrence, match_loop, mask_match,
  past_text, past_wildcards, seek,
}

-- A wildcard stands for any text, and any other character for itself in either case.
pub data Glob : Str → Str → Type 0 where
  done : Glob [] []
  char :
      {c d : ℕ} {m v : Str} → c ≢ b'*' → to_lower c ≡ to_lower d → Glob m v → Glob (c ∷ m) (d ∷ v)
  skip : {c : ℕ} {m v : Str} → c ≡ b'*' → Glob m v → Glob (c ∷ m) v
  more : {c d : ℕ} {m v : Str} → c ≡ b'*' → Glob (c ∷ m) v → Glob (c ∷ m) (d ∷ v)

-- What is left where the basic compare stops.
abbrev Left : Option (Str × Str) → Type 0
Left none = ⊥
Left (some (m, v)) = Glob m v

Glob-compare_text : (m v : Str) → Left (compare_text m v) → Glob m v
unfolding compare_text
Glob-compare_text [] v g = g
Glob-compare_text (c ∷ m) [] g = elim (Bool-cases (c == b'*')) [
  | inl star ↦ rw star at g
  | inr other ↦ absurd (rw other at g)
]
Glob-compare_text (c ∷ m) (d ∷ v) g = elim (Bool-cases (c == b'*')) [
  | inl star ↦ rw star at g
  | inr other ↦ elim (Bool-cases (to_lower c == to_lower d)) [
    | inl same ↦ char (ground arith) (ground arith) (Glob-compare_text m v (rw (other, same) at g))
    | inr differs ↦ absurd (rw (other, differs) at g)
  ]
]

-- The compare stops at the end of the mask or at a wildcard.
abbrev pub Stops : Option (Str × Str) → Type 0
Stops none = Unit {0}
Stops (some ([], v)) = Unit {0}
Stops (some (c ∷ m, v)) = c ≡ b'*'

pub compare_text-Stops : (m v : Str) → Stops (compare_text m v)
unfolding compare_text
compare_text-Stops [] v = tt
compare_text-Stops (c ∷ m) [] = elim (Bool-cases (c == b'*')) [
  | inl star ↦ rw star (ground arith)
  | inr other ↦ rw other tt
]
compare_text-Stops (c ∷ m) (d ∷ v) = elim (Bool-cases (c == b'*')) [
  | inl star ↦ rw star (ground arith)
  | inr other ↦ elim (Bool-cases (to_lower c == to_lower d)) [
    | inl same ↦ rw (other, same) (compare_text-Stops m v)
    | inr differs ↦ rw (other, differs) tt
  ]
]

Glob-skip_wildcards : (m v : Str) → Glob (skip_wildcards m) v → Glob m v
unfolding skip_wildcards
Glob-skip_wildcards [] v g = g
Glob-skip_wildcards (c ∷ m) v g = elim (Bool-cases (c == b'*')) [
  | inl star ↦ skip (ground arith) (Glob-skip_wildcards m v (rw star at g))
  | inr other ↦ rw other at g
]

-- A wildcard swallows what stands before the rest.
Glob-wildcard : (c : ℕ) (m u v : Str) → c ≡ b'*' → Glob (c ∷ m) v → Glob (c ∷ m) (u ++ v)
Glob-wildcard c m [] v e g = g
Glob-wildcard c m (d ∷ u) v e g = more e (Glob-wildcard c m u v e g)

last_occurrence-suffix : (p v w : Str) → last_occurrence p v ≡ some w → (u : Str) × (u ++ w ≡ v)
unfolding last_occurrence
last_occurrence-suffix p [] w e = cc
last_occurrence-suffix p (d ∷ v) w e = elim (Option-cases (last_occurrence p v)) [
  | inr (w', found) ↦
      let (u, whole) = last_occurrence-suffix p v w' found in
      let same : some w' ≡ some w = rw found at e in
      (d ∷ u, ap (◌∷◌ d) (subst (λ x. u ++ x ≡ v) (some_eq same) whole))
  | inl missing ↦ elim (Bool-cases (starts_with p (d ∷ v))) [
    | inl here ↦
        let same : some (d ∷ v) ≡ some w = rw (missing, here) at e in ([], sym (some_eq same))
    | inr nowhere ↦ absurd (cc (rw (missing, nowhere) at e))
  ]
]

pub Glob-all : (c : ℕ) (m v : Str) → c ≡ b'*' → Glob (c ∷ m) [] → Glob (c ∷ m) v
Glob-all c m [] e g = g
Glob-all c m (d ∷ v) e g = more e (Glob-all c m v e g)

-- What the passes that follow accept is right.
abbrev Sound : (Str → Str → Option Bool) → Type 0
Sound rest = (m v : Str) → rest m v ≡ some true → Glob m v

past_wildcards-Glob :
    (rest : Str → Str → Option Bool) (c : ℕ) (m v : Str)
    → Sound rest
    → c ≡ b'*'
    → past_wildcards rest (skip_wildcards (c ∷ m)) v ≡ some true
    → Glob (c ∷ m) v
unfolding past_wildcards seek
past_wildcards-Glob rest c m v sound star e =
    elim (Bool-cases (is_empty (skip_wildcards (c ∷ m)))) [
      | inl last ↦
          Glob-all c m v star (Glob-skip_wildcards (c ∷ m) [] (empty (skip_wildcards (c ∷ m)) last))
      | inr inner ↦ elim (Option-cases (last_occurrence (segment (skip_wildcards (c ∷ m))) v)) [
        | inl missing ↦ absurd (cc (rw (inner, missing) at e))
        | inr (w, found) ↦
            let (u, whole) = last_occurrence-suffix _ v w found in
            let g = sound (skip_wildcards (c ∷ m)) w (rw (inner, found) at e) in
            subst (λ x. Glob (c ∷ m) x) whole
              (Glob-wildcard c m u w star (Glob-skip_wildcards (c ∷ m) w g))
      ]
    ]
  where
    empty : (m : Str) → is_empty m ≡ true → Glob m []
    empty [] h = done
    empty (c ∷ m) h = absurd (cc h)

past_text-Glob :
    (rest : Str → Str → Option Bool) (o : Option (Str × Str))
    → Sound rest
    → Stops o
    → past_text rest o ≡ some true
    → Left o
unfolding past_text
past_text-Glob rest none sound stops e = absurd (cc e)
past_text-Glob rest (some ([], [])) sound stops e = done
past_text-Glob rest (some ([], d ∷ v)) sound stops e = absurd (cc e)
past_text-Glob rest (some (c ∷ m, v)) sound stops e = past_wildcards-Glob rest c m v sound stops e

match_loop-Glob : (fuel : ℕ) → Sound (match_loop fuel)
unfolding match_loop
match_loop-Glob zero m v e = absurd (cc e)
match_loop-Glob (suc fuel) [] [] e = done
match_loop-Glob (suc fuel) [] (d ∷ v) e = absurd (cc e)
match_loop-Glob (suc fuel) (c ∷ m) [] e = absurd (cc e)
match_loop-Glob (suc fuel) (c ∷ m) (d ∷ v) e = Glob-compare_text (c ∷ m) (d ∷ v) (
    past_text-Glob (match_loop fuel) (compare_text (c ∷ m) (d ∷ v)) (match_loop-Glob fuel)
      (compare_text-Stops (c ∷ m) (d ∷ v)) e)

-- A mask without a leading `$` that mask_match() accepts does match: each wildcard stands for some
-- text, and all other characters agree but for the case of letters.
pub mask_match-Glob :
    (regex : Str → Str → Bool) (c : ℕ) (mask val : Str)
    → c ≢ b'$'
    → mask_match regex (c ∷ mask) val ≡ some true
    → Glob (c ∷ mask) val
unfolding mask_match
mask_match-Glob regex c mask val plain e =
    match_loop-Glob (length (c ∷ mask) + 1) (c ∷ mask) val (rw other at e)
  where
    other : (c == b'$') ≡ false
    other = ground arith
