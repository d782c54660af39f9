-- ===== src/Misc/Mask/Starred.antt =====
-- Where mask_match() rejects values that the mask means.
use native.Mathlib.Numerals.{add-one}
use mathlib.Core.List.{append_assoc, tail}
use mx3bot.Base.{
  ℕ, suc, ◌+◌, ◌≤◌, ◌<◌, ◌≡◌, ◌≢◌, refl, Bool, true, false, none, some, [], ◌∷◌, ◌++◌, ◌==◌, length,
  arith, Bool-cases, inl, inr, ap, ◌∙◌, sym,
}
use mx3bot.CString.{Str, fold, is_empty}
use mx3bot.Misc.Mask.{
  compare_text, skip_wildcards, segment, starts_with, last_occurrence, match_loop, mask_match,
  past_text, past_wildcards, seek,
}
use mx3bot.Misc.Mask.Glob.{Glob, Glob-all, done, char, skip}
use mx3bot.Misc.Mask.Plain.{IsPlain}

starts_with-length : (p v : Str) → starts_with p v ≡ true → length p ≤ length v
unfolding starts_with
starts_with-length [] v h = omega arith
starts_with-length (c ∷ p) [] h = absurd (cc h)
starts_with-length (c ∷ p) (d ∷ v) h = ground (arith, starts_with-length p v)

starts_with-eq : (p v : Str) → starts_with p v ≡ true → length p ≡ length v → p ≡ v
unfolding starts_with
starts_with-eq [] [] h e = refl
starts_with-eq [] (d ∷ v) h e = absurd (omega arith)
starts_with-eq (c ∷ p) [] h e = absurd (cc h)
starts_with-eq (c ∷ p) (d ∷ v) h e = ground (arith, starts_with-eq p v)

last_occurrence-short : (p v : Str) → length v < length p → last_occurrence p v ≡ none
unfolding last_occurrence
last_occurrence-short p [] h = refl
last_occurrence-short p (d ∷ v) h = elim (Bool-cases (starts_with p (d ∷ v))) [
  | inl here ↦ absurd (omega (arith, starts_with-length p (d ∷ v) here))
  | inr nowhere ↦ rw (last_occurrence-short p v (omega arith), nowhere)
]

-- In a text of its own length only the text itself occurs.
last_occurrence-other : (p v : Str) → length v ≡ length p → p ≢ v → last_occurrence p v ≡ none
unfolding last_occurrence
last_occurrence-other p [] h e = refl
last_occurrence-other p (d ∷ v) h e = elim (Bool-cases (starts_with p (d ∷ v))) [
  | inl here ↦ absurd (e (starts_with-eq p (d ∷ v) here (sym h)))
  | inr nowhere ↦ rw (last_occurrence-short p v (omega arith), nowhere)
]

starts_with_refl : (p : Str) → starts_with p p ≡ true
unfolding starts_with
starts_with_refl [] = refl
starts_with_refl (c ∷ p) = ground (arith, starts_with_refl p)

last_occurrence-append :
    (u : Str) (c : ℕ) (p : Str) → last_occurrence (c ∷ p) (u ++ c ∷ p) ≡ some (c ∷ p)
unfolding last_occurrence
last_occurrence-append [] c p =
    rw (last_occurrence-short (c ∷ p) p (omega arith), starts_with_refl (c ∷ p))
last_occurrence-append (d ∷ u) c p = rw (last_occurrence-append u c p)

segment-IsPlain : (p m : Str) → IsPlain p → segment (p ++ b'*' ∷ m) ≡ p
unfolding segment
segment-IsPlain [] m h = refl
segment-IsPlain (c ∷ p) m h = ground (arith, h.0, segment-IsPlain p m h.1)

segment-all : (p : Str) → IsPlain p → segment p ≡ p
unfolding segment
segment-all [] h = refl
segment-all (c ∷ p) h = ground (arith, h.0, segment-all p h.1)

skip_wildcards-plain : (c : ℕ) (m : Str) → c ≢ b'*' → skip_wildcards (c ∷ m) ≡ c ∷ m
unfolding skip_wildcards
skip_wildcards-plain c m h = ground arith

compare_text-IsPlain :
    (p m v : Str) → IsPlain p → compare_text (p ++ b'*' ∷ m) (p ++ v) ≡ compare_text (b'*' ∷ m) v
unfolding compare_text
compare_text-IsPlain [] m v h = refl
compare_text-IsPlain (c ∷ p) m v h = ground (arith, h.0, compare_text-IsPlain p m v h.1)

-- After a wildcard, the loop goes on at the last occurrence.
match_loop-star :
    (fuel c : ℕ) (m v : Str)
    → c ≢ b'*'
    → is_empty v ≡ false
    → match_loop (suc fuel) (b'*' ∷ c ∷ m) v
      ≡ seek (match_loop fuel) (c ∷ m) (last_occurrence (segment (c ∷ m)) v)
unfolding match_loop past_text past_wildcards compare_text skip_wildcards
match_loop-star fuel c m [] h e = absurd (cc e)
match_loop-star fuel c m (d ∷ v) h e =
    let other : (c == b'*') ≡ false = ground arith in rw (other, past_text) refl

mask_match-star :
    (regex : Str → Str → Bool) (c : ℕ) (m v : Str)
    → c ≢ b'*'
    → is_empty v ≡ false
    → mask_match regex (b'*' ∷ c ∷ m) v
      ≡ seek (match_loop (length (c ∷ m) + 1)) (c ∷ m) (last_occurrence (segment (c ∷ m)) v)
unfolding mask_match
mask_match-star regex c m v h e =
    rw (add-one (suc (length (c ∷ m))), add-one (length (c ∷ m)))
      (match_loop-star (suc (length (c ∷ m))) c m v h e)

length-fold : (a b : Str) → fold a ≡ fold b → length a ≡ length b
length-fold [] [] e = refl
length-fold [] (d ∷ b) e = absurd (cc e)
length-fold (c ∷ a) [] e = absurd (cc e)
length-fold (c ∷ a) (d ∷ b) e = ap suc (length-fold a b (ap tail e))

Glob-fold : (m v : Str) → IsPlain m → fold m ≡ fold v → Glob m v
Glob-fold [] [] h e = done
Glob-fold [] (d ∷ v) h e = absurd (cc e)
Glob-fold (c ∷ m) [] h e = absurd (cc e)
Glob-fold (c ∷ m) (d ∷ v) h e = char h.0 (ground (arith, e)) (Glob-fold m v h.1 (ap tail e))

-- Behind a wildcard the letters' case counts: a value that differs from the text there in case only
-- is rejected, though the mask means it.
pub mask_match-other_case :
    (regex : Str → Str → Bool) (c : ℕ) (m v : Str)
    → IsPlain (c ∷ m)
    → fold (c ∷ m) ≡ fold v
    → c ∷ m ≢ v
    → (mask_match regex (b'*' ∷ c ∷ m) v ≡ some false) × Glob (b'*' ∷ c ∷ m) v
unfolding seek
mask_match-other_case regex c m [] h e differ = absurd (cc e)
mask_match-other_case regex c m (d ∷ v) h e differ = (
  mask_match-star regex c m (d ∷ v) h.0 refl ∙ rejected,
  skip refl (Glob-fold (c ∷ m) (d ∷ v) h e),
)
  where
    rejected :
        seek (match_loop (length (c ∷ m) + 1)) (c ∷ m) (last_occurrence (segment (c ∷ m)) (d ∷ v))
        ≡ some false
    rejected = rw (
      segment-all (c ∷ m) h,
      last_occurrence-other (c ∷ m) (d ∷ v) (sym (length-fold (c ∷ m) (d ∷ v) e)) differ,
    )

compare_text-all : (p m : Str) → IsPlain p → compare_text (p ++ b'*' ∷ m) p ≡ some (b'*' ∷ m, [])
unfolding compare_text
compare_text-all [] m h = refl
compare_text-all (c ∷ p) m h = ground (arith, h.0, compare_text-all p m h.1)

-- With nothing left of the value, text behind a wildcard is not found.
match_loop-used_up :
    (fuel a : ℕ) (p : Str) (b : ℕ) (q : Str)
    → IsPlain (a ∷ p)
    → b ≢ b'*'
    → match_loop (suc fuel) (a ∷ p ++ b'*' ∷ b ∷ q) (a ∷ p) ≡ some false
unfolding match_loop past_text past_wildcards seek skip_wildcards last_occurrence
match_loop-used_up fuel a p b q h plain =
    let other : (b == b'*') ≡ false = ground arith in rw (compare_text-all (a ∷ p) (b ∷ q) h, other)

pub Glob-text : (p m v : Str) → IsPlain p → Glob m v → Glob (p ++ m) (p ++ v)
Glob-text [] m v h g = g
Glob-text (c ∷ p) m v h g = char h.0 refl (Glob-text p m v h.1 g)

-- The mask *x*y*.
abbrev pub two_texts : Str → Str → Str
two_texts x y = b'*' ∷ (x ++ (b'*' ∷ (y ++ (b'*' ∷ []))))

Glob-two_texts : (x y : Str) → IsPlain x → IsPlain y → Glob (two_texts x y) ((x ++ y) ++ x)
Glob-two_texts x y h k =
    let rest = Glob-all b'*' [] x refl (skip refl done) in
    rw (append_assoc x y x) (skip refl (Glob-text x _ _ h (skip refl (Glob-text y _ _ k rest))))

-- The search takes the last occurrence and never tries an earlier one: with `x` and `y` not empty
-- and without wildcards, the mask *x*y* rejects the value x y x, though it means it.
pub mask_match-last_occurrence :
    (regex : Str → Str → Bool) (a : ℕ) (p : Str) (b : ℕ) (q : Str)
    → IsPlain (a ∷ p)
    → IsPlain (b ∷ q)
    → (mask_match regex (two_texts (a ∷ p) (b ∷ q)) (((a ∷ p) ++ (b ∷ q)) ++ (a ∷ p)) ≡ some false)
      × Glob (two_texts (a ∷ p) (b ∷ q)) (((a ∷ p) ++ (b ∷ q)) ++ (a ∷ p))
unfolding seek
mask_match-last_occurrence regex a p b q h k = (
  mask_match-star regex a (p ++ (b'*' ∷ ((b ∷ q) ++ (b'*' ∷ [])))) (((a ∷ p) ++ (b ∷ q)) ++ (a ∷ p))
        h.0 refl
      ∙ rw
          (
            segment-IsPlain (a ∷ p) ((b ∷ q) ++ (b'*' ∷ [])) h,
            last_occurrence-append ((a ∷ p) ++ (b ∷ q)) a p,
          )
          used_up,
  Glob-two_texts (a ∷ p) (b ∷ q) h k,
)
  where
    used_up :
        match_loop
          (length (a ∷ (p ++ (b'*' ∷ ((b ∷ q) ++ (b'*' ∷ []))))) + 1)
          (a ∷ (p ++ (b'*' ∷ ((b ∷ q) ++ (b'*' ∷ [])))))
          (a ∷ p)
        ≡ some false
    used_up =
        rw (add-one (length (a ∷ (p ++ (b'*' ∷ ((b ∷ q) ++ (b'*' ∷ [])))))))
          (match_loop-used_up _ a p b (q ++ (b'*' ∷ [])) h k.0)
