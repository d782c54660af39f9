-- ===== src/Strtok.antt =====
-- strtok() and strrchr() of <string.h>. The static pointer of strtok() is the text that is left.
use mx3bot.Base.{
  ℕ, ◌≡◌, ◌∙◌, refl, Bool, true, false, ◌||◌, ◌&&◌, not, Option, none, some, [], ◌∷◌, ◌++◌, ◌==◌,
  if◌then◌else◌, arith, ap, Bool-cases, inl, inr,
}
use mx3bot.CString.{Str, is_empty}

unfoldable pub is_in : Str → ℕ → Bool
is_in [] c = false
is_in (d ∷ delims) c = (c == d) || is_in delims c

unfoldable pub skip_delims : Str → Str → Str
unfolding is_in
skip_delims delims [] = []
skip_delims delims (c ∷ s) = if is_in delims c then skip_delims delims s else c ∷ s

unfoldable pub token : Str → Str → Str
unfolding is_in
token delims [] = []
token delims (c ∷ s) = if is_in delims c then [] else c ∷ token delims s

unfoldable pub after_token : Str → Str → Str
unfolding is_in
after_token delims [] = []
after_token delims (c ∷ s) = if is_in delims c then s else after_token delims s

-- The token, or `none` for NULL, and what is left for the next call.
unfoldable pub strtok : Str → Str → Option Str × Str
unfolding skip_delims token after_token
strtok s delims =
    let t = skip_delims delims s in
    if is_empty t then (none, []) else (some (token delims t), after_token delims t)

-- The text before the last `c`, where there is one: what is left when the byte that strrchr()
-- finds is set to 0.
unfoldable pub before_last : ℕ → Str → Option Str
before_last c [] = none
before_last c (d ∷ s) = elim (before_last c s) [
  | some t ↦ some (d ∷ t)
  | none ↦ if d == c then some [] else none
]

-- `if((p = strrchr(s, c))) *p = 0;`
unfoldable pub cut_last : ℕ → Str → Str
unfolding before_last
cut_last c s = elim (before_last c s) [ some t ↦ t | none ↦ s ]

-- No byte of `s` is in `delims`.
abbrev pub IsFree : Str → Str → Type 0
IsFree delims [] = Unit {0}
IsFree delims (c ∷ s) = (is_in delims c ≡ false) × IsFree delims s

token-IsFree :
    (delims s : Str) (d : ℕ) (rest : Str)
    → IsFree delims s
    → is_in delims d ≡ true
    → token delims (s ++ d ∷ rest) ≡ s
unfolding token
token-IsFree delims [] d rest h e = rw e
token-IsFree delims (c ∷ s) d rest h e =
    rw h.0 (ap (λ t. c ∷ t) (token-IsFree delims s d rest h.1 e))

after_token-IsFree :
    (delims s : Str) (d : ℕ) (rest : Str)
    → IsFree delims s
    → is_in delims d ≡ true
    → after_token delims (s ++ d ∷ rest) ≡ rest
unfolding after_token
after_token-IsFree delims [] d rest h e = rw e
after_token-IsFree delims (c ∷ s) d rest h e = rw h.0 (after_token-IsFree delims s d rest h.1 e)

-- A token that is followed by a delimiter.
pub strtok-IsFree :
    (delims : Str) (c : ℕ) (s : Str) (d : ℕ) (rest : Str)
    → IsFree delims (c ∷ s)
    → is_in delims d ≡ true
    → strtok ((c ∷ s) ++ d ∷ rest) delims ≡ (some (c ∷ s), rest)
unfolding strtok skip_delims
strtok-IsFree delims c s d rest h e =
    rw (h.0, token-IsFree delims (c ∷ s) d rest h e, after_token-IsFree delims (c ∷ s) d rest h e)

token_all : (s : Str) → token [] s ≡ s
unfolding token is_in
token_all [] = refl
token_all (c ∷ s) = ap (λ t. c ∷ t) (token_all s)

after_token_all : (s : Str) → after_token [] s ≡ []
unfolding after_token is_in
after_token_all [] = refl
after_token_all (c ∷ s) = after_token_all s

-- With no delimiters all that is left is one token.
pub strtok_all : (c : ℕ) (s : Str) → strtok (c ∷ s) [] ≡ (some (c ∷ s), [])
unfolding strtok skip_delims is_in
strtok_all c s = rw (token_all (c ∷ s), after_token_all (c ∷ s))

before_last-IsFree : (c : ℕ) (s : Str) → IsFree (c ∷ []) s → before_last c s ≡ none
unfolding before_last is_in
before_last-IsFree c [] h = refl
before_last-IsFree c (d ∷ s) h =
    let other : (d == c) ≡ false = ground (arith, h.0) in
    rw (before_last-IsFree c s h.1, other) refl

-- A text without the byte is not cut.
pub cut_last-IsFree : (c : ℕ) (s : Str) → IsFree (c ∷ []) s → cut_last c s ≡ s
unfolding cut_last
cut_last-IsFree c s h = rw (before_last-IsFree c s h, cut_last) refl

before_last_append : (c : ℕ) (s : Str) → before_last c (s ++ c ∷ []) ≡ some s
unfolding before_last
before_last_append c [] = let same : (c == c) ≡ true = ground arith in rw same refl
before_last_append c (d ∷ s) = rw (before_last_append c s) refl

-- A last byte is cut off.
pub cut_last_append : (c : ℕ) (s : Str) → cut_last c (s ++ c ∷ []) ≡ s
unfolding cut_last
cut_last_append c s = rw (before_last_append c s, cut_last) refl

token_last : (delims s : Str) → IsFree delims s → token delims s ≡ s
unfolding token
token_last delims [] h = refl
token_last delims (c ∷ s) h = rw h.0 (ap (λ t. c ∷ t) (token_last delims s h.1))

after_token_last : (delims s : Str) → IsFree delims s → after_token delims s ≡ []
unfolding after_token
after_token_last delims [] h = refl
after_token_last delims (c ∷ s) h = rw h.0 (after_token_last delims s h.1)

-- A token at the end of the text.
pub strtok_last :
    (delims : Str) (c : ℕ) (s : Str)
    → IsFree delims (c ∷ s)
    → strtok (c ∷ s) delims ≡ (some (c ∷ s), [])
unfolding strtok skip_delims
strtok_last delims c s h = rw (h.0, token_last delims (c ∷ s) h, after_token_last delims (c ∷ s) h)

unfoldable pub are_free : Str → Str → Bool
unfolding is_in
are_free delims [] = true
are_free delims (c ∷ s) = not (is_in delims c) && are_free delims s

pub are_free-IsFree : (delims s : Str) → are_free delims s ≡ true → IsFree delims s
unfolding are_free
are_free-IsFree delims [] h = tt
are_free-IsFree delims (c ∷ s) h = (ground (arith, h), are_free-IsFree delims s (ground (arith, h)))

-- A text that does not start with one of these.
abbrev pub Starts : Str → Str → Type 0
Starts delims [] = Unit {0}
Starts delims (c ∷ s) = is_in delims c ≡ false

pub skip_delims-Starts : (delims s : Str) → Starts delims (skip_delims delims s)
unfolding skip_delims
skip_delims-Starts delims [] = tt
skip_delims-Starts delims (c ∷ s) = elim (Bool-cases (is_in delims c)) [
  | inl e ↦ rw e (skip_delims-Starts delims s)
  | inr e ↦ rw e e
]

pub skip_delims_none : (delims s : Str) → Starts delims s → skip_delims delims s ≡ s
unfolding skip_delims
skip_delims_none delims [] h = refl
skip_delims_none delims (c ∷ s) h = rw h refl

pub strtok_here :
    (delims : Str) (c : ℕ) (s : Str)
    → Starts delims (c ∷ s)
    → strtok (c ∷ s) delims ≡ (some (c ∷ token delims s), after_token delims (c ∷ s))
unfolding strtok token
strtok_here delims c s h = rw (skip_delims_none delims (c ∷ s) h, h) refl

token_end : (delims s : Str) → IsFree delims s → token delims s ≡ s
unfolding token
token_end delims [] h = refl
token_end delims (c ∷ s) h = rw h.0 (ap (λ t. c ∷ t) (token_end delims s h.1))

after_token_end : (delims s : Str) → IsFree delims s → after_token delims s ≡ []
unfolding after_token
after_token_end delims [] h = refl
after_token_end delims (c ∷ s) h = rw h.0 (after_token_end delims s h.1)

-- A token that is the whole text.
pub strtok_end :
    (delims : Str) (c : ℕ) (s : Str)
    → IsFree delims (c ∷ s)
    → strtok (c ∷ s) delims ≡ (some (c ∷ s), [])
strtok_end delims c s h =
    strtok_here delims c s h.0 ∙ rw (token_end delims s h.1, after_token_end delims (c ∷ s) h) refl

pub IsFree-append : (delims a b : Str) → IsFree delims (a ++ b) → IsFree delims b
IsFree-append delims [] b h = h
IsFree-append delims (c ∷ a) b h = IsFree-append delims a b h.1

pub IsFree-front : (delims a b : Str) → IsFree delims (a ++ b) → IsFree delims a
IsFree-front delims [] b h = tt
IsFree-front delims (c ∷ a) b h = (h.0, IsFree-front delims a b h.1)

pub IsFree-both : (delims a b : Str) → IsFree delims a → IsFree delims b → IsFree delims (a ++ b)
IsFree-both delims [] b h k = k
IsFree-both delims (c ∷ a) b h k = (h.0, IsFree-both delims a b h.1 k)
