-- ===== src/Config/Write/Put.antt =====
-- src/config.c: the loop of config_set_str(), line by line.
use mx3bot.Base.{
  ℕ, suc, ◌+◌, ◌≡◌, refl, ap, ◌∙◌, Bool, true, false, not, Option, none, some, List, [], ◌∷◌, ◌++◌,
  length, arith, ◌==◌, if◌then◌else◌, length-append, Bool-cases, inl, inr,
}
use mx3bot.CString.{Str, str_case_eq}
use mx3bot.Strtok.{
  Starts, strtok_here, strtok, skip_delims, skip_delims-Starts, skip_delims_none, token,
}
use mx3bot.Config.{blanks}
use mx3bot.Config.Lines.{
  add_zero, All, AreLines, IsEnd, LineKind, head, entry, remark, inside, kind_of, lines_at, outside,
  render, read_lines-append, read_lines-render,
}
use mx3bot.Config.Write.{
  Lines, Place, line, past_comment, set_line, set_lines, set_loop, set_row_line, set_header,
}

-- A pass of the loop on a line, from its kind.
abbrev pub step_kind : (Place → Option Place) → Str → Str → ℕ → ℕ → Place → LineKind → Option Place
unfolding set_header set_row_line
step_kind rest section name start finish place remark = rest place
step_kind rest section name start finish place (head p) =
    set_header rest section (some name) finish place place.sect p
step_kind rest section name start finish place (entry id) =
    set_row_line rest (some name) start finish id place place.sect

module _ (section name : Str) (rest : Place → Option Place) (place : Place) (start finish : ℕ) where
  past_comment-kind :
      (p : Str)
      → Starts blanks p
      → past_comment rest
          (λ p'. set_line rest section (some name) start finish place (strtok p' blanks))
          place
          p
        ≡ step_kind rest section name start finish place (kind_of p)
  unfolding past_comment set_line kind_of strtok skip_delims token
  past_comment-kind [] h = refl
  past_comment-kind (c ∷ p) h = rw (strtok_here blanks c p h) (elim (Bool-cases (c == b'#')) [
    | inl e ↦ rw e refl
    | inr e ↦ elim (Bool-cases (c == b'[')) [ inl e' ↦ rw (e, e') refl | inr e' ↦ rw (e, e') refl ]
  ])

kind_of-skip_delims : (l : Str) → kind_of (skip_delims blanks l) ≡ kind_of l
unfolding kind_of strtok
kind_of-skip_delims l =
    rw (skip_delims_none blanks (skip_delims blanks l) (skip_delims-Starts blanks l)) refl

set_loop-kind :
    (section name : Str) (place : Place) (start : ℕ) (l : Str) (ls : Lines)
    → set_loop section (some name) place (line start l ls)
      ≡ step_kind
          (λ p. set_loop section (some name) p ls)
          section
          name
          start
          (start + length l)
          place
          (kind_of l)
unfolding set_loop
set_loop-kind section name place start l ls =
    past_comment-kind section name (λ p. set_loop section (some name) p ls) place start
      (start + length l) (skip_delims blanks l) (skip_delims-Starts blanks l)
    ∙ rw (kind_of-skip_delims l) refl

abbrev pub at : Option ℕ → Option (ℕ × ℕ) → Place
at s r = record { sect = s; replace = r }

-- From one place in the file to the next.
abbrev pub Moves : Str → Str → Place → ℕ → List Str → Place → ℕ → List Str → Type 0
Moves section name place i ls place' i' ls' =
    set_loop section (some name) place (lines_at i ls)
    ≡ set_loop section (some name) place' (lines_at i' ls')

if_not {ℓ} : {A : Type ℓ} (b : Bool) (x y : A) → not b ≡ true → (if b then x else y) ≡ y
if_not true x y h = cc
if_not false x y h = refl

length-render :
    (i : ℕ) (l : Str) (ls : List Str)
    → i + length l + 1 + length (render ls) ≡ i + length (render (l ∷ ls))
length-render i l ls = omega (arith, length-append l (b'\n' ∷ render ls))

module _ (section name : Str) where
  -- A kind of line that changes nothing at a place.
  abbrev pub IsIdle : Place → (LineKind → Bool) → Type 0
  IsIdle place test =
      (rest : Place → Option Place) (start finish : ℕ) (k : LineKind)
      → test k ≡ true
      → step_kind rest section name start finish place k ≡ rest place

  pub outside-IsIdle : IsIdle (at none none) (outside section)
  unfolding set_header set_row_line
  outside-IsIdle rest start finish remark h = refl
  outside-IsIdle rest start finish (entry id) h = refl
  outside-IsIdle rest start finish (head none) h = cc
  outside-IsIdle rest start finish (head (some p)) h = if_not (str_case_eq p section) _ _ h

  pub inside-IsIdle : (n : ℕ) (r : Option (ℕ × ℕ)) → IsIdle (at (some n) r) (inside name)
  unfolding set_header set_row_line
  inside-IsIdle n r rest start finish remark h = refl
  inside-IsIdle n r rest start finish (entry id) h = if_not (str_case_eq id name) _ _ h
  inside-IsIdle n r rest start finish (head p) h = cc

  pub pass_lines :
      (place : Place) (test : LineKind → Bool)
      → IsIdle place test
      → (i : ℕ) (ls rest : List Str) → All test ls
      → Moves section name place i (ls ++ rest) place (i + length (render ls)) rest
  unfolding set_loop
  pass_lines place test idle i [] rest h = rw (add_zero i) refl
  pass_lines place test idle i ([] ∷ ls) rest h =
      pass_lines place test idle (i + 1) ls rest h.1
      ∙ ap (λ n. set_loop section (some name) place (lines_at n rest)) (omega arith)
  pass_lines place test idle i ((c ∷ l) ∷ ls) rest h =
      set_loop-kind section name place i (c ∷ l) (lines_at (i + length (c ∷ l) + 1) (ls ++ rest))
      ∙ idle (λ p. set_loop section (some name) p (lines_at (i + length (c ∷ l) + 1) (ls ++ rest)))
          i (i + length (c ∷ l)) (kind_of (c ∷ l)) h.0
      ∙ pass_lines place test idle (i + length (c ∷ l) + 1) ls rest h.1
      ∙ ap (λ n. set_loop section (some name) place (lines_at n rest)) (length-render i (c ∷ l) ls)

  pub pass_header :
      (i : ℕ) (l : Str) (p : Str) (rest : List Str)
      → kind_of l ≡ head (some p)
      → str_case_eq p section ≡ true
      → Moves section name
          (at none none)
          i
          (l ∷ rest)
          (at (some (i + length l)) none)
          (i + length l + 1)
          rest
  unfolding set_header kind_of step_kind set_loop
  pass_header i [] p rest h e = cc
  pass_header i (c ∷ l) p rest h e =
      set_loop-kind section name (at none none) i (c ∷ l) (lines_at (i + length (c ∷ l) + 1) rest)
      ∙ rw (h, e) refl

  pub pass_row :
      (i n : ℕ) (r : Option (ℕ × ℕ)) (l id : Str) (rest : List Str)
      → kind_of l ≡ entry id
      → str_case_eq id name ≡ true
      → Moves section name
          (at (some n) r)
          i
          (l ∷ rest)
          (at (some n) (some (i, i + length l + 1)))
          (i + length l + 1)
          rest
  unfolding set_row_line kind_of step_kind set_loop
  pass_row i n r [] id rest h e = cc
  pass_row i n r (c ∷ l) id rest h e =
      set_loop-kind section name (at (some n) r) i (c ∷ l) (lines_at (i + length (c ∷ l) + 1) rest)
      ∙ rw (h, e) refl

  pub stop :
      (i n : ℕ) (r : Option (ℕ × ℕ)) (rest : List Str)
      → IsEnd rest
      → set_loop section (some name) (at (some n) r) (lines_at i rest) ≡ some (at (some n) r)
  unfolding set_loop set_header kind_of
  stop i n r [] h = refl
  stop i n r ([] ∷ ls) h = cc
  stop i n r ((c ∷ l) ∷ ls) h =
      set_loop-kind section name (at (some n) r) i (c ∷ l) (lines_at (i + length (c ∷ l) + 1) ls)
      ∙ rw (h.1) refl

  pub set_lines-render :
      (place : Place) (ls : List Str)
      → AreLines ls
      → set_loop section (some name) place (set_lines (render ls))
        ≡ set_loop section (some name) place (lines_at 0 ls)
  unfolding set_loop set_lines
  set_lines-render place [] h = refl
  set_lines-render place ([] ∷ ls) h =
      ap (set_loop section (some name) place) (read_lines-render 0 0 1 ls h.1)
  set_lines-render place ((c ∷ l) ∷ ls) h =
      let (k, r) = read_lines-append 0 0 0 (c ∷ l) (render ls) h.0.0 (omega (arith, h.0.1)) in
      ap (set_loop section (some name) place)
        (r ∙ ap (line 0 (c ∷ l)) (read_lines-render 0 k (0 + suc (length l) + 1) ls h.1))
