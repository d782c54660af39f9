-- ===== src/Config/Read.antt =====
-- src/config.c: config_get_str() on a file of sections and rows.
use mx3bot.Base.{
  ℕ, ◌-◌, ◌≡◌, refl, ap, ◌∙◌, sym, Bool, true, false, not, ◌&&◌, Option, none, some, List, [], ◌∷◌,
  ◌++◌, ◌==◌, if◌then◌else◌, take, arith, Bool-cases, inl, inr,
}
pub mod Row
use mathlib.Core.Path.{fun_ext}
use mathlib.Core.Bool.{true≢false}
use mathlib.Core.List.{append_assoc}
use mx3bot.CString.{Str, str_case_eq, unequal_names, str_eq, str_eq_refl}
use mx3bot.Strtok.{
  IsFree, is_in, skip_delims, skip_delims_none, strtok, strtok-IsFree, strtok_here, token,
}
use mx3bot.Config.{
  File, okay, blanks, blanks_newlines, newlines, config_get_str, found_at_all, found_str,
  get_str_bytes, fgets_lines, get_str_line, get_str_loop, names_section, value_of, split_lines,
  section_name,
}
use mx3bot.Config.Lines.{
  All, AreLines, AreLines-append, IsLine, IsSection, LineKind, Section, head, entry, remark, inside,
  kind_of, kind_of_word, outside, render, split_lines-append,
}

-- A pass of the loop on a line of that kind, with what is behind its first word.
abbrev pub get_kind :
    (Bool → Option (Option Str)) → Str → Str → Bool → Str → LineKind → Option (Option Str)
unfolding names_section value_of
get_kind rest section name sect s remark = rest sect
get_kind rest section name sect s (head p) = rest (names_section section p)
get_kind rest section name sect s (entry id) =
    if sect && str_eq id name then value_of (strtok s newlines).0 else rest sect

of_not : (b : Bool) → not b ≡ true → b ≡ false
of_not true h = sym h
of_not false h = refl

get_str_line-kind :
    (rest : Bool → Option (Option Str)) (section name : Str) (sect : Bool) (tok : Option Str)
    (s : Str)
    → get_str_line rest section name sect (tok, s)
      ≡ get_kind rest section name sect s (kind_of_word tok)
unfolding get_str_line section_name
get_str_line-kind rest section name sect none s = refl
get_str_line-kind rest section name sect (some []) s = refl
get_str_line-kind rest section name sect (some (c ∷ p)) s = elim (Bool-cases (c == b'#')) [
  | inl e ↦ rw e refl
  | inr e ↦ elim (Bool-cases (c == b'[')) [ inl e' ↦ rw (e, e') refl | inr e' ↦ rw (e, e') refl ]
]

is_in-newlines : (c : ℕ) → is_in newlines c ≡ false → is_in blanks_newlines c ≡ is_in blanks c
unfolding is_in
is_in-newlines c h = ground arith

token-newline :
    (l : Str) → IsFree newlines l → token blanks_newlines (l ++ b'\n' ∷ []) ≡ token blanks l
unfolding token
token-newline [] h = refl
token-newline (c ∷ l) h = rw (is_in-newlines c h.0, token-newline l h.1) refl

strtok-newline :
    (l : Str)
    → IsFree newlines l
    → (strtok (l ++ b'\n' ∷ []) blanks_newlines).0 ≡ (strtok l blanks).0
unfolding strtok skip_delims token
strtok-newline [] h = refl
strtok-newline (c ∷ l) h = elim (Bool-cases (is_in blanks c)) [
  | inl e ↦ rw (is_in-newlines c h.0 ∙ e, e) (strtok-newline l h.1)
  | inr e ↦
      ap (λ r. r.0) (strtok_here blanks_newlines c (l ++ b'\n' ∷ []) (is_in-newlines c h.0 ∙ e))
      ∙ ap (λ t. some (c ∷ t)) (token-newline l h.1)
      ∙ sym (ap (λ r. r.0) (strtok_here blanks c l e))
]

module _ (section name : Str) where
  abbrev pub looks : Bool → Str → Option (Option Str)
  unfolding get_str_loop split_lines
  looks sect s = get_str_loop section name sect (split_lines 1023 s)

  -- The line, and then those behind it.
  looks-line :
      (sect : Bool) (l s : Str)
      → IsLine l
      → looks sect (l ++ b'\n' ∷ s)
        ≡ get_kind
            (λ b. looks b s)
            section
            name
            sect
            (strtok (l ++ b'\n' ∷ []) blanks_newlines).1
            (kind_of l)
  unfolding get_str_loop kind_of looks
  looks-line sect l s h = rw (split_lines-append 1023 l s h.0 (omega (arith, h.1))) (
      get_str_line-kind (λ b. looks b s) section name sect
        (strtok (l ++ b'\n' ∷ []) blanks_newlines).0 (strtok (l ++ b'\n' ∷ []) blanks_newlines).1
      ∙ ap
          (λ t.
            get_kind (λ b. looks b s) section name sect (strtok (l ++ b'\n' ∷ []) blanks_newlines).1
              (kind_of_word t))
          (strtok-newline l h.0))

  -- What is read behind lines that are the same.
  pub looks-append :
      (ls x y : List Str)
      → AreLines ls
      → ((b : Bool) → looks b (render x) ≡ looks b (render y))
      → (b : Bool) → looks b (render (ls ++ x)) ≡ looks b (render (ls ++ y))
  looks-append [] x y h e b = e b
  looks-append (l ∷ ls) x y h e b =
      looks-line b l (render (ls ++ x)) h.0
      ∙ ap
          (λ rest.
            get_kind rest section name b (strtok (l ++ b'\n' ∷ []) blanks_newlines).1 (kind_of l))
          (fun_ext (looks-append ls x y h.1 e))
      ∙ sym (looks-line b l (render (ls ++ y)) h.0)

  -- A row of another name.
  pub looks-other :
      (l id : Str) (x : List Str)
      → IsLine l
      → kind_of l ≡ entry id
      → str_eq id name ≡ false
      → (b : Bool) → looks b (render (l ∷ x)) ≡ looks b (render x)
  unfolding get_kind
  looks-other l id x h k e true = looks-line true l (render x) h ∙ rw (k, e) refl
  looks-other l id x h k e false = looks-line false l (render x) h ∙ rw (k) refl

  -- A line of a kind that is not looked for.
  IsUnread : Bool → (LineKind → Bool) → Type 0
  IsUnread sect test =
      (rest : Bool → Option (Option Str)) (s : Str) (k : LineKind)
      → test k ≡ true
      → get_kind rest section name sect s k ≡ rest sect

  outside-IsUnread : IsUnread false (outside section)
  unfolding names_section IsUnread get_kind
  outside-IsUnread rest s remark h = refl
  outside-IsUnread rest s (entry id) h = refl
  outside-IsUnread rest s (head none) h = cc
  outside-IsUnread rest s (head (some p)) h =
      ap rest (unequal_names p section (of_not (str_case_eq p section) h))

  inside-IsUnread : IsUnread true (inside name)
  unfolding IsUnread get_kind
  inside-IsUnread rest s remark h = refl
  inside-IsUnread rest s (entry id) h =
      rw (unequal_names id name (of_not (str_case_eq id name) h)) refl
  inside-IsUnread rest s (head p) h = cc

  looks-pass :
      (sect : Bool) (test : LineKind → Bool)
      → IsUnread sect test
      → (ls rest : List Str) → AreLines ls
      → All test ls
      → looks sect (render (ls ++ rest)) ≡ looks sect (render rest)
  unfolding IsUnread
  looks-pass sect test unread [] rest h k = refl
  looks-pass sect test unread (l ∷ ls) rest h k =
      looks-line sect l (render (ls ++ rest)) h.0
      ∙ unread (λ b. looks b (render (ls ++ rest))) _ (kind_of l) k.0
      ∙ looks-pass sect test unread ls rest h.1 k.1

  looks-header :
      (l p : Str) (rest : List Str)
      → IsLine l
      → kind_of l ≡ head (some p)
      → str_eq p section ≡ true
      → looks false (render (l ∷ rest)) ≡ looks true (render rest)
  unfolding names_section get_kind
  looks-header l p rest h k e = looks-line false l (render rest) h ∙ rw (k, e) refl

module _ (section name : Str) where
  pub config_get_str-looks :
      (file file' : File) (len : ℕ) (a b : Str)
      → file.bytes ≡ some a
      → file'.bytes ≡ some b
      → looks section name false a ≡ looks section name false b
      → config_get_str file section name len ≡ config_get_str file' section name len
  unfolding config_get_str get_str_bytes fgets_lines looks
  config_get_str-looks file file' len a b e e' h = rw (e, e') (ap (found_at_all len) h)
