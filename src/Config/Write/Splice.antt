-- ===== src/Config/Write/Splice.antt =====
-- src/config.c: the bytes that config_write() writes, and config_set_str() from what its loop finds.
use mx3bot.Base.{
  ℕ, suc, ◌+◌, ◌≡◌, refl, ◌∙◌, true, Option, none, some, List, [], ◌∷◌, ◌++◌, length, arith, take,
  drop,
}
use mx3bot.CString.{Str}
use mx3bot.Config.{File, okay}
use mx3bot.Config.Lines.{render, drop-append, take-append, render-append}
use mx3bot.Config.Write.{
  config_set_str, config_write, behind_header, range, row_text, set_place, set_range, set_bytes,
  set_lines, set_loop,
}
use mx3bot.Config.Write.Put.{at}

zero_add : (n : ℕ) → 0 + n ≡ n
zero_add n = omega arith

suc_add : (m n : ℕ) → suc m + n ≡ suc (m + n)
suc_add m n = omega arith

add_assoc : (a b c : ℕ) → a + b + c ≡ a + (b + c)
add_assoc a b c = omega arith

drop-length : (a : Str) (n : ℕ) (s : Str) → drop (length a + n) (a ++ s) ≡ drop n s
drop-length [] n s = rw (zero_add n) refl
drop-length (c ∷ a) n s = rw (suc_add (length a) n) (drop-length a n s)

pub drop-append_line : (a r b : Str) → drop (length a + length r + 1) (a ++ (r ++ b'\n' ∷ b)) ≡ b
drop-append_line a r b =
    rw (add_assoc (length a) (length r) 1) refl
    ∙ drop-length a (length r + 1) (r ++ b'\n' ∷ b)
    ∙ drop-length r 1 (b'\n' ∷ b)

-- A line between others is replaced, and one is added.
pub replace_line :
    (pre : List Str) (row new : Str) (post : List Str)
    → take (length (render pre)) (render (pre ++ row ∷ post))
        ++ (new ++ b'\n' ∷ drop (length (render pre) + length row + 1) (render (pre ++ row ∷ post)))
      ≡ render (pre ++ new ∷ post)
replace_line pre row new post =
    rw
      (
        render-append pre (row ∷ post),
        render-append pre (new ∷ post),
        take-append (render pre) (row ++ b'\n' ∷ render post),
        drop-append_line (render pre) row (render post),
      )
      refl

pub add_line :
    (pre : List Str) (new : Str) (post : List Str)
    → take (length (render pre)) (render (pre ++ post))
        ++ (new ++ b'\n' ∷ drop (length (render pre)) (render (pre ++ post)))
      ≡ render (pre ++ new ∷ post)
add_line pre new post =
    rw
      (
        render-append pre post,
        render-append pre (new ∷ post),
        take-append (render pre) (render post),
        drop-append (render pre) (render post),
      )
      refl

pub set_bytes-found :
    (file : File) (section name : Str) (val : Option Str) (buf : Str) (sect start finish : ℕ)
    → file.bytes ≡ some buf
    → file.writable ≡ true
    → set_loop section (some name) (at none none) (set_lines buf)
      ≡ some (at (some sect) (some (start, finish)))
    → config_set_str file section (some name) val
      ≡ some (
        record file {
          bytes = some (take start buf ++ (row_text (some name) val ++ b'\n' ∷ drop finish buf));
        },
        okay,
      )
unfolding config_set_str set_bytes set_place set_range range config_write
set_bytes-found file section name val buf sect start finish b w h = rw (b, h, w) refl

pub set_bytes-new :
    (file : File) (section name val : Str) (buf : Str) (sect : ℕ)
    → file.bytes ≡ some buf
    → file.writable ≡ true
    → set_loop section (some name) (at none none) (set_lines buf) ≡ some (at (some sect) none)
    → config_set_str file section (some name) (some val)
      ≡ some (
        record file {
          bytes = some (
              take (sect + 1) buf
              ++ (row_text (some name) (some val) ++ b'\n' ∷ drop (sect + 1) buf));
        },
        okay,
      )
unfolding config_set_str set_bytes set_place set_range range behind_header config_write
set_bytes-new file section name val buf sect b w h = rw (b, h, w) refl
