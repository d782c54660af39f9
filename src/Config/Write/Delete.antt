-- ===== src/Config/Write/Delete.antt =====
-- src/config.c: config_set_row() that takes a line away.
use mx3bot.Base.{
  ℕ, zero, suc, ◌+◌, ◌-◌, ◌<◌, ◌≡◌, refl, ap, true, false, none, some, List, [], ◌∷◌, ◌++◌, ◌==◌,
  length, take, drop, length-append, arith,
}
use mx3bot.CString.{Str}
use mx3bot.Strtok.{IsFree}
use mx3bot.Config.{File, okay, newlines}
use mx3bot.Config.Lines.{AreLines, no_newline, remove, render, render-append, take-append}
use mx3bot.Config.Write.{
  after_row, config_set_row, config_write, row_start, set_row_at, set_row_bytes,
}
use mx3bot.Config.Write.Splice.{drop-append_line}

row_start_cons :
    (n c : ℕ) (s before from : Str)
    → (c == b'\n') ≡ false
    → row_start (suc n) s ≡ some (before, from)
    → row_start (suc n) (c ∷ s) ≡ some (c ∷ before, from)
unfolding row_start
row_start_cons n c s before from h e = rw (h, row_start, e) refl

row_start-append :
    (n : ℕ) (l s before from : Str)
    → IsFree newlines l
    → row_start n s ≡ some (before, from)
    → row_start (suc n) (l ++ b'\n' ∷ s) ≡ some (l ++ b'\n' ∷ before, from)
unfolding row_start
row_start-append n [] s before from h e = rw e refl
row_start-append n (c ∷ l) s before from h e =
    row_start_cons n c (l ++ b'\n' ∷ s) (l ++ b'\n' ∷ before) from (no_newline c h.0)
      (row_start-append n l s before from h.1 e)

row_start-render :
    (n : ℕ) (ls : List Str)
    → AreLines ls
    → n < length ls
    → row_start n (render ls) ≡ some (render (take n ls), render (drop n ls))
unfolding row_start
row_start-render n [] h e = absurd (omega arith)
row_start-render zero (l ∷ ls) h e = refl
row_start-render (suc n) (l ∷ ls) h e =
    row_start-append n l (render ls) (render (take n ls)) (render (drop n ls)) h.0.0
      (row_start-render n ls h.1 (omega arith))

after_row-append : (l s : Str) → IsFree newlines l → after_row (l ++ b'\n' ∷ s) ≡ s
unfolding after_row
after_row-append [] s h = refl
after_row-append (c ∷ l) s h = rw (no_newline c h.0) (after_row-append l s h.1)

-- What is before a line, the line, and what is behind it.
at_line :
    (n : ℕ) (ls : List Str)
    → AreLines ls
    → n < length ls
    → (pre : List Str) × (l : Str) × (post : List Str) × (ls ≡ pre ++ l ∷ post)
      × (take n ls ≡ pre)
      × (drop n ls ≡ l ∷ post)
      × (remove n ls ≡ pre ++ post)
      × IsFree newlines l
at_line n [] h e = absurd (omega arith)
at_line zero (l ∷ ls) h e = ([], l, ls, refl, refl, refl, refl, h.0.0)
at_line (suc n) (x ∷ ls) h e =
    let (pre, l, post, a, b, c, d, f) = at_line n ls h.1 (omega arith) in
    (x ∷ pre, l, post, ap (◌∷◌ x) a, ap (◌∷◌ x) b, c, ap (◌∷◌ x) d, f)

behind : (a l b : Str) → length (a ++ (l ++ b'\n' ∷ b)) - length b ≡ length a + length l + 1
behind a l b = omega (arith, length-append a (l ++ b'\n' ∷ b), length-append l (b'\n' ∷ b))

cut_lists :
    (ls t d r pre : List Str) (l : Str) (post : List Str)
    → ls ≡ pre ++ l ∷ post
    → t ≡ pre
    → d ≡ l ∷ post
    → r ≡ pre ++ post
    → IsFree newlines l
    → take (length (render t)) (render ls)
        ++ drop (length (render ls) - length (after_row (render d))) (render ls)
      ≡ render r
cut_lists ls t d r pre l post whole front back without f =
    rw
      (
        whole,
        front,
        back,
        without,
        after_row-append l (render post) f,
        render-append pre (l ∷ post),
        render-append pre post,
        behind (render pre) l (render post),
        take-append (render pre) (l ++ b'\n' ∷ render post),
        drop-append_line (render pre) l (render post),
      )
      refl

cut :
    (n : ℕ) (ls : List Str)
    → AreLines ls
    → n < length ls
    → take (length (render (take n ls))) (render ls)
        ++ drop (length (render ls) - length (after_row (render (drop n ls)))) (render ls)
      ≡ render (remove n ls)
cut n ls h e =
    let (pre, l, post, a, b, c, d, f) = at_line n ls h e in
    cut_lists ls (take n ls) (drop n ls) (remove n ls) pre l post a b c d f

pub config_set_row-remove :
    (file : File) (n : ℕ) (ls : List Str)
    → file.bytes ≡ some (render ls)
    → file.writable ≡ true
    → AreLines ls
    → n < length ls
    → config_set_row file (suc n) none ≡ (record file { bytes = some (render (remove n ls)) }, okay)
unfolding config_set_row set_row_bytes set_row_at config_write
config_set_row-remove file n ls b w h e = rw (b, row_start-render n ls h e, w, cut n ls h e) refl
