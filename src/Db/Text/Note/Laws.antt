-- ===== src/Db/Text/Note/Laws.antt =====
-- src/db/text/note.c: the notes of a user who is deleted.
use mx3bot.Base.{
  ℕ, ◌<◌, ◌≡◌, ◌≢◌, refl, ◌∙◌, sym, Bool, true, false, ◌||◌, Option, none, some, List, [], ◌∷◌,
  length, if◌then◌else◌, Bool-cases, inl, inr,
}
use mathlib.Core.Bool.{true≢false}
use mx3bot.Base.Int.{ℤ, pos, int_eq, int_eq_iff}
use mx3bot.CString.{Str}
use mx3bot.CString.Number.{atoi}
use mx3bot.Config.{File}
use mx3bot.Config.Lines.{AreLines, render}
use mx3bot.Config.Rows.{config_rows}
use mx3bot.Db.Text.{first_row, id_list, select}
use mx3bot.Db.Text.Delete.{delete_rows-Ends}
use mx3bot.Db.Text.Note.{
  NoteWords, is_between, note_deluser, note_get_list, note_listed, note_of_user, note_words, notes,
}

first_none :
    (b : Bool) (line : ℕ) (o : Option ℕ)
    → (if b then some line else o) ≡ none
    → (b ≡ false) × (o ≡ none)
first_none true line o e = cc
first_none false line o e = (refl, e)

-- Where no row passes a test, none is listed that would pass it.
nothing_chosen :
    (test : Str → Bool) (choose : Str → Option Str) (rows : List (ℕ × Str))
    → ((r : Str) → test r ≡ false → choose r ≡ none)
    → first_row test rows ≡ none
    → select choose rows ≡ []
unfolding select first_row
nothing_chosen test choose [] h e = refl
nothing_chosen test choose ((line, r) ∷ rows) h e =
    let (k, e') = first_none (test r) line (first_row test rows) e in
    rw (select, h r k) (nothing_chosen test choose rows h e')

or_false : (a b : Bool) → (a || b) ≡ false → (a ≡ false) × (b ≡ false)
or_false true b h = cc
or_false false b h = (refl, h)

unequal_back : (a b : ℤ) → int_eq a b ≡ false → int_eq b a ≡ false
unequal_back a b h = elim (Bool-cases (int_eq b a)) [
  | inl e ↦ absurd (true≢false (sym ((int_eq_iff a b).1 (sym ((int_eq_iff b a).0 e))) ∙ h))
  | inr e ↦ e
]

module _ (uid : ℤ) (u : uid ≢ pos 0) where
  not_null : int_eq uid (pos 0) ≡ false
  not_null = elim (Bool-cases (int_eq uid (pos 0))) [
    | inl e ↦ absurd (u ((int_eq_iff uid (pos 0)).0 e))
    | inr e ↦ e
  ]

  not_to : (w : Option NoteWords) → note_of_user uid w ≡ false → note_listed uid (pos 0) w ≡ none
  unfolding note_of_user note_listed is_between
  not_to none h = refl
  not_to (some w) h =
      rw (not_null, unequal_back (atoi w.target) uid (or_false (int_eq (atoi w.sender) uid) _ h).1)
        refl

  not_from : (w : Option NoteWords) → note_of_user uid w ≡ false → note_listed (pos 0) uid w ≡ none
  unfolding note_of_user note_listed is_between
  not_from none h = refl
  not_from (some w) h =
      rw (not_null, unequal_back (atoi w.sender) uid (or_false (int_eq (atoi w.sender) uid) _ h).0)
        refl

  -- In a file of lines of at most 1022 bytes that can be written, `text_note_deluser` ends, for
  -- every id but 0, and `text_note_get_list` then lists no note to the user and none from them.
  pub note_get_list-note_deluser :
      (fuel : ℕ) (file : File) (ls : List Str)
      → file.bytes ≡ some (render ls)
      → file.writable ≡ true
      → AreLines ls
      → length ls < fuel
      → (file' : File) × (note_deluser uid fuel file ≡ some file')
        × (note_get_list file' uid (pos 0) ≡ [])
        × (note_get_list file' (pos 0) uid ≡ [])
  unfolding note_deluser note_get_list id_list
  note_get_list-note_deluser fuel file ls b w h k =
      let (file', ended, gone) =
        delete_rows-Ends (λ r. note_of_user uid (note_words r)) notes fuel file ls b w h k in
      (
        file',
        ended,
        rw
            (
              not_null,
              nothing_chosen (λ r. note_of_user uid (note_words r))
                  (λ r. note_listed uid (pos 0) (note_words r)) (config_rows file' notes)
                  (λ r. not_to (note_words r)) gone,
            )
            refl,
        rw
            (
              not_null,
              nothing_chosen (λ r. note_of_user uid (note_words r))
                  (λ r. note_listed (pos 0) uid (note_words r)) (config_rows file' notes)
                  (λ r. not_from (note_words r)) gone,
            )
            refl,
      )
