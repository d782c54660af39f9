-- ===== src/Db/Text/Note.antt =====
-- src/db/text/note.c: rows of `id from to sent text`.
pub mod Laws
use mx3bot.Base.{
  ℕ, ◌+◌, ◌-◌, Bool, true, false, ◌&&◌, ◌||◌, not, Option, none, some, List, [], ◌∷◌, ◌++◌,
  if◌then◌else◌, take, ◌>>=◌,
}
use mx3bot.Base.Int.{ℤ, pos, int_eq, int_lt}
use mx3bot.CString.{Str}
use mx3bot.CString.Number.{atoi, format_int}
use mx3bot.Config.{File, Status, config_get_str}
use mx3bot.Config.Rows.{config_rows}
use mx3bot.Config.Write.{config_set_str}
use mx3bot.Db.Text.{delete_rows, id_list, int_suc, is_okay, select, word}
use mx3bot.Strtok.{strtok}

abbrev pub notes : Str
notes = b'n' ∷ b'o' ∷ b't' ∷ b'e' ∷ b's' ∷ []

-- The first three words of a row that has them.
pub record NoteWords : Type 0 where
  pub nid : Str
  pub sender : Str
  pub target : Str

unfoldable pub note_words : Str → Option NoteWords
unfolding strtok
note_words r =
    let (nid, s1) = word r in
    let (f, s2) = word s1 in
    let (t, s3) = word s2 in
    nid >>= λ n. f >>= λ f'. t >>= λ t'. some (record { nid = n; sender = f'; target = t' })

abbrev is_null : ℤ → Bool
is_null n = int_eq n (pos 0)

-- The three cases of the condition of text_note_get_list(), an id of 0 being any user's.
is_between : ℤ → ℤ → NoteWords → Bool
unfolding atoi
is_between to from w =
    (not (is_null to) && is_null from && int_eq to (atoi w.target))
    || (not (is_null from) && is_null to && int_eq from (atoi w.sender))
    || (not (is_null to)
        && not (is_null from)
        && int_eq to (atoi w.target)
        && int_eq from (atoi w.sender))

note_listed : ℤ → ℤ → Option NoteWords → Option Str
unfolding is_between
note_listed to from none = none
note_listed to from (some w) = if is_between to from w then some w.nid else none

unfoldable pub note_get_list : File → ℤ → ℤ → Str
unfolding note_listed note_words select id_list config_rows
note_get_list file to from =
    if is_null to && is_null from
    then []
    else id_list 1019 (select (λ r. note_listed to from (note_words r)) (config_rows file notes))

-- What a note is read into, the text up to the length of its buffer.
pub record Note : Type 0 where
  pub to : ℤ
  pub from : ℤ
  pub sent : ℤ
  pub text : Str

note_fields : ℕ → Str → Option Note
unfolding strtok atoi
note_fields len row =
    let (a, s1) = word row in
    let (b, s2) = word s1 in
    let (t, s3) = word s2 in
    let msg = (strtok s3 []).0 in
    a >>= λ a'. b >>= λ b'. t >>= λ t'. msg >>= λ m.
    some (record { to = atoi b'; from = atoi a'; sent = atoi t'; text = take (len - 1) m })

note_of : ℕ → Status × Option Str → Option Note
unfolding note_fields
note_of len (r, none) = none
note_of len (r, some row) = note_fields len row

-- The outer Option is a crash; the inner one is the result, `none` for 0.
unfoldable pub note_get : File → ℤ → ℕ → Option (Option Note)
unfolding note_of config_get_str format_int
note_get file nid len = config_get_str file notes (format_int nid) 512 >>= λ r. some (note_of len r)

unfoldable pub note_del : File → ℤ → Option (File × Bool)
unfolding config_set_str format_int
note_del file nid =
    config_set_str file notes (some (format_int nid)) none >>= λ (file', r). some (file', is_okay r)

-- The greatest id of the rows that have a word.
greatest_nid : ℤ → List (ℕ × Str) → ℤ
unfolding atoi strtok
greatest_nid id [] = id
greatest_nid id ((line, r) ∷ rows) = elim (word r).0 [
  | none ↦ greatest_nid id rows
  | some w ↦ greatest_nid (if int_lt id (atoi w) then atoi w else id) rows
]

abbrev note_text : ℤ → ℤ → ℤ → Str → Str
note_text to from sent note =
    take 511
      (format_int from ++ b'\t' ∷ (format_int to ++ b'\t' ∷ (format_int sent ++ b'\t' ∷ note)))

unfoldable pub note_add : File → ℤ → ℤ → ℤ → Str → Option (File × Bool)
unfolding greatest_nid config_rows config_set_str format_int
note_add file to from sent note =
    config_set_str file notes
      (some (format_int (int_suc (greatest_nid (pos 0) (config_rows file notes)))))
      (some (note_text to from sent note))
    >>= λ (file', r). some (file', is_okay r)

note_of_user : ℤ → Option NoteWords → Bool
unfolding atoi
note_of_user uid none = false
note_of_user uid (some w) = int_eq (atoi w.sender) uid || int_eq (atoi w.target) uid

unfoldable pub note_deluser : ℤ → ℕ → File → Option File
unfolding note_of_user note_words delete_rows
note_deluser uid fuel file = delete_rows (λ r. note_of_user uid (note_words r)) notes fuel file
