-- ===== src/Db/Text/Ban.antt =====
-- src/db/text/ban.c: rows of `id uid network channel mask note`.
use mx3bot.Base.{
  ℕ, ◌-◌, Bool, true, false, ◌&&◌, Option, none, some, List, [], ◌∷◌, ◌++◌, if◌then◌else◌, take,
  ◌>>=◌,
}
use mx3bot.Base.Int.{ℤ, pos, int_eq}
use mx3bot.CString.{Str, str_case_eq}
use mx3bot.CString.Number.{atoi, format_int}
use mx3bot.Config.{File, Status, config_get_str}
use mx3bot.Config.Rows.{config_rows}
use mx3bot.Config.Write.{config_set_str, or_null}
use mx3bot.Db.Text.{delete_rows, greatest_id, id_list, int_suc, is_okay, matches, select, word}
use mx3bot.Strtok.{strtok}

abbrev pub bans : Str
bans = b'b' ∷ b'a' ∷ b'n' ∷ b's' ∷ []

pub record BanWords : Type 0 where
  pub bid : Str
  pub uid : Str
  pub net : Str
  pub chan : Str
  pub mask : Str

-- The words of a row that has all five of them.
ban_words : Str → Option BanWords
unfolding strtok
ban_words r =
    let (bid, s1) = word r in
    let (uid, s2) = word s1 in
    let (net, s3) = word s2 in
    let (chan, s4) = word s3 in
    let (mask, s5) = word s4 in
    bid >>= λ b. uid >>= λ u. net >>= λ n.
    chan >>= λ c. mask >>= λ m. some (record { bid = b; uid = u; net = n; chan = c; mask = m })

-- A condition of NULL holds of every word.
abbrev pub wanted : Option Str → Str → Bool
wanted none w = true
wanted (some x) w = str_case_eq w x

-- The id of the first row that is wanted, and 0 where there is none.
first_id : (BanWords → Bool) → List (ℕ × Str) → ℤ
unfolding ban_words atoi
first_id test [] = pos 0
first_id test ((line, r) ∷ rows) = elim (ban_words r) [
  | none ↦ first_id test rows
  | some w ↦ if test w then atoi w.bid else first_id test rows
]

module _ (regex : Str → Str → Bool) (file : File) where
  abbrev ident_wanted : Option Str → Str → Bool
  ident_wanted none mask = true
  ident_wanted (some ident) mask = matches regex mask ident

  listed : Option Str → Option Str → Option Str → Option BanWords → Option Str
  unfolding matches str_case_eq
  listed net chan ident none = none
  listed net chan ident (some w) =
      if wanted net w.net && (wanted chan w.chan && ident_wanted ident w.mask)
      then some w.bid
      else none

  unfoldable pub ban_get_list : Option Str → Option Str → Option Str → Str
  unfolding listed ban_words select id_list config_rows
  ban_get_list net chan ident =
      id_list 1020 (select (λ r. listed net chan ident (ban_words r)) (config_rows file bans))

  unfoldable pub ban_get_id : Str → Str → Str → ℤ
  unfolding first_id config_rows str_case_eq matches
  ban_get_id net chan ident =
      first_id
        (λ w. str_case_eq w.net net && (str_case_eq w.chan chan && matches regex w.mask ident))
        (config_rows file bans)

abbrev tab : Str → Str
tab s = b'\t' ∷ s

-- The row behind its id.
abbrev ban_text : ℤ → Str → Str → Str → Option Str → Str
ban_text uid network chan mask note =
    take 511 (format_int uid ++ tab (network ++ tab (chan ++ tab (mask ++ tab (or_null note)))))

added_id : ℤ → File × Status → File × ℤ
added_id bid (file', r) = (file', if is_okay r then bid else pos 0)

-- What is asked for, up to the lengths given: a length of `none` is a NULL buffer.
pub record Ban : Type 0 where
  pub uid : ℤ
  pub mask : Option Str
  pub note : Option Str

abbrev copied : Option ℕ → Str → Option Str
copied none s = none
copied (some len) s = some (take (len - 1) s)

-- A note is copied whether or not the row has one.
ban_note : Option ℕ → Option Str → Option (Option Str)
ban_note none remark = some none
ban_note (some len) none = none
ban_note (some len) (some remark) = some (some (take (len - 1) remark))

ban_fields : Option ℕ → Option ℕ → Str → Option (Option Ban)
unfolding strtok atoi ban_note
ban_fields mask_len note_len row =
    let (uid, s1) = word row in
    let (net, s2) = word s1 in
    let (chan, s3) = word s2 in
    let (mask, s4) = word s3 in
    let note = (strtok s4 []).0 in
    elim mask [
      | none ↦ some none
      | some m ↦ ban_note note_len note >>= λ n.
          uid >>= λ u. some (some (record { uid = atoi u; mask = copied mask_len m; note = n }))
    ]

ban_of : Option ℕ → Option ℕ → Status × Option Str → Option (Option Ban)
unfolding ban_fields
ban_of mask_len note_len (r, none) = some none
ban_of mask_len note_len (r, some row) = ban_fields mask_len note_len row

module _ (file : File) where
  unfoldable pub ban_get_id_bymask : Str → Str → Str → ℤ
  unfolding first_id config_rows str_case_eq
  ban_get_id_bymask net chan mask =
      first_id (λ w. str_case_eq w.net net && (str_case_eq w.chan chan && str_case_eq w.mask mask))
        (config_rows file bans)

  -- The id of the ban that is there, or the next one.
  ban_id : ℤ → Option ℤ
  unfolding greatest_id config_rows
  ban_id bid =
      let next : Option ℤ = greatest_id bid (config_rows file bans) >>= λ id. some (int_suc id) in
      if int_eq bid (pos 0) then next else some bid

  -- The result is the id, and 0 for a failure.
  unfoldable pub ban_add : Str → Str → Str → ℤ → Option Str → Option (File × ℤ)
  unfolding ban_id ban_get_id_bymask added_id config_set_str format_int
  ban_add network chan mask uid note = ban_id (ban_get_id_bymask network chan mask) >>= λ bid.
      config_set_str file bans (some (format_int bid)) (some (ban_text uid network chan mask note))
      >>= λ r. some (added_id bid r)

  -- `true` is 0 and `false` -1, here and below.
  unfoldable pub ban_del : ℤ → Option (File × Bool)
  unfolding config_set_str format_int
  ban_del bid = config_set_str file bans (some (format_int bid)) none >>= λ (file', r).
      some (file', is_okay r)

  unfoldable pub ban_get : ℤ → Option ℕ → Option ℕ → Option (Option Ban)
  unfolding ban_of config_get_str format_int
  ban_get bid mask_len note_len =
      config_get_str file bans (format_int bid) 512 >>= λ r. ban_of mask_len note_len r

-- The second word of a row is the user's id.
unfoldable pub is_second : ℤ → Str → Bool
unfolding strtok atoi
is_second uid r = elim (word (word r).1).0 [ none ↦ false | some u ↦ int_eq (atoi u) uid ]

unfoldable pub ban_deluser : ℤ → ℕ → File → Option File
unfolding is_second delete_rows
ban_deluser uid fuel file = delete_rows (is_second uid) bans fuel file
