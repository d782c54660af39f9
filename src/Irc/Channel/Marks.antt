-- ===== src/Irc/Channel/Marks.antt =====
-- irc_channel.c: the status of a channel.
use mx3bot.CString.{
  Str, is_empty, str_case_eq, str_case_eq_cong, str_case_eq_empty, str_case_eq_refl,
}
use mx3bot.Table.{first_index, first_index-hit, first_index-lt, first_index-set_same}
use mx3bot.Table.Keyed.{claim_found, known_lookup, str_keys, write_other}
use mx3bot.Irc.Channel.{
  Channels, Slot, Status, at, blank_slot, chan_add, chan_find, chan_getstatus, chan_setstatus,
  claimed, put, mark_slot,
}
use mx3bot.Irc.Channel.Laws.{claimed-key, is_free, named, slot_key}
use mx3bot.Base.{
  ℕ, ◌<◌, ◌≡◌, refl, sym, ap, subst, ◌∙◌, ◌≢◌, ◌⊎◌, inl, inr, Bool, true, false, ◌&&◌, none, some,
  if◌then◌else◌, Bool-cases, Option-cases, length, set, get_or-set_self, get_or-set_ne,
}

-- Where two names differ their slots differ.
apart :
    (s : Channels) (name k : Str) (i j : ℕ)
    → chan_find name s ≡ some i
    → chan_find k s ≡ some j
    → str_case_eq name k ≡ false
    → i ≢ j
unfolding chan_find
apart s name k i j e f differ same =
    let hit = first_index-hit (named name) s.channel i blank_slot e in
    let hit' = first_index-hit (named k) s.channel j blank_slot f in
    let here = subst (λ n. str_case_eq (at s n).name k ≡ true) (sym same) hit' in
    let agree = str_case_eq_cong (at s i).name name k hit in cc (here, agree, differ)

find-lt : (s : Channels) (k : Str) (i : ℕ) → chan_find k s ≡ some i → i < length s.channel
unfolding chan_find
find-lt s k i e = first_index-lt (named k) s.channel i e

mark_find :
    (s : Channels) (k : Str) (i : ℕ) (st : Status)
    → chan_find k (put s i (record (at s i) { status = st })) ≡ chan_find k s
unfolding chan_find
mark_find s k i st = first_index-set_same (named k) s.channel i _ blank_slot refl

-- A status written to the slot of `name` is the status of `name`, and of no other name.
mark_status :
    (s : Channels) (name k : Str) (i : ℕ) (st : Status)
    → chan_find name s ≡ some i
    → i < length s.channel
    → chan_getstatus k (put s i (record (at s i) { status = st }))
      ≡ (if str_case_eq name k then some st else chan_getstatus k s)
unfolding chan_getstatus
mark_status s name k i st e inside = elim (Bool-cases (str_case_eq name k)) [
  | inl same ↦
      let there : chan_find k s ≡ some i =
        unfold chan_find in rw same at (known_lookup str_keys slot_key s.channel name k) ∙ e in
      rw (same, mark_find s k i st, there, chan_getstatus)
        (ap (λ (c : Slot). some c.status) (get_or-set_self s.channel i _ blank_slot inside))
  | inr differ ↦ elim (Option-cases (chan_find k s)) [
    | inl f ↦ rw (differ, mark_find s k i st, f, chan_getstatus)
    | inr (j, f) ↦
        rw (differ, mark_find s k i st, f, chan_getstatus)
          (ap (λ (c : Slot). some c.status)
            (get_or-set_ne s.channel i j _ blank_slot (apart s name k i j e f differ)))
  ]
]

-- A channel that is added changes the status of no other name.
add_status_other :
    (s : Channels) (name k : Str) (i : ℕ)
    → length name < 32
    → chan_find name s ≡ none
    → first_index is_free s.channel ≡ some i
    → is_empty k ≡ false
    → str_case_eq name k ≡ false
    → chan_getstatus k (put s i (claimed s i name none)) ≡ chan_getstatus k s
unfolding chan_getstatus
add_status_other s name k i short missing free solid differ = elim (Option-cases (chan_find k s)) [
  | inl f ↦ rw (kept, f, chan_getstatus)
  | inr (j, f) ↦
      rw (kept, f, chan_getstatus)
        (ap (λ (c : Slot). some c.status)
          (get_or-set_ne s.channel i j _ blank_slot (λ same. clash j f same)))
]
  where
    blank_there : is_empty (at s i).name ≡ true
    blank_there = first_index-hit is_free s.channel i blank_slot free

    kept : chan_find k (put s i (claimed s i name none)) ≡ chan_find k s
    kept =
        unfold chan_find in
        write_other str_keys slot_key s.channel i (claimed s i name none) blank_slot
          (first_index-lt is_free s.channel i free) k solid
          (rw (claimed-key s i name none short) differ)
          (str_case_eq_empty (at s i).name k solid blank_there)

    clash : (j : ℕ) → chan_find k s ≡ some j → i ≡ j → ⊥
    clash j f same =
        let hit : str_case_eq (at s j).name k ≡ true =
          unfold chan_find in first_index-hit (named k) s.channel j blank_slot f in
        let here = subst (λ n. str_case_eq (at s n).name k ≡ true) (sym same) hit in
        let no_match = str_case_eq_empty (at s i).name k solid blank_there in cc (here, no_match)

-- The table is full, and the name is not in it.
abbrev pub IsRefused : Str → Channels → Type 0
IsRefused name s = (chan_find name s ≡ none) × (first_index is_free s.channel ≡ none)

-- The ways out of `_irc_chan_setstatus`: the channel is found or added at `i` in `t`, or the table
-- is full and stays as it was.
chan_setstatus_cases {ℓ} :
    (P : Channels × Bool → Type ℓ) (name : Str) (st : Status) (s : Channels)
    → length name < 32
    → ((t : Channels) (i : ℕ)
        → ¬ IsRefused name s
        → chan_find name t ≡ some i
        → ((k : Str)
            → is_empty k ≡ false
            → str_case_eq name k ≡ false
            → chan_getstatus k t ≡ chan_getstatus k s)
        → P (put t i (record (at t i) { status = st }), true))
    → (IsRefused name s → P (s, false))
    → P (chan_setstatus name st s)
unfolding chan_setstatus mark_slot
chan_setstatus_cases P name st s short marked full = elim (Option-cases (chan_find name s)) [
  | inr (i, e) ↦ rw (e, chan_setstatus) (marked s i (λ (missing, full). cc) e (λ k h d. refl))
  | inl e ↦ elim (Option-cases (first_index is_free s.channel)) [
    | inr (i, free) ↦
        rw (e, chan_setstatus, added i e free)
          (marked (put s i (claimed s i name none)) i (λ (missing, full). cc) (found i e free)
            (λ k h d. add_status_other s name k i short e free h d))
    | inl f ↦ rw (e, chan_setstatus, nowhere e f) (full (e, f))
  ]
]
  where
    added :
        (i : ℕ)
        → chan_find name s ≡ none
        → first_index is_free s.channel ≡ some i
        → chan_add name none s ≡ (put s i (claimed s i name none), some i)
    added i e free = unfold chan_add in rw (e, chan_add, free)

    nowhere :
        chan_find name s ≡ none
        → first_index is_free s.channel ≡ none
        → chan_add name none s ≡ (s, none)
    nowhere e free = unfold chan_add in rw (e, chan_add, free)

    found :
        (i : ℕ)
        → chan_find name s ≡ none
        → first_index is_free s.channel ≡ some i
        → chan_find name (put s i (claimed s i name none)) ≡ some i
    found i e free =
        unfold chan_find in
        subst (λ n. first_index (named n) (set s.channel i (claimed s i name none)) ≡ some i)
          (claimed-key s i name none short)
          (claim_found str_keys slot_key s.channel i (claimed s i name none) blank_slot
            (first_index-lt is_free s.channel i free) (rw (claimed-key s i name none short) e))

-- `_irc_chan_setstatus` with a name of less than 32 bytes fails exactly where the name is not in
-- the table and no slot is free, and then changes nothing; elsewhere it succeeds, and read under
-- any name that is not empty, the status is then the one that was set if the name is the same in
-- any case of letters, and what it was if it is not.
pub chan_getstatus-chan_setstatus :
    (name k : Str) (st : Status) (s : Channels)
    → length name < 32
    → is_empty k ≡ false
    → (chan_getstatus k (chan_setstatus name st s).0 ≡ (
        if (chan_setstatus name st s).1 && str_case_eq name k then some st else chan_getstatus k s))
      × (¬ IsRefused name s → (chan_setstatus name st s).1 ≡ true)
      × (IsRefused name s → chan_setstatus name st s ≡ (s, false))
chan_getstatus-chan_setstatus name k st s short solid =
    chan_setstatus_cases
      (λ r.
        (chan_getstatus k r.0 ≡ (if r.1 && str_case_eq name k then some st else chan_getstatus k s))
        × (¬ IsRefused name s → r.1 ≡ true)
        × (IsRefused name s → r ≡ (s, false)))
      name st s short
      (λ t i room e others. (
        elim (Bool-cases (str_case_eq name k)) [
          | inl same ↦ rw same (rw same at (mark_status t name k i st e (find-lt t name i e)))
          | inr differ ↦ rw differ (
              rw differ at (mark_status t name k i st e (find-lt t name i e))
              ∙ others k solid differ)
        ],
        λ h. refl,
        λ refused. absurd (room refused),
      ))
      (λ refused. (refl, λ room. absurd (room refused), λ h. refl))

-- The status that was set is the one that is read, unless the table was full.
pub chan_getstatus-chan_setstatus_same :
    (name : Str) (st : Status) (s : Channels)
    → length name < 32
    → (chan_getstatus name (chan_setstatus name st s).0 ≡ some st)
      ⊎ (chan_getstatus name (chan_setstatus name st s).0 ≡ none)
chan_getstatus-chan_setstatus_same name st s short =
    chan_setstatus_cases
      (λ r. (chan_getstatus name r.0 ≡ some st) ⊎ (chan_getstatus name r.0 ≡ none)) name st s short
      (λ t i room e others.
        inl (rw (str_case_eq_refl name) at (mark_status t name name i st e (find-lt t name i e))))
      (λ (missing, full). inr (unfold chan_getstatus in rw (missing, chan_getstatus) refl))
