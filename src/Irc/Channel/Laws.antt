-- ===== src/Irc/Channel/Laws.antt =====
-- irc_channel.c as a table of distinct names with a status each.

use mx3bot.Base.{
  ap, map, suc, List, [], ◌∷◌, ℕ, ◌<◌, ◌≡◌, refl, subst, ◌∙◌, inl, inr, Bool, true, false, Option,
  none, some, arith, if◌then◌else◌, Option-cases, length, length-set,
}
use mx3bot.CString.{Str, is_empty, str_case_eq, str_case_eq_empty, strncpy_fits}
use mx3bot.Table.{first_index, first_index-hit, first_index-lt, first_index-none_iff, tally}
use mx3bot.Table.Keyed.{
  Distinct, claim-Distinct, claim_lookup, clear-Distinct, clear_lookup, keyed, known_lookup,
  str_keys, vacant,
}
use mx3bot.Irc.Channel.{
  Channels, Slot, blank_slot, chan_add, chan_del, chan_find, chan_init, claimed, n_channels, put,
}

abbrev pub slot_key : Slot → Str
slot_key c = c.name

abbrev pub named : Str → Slot → Bool
named k = keyed str_keys slot_key k

abbrev pub is_free : Slot → Bool
is_free = vacant str_keys slot_key

pub record IsTable (s : Channels) : Type 0 where
  pub sized : length s.channel ≡ n_channels
  pub distinct : Distinct str_keys slot_key s.channel

-- The three ways out of `_irc_chan_add`.
pub chan_add_cases {ℓ} :
    (P : Channels × Option ℕ → Type ℓ) (name : Str) (key : Option Str) (s : Channels)
    → ((i : ℕ) → chan_find name s ≡ some i → P (s, some i))
    → ((i : ℕ)
        → chan_find name s ≡ none
        → first_index is_free s.channel ≡ some i
        → P (put s i (claimed s i name key), some i))
    → (chan_find name s ≡ none → first_index is_free s.channel ≡ none → P (s, none))
    → P (chan_add name key s)
unfolding chan_add
chan_add_cases P name key s old new full = elim (Option-cases (chan_find name s)) [
  | inr (i, e) ↦ rw (e, chan_add) (old i e)
  | inl e ↦ elim (Option-cases (first_index is_free s.channel)) [
    | inr (i, f) ↦ rw (e, chan_add, f) (new i e f)
    | inl f ↦ rw (e, chan_add, f) (full e f)
  ]
]

pub chan_del_cases {ℓ} :
    (P : Channels × Bool → Type ℓ) (name : Str) (s : Channels)
    → ((i : ℕ) → chan_find name s ≡ some i → P (put s i blank_slot, true))
    → (chan_find name s ≡ none → P (s, false))
    → P (chan_del name s)
unfolding chan_del
chan_del_cases P name s found missing = elim (Option-cases (chan_find name s)) [
  | inr (i, e) ↦ rw (e, chan_del) (found i e)
  | inl e ↦ rw (e, chan_del) (missing e)
]

pub claimed-key :
    (s : Channels) (i : ℕ) (name : Str) (key : Option Str)
    → length name < 32
    → (claimed s i name key).name ≡ name
claimed-key s i name none h = strncpy_fits 32 name (omega arith)
claimed-key s i name (some k) h = strncpy_fits 32 name (omega arith)

-- A channel added under a name of less than 32 bytes is found at the returned index from then on,
-- in any case of letters, and every other name is found where it was. A full table returns -1.
pub chan_find-chan_add :
    (name k : Str) (key : Option Str) (s : Channels)
    → length name < 32
    → is_empty k ≡ false
    → chan_find k (chan_add name key s).0
      ≡ (if str_case_eq name k then (chan_add name key s).1 else chan_find k s)
unfolding chan_find
chan_find-chan_add name k key s short solid =
    chan_add_cases (λ r. chan_find k r.0 ≡ (if str_case_eq name k then r.1 else chan_find k s)) name
      key s (λ i e. rw (← e) (known_lookup str_keys slot_key s.channel name k))
      (λ i e free.
        subst
          (λ n.
            chan_find k (put s i (claimed s i name key))
            ≡ (if str_case_eq n k then some i else chan_find k s))
          (claimed-key s i name key short)
          (claim_lookup str_keys slot_key s.channel i (claimed s i name key) blank_slot
            (first_index-lt is_free s.channel i free) k solid
            (rw (claimed-key s i name key short) e)
            (first_index-hit is_free s.channel i blank_slot free)))
      (λ e full. rw (← e) (known_lookup str_keys slot_key s.channel name k))

-- After `_irc_chan_del` the name is not found, in any case of letters, and every other name is
-- found where it was.
pub chan_find-chan_del :
    (name k : Str) (s : Channels)
    → IsTable s
    → is_empty k ≡ false
    → chan_find k (chan_del name s).0 ≡ (if str_case_eq name k then none else chan_find k s)
unfolding chan_find
chan_find-chan_del name k s v solid =
    chan_del_cases (λ r. chan_find k r.0 ≡ (if str_case_eq name k then none else chan_find k s))
      name s
      (λ i e.
        clear_lookup str_keys slot_key s.channel i blank_slot blank_slot
          (first_index-lt (named name) s.channel i e) k solid name e v.distinct refl)
      (λ e. rw (← e) (known_lookup str_keys slot_key s.channel name k))

pub chan_add-IsTable :
    (name : Str) (key : Option Str) (s : Channels)
    → length name < 32
    → IsTable s
    → IsTable (chan_add name key s).0
unfolding chan_find
chan_add-IsTable name key s short v =
    chan_add_cases (λ r. IsTable r.0) name key s (λ i e. v)
      (λ i e free. record {
        sized = length-set s.channel i _ ∙ v.sized;
        distinct =
            claim-Distinct str_keys slot_key s.channel i (claimed s i name key) blank_slot
              (first_index-lt is_free s.channel i free) (rw (claimed-key s i name key short) e)
              (first_index-hit is_free s.channel i blank_slot free) v.distinct;
      })
      (λ e full. v)

pub chan_del-IsTable : (name : Str) (s : Channels) → IsTable s → IsTable (chan_del name s).0
unfolding chan_find
chan_del-IsTable name s v =
    chan_del_cases (λ r. IsTable r.0) name s
      (λ i e. record {
        sized = length-set s.channel i _ ∙ v.sized;
        distinct =
            clear-Distinct str_keys slot_key s.channel i blank_slot blank_slot
              (first_index-lt (named name) s.channel i e) refl v.distinct;
      })
      (λ e. v)

tally-cleared :
    (k : Str) (t : List Slot)
    → is_empty k ≡ false
    → tally (named k) (map (λ (c : Slot). blank_slot) t) ≡ 0
unfolding tally
tally-cleared k [] h = refl
tally-cleared k (c ∷ t) h = ground (arith, str_case_eq_empty [] k h refl, tally-cleared k t h)

length-cleared : (t : List Slot) → length (map (λ (c : Slot). blank_slot) t) ≡ length t
length-cleared [] = refl
length-cleared (c ∷ t) = ap suc (length-cleared t)

-- `_irc_chan_init` makes a valid table of any 256 entries, in which no name is found.
pub chan_init-IsTable :
    (s : Channels)
    → length s.channel ≡ n_channels
    → IsTable (chan_init s) × ((k : Str) → is_empty k ≡ false → chan_find k (chan_init s) ≡ none)
unfolding chan_find chan_init
chan_init-IsTable s h = (
  record {
    sized = length-cleared s.channel ∙ h;
    distinct = λ k solid. omega (arith, tally-cleared k s.channel solid);
  },
  λ k solid. (first_index-none_iff _ _).1 (tally-cleared k s.channel solid),
)
