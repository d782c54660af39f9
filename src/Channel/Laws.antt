-- ===== src/Channel/Laws.antt =====
-- What channel.c promises: a table of distinct names with a partial lookup.

use mx3bot.Base.Int.{ℤ}
use mx3bot.CString.{Str, is_empty, str_case_eq, str_case_eq_empty, strncpy, strncpy_fits}
use mx3bot.Table.{first_index, first_index-hit, first_index-lt, first_index-none_iff, tally}
use mx3bot.Table.Keyed.{
  Distinct, claim-Distinct, claim_lookup, clear-Distinct, clear_lookup, keyed, known_lookup,
  str_keys, vacant,
}
use mx3bot.Channel.{Channel, blank_channel, chan_add, chan_del, chan_find, chan_init, n_channels}
use mx3bot.Base.{
  ℕ, suc, ◌<◌, ◌≡◌, refl, ap, ◌∙◌, inl, inr, Bool, true, false, Option, none, some, List, [], ◌∷◌,
  arith, if◌then◌else◌, Option-cases, length, set, get_or, length-set,
}

abbrev channel_key : Channel → Str
channel_key c = c.name

pub record IsTable (t : List Channel) : Type 0 where
  pub sized : length t ≡ n_channels
  pub distinct : Distinct str_keys channel_key t

-- The three ways out of `chan_add`.
chan_add_cases {ℓ} :
    (P : List Channel × Option ℕ → Type ℓ) (server : ℤ) (name : Str) (t : List Channel)
    → ((i : ℕ) → chan_find server name t ≡ some i → P (t, some i))
    → ((i : ℕ)
        → chan_find server name t ≡ none
        → first_index (vacant str_keys channel_key) t ≡ some i
        → P (set t i (record (get_or t i blank_channel) { name = strncpy 32 name }), some i))
    → (chan_find server name t ≡ none
        → first_index (vacant str_keys channel_key) t ≡ none
        → P (t, none))
    → P (chan_add server name t)
unfolding chan_add
chan_add_cases P server name t old new full = elim (Option-cases (chan_find server name t)) [
  | inr (i, e) ↦ rw (e, chan_add) (old i e)
  | inl e ↦ elim (Option-cases (first_index (vacant str_keys channel_key) t)) [
    | inr (i, f) ↦ rw (e, chan_add, f) (new i e f)
    | inl f ↦ rw (e, chan_add, f) (full e f)
  ]
]

-- The ways out of `chan_del`.
chan_del_cases {ℓ} :
    (P : List Channel × Bool → Type ℓ) (server : ℤ) (name : Str) (t : List Channel)
    → ((i : ℕ)
        → chan_find server name t ≡ some i
        → P (set t i (record (get_or t i blank_channel) { name = [] }), true))
    → (chan_find server name t ≡ none → P (t, false))
    → P (chan_del server name t)
unfolding chan_del
chan_del_cases P server name t found missing = elim (Option-cases (chan_find server name t)) [
  | inr (i, e) ↦ rw (e, chan_del) (found i e)
  | inl e ↦ rw (e, chan_del) (missing e)
]

-- A channel added under a name of less than 32 bytes is found at the returned index from then on,
-- in any case of letters and from any server, and every other name is found where it was. A full
-- table returns -1 and finds nothing.
pub chan_find-chan_add_any_server :
    (server server' : ℤ) (name k : Str) (t : List Channel)
    → length name < 32
    → is_empty k ≡ false
    → chan_find server' k (chan_add server name t).0
      ≡ (if str_case_eq name k then (chan_add server name t).1 else chan_find server' k t)
unfolding chan_find
chan_find-chan_add_any_server server server' name k t short solid =
    chan_add_cases
      (λ r. chan_find server' k r.0 ≡ (if str_case_eq name k then r.1 else chan_find server' k t))
      server name t (λ i e. rw (← e) (known_lookup str_keys channel_key t name k))
      (λ i e free. rw (strncpy_fits 32 name (omega arith)) (
        claim_lookup str_keys channel_key t i _ blank_channel
          (first_index-lt (vacant str_keys channel_key) t i free) k solid e
          (first_index-hit (vacant str_keys channel_key) t i blank_channel free)))
      (λ e full. rw (← e) (known_lookup str_keys channel_key t name k))

-- After `chan_del` the name is not found, in any case of letters, and every other name is found
-- where it was.
pub chan_find-chan_del_any_server :
    (server server' : ℤ) (name k : Str) (t : List Channel)
    → IsTable t
    → is_empty k ≡ false
    → chan_find server' k (chan_del server name t).0
      ≡ (if str_case_eq name k then none else chan_find server' k t)
unfolding chan_find
chan_find-chan_del_any_server server server' name k t v solid =
    chan_del_cases
      (λ r. chan_find server' k r.0 ≡ (if str_case_eq name k then none else chan_find server' k t))
      server name t
      (λ i e.
        clear_lookup str_keys channel_key t i _ blank_channel
          (first_index-lt (keyed str_keys channel_key name) t i e) k solid name e v.distinct refl)
      (λ e. rw (← e) (known_lookup str_keys channel_key t name k))

-- The table keeps its 256 entries and no two of them hold one name.
pub chan_add-IsTable :
    (server : ℤ) (name : Str) (t : List Channel)
    → length name < 32
    → IsTable t
    → IsTable (chan_add server name t).0
unfolding chan_find
chan_add-IsTable server name t short v =
    chan_add_cases (λ r. IsTable r.0) server name t (λ i e. v)
      (λ i e free. record {
        sized = length-set t i _ ∙ v.sized;
        distinct =
            claim-Distinct str_keys channel_key t i _ blank_channel
              (first_index-lt (vacant str_keys channel_key) t i free)
              (rw (strncpy_fits 32 name (omega arith)) e)
              (first_index-hit (vacant str_keys channel_key) t i blank_channel free) v.distinct;
      })
      (λ e full. v)

pub chan_del-IsTable :
    (server : ℤ) (name : Str) (t : List Channel) → IsTable t → IsTable (chan_del server name t).0
unfolding chan_find
chan_del-IsTable server name t v =
    chan_del_cases (λ r. IsTable r.0) server name t
      (λ i e. record {
        sized = length-set t i _ ∙ v.sized;
        distinct =
            clear-Distinct str_keys channel_key t i _ blank_channel
              (first_index-lt (keyed str_keys channel_key name) t i e) refl v.distinct;
      })
      (λ e. v)

tally-cleared :
    (k : Str) (t : List Channel)
    → is_empty k ≡ false
    → tally (keyed str_keys channel_key k) (chan_init t) ≡ 0
unfolding chan_init tally
tally-cleared k [] h = refl
tally-cleared k (c ∷ t) h = ground (arith, str_case_eq_empty [] k h refl, tally-cleared k t h)

length-chan_init : (t : List Channel) → length (chan_init t) ≡ length t
unfolding chan_init
length-chan_init [] = refl
length-chan_init (c ∷ t) = ap suc (length-chan_init t)

-- `chan_init` makes a valid table of any 256 entries, in which no name is found.
pub chan_init-IsTable :
    (t : List Channel)
    → length t ≡ n_channels
    → IsTable (chan_init t)
      × ((server : ℤ) (k : Str) → is_empty k ≡ false → chan_find server k (chan_init t) ≡ none)
unfolding chan_find
chan_init-IsTable t h = (
  record {
    sized = length-chan_init t ∙ h;
    distinct = λ k solid. omega (arith, tally-cleared k t solid);
  },
  λ server k solid. (first_index-none_iff _ _).1 (tally-cleared k t solid),
)
