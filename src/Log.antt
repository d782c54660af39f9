-- ===== src/Log.antt =====
-- src/log.c: the table of logs, one for each channel of a connection and one for all else, and what
-- is written to them.
-- `none` is an access through NULL. A result of `false` is -1.
pub mod Laws
mod Tests
use Prim.Native.Nat.{bit_and}
use mx3bot.Base.{
  ℕ, zero, suc, ◌+◌, ◌-◌, Bool, true, false, ◌&&◌, Option, none, some, List, [], ◌∷◌, ◌++◌, ◌==◌,
  if◌then◌else◌, length, load, replicate, set, take, ◌>>=◌,
}
use mx3bot.Base.Int.{ℤ, int_eq, negsuc, pos}
use mx3bot.CString.{Str, is_empty, str_case_eq, strncpy}
use mx3bot.Table.{first_index}

-- LOGTYPE_*
abbrev pub logtype_stdout : ℕ
logtype_stdout = 0x1

abbrev pub logtype_timestamp : ℕ
logtype_timestamp = 0x100

abbrev pub logtype_privmsg : ℕ
logtype_privmsg = 0x10000

abbrev pub logtype_notice : ℕ
logtype_notice = 0x20000

abbrev pub logtype_ctcp : ℕ
logtype_ctcp = 0x40000

abbrev pub logtype_join : ℕ
logtype_join = 0x80000

abbrev pub logtype_part : ℕ
logtype_part = 0x100000

abbrev pub logtype_topic : ℕ
logtype_topic = 0x200000

abbrev pub logtype_verbose : ℕ
logtype_verbose = 0xffffffff

-- struct logfile_t. An open file is the path that fopen() was given, and NULL is `none`.
pub record Logfile : Type 0 where
  pub cid : ℤ
  pub chan : Str
  pub filename : Str
  pub file : Option Str
  pub type : ℕ

-- The static variables, where `n_logfiles` is the length of `log` and -1 of `dummy_mode` the word of
-- all ones, with the lines that were written to the files, each with its path, and to stdout.
pub record Logs : Type 0 where
  pub log : List Logfile
  pub n_grow : ℕ
  pub logpath : Str
  pub dummy_mode : ℕ
  pub lines : List (Str × Str)
  pub echoed : List Str

abbrev pub clearlog : Logfile
clearlog = record { cid = negsuc 0; chan = []; filename = []; file = none; type = 0 }

at_least_one : ℤ → ℕ → ℕ
at_least_one (pos zero) d = d
at_least_one (pos (suc n)) d = suc n
at_least_one (negsuc n) d = d

-- `memory` says whether malloc() succeeds. Where it does not the result is -1, and there is no table.
unfoldable pub log_init : Bool → ℤ → ℤ → Logs → Option Logs
unfolding at_least_one
log_init memory n g s =
    if int_eq n (negsuc 0)
    then some (record s { dummy_mode = logtype_verbose })
    else if memory
    then some (record s {
      log = replicate (at_least_one n 32) clearlog;
      n_grow = at_least_one g 8;
      logpath = [];
      dummy_mode = 0;
    })
    else none

-- The text without the slashes at its end, but for its first byte.
strip_end : Str → Str
strip_end [] = []
strip_end (c ∷ s) = let rest = strip_end s in if is_empty rest && (c == b'/') then [] else c ∷ rest

strip_slashes : Str → Str
unfolding strip_end
strip_slashes [] = []
strip_slashes (c ∷ s) = c ∷ strip_end s

unfoldable pub log_setpath : Option Str → Logs → Logs
unfolding strncpy strip_slashes
log_setpath none s = record s { logpath = [] }
log_setpath (some path) s = record s { logpath = strip_slashes (strncpy 256 path) }

text_or_empty : Option Str → Str
unfolding strncpy
text_or_empty none = []
text_or_empty (some chan) = strncpy 32 chan

-- `fopen` says for which paths fopen() succeeds.
opened : (Str → Bool) → ℤ → Option Str → Str → ℕ → Logfile → Logfile
unfolding text_or_empty strncpy
opened fopen cid chan filename type l =
    if fopen filename
    then record {
      cid = cid;
      chan = text_or_empty chan;
      filename = strncpy 256 filename;
      file = some filename;
      type = type;
    }
    else record l { file = none }

unfoldable pub openlog : (Str → Bool) → ℕ → ℤ → Option Str → Str → ℕ → Logs → Option (Logs × Bool)
unfolding load opened
openlog fopen i cid chan filename type s = load s.log i >>= λ l.
    some (record s { log = set s.log i (opened fopen cid chan filename type l) }, fopen filename)

unfoldable pub closelog : ℕ → Logs → Option Logs
unfolding load
closelog i s =
    load s.log i >>= λ l. some (record s { log = set s.log i (record l { file = none }) })

-- The entries behind the first.
abbrev pub others : List Logfile → List Logfile
others [] = []
others (l ∷ ls) = ls

abbrev next : Option ℕ → Option ℕ
next none = none
next (some i) = some (suc i)

abbrev pub is_log : ℤ → Str → Logfile → Bool
is_log cid chan l = int_eq l.cid cid && str_case_eq l.chan chan

-- strcasecmp() reads through a null `chan` at an entry of that connection.
unfoldable pub findlog : ℤ → Option Str → List Logfile → Option (Option ℕ)
unfolding first_index
findlog cid none log =
    if int_eq cid (negsuc 0)
    then some (some 0)
    else elim (first_index (λ l. int_eq l.cid cid) (others log)) [
      | none ↦ some none
      | some i ↦ none
    ]
findlog cid (some chan) log = some (next (first_index (is_log cid chan) (others log)))

abbrev is_global : ℤ → Option Str → Bool
is_global cid none = int_eq cid (negsuc 0)
is_global cid (some chan) = false

close_found : Option ℕ → Logs → Option (Logs × Bool)
unfolding closelog
close_found none s = some (s, false)
close_found (some i) s = closelog i s >>= λ s'. some (s', true)

unfoldable pub log_unset : ℤ → Option Str → Logs → Option (Logs × Bool)
unfolding findlog closelog close_found
log_unset cid chan s = (if is_global cid chan then closelog 0 s else some s) >>= λ s'.
    findlog cid chan s'.log >>= λ i. close_found i s'

abbrev pub is_unset : Logfile → Bool
is_unset l = int_eq l.cid (negsuc 0) && is_empty l.chan

-- The array `pathname`, which is written only if there is a path: `unset` is what it holds before.
unfoldable pub pathname : Str → Str → Str → Str
pathname unset logpath filename =
    if is_empty logpath then unset else take 255 (logpath ++ b'/' ∷ filename)

-- A table that has no free entry grows, and nothing is opened. Where realloc() fails log_error() reads
-- from the table that is lost.
grow_log : Bool → Logs → Option (Logs × Bool)
grow_log memory s =
    if memory then some (record s { log = s.log ++ replicate s.n_grow clearlog }, true) else none

set_free : Bool → (ℕ → Logs → Option (Logs × Bool)) → Logs → Option ℕ → Option (Logs × Bool)
unfolding grow_log
set_free memory open_at s none = grow_log memory s
set_free memory open_at s (some i) = open_at i s

unfoldable pub log_set_path :
    (Str → Bool) → Bool → ℤ → Option Str → Str → ℕ → Logs → Option (Logs × Bool)
unfolding openlog set_free first_index
log_set_path fopen memory cid chan path type s =
    if is_global cid chan
    then openlog fopen 0 (negsuc 0) none path type s
    else set_free memory (λ i. openlog fopen i cid chan path type) s
        (next (first_index is_unset (others s.log)))

unfoldable pub log_set :
    (Str → Bool) → Bool → Str → ℤ → Option Str → Option Str → ℕ → Logs → Option (Logs × Bool)
unfolding log_unset log_set_path pathname
log_set fopen memory unset cid chan none type s =
    if s.dummy_mode == 0
    then log_unset cid chan s
    else some ((if type == 0 then s else record s { dummy_mode = type }), true)
log_set fopen memory unset cid chan (some filename) type s =
    if s.dummy_mode == 0
    then log_set_path fopen memory cid chan (pathname unset s.logpath filename) type s
    else some ((if type == 0 then s else record s { dummy_mode = type }), true)

abbrev pub has : ℕ → ℕ → Bool
has types type = if bit_and types type == 0 then false else true

-- `stamp` is the time stamp, of 22 bytes.
unfoldable pub stamped : Str → ℕ → Str → Str
stamped stamp types text =
    if has types logtype_timestamp then stamp ++ take 1001 text else take 1023 text

abbrev write_line : Option Str → Str → Logs → Logs
write_line none text s = s
write_line (some path) text s = record s { lines = s.lines ++ (path, text) ∷ [] }

add_to : Str → ℕ → Str → Logfile → Logs → Logs
unfolding stamped
add_to stamp type text l s =
    let line = stamped stamp l.type text in
    let s' = write_line l.file line s in
    if has l.type type
    then (if has l.type logtype_stdout then record s' { echoed = s'.echoed ++ line ∷ [] } else s')
    else s

add_found : Str → ℕ → Str → Logs → Option ℕ → Option Logs
unfolding add_to load
add_found stamp type text s none = some s
add_found stamp type text s (some i) = load s.log i >>= λ l. some (add_to stamp type text l s)

-- The text after its format.
unfoldable pub log_add : Str → ℤ → Option Str → ℕ → Str → Logs → Option Logs
unfolding findlog add_found
log_add stamp cid chan type text s =
    if s.dummy_mode == 0
    then (findlog cid chan s.log >>= λ i. add_found stamp type text s i)
    else some s
