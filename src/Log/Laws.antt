-- ===== src/Log/Laws.antt =====
-- src/log.c: what a log holds that was opened, and one that was closed and opened again.
use mx3bot.Base.{
  ◌≡◌, refl, ◌∙◌, ◌<◌, ℕ, suc, Bool, true, false, Bool-cases, inl, inr, none, some, List, [], ◌∷◌,
  ◌++◌, ◌>>=◌, Yields, Yields-bind, yields, arith, get_or, if◌then◌else◌, length, load, load-inside,
  set, take_all,
}
use mx3bot.Base.Int.{pos}
use mx3bot.CString.{Str, str_case_eq_refl, strncpy}
use mx3bot.Table.{first_index, first_index-lt, first_index-set_new, first_index-set_same}
use mx3bot.Table.Writes.{first_index-set_later, load-set, load-set_other}
use mx3bot.Log.{
  Logfile, Logs, add_found, add_to, clearlog, close_found, closelog, findlog, has, is_log, is_unset,
  log_add, log_set, log_set_path, log_unset, opened, openlog, others, pathname, set_free, stamped,
  text_or_empty, write_line, logtype_stdout,
}

others-set :
    (log : List Logfile) (i : ℕ) (v : Logfile) → others (set log (suc i) v) ≡ set (others log) i v
others-set [] i v = refl
others-set (l ∷ ls) i v = refl

if_same {ℓ} : {A : Type ℓ} (b : Bool) (a : A) → (if b then a else a) ≡ a
if_same true a = refl
if_same false a = refl

load-others :
    (log : List Logfile) (i : ℕ)
    → i < length (others log)
    → load log (suc i) ≡ some (get_or (others log) i clearlog)
unfolding load
load-others [] i h = elim h [ ]
load-others (l ∷ ls) i h = load-inside ls i clearlog h

length-others : (log : List Logfile) (i : ℕ) → i < length (others log) → suc i < length log
length-others [] i h = elim h [ ]
length-others (l ∷ ls) i h = omega arith

-- What an entry is once its log is open.
abbrev entry : ℕ → Str → Str → ℕ → Logfile
entry cid chan path type = record {
  cid = pos cid;
  chan = strncpy 32 chan;
  filename = strncpy 256 path;
  file = some path;
  type = type;
}

is_log-entry :
    (cid : ℕ) (chan path : Str) (type : ℕ)
    → length chan < 32
    → is_log (pos cid) chan (entry cid chan path type) ≡ true
unfolding strncpy
is_log-entry cid chan path type h =
    rw (take_all 32 chan (omega (arith, h))) (ground (arith, str_case_eq_refl chan))

module _ (fopen : Str → Bool) (memory : Bool) (unset stamp : Str) (cid : ℕ) (chan filename : Str)
    (type type' : ℕ) (text : Str) where
  log_set-entry :
      (s : Logs) (i : ℕ)
      → s.dummy_mode ≡ 0
      → first_index is_unset (others s.log) ≡ some i
      → fopen (pathname unset s.logpath filename) ≡ true
      → log_set fopen memory unset (pos cid) (some chan) (some filename) type s
        ≡ some (
          record s {
            log = set s.log (suc i) (entry cid chan (pathname unset s.logpath filename) type);
          },
          true,
        )
  unfolding log_set log_set_path openlog set_free opened text_or_empty
  log_set-entry s i quiet free opens =
      let inside = length-others s.log i (first_index-lt is_unset (others s.log) i free) in
      rw (quiet, free, load-inside s.log (suc i) clearlog inside, opens) refl

  add_to-lines :
      (s : Logs) (l : Logfile)
      → (add_to stamp type' text l s).lines ≡ (
          if has l.type type'
          then (write_line l.file (stamped stamp l.type text) s).lines
          else s.lines)
  unfolding add_to
  add_to-lines s l = elim (Bool-cases (has l.type type')) [
    | inl e ↦ elim (Bool-cases (has l.type logtype_stdout)) [
      | inl e' ↦ rw (e, e') refl
      | inr e' ↦ rw (e, e') refl
    ]
    | inr e ↦ rw e refl
  ]

  -- The line goes to the entry that findlog() finds.
  log_add-entry :
      (s : Logs) (i : ℕ) (path : Str)
      → s.dummy_mode ≡ 0
      → first_index (is_log (pos cid) chan) (others s.log) ≡ some i
      → load s.log (suc i) ≡ some (entry cid chan path type)
      → Yields
          (λ (s' : Logs).
            s'.lines
            ≡ (if has type type' then s.lines ++ (path, stamped stamp type text) ∷ [] else s.lines))
          (log_add stamp (pos cid) (some chan) type' text s)
  unfolding log_add findlog add_found add_to
  log_add-entry s i path quiet found there =
      rw (quiet, found, add_found, there) (yields (add_to-lines s (entry cid chan path type)))

  -- In a table of logs that is in use, with a free entry and none of the channel, whose name has
  -- less than 32 bytes, and where the file can be opened: after `log_set` with the types to hold,
  -- `log_add` for that channel adds to the lines of the file exactly the one with the text, if its
  -- type is among them, and nothing if it is not.
  pub log_add-log_set :
      (s : Logs) (i : ℕ)
      → s.dummy_mode ≡ 0
      → length chan < 32
      → first_index is_unset (others s.log) ≡ some i
      → first_index (is_log (pos cid) chan) (others s.log) ≡ none
      → fopen (pathname unset s.logpath filename) ≡ true
      → Yields
          (λ (s' : Logs). s'.lines ≡ (
            if has type type'
            then s.lines ++ (pathname unset s.logpath filename, stamped stamp type text) ∷ []
            else s.lines))
          (log_set fopen memory unset (pos cid) (some chan) (some filename) type s >>= λ (s', r).
            log_add stamp (pos cid) (some chan) type' text s')
  log_add-log_set s i quiet short free absent opens =
      let path = pathname unset s.logpath filename in
      let inside = first_index-lt is_unset (others s.log) i free in
      let found =
        first_index-set_new (is_log (pos cid) chan) (others s.log) i (entry cid chan path type)
          absent (is_log-entry cid chan path type short) inside in
      rw (log_set-entry s i quiet free opens) (
        log_add-entry _ i path quiet (rw (others-set s.log i (entry cid chan path type)) found)
          (load-set s.log (suc i) (entry cid chan path type) (length-others s.log i inside)))

  -- Who is found there does not have an open file.
  log_add-closed :
      (s : Logs) (i : ℕ) (l : Logfile)
      → s.dummy_mode ≡ 0
      → first_index (is_log (pos cid) chan) (others s.log) ≡ some i
      → load s.log (suc i) ≡ some l
      → l.file ≡ none
      → Yields
          (λ (s' : Logs). s'.lines ≡ s.lines)
          (log_add stamp (pos cid) (some chan) type' text s)
  unfolding log_add findlog add_found
  log_add-closed s i l quiet found there closed =
      rw (quiet, found, add_found, there)
        (yields (add_to-lines s l ∙ rw closed (if_same (has l.type type') s.lines)))

  abbrev closed_again : Logs → ℕ → Logs
  closed_again s j = record s {
    log = set s.log (suc j) (record (get_or (others s.log) j clearlog) { file = none });
  }

  log_set-closed :
      (s : Logs) (j : ℕ)
      → s.dummy_mode ≡ 0
      → first_index (is_log (pos cid) chan) (others s.log) ≡ some j
      → log_set fopen memory unset (pos cid) (some chan) none type s ≡ some (closed_again s j, true)
  unfolding log_set log_unset findlog close_found closelog
  log_set-closed s j quiet found =
      rw
        (
          quiet,
          found,
          close_found,
          load-others s.log j (first_index-lt (is_log (pos cid) chan) (others s.log) j found),
        )
        refl

  -- In a table of logs that is in use, where a channel has a log, the first free entry is behind it
  -- and the file can be opened: `log_set` closes the log and then opens it again, returns 0 both
  -- times, and the free entry then has the open file, yet `log_add` for that channel returns
  -- without a line added to any file.
  pub log_add-log_set_again :
      (s : Logs) (i j : ℕ)
      → s.dummy_mode ≡ 0
      → first_index (is_log (pos cid) chan) (others s.log) ≡ some j
      → first_index is_unset (others s.log) ≡ some i
      → j < i
      → fopen (pathname unset s.logpath filename) ≡ true
      → Yields
          (λ ((s₂, r₁, r₂, s') : Logs × Bool × Bool × Logs).
            (r₁ ≡ true)
            × (r₂ ≡ true)
            × ((load s₂.log (suc i) >>= λ l. l.file) ≡ some (pathname unset s.logpath filename))
            × (s'.lines ≡ s.lines))
          (log_set fopen memory unset (pos cid) (some chan) none type s >>= λ (s₁, r₁).
            log_set fopen memory unset (pos cid) (some chan) (some filename) type s₁ >>= λ (s₂, r₂).
            log_add stamp (pos cid) (some chan) type' text s₂ >>= λ s'. some (s₂, r₁, r₂, s'))
  log_add-log_set_again s i j quiet found free before opens =
      let there = first_index-lt (is_log (pos cid) chan) (others s.log) j found in
      let shut : Logfile = record (get_or (others s.log) j clearlog) { file = none } in
      let path = pathname unset s.logpath filename in
      let others₁ = others-set s.log j shut in
      let free₁ : first_index is_unset (others (set s.log (suc j) shut)) ≡ some i =
        rw others₁ (first_index-set_same is_unset (others s.log) j shut clearlog refl ∙ free) in
      let found₁ : first_index (is_log (pos cid) chan) (others (set s.log (suc j) shut)) ≡ some j =
        rw others₁ (
          first_index-set_same (is_log (pos cid) chan) (others s.log) j shut clearlog refl
          ∙ found) in
      let log₁ = set s.log (suc j) shut in
      let found₂ =
        first_index-set_later (is_log (pos cid) chan) (others log₁) i j (entry cid chan path type)
          found₁ before in
      let load₂ =
        load-set_other log₁ (suc i) (suc j) (entry cid chan path type) (omega (arith, before))
        ∙ load-set s.log (suc j) shut (length-others s.log j there) in
      let again = entry cid chan path type in
      let inside = length-others log₁ i (first_index-lt is_unset (others log₁) i free₁) in
      let opened_there : (load (set log₁ (suc i) again) (suc i) >>= λ l. l.file) ≡ some path =
        rw (load-set log₁ (suc i) again inside) refl in
      rw (log_set-closed s j quiet found, log_set-entry (closed_again s j) i quiet free₁ opens)
        (Yields-bind
          (log_add-closed (record (closed_again s j) { log = set log₁ (suc i) again }) j shut quiet
            (rw (others-set log₁ i again) found₂) load₂ refl)
          (λ s' silent. yields (refl, refl, opened_there, silent)))
