-- ===== src/Log/Tests.antt =====
-- A table of three logs, the second of which is that of a channel.
use mx3bot.Base.{
  ◌≡◌, refl, true, none, some, [], ◌∷◌, ◌++◌, ◌>>=◌, Yields, Bool, arith, load, if◌then◌else◌,
}
use mx3bot.Base.Int.{pos}
use mx3bot.CString.{Str, str_case_eq}
use mx3bot.Table.{first_index}
use mx3bot.Log.{
  Logs, clearlog, has, log_add, log_set, logtype_join, logtype_verbose, pathname, stamped,
}
use mx3bot.Log.Laws.{log_add-log_set, log_add-log_set_again}

abbrev channel_mx : Str
channel_mx = b'#' ∷ b'm' ∷ b'x' ∷ []

abbrev other_channel : Str
other_channel = b'#' ∷ b'x' ∷ []

abbrev file_name : Str
file_name = b'l' ∷ b'o' ∷ b'g' ∷ []

abbrev one_log : Logs
one_log = record {
  log =
      clearlog
      ∷ (record {
        cid = pos 1;
        chan = channel_mx;
        filename = file_name;
        file = some file_name;
        type = 1;
      })
      ∷ clearlog
      ∷ [];
  n_grow = 2;
  logpath = file_name;
  dummy_mode = 0;
  lines = [];
  echoed = [];
}

log_add-log_set_example :
    Yields
      (λ (s' : Logs). s'.lines ≡ (
        if has logtype_verbose logtype_join
        then [] ++ (pathname [] file_name file_name, stamped [] logtype_verbose file_name) ∷ []
        else []))
      (log_set
          (λ path. true)
          true
          []
          (pos 1)
          (some other_channel)
          (some file_name)
          logtype_verbose
          one_log
        >>= λ (s', r). log_add [] (pos 1) (some other_channel) logtype_join file_name s')
unfolding first_index str_case_eq
log_add-log_set_example =
    log_add-log_set (λ path. true) true [] [] 1 other_channel file_name logtype_verbose logtype_join
      file_name one_log 1 refl (omega arith) refl refl refl

log_add-log_set_again_example :
    Yields
      (λ ((s₂, r₁, r₂, s') : Logs × Bool × Bool × Logs).
        (r₁ ≡ true)
        × (r₂ ≡ true)
        × ((load s₂.log 2 >>= λ l. l.file) ≡ some (pathname [] file_name file_name))
        × (s'.lines ≡ []))
      (log_set (λ path. true) true [] (pos 1) (some channel_mx) none logtype_verbose one_log
        >>= λ (s₁, r₁).
            log_set
              (λ path. true)
              true
              []
              (pos 1)
              (some channel_mx)
              (some file_name)
              logtype_verbose
              s₁
            >>= λ (s₂, r₂). log_add [] (pos 1) (some channel_mx) logtype_join file_name s₂ >>= λ s'.
                some (s₂, r₁, r₂, s'))
unfolding first_index str_case_eq
log_add-log_set_again_example =
    log_add-log_set_again (λ path. true) true [] [] 1 channel_mx file_name logtype_verbose
      logtype_join file_name one_log 1 0 refl refl refl (omega arith) refl
