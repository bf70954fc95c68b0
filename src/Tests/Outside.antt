-- ===== src/Tests/Outside.antt =====
-- Tests of the options, the autosample process, the log, the signals and the rights.
use jk16legacy.Prelude.{
  ℕ, ◌+◌, ◌<◌, ◌≡◌, refl, ◌↔◌, true, none, some, List, [], ◌∷◌, ◌++◌, arith, ltb, if◌then◌else◌,
  pos, length, codes, strcmp_eq, atoi, int_text,
}
use jk16legacy.World.{notice}
use jk16legacy.KeyValue.{key_value_storage_init, key_value_storage_find}
use jk16legacy.Daemon.MainLoop.{ready}
use jk16legacy.Options.{Options, strdup, options_default, device}
use jk16legacy.Options.Print.{Setting, text, log_to, sample_every}
use jk16legacy.Options.Files.{
  options_parse_key_value_file, check_autosample, check_autosamples, parse_file, options_parse_post,
}
use jk16legacy.Options.Files.Laws.{IsPair, add_pairs, options_parse_key_value_file-conf_file}
use jk16legacy.Options.Files.Checks.{AreChecked, options_parse_post-AreChecked}
use jk16legacy.Autosample.{AutosampleDevice, at_end, AutoRound, AutoState, blocked, auto_run}
use jk16legacy.Autosample.Loop.{closed_pipe_blocks}
use jk16legacy.Log.{prio_number, LogEnv}
use jk16legacy.Log.Output.{log_targets_log, Log, msg_length_max, log_printf, set_up_log}
use jk16legacy.Log.Shortcut.{log_printf-set_up_log}
use jk16legacy.Log.HexDump.{hex_byte, dump_head, log_print_hex_dump, log_print_hex_dump_first_byte}
use jk16legacy.SigHandler.{sighup, sigterm, signal_handle, deliver}
use jk16legacy.SigHandler.Laws.{contains, is_exit, signal_handle-deliver}
use jk16legacy.Privileges.{System, Process, secure_part}
use jk16legacy.Privileges.Laws.{IsSecured, secure_part-IsSecured}
use jk16legacy.Tests.Data.{quiet}

abbrev settings : List Setting
settings =
    text device (codes "/dev/tty1")
    ∷ log_to (codes "stdout:3")
    ∷ sample_every (codes "t") (codes "5")
    ∷ []

entry-IsPair : IsPair (codes "k") (codes "v")
entry-IsPair = record {
  nonempty = tt;
  key_words = (refl, tt);
  key_lines = (refl, tt);
  key_zeros = (refl, tt);
  value_words = (refl, tt);
  value_lines = (refl, tt);
  value_zeros = (refl, tt);
  fits = omega arith;
}

file_example :
    options_parse_key_value_file
      (pos 0)
      []
      (codes "f")
      (some (codes "k v" ++ (b'\n' ∷ [])))
      key_value_storage_init
      quiet
    ≡ (pos 0, add_pairs ((codes "k", codes "v") ∷ []) key_value_storage_init, quiet)
file_example =
    options_parse_key_value_file-conf_file (pos 0) [] (codes "f") ((codes "k", codes "v") ∷ [])
      key_value_storage_init quiet (entry-IsPair, tt) refl

abbrev sampled : Options
sampled = record (options_default quiet).0 {
  sampledevs_ = record { keys_ = codes "t" ∷ []; values_ = codes "T" ∷ [] };
  autosampledevs_ = record { keys_ = codes "t" ∷ []; values_ = codes "5" ∷ [] };
}

post_zero : (options_parse_post (pos 0) [] (λ f. none) sampled quiet).0 ≡ pos 0
unfolding options_parse_post options_default strdup parse_file check_autosamples check_autosample
    key_value_storage_find strcmp_eq atoi
post_zero = refl

checked_example :
    let o' = (options_parse_post (pos 0) [] (λ f. none) sampled quiet).1 in
    AreChecked o'.sampledevs_ o'.autosampledevs_.keys_ o'.autosampledevs_.values_
checked_example = options_parse_post-AreChecked (pos 0) [] (λ f. none) sampled quiet post_zero

abbrev thermometer : AutosampleDevice
thermometer = record { delay_ = pos 5; cnt_ = 0; device_name_ = codes "t" }

abbrev eof_round : AutoRound
eof_round = record {
  select = ready;
  switch_ready = true;
  switches = at_end ∷ at_end ∷ [];
  sig_ready = true;
  signalled = true;
  strerror = [];
}

abbrev enabled_state : AutoState
enabled_state = record { devices = thermometer ∷ []; sample_enabled = 1; world = quiet }

blocks_example : auto_run 9 eof_round enabled_state ≡ blocked
blocks_example = closed_pipe_blocks 9 eof_round enabled_state refl refl tt

abbrev log_env : LogEnv
log_env = record {
  facilitynames = (codes "daemon", 24) ∷ [];
  log_daemon = 24;
  can_open = λ f. true;
}

set_up_example :
    let stdlog = (set_up_log log_env (codes "stdout:3" ∷ []) quiet).1 in
    log_printf stdlog notice (codes "hi") ≡ log_targets_log stdlog.targets_ notice (codes "hi")
set_up_example = log_printf-set_up_log log_env (codes "stdout:3" ∷ []) quiet notice (codes "hi")

signals_example :
    ((signal_handle (deliver (sighup ∷ sigterm ∷ []) none) quiet).0 ≡ true)
    ↔ ((s : ℕ) × (contains s (sighup ∷ sigterm ∷ []) ≡ true) × (is_exit s ≡ true))
signals_example = signal_handle-deliver (sighup ∷ sigterm ∷ []) quiet

abbrev unix : System
unix = record {
  getpwnam = λ name. some (record { pw_name = name; pw_uid = 7; pw_gid = 8 });
  getgrnam = λ name. none;
  getgrgid = λ gid. some (record { gr_name = codes "g"; gr_gid = gid });
  uid = 0;
  setgid_ok = true;
  setgroups_ok = true;
  setuid_ok = true;
  chroot_ok = true;
  chdir_ok = true;
  pid_file_ok = true;
  error_text = [];
  off_end = pos 0;
}

abbrev root_process : Process
root_process = record { calls = []; world = quiet }

rights_example :
    IsSecured unix
      (some (codes "psd"))
      none
      (some (codes "/jail"))
      root_process
      (secure_part unix (some (codes "psd")) none (some (codes "/jail")) none root_process)
rights_example =
    secure_part-IsSecured unix (some (codes "psd")) none (some (codes "/jail")) none root_process

abbrev stdout_log : Log
stdout_log = (set_up_log log_env (codes "stdout:5" ∷ []) quiet).1

hex_room : length (dump_head (length {A = ℕ} (171 ∷ 205 ∷ []))) + 3 < msg_length_max
unfolding dump_head int_text
hex_room = omega arith

hex_example : log_print_hex_dump stdout_log notice (some (171 ∷ 205 ∷ [])) [] ≡ (
    if ltb stdout_log.log_max_prio (prio_number notice)
    then []
    else log_targets_log stdout_log.targets_ notice
        (dump_head (length {A = ℕ} (171 ∷ 205 ∷ [])) ++ hex_byte 171))
hex_example = log_print_hex_dump_first_byte stdout_log notice 171 (205 ∷ []) [] hex_room
