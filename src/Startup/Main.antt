-- ===== src/Startup/Main.antt =====
-- powersensordaemon.c: main, from the command line to the exit status. Its calls of options_clear
-- and log_close, which free and close, are not modelled; nor is the text of options_print_usage,
-- for which its first line stands.
pub mod Order
pub mod Guard
use jk16legacy.Prelude.{
  ℕ, zero, suc, Option, none, some, List, [], ◌∷◌, ◌++◌, map, ltb, ◌==◌, if◌then◌else◌, ℤ, pos,
  negsuc, is_zero, get_or, Text,
}
use jk16legacy.World.{error, notice, info, str, num, World, log_event}
use jk16legacy.CommandQueue.{log}
use jk16legacy.KeyValue.{key_value_storage_length}
use jk16legacy.Daemon.MainLoop.{Autosample, Loop, on}
use jk16legacy.Daemon.MainLoop.Body.{running}
use jk16legacy.Options.{Options, unknown, options_parse}
use jk16legacy.Options.Files.{options_parse_post}
use jk16legacy.Log.{LogEnv}
use jk16legacy.Log.Output.{log_add_target, set_up_log}
use jk16legacy.Privileges.{System, Started, goes_on, exits, secure_part}
use jk16legacy.Startup.{OsCall, os_rights, os_pid_file, os_print, Boot, did, tell}
use jk16legacy.Startup.Socket.{SocketEnv, init_command_socket}
use jk16legacy.Startup.Fork.{
  PipeEnv, Forked, not_forked, forked, child_runs, start_autosample_process,
}
use jk16legacy.Startup.Daemonize.{DaemonEnv, Background, daemon_exit, in_background, daemonize}
use jk16legacy.Startup.Serial.{
  Opening, Serving, TtyEnd, tty_left, tty_serves, tty_stuck, tty_waits, tty_loop, shut_down,
}
use Prim.Native.String.{String}

-- What is outside main.
pub record MainEnv : Type 0 where
  pub logging : LogEnv
  -- fopen for reading, and the text of errno
  pub files : Text → Option (List ℕ)
  pub file_error : Text
  -- what a function without a return statement leaves
  pub off_end : ℤ
  pub system : System
  pub daemon : DaemonEnv
  -- getpid before and after daemonize
  pub oldpid : ℕ
  pub pid : ℕ
  pub pipes : PipeEnv
  pub command_socket : SocketEnv
  pub openings : List Opening

pub data MainEnd : Type 0 where
  exited : ℤ → Boot → MainEnd
  -- main_loop runs, or main waits for the serial line
  serves_on : Loop → Boot → MainEnd
  waits_on : Boot → MainEnd
  main_stuck : Boot → MainEnd
  -- the process that runs autosample_process, with its descriptors
  helper_runs : ℕ → ℕ → Boot → MainEnd
  -- a null pointer is read
  null_read : Boot → MainEnd

pub end_of : Serving → TtyEnd → MainEnd
unfolding shut_down
end_of v (tty_left ret fd b) = exited ret (shut_down v ret fd b)
end_of v (tty_serves l b) = serves_on l b
end_of v (tty_stuck b) = main_stuck b
end_of v (tty_waits b) = waits_on b

abbrev pub serving : Options → Option (ℕ × Autosample) → ℕ → Serving
serving o helper fd = record {
  devices = record { powerids_ = o.powerids_; sampledevs_ = o.sampledevs_ };
  tty_dev = o.tty_dev_;
  listen_fd = fd;
  helper = helper;
}

pub listen_with : MainEnv → Options → Option (ℕ × Autosample) → Option ℕ × Boot → MainEnd
unfolding end_of tty_loop
listen_with env o helper (none, b) = exited (negsuc 0) b
listen_with env o helper (some fd, b) =
    let v = serving o helper fd in end_of v (tty_loop v env.openings b)

-- int cmd_listen_fd = init_command_socket(opt.command_sock_); and what follows it
pub serve_part : MainEnv → Options → Option (ℕ × Autosample) → Option Text → Boot → MainEnd
unfolding listen_with init_command_socket
serve_part env o helper none b = null_read b
serve_part env o helper (some path) b =
    listen_with env o helper (init_command_socket env.command_socket path b)

pub helper_part : MainEnv → Options → Forked → MainEnd
unfolding serve_part
helper_part env o (not_forked b) = exited (pos 1) b
helper_part env o (forked pid a b) = serve_part env o (some (pid, a)) o.command_sock_ b
helper_part env o (child_runs writefd readfd b) = helper_runs writefd readfd b

-- if(key_value_storage_length(&opt.autosampledevs_) > 0) …
pub autosample_start : MainEnv → Options → Boot → MainEnd
unfolding helper_part serve_part start_autosample_process key_value_storage_length log_event
autosample_start env o b =
    if ltb 0 (key_value_storage_length o.autosampledevs_)
    then helper_part env o
        (start_autosample_process env.pipes (tell notice "starting autosample process" [] b))
    else serve_part env o none o.command_sock_ b

-- if(pid_file) …
pub store_pid : MainEnv → Option Text → Boot → Boot
store_pid env none b = b
store_pid env (some file) b = if env.system.pid_file_ok then did (os_pid_file file env.pid) b else b

pub daemon_part : MainEnv → Options → Background → MainEnd
unfolding autosample_start store_pid log_event
daemon_part env o (daemon_exit ret b) = exited ret b
daemon_part env o (in_background b) = autosample_start env o (
    store_pid env o.pid_file_
      (tell info "running in background now (old pid: %d)" (num env.oldpid ∷ []) b))

-- if(opt.daemonize_) … and what follows it
pub background_part : MainEnv → Options → Boot → MainEnd
unfolding daemon_part daemonize autosample_start store_pid
background_part env o b =
    if o.daemonize_
    then daemon_part env o (daemonize env.daemon b)
    else autosample_start env o (store_pid env o.pid_file_ b)

pub secured_part : MainEnv → Options → List OsCall → Started → MainEnd
unfolding background_part
secured_part env o cs (exits q) =
    exited (negsuc 0) (record { os_calls = cs ++ map (λ c. os_rights c) q.calls; world = q.world })
secured_part env o cs (goes_on q) =
    background_part env o
      (record { os_calls = cs ++ map (λ c. os_rights c) q.calls; world = q.world })

-- From options_parse_post on.
pub post_part : MainEnv → Options → Boot → MainEnd
unfolding secured_part secure_part options_parse_post log_event
post_part env o b =
    let (ret, o', w) =
      options_parse_post env.off_end env.file_error env.files o
        (log_event notice "just started..." [] b.world) in
    if is_zero ret
    then secured_part env o' b.os_calls (
        secure_part env.system o'.username_ o'.groupname_ o'.chroot_dir_ o'.pid_file_
          (record { calls = []; world = w }))
    else exited (negsuc 0) (record b { world = w })

-- The complaint about a log target; its name, which goes with all but the first, is left out.
target_complaint : ℤ → String
target_complaint (negsuc (suc zero)) = "memory error on log_add_target, exitting\n"
target_complaint (negsuc (suc (suc zero))) = "unknown log target: '%s', exitting\n"
target_complaint (negsuc (suc (suc (suc zero)))) =
    "this log target is only allowed once: '%s', exitting\n"
target_complaint r = "syntax error near: '%s', exitting\n"

pub log_part : MainEnv → Options → Boot → MainEnd
unfolding post_part set_up_log target_complaint
log_part env o b =
    let (ret, stdlog, w) = set_up_log env.logging o.log_targets_ b.world in
    if is_zero ret
    then post_part env o (record b { world = w })
    else exited ret (did (os_print (target_complaint ret) []) (record b { world = w }))

-- What main prints where options_parse has failed, by its value.
pub parse_complaint : List Text → ℤ → Boot → Boot
parse_complaint argv (pos n) b =
    did (os_print "USAGE:\n" [])
      (did (os_print "syntax error near: %s\n\n" (str (get_or argv n []) ∷ [])) b)
parse_complaint argv (negsuc n) b =
    if n == 1
    then did (os_print "memory error on options_parse, exiting\n" []) b
    else did (os_print "USAGE:\n" []) b

-- The words of the command line are argv0 and `args`.
unfoldable pub main : MainEnv → Text → List Text → World → MainEnd
unfolding log_part parse_complaint options_parse
main env argv0 args w =
    let (ret, o, w1) = options_parse argv0 args w in
    let b : Boot = record { os_calls = []; world = w1 } in
    if is_zero ret then log_part env o b else exited ret (parse_complaint (argv0 ∷ args) ret b)
