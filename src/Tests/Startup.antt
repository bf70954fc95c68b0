-- ===== src/Tests/Startup.antt =====
-- Tests of the start and the end of the daemon.
use jk16legacy.Prelude.{
  ◌≡◌, refl, inr, true, false, none, some, List, [], ◌∷◌, arith, pos, All, codes,
}
use jk16legacy.World.{error, notice, str, logged}
use jk16legacy.SigHandler.Setup.{
  by_pipe, ignored, default_action, SignalState, SignalEnv, sigchld, sigpipe, signal_init,
  signal_stop, handler_of, known_signals, signal_init-signal_stop,
}
use jk16legacy.Startup.{os_sleep, os_open, Boot}
use jk16legacy.Startup.Socket.{
  SocketEnv, init_command_socket, SocketReady, init_command_socket_cases,
}
use jk16legacy.Startup.Tty.{TtyEnv}
use jk16legacy.Startup.Fork.{
  in_child, in_parent, PipeEnv, start_autosample_process, Opens, start_autosample_process-Opens,
}
use jk16legacy.Startup.Daemonize.{DaemonEnv, daemonize, DaemonEnd, daemonize-DaemonEnd}
use jk16legacy.Startup.Serial.{Opening, Serving}
use jk16legacy.Startup.Main.{MainEnv}
use jk16legacy.Tests.Data.{quiet, devices}

abbrev nothing_done : Boot
nothing_done = record { os_calls = []; world = quiet }

abbrev good_tty : TtyEnv
good_tty = record {
  tcgetattr = pos 0;
  cfsetospeed = pos 0;
  cfsetispeed = pos 0;
  tcsetattr = pos 0;
  tcflush = pos 0;
  attributes = record {
    c_iflag = 1;
    c_oflag = 2;
    c_cflag = 3;
    c_lflag = 4;
    echo = true;
    ospeed = 0;
    ispeed = 0;
  };
  input_left = 2;
  tty_error = [];
}

abbrev socket_env : SocketEnv
socket_env = record {
  socket_fd = some 4;
  sun_path_size = 108;
  bind_ok = true;
  listen_ok = false;
  connect_ok = true;
  socket_error = [];
}

socket_example :
    SocketReady socket_env
      (codes "cmd.sock")
      nothing_done
      (init_command_socket socket_env (codes "cmd.sock") nothing_done)
socket_example = init_command_socket_cases socket_env (codes "cmd.sock") nothing_done

abbrev daemon_env : DaemonEnv
daemon_env = record {
  first_fork = in_child;
  setsid_ok = true;
  second_fork = in_child;
  chdir_root_ok = true;
  null_fd = some 0;
  stdout_fd = some 1;
  stderr_fd = some 2;
  daemon_error = [];
}

background_example : DaemonEnd daemon_env nothing_done (daemonize daemon_env nothing_done)
background_example = daemonize-DaemonEnd daemon_env nothing_done

abbrev pipe_env : PipeEnv
pipe_env = record {
  write_pipe = some (5, 6);
  read_pipe = some (7, 8);
  fork = in_parent 100;
  pipe_error = [];
}

pipes_example : Opens nothing_done (5, 6) (7, 8) (start_autosample_process pipe_env nothing_done)
pipes_example =
    start_autosample_process-Opens pipe_env (5, 6) (7, 8) nothing_done
      (ground arith, ground arith, ground arith, ground arith, ground arith, ground arith)
      (inr refl) (inr refl)

abbrev served : Serving
served = record {
  devices = devices;
  tty_dev = some (codes "/dev/ttyUSB0");
  listen_fd = 4;
  helper = none;
}

-- The device is missing at first, and then signal_init fails.
abbrev two_openings : List Opening
two_openings =
    record { tty = none; settings = good_tty; sig = some 7; rounds = [] }
    ∷ record {
      tty = some 3;
      settings = record good_tty { input_left = 0 };
      sig = none;
      rounds = [];
    }
    ∷ []

abbrev opened_twice : Boot
opened_twice = record {
  os_calls = os_sleep 5 ∷ os_open 3 (codes "/dev/ttyUSB0") ∷ [];
  world = record quiet {
    trace =
        logged error "%s error, trying to reopen in 5 seconds.." (str (codes "/dev/ttyUSB0") ∷ [])
        ∷ logged notice "entering main loop" []
        ∷ [];
  };
}

abbrev unix_main : MainEnv
unix_main = record {
  logging = record { facilitynames = []; log_daemon = 24; can_open = λ f. true };
  files = λ f. none;
  file_error = [];
  off_end = pos 0;
  system = record {
    getpwnam = λ name. some (record { pw_name = name; pw_uid = 7; pw_gid = 8 });
    getgrnam = λ name. none;
    getgrgid = λ gid. some (record { gr_name = codes "g"; gr_gid = gid });
    uid = 0;
    setgid_ok = true;
    setgroups_ok = true;
    setuid_ok = true;
    chroot_ok = true;
    chdir_ok = true;
    pid_file_ok = true;
    error_text = [];
    off_end = pos 0;
  };
  daemon = daemon_env;
  oldpid = 100;
  pid = 102;
  pipes = pipe_env;
  command_socket = socket_env;
  openings = two_openings;
}

abbrev no_signals : SignalState
no_signals = record { handlers = []; pipe_fds = none; pipe_open = false; log_world = quiet }

abbrev signal_env : SignalEnv
signal_env = record {
  new_pipe = some (7, 8);
  get_flags_ok = λ fd. true;
  set_flags_ok = λ fd. true;
  sigaction_ok = λ sig. true;
  sig_error = [];
}

handlers_example :
    let (fd, s1) = signal_init signal_env no_signals in
    let s2 = signal_stop signal_env s1 in
    (fd ≡ some 7)
    × (s1.pipe_open ≡ true)
    × All (λ x. handler_of x s1.handlers ≡ by_pipe) known_signals
    × All (λ x. handler_of x s1.handlers ≡ ignored) (sigchld ∷ sigpipe ∷ [])
    × All (λ x. handler_of x s2.handlers ≡ default_action) (sigchld ∷ sigpipe ∷ known_signals)
    × (s2.pipe_open ≡ false)
handlers_example =
    signal_init-signal_stop signal_env no_signals 7 8 refl (λ fd. refl) (λ fd. refl) (λ x. refl)

abbrev no_sigaction : SignalEnv
no_sigaction = record signal_env { sigaction_ok = λ sig. false }
