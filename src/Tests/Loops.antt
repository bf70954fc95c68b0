-- ===== src/Tests/Loops.antt =====
-- Tests of main_loop.
use jk16legacy.Prelude.{
  ◌≤◌, ◌≡◌, refl, ap, inl, false, none, some, List, [], ◌∷◌, ◌++◌, map, arith, ◌==◌, length, codes,
}
use jk16legacy.World.{error, notice, debug, num, wrote, logged, emit, log_event, alloc}
use jk16legacy.CommandQueue.{Cmd, cmd_sent, cmd_has_expired}
use jk16legacy.ClientList.{new_client, client_add, client_find}
use jk16legacy.Daemon.Send.{command_bytes}
use jk16legacy.Daemon.MainLoop.{
  ready, timed_out, Round, Setup, Loop, on, fd_isset, signal_part, tty_part, add_connection,
  accept_connection, listen_part, autosample_ready, autosample_part, read_client, clients_walk,
}
use jk16legacy.Daemon.MainLoop.Body.{
  send_part, count_sensor_listeners, switch_autosample, enable_for, enable_part, clients_part, body,
  select_part, main_run, running, proceed, main_runs, init_loop,
}
use jk16legacy.Daemon.MainLoop.Invariant.{IsSound}
use jk16legacy.Daemon.MainLoop.Runs.{Reaches, start, step, Reaches-IsSound}
use jk16legacy.Daemon.MainLoop.Effects.{with_queue, timed_out_run}
use jk16legacy.Daemon.MainLoop.Protocol.{Action, Steps, submitted, departed}
use jk16legacy.Daemon.MainLoop.Refines.{request, view}
use jk16legacy.Daemon.MainLoop.Follows.{main_runs-fifo}
use jk16legacy.Tests.Data.{quiet, at_second, devices, two_clients, sampling, switching}

abbrev setup : Setup
setup = record {
  opt = devices;
  tty_fd = 3;
  cmd_listen_fd = 4;
  sig_fd = 7;
  autosample = some (record { write_fd_ = 8; read_fd_ = 9 });
}

-- A run in which a client connects with descriptor 5.
abbrev connect : Round
connect = record {
  select = ready;
  is_ready = λ fd. fd == 4;
  signalled = false;
  polls = [];
  accepted = some 5;
  reads = λ fd. [];
  now = at_second 20;
  strerror = [];
}

abbrev expire : Round
expire = record connect { select = timed_out; accepted = none }

abbrev running_loop : List Cmd → Loop
running_loop q = record (init_loop setup quiet) {
  shared = record { cmd_q = q; client_lst = two_clients; world = quiet };
}

-- Where the loop is after a client has connected.
abbrev connected : Loop
connected = record (init_loop setup quiet) {
  shared = record {
    cmd_q = [];
    client_lst = new_client 5 ∷ [];
    world = record quiet {
      trace =
          logged notice "entering main loop" []
          ∷ logged debug "new command connection (fd=%d)" (num 5 ∷ [])
          ∷ [];
    };
  };
  readfds = 5 ∷ 7 ∷ 8 ∷ 4 ∷ 3 ∷ [];
}

connect_run : main_run setup connect (init_loop setup quiet) ≡ on connected
unfolding main_run select_part body init_loop fd_isset signal_part tty_part listen_part
    accept_connection add_connection client_add autosample_part autosample_ready clients_part
    clients_walk read_client send_part enable_part enable_for switch_autosample
    count_sensor_listeners client_find log_event emit alloc
connect_run = refl

connect-Reaches : Reaches setup quiet connected
unfolding init_loop
connect-Reaches = step connected connect start (tt, λ e. ground arith) (inl connect_run)

reaches_example : IsSound setup connected
reaches_example = Reaches-IsSound connect-Reaches

-- Where the loop is after a time-out that the first of two commands has not survived.
abbrev after_expire : Loop
after_expire = enable_part setup (record (running_loop []) {
  shared = record {
    cmd_q = cmd_sent (at_second 20) sampling ∷ [];
    client_lst = two_clients;
    world = record quiet {
      trace = logged error "last command expired" [] ∷ wrote 3 (codes "T") ∷ [];
    };
  };
})

timed_out_example :
    main_run setup expire (with_queue (switching ∷ sampling ∷ []) (running_loop []))
    ≡ on after_expire
unfolding cmd_has_expired command_bytes
timed_out_example =
    timed_out_run setup expire (running_loop []) switching sampling [] (codes "T") b'T' [] refl refl
      refl refl refl refl

abbrev two_queued : Loop
two_queued = running_loop (switching ∷ sampling ∷ [])

one_run : main_runs setup (expire ∷ []) two_queued ≡ running after_expire
unfolding main_runs proceed cmd_has_expired command_bytes
one_run = ap (proceed (main_runs setup [])) (
    timed_out_run setup expire (running_loop []) switching sampling [] (codes "T") b'T' [] refl refl
      refl refl refl refl)

fifo_example :
    (actions : List Action) × Steps
      (view two_queued.shared.cmd_q)
      actions
      (view after_expire.shared.cmd_q)
    × (map request two_queued.shared.cmd_q ++ submitted actions
        ≡ departed actions ++ map request after_expire.shared.cmd_q)
    × (length (departed actions) ≤ length (expire ∷ []))
fifo_example = main_runs-fifo setup (expire ∷ []) two_queued after_expire (refl, tt) one_run

-- Two time-outs, with more than two seconds before each.
abbrev two_expire : List Round
two_expire = expire ∷ record expire { now = at_second 30 } ∷ []
