-- ===== src/Daemon/MainLoop/Body.antt =====
-- powersensordaemon.c: main_loop, from the part that sends a command on, and the loop around its
-- body.
use jk16legacy.Prelude.{
  ℕ, ◌+◌, Bool, false, ◌&&◌, ◌||◌, not, Option, none, some, List, [], ◌∷◌, map, ltb, leb, ◌==◌,
  if◌then◌else◌, ℤ, negsuc,
}
use jk16legacy.World.{error, notice, str, World, log_event}
use jk16legacy.Datatypes.{empty_buffer}
use jk16legacy.CommandQueue.{TimeVal, Cmd, cmd_has_expired, cmd_pop, cmd_clear}
use jk16legacy.ClientList.{Client, client_clear}
use jk16legacy.Daemon.Send.{put_written, write_loop, send_command}
use jk16legacy.Daemon.Commands.{in_world}
use jk16legacy.Daemon.MainLoop.{
  SelectOutcome, ready, timed_out, select_interrupted, select_failed, Round, Autosample, Setup,
  Loop, Flow, on, next_run, leave, hangs, ◌>>=◌, fd_isset, with_shared, note, check, signal_part,
  tty_part, listen_part, autosample_part, clients_walk,
}

-- The first command of the queue after a call of send_command.
unfoldable pub put_first : List Cmd → Loop → Option (ℤ × Cmd × World) → Flow
put_first q l none = hangs
put_first q l (some (_, cmd, w)) = on (with_shared (λ s. record s { cmd_q = cmd ∷ q; world = w }) l)

-- if(cmd_q && !cmd_q->sent) send_command(tty_fd, cmd_q);
unfoldable pub send_part : Setup → TimeVal → List Cmd → Loop → Flow
unfolding put_first
send_part c now [] l = on l
send_part c now (cmd ∷ q) l =
    if cmd.sent then on l else put_first q l (send_command now c.tty_fd cmd l.shared.world)

unfoldable pub count_sensor_listeners : List Client → ℕ → ℕ
count_sensor_listeners [] n = n
count_sensor_listeners (k ∷ ks) n =
    count_sensor_listeners ks (if k.sensor_listener then n + 1 else n)

-- The byte that switches the autosample process on or off, written until it is taken.
unfoldable pub write_switch : ℕ → Bool → World → World
unfolding write_loop
write_switch fd enabled w =
    (put_written w (write_loop w.writes fd (if enabled then 1 else 0) [] w.trace)).1

unfoldable pub switch_autosample : Autosample → ℕ → Loop → Loop
unfolding write_switch
switch_autosample a cnt l =
    if (not l.autosample_enabled && ltb 0 cnt) || (l.autosample_enabled && cnt == 0)
    then with_shared (in_world (write_switch a.read_fd_ (not l.autosample_enabled)))
        (record l { autosample_enabled = not l.autosample_enabled })
    else l

unfoldable pub enable_for : Option Autosample → Loop → Loop
unfolding switch_autosample
enable_for none l = l
enable_for (some a) l = switch_autosample a (count_sensor_listeners l.shared.client_lst 0) l

-- if(autosample->pid_ > 0) …
unfoldable pub enable_part : Setup → Loop → Loop
unfolding enable_for
enable_part c l = enable_for c.autosample l

-- The part of the body from the clients on. The return value of the walk leaves the loop only at
-- its end.
unfoldable pub clients_part : Setup → Round → (ℕ → Bool) → Loop → Flow
clients_part c r tmpfds l =
    let (ret, l1) = clients_walk c r tmpfds (map (λ k. k.fd) l.shared.client_lst) l in
    send_part c r.now l1.shared.cmd_q l1 >>= λ l2. check ret (enable_part c l2)

-- The body behind select.
unfoldable pub body : Setup → Round → (ℕ → Bool) → Loop → Flow
unfolding signal_part tty_part listen_part autosample_part clients_part
body c r tmpfds l =
    signal_part c r tmpfds l
    >>= tty_part c r tmpfds
    >>= listen_part c r tmpfds
    >>= autosample_part c r tmpfds
    >>= clients_part c r tmpfds

-- cmd_q && cmd_has_expired(*cmd_q)
unfoldable pub first_has_expired : TimeVal → List Cmd → Bool
unfolding cmd_has_expired
first_has_expired now [] = false
first_has_expired now (c ∷ q) = cmd_has_expired now c

unfoldable pub select_part : Setup → Round → SelectOutcome → Loop → Flow
unfolding body first_has_expired log_event
select_part c r select_failed l =
    leave (negsuc 0) (note error "select returned with error: %s" (str r.strerror ∷ []) l)
select_part c r select_interrupted l = next_run l
select_part c r timed_out l =
    if first_has_expired r.now l.shared.cmd_q
    then body c r (λ _. false)
        (with_shared (λ s. record s { cmd_q = cmd_pop s.cmd_q })
          (note error "last command expired" [] l))
    else next_run l
select_part c r ready l =
    body c r (λ fd. r.is_ready fd && (fd_isset fd l.readfds && leb fd l.max_fd)) l

unfoldable pub main_run : Setup → Round → Loop → Flow
unfolding select_part
main_run c r l = select_part c r r.select l

-- Where the loop is after some runs: still running, at its end with the value that main_loop
-- returns, or in a call that does not return.
pub data Outcome : Type 0 where
  running : Loop → Outcome
  returned : ℤ → Loop → Outcome
  stuck : Outcome

-- What main_loop does behind its loop: cmd_clear and client_clear. (signal_stop, which it calls
-- last, changes none of its variables.)
unfoldable pub cleanup : Loop → Loop
unfolding cmd_clear client_clear
cleanup l =
    let (clients, w) = client_clear l.shared.client_lst l.shared.world in
    record l {
      shared = record { cmd_q = cmd_clear l.shared.cmd_q; client_lst = clients; world = w };
    }

unfoldable pub proceed : (Loop → Outcome) → Flow → Outcome
unfolding cleanup
proceed k (on l) = k l
proceed k (next_run l) = k l
proceed k (leave r l) = returned r (cleanup l)
proceed k hangs = stuck

-- The loop over the runs that the list describes.
unfoldable pub main_runs : Setup → List Round → Loop → Outcome
unfolding proceed main_run
main_runs c [] l = running l
main_runs c (r ∷ rs) l = proceed (main_runs c rs) (main_run c r l)

abbrev pub add_fd : ℕ → Loop → Loop
add_fd fd l = record l {
  readfds = fd ∷ l.readfds;
  max_fd = if ltb l.max_fd fd then fd else l.max_fd;
}

abbrev pub watch_autosample : Option Autosample → Loop → Loop
watch_autosample none l = l
watch_autosample (some a) l = add_fd a.write_fd_ l

-- The variables at the head of the loop. (clear_fd, which reads away what waits in a descriptor,
-- is in Startup.Tty.)
unfoldable pub init_loop : Setup → World → Loop
unfolding log_event
init_loop c w = add_fd c.sig_fd (
    watch_autosample c.autosample (record {
      shared = record {
        cmd_q = [];
        client_lst = [];
        world = log_event notice "entering main loop" [] w;
      };
      readfds = c.cmd_listen_fd ∷ c.tty_fd ∷ [];
      max_fd = if ltb c.cmd_listen_fd c.tty_fd then c.tty_fd else c.cmd_listen_fd;
      tty_buffer = empty_buffer;
      autosample_buffer = empty_buffer;
      autosample_enabled = false;
    }))

-- main_loop, for a successful signal_init, over some runs of its loop.
unfoldable pub main_loop : Setup → List Round → World → Outcome
unfolding main_runs init_loop
main_loop c rs w = main_runs c rs (init_loop c w)
