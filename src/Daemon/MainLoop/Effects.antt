-- ===== src/Daemon/MainLoop/Effects.antt =====
-- What single parts of main_loop do.
use jk16legacy.Prelude.{
  ℕ, ◌+◌, ◌<◌, ◌≡◌, refl, ap, ◌∙◌, Bool, true, false, not, Option, none, some, List, [], ◌∷◌, ◌++◌,
  map, arith, if◌then◌else◌, pos, Text,
}
use jk16legacy.World.{error, wrote, closed, logged, emit, log_event}
use jk16legacy.CommandQueue.{
  CmdId, TimeVal, Cmd, new_cmd, cmd_sent, cmd_has_expired, cmd_pop, cmd_clear,
}
use jk16legacy.ClientList.{Client}
use jk16legacy.ClientList.Laws.{client_clear_lem}
use jk16legacy.Daemon.Send.{command_bytes, send_command}
use jk16legacy.Daemon.Send.Command.{send_command_whole}
use jk16legacy.Daemon.MainLoop.{
  timed_out, Round, Autosample, Setup, Loop, on, ◌>>=◌, with_shared, note, check, autosample_ready,
  autosample_part, clients_walk,
}
use jk16legacy.Daemon.MainLoop.Body.{
  put_first, send_part, enable_part, clients_part, body, first_has_expired, select_part, main_run,
  cleanup,
}

-- How many clients listen to sensor data.
abbrev sensor_listeners : List Client → ℕ
sensor_listeners [] = 0
sensor_listeners (k ∷ ks) = (if k.sensor_listener then 1 else 0) + sensor_listeners ks

abbrev pub is_change : Bool → Bool → Bool
is_change true b = not b
is_change false b = b

clients_walk_idle :
    (c : Setup) (r : Round) (fds : List ℕ) (l : Loop)
    → clients_walk c r (λ _. false) fds l ≡ (pos 0, l)
unfolding clients_walk
clients_walk_idle c r [] l = refl
clients_walk_idle c r (fd ∷ fds) l = clients_walk_idle c r fds l

-- Where no descriptor is ready the body only sends the first command and switches autosample.
pub body_idle :
    (c : Setup) (r : Round) (l : Loop)
    → body c r (λ _. false) l
      ≡ (send_part c r.now l.shared.cmd_q l >>= λ l2. check (pos 0) (enable_part c l2))
unfolding body autosample_part
body_idle c r l = go c.autosample
  where
    go :
        (o : Option Autosample)
        → (autosample_ready c r (λ _. false) o l >>= clients_part c r (λ _. false))
          ≡ (send_part c r.now l.shared.cmd_q l >>= λ l2. check (pos 0) (enable_part c l2))
    go none = rw (clients_part, clients_walk_idle)
    go (some a) = rw (clients_part, clients_walk_idle)

abbrev pub with_queue : List Cmd → Loop → Loop
with_queue q l = with_shared (λ s. record s { cmd_q = q }) l

-- A command with a null parameter at the head of the queue is never sent: the part of the body that
-- sends the first command leaves the loop as it is. At any time later than two seconds after the
-- epoch the command has expired.
null_command_expires :
    (c : Setup) (now : TimeVal) (l : Loop) (fd : ℕ) (id : CmdId) (q : List Cmd)
    → 2 < now.tv_sec
    → let l0 = with_queue (new_cmd fd id none ∷ q) l in
      (send_part c now l0.shared.cmd_q l0 ≡ on l0) × (first_has_expired now l0.shared.cmd_q ≡ true)
unfolding send_part put_first send_command first_has_expired cmd_has_expired
null_command_expires c now l fd id q h = (refl, ground arith)

send_part-unsent :
    (c : Setup) (now : TimeVal) (l : Loop) (next : Cmd) (q : List Cmd) (param : Text) (b : ℕ)
    (bs : Text)
    → next.sent ≡ false
    → next.param ≡ some param
    → command_bytes next.cmd param ≡ some (b ∷ bs)
    → l.shared.world.writes ≡ []
    → send_part c now (next ∷ q) l
      ≡ on (
          with_shared
            (λ s. record s {
              cmd_q = cmd_sent now next ∷ q;
              world = record s.world { trace = s.world.trace ++ (wrote c.tty_fd (b ∷ bs) ∷ []) };
            })
            l)
unfolding send_part put_first
send_part-unsent c now l next q param b bs n p t w =
    ap (λ z. if z then on l else put_first q l (send_command now c.tty_fd next l.shared.world)) n
    ∙ ap (put_first q l) (send_command_whole now c.tty_fd next l.shared.world param b bs p t w)

-- A time-out while the first command has expired takes exactly that command off the queue; the next
-- command, where it is unsent and has a text, and the kernel takes every write whole, is written to
-- the serial line in the same run. No client is read, and the run falls through to the next.
pub timed_out_run :
    (c : Setup) (r : Round) (l : Loop) (first next : Cmd) (q : List Cmd) (param : Text) (b : ℕ)
    (bs : Text)
    → r.select ≡ timed_out
    → cmd_has_expired r.now first ≡ true
    → next.sent ≡ false
    → next.param ≡ some param
    → command_bytes next.cmd param ≡ some (b ∷ bs)
    → l.shared.world.writes ≡ []
    → let l0 = with_queue (first ∷ next ∷ q) l in
      let sent =
        with_shared
          (λ s. record s {
            cmd_q = cmd_sent r.now next ∷ q;
            world = record s.world {
              trace =
                  (s.world.trace ++ (logged error "last command expired" [] ∷ []))
                  ++ (wrote c.tty_fd (b ∷ bs) ∷ []);
            };
          })
          l0 in
      main_run c r l0 ≡ on (enable_part c sent)
unfolding main_run select_part first_has_expired cmd_pop log_event emit
timed_out_run c r l first next q param b bs s x n p t w =
    let l1 = with_queue (next ∷ q) (note error "last command expired" [] l) in
    rw (s, x, body_idle, send_part-unsent c r.now l1 next q param b bs n p t w) refl

-- main_loop leaves an empty queue and no client, and closes the descriptor of every client.
cleanup_lem :
    (l : Loop)
    → ((cleanup l).shared.cmd_q ≡ [])
      × ((cleanup l).shared.client_lst ≡ [])
      × ((cleanup l).shared.world.trace
          ≡ l.shared.world.trace ++ map (λ k. closed k.fd) l.shared.client_lst)
unfolding cleanup
cleanup_lem l =
    rw (client_clear_lem l.shared.client_lst l.shared.world) (cleared l.shared.cmd_q, refl, refl)
  where
    cleared : (q : List Cmd) → cmd_clear q ≡ []
    cleared [] = refl
    cleared (d ∷ q) = cleared q
