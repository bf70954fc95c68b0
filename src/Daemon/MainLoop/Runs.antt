-- ===== src/Daemon/MainLoop/Runs.antt =====
-- The invariant after any run of the body, and after any number of them.
use jk16legacy.Prelude.{
  ℕ, ◌≡◌, refl, ◌⊎◌, inl, inr, Bool, false, ◌&&◌, ◌||◌, not, Option, none, some, List, [], ◌∷◌, map,
  ltb, leb, ◌==◌, if◌then◌else◌, Bool-cases, ℤ,
}
use jk16legacy.World.{error, notice, World, log_event}
use jk16legacy.Datatypes.{empty_buffer}
use jk16legacy.CommandQueue.{TimeVal, Cmd, cmd_pop}
use jk16legacy.Daemon.Send.{send_command}
use jk16legacy.Daemon.Commands.{in_world}
use jk16legacy.Daemon.MainLoop.{
  SelectOutcome, ready, timed_out, select_interrupted, select_failed, Round, Autosample, Setup,
  Loop, on, next_run, fd_isset, with_shared, note, clients_walk,
}
use jk16legacy.Daemon.MainLoop.Body.{
  put_first, send_part, count_sensor_listeners, write_switch, enable_for, enable_part, clients_part,
  body, first_has_expired, select_part, main_run, add_fd, watch_autosample, init_loop,
}
use jk16legacy.Daemon.MainLoop.Invariant.{
  IsSerial, IsSound, Ends, Ends-bind, Ends-check, Ends-if, AcceptsNew, IsSerial-pop, IsSoundFor,
  AcceptsNew-same, empty-IsInBounds,
}
use jk16legacy.Daemon.MainLoop.Parts.{signal_part-IsSound, tty_part-IsSound, listen_part-IsSound}
use jk16legacy.Daemon.MainLoop.Walk.{autosample_part-IsSound, clients_walk-IsSound}

send_part-IsSound :
    (c : Setup) (now : TimeVal) (q : List Cmd) (l : Loop)
    → l.shared.cmd_q ≡ q
    → IsSound c l
    → Ends (IsSound c) (IsSound c) (send_part c now q l)
unfolding send_part
send_part-IsSound c now [] l e v = v
send_part-IsSound c now (cmd ∷ q) l e v =
    Ends-if (IsSound c) (IsSound c) cmd.sent (on l) _ v
      (go (send_command now c.tty_fd cmd l.shared.world))
  where
    serial : IsSerial (cmd ∷ q)
    serial = rw e at v.serial

    go : (o : Option (ℤ × Cmd × World)) → Ends (IsSound c) (IsSound c) (put_first q l o)
    go none = tt
    go (some (ret, cmd', w)) = record {
      serial = serial;
      distinct = v.distinct;
      served = v.served;
      tty_in_bounds = v.tty_in_bounds;
      autosample_in_bounds = v.autosample_in_bounds;
    }

IsSound-in_world :
    (c : Setup) (f : World → World) (b : Bool) (l : Loop)
    → IsSound c l
    → IsSound c (with_shared (in_world f) (record l { autosample_enabled = b }))
IsSound-in_world c f b l v = record {
  serial = v.serial;
  distinct = v.distinct;
  served = v.served;
  tty_in_bounds = v.tty_in_bounds;
  autosample_in_bounds = v.autosample_in_bounds;
}

enable_for-IsSound :
    (c : Setup) (o : Option Autosample) (l : Loop) → IsSound c l → IsSound c (enable_for o l)
unfolding enable_for
enable_for-IsSound c none l v = v
enable_for-IsSound c (some a) l v =
    let cnt = count_sensor_listeners l.shared.client_lst 0 in
    elim (Bool-cases
      ((not l.autosample_enabled && ltb 0 cnt) || (l.autosample_enabled && cnt == 0))) [
        | inl e ↦ rw e (
            IsSound-in_world c (write_switch a.read_fd_ (not l.autosample_enabled))
              (not l.autosample_enabled) l v)
        | inr e ↦ rw e v
      ]

module _ (c : Setup) (r : Round) (tmpfds : ℕ → Bool) where
  clients_part-IsSound :
      (l : Loop) → IsSound c l → Ends (IsSound c) (IsSound c) (clients_part c r tmpfds l)
  unfolding clients_part enable_part
  clients_part-IsSound l v =
      let fds = map (λ k. k.fd) l.shared.client_lst in
      let (ret, l1) = clients_walk c r tmpfds fds l in
      let walked = clients_walk-IsSound c r tmpfds fds l v in
      Ends-bind (IsSound c) (IsSound c) (IsSound c) (send_part c r.now l1.shared.cmd_q l1) _
        (send_part-IsSound c r.now l1.shared.cmd_q l1 refl walked)
        (λ l2 s.
          Ends-check (IsSound c) (IsSound c) ret _ (enable_for-IsSound c c.autosample l2 s)
            (enable_for-IsSound c c.autosample l2 s))

  body-IsSound : (l : Loop) → IsSoundFor c r l → Ends (IsSound c) (IsSound c) (body c r tmpfds l)
  unfolding body
  body-IsSound l v =
      Ends-bind (IsSound c) (IsSound c) (IsSound c) _ _
        (Ends-bind (IsSound c) (IsSound c) (IsSound c) _ _
          (Ends-bind (IsSoundFor c r) (IsSound c) (IsSound c) _ _
            (Ends-bind (IsSoundFor c r) (IsSoundFor c r) (IsSound c) _ _
              (signal_part-IsSound c r tmpfds l v) (tty_part-IsSound c r tmpfds))
            (listen_part-IsSound c r tmpfds))
          (autosample_part-IsSound c r tmpfds))
        clients_part-IsSound

expire_first :
    (c : Setup) (r : Round) (l : Loop)
    → IsSoundFor c r l
    → IsSoundFor c r (
        with_shared
          (λ s. record s { cmd_q = cmd_pop s.cmd_q })
          (note error "last command expired" [] l))
expire_first c r l v = record {
  sound = record {
    serial = IsSerial-pop l.shared.cmd_q v.sound.serial;
    distinct = v.sound.distinct;
    served = v.sound.served;
    tty_in_bounds = v.sound.tty_in_bounds;
    autosample_in_bounds = v.sound.autosample_in_bounds;
  };
  accepts = AcceptsNew-same c r.accepted l _ refl v.accepts;
}

select_part-IsSound :
    (c : Setup) (r : Round) (o : SelectOutcome) (l : Loop)
    → IsSoundFor c r l
    → Ends (IsSound c) (IsSound c) (select_part c r o l)
unfolding select_part
select_part-IsSound c r ready l v =
    body-IsSound c r (λ fd. r.is_ready fd && (fd_isset fd l.readfds && leb fd l.max_fd)) l v
select_part-IsSound c r timed_out l v =
    Ends-if (IsSound c) (IsSound c) (first_has_expired r.now l.shared.cmd_q) _ (next_run l)
      (body-IsSound c r (λ _. false) _ (expire_first c r l v)) v.sound
select_part-IsSound c r select_interrupted l v = v.sound
select_part-IsSound c r select_failed l v = record {
  serial = v.sound.serial;
  distinct = v.sound.distinct;
  served = v.sound.served;
  tty_in_bounds = v.sound.tty_in_bounds;
  autosample_in_bounds = v.sound.autosample_in_bounds;
}

-- Whatever select, accept, read, write and malloc do in a run of main_loop's body, the run keeps
-- the invariant, provided that accept returns a descriptor that no client has and that is not the
-- pipe of the autosample process.
main_run-IsSound :
    (c : Setup) (r : Round) (l : Loop)
    → IsSound c l
    → AcceptsNew c r.accepted l
    → Ends (IsSound c) (IsSound c) (main_run c r l)
unfolding main_run
main_run-IsSound c r l v n = select_part-IsSound c r r.select l (record { sound = v; accepts = n })

-- The states in which main_loop is before a run, where accept returns new descriptors.
pub data Reaches (c : Setup) (w : World) : Loop → Type 0 where
  start : Reaches c w (init_loop c w)
  step :
      {l : Loop} (l' : Loop) (r : Round)
      → Reaches c w l
      → AcceptsNew c r.accepted l
      → (main_run c r l ≡ on l') ⊎ (main_run c r l ≡ next_run l')
      → Reaches c w l'

init_loop-IsSound : (c : Setup) (w : World) → IsSound c (init_loop c w)
unfolding init_loop
init_loop-IsSound c w = go (log_event notice "entering main loop" [] w) c.autosample
  where
    go :
        (w : World) (o : Option Autosample)
        → IsSound c (
            add_fd c.sig_fd (
              watch_autosample o (record {
                shared = record { cmd_q = []; client_lst = []; world = w };
                readfds = c.cmd_listen_fd ∷ c.tty_fd ∷ [];
                max_fd = if ltb c.cmd_listen_fd c.tty_fd then c.tty_fd else c.cmd_listen_fd;
                tty_buffer = empty_buffer;
                autosample_buffer = empty_buffer;
                autosample_enabled = false;
              })))
    go w none = record {
      serial = tt;
      distinct = tt;
      served = tt;
      tty_in_bounds = empty-IsInBounds;
      autosample_in_bounds = empty-IsInBounds;
    }
    go w (some a) = record {
      serial = tt;
      distinct = tt;
      served = tt;
      tty_in_bounds = empty-IsInBounds;
      autosample_in_bounds = empty-IsInBounds;
    }

-- Before every run of main_loop's body, where accept has returned descriptors that no client had and
-- that were not the pipe of the autosample process: at most the first command of the queue has been sent, the
-- clients have different descriptors, select watches every client, and every line buffer has room
-- for the next byte.
pub Reaches-IsSound : {c : Setup} {w : World} {l : Loop} → Reaches c w l → IsSound c l
Reaches-IsSound {c} {w} start = init_loop-IsSound c w
Reaches-IsSound {c} (step {l = l} l' r h n (inl e)) =
    let k : Ends (IsSound c) (IsSound c) (on l') =
      rw e at (main_run-IsSound c r l (Reaches-IsSound h) n) in
    k
Reaches-IsSound {c} (step {l = l} l' r h n (inr e)) =
    let k : Ends (IsSound c) (IsSound c) (next_run l') =
      rw e at (main_run-IsSound c r l (Reaches-IsSound h) n) in
    k
