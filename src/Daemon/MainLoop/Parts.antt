-- ===== src/Daemon/MainLoop/Parts.antt =====
-- Every part of the body of main_loop keeps the invariant.
use jk16legacy.Prelude.{ℕ, ap, Bool, ◌&&◌, Option, none, some, List, map, ℤ, pos}
use jk16legacy.Datatypes.{ReadBuffer}
use jk16legacy.CommandQueue.{Cmd}
use jk16legacy.Daemon.Commands.Laws.{identity}
use jk16legacy.Daemon.Lines.{ReadOutcome, nonblock_readline}
use jk16legacy.Daemon.Lines.Frame.{nonblock_readline-QueueChange, nonblock_readline-identity}
use jk16legacy.Daemon.Tty.{process_tty}
use jk16legacy.Daemon.Tty.Laws.{
  process_tty-IsInBounds, Consumed, waiting, answered, process_tty-Consumed,
}
use jk16legacy.Daemon.MainLoop.{
  Round, Setup, Loop, on, leave, signal_part, tty_part, accept_connection, listen_part,
}
use jk16legacy.Daemon.MainLoop.Invariant.{
  IsSerial, IsSound, Ends, Ends-check, Ends-if, AcceptsNew, IsSerial-change, IsSerial-pop,
  IsSoundFor, AcceptsNew-same, add_connection-IsSound,
}

-- A line of the clients or of the autosample process has been read.
pub after_line-IsSound :
    (c : Setup) (fd : ℕ) (reads : List ReadOutcome) (b : ReadBuffer) (l : Loop)
    → IsSound c l
    → IsSound c (record l { shared = (nonblock_readline c.opt fd reads b l.shared).shared })
after_line-IsSound c fd reads b l v = record {
  serial =
      IsSerial-change fd l.shared.cmd_q _ (nonblock_readline-QueueChange c.opt fd reads b l.shared)
        v.serial;
  distinct = rw (nonblock_readline-identity c.opt fd reads b l.shared) v.distinct;
  served = rw (nonblock_readline-identity c.opt fd reads b l.shared) v.served;
  tty_in_bounds = v.tty_in_bounds;
  autosample_in_bounds = v.autosample_in_bounds;
}

module _ (c : Setup) (r : Round) (tmpfds : ℕ → Bool) where
  pub signal_part-IsSound :
      (l : Loop) → IsSoundFor c r l → Ends (IsSoundFor c r) (IsSound c) (signal_part c r tmpfds l)
  unfolding signal_part
  signal_part-IsSound l v =
      Ends-if (IsSoundFor c r) (IsSound c) (tmpfds c.sig_fd && r.signalled) (leave (pos 1) l) (on l)
        v.sound v

  pub tty_part-IsSound :
      (l : Loop) → IsSoundFor c r l → Ends (IsSoundFor c r) (IsSound c) (tty_part c r tmpfds l)
  unfolding tty_part
  tty_part-IsSound l v =
      let t = process_tty c.opt c.tty_fd r.polls l.tty_buffer l.shared in
      let (consumed, same) = process_tty-Consumed c.opt c.tty_fd r.polls l.tty_buffer l.shared in
      let sound : IsSound c (record l { tty_buffer = t.buffer; shared = t.shared }) = record {
        serial = serial t.shared.cmd_q t.ret consumed;
        distinct = rw same v.sound.distinct;
        served = rw same v.sound.served;
        tty_in_bounds =
            process_tty-IsInBounds c.opt c.tty_fd r.polls l.tty_buffer l.shared
              v.sound.tty_in_bounds;
        autosample_in_bounds = v.sound.autosample_in_bounds;
      } in
      Ends-if (IsSoundFor c r) (IsSound c) (tmpfds c.tty_fd) _ (on l)
        (Ends-check (IsSoundFor c r) (IsSound c) t.ret _
          (record {
            sound = sound;
            accepts = AcceptsNew-same c r.accepted l _ (ap (map identity) same) v.accepts;
          })
          sound)
        v
    where
      serial : (q : List Cmd) (ret : ℤ) → Consumed l.shared.cmd_q q ret → IsSerial q
      serial q ret (waiting e) = rw e v.sound.serial
      serial q ret (answered z e) = rw e (IsSerial-pop l.shared.cmd_q v.sound.serial)

  accept_connection-IsSound :
      (a : Option ℕ) (l : Loop)
      → IsSound c l
      → AcceptsNew c a l
      → Ends (IsSound c) (IsSound c) (accept_connection r.strerror a l)
  unfolding accept_connection
  accept_connection-IsSound none l v n = record {
    serial = v.serial;
    distinct = v.distinct;
    served = v.served;
    tty_in_bounds = v.tty_in_bounds;
    autosample_in_bounds = v.autosample_in_bounds;
  }
  accept_connection-IsSound (some fd) l v n = add_connection-IsSound c fd l v n.0 n.1

  pub listen_part-IsSound :
      (l : Loop) → IsSoundFor c r l → Ends (IsSound c) (IsSound c) (listen_part c r tmpfds l)
  unfolding listen_part
  listen_part-IsSound l v =
      Ends-if (IsSound c) (IsSound c) (tmpfds c.cmd_listen_fd) _ (on l)
        (accept_connection-IsSound r.accepted l v.sound v.accepts) v.sound
