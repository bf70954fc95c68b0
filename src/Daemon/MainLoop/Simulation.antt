-- ===== src/Daemon/MainLoop/Simulation.antt =====
-- Every run of main_loop's body, and so the whole loop, follows the protocol of requests.
use jk16legacy.Prelude.{
  ℕ, ◌+◌, ◌≤◌, ◌<◌, ◌≡◌, refl, inl, inr, Bool, true, false, ◌&&◌, Option, none, some, List, [], ◌∷◌,
  arith, Bool-cases, ℤ, pos, is_zero, is_two,
}
use jk16legacy.World.{World}
use jk16legacy.Datatypes.{ReadBuffer}
use jk16legacy.CommandQueue.{TimeVal, Cmd}
use jk16legacy.ClientList.{Client, client_find}
use jk16legacy.Daemon.Send.{send_command}
use jk16legacy.Daemon.Send.Command.{SendOutcome, kept, begun, send_command-SendOutcome}
use jk16legacy.Daemon.Lines.{LineResult, nonblock_readline}
use jk16legacy.Daemon.Lines.Frame.{nonblock_readline-QueueChange}
use jk16legacy.Daemon.Tty.{process_tty}
use jk16legacy.Daemon.Tty.Laws.{Consumed, waiting, answered, process_tty-Consumed}
use jk16legacy.Daemon.MainLoop.{
  Round, Autosample, Setup, Loop, on, leave, signal_part, tty_part, add_connection,
  accept_connection, listen_part, autosample_line, autosample_ready, client_line, read_client,
  clients_walk,
}
use jk16legacy.Daemon.MainLoop.Body.{put_first, send_part}
use jk16legacy.Daemon.MainLoop.Invariant.{IsSerial, Ends, Ends-check, Ends-if, Ends-test}
use jk16legacy.Daemon.MainLoop.Refines.{
  Advances, Advances-refl, Advances-more, Advances-trans, Advances-then, Advances-change,
  Advances-pop, Advances-send,
}

-- What the body has done so far to the queue that it began with.
abbrev pub From : ℕ → List Cmd → Loop → Type 0
From n q l = Advances n q l.shared.cmd_q

module _ (c : Setup) (r : Round) (tmpfds : ℕ → Bool) (n : ℕ) (q : List Cmd) where
  pub signal_part-Advances :
      (l : Loop) → From n q l → Ends (From n q) (From n q) (signal_part c r tmpfds l)
  unfolding signal_part
  signal_part-Advances l h =
      Ends-if (From n q) (From n q) (tmpfds c.sig_fd && r.signalled) (leave (pos 1) l) (on l) h h

  -- A request leaves only where the serial line is ready.
  pub tty_part-Advances :
      (m : ℕ) (l : Loop)
      → n ≤ m
      → (tmpfds c.tty_fd ≡ true → n < m)
      → From n q l
      → Ends (From m q) (From m q) (tty_part c r tmpfds l)
  unfolding tty_part
  tty_part-Advances m l k free h =
      let t = process_tty c.opt c.tty_fd r.polls l.tty_buffer l.shared in
      Ends-test (From m q) (From m q) (tmpfds c.tty_fd) _ (on l)
        (λ e.
          let after =
            consumed (free e) t.shared.cmd_q t.ret
              (process_tty-Consumed c.opt c.tty_fd r.polls l.tty_buffer l.shared).0 in
          Ends-check (From m q) (From m q) t.ret _ after after)
        (λ e. Advances-more n m q l.shared.cmd_q k h)
    where
      consumed :
          n < m → (q' : List Cmd) (ret : ℤ) → Consumed l.shared.cmd_q q' ret → Advances m q q'
      consumed less q' ret (waiting e) = rw e (Advances-more n m q l.shared.cmd_q k h)
      consumed less q' ret (answered z e) = rw e (
          Advances-more (n + 1) m q _ (omega (arith, less))
            (Advances-trans n 1 q l.shared.cmd_q _ h (Advances-pop l.shared.cmd_q h.serial)))

  accept_connection-Advances :
      (a : Option ℕ) (l : Loop)
      → From n q l
      → Ends (From n q) (From n q) (accept_connection r.strerror a l)
  unfolding accept_connection add_connection
  accept_connection-Advances none l h = h
  accept_connection-Advances (some fd) l h = h

  pub listen_part-Advances :
      (l : Loop) → From n q l → Ends (From n q) (From n q) (listen_part c r tmpfds l)
  unfolding listen_part
  listen_part-Advances l h =
      Ends-if (From n q) (From n q) (tmpfds c.cmd_listen_fd) _ (on l)
        (accept_connection-Advances r.accepted l h) h

  -- A line of the clients or of the autosample process has been read.
  read-Advances :
      (fd : ℕ) (b : ReadBuffer) (l : Loop)
      → From n q l
      → Advances n q (nonblock_readline c.opt fd (r.reads fd) b l.shared).shared.cmd_q
  read-Advances fd b l h = Advances-then n q l.shared.cmd_q _ h (
      Advances-change fd l.shared.cmd_q _
        (nonblock_readline-QueueChange c.opt fd (r.reads fd) b l.shared) h.serial)

  autosample_line-Advances :
      (fd : ℕ) (t : LineResult) (l : Loop)
      → Advances n q t.shared.cmd_q
      → Ends (From n q) (From n q) (autosample_line fd t l)
  unfolding autosample_line
  autosample_line-Advances fd t l h =
      Ends-if (From n q) (From n q) (is_two t.ret) _ _ h
        (Ends-check (From n q) (From n q) t.ret _ h h)

  pub autosample_ready-Advances :
      (o : Option Autosample) (l : Loop)
      → From n q l
      → Ends (From n q) (From n q) (autosample_ready c r tmpfds o l)
  unfolding autosample_ready
  autosample_ready-Advances none l h = h
  autosample_ready-Advances (some a) l h =
      let read = read-Advances a.write_fd_ l.autosample_buffer l h in
      Ends-if (From n q) (From n q) (tmpfds a.write_fd_) _ (on l)
        (autosample_line-Advances a.write_fd_
          (nonblock_readline c.opt a.write_fd_ (r.reads a.write_fd_) l.autosample_buffer l.shared) l
          read)
        h

  client_line-Advances :
      (fd : ℕ) (t : LineResult) (l : Loop)
      → Advances n q t.shared.cmd_q
      → From n q (client_line fd t l)
  unfolding client_line
  client_line-Advances fd t l h = elim (Bool-cases (is_two t.ret)) [
    | inl e ↦ rw e h
    | inr e ↦ rw e h
  ]

  read_client-Advances :
      (fd : ℕ) (o : Option Client) (l : Loop) → From n q l → From n q (read_client c r fd o l).1
  unfolding read_client
  read_client-Advances fd none l h = h
  read_client-Advances fd (some k) l h =
      client_line-Advances fd (nonblock_readline c.opt fd (r.reads fd) k.buffer l.shared) l
        (read-Advances fd k.buffer l h)

  pub clients_walk-Advances :
      (fds : List ℕ) (l : Loop) → From n q l → From n q (clients_walk c r tmpfds fds l).1
  unfolding clients_walk
  clients_walk-Advances [] l h = h
  clients_walk-Advances (fd ∷ fds) l h =
      let (ret, l') = read_client c r fd (client_find l.shared.client_lst fd) l in
      let read = read_client-Advances fd (client_find l.shared.client_lst fd) l h in
      elim (Bool-cases (tmpfds fd)) [
        | inl e ↦ rw e (elim (Bool-cases (is_zero ret)) [
          | inl z ↦ rw z (clients_walk-Advances fds l' read)
          | inr z ↦ rw z read
        ])
        | inr e ↦ rw e (clients_walk-Advances fds l h)
      ]

put_first-Advances :
    (now : TimeVal) (tty_fd : ℕ) (cmd : Cmd) (q : List Cmd) (l : Loop) (w : World)
    (o : Option (ℤ × Cmd × World))
    → cmd.sent ≡ false
    → IsSerial (cmd ∷ q)
    → send_command now tty_fd cmd w ≡ o
    → Ends (From 0 (cmd ∷ q)) (From 0 (cmd ∷ q)) (put_first q l o)
unfolding put_first
put_first-Advances now tty_fd cmd q l w none n h e = tt
put_first-Advances now tty_fd cmd q l w (some (ret, cmd', w')) n h e =
    go (send_command-SendOutcome now tty_fd cmd w (ret, cmd', w') e)
  where
    go : SendOutcome now tty_fd cmd w (ret, cmd', w') → Advances 0 (cmd ∷ q) (cmd' ∷ q)
    go (kept same quiet) = rw same (Advances-refl (cmd ∷ q) h)
    go (begun param bs n' p t z same bytes) = rw same (Advances-send now cmd q n h)

pub send_part-Advances :
    (c : Setup) (now : TimeVal) (q : List Cmd) (l : Loop)
    → l.shared.cmd_q ≡ q
    → IsSerial q
    → Ends (From 0 q) (From 0 q) (send_part c now q l)
unfolding send_part
send_part-Advances c now [] l e h = rw e (Advances-refl [] h)
send_part-Advances c now (cmd ∷ q) l e h =
    Ends-test (From 0 (cmd ∷ q)) (From 0 (cmd ∷ q)) cmd.sent (on l) _
      (λ s. rw e (Advances-refl (cmd ∷ q) h))
      (λ s. put_first-Advances now c.tty_fd cmd q l l.shared.world _ s h refl)
