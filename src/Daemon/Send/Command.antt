-- ===== src/Daemon/Send/Command.antt =====
-- send_command: what it writes to the firmware, when it marks the command as sent, and when it
-- returns at all.
use jk16legacy.Prelude.{
  ℕ, zero, suc, ◌≡◌, refl, sym, ap, ◌≢◌, true, Option, none, some, List, [], ◌∷◌, ◌++◌, arith, ℤ,
  pos, eq_of_some, length, take, take-all, Text,
}
use jk16legacy.World.{wrote, WriteOutcome, taken, interrupted, failed, World}
use jk16legacy.CommandQueue.{CmdId, power_on, power_off, sample, listen, TimeVal, Cmd, cmd_sent}
use jk16legacy.Daemon.Send.{
  write_loop, write_nothing, is_sendable, command_bytes, mark_sent, write_command, send_param,
  send_command,
}
use jk16legacy.Daemon.Send.Response.{HasNoFailure}
use mathlib.Core.Path.{subst}

write_nothing-none : (ws : List WriteOutcome) → HasNoFailure ws → write_nothing ws ≡ none
unfolding write_nothing
write_nothing-none [] h = refl
write_nothing-none (taken n ∷ ws) h = write_nothing-none ws h
write_nothing-none (interrupted ∷ ws) h = write_nothing-none ws h
write_nothing-none (failed ∷ ws) h = absurd h

-- A sendable command with an empty parameter: unless a write fails, send_command never returns.
pub send_command_hangs :
    (now : TimeVal) (tty_fd : ℕ) (cmd : Cmd) (w : World)
    → cmd.param ≡ some []
    → is_sendable cmd.cmd ≡ true
    → HasNoFailure w.writes
    → send_command now tty_fd cmd w ≡ none
unfolding send_command
send_command_hangs now tty_fd cmd w e s h = go cmd.param e
  where
    hangs :
        (id : CmdId)
        → is_sendable id ≡ true
        → write_command now tty_fd cmd (command_bytes id []) w ≡ none
    hangs power_on h' = rw (write_nothing-none w.writes h, write_command)
    hangs power_off h' = rw (write_nothing-none w.writes h, write_command)
    hangs sample h' = rw (write_nothing-none w.writes h, write_command)
    hangs CmdId.log h' = cc
    hangs listen h' = cc

    go : (p : Option Text) → p ≡ some [] → send_param now tty_fd cmd p w ≡ none
    go none k = cc
    go (some []) k = hangs cmd.cmd s
    go (some (b ∷ bs)) k = cc

-- How a call of send_command that returns `r` has treated its command.
pub data SendOutcome (now : TimeVal) (tty_fd : ℕ) (cmd : Cmd) (w : World) (r : ℤ × Cmd × World)
    : Type 0 where
  -- nothing is written and the command stays as it is
  kept : r.1 ≡ cmd → r.2.trace ≡ w.trace → SendOutcome now tty_fd cmd w r
  -- some first bytes of the command's text are written, and the command is marked as sent
  begun :
      (param : Text) (bs : List ℕ) (n : ℕ)
      → cmd.param ≡ some param
      → command_bytes cmd.cmd param ≡ some bs
      → r.0 ≡ pos 0
      → r.1 ≡ cmd_sent now cmd
      → r.2.trace ≡ w.trace ++ (wrote tty_fd (take (suc n) bs) ∷ [])
      → SendOutcome now tty_fd cmd w r

mark_sent-SendOutcome :
    (now : TimeVal) (tty_fd : ℕ) (cmd : Cmd) (w : World) (param : Text) (b : ℕ) (bs : List ℕ)
    (ws : List WriteOutcome)
    → cmd.param ≡ some param
    → command_bytes cmd.cmd param ≡ some (b ∷ bs)
    → SendOutcome now tty_fd cmd w (mark_sent now cmd (write_loop ws tty_fd b bs w.trace) w)
unfolding mark_sent write_loop
mark_sent-SendOutcome now tty_fd cmd w param b bs [] p e =
    begun param (b ∷ bs) (length bs) p e refl refl (
      ap (λ r. w.trace ++ (wrote tty_fd (b ∷ r) ∷ []))
        (sym (take-all (length bs) bs (omega arith))))
mark_sent-SendOutcome now tty_fd cmd w param b bs (taken zero ∷ ws) p e =
    mark_sent-SendOutcome now tty_fd cmd w param b bs ws p e
mark_sent-SendOutcome now tty_fd cmd w param b bs (taken (suc n) ∷ ws) p e =
    begun param (b ∷ bs) n p e refl refl refl
mark_sent-SendOutcome now tty_fd cmd w param b bs (interrupted ∷ ws) p e =
    mark_sent-SendOutcome now tty_fd cmd w param b bs ws p e
mark_sent-SendOutcome now tty_fd cmd w param b bs (failed ∷ ws) p e = kept refl refl

write_command-SendOutcome :
    (now : TimeVal) (tty_fd : ℕ) (cmd : Cmd) (w : World) (param : Text) (bs : Option (List ℕ))
    (r : ℤ × Cmd × World)
    → cmd.param ≡ some param
    → command_bytes cmd.cmd param ≡ bs
    → write_command now tty_fd cmd bs w ≡ some r
    → SendOutcome now tty_fd cmd w r
unfolding write_command
write_command-SendOutcome now tty_fd cmd w param none r p e h = kept (ground arith) (ground arith)
write_command-SendOutcome now tty_fd cmd w param (some []) r p e h =
    kept (ground arith) (ground arith)
write_command-SendOutcome now tty_fd cmd w param (some (b ∷ bs)) r p e h =
    subst (SendOutcome now tty_fd cmd w) (eq_of_some h)
      (mark_sent-SendOutcome now tty_fd cmd w param b bs w.writes p e)

pub send_command-SendOutcome :
    (now : TimeVal) (tty_fd : ℕ) (cmd : Cmd) (w : World) (r : ℤ × Cmd × World)
    → send_command now tty_fd cmd w ≡ some r
    → SendOutcome now tty_fd cmd w r
unfolding send_command
send_command-SendOutcome now tty_fd cmd w r h = go cmd.param refl h
  where
    go :
        (p : Option Text)
        → cmd.param ≡ p
        → send_param now tty_fd cmd p w ≡ some r
        → SendOutcome now tty_fd cmd w r
    go none e k = kept (ground arith) (ground arith)
    go (some param) e k = write_command-SendOutcome now tty_fd cmd w param _ r e refl k

write_command_returns :
    (now : TimeVal) (tty_fd : ℕ) (cmd : Cmd) (w : World) (id : CmdId) (b : ℕ) (bs : Text)
    → (r : ℤ × Cmd × World) × (write_command now tty_fd cmd (command_bytes id (b ∷ bs)) w ≡ some r)
unfolding write_command command_bytes
write_command_returns now tty_fd cmd w power_on b bs = (_, refl)
write_command_returns now tty_fd cmd w power_off b bs = (_, refl)
write_command_returns now tty_fd cmd w sample b bs = (_, refl)
write_command_returns now tty_fd cmd w CmdId.log b bs = (_, refl)
write_command_returns now tty_fd cmd w listen b bs = (_, refl)

pub send_command_returns :
    (now : TimeVal) (tty_fd : ℕ) (cmd : Cmd) (w : World)
    → cmd.param ≢ some []
    → (r : ℤ × Cmd × World) × (send_command now tty_fd cmd w ≡ some r)
unfolding send_command
send_command_returns now tty_fd cmd w ne = go cmd.param ne
  where
    go :
        (p : Option Text)
        → p ≢ some []
        → (r : ℤ × Cmd × World) × (send_param now tty_fd cmd p w ≡ some r)
    go none h = (_, refl)
    go (some []) h = absurd (h refl)
    go (some (b ∷ bs)) h = write_command_returns now tty_fd cmd w cmd.cmd b bs

-- Where the kernel takes every write whole, the text of a command, if it has at least one byte, is
-- written whole and the command is marked as sent.
pub send_command_whole :
    (now : TimeVal) (tty_fd : ℕ) (cmd : Cmd) (w : World) (param : Text) (b : ℕ) (bs : Text)
    → cmd.param ≡ some param
    → command_bytes cmd.cmd param ≡ some (b ∷ bs)
    → w.writes ≡ []
    → send_command now tty_fd cmd w
      ≡ some (pos 0, cmd_sent now cmd, record w { trace = w.trace ++ (wrote tty_fd (b ∷ bs) ∷ []) })
unfolding send_command write_command write_loop mark_sent
send_command_whole now tty_fd cmd w param b bs p e h = ground arith
