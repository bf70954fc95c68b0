-- ===== src/Daemon/Tty/Laws.antt =====
-- The buffer of the serial line, and the queue of commands under it.
use jk16legacy.Prelude.{
  ℕ, zero, suc, ◌+◌, ◌≡◌, refl, ◌∙◌, inl, inr, List, [], ◌∷◌, arith, leb, ◌==◌, Bool-cases, ℤ, pos,
  length, set, length-set,
}
use jk16legacy.Datatypes.{ReadBuffer, buf_size}
use jk16legacy.CommandQueue.{Cmd, cmd_pop}
use jk16legacy.Daemon.Commands.{Devices, Shared}
use jk16legacy.Daemon.Lines.{got, eof, bad_fd, again, read_error, drop_line}
use jk16legacy.Daemon.Lines.Laws.{IsInBounds}
use jk16legacy.Daemon.Tty.{TtyPoll, idle, poll_error, polled, strip_return, process_tty}

length-strip_return : (buf : List ℕ) (n : ℕ) → length (strip_return buf n) ≡ length buf
unfolding strip_return
length-strip_return buf zero = refl
length-strip_return buf (suc i) = ground (arith, length-set buf i 0)

-- Whatever the serial line delivers, process_tty leaves its buffer with room for the next byte. So,
-- from an empty buffer on, every byte that it stores stands inside the buffer's memory.
pub process_tty-IsInBounds :
    (opt : Devices) (tty_fd : ℕ) (polls : List TtyPoll) (b : ReadBuffer) (s : Shared)
    → IsInBounds b
    → IsInBounds (process_tty opt tty_fd polls b s).buffer
unfolding process_tty drop_line
process_tty-IsInBounds opt tty_fd [] b s v = v
process_tty-IsInBounds opt tty_fd (idle ∷ polls) b s v = v
process_tty-IsInBounds opt tty_fd (poll_error ∷ polls) b s v = v
process_tty-IsInBounds opt tty_fd (polled (got c) ∷ polls) b s v =
    let stripped =
      length-strip_return (set (set b.buf b.offset c) b.offset 0) b.offset
      ∙ length-set (set b.buf b.offset c) b.offset 0
      ∙ length-set b.buf b.offset c
      ∙ v.size in
    ground (
      arith,
      length-set b.buf b.offset c,
      stripped,
      process_tty-IsInBounds opt tty_fd polls
          (record { offset = b.offset + 1; buf = set b.buf b.offset c }) s,
    )
process_tty-IsInBounds opt tty_fd (polled eof ∷ polls) b s v = v
process_tty-IsInBounds opt tty_fd (polled again ∷ polls) b s v = v
process_tty-IsInBounds opt tty_fd (polled bad_fd ∷ polls) b s v = v
process_tty-IsInBounds opt tty_fd (polled read_error ∷ polls) b s v = v

-- How process_tty treats the queue.
pub data Consumed (q q' : List Cmd) (ret : ℤ) : Type 0 where
  waiting : q' ≡ q → Consumed q q' ret
  answered : ret ≡ pos 0 → q' ≡ cmd_pop q → Consumed q q' ret

-- Whatever the serial line delivers, process_tty leaves the clients as they are, and of the queue
-- takes the first command or nothing. It takes one only on a call that returns 0.
pub process_tty-Consumed :
    (opt : Devices) (tty_fd : ℕ) (polls : List TtyPoll) (b : ReadBuffer) (s : Shared)
    → let r = process_tty opt tty_fd polls b s in
      Consumed s.cmd_q r.shared.cmd_q r.ret × (r.shared.client_lst ≡ s.client_lst)
unfolding process_tty drop_line
process_tty-Consumed opt tty_fd [] b s = (waiting refl, refl)
process_tty-Consumed opt tty_fd (idle ∷ polls) b s = (waiting refl, refl)
process_tty-Consumed opt tty_fd (poll_error ∷ polls) b s = (waiting refl, refl)
process_tty-Consumed opt tty_fd (polled (got c) ∷ polls) b s = elim (Bool-cases (c == b'\n')) [
  | inl e ↦ rw e (answered refl refl, refl)
  | inr e ↦ elim (Bool-cases (leb buf_size (b.offset + 1))) [
    | inl f ↦ rw (e, f) (waiting refl, refl)
    | inr f ↦
        rw (e, f)
          (process_tty-Consumed opt tty_fd polls
            (record { offset = b.offset + 1; buf = set b.buf b.offset c }) s)
  ]
]
process_tty-Consumed opt tty_fd (polled eof ∷ polls) b s = (waiting refl, refl)
process_tty-Consumed opt tty_fd (polled again ∷ polls) b s = (waiting refl, refl)
process_tty-Consumed opt tty_fd (polled bad_fd ∷ polls) b s = (waiting refl, refl)
process_tty-Consumed opt tty_fd (polled read_error ∷ polls) b s = (waiting refl, refl)
