-- ===== src/Daemon/Lines/Frame.antt =====
-- What nonblock_readline leaves alone.
use jk16legacy.Prelude.{ℕ, ◌+◌, ◌≡◌, refl, inl, inr, List, [], ◌∷◌, map, leb, ◌==◌, Bool-cases, set}
use jk16legacy.Datatypes.{ReadBuffer, buf_size}
use jk16legacy.Daemon.Commands.{Devices, Shared}
use jk16legacy.Daemon.Commands.Laws.{
  QueueChange, unchanged, process_cmd-QueueChange, identity, process_cmd-identity,
}
use jk16legacy.Daemon.Lines.{ReadOutcome, got, eof, bad_fd, again, read_error, nonblock_readline}

-- Whatever read returns, nonblock_readline changes the queue as one command does: it leaves it, or
-- puts one unsent command at its end.
pub nonblock_readline-QueueChange :
    (opt : Devices) (fd : ℕ) (reads : List ReadOutcome) (b : ReadBuffer) (s : Shared)
    → QueueChange fd s.cmd_q (nonblock_readline opt fd reads b s).shared.cmd_q
unfolding nonblock_readline
nonblock_readline-QueueChange opt fd [] b s = unchanged refl
nonblock_readline-QueueChange opt fd (got c ∷ reads) b s = elim (Bool-cases (c == b'\n')) [
  | inl e ↦ rw e (process_cmd-QueueChange opt (set (set b.buf b.offset c) b.offset 0) fd s)
  | inr e ↦ elim (Bool-cases (leb buf_size (b.offset + 1))) [
    | inl f ↦ rw (e, f) (unchanged refl)
    | inr f ↦
        rw (e, f)
          (nonblock_readline-QueueChange opt fd reads
            (record { offset = b.offset + 1; buf = set b.buf b.offset c }) s)
  ]
]
nonblock_readline-QueueChange opt fd (eof ∷ reads) b s = unchanged refl
nonblock_readline-QueueChange opt fd (bad_fd ∷ reads) b s = unchanged refl
nonblock_readline-QueueChange opt fd (again ∷ reads) b s = unchanged refl
nonblock_readline-QueueChange opt fd (read_error ∷ reads) b s = unchanged refl

-- It changes no more of the clients than their listener flags.
pub nonblock_readline-identity :
    (opt : Devices) (fd : ℕ) (reads : List ReadOutcome) (b : ReadBuffer) (s : Shared)
    → map identity (nonblock_readline opt fd reads b s).shared.client_lst
      ≡ map identity s.client_lst
unfolding nonblock_readline
nonblock_readline-identity opt fd [] b s = refl
nonblock_readline-identity opt fd (got c ∷ reads) b s = elim (Bool-cases (c == b'\n')) [
  | inl e ↦ rw e (process_cmd-identity opt (set (set b.buf b.offset c) b.offset 0) fd s)
  | inr e ↦ elim (Bool-cases (leb buf_size (b.offset + 1))) [
    | inl f ↦ rw (e, f)
    | inr f ↦
        rw (e, f)
          (nonblock_readline-identity opt fd reads
            (record { offset = b.offset + 1; buf = set b.buf b.offset c }) s)
  ]
]
nonblock_readline-identity opt fd (eof ∷ reads) b s = refl
nonblock_readline-identity opt fd (bad_fd ∷ reads) b s = refl
nonblock_readline-identity opt fd (again ∷ reads) b s = refl
nonblock_readline-identity opt fd (read_error ∷ reads) b s = refl
