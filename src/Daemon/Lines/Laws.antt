-- ===== src/Daemon/Lines/Laws.antt =====
-- The line buffer is never overrun, and every line that fits is handed on whole.
use jk16legacy.Prelude.{
  ℕ, ◌+◌, ◌<◌, ◌≡◌, refl, sym, ap, ◌∙◌, ◌≢◌, true, false, Option, none, some, List, [], ◌∷◌, ◌++◌,
  map, append-nil, append_assoc, arith, leb, ◌==◌, le→leb, ℤ, pos, length, set, length-append,
  length-set, set-append, All, Text, c_str,
}
use jk16legacy.Datatypes.{ReadBuffer, buf_size}
use jk16legacy.CommandQueue.{CmdId, power_on, power_off, sample, listen}
use jk16legacy.Daemon.Commands.{
  Devices, Shared, in_world, identify, underscore, process_identified, note_start, process_cmd,
}
use jk16legacy.Daemon.Lines.{
  ReadOutcome, got, eof, bad_fd, again, read_error, LineResult, nonblock_readline,
}

-- The next byte goes inside the memory of the buffer.
pub record IsInBounds (b : ReadBuffer) : Type 0 where
  pub size : length b.buf ≡ buf_size
  pub next : b.offset < buf_size

length-underscore : (id : CmdId) (m : List ℕ) → length (underscore id m) ≡ length m
unfolding underscore
length-underscore power_on m = length-set m 5 b'_'
length-underscore power_off m = length-set m 5 b'_'
length-underscore sample m = refl
length-underscore CmdId.log m = refl
length-underscore listen m = refl

-- process_cmd writes inside the line that it is given.
length-process_cmd :
    (opt : Devices) (cmd : List ℕ) (fd : ℕ) (s : Shared)
    → length (process_cmd opt cmd fd s).1 ≡ length cmd
unfolding process_cmd
length-process_cmd opt cmd fd s = go (identify (c_str cmd))
  where
    go :
        (id : Option CmdId)
        → length (process_identified opt id cmd fd (in_world (note_start fd) s)).1 ≡ length cmd
    go none = refl
    go (some id) = length-underscore id cmd

-- Whatever read returns, nonblock_readline leaves the buffer with room for the next byte. So, from
-- an empty buffer on, every byte that it stores stands inside the buffer's memory.
pub nonblock_readline-IsInBounds :
    (opt : Devices) (fd : ℕ) (reads : List ReadOutcome) (b : ReadBuffer) (s : Shared)
    → IsInBounds b
    → IsInBounds (nonblock_readline opt fd reads b s).buffer
unfolding nonblock_readline
nonblock_readline-IsInBounds opt fd [] b s v = v
nonblock_readline-IsInBounds opt fd (got c ∷ reads) b s v = ground (
  arith,
  length-set b.buf b.offset c,
  length-set (set b.buf b.offset c) b.offset 0,
  length-process_cmd opt (set (set b.buf b.offset c) b.offset 0) fd s,
  nonblock_readline-IsInBounds opt fd reads
      (record { offset = b.offset + 1; buf = set b.buf b.offset c }) s,
)
nonblock_readline-IsInBounds opt fd (eof ∷ reads) b s v = v
nonblock_readline-IsInBounds opt fd (bad_fd ∷ reads) b s v = v
nonblock_readline-IsInBounds opt fd (again ∷ reads) b s v = v
nonblock_readline-IsInBounds opt fd (read_error ∷ reads) b s v = v

-- The buffer holds the bytes `p` of a line that is not complete.
pub record Holds (p : Text) (b : ReadBuffer) : Type 0 where
  pub tail : List ℕ
  pub memory : b.buf ≡ p ++ tail
  pub filled : b.offset ≡ length p
  pub size : length b.buf ≡ buf_size

-- The bytes can stand in a line.
abbrev pub IsLineText : Text → Type 0
IsLineText = All λ c. (c ≢ 0) × (c ≢ b'\n')

pub Holds-store :
    (p : Text) (b : ReadBuffer) (c : ℕ)
    → Holds p b
    → length p < buf_size
    → Holds (p ++ (c ∷ [])) (record { offset = b.offset + 1; buf = set b.buf b.offset c })
Holds-store p b c h room = go h.tail h.memory
  where
    go :
        (t : List ℕ)
        → b.buf ≡ p ++ t
        → Holds (p ++ (c ∷ [])) (record { offset = b.offset + 1; buf = set b.buf b.offset c })
    go [] e = absurd (omega (arith, ap length e, length-append p [], h.size))
    go (x ∷ t) e = record {
      tail = t;
      memory = rw (e, h.filled, set-append) (sym (append_assoc p (c ∷ []) t));
      filled = omega (arith, h.filled, length-append p (c ∷ []));
      size = length-set b.buf b.offset c ∙ h.size;
    }

pub middle : (c : ℕ) → c ≢ b'\n' → (c == b'\n') ≡ false
middle c h = ground arith

-- Bytes that do not end a line, and leave room in the buffer, are kept for the next call.
nonblock_readline-part :
    (opt : Devices) (fd : ℕ) (p t : Text) (reads : List ReadOutcome) (b : ReadBuffer) (s : Shared)
    → Holds p b
    → IsLineText t
    → length p + length t < buf_size
    → (b' : ReadBuffer) × Holds (p ++ t) b'
      × (nonblock_readline opt fd (map got t ++ reads) b s ≡ nonblock_readline opt fd reads b' s)
unfolding nonblock_readline
nonblock_readline-part opt fd p [] reads b s h l n = (b, rw append-nil h, refl)
nonblock_readline-part opt fd p (c ∷ t) reads b s h l n =
    let roomy : leb buf_size (b.offset + 1) ≡ false = ground (arith, h.filled) in
    let b1 : ReadBuffer = record { offset = b.offset + 1; buf = set b.buf b.offset c } in
    let (b', h', e) =
      nonblock_readline-part opt fd (p ++ (c ∷ [])) t reads b1 s (Holds-store p b c h (omega arith))
        l.1 (omega (arith, length-append p (c ∷ []))) in
    (b', rw (append_assoc p (c ∷ []) t) at h', rw (middle c (l.0.1), roomy) e)

abbrev pub line_result : ℤ × List ℕ × Shared → LineResult
line_result r = record { ret = r.0; buffer = record { offset = 0; buf = r.1 }; shared = r.2 }

-- A line that does not fit is dropped at its hundredth byte: the call returns 0, has changed
-- neither the queue nor the clients, and starts an empty buffer. The rest of that line is the
-- beginning of the next one.
nonblock_readline-overlong :
    (opt : Devices) (fd : ℕ) (p t : Text) (c : ℕ) (reads : List ReadOutcome) (b : ReadBuffer)
    (s : Shared)
    → Holds p b
    → IsLineText t
    → c ≢ b'\n'
    → length p + length t + 1 ≡ buf_size
    → let r = nonblock_readline opt fd (map got t ++ (got c ∷ reads)) b s in
      (r.ret ≡ pos 0)
      × Holds [] r.buffer
      × (r.shared.cmd_q ≡ s.cmd_q)
      × (r.shared.client_lst ≡ s.client_lst)
unfolding nonblock_readline
nonblock_readline-overlong opt fd p t c reads b s h l ne n =
    let (b', h', e) = nonblock_readline-part opt fd p t (got c ∷ reads) b s h l (omega arith) in
    let full : leb buf_size (b'.offset + 1) ≡ true =
      le→leb _ _ (omega (arith, h'.filled, length-append p t)) in
    rw (e, middle c ne, full)
      (
        refl,
        record {
          tail = set b'.buf b'.offset c;
          memory = refl;
          filled = refl;
          size = length-set b'.buf b'.offset c ∙ h'.size;
        },
        refl,
        refl,
      )
