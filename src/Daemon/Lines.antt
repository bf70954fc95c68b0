-- ===== src/Daemon/Lines.antt =====
-- powersensordaemon.c: nonblock_readline.
pub mod Laws
pub mod Frame
use jk16legacy.Prelude.{ℕ, ◌+◌, List, [], ◌∷◌, leb, ◌==◌, if◌then◌else◌, ℤ, pos, negsuc, set}
use jk16legacy.World.{debug, num, log_event}
use jk16legacy.Datatypes.{ReadBuffer, buf_size}
use jk16legacy.Daemon.Commands.{Devices, Shared, in_world, process_cmd}
use Prim.Native.String.{String}

-- What a call of read for one byte returns: a byte; 0; or -1 with EBADF, with EAGAIN, or with
-- another error.
pub data ReadOutcome : Type 0 where
  got : ℕ → ReadOutcome
  eof bad_fd again read_error : ReadOutcome

pub record LineResult : Type 0 where
  pub ret : ℤ
  pub buffer : ReadBuffer
  pub shared : Shared

-- The end of a line: the byte in place of the line feed is zero.
finish_line : Devices → ℕ → List ℕ → ℕ → Shared → LineResult
finish_line opt fd buf offset s =
    let (ret, cmd, s') = process_cmd opt (set buf offset 0) fd s in
    record { ret = ret; buffer = record { offset = 0; buf = cmd }; shared = s' }

-- The buffer is full, and has no line feed.
unfoldable pub drop_line : ℕ → List ℕ → Shared → LineResult
unfolding log_event
drop_line fd buf s = record {
  ret = pos 0;
  buffer = record { offset = 0; buf = buf };
  shared = in_world (log_event debug "string too long (fd=%d)" (num fd ∷ [])) s;
}

-- The list holds what the coming calls of read return; at its end they return EAGAIN.
pub nonblock_readline : Devices → ℕ → List ReadOutcome → ReadBuffer → Shared → LineResult
unfolding finish_line drop_line
nonblock_readline opt fd [] b s = record { ret = pos 0; buffer = b; shared = s }
nonblock_readline opt fd (got c ∷ reads) b s =
    let buf = set b.buf b.offset c in
    let more = nonblock_readline opt fd reads (record { offset = b.offset + 1; buf = buf }) s in
    if c == b'\n'
    then finish_line opt fd buf b.offset s
    else if leb buf_size (b.offset + 1)
    then drop_line fd buf s
    else more
nonblock_readline opt fd (eof ∷ reads) b s = record { ret = pos 2; buffer = b; shared = s }
nonblock_readline opt fd (bad_fd ∷ reads) b s = record { ret = pos 2; buffer = b; shared = s }
nonblock_readline opt fd (again ∷ reads) b s = record { ret = pos 0; buffer = b; shared = s }
nonblock_readline opt fd (read_error ∷ reads) b s = record {
  ret = negsuc 0;
  buffer = b;
  shared = s;
}
