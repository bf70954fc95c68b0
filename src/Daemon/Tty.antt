-- ===== src/Daemon/Tty.antt =====
-- powersensordaemon.c: process_tty. The two calls of asprintf that build a translated line are
-- taken to succeed: on failure the code would read a pointer that asprintf leaves undefined.
pub mod Laws
pub mod Kinds
pub mod Delivery
pub mod Line
use jk16legacy.Prelude.{
  ℕ, zero, suc, ◌+◌, Bool, Option, none, some, List, [], ◌∷◌, ◌++◌, leb, ◌==◌, if◌then◌else◌, pos,
  negsuc, get_or, set, drop, Text, codes, c_str, strncmp_eq,
}
use jk16legacy.World.{error, warning, notice, str, World, log_event}
use jk16legacy.Datatypes.{ReadBuffer, buf_size}
use jk16legacy.CommandQueue.{sample, Cmd, cmd_pop}
use jk16legacy.ClientList.{Client}
use jk16legacy.KeyValue.{key_value_storage_find_first_stringvalue}
use jk16legacy.Daemon.Send.{send_response, send_to_listeners}
use jk16legacy.Daemon.Commands.{Devices, Shared}
use jk16legacy.Daemon.Lines.{
  ReadOutcome, got, eof, bad_fd, again, read_error, LineResult, drop_line,
}
use Prim.Native.String.{String}

-- One round of the loop: select finds nothing, or fails, or read returns.
pub data TtyPoll : Type 0 where
  idle poll_error : TtyPoll
  polled : ReadOutcome → TtyPoll

-- The line without the carriage return before its end.
pub strip_return : List ℕ → ℕ → List ℕ
strip_return buf zero = buf
strip_return buf (suc i) = if get_or buf i 0 == b'\r' then set buf i 0 else buf

-- The response to a line of the firmware: a sensor line gets the name of its device.
pub translate_key : Devices → Text → Text → World → Text × World
unfolding log_event
translate_key opt line [] w = (line, w)
translate_key opt line (k ∷ rest) w =
    elim (key_value_storage_find_first_stringvalue opt.sampledevs_ (some (k ∷ []))) [
      | some name ↦ (name ++ rest, w)
      | none ↦ (
        line,
        log_event warning "unknown sample device key '%s' encountered" (str (k ∷ []) ∷ []) w,
      )
    ]

pub translate : Devices → Text → World → Text × World
unfolding translate_key
translate opt line w =
    if strncmp_eq line (codes "Sensor ") 7
    then translate_key opt line (drop 7 line) w
    else (line, w)

-- The response goes to the client of the first command.
pub answer_first : List Cmd → Text → World → Option ℕ × World
answer_first [] response w = (none, w)
answer_first (c ∷ q) response w = (some c.fd, (send_response c.fd response w).1)

notify_if : Bool → (Client → Bool) → String → Option ℕ → Text → List Client → World → World
notify_if test is_listener name cmd_fd response clients w =
    if test then send_to_listeners is_listener name cmd_fd response clients w else w

-- The four tests of the line, each with its listeners.
pub notify_listeners : Text → Option ℕ → Text → List Client → World → World
unfolding notify_if
notify_listeners line cmd_fd response clients w =
    let w1 =
      notify_if (strncmp_eq line (codes "Error:") 6) (λ c. c.error_listener) "error" cmd_fd response
        clients w in
    let w2 =
      notify_if (strncmp_eq line (codes "movement") 8) (λ c. c.movement_listener) "movement" cmd_fd
        response clients w1 in
    let w3 =
      notify_if (strncmp_eq line (codes "PanicButton") 11) (λ c. c.button_listener) "panic button"
        cmd_fd response clients w2 in
    notify_if (strncmp_eq line (codes "Sensor ") 7) (λ c. c.sensor_listener) "sensor data" cmd_fd
      response clients w3

-- What a whole line of the firmware does.
pub firmware_line : Devices → Text → Shared → Shared
unfolding log_event translate answer_first notify_listeners cmd_pop
firmware_line opt line s =
    let w0 = log_event notice "firmware: %s" (str line ∷ []) s.world in
    let (response, w1) = translate opt line w0 in
    let (cmd_fd, w2) = answer_first s.cmd_q response w1 in
    record s {
      cmd_q = cmd_pop s.cmd_q;
      world = notify_listeners line cmd_fd response s.client_lst w2;
    }

finish_tty_line : Devices → List ℕ → ℕ → Shared → LineResult
unfolding strip_return firmware_line
finish_tty_line opt buf offset s =
    let line = strip_return (set buf offset 0) offset in
    record {
      ret = pos 0;
      buffer = record { offset = 0; buf = line };
      shared = firmware_line opt (c_str line) s;
    }

-- The list holds the coming rounds of the loop; at its end select finds nothing.
pub process_tty : Devices → ℕ → List TtyPoll → ReadBuffer → Shared → LineResult
unfolding finish_tty_line
process_tty opt tty_fd [] b s = record { ret = pos 0; buffer = b; shared = s }
process_tty opt tty_fd (idle ∷ polls) b s = record { ret = pos 0; buffer = b; shared = s }
process_tty opt tty_fd (poll_error ∷ polls) b s = record { ret = negsuc 0; buffer = b; shared = s }
process_tty opt tty_fd (polled (got c) ∷ polls) b s =
    let buf = set b.buf b.offset c in
    let more = process_tty opt tty_fd polls (record { offset = b.offset + 1; buf = buf }) s in
    if c == b'\n'
    then finish_tty_line opt buf b.offset s
    else if leb buf_size (b.offset + 1)
    then drop_line tty_fd buf s
    else more
process_tty opt tty_fd (polled eof ∷ polls) b s = record { ret = pos 2; buffer = b; shared = s }
process_tty opt tty_fd (polled again ∷ polls) b s = record { ret = pos 0; buffer = b; shared = s }
process_tty opt tty_fd (polled bad_fd ∷ polls) b s = record {
  ret = negsuc 0;
  buffer = b;
  shared = s;
}
process_tty opt tty_fd (polled read_error ∷ polls) b s = record {
  ret = negsuc 0;
  buffer = b;
  shared = s;
}
