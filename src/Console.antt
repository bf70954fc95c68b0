-- ===== src/Console.antt =====
-- serial_console/usocket.c and serial_console/serial.c: the loops that pass bytes between a
-- descriptor and the terminal. What select, recv and read return in a run is a record; write and
-- send are taken to take all that they are given, as the code takes them to.
pub mod Transparent
pub mod Serial
pub mod Start
use jk16legacy.Prelude.{
  ℕ, Bool, true, false, ◌&&◌, not, List, [], ◌∷◌, ◌++◌, ltb, if◌then◌else◌, take, Text,
}

-- What a read of standard input returns: bytes, the end of the input (0), -1 with EAGAIN, or -1
-- with another error.
pub data Typed : Type 0 where
  typed_bytes : Text → Typed
  typed_end typed_none typed_error : Typed

-- What select and the calls behind it return in a run of usocket.c's loop. recv returns a positive
-- number where the text has a byte; `keys` holds what the reads of standard input return, in
-- order, and at its end they return -1 with EAGAIN.
pub record TermRound : Type 0 where
  pub select_positive : Bool
  pub peer_ready : Bool
  pub peer : Text
  pub stdin_ready : Bool
  pub keys : List Typed

-- The bytes written to standard output and to the descriptor, and stdin_valid_fd.
pub record Terminal : Type 0 where
  pub shown : Text
  pub passed_on : Text
  pub stdin_valid_fd : Bool

pub data Session : Type 0 where
  connected left_off : Terminal → Session

-- How the reads of standard input in a run end.
pub data Keyboard : Type 0 where
  keys_wait keys_over keys_broken : Terminal → Keyboard

-- while((num_byte = read(STDIN_FILENO, …)) > 0) send(…); with 1024 bytes at a time
pub pass_keys : ℕ → List Typed → Terminal → Keyboard
pass_keys size [] s = keys_wait s
pass_keys size (typed_none ∷ keys) s = keys_wait s
pass_keys size (typed_end ∷ keys) s = keys_over s
pass_keys size (typed_error ∷ keys) s = keys_broken s
pass_keys size (typed_bytes t ∷ keys) s =
    pass_keys size keys (record s { passed_on = s.passed_on ++ take size t })

abbrev pub after_keys : Bool → Keyboard → Session
after_keys quit_on_eof_ (keys_wait s) = connected s
after_keys quit_on_eof_ (keys_broken s) = left_off s
after_keys quit_on_eof_ (keys_over s) =
    if quit_on_eof_ then left_off s else connected (record s { stdin_valid_fd = false })

-- if(stdin_valid_fd && FD_ISSET(STDIN_FILENO, &fds_r)) …
pub stdin_part : Bool → TermRound → Terminal → Session
unfolding pass_keys
stdin_part quit_on_eof_ r s =
    if s.stdin_valid_fd && r.stdin_ready
    then after_keys quit_on_eof_ (pass_keys 1024 r.keys s)
    else connected s

pub show_peer : Bool → TermRound → Text → Terminal → Session
unfolding stdin_part
show_peer quit_on_eof_ r [] s = left_off s
show_peer quit_on_eof_ r (b ∷ t) s =
    stdin_part quit_on_eof_ r (record s { shown = s.shown ++ (b ∷ t) })

-- A run of the loop of usocket.c's connect_terminal.
pub term_run : Bool → TermRound → Terminal → Session
unfolding show_peer stdin_part
term_run quit_on_eof_ r s =
    if not r.select_positive
    then left_off s
    else if r.peer_ready
    then show_peer quit_on_eof_ r (take 1024 r.peer) s
    else stdin_part quit_on_eof_ r s

abbrev pub and_then : (Terminal → Session) → Session → Session
and_then f (connected s) = f s
and_then f (left_off s) = left_off s

pub term_runs : Bool → List TermRound → Terminal → Session
unfolding term_run
term_runs quit_on_eof_ [] s = connected s
term_runs quit_on_eof_ (r ∷ rs) s = and_then (term_runs quit_on_eof_ rs) (term_run quit_on_eof_ r s)

abbrev pub new_terminal : Terminal
new_terminal = record { shown = []; passed_on = []; stdin_valid_fd = true }

-- connect_terminal of usocket.c: it does nothing with a descriptor below 3.
unfoldable pub connect_terminal : Bool → ℕ → List TermRound → Session
unfolding term_runs
connect_terminal quit_on_eof_ fd rs =
    if ltb fd 3 then left_off new_terminal else term_runs quit_on_eof_ rs new_terminal

-- What standard input gave in a run: the bytes before the first read that gave none.
abbrev pub key_text : ℕ → List Typed → Text
key_text size [] = []
key_text size (typed_none ∷ keys) = []
key_text size (typed_end ∷ keys) = []
key_text size (typed_error ∷ keys) = []
key_text size (typed_bytes t ∷ keys) = take size t ++ key_text size keys

-- Whether standard input ends in a run.
abbrev pub key_end : List Typed → Bool
key_end [] = false
key_end (typed_none ∷ keys) = false
key_end (typed_end ∷ keys) = true
key_end (typed_error ∷ keys) = false
key_end (typed_bytes t ∷ keys) = key_end keys

-- What arrives, and what is typed while standard input is read, over some runs.
abbrev pub arrived_text : List TermRound → Text
arrived_text [] = []
arrived_text (r ∷ rs) = (if r.peer_ready then take 1024 r.peer else []) ++ arrived_text rs

abbrev pub typed_text : Bool → List TermRound → Text
typed_text open_now [] = []
typed_text open_now (r ∷ rs) =
    let reads = open_now && r.stdin_ready in
    (if reads then key_text 1024 r.keys else [])
    ++ typed_text (open_now && not (reads && key_end r.keys)) rs
