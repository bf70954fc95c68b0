-- ===== src/Console/Serial.antt =====
-- serial_console/serial.c: its terminal, which reads the device byte by byte, the settings of the
-- terminal, and the parts of main's loop.
use jk16legacy.Prelude.{
  ℕ, Bool, true, false, not, Option, none, some, List, [], ◌∷◌, ◌++◌, ltb, if◌then◌else◌, ℤ, pos,
  is_zero, Text,
}
use jk16legacy.World.{str}
use jk16legacy.Daemon.Lines.{ReadOutcome, got, eof, bad_fd, again, read_error}
use jk16legacy.Startup.{os_close, os_sleep, os_open, os_print, Boot, did}
use jk16legacy.Startup.Tty.{TtyEnv, serial_setup_tty}
use jk16legacy.Console.{
  Typed, Terminal, Session, connected, left_off, Keyboard, keys_wait, keys_over, keys_broken,
  pass_keys, and_then, new_terminal,
}

-- What the calls in a run of serial.c's loop return.
pub record DoorRound : Type 0 where
  pub select_positive : Bool
  pub door_ready : Bool
  pub door : ReadOutcome
  pub stdin_ready : Bool
  pub keys : List Typed

-- The end of the input does not end the loop, and does not stop the reading of it.
after_door_keys : Keyboard → Session
after_door_keys (keys_wait s) = connected s
after_door_keys (keys_over s) = connected s
after_door_keys (keys_broken s) = left_off s

door_keys : DoorRound → Terminal → Session
unfolding after_door_keys
door_keys r s = if r.stdin_ready then after_door_keys (pass_keys 256 r.keys s) else connected s

show_door : DoorRound → ReadOutcome → Terminal → Session
unfolding door_keys
show_door r (got b) s = door_keys r (record s { shown = s.shown ++ (b ∷ []) })
show_door r again s = door_keys r s
show_door r eof s = left_off s
show_door r bad_fd s = left_off s
show_door r read_error s = left_off s

-- A run of the loop of serial.c's connect_terminal.
pub door_run : DoorRound → Terminal → Session
unfolding show_door door_keys
door_run r s =
    if not r.select_positive
    then left_off s
    else if r.door_ready
    then show_door r r.door s
    else door_keys r s

pub door_runs : List DoorRound → Terminal → Session
unfolding door_run
door_runs [] s = connected s
door_runs (r ∷ rs) s = and_then (door_runs rs) (door_run r s)

unfoldable pub connect_door : ℕ → List DoorRound → Session
unfolding door_runs
connect_door door_fd rs = if ltb door_fd 3 then left_off new_terminal else door_runs rs new_terminal

-- What the calls of set_tty_raw and restore_tty return.
pub record RawEnv : Type 0 where
  pub raw_tcgetattr : ℤ
  pub raw_tcsetattr : ℤ
  pub restore_tcsetattr : ℤ
  pub raw_error : Text

-- Whether the terminal is in raw mode is the Boolean that the result has.
unfoldable pub set_tty_raw : RawEnv → Boot → ℤ × Bool × Boot
set_tty_raw env b =
    if not (is_zero env.raw_tcgetattr)
    then (
      env.raw_tcgetattr,
      false,
      did (os_print "Error on tcgetattr(): %s" (str env.raw_error ∷ [])) b,
    )
    else if not (is_zero env.raw_tcsetattr)
    then (
      env.raw_tcsetattr,
      false,
      did (os_print "Error on tcsetattr(): %s" (str env.raw_error ∷ [])) b,
    )
    else (pos 0, true, b)

unfoldable pub restore_tty : RawEnv → Boot → ℤ × Bool × Boot
restore_tty env b = if is_zero env.restore_tcsetattr then (pos 0, false, b) else (
  env.restore_tcsetattr,
  true,
  did (os_print "Error on tcsetattr(): %s" (str env.raw_error ∷ [])) b,
)

-- What open finds, and what follows.
pub record DoorOpening : Type 0 where
  pub door_fd : Option ℕ
  pub settings : TtyEnv
  pub raw : RawEnv
  pub rounds : List DoorRound

-- How main is in a round of its loop: it ends with a value, tries again, or is in the terminal.
pub data DoorEnd : Type 0 where
  door_left : ℤ → Bool → Boot → DoorEnd
  door_retry : Boot → DoorEnd
  door_connected : Terminal → DoorEnd

-- From set_tty_raw on: whatever its loop has done, a round that gets this far is the last.
unfoldable pub door_session : DoorOpening → ℕ → Boot → DoorEnd
unfolding set_tty_raw restore_tty connect_door
door_session o fd b =
    let (ret, raw, b1) = set_tty_raw o.raw b in
    if not (is_zero ret) then door_left ret raw b1 else elim (connect_door fd o.rounds) [
      | connected s ↦ door_connected s
      | left_off s ↦ (let (ret', raw', b2) = restore_tty o.raw b1 in door_left ret' raw' b2)
    ]

unfoldable pub close_door : Option ℕ → Boot → Boot
close_door none b = b
close_door (some fd) b = if ltb 0 fd then did (os_close fd) b else b

unfoldable pub door_reopen : Text → Option ℕ → Boot → Boot
unfolding close_door
door_reopen dev fd b =
    did (os_sleep 5)
      (close_door fd (did (os_print "%s error, trying to reopen in 5 seconds.." (str dev ∷ [])) b))

unfoldable pub door_opened : Text → DoorOpening → ℕ → Boot → DoorEnd
unfolding serial_setup_tty door_session door_reopen
door_opened dev o fd b =
    let (ret, tmio, b1) = serial_setup_tty o.settings fd (did (os_open fd dev) b) in
    if is_zero ret then door_session o fd b1 else door_retry (door_reopen dev (some fd) b1)

unfoldable pub door_round : Text → DoorOpening → Option ℕ → Boot → DoorEnd
unfolding door_opened door_reopen
door_round dev o none b = door_retry (door_reopen dev none b)
door_round dev o (some fd) b = door_opened dev o fd b

-- A value of 2 that set_tty_raw or restore_tty returns ends the loop, too: it leaves by break.
unfoldable pub close_left : Option ℕ → DoorEnd → DoorEnd
unfolding close_door
close_left fd (door_left ret raw b) = door_left ret raw (close_door fd b)
close_left fd (door_retry b) = door_retry b
close_left fd (door_connected s) = door_connected s
