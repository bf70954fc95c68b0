-- ===== src/Console/Start.antt =====
-- The main functions of serial_console: serial.c, usocket.c and sample_sensors.c. (shutdown of the
-- socket is written as its close.)
use jk16legacy.Prelude.{
  ℕ, ◌-◌, ◌≡◌, refl, inl, inr, Bool, true, false, Option, none, some, List, [], ◌∷◌, ◌++◌, ltb, leb,
  ◌==◌, if◌then◌else◌, Bool-cases, ℤ, pos, length, append_three, Text, codes, or_null,
}
use jk16legacy.World.{LogArg, str, num}
use jk16legacy.Sensors.{
  Call, Host, Sampler, SensorRound, Sampling, sampling_on, sampling_over, sample_sensors,
}
use jk16legacy.Startup.{os_socket, os_close, os_sleep, os_print, Boot, did}
use jk16legacy.Startup.Socket.{SocketEnv, establish_socket_connection}
use jk16legacy.Console.{TermRound, Terminal, Session, connected, left_off, connect_terminal}
use jk16legacy.Console.Serial.{
  DoorOpening, DoorEnd, door_left, door_retry, door_connected, door_reopen, door_round, close_left,
}
use Prim.Native.String.{String}

-- open(door_dev_, …), which fails for a null pointer.
pub opened_door : Option Text → DoorOpening → Option ℕ
opened_door none o = none
opened_door (some dev) o = o.door_fd

-- The loop of serial.c's main, over the openings.
pub door_loop : Option Text → List DoorOpening → Boot → DoorEnd
unfolding door_round close_left opened_door
door_loop dev [] b = door_retry b
door_loop dev (o ∷ os) b =
    let fd = opened_door dev o in
    elim (close_left fd (door_round (or_null dev) o fd b)) [
      | door_left ret raw b' ↦ door_left ret raw b'
      | door_retry b' ↦ door_loop dev os b'
      | door_connected s ↦ door_connected s
    ]

-- argv[1], a null pointer where there is none.
abbrev pub first_argument : List Text → Option Text
first_argument [] = none
first_argument (a ∷ args) = some a

-- serial.c: the test of argc holds with no argument, too, so that the device is always argv[1].
pub serial_main : List Text → List DoorOpening → DoorEnd
unfolding door_loop
serial_main args os =
    door_loop (first_argument args) os
      (record { os_calls = []; world = record { writes = []; allocs = []; trace = [] } })

abbrev pub default_socket_file_ : String
default_socket_file_ = "/var/run/powersensordaemon/cmd.sock"

-- The file of the socket, and quit_on_eof_, by the words after the name of the program.
abbrev pub socket_file : List Text → Text
socket_file [] = codes default_socket_file_
socket_file (file ∷ args) = file

abbrev pub quits_on_eof : List Text → Bool
quits_on_eof [] = true
quits_on_eof (file ∷ []) = true
quits_on_eof (file ∷ more ∷ args) = false

-- The value of main, with the session that it had.
pub data UsocketEnd : Type 0 where
  usocket_left : ℤ → Option Terminal → Boot → UsocketEnd
  usocket_connected : Terminal → UsocketEnd

pub usocket_session : ℕ → Session → Boot → UsocketEnd
usocket_session fd (connected s) b = usocket_connected s
usocket_session fd (left_off s) b = usocket_left (pos 0) (some s) (did (os_close fd) b)

pub usocket_run : List Text → List TermRound → Option ℕ × Boot → UsocketEnd
unfolding usocket_session connect_terminal
usocket_run args rs (none, b) =
    usocket_left (pos 2) none
      (did (os_print "%s error, aborting..\n" (str (socket_file args) ∷ [])) b)
usocket_run args rs (some fd, b) =
    if ltb 0 fd
    then usocket_session fd (connect_terminal (quits_on_eof args) fd rs) b
    else usocket_left (pos 2) none
        (did (os_print "%s error, aborting..\n" (str (socket_file args) ∷ [])) b)

pub usocket_main : List Text → SocketEnv → List TermRound → Boot → UsocketEnd
unfolding usocket_run establish_socket_connection
usocket_main args env rs b =
    usocket_run args rs (establish_socket_connection env (socket_file args) b)

-- Without an argument serial.c never opens a device: whatever open would find, its main goes on to
-- try again, for ever.
pub serial_main_without_argument :
    (os : List DoorOpening) → (b : Boot) × (serial_main [] os ≡ door_retry b)
unfolding serial_main door_loop door_round close_left opened_door
serial_main_without_argument os = tries os _
  where
    tries : (os : List DoorOpening) (b : Boot) → (b' : Boot) × (door_loop none os b ≡ door_retry b')
    tries [] b = (b, refl)
    tries (o ∷ os) b = tries os (door_reopen (or_null none) none b)

-- A round of the loop of sample_sensors.c's main: the connection, and what happens on it.
pub record SampleRound : Type 0 where
  pub connection : SocketEnv
  pub memory : List ℕ
  pub start_time : ℕ
  pub sensor_rounds : List SensorRound

-- The round has ended, and what sample_sensors has asked for; or sample_sensors still runs.
pub data SampleEnd : Type 0 where
  sampled : List Call → Boot → SampleEnd
  still_samples : Sampler → SampleEnd

after_sampling : ℕ → Option Sampling → Boot → SampleEnd
after_sampling fd none b = sampled [] b
after_sampling fd (some (sampling_on s)) b = still_samples s
after_sampling fd (some (sampling_over s)) b = sampled s.calls b

close_if_positive : ℕ → Boot → Boot
close_if_positive fd b = if ltb 0 fd then did (os_close fd) b else b

-- if(socket_fd) …: -1 passes the test, and sample_sensors refuses it, as it does with 1 and 2.
sample_connected : Host → List Text → SampleRound → Option ℕ × Boot → SampleEnd
unfolding after_sampling sample_sensors close_if_positive
sample_connected h args r (none, b) = sampled [] (did (os_sleep 2) b)
sample_connected h args r (some fd, b) =
    let b' = did (os_sleep 2) (close_if_positive fd b) in
    if fd == 0
    then sampled []
        (did (os_sleep 2) (did (os_print "%s error, retrying..\n" (str (socket_file args) ∷ [])) b))
    else after_sampling fd (sample_sensors h r.memory fd r.start_time r.sensor_rounds) b'

pub sample_round : Host → List Text → SampleRound → Boot → SampleEnd
unfolding sample_connected establish_socket_connection
sample_round h args r b =
    sample_connected h args r (establish_socket_connection r.connection (socket_file args) b)

-- Where the connection cannot be made, the program sleeps and asks for nothing, and it does not say
-- that it tries again: the message of main for that is not printed.
sample_round_refused :
    (h : Host) (args : List Text) (r : SampleRound) (b : Boot)
    → r.connection.connect_ok ≡ false
    → (fd : ℕ) → r.connection.socket_fd ≡ some fd
    → (p : String) × (more : List LogArg) × (sample_round h args r b
        ≡ sampled [] (record b {
          os_calls = b.os_calls ++ (os_socket fd ∷ os_print p more ∷ os_sleep 2 ∷ []);
        }))
unfolding sample_round sample_connected establish_socket_connection
sample_round_refused h args r b c fd e =
    elim (Bool-cases (leb r.connection.sun_path_size (length (socket_file args)))) [
      | inl x ↦ (
        "socket path is to long (max %lu)\n",
        num (r.connection.sun_path_size - 1) ∷ [],
        simp (e, x, append_three) refl,
      )
      | inr x ↦ (
        "unable to connect to '%s': %s\n",
        str (socket_file args) ∷ str r.connection.socket_error ∷ [],
        simp (e, x, c, append_three) refl,
      )
    ]
