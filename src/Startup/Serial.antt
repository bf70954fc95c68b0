-- ===== src/Startup/Serial.antt =====
-- powersensordaemon.c: the loop of main that opens the serial line, and the end of main. The
-- openings are a list: what open, setup_tty and signal_init find, and the runs of main_loop.
pub mod Closes
use jk16legacy.Prelude.{
  ℕ, zero, suc, Option, none, some, List, [], ◌∷◌, ltb, if◌then◌else◌, ℤ, pos, negsuc, is_zero,
  is_two, Text, or_null,
}
use jk16legacy.World.{error, notice, str, log_event}
use jk16legacy.Daemon.Commands.{Devices}
use jk16legacy.Daemon.MainLoop.{Round, Autosample, Loop}
use jk16legacy.Daemon.MainLoop.Body.{Outcome, running, returned, stuck, main_loop}
use jk16legacy.Startup.{os_close, os_sleep, os_kill, os_open, Boot, did, tell}
use jk16legacy.Startup.Tty.{TtyEnv, setup_tty}
use Prim.Native.String.{String}

pub record Opening : Type 0 where
  -- the descriptor that open returns, or `none` for -1
  pub tty : Option ℕ
  pub settings : TtyEnv
  -- signal_init; `none` is -1
  pub sig : Option ℕ
  pub rounds : List Round

-- What main hands to main_loop, apart from the serial line.
pub record Serving : Type 0 where
  pub devices : Devices
  pub tty_dev : Option Text
  pub listen_fd : ℕ
  pub helper : Option (ℕ × Autosample)

abbrev pub helper_of : Option (ℕ × Autosample) → Option Autosample
helper_of none = none
helper_of (some (pid, a)) = some a

-- How an attempt ends: with a value of ret, in main_loop, or in a call that does not return.
pub data Attempt : Type 0 where
  attempted : ℤ → Boot → Attempt
  in_main_loop : Loop → Boot → Attempt
  attempt_stuck : Boot → Attempt

abbrev pub of_outcome : Boot → Outcome → Attempt
of_outcome b (running l) = in_main_loop l (record b { world = l.shared.world })
of_outcome b (returned r l) = attempted r (record b { world = l.shared.world })
of_outcome b stuck = attempt_stuck b

unfoldable pub call_main_loop : Serving → ℕ → Option ℕ → List Round → Boot → Attempt
unfolding log_event
call_main_loop v fd none rs b = attempted (negsuc 0) (tell notice "entering main loop" [] b)
call_main_loop v fd (some sig) rs b = of_outcome b (
    main_loop
      (record {
        opt = v.devices;
        tty_fd = fd;
        cmd_listen_fd = v.listen_fd;
        sig_fd = sig;
        autosample = helper_of v.helper;
      })
      rs b.world)

unfoldable pub serve_tty : Serving → Opening → ℕ → Boot → Attempt
unfolding setup_tty call_main_loop
serve_tty v o fd b =
    let (ret, tmio, b1) = setup_tty o.settings fd (did (os_open fd (or_null v.tty_dev)) b) in
    if is_zero ret then call_main_loop v fd o.sig o.rounds b1 else attempted (pos 2) b1

unfoldable pub try_tty : Serving → Opening → Option ℕ → Boot → Attempt
unfolding serve_tty
try_tty v o none b = attempted (pos 2) b
try_tty v o (some fd) b = serve_tty v o fd b

-- if(tty_fd > 0) close(tty_fd);
unfoldable pub close_positive : Option ℕ → Boot → Boot
close_positive none b = b
close_positive (some fd) b = if ltb 0 fd then did (os_close fd) b else b

-- The loop ends with the value of ret and the descriptor of the last opening, or has not ended.
pub data TtyEnd : Type 0 where
  tty_left : ℤ → Option ℕ → Boot → TtyEnd
  tty_serves : Loop → Boot → TtyEnd
  tty_stuck : Boot → TtyEnd
  -- all openings in the list have failed
  tty_waits : Boot → TtyEnd

unfoldable pub retry_tty : Serving → Option ℕ → Boot → Boot
unfolding close_positive log_event
retry_tty v fd b = did (os_sleep 5) (
    close_positive fd
      (tell error "%s error, trying to reopen in 5 seconds.." (str (or_null v.tty_dev) ∷ []) b))

-- What follows an attempt, where `retry` is the rest of the loop.
abbrev pub after_attempt : (Boot → TtyEnd) → Serving → Option ℕ → Attempt → TtyEnd
after_attempt retry v fd (attempted ret b) =
    if is_two ret then retry (retry_tty v fd b) else tty_left ret fd b
after_attempt retry v fd (in_main_loop l b) = tty_serves l b
after_attempt retry v fd (attempt_stuck b) = tty_stuck b

unfoldable pub tty_loop : Serving → List Opening → Boot → TtyEnd
unfolding try_tty
tty_loop v [] b = tty_waits b
tty_loop v (o ∷ os) b = after_attempt (tty_loop v os) v o.tty (try_tty v o o.tty b)

unfoldable pub kill_helper : Option (ℕ × Autosample) → Boot → Boot
kill_helper none b = b
kill_helper (some (pid, a)) b = if ltb 0 pid then did (os_kill pid) b else b

-- The message of the end, by the value of ret.
unfoldable pub farewell : ℤ → String
farewell (pos zero) = "normal shutdown"
farewell (pos (suc n)) = "shutdown after signal"
farewell (negsuc n) = "shutdown after error"

-- What main does behind the loop.
unfoldable pub shut_down : Serving → ℤ → Option ℕ → Boot → Boot
unfolding kill_helper close_positive farewell log_event
shut_down v ret fd b =
    tell notice (farewell ret) []
      (kill_helper v.helper (close_positive fd (did (os_close v.listen_fd) b)))
