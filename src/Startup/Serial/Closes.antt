-- ===== src/Startup/Serial/Closes.antt =====
-- When main ends, every serial line that it has opened is closed, and so is the command socket.
use jk16legacy.Prelude.{ℕ, ◌<◌, ◌≡◌, ◌≢◌, false, Option, none, some, List, [], ◌∷◌, ◌++◌, is_two}
use jk16legacy.World.{World}
use jk16legacy.Startup.{OsCall, Boot, still_open}
use jk16legacy.Startup.Serial.{
  Serving, Attempt, attempted, in_main_loop, attempt_stuck, TtyEnd, tty_left, tty_serves, tty_stuck,
  tty_waits,
}

-- The descriptors `fds` are open, of those opened after `old` and of the command socket.
abbrev pub Leaves : List OsCall → ℕ → List ℕ → Boot → Type 0
Leaves old listen_fd fds b =
    (more : List OsCall) × (b.os_calls ≡ old ++ more) × (still_open more (listen_fd ∷ []) ≡ fds)

module _ (old : List OsCall) (v : Serving) where
  -- Between two openings only the command socket is open.
  abbrev pub Between : Boot → Type 0
  Between = Leaves old v.listen_fd (v.listen_fd ∷ [])

  -- With the serial line, where it has been opened.
  abbrev pub With : Option ℕ → Boot → Type 0
  With none b = Between b
  With (some fd) b = Leaves old v.listen_fd (fd ∷ v.listen_fd ∷ []) b

  -- A descriptor of the serial line that open returns.
  abbrev pub IsFresh : Option ℕ → Type 0
  IsFresh none = Unit {0}
  IsFresh (some fd) = (0 < fd) × (fd ≢ v.listen_fd)

  abbrev AttemptLeaves : Option ℕ → Attempt → Type 0
  AttemptLeaves fd (attempted r b) = With fd b
  AttemptLeaves fd (in_main_loop l b) = Unit {0}
  AttemptLeaves fd (attempt_stuck b) = Unit {0}

  -- Where the loop ends, it has not ended with 2, and only the last serial line is open.
  abbrev pub LoopLeaves : TtyEnd → Type 0
  LoopLeaves (tty_left ret fd b) = (is_two ret ≡ false) × IsFresh fd × With fd b
  LoopLeaves (tty_serves l b) = Unit {0}
  LoopLeaves (tty_stuck b) = Unit {0}
  LoopLeaves (tty_waits b) = Between b
