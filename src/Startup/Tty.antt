-- ===== src/Startup/Tty.antt =====
-- powersensordaemon.c: clear_fd and setup_tty, with which serial_console/serial.c's setup_tty agrees
-- up to the reports of its errors. The results of the calls, and the attributes that tcgetattr
-- reads, are parameters; the flags of <termios.h> other than ECHO are numbers that are left alone.
use jk16legacy.Prelude.{
  ℕ, zero, suc, ◌≡◌, inl, inr, Bool, false, [], ◌∷◌, if◌then◌else◌, Bool-cases, ℤ, pos, is_zero,
  Text,
}
use jk16legacy.World.{error, str, log_event}
use jk16legacy.Startup.{os_read, os_print, Boot, did, tell}
use Prim.Native.String.{String}

-- struct termios
pub record Termios : Type 0 where
  pub c_iflag : ℕ
  pub c_oflag : ℕ
  pub c_cflag : ℕ
  -- c_lflag, its bit ECHO apart
  pub c_lflag : ℕ
  pub echo : Bool
  pub ospeed : ℕ
  pub ispeed : ℕ

-- B9600 on Linux
abbrev pub b9600 : ℕ
b9600 = 13

-- What the calls return, and what the device has before them.
pub record TtyEnv : Type 0 where
  pub tcgetattr : ℤ
  pub cfsetospeed : ℤ
  pub cfsetispeed : ℤ
  pub tcsetattr : ℤ
  pub tcflush : ℤ
  pub attributes : Termios
  -- how many calls of select in a row find input
  pub input_left : ℕ
  pub tty_error : Text

-- Reads as long as select finds something within 50 ms.
unfoldable pub clear_fd : ℕ → ℕ → Boot → Boot
clear_fd fd zero b = b
clear_fd fd (suc n) b = clear_fd fd n (did (os_read fd) b)

-- if(ret) { report; return ret; }
abbrev step_ok :
    ℤ → Termios → (Boot → Boot) → Boot → (Boot → ℤ × Termios × Boot) → ℤ × Termios × Boot
step_ok ret tmio report b k = if is_zero ret then k b else (ret, tmio, report b)

-- The five calls, with the report of an error of each, and what follows them.
unfoldable pub set_attributes :
    (String → Boot → Boot) → TtyEnv → (Boot → Boot) → Boot → ℤ × Termios × Boot
set_attributes report env clear b =
    let old = env.attributes in
    let new = record old { ospeed = b9600; ispeed = b9600; echo = false } in
    step_ok env.tcgetattr old (report "Error on tcgetattr(): %s") b (λ b1.
      step_ok env.cfsetospeed old (report "Error on cfsetospeed(): %s") b1 (λ b2.
        step_ok env.cfsetispeed old (report "Error on cfsetispeed(): %s") b2 (λ b3.
          step_ok env.tcsetattr old (report "Error on tcsetattr(): %s") b3 (λ b4.
            step_ok env.tcflush new (report "Error on tcflush(): %s") b4
              (λ b5. (pos 0, new, clear b5))))))

-- The value, the attributes that the device has in the end, and what has been done.
unfoldable pub setup_tty : TtyEnv → ℕ → Boot → ℤ × Termios × Boot
unfolding set_attributes clear_fd log_event
setup_tty env fd b =
    set_attributes (λ f. tell error f (str env.tty_error ∷ [])) env (clear_fd fd env.input_left) b

-- setup_tty of serial.c
unfoldable pub serial_setup_tty : TtyEnv → ℕ → Boot → ℤ × Termios × Boot
unfolding set_attributes clear_fd
serial_setup_tty env fd b =
    set_attributes (λ f. did (os_print f (str env.tty_error ∷ []))) env (clear_fd fd env.input_left)
      b

-- How setup_tty has left the device.
pub data TtySet (env : TtyEnv) : ℤ × Termios × Boot → Type 0 where
  -- raised to 9600 baud without echo, all other attributes as they were, the input read away
  tty_set :
      (b : Boot)
      → TtySet env
          (pos 0, record env.attributes { ospeed = b9600; ispeed = b9600; echo = false }, b)
  -- as it was
  tty_unchanged : (ret : ℤ) (b : Boot) → is_zero ret ≡ false → TtySet env (ret, env.attributes, b)
  -- set, but not flushed
  tty_not_flushed :
      (ret : ℤ) (b : Boot)
      → is_zero ret ≡ false
      → TtySet env (ret, record env.attributes { ospeed = b9600; ispeed = b9600; echo = false }, b)

-- The predicate holds of what has been done.
record EndsIn (P : Boot → Type 0) (r : ℤ × Termios × Boot) : Type 0 where
  done : P r.2

step_ok-EndsIn :
    (P : Boot → Type 0) (ret : ℤ) (tmio : Termios) (report : Boot → Boot) (b : Boot)
    (k : Boot → ℤ × Termios × Boot)
    → ((b' : Boot) → P b' → P (report b'))
    → ((b' : Boot) → P b' → EndsIn P (k b'))
    → P b
    → EndsIn P (step_ok ret tmio report b k)
step_ok-EndsIn P ret tmio report b k r h p = elim (Bool-cases (is_zero ret)) [
  | inl e ↦ rw e (h b p)
  | inr e ↦ rw e (record { done = r b p })
]

clear_fd_keeps :
    (P : Boot → Type 0) (fd n : ℕ) (b : Boot)
    → ((b' : Boot) → P b' → P (did (os_read fd) b'))
    → P b
    → P (clear_fd fd n b)
unfolding clear_fd
clear_fd_keeps P fd zero b h p = p
clear_fd_keeps P fd (suc n) b h p = clear_fd_keeps P fd n _ h (h b p)

setup_tty-EndsIn :
    (P : Boot → Type 0) (env : TtyEnv) (fd : ℕ) (b : Boot)
    → ((b' : Boot) → P b' → P (did (os_read fd) b'))
    → ((f : String) (b' : Boot) → P b' → P (tell error f (str env.tty_error ∷ []) b'))
    → P b
    → EndsIn P (setup_tty env fd b)
unfolding setup_tty set_attributes
setup_tty-EndsIn P env fd b h r p =
    let old = env.attributes in
    let report : String → Boot → Boot = λ f. tell error f (str env.tty_error ∷ []) in
    step_ok-EndsIn P env.tcgetattr old (report "Error on tcgetattr(): %s") b _
      (r "Error on tcgetattr(): %s")
      (λ b1.
        step_ok-EndsIn P env.cfsetospeed old (report "Error on cfsetospeed(): %s") b1 _
          (r "Error on cfsetospeed(): %s")
          (λ b2.
            step_ok-EndsIn P env.cfsetispeed old (report "Error on cfsetispeed(): %s") b2 _
              (r "Error on cfsetispeed(): %s")
              (λ b3.
                step_ok-EndsIn P env.tcsetattr old (report "Error on tcsetattr(): %s") b3 _
                  (r "Error on tcsetattr(): %s")
                  (λ b4.
                    step_ok-EndsIn P env.tcflush
                      (record old { ospeed = b9600; ispeed = b9600; echo = false })
                      (report "Error on tcflush(): %s") b4
                      (λ b5. (
                        pos 0,
                        record old { ospeed = b9600; ispeed = b9600; echo = false },
                        clear_fd fd env.input_left b5,
                      ))
                      (r "Error on tcflush(): %s")
                      (λ b5 q. record { done = clear_fd_keeps P fd env.input_left b5 h q })))))
      p

-- What a read of the device and a report keep, setup_tty keeps.
pub setup_tty_keeps :
    (P : Boot → Type 0) (env : TtyEnv) (fd : ℕ) (b : Boot)
    → ((b' : Boot) → P b' → P (did (os_read fd) b'))
    → ((f : String) (b' : Boot) → P b' → P (tell error f (str env.tty_error ∷ []) b'))
    → P b
    → P (setup_tty env fd b).2
setup_tty_keeps P env fd b h r p = (setup_tty-EndsIn P env fd b h r p).done
