-- ===== src/SigHandler/Setup.antt =====
-- powersensordaemon/sig_handler.c: signal_init and signal_stop. What pipe, fcntl and sigaction
-- return are parameters; the handlers that are installed are a list.
use jk16legacy.Prelude.{
  ℕ, ◌+◌, ◌≡◌, refl, Bool, true, false, not, Option, none, some, List, [], ◌∷◌, ◌==◌, if◌then◌else◌,
  All, Text,
}
use jk16legacy.World.{error, str, num, World, log_event}
use jk16legacy.SigHandler.{sighup, sigint, sigquit, sigusr1, sigusr2, sigterm}

pub data Handler : Type 0 where
  by_pipe ignored default_action : Handler

-- What the process does with its signals, the pipe, and whether its ends are open.
pub record SignalState : Type 0 where
  pub handlers : List (ℕ × Handler)
  pub pipe_fds : Option (ℕ × ℕ)
  pub pipe_open : Bool
  pub log_world : World

-- The flags of the two ends, and whether O_NONBLOCK can be set; and whether sigaction succeeds for
-- a signal.
pub record SignalEnv : Type 0 where
  pub new_pipe : Option (ℕ × ℕ)
  pub get_flags_ok : ℕ → Bool
  pub set_flags_ok : ℕ → Bool
  pub sigaction_ok : ℕ → Bool
  pub sig_error : Text

abbrev pub sigchld : ℕ
sigchld = 17

abbrev pub sigpipe : ℕ
sigpipe = 13

-- The signals of signal_init in the order of its calls, with their handlers.
abbrev pub init_handlers : List (ℕ × Handler)
init_handlers =
    (sigint, by_pipe)
    ∷ (sigquit, by_pipe)
    ∷ (sigterm, by_pipe)
    ∷ (sighup, by_pipe)
    ∷ (sigusr1, by_pipe)
    ∷ (sigusr2, by_pipe)
    ∷ (sigchld, ignored)
    ∷ (sigpipe, ignored)
    ∷ []

-- sigaction(…) < 0 || …: up to the first call that fails.
unfoldable pub install : (ℕ → Bool) → List (ℕ × Handler) → SignalState → Bool × SignalState
install ok [] s = (true, s)
install ok ((sig, h) ∷ hs) s =
    let rest = install ok hs (record s { handlers = (sig, h) ∷ s.handlers }) in
    if ok sig then rest else (false, s)

-- Behind the loop over the two ends. A failure of sigaction is logged and closes the pipe, and the
-- end of the pipe is returned all the same.
pub install_all : SignalEnv → ℕ × ℕ → SignalState → Option ℕ × SignalState
unfolding install log_event
install_all env p s =
    let (ok, s1) = install env.sigaction_ok init_handlers s in
    if ok then (some p.0, s1) else (
      some p.0,
      record s1 {
        pipe_open = false;
        log_world =
            log_event error "signal handling init failed (sigaction error: %s)"
              (str env.sig_error ∷ []) s1.log_world;
      },
    )

-- for(i=0; i<2; ++i) …, over the ends from number `i` on
pub nonblocking : SignalEnv → ℕ × ℕ → ℕ → List ℕ → SignalState → Option ℕ × SignalState
unfolding install_all log_event
nonblocking env p i [] s = install_all env p s
nonblocking env p i (fd ∷ fds) s =
    let rest = nonblocking env p (i + 1) fds s in
    if not (env.get_flags_ok fd)
    then (
      none,
      record s {
        log_world =
            log_event error "signal handling init failed (pipe fd[%d] read flags error: %s)"
              (num i ∷ str env.sig_error ∷ []) s.log_world;
      },
    )
    else if not (env.set_flags_ok fd)
    then (
      none,
      record s {
        log_world =
            log_event error "signal handling init failed (pipe fd[%d] write flags error: %s)"
              (num i ∷ str env.sig_error ∷ []) s.log_world;
      },
    )
    else rest

pub with_pipe : SignalEnv → Option (ℕ × ℕ) → SignalState → Option ℕ × SignalState
unfolding nonblocking log_event
with_pipe env none s = (
  none,
  record s {
    log_world =
        log_event error "signal handling init failed (pipe error: %s)" (str env.sig_error ∷ [])
          s.log_world;
  },
)
with_pipe env (some p) s =
    nonblocking env p 0 (p.0 ∷ p.1 ∷ []) (record s { pipe_fds = some p; pipe_open = true })

-- The returned descriptor, `none` for -1.
pub signal_init : SignalEnv → SignalState → Option ℕ × SignalState
unfolding with_pipe
signal_init env s = with_pipe env env.new_pipe s

-- The signals of signal_stop in the order of its calls.
abbrev pub stop_handlers : List (ℕ × Handler)
stop_handlers =
    (sigint, default_action)
    ∷ (sigquit, default_action)
    ∷ (sigterm, default_action)
    ∷ (sighup, default_action)
    ∷ (sigusr1, default_action)
    ∷ (sigusr2, default_action)
    ∷ (sigpipe, default_action)
    ∷ (sigchld, default_action)
    ∷ []

pub install_each : (ℕ → Bool) → List (ℕ × Handler) → SignalState → SignalState
install_each ok [] s = s
install_each ok ((sig, h) ∷ hs) s =
    install_each ok hs
      (record s { handlers = if ok sig then (sig, h) ∷ s.handlers else s.handlers })

pub signal_stop : SignalEnv → SignalState → SignalState
unfolding install_each
signal_stop env s = record (install_each env.sigaction_ok stop_handlers s) { pipe_open = false }

-- The handler of a signal is the one that was installed last.
abbrev pub handler_of : ℕ → List (ℕ × Handler) → Handler
handler_of sig [] = default_action
handler_of sig ((s, h) ∷ hs) = if s == sig then h else handler_of sig hs

-- The six signals that signal_handle knows.
abbrev pub known_signals : List ℕ
known_signals = sigint ∷ sigquit ∷ sigterm ∷ sighup ∷ sigusr1 ∷ sigusr2 ∷ []

-- Where all calls succeed, signal_init returns the open end of a pipe to read from, with the six
-- signals that signal_handle knows led into the pipe, and SIGCHLD and SIGPIPE ignored; and
-- signal_stop after it gives all of them their default action again and closes the pipe.
pub signal_init-signal_stop :
    (env : SignalEnv) (s : SignalState) (r w : ℕ)
    → env.new_pipe ≡ some (r, w)
    → ((fd : ℕ) → env.get_flags_ok fd ≡ true)
    → ((fd : ℕ) → env.set_flags_ok fd ≡ true)
    → ((x : ℕ) → env.sigaction_ok x ≡ true)
    → let (fd, s1) = signal_init env s in
      let s2 = signal_stop env s1 in
      (fd ≡ some r)
      × (s1.pipe_open ≡ true)
      × All (λ x. handler_of x s1.handlers ≡ by_pipe) known_signals
      × All (λ x. handler_of x s1.handlers ≡ ignored) (sigchld ∷ sigpipe ∷ [])
      × All (λ x. handler_of x s2.handlers ≡ default_action) (sigchld ∷ sigpipe ∷ known_signals)
      × (s2.pipe_open ≡ false)
unfolding signal_init with_pipe nonblocking install_all install signal_stop install_each
signal_init-signal_stop env s r w p g f a =
    simp (p, g, f, a)
      (
        refl,
        refl,
        (refl, (refl, (refl, (refl, (refl, (refl, tt)))))),
        (refl, (refl, tt)),
        (refl, (refl, (refl, (refl, (refl, (refl, (refl, (refl, tt)))))))),
        refl,
      )
