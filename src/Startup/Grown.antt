-- ===== src/Startup/Grown.antt =====
-- What main has done is never undone: every part of it adds to the calls before it.
use jk16legacy.Prelude.{
  ℕ, ◌≡◌, sym, ap, ◌∙◌, inl, inr, Option, none, some, List, [], ◌∷◌, ◌++◌, append-nil, append_assoc,
  ltb, Bool-cases, ℤ, is_zero, is_two, Text, or_null,
}
use jk16legacy.World.{error, str}
use jk16legacy.Daemon.MainLoop.{Round, Autosample}
use jk16legacy.Daemon.MainLoop.Body.{Outcome, running, returned, stuck, main_loop}
use jk16legacy.Startup.{OsCall, os_close, os_sleep, os_kill, os_open, os_read, Boot, did, tell}
use jk16legacy.Startup.Socket.{SocketEnv, SocketReady, is_listening, no_socket, left_open}
use jk16legacy.Startup.Tty.{TtyEnv, setup_tty, setup_tty_keeps}
use jk16legacy.Startup.Serial.{
  Opening, Serving, Attempt, attempted, in_main_loop, attempt_stuck, of_outcome, call_main_loop,
  serve_tty, try_tty, close_positive, TtyEnd, tty_left, tty_serves, tty_stuck, tty_waits, retry_tty,
  after_attempt, tty_loop, kill_helper, shut_down,
}

-- The calls begin with `cs`.
abbrev pub Grown : List OsCall → Boot → Type 0
Grown cs b = (more : List OsCall) × (b.os_calls ≡ cs ++ more)

-- A predicate at the calls of every end of a part of main.
abbrev pub OnTty : (Boot → Type 0) → TtyEnd → Type 0
OnTty P (tty_left r fd b) = P b
OnTty P (tty_serves l b) = P b
OnTty P (tty_stuck b) = P b
OnTty P (tty_waits b) = P b

abbrev OnAttempt : (Boot → Type 0) → Attempt → Type 0
OnAttempt P (attempted r b) = P b
OnAttempt P (in_main_loop l b) = P b
OnAttempt P (attempt_stuck b) = P b

pub Grown-start : (b : Boot) → Grown b.os_calls b
Grown-start b = ([], sym (append-nil b.os_calls))

module _ (cs : List OsCall) where
  pub Grown-did : (c : OsCall) (b : Boot) → Grown cs b → Grown cs (did c b)
  Grown-did c b (more, e) =
      (more ++ (c ∷ []), ap (λ x. x ++ (c ∷ [])) e ∙ append_assoc cs more (c ∷ []))

  Grown-close_positive : (fd : Option ℕ) (b : Boot) → Grown cs b → Grown cs (close_positive fd b)
  unfolding close_positive
  Grown-close_positive none b h = h
  Grown-close_positive (some fd) b h = elim (Bool-cases (ltb 0 fd)) [
    | inl e ↦ rw e (Grown-did (os_close fd) b h)
    | inr e ↦ rw e h
  ]

  Grown-kill_helper :
      (k : Option (ℕ × Autosample)) (b : Boot) → Grown cs b → Grown cs (kill_helper k b)
  unfolding kill_helper
  Grown-kill_helper none b h = h
  Grown-kill_helper (some (pid, a)) b h = elim (Bool-cases (ltb 0 pid)) [
    | inl e ↦ rw e (Grown-did (os_kill pid) b h)
    | inr e ↦ rw e h
  ]

  Grown-setup_tty :
      (env : TtyEnv) (fd : ℕ) (b : Boot) → Grown cs b → Grown cs (setup_tty env fd b).2
  Grown-setup_tty env fd b h =
      setup_tty_keeps (Grown cs) env fd b (Grown-did (os_read fd)) (λ f b' k. k) h

  Grown-call_main_loop :
      (v : Serving) (fd : ℕ) (sig : Option ℕ) (rs : List Round) (b : Boot)
      → Grown cs b
      → OnAttempt (Grown cs) (call_main_loop v fd sig rs b)
  unfolding call_main_loop
  Grown-call_main_loop v fd none rs b h = h
  Grown-call_main_loop v fd (some sig) rs b h = ended_as (main_loop _ rs b.world)
    where
      ended_as : (o : Outcome) → OnAttempt (Grown cs) (of_outcome b o)
      ended_as (running l) = h
      ended_as (returned r l) = h
      ended_as stuck = h

  Grown-try_tty :
      (v : Serving) (o : Opening) (fd : Option ℕ) (b : Boot)
      → Grown cs b
      → OnAttempt (Grown cs) (try_tty v o fd b)
  unfolding try_tty serve_tty
  Grown-try_tty v o none b h = h
  Grown-try_tty v o (some fd) b h =
      let b0 = did (os_open fd (or_null v.tty_dev)) b in
      let set = Grown-setup_tty o.settings fd b0 (Grown-did (os_open fd (or_null v.tty_dev)) b h) in
      elim (Bool-cases (is_zero (setup_tty o.settings fd b0).0)) [
        | inl e ↦ rw e (Grown-call_main_loop v fd o.sig o.rounds _ set)
        | inr e ↦ rw e set
      ]

  Grown-retry_tty :
      (v : Serving) (fd : Option ℕ) (b : Boot) → Grown cs b → Grown cs (retry_tty v fd b)
  unfolding retry_tty
  Grown-retry_tty v fd b h =
      let told =
        tell error "%s error, trying to reopen in 5 seconds.." (str (or_null v.tty_dev) ∷ []) b in
      Grown-did (os_sleep 5) (close_positive fd told) (Grown-close_positive fd told h)

  Grown-after_attempt :
      (retry : Boot → TtyEnd) (v : Serving) (fd : Option ℕ) (a : Attempt)
      → ((b : Boot) → Grown cs b → OnTty (Grown cs) (retry b))
      → OnAttempt (Grown cs) a
      → OnTty (Grown cs) (after_attempt retry v fd a)
  Grown-after_attempt retry v fd (attempted ret b) k h = elim (Bool-cases (is_two ret)) [
    | inl e ↦ rw e (k (retry_tty v fd b) (Grown-retry_tty v fd b h))
    | inr e ↦ rw e h
  ]
  Grown-after_attempt retry v fd (in_main_loop l b) k h = h
  Grown-after_attempt retry v fd (attempt_stuck b) k h = h

  pub Grown-tty_loop :
      (v : Serving) (os : List Opening) (b : Boot) → Grown cs b → OnTty (Grown cs) (tty_loop v os b)
  unfolding tty_loop
  Grown-tty_loop v [] b h = h
  Grown-tty_loop v (o ∷ os) b h =
      Grown-after_attempt (tty_loop v os) v o.tty (try_tty v o o.tty b) (Grown-tty_loop v os)
        (Grown-try_tty v o o.tty b h)

  pub Grown-shut_down :
      (v : Serving) (ret : ℤ) (fd : Option ℕ) (b : Boot)
      → Grown cs b
      → Grown cs (shut_down v ret fd b)
  unfolding shut_down
  Grown-shut_down v ret fd b h =
      Grown-kill_helper v.helper _
        (Grown-close_positive fd _ (Grown-did (os_close v.listen_fd) b h))

  Grown-more :
      (b b' : Boot) (more : List OsCall)
      → b'.os_calls ≡ b.os_calls ++ more
      → Grown cs b
      → Grown cs b'
  Grown-more b b' more e (old, f) =
      (old ++ more, e ∙ ap (λ x. x ++ more) f ∙ append_assoc cs old more)

  pub Grown-init_command_socket :
      (env : SocketEnv) (path : Text) (b : Boot) (r : Option ℕ × Boot)
      → SocketReady env path b r
      → Grown cs b
      → Grown cs r.1
  Grown-init_command_socket env path b r (is_listening fd b' e n calls) h =
      Grown-more b b' _ calls h
  Grown-init_command_socket env path b r (no_socket b' e calls) h =
      Grown-more b b' [] (calls ∙ sym (append-nil b.os_calls)) h
  Grown-init_command_socket env path b r (left_open fd b' more e calls live) h =
      Grown-more b b' _ calls h
