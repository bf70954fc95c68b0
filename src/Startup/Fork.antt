-- ===== src/Startup/Fork.antt =====
-- powersensordaemon/autosample.c: start_autosample_process. What pipe and fork return are
-- parameters, and what autosample_process returns in the child. (options_clear and log_close in
-- the child only free and close.)
use jk16legacy.Prelude.{
  ℕ, zero, suc, ◌≡◌, refl, sym, ◌≢◌, ◌⊎◌, inl, inr, Option, none, some, List, [], ◌∷◌, ◌++◌, map,
  append-nil, append_assoc, arith, ℤ, pos, negsuc, eq_of_some, Text,
}
use jk16legacy.World.{Prio, error, LogArg, str, log_event}
use jk16legacy.Daemon.MainLoop.{Autosample, fd_clr}
use jk16legacy.Startup.{OsCall, os_close, os_pipe, Boot, did, tell, still_open}
use Prim.Native.String.{String}

pub data ForkOutcome : Type 0 where
  fork_failed in_child : ForkOutcome
  in_parent : ℕ → ForkOutcome

-- A pipe has an end to read and one to write; `none`: pipe returns -1.
pub record PipeEnv : Type 0 where
  pub write_pipe : Option (ℕ × ℕ)
  pub read_pipe : Option (ℕ × ℕ)
  pub fork : ForkOutcome
  pub pipe_error : Text

-- How the call ends: with -1, with 0 and the process, or in the child, which runs
-- autosample_process with its ends of the pipes and exits with 0.
pub data Forked : Type 0 where
  not_forked : Boot → Forked
  forked : ℕ → Autosample → Boot → Forked
  child_runs : ℕ → ℕ → Boot → Forked

close_all : List ℕ → Boot → Boot
close_all [] b = b
close_all (fd ∷ fds) b = close_all fds (did (os_close fd) b)

after_fork : PipeEnv → ℕ × ℕ → ℕ × ℕ → ForkOutcome → Boot → Forked
unfolding close_all log_event
after_fork env w r fork_failed b = not_forked (
    close_all (w.0 ∷ w.1 ∷ r.0 ∷ r.1 ∷ [])
      (tell error "autosample_process: fork() failed: %s" (str env.pipe_error ∷ []) b))
after_fork env w r in_child b = child_runs w.1 r.0 (close_all (w.0 ∷ r.1 ∷ []) b)
after_fork env w r (in_parent pid) b =
    forked pid (record { write_fd_ = w.0; read_fd_ = r.1 }) (close_all (w.1 ∷ r.0 ∷ []) b)

second_pipe : PipeEnv → ℕ × ℕ → Option (ℕ × ℕ) → Boot → Forked
unfolding after_fork log_event
second_pipe env w none b = not_forked (
    close_all (w.0 ∷ w.1 ∷ [])
      (tell error "autosample_process: pipe() failed: %s" (str env.pipe_error ∷ []) b))
second_pipe env w (some r) b = after_fork env w r env.fork (did (os_pipe r.0 r.1) b)

first_pipe : PipeEnv → Option (ℕ × ℕ) → Boot → Forked
unfolding second_pipe log_event
first_pipe env none b =
    not_forked (tell error "autosample_process: pipe() failed: %s" (str env.pipe_error ∷ []) b)
first_pipe env (some w) b = second_pipe env w env.read_pipe (did (os_pipe w.0 w.1) b)

unfoldable pub start_autosample_process : PipeEnv → Boot → Forked
unfolding first_pipe
start_autosample_process env b = first_pipe env env.write_pipe b

abbrev pub OnForked : (Boot → Type 0) → Forked → Type 0
OnForked P (not_forked b) = P b
OnForked P (forked pid a b) = P b
OnForked P (child_runs w r b) = P b

module _ (P : Boot → Type 0) (calls : (c : OsCall) (b : Boot) → P b → P (did c b))
    (tells : (p : Prio) (f : String) (args : List LogArg) (b : Boot)
      → P b
      → P (tell p f args b)) where
  close_all_keeps : (fds : List ℕ) (b : Boot) → P b → P (close_all fds b)
  unfolding close_all
  close_all_keeps [] b h = h
  close_all_keeps (fd ∷ fds) b h = close_all_keeps fds _ (calls (os_close fd) b h)

  after_fork_keeps :
      (env : PipeEnv) (w r : ℕ × ℕ) (f : ForkOutcome) (b : Boot)
      → P b
      → OnForked P (after_fork env w r f b)
  unfolding after_fork
  after_fork_keeps env w r fork_failed b h =
      close_all_keeps (w.0 ∷ w.1 ∷ r.0 ∷ r.1 ∷ []) _ (tells error _ _ b h)
  after_fork_keeps env w r in_child b h = close_all_keeps (w.0 ∷ r.1 ∷ []) b h
  after_fork_keeps env w r (in_parent pid) b h = close_all_keeps (w.1 ∷ r.0 ∷ []) b h

  second_pipe_keeps :
      (env : PipeEnv) (w : ℕ × ℕ) (r : Option (ℕ × ℕ)) (b : Boot)
      → P b
      → OnForked P (second_pipe env w r b)
  unfolding second_pipe
  second_pipe_keeps env w none b h = close_all_keeps (w.0 ∷ w.1 ∷ []) _ (tells error _ _ b h)
  second_pipe_keeps env w (some r) b h =
      after_fork_keeps env w r env.fork _ (calls (os_pipe r.0 r.1) b h)

  -- What every call and every message keep, start_autosample_process keeps.
  pub start_autosample_process_keeps :
      (env : PipeEnv) (b : Boot) → P b → OnForked P (start_autosample_process env b)
  unfolding start_autosample_process first_pipe
  start_autosample_process_keeps env b h = first env.write_pipe
    where
      first : (w : Option (ℕ × ℕ)) → OnForked P (first_pipe env w b)
      first none = tells error _ _ b h
      first (some w) = second_pipe_keeps env w env.read_pipe _ (calls (os_pipe w.0 w.1) b h)

-- What the child says before it exits.
unfoldable pub child_farewell : ℤ → String
child_farewell (pos zero) = "autosample process normal shutdown"
child_farewell (pos (suc n)) = "autosample shutdown after signal"
child_farewell (negsuc n) = "autosample shutdown after error"

-- The descriptors of the pipes differ, as pipe promises.
abbrev pub AreDistinct : ℕ × ℕ → ℕ × ℕ → Type 0
AreDistinct w r = (w.0 ≢ w.1) × (w.0 ≢ r.0) × (w.0 ≢ r.1) × (w.1 ≢ r.0) × (w.1 ≢ r.1) × (r.0 ≢ r.1)

-- What is open, of the pipes' descriptors, when the call has ended.
abbrev pub Opens : Boot → ℕ × ℕ → ℕ × ℕ → Forked → Type 0
Opens b w r (not_forked b') =
    (cs : List OsCall) × (b'.os_calls ≡ b.os_calls ++ cs) × (still_open cs [] ≡ [])
Opens b w r (forked pid a b') =
    (a ≡ record { write_fd_ = w.0; read_fd_ = r.1 })
    × (cs : List OsCall) × (b'.os_calls ≡ b.os_calls ++ cs)
    × (still_open cs [] ≡ r.1 ∷ w.0 ∷ [])
Opens b w r (child_runs writefd readfd b') =
    (writefd ≡ w.1)
    × (readfd ≡ r.0)
    × (cs : List OsCall) × (b'.os_calls ≡ b.os_calls ++ cs)
    × (still_open cs [] ≡ r.0 ∷ w.1 ∷ [])

-- The calls of the two pipes, and of some closes.
abbrev piped : ℕ × ℕ → ℕ × ℕ → List ℕ → List OsCall
piped w r fds = os_pipe w.0 w.1 ∷ os_pipe r.0 r.1 ∷ map (λ fd. os_close fd) fds

after_fork-Opens :
    (env : PipeEnv) (w r : ℕ × ℕ) (f : ForkOutcome) (b : Boot)
    → AreDistinct w r
    → Opens b w r (after_fork env w r f (did (os_pipe r.0 r.1) (did (os_pipe w.0 w.1) b)))
unfolding after_fork close_all still_open fd_clr
after_fork-Opens env w r fork_failed b d =
    (piped w r (w.0 ∷ w.1 ∷ r.0 ∷ r.1 ∷ []), simp append_assoc refl, ground (arith, d))
after_fork-Opens env w r in_child b d =
    (refl, refl, piped w r (w.0 ∷ r.1 ∷ []), simp append_assoc refl, ground (arith, d))
after_fork-Opens env w r (in_parent pid) b d =
    (refl, piped w r (w.1 ∷ r.0 ∷ []), simp append_assoc refl, ground (arith, d))

-- Whatever pipe and fork do, start_autosample_process leaves no descriptor open where it returns
-- -1; in the parent it leaves open exactly the end that the process writes to and the end that it
-- reads from, which it stores, and in the child exactly the two other ends, which it passes on.
pub start_autosample_process-Opens :
    (env : PipeEnv) (w r : ℕ × ℕ) (b : Boot)
    → AreDistinct w r
    → (env.write_pipe ≡ none) ⊎ (env.write_pipe ≡ some w)
    → (env.read_pipe ≡ none) ⊎ (env.read_pipe ≡ some r)
    → Opens b w r (start_autosample_process env b)
unfolding start_autosample_process first_pipe second_pipe close_all still_open fd_clr
start_autosample_process-Opens env w r b d x y = first env.write_pipe x
  where
    second :
        (o : Option (ℕ × ℕ))
        → (o ≡ none) ⊎ (o ≡ some r)
        → Opens b w r (second_pipe env w o (did (os_pipe w.0 w.1) b))
    second none h = (
      os_pipe w.0 w.1 ∷ os_close w.0 ∷ os_close w.1 ∷ [],
      simp append_assoc refl,
      ground (arith, d),
    )
    second (some p) (inl h) = cc
    second (some p) (inr h) = rw (eq_of_some h) (after_fork-Opens env w r env.fork b d)

    first : (o : Option (ℕ × ℕ)) → (o ≡ none) ⊎ (o ≡ some w) → Opens b w r (first_pipe env o b)
    first none h = ([], sym (append-nil b.os_calls), refl)
    first (some p) (inl h) = cc
    first (some p) (inr h) = rw (eq_of_some h) (second env.read_pipe y)
