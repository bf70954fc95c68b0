-- ===== src/Startup/Daemonize.antt =====
-- powersensordaemon/daemon.h: daemonize, along the process that goes on: behind a fork its parent
-- exits with 0. What the calls return is the record `DaemonEnv`.
use jk16legacy.Prelude.{
  ℕ, ◌≡◌, refl, ◌⊎◌, inl, inr, Bool, true, Option, none, some, List, [], ◌∷◌, ◌++◌, append_assoc,
  if◌then◌else◌, Bool-cases, ℤ, pos, negsuc, Text, codes,
}
use jk16legacy.World.{Prio, error, warning, LogArg, str, logged, emit, log_event}
use jk16legacy.Startup.{
  OsCall, os_close, os_open, os_dup, os_umask, os_setsid, os_chdir_root, Boot, did, tell,
}
use jk16legacy.Startup.Fork.{ForkOutcome, fork_failed, in_child, in_parent}
use Prim.Native.String.{String}

pub record DaemonEnv : Type 0 where
  pub first_fork : ForkOutcome
  pub setsid_ok : Bool
  pub second_fork : ForkOutcome
  pub chdir_root_ok : Bool
  -- the descriptors that open and the two calls of dup return; `none` is -1
  pub null_fd : Option ℕ
  pub stdout_fd : Option ℕ
  pub stderr_fd : Option ℕ
  pub daemon_error : Text

-- The process exits, or goes on in the background.
pub data Background : Type 0 where
  daemon_exit : ℤ → Boot → Background
  in_background : Boot → Background

dup_null : Option ℕ → ℕ → String → Boot → Boot
unfolding log_event
dup_null none fd complaint b = tell warning complaint [] b
dup_null (some copy) fd complaint b = did (os_dup fd copy) b

-- stdin, stdout and stderr
open_null : DaemonEnv → Option ℕ → Boot → Boot
unfolding dup_null log_event
open_null env none b = tell warning "can't open stdin (chroot and no link to /dev/null?)" [] b
open_null env (some fd) b =
    dup_null env.stderr_fd fd "can't open stderr"
      (dup_null env.stdout_fd fd "can't open stdout" (did (os_open fd (codes "/dev/null")) b))

-- Behind the second fork.
detach : DaemonEnv → Boot → Background
unfolding open_null log_event
detach env b =
    if env.chdir_root_ok
    then in_background (
        did (os_umask 23) (
          open_null env env.null_fd
            (did (os_close 2) (did (os_close 1) (did (os_close 0) (did os_chdir_root b))))))
    else daemon_exit (negsuc 0)
        (tell error "daemonizing failed at chdir(): %s, exitting" (str env.daemon_error ∷ []) b)

second_daemon_fork : DaemonEnv → ForkOutcome → Boot → Background
unfolding detach log_event
second_daemon_fork env fork_failed b =
    daemon_exit (negsuc 0)
      (tell error "daemonizing failed at fork(): %s, exitting" (str env.daemon_error ∷ []) b)
second_daemon_fork env (in_parent pid) b = daemon_exit (pos 0) b
second_daemon_fork env in_child b = detach env b

first_daemon_fork : DaemonEnv → ForkOutcome → Boot → Background
unfolding second_daemon_fork log_event
first_daemon_fork env fork_failed b =
    daemon_exit (negsuc 0)
      (tell error "daemonizing failed at fork(): %s, exitting" (str env.daemon_error ∷ []) b)
first_daemon_fork env (in_parent pid) b = daemon_exit (pos 0) b
first_daemon_fork env in_child b =
    if env.setsid_ok
    then second_daemon_fork env env.second_fork (did os_setsid (did (os_umask 0) b))
    else daemon_exit (negsuc 0) (
        tell error "daemonizing failed at setsid(): %s, exitting" (str env.daemon_error ∷ [])
          (did (os_umask 0) b))

unfoldable pub daemonize : DaemonEnv → Boot → Background
unfolding first_daemon_fork
daemonize env b = first_daemon_fork env env.first_fork b

-- The calls of a process that goes on, where nothing fails and /dev/null gets the lowest
-- descriptors.
abbrev pub daemon_calls : List OsCall
daemon_calls =
    os_umask 0
    ∷ os_setsid
    ∷ os_chdir_root
    ∷ os_close 0
    ∷ os_close 1
    ∷ os_close 2
    ∷ os_open 0 (codes "/dev/null")
    ∷ os_dup 0 1
    ∷ os_dup 0 2
    ∷ os_umask 23
    ∷ []

-- How daemonize ends.
pub data DaemonEnd (env : DaemonEnv) (b : Boot) : Background → Type 0 where
  -- in the grandchild, in a session of its own and in the root directory
  went_on :
      (b' : Boot)
      → env.first_fork ≡ in_child
      → env.setsid_ok ≡ true
      → env.second_fork ≡ in_child
      → env.chdir_root_ok ≡ true
      → (env.null_fd ≡ some 0
          → env.stdout_fd ≡ some 1
          → env.stderr_fd ≡ some 2
          → (b'.os_calls ≡ b.os_calls ++ daemon_calls) × (b'.world ≡ b.world))
      → DaemonEnd env b (in_background b')
  -- in the parent of a fork that has succeeded
  parent_left :
      (b' : Boot) (pid : ℕ)
      → (env.first_fork ≡ in_parent pid) ⊎ (env.second_fork ≡ in_parent pid)
      → DaemonEnd env b (daemon_exit (pos 0) b')
  -- after a failure, which has been reported
  gave_up :
      (b' : Boot) (message : String)
      → b'.world.trace ≡ b.world.trace ++ (logged error message (str env.daemon_error ∷ []) ∷ [])
      → DaemonEnd env b (daemon_exit (negsuc 0) b')

-- daemonize goes on only in the child of the child, and only with a session of its own and in the
-- root directory; where /dev/null can be opened its three first descriptors are that file. A parent
-- exits with 0, and a failure is reported and exits with -1.
pub daemonize-DaemonEnd : (env : DaemonEnv) (b : Boot) → DaemonEnd env b (daemonize env b)
unfolding daemonize first_daemon_fork second_daemon_fork detach open_null dup_null log_event emit
daemonize-DaemonEnd env b = first env.first_fork refl
  where
    detached :
        env.first_fork ≡ in_child
        → env.setsid_ok ≡ true
        → env.second_fork ≡ in_child
        → DaemonEnd env b (detach env (did os_setsid (did (os_umask 0) b)))
    detached e1 e2 e3 = elim (Bool-cases env.chdir_root_ok) [
      | inl c ↦ simp c (went_on _ e1 e2 e3 c (λ n o e. rw (n, o, e) (simp append_assoc refl, refl)))
      | inr c ↦ simp c (gave_up _ "daemonizing failed at chdir(): %s, exitting" refl)
    ]

    second :
        (f : ForkOutcome)
        → env.first_fork ≡ in_child
        → env.setsid_ok ≡ true
        → env.second_fork ≡ f
        → DaemonEnd env b (second_daemon_fork env f (did os_setsid (did (os_umask 0) b)))
    second fork_failed e1 e2 e3 = gave_up _ "daemonizing failed at fork(): %s, exitting" refl
    second (in_parent pid) e1 e2 e3 = parent_left _ pid (inr e3)
    second in_child e1 e2 e3 = detached e1 e2 e3

    first : (f : ForkOutcome) → env.first_fork ≡ f → DaemonEnd env b (first_daemon_fork env f b)
    first fork_failed e = gave_up _ "daemonizing failed at fork(): %s, exitting" refl
    first (in_parent pid) e = parent_left _ pid (inl e)
    first in_child e = elim (Bool-cases env.setsid_ok) [
      | inl s ↦ simp s (second env.second_fork e s refl)
      | inr s ↦ simp s (gave_up _ "daemonizing failed at setsid(): %s, exitting" refl)
    ]

abbrev pub OnBackground : (Boot → Type 0) → Background → Type 0
OnBackground P (daemon_exit r b) = P b
OnBackground P (in_background b) = P b

module _ (P : Boot → Type 0) (calls : (c : OsCall) (b : Boot) → P b → P (did c b))
    (tells : (p : Prio) (f : String) (args : List LogArg) (b : Boot)
      → P b
      → P (tell p f args b)) where
  dup_null_keeps :
      (copy : Option ℕ) (fd : ℕ) (complaint : String) (b : Boot)
      → P b
      → P (dup_null copy fd complaint b)
  unfolding dup_null
  dup_null_keeps none fd complaint b h = tells warning complaint [] b h
  dup_null_keeps (some copy) fd complaint b h = calls (os_dup fd copy) b h

  open_null_keeps : (env : DaemonEnv) (fd : Option ℕ) (b : Boot) → P b → P (open_null env fd b)
  unfolding open_null
  open_null_keeps env none b h = tells warning _ [] b h
  open_null_keeps env (some fd) b h = dup_null_keeps env.stderr_fd fd "can't open stderr" _ (
      dup_null_keeps env.stdout_fd fd "can't open stdout" _
        (calls (os_open fd (codes "/dev/null")) b h))

  detach_keeps : (env : DaemonEnv) (b : Boot) → P b → OnBackground P (detach env b)
  unfolding detach
  detach_keeps env b h = elim (Bool-cases env.chdir_root_ok) [
    | inl e ↦ simp e (
        calls (os_umask 23) _ (
          open_null_keeps env env.null_fd _ (
            calls (os_close 2) _
              (calls (os_close 1) _ (calls (os_close 0) _ (calls os_chdir_root b h))))))
    | inr e ↦ simp e (tells error _ _ b h)
  ]

  -- What every call and every message keep, daemonize keeps.
  pub daemonize_keeps : (env : DaemonEnv) (b : Boot) → P b → OnBackground P (daemonize env b)
  unfolding daemonize first_daemon_fork second_daemon_fork
  daemonize_keeps env b h = first env.first_fork
    where
      second : (f : ForkOutcome) (b' : Boot) → P b' → OnBackground P (second_daemon_fork env f b')
      second fork_failed b' k = tells error _ _ b' k
      second (in_parent pid) b' k = k
      second in_child b' k = detach_keeps env b' k

      first : (f : ForkOutcome) → OnBackground P (first_daemon_fork env f b)
      first fork_failed = tells error _ _ b h
      first (in_parent pid) = h
      first in_child = elim (Bool-cases env.setsid_ok) [
        | inl e ↦ simp e (second env.second_fork _ (calls os_setsid _ (calls (os_umask 0) b h)))
        | inr e ↦ simp e (tells error _ _ _ (calls (os_umask 0) b h))
      ]
