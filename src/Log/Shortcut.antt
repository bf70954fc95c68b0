-- ===== src/Log/Shortcut.antt =====
-- log.c: log_printf leaves out no target.
use jk16legacy.Prelude.{
  ℕ, ◌-◌, ◌≤◌, ◌<◌, ◌≡◌, refl, sym, ap, ◌∙◌, ◌≢◌, inl, inr, true, false, ◌&&◌, List, [], ◌∷◌, arith,
  ltb, if◌then◌else◌, Bool-cases, is_zero, take, All, Text, codes,
}
use jk16legacy.World.{Prio, World}
use jk16legacy.Log.{LogTarget, prio_number, LogEnv, log_targets_add}
use jk16legacy.Log.Output.{
  log_targets_log, Log, log_init, raise_max_prio, update_max_prio, log_add_target, msg_length_max,
  log_printf, add_targets, set_up_log,
}
use jk16legacy.Log.Laws.{log_targets_add_cases}
use mathlib.Core.Path.{subst}

-- The bound that log_printf tests first lies above every enabled target.
abbrev IsCovered : ℕ → List LogTarget → Type 0
IsCovered m ts = All (λ t. t.enabled_ ≡ true → t.max_prio_ ≤ m) ts

raise_max_prio-rises : (ts : List LogTarget) (m : ℕ) → m ≤ raise_max_prio ts m
unfolding raise_max_prio
raise_max_prio-rises [] m = omega arith
raise_max_prio-rises (t ∷ ts) m =
    ground
      (arith, raise_max_prio-rises ts (if t.enabled_ && ltb m t.max_prio_ then t.max_prio_ else m))

raise_max_prio-IsCovered : (ts : List LogTarget) (m : ℕ) → IsCovered (raise_max_prio ts m) ts
unfolding raise_max_prio
raise_max_prio-IsCovered [] m = tt
raise_max_prio-IsCovered (t ∷ ts) m =
    let m' = if t.enabled_ && ltb m t.max_prio_ then t.max_prio_ else m in
    let rises = raise_max_prio-rises ts m' in
    (λ e. ground (arith, rises), raise_max_prio-IsCovered ts m')

log_targets_log-below :
    (m : ℕ) (ts : List LogTarget) (p : Prio) (msg : Text)
    → m < prio_number p
    → IsCovered m ts
    → log_targets_log ts p msg ≡ []
unfolding log_targets_log
log_targets_log-below m [] p msg h c = refl
log_targets_log-below m (t ∷ ts) p msg h c =
    let rest = log_targets_log-below m ts p msg h c.1 in
    let first = c.0 in ground (arith, rest, first)

-- The early return of log_printf leaves out no output: with the bound above every enabled target, a
-- message is put out by exactly the targets that log_targets_log finds.
log_printf-IsCovered :
    (stdlog : Log) (p : Prio) (line : Text)
    → IsCovered stdlog.log_max_prio stdlog.targets_
    → log_printf stdlog p line ≡ log_targets_log stdlog.targets_ p (take (msg_length_max - 1) line)
unfolding log_printf
log_printf-IsCovered stdlog p line c =
    let none_below = log_targets_log-below stdlog.log_max_prio stdlog.targets_ p (take 149 line) in
    ground (arith, none_below, c)

unchanged :
    (env : LogEnv) (ts : List LogTarget) (conf : Text) (w : World)
    → is_zero (log_targets_add env ts conf w).0 ≡ false
    → (log_targets_add env ts conf w).1 ≡ ts
unchanged env ts conf w h = elim (log_targets_add_cases env ts conf w) [
  | inl (ok, _) ↦ absurd (zero_ne (ap is_zero (sym ok) ∙ h))
  | inr (bad, same) ↦ same
]
  where
    zero_ne : true ≢ false
    zero_ne e = ground arith

log_add_target-IsCovered :
    (env : LogEnv) (stdlog : Log) (conf : Text) (w : World)
    → IsCovered stdlog.log_max_prio stdlog.targets_
    → let stdlog' = (log_add_target env stdlog conf w).1 in
      IsCovered stdlog'.log_max_prio stdlog'.targets_
unfolding log_add_target update_max_prio
log_add_target-IsCovered env stdlog conf w c =
    let (ret, targets, w') = log_targets_add env stdlog.targets_ conf w in
    let stdlog' = record stdlog { targets_ = targets } in
    let covered = λ (l : Log). IsCovered l.log_max_prio l.targets_ in
    elim (Bool-cases (is_zero ret)) [
      | inl ok ↦
          subst (λ z. covered (if z then update_max_prio stdlog' else stdlog')) (sym ok)
            (raise_max_prio-IsCovered targets stdlog.log_max_prio)
      | inr bad ↦
          subst (λ z. covered (if z then update_max_prio stdlog' else stdlog')) (sym bad)
            (subst (IsCovered stdlog.log_max_prio) (sym (unchanged env stdlog.targets_ conf w bad))
              c)
    ]

add_targets-IsCovered :
    (env : LogEnv) (stdlog : Log) (confs : List Text) (w : World)
    → IsCovered stdlog.log_max_prio stdlog.targets_
    → let stdlog' = (add_targets env stdlog confs w).1 in
      IsCovered stdlog'.log_max_prio stdlog'.targets_
unfolding add_targets
add_targets-IsCovered env stdlog [] w c = c
add_targets-IsCovered env stdlog (conf ∷ confs) w c =
    let (ret, stdlog', w') = log_add_target env stdlog conf w in
    let one = log_add_target-IsCovered env stdlog conf w c in
    let rest = add_targets-IsCovered env stdlog' confs w' one in
    let covered = λ (l : Log). IsCovered l.log_max_prio l.targets_ in
    elim (Bool-cases (is_zero ret)) [
      | inl ok ↦
          subst
            (λ z. covered (if z then add_targets env stdlog' confs w' else (ret, stdlog', w')).1)
            (sym ok) rest
      | inr bad ↦
          subst
            (λ z. covered (if z then add_targets env stdlog' confs w' else (ret, stdlog', w')).1)
            (sym bad) one
    ]

-- Behind the set-up of main, whatever was configured and whether or not it was accepted, the early
-- return of log_printf leaves out no output: a message is put out by exactly the targets that
-- log_targets_log finds, cut to 149 bytes.
pub log_printf-set_up_log :
    (env : LogEnv) (confs : List Text) (w : World) (p : Prio) (line : Text)
    → let stdlog = (set_up_log env confs w).1 in
      log_printf stdlog p line ≡ log_targets_log stdlog.targets_ p (take 149 line)
unfolding set_up_log log_init
log_printf-set_up_log env [] w p line =
    log_printf-IsCovered _ p line
      (log_add_target-IsCovered env log_init (codes "syslog:3,powersensordaemon,daemon") w tt)
log_printf-set_up_log env (conf ∷ confs) w p line =
    log_printf-IsCovered _ p line (add_targets-IsCovered env log_init (conf ∷ confs) w tt)
