-- ===== src/Log/Output.antt =====
-- powersensordaemon/log.c: what the targets put out, stdlog, and its set-up by main.
use jk16legacy.Prelude.{
  ℕ, ◌-◌, Bool, true, ◌&&◌, ◌||◌, Option, none, some, List, [], ◌∷◌, ◌++◌, ltb, leb, if◌then◌else◌,
  ℤ, pos, is_zero, take, Text, codes,
}
use jk16legacy.World.{Prio, World}
use jk16legacy.Log.{
  target_stdout, target_stderr, no_param, syslog_param, file_param, LogTarget, prio_number, type_eq,
  LogEnv, log_targets_add,
}

-- A message that a target has put out: with its target, its priority and its text.
pub record Output : Type 0 where
  pub target : LogTarget
  pub prio : Prio
  pub msg : Text

-- log of a target: a syslog or file target must be open.
target_log : LogTarget → Prio → Text → List Output
target_log t prio msg =
    let line : Output = record { target = t; prio = prio; msg = msg } in
    elim t.param_ [
      | no_param ↦
          (if type_eq t.type_ target_stdout || type_eq t.type_ target_stderr then line ∷ [] else [])
      | syslog_param name facility ↦ (if t.opened_ then line ∷ [] else [])
      | file_param name ↦ (if t.opened_ then line ∷ [] else [])
    ]

unfoldable pub log_targets_log : List LogTarget → Prio → Text → List Output
unfolding target_log prio_number
log_targets_log [] prio msg = []
log_targets_log (t ∷ ts) prio msg =
    (if t.enabled_ && leb (prio_number prio) t.max_prio_ then target_log t prio msg else [])
    ++ log_targets_log ts prio msg

-- close of a target: fclose is called for a file target that is not open, too, with a null pointer,
-- which C leaves undefined.
can_close : LogTarget → Bool
can_close t = elim t.param_ [
  | no_param ↦ true
  | syslog_param name facility ↦ true
  | file_param name ↦ t.opened_
]

-- `none`: undefined behaviour.
log_targets_clear : List LogTarget → Option (List LogTarget)
unfolding can_close
log_targets_clear [] = some []
log_targets_clear (t ∷ ts) = let rest = log_targets_clear ts in if can_close t then rest else none

-- struct log_struct
pub record Log : Type 0 where
  pub log_max_prio : ℕ
  pub targets_ : List LogTarget

unfoldable pub log_init : Log
log_init = record { log_max_prio = 0; targets_ = [] }

unfoldable pub raise_max_prio : List LogTarget → ℕ → ℕ
raise_max_prio [] prio = prio
raise_max_prio (t ∷ ts) prio =
    raise_max_prio ts (if t.enabled_ && ltb prio t.max_prio_ then t.max_prio_ else prio)

unfoldable pub update_max_prio : Log → Log
unfolding raise_max_prio
update_max_prio stdlog = record stdlog {
  log_max_prio = raise_max_prio stdlog.targets_ stdlog.log_max_prio;
}

unfoldable pub log_add_target : LogEnv → Log → Text → World → ℤ × Log × World
unfolding log_targets_add update_max_prio
log_add_target env stdlog conf w =
    let (ret, targets, w') = log_targets_add env stdlog.targets_ conf w in
    let stdlog' = record stdlog { targets_ = targets } in
    (ret, if is_zero ret then update_max_prio stdlog' else stdlog', w')

-- MSG_LENGTH_MAX
abbrev pub msg_length_max : ℕ
msg_length_max = 150

-- log_printf; `line` is what the format and its arguments make.
unfoldable pub log_printf : Log → Prio → Text → List Output
unfolding log_targets_log prio_number
log_printf stdlog prio line =
    if ltb stdlog.log_max_prio (prio_number prio)
    then []
    else log_targets_log stdlog.targets_ prio (take (msg_length_max - 1) line)

unfoldable log_close : Log → Option Log
unfolding log_targets_clear
log_close stdlog = elim (log_targets_clear stdlog.targets_) [
  | none ↦ none
  | some ts ↦ some (record stdlog { targets_ = ts })
]

-- The loop of main over the configured targets; it ends at the first that is refused.
unfoldable pub add_targets : LogEnv → Log → List Text → World → ℤ × Log × World
unfolding log_add_target
add_targets env stdlog [] w = (pos 0, stdlog, w)
add_targets env stdlog (conf ∷ confs) w =
    let (ret, stdlog', w') = log_add_target env stdlog conf w in
    let rest = add_targets env stdlog' confs w' in if is_zero ret then rest else (ret, stdlog', w')

-- The targets that main sets up: a single one where none is configured.
unfoldable pub set_up_log : LogEnv → List Text → World → ℤ × Log × World
unfolding add_targets log_init
set_up_log env [] w =
    let (_, stdlog, w') =
      log_add_target env log_init (codes "syslog:3,powersensordaemon,daemon") w in
    (pos 0, stdlog, w')
set_up_log env (conf ∷ confs) w = add_targets env log_init (conf ∷ confs) w
