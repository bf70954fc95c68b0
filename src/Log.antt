-- ===== src/Log.antt =====
-- powersensordaemon/log.c, log.h and log_targets.h. The table of the syslog facilities, which files
-- fopen can open and the text that vsnprintf makes of a message are parameters. The text
-- of a line is in Log.Lines, and log_print_hex_dump in Log.HexDump. The clear functions of the
-- targets, which only free, are not modelled.
pub mod Output
pub mod Laws
pub mod Shortcut
pub mod Lines
pub mod HexDump
use jk16legacy.Prelude.{
  ℕ, ◌-◌, Bool, true, false, ◌&&◌, ◌||◌, not, Option, none, some, List, [], ◌∷◌, ltb, ◌==◌,
  if◌then◌else◌, ℤ, pos, negsuc, is_zero, Text, codes, strcmp_eq, strncmp_eq, strchr, cut_at,
  isdigit,
}
use jk16legacy.World.{Prio, error, warning, notice, info, debug, World, alloc}
use Prim.Native.String.{String}

-- enum log_target_type_enum without TARGET_UNKNOWN
pub data TargetType : Type 0 where
  target_syslog target_stdout target_stderr target_file : TargetType

-- What param_ points to: nothing, a name and a facility, or the name of a file.
pub data TargetParam : Type 0 where
  no_param : TargetParam
  syslog_param : Text → ℕ → TargetParam
  file_param : Text → TargetParam

-- struct log_target_struct; the functions it points to follow from its type.
pub record LogTarget : Type 0 where
  pub type_ : TargetType
  pub opened_ : Bool
  pub enabled_ : Bool
  pub max_prio_ : ℕ
  pub param_ : TargetParam

pub prio_number : Prio → ℕ
prio_number error = 1
prio_number warning = 2
prio_number notice = 3
prio_number info = 4
prio_number debug = 5

unfoldable pub log_prio_to_string : Prio → Text
log_prio_to_string error = codes "ERROR"
log_prio_to_string warning = codes "WARNING"
log_prio_to_string notice = codes "NOTICE"
log_prio_to_string info = codes "INFO"
log_prio_to_string debug = codes "DEBUG"

-- `none` is TARGET_UNKNOWN.
pub log_target_parse_type : Text → Option TargetType
unfolding strncmp_eq
log_target_parse_type conf =
    if strncmp_eq conf (codes "syslog") 6
    then some target_syslog
    else if strncmp_eq conf (codes "file") 4
    then some target_file
    else if strncmp_eq conf (codes "stdout") 6
    then some target_stdout
    else if strncmp_eq conf (codes "stderr") 6
    then some target_stderr
    else none

abbrev pub type_eq : TargetType → TargetType → Bool
type_eq target_syslog target_syslog = true
type_eq target_stdout target_stdout = true
type_eq target_stderr target_stderr = true
type_eq target_file target_file = true
type_eq a b = false

pub log_targets_target_exists : List LogTarget → TargetType → Bool
log_targets_target_exists [] type = false
log_targets_target_exists (t ∷ ts) type = type_eq t.type_ type || log_targets_target_exists ts type

-- log_target_syslog_new, log_target_file_new, log_target_stdout_new, log_target_stderr_new
pub log_target_new : TargetType → LogTarget
unfolding prio_number
log_target_new type = record {
  type_ = type;
  opened_ = false;
  enabled_ = false;
  max_prio_ = prio_number notice;
  param_ = no_param;
}

abbrev pub is_repeatable : TargetType → Bool
is_repeatable target_syslog = false
is_repeatable target_stdout = false
is_repeatable target_stderr = false
is_repeatable target_file = true

-- The name at the head of a configuration, which must not be empty: up to a comma.
name_of : Text → Option Text
unfolding cut_at
name_of [] = none
name_of (c ∷ conf) = if c == b',' then none else some (cut_at (c ∷ conf) b',')

-- The entry of the table with a name.
find_facility : List (Text × ℕ) → Text → Option ℕ
unfolding strcmp_eq
find_facility [] name = none
find_facility ((n, v) ∷ table) name = if strcmp_eq name n then some v else find_facility table name

-- What an init function returns, and what it leaves in param_.
abbrev pub InitResult : Type 0
InitResult = ℤ × TargetParam

abbrev found_facility : Text → Option ℕ → InitResult
found_facility name none = (negsuc 0, no_param)
found_facility name (some v) = (pos 0, syslog_param name v)

-- From the first comma of the configuration of a syslog target on.
syslog_facility : List (Text × ℕ) → ℕ → Text → Option Text → InitResult
unfolding find_facility cut_at
syslog_facility table daemon name none = (pos 0, syslog_param name daemon)
syslog_facility table daemon name (some []) = (negsuc 0, no_param)
syslog_facility table daemon name (some (c ∷ [])) = (negsuc 0, no_param)
syslog_facility table daemon name (some (c ∷ d ∷ facility)) =
    if d == b','
    then (negsuc 0, no_param)
    else found_facility name (find_facility table (cut_at (d ∷ facility) b','))

-- The two allocations of an init function, of the parameter and of the name. A name that is empty
-- is refused between the two.
with_name : Option Text → (Text → InitResult) → World → InitResult × World
unfolding alloc
with_name none f w =
    let (got_param, w1) = alloc w in ((if got_param then negsuc 0 else negsuc 1, no_param), w1)
with_name (some name) f w =
    let (got_param, w1) = alloc w in
    let (got_name, w2) = alloc w1 in
    if got_param
    then (if got_name then (f name, w2) else ((negsuc 1, no_param), w2))
    else ((negsuc 1, no_param), w1)

-- log_target_syslog_init; a configuration that is missing is `none`.
log_target_syslog_init : List (Text × ℕ) → ℕ → Option Text → World → InitResult × World
unfolding with_name name_of syslog_facility strchr
log_target_syslog_init table daemon none w =
    with_name (some (codes "uanytun")) (λ name. (pos 0, syslog_param name daemon)) w
log_target_syslog_init table daemon (some []) w = ((negsuc 0, no_param), w)
log_target_syslog_init table daemon (some (c ∷ conf)) w =
    with_name (name_of (c ∷ conf))
      (λ name. syslog_facility table daemon name (strchr (c ∷ conf) b',')) w

log_target_file_init : Option Text → World → InitResult × World
unfolding with_name name_of
log_target_file_init none w =
    with_name (some (codes "uanytun.log")) (λ name. (pos 0, file_param name)) w
log_target_file_init (some []) w = ((negsuc 0, no_param), w)
log_target_file_init (some (c ∷ conf)) w =
    with_name (name_of (c ∷ conf)) (λ name. (pos 0, file_param name)) w

-- What the log functions find outside: the table of facilities, LOG_DAEMON, and which files open.
pub record LogEnv : Type 0 where
  pub facilitynames : List (Text × ℕ)
  pub log_daemon : ℕ
  pub can_open : Text → Bool

-- init of a target; one without it does nothing.
pub init_target : LogEnv → TargetType → Option Text → World → InitResult × World
unfolding log_target_syslog_init log_target_file_init
init_target env target_syslog conf w =
    log_target_syslog_init env.facilitynames env.log_daemon conf w
init_target env target_file conf w = log_target_file_init conf w
init_target env target_stdout conf w = ((pos 0, no_param), w)
init_target env target_stderr conf w = ((pos 0, no_param), w)

-- open of a target
pub target_open : LogEnv → LogTarget → LogTarget
target_open env t = elim t.param_ [
  | no_param ↦ t
  | syslog_param name facility ↦ record t { opened_ = true }
  | file_param name ↦ record t { opened_ = env.can_open name }
]

-- Hang the new target behind the last one.
pub target_link : List LogTarget → LogTarget → List LogTarget
target_link [] t = t ∷ []
target_link (u ∷ ts) t = u ∷ target_link ts t

-- From the priority on: the digit, and the configuration behind the comma that follows it.
pub parse_prio : Option Text → Option (ℕ × Option Text)
unfolding isdigit
parse_prio none = none
parse_prio (some []) = none
parse_prio (some (c ∷ [])) = none
parse_prio (some (c ∷ d ∷ [])) = if isdigit d then some (d - b'0', none) else none
parse_prio (some (c ∷ d ∷ e ∷ conf)) =
    if isdigit d && e == b',' then some (d - b'0', some conf) else none

pub add_inited :
    LogEnv → List LogTarget → LogTarget → InitResult × World → ℤ × List LogTarget × World
unfolding target_open target_link
add_inited env targets t ((ret, param), w) =
    if is_zero ret
    then (pos 0, target_link targets (target_open env (record t { param_ = param })), w)
    else (ret, targets, w)

pub add_with_prio :
    LogEnv
    → List LogTarget
    → TargetType
    → Option (ℕ × Option Text)
    → World
    → ℤ × List LogTarget × World
unfolding add_inited init_target log_target_new
add_with_prio env targets type none w = (negsuc 0, targets, w)
add_with_prio env targets type (some (prio, conf)) w =
    add_inited env targets
      (record (log_target_new type) { max_prio_ = prio; enabled_ = ltb 0 prio })
      (init_target env type conf w)

pub add_of_type :
    LogEnv → List LogTarget → Option TargetType → Text → World → ℤ × List LogTarget × World
unfolding alloc log_targets_target_exists parse_prio strchr add_with_prio
add_of_type env targets none conf w = (negsuc 2, targets, w)
add_of_type env targets (some type) conf w =
    let (ok, w1) = alloc w in
    if not ok
    then (negsuc 1, targets, w1)
    else if not (is_repeatable type) && log_targets_target_exists targets type
    then (negsuc 3, targets, w1)
    else add_with_prio env targets type (parse_prio (strchr conf b':')) w1

pub log_targets_add : LogEnv → List LogTarget → Text → World → ℤ × List LogTarget × World
unfolding add_of_type log_target_parse_type
log_targets_add env targets conf w = add_of_type env targets (log_target_parse_type conf) conf w
