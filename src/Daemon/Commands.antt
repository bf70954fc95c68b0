-- ===== src/Daemon/Commands.antt =====
-- powersensordaemon.c: process_cmd. The pointers cmd and cmd_q are never null where it is called.
pub mod Laws
pub mod Parse
pub mod LookUps
pub mod Effects
use jk16legacy.Prelude.{
  ℕ, Bool, true, false, Option, none, some, List, [], ◌∷◌, ◌++◌, if◌then◌else◌, ℤ, pos, is_zero,
  set, drop, Text, codes, or_null, c_str, strncmp_eq, strchr, cut_at,
}
use jk16legacy.World.{error, warning, notice, debug, str, num, World, log_event, alloc}
use jk16legacy.CommandQueue.{CmdId, power_on, power_off, sample, log, listen, Cmd, cmd_push}
use jk16legacy.ClientList.{Client, client_find, client_update}
use jk16legacy.KeyValue.{KeyValueStorage, key_value_storage_find}
use jk16legacy.Daemon.Send.{send_response, send_to_listeners, is_sendable}
use Prim.Native.String.{String}

-- What process_cmd reads of options_t.
pub record Devices : Type 0 where
  pub powerids_ : KeyValueStorage
  pub sampledevs_ : KeyValueStorage

-- What the functions of the daemon change: cmd_q, client_lst, and the world.
pub record Shared : Type 0 where
  pub cmd_q : List Cmd
  pub client_lst : List Client
  pub world : World

abbrev pub in_world : (World → World) → Shared → Shared
in_world f s = record s { world = f s.world }

-- The chain of strncmp at the head of process_cmd.
unfoldable pub identify : Text → Option CmdId
identify cmd =
    if strncmp_eq cmd (codes "power on") 8
    then some power_on
    else if strncmp_eq cmd (codes "power off") 9
    then some power_off
    else if strncmp_eq cmd (codes "sample") 6
    then some sample
    else if strncmp_eq cmd (codes "log") 3
    then some CmdId.log
    else if strncmp_eq cmd (codes "listen") 6
    then some listen
    else none

-- cmd[5] = '_' for the two power commands, in the memory of the line.
unfoldable pub underscore : CmdId → List ℕ → List ℕ
underscore power_on m = set m 5 b'_'
underscore power_off m = set m 5 b'_'
underscore sample m = m
underscore CmdId.log m = m
underscore listen m = m

-- param = strchr(cmd, ' '); if(param) param++;
unfoldable pub param_of : Text → Option Text
param_of cmd = elim (strchr cmd b' ') [ none ↦ none | some s ↦ some (drop 1 s) ]

-- What follows a look-up: an unknown name is answered and logged, and leaves a null parameter.
pub check_found : String → String → ℕ → Option Text → Option Text → World → Option Text × World
unfolding log_event
check_found answer warn fd param none w = (
  none,
  log_event warning warn (str (or_null param) ∷ num fd ∷ []) (send_response fd (codes answer) w).1,
)
check_found answer warn fd param (some v) w = (some v, w)

-- The two look-ups: the parameter, and the world with the answer to an unknown one.
look_up : KeyValueStorage → String → String → ℕ → Option Text → World → Option Text × World
unfolding check_found
look_up stor answer warn fd param w =
    check_found answer warn fd param (key_value_storage_find stor param) w

pub find_param : Devices → CmdId → ℕ → Option Text → World → Option Text × World
unfolding look_up
find_param opt power_on fd param w =
    look_up opt.powerids_ "Error: invalid power id" "invalid power id '%s' in command from %d" fd
      param w
find_param opt power_off fd param w =
    look_up opt.powerids_ "Error: invalid power id" "invalid power id '%s' in command from %d" fd
      param w
find_param opt sample fd param w =
    look_up opt.sampledevs_ "Error: invalid sample device"
      "invalid sample device '%s' in command from %d" fd param w
find_param opt CmdId.log fd param w = (param, w)
find_param opt listen fd param w = (param, w)

-- The notice to the request listeners, which a failed asprintf skips.
pub notify_request : ℕ → Text → List Client → World → World
unfolding alloc
notify_request fd cmd clients w =
    let (got, w') = alloc w in
    if got
    then send_to_listeners (λ c. c.request_listener) "request" (some fd)
        (cut_at (codes "Request: " ++ cmd) b'\n') clients w'
    else w'

-- case POWER_ON, POWER_OFF, SAMPLE
pub enqueue : CmdId → ℕ → Text → Option Text → Shared → ℤ × Shared
unfolding log_event
enqueue id fd cmd param s =
    let (ret, q, w) = cmd_push s.cmd_q fd id param s.world in
    (
      ret,
      record s {
        cmd_q = q;
        world = if is_zero ret then log_event notice "command: %s" (str cmd ∷ []) w else w;
      },
    )

-- case LOG
log_message : Option Text → World → World
unfolding log_event
log_message none w = log_event debug "ignoring empty ext log message" [] w
log_message (some []) w = log_event debug "ignoring empty ext log message" [] w
log_message (some (b ∷ bs)) w = log_event notice "ext msg: %s" (str (b ∷ bs) ∷ []) w

abbrev all_listeners : Bool → Client → Client
all_listeners on c = record c {
  request_listener = on;
  error_listener = on;
  sensor_listener = on;
  movement_listener = on;
  button_listener = on;
}

-- What a line can ask for in case LISTEN.
pub data Subscription : Type 0 where
  subscribe_all subscribe_none subscribe_request subscribe_error : Subscription
  subscribe_sensor subscribe_movement subscribe_button : Subscription

-- The chain of strncmp of case LISTEN; `none` for an unknown type.
unfoldable pub listen_change : Option Text → Option Subscription
listen_change none = some subscribe_all
listen_change (some p) =
    if strncmp_eq p (codes "all") 3
    then some subscribe_all
    else if strncmp_eq p (codes "none") 4
    then some subscribe_none
    else if strncmp_eq p (codes "request") 7
    then some subscribe_request
    else if strncmp_eq p (codes "error") 5
    then some subscribe_error
    else if strncmp_eq p (codes "sensor") 6
    then some subscribe_sensor
    else if strncmp_eq p (codes "movement") 8
    then some subscribe_movement
    else if strncmp_eq p (codes "button") 6
    then some subscribe_button
    else none

-- What each branch of that chain does to the client.
pub apply_subscription : Subscription → Client → Client
apply_subscription subscribe_all c = all_listeners true c
apply_subscription subscribe_none c = all_listeners false c
apply_subscription subscribe_request c = record c { request_listener = true }
apply_subscription subscribe_error c = record c { error_listener = true }
apply_subscription subscribe_sensor c = record c { sensor_listener = true }
apply_subscription subscribe_movement c = record c { movement_listener = true }
apply_subscription subscribe_button c = record c { button_listener = true }

abbrev or_all : Option Text → Text
or_all none = codes "all"
or_all (some p) = p

-- What case LISTEN does once the client is found.
pub apply_listen : ℕ → Option Text → Option Subscription → Shared → Shared
unfolding log_event apply_subscription
apply_listen fd param none s =
    in_world (log_event debug "unkown listener type '%s'" (str (or_null param) ∷ [])) s
apply_listen fd param (some k) s = record s {
  client_lst = client_update (apply_subscription k) s.client_lst fd;
  world =
      log_event debug "listener %d requests %s messages" (num fd ∷ str (or_all param) ∷ []) s.world;
}

-- case LISTEN
pub subscribe : ℕ → Option Text → Shared → Shared
unfolding apply_listen listen_change
subscribe fd param s = elim (client_find s.client_lst fd) [
  | none ↦ in_world (log_event error "unable to add listener %d" (num fd ∷ [])) s
  | some c ↦ apply_listen fd param (listen_change param) s
]

-- The switch at the end.
pub dispatch : CmdId → ℕ → Text → Option Text → Shared → ℤ × Shared
unfolding enqueue log_message subscribe
dispatch power_on fd cmd param s = enqueue power_on fd cmd param s
dispatch power_off fd cmd param s = enqueue power_off fd cmd param s
dispatch sample fd cmd param s = enqueue sample fd cmd param s
dispatch CmdId.log fd cmd param s = (pos 0, in_world (log_message param) s)
dispatch listen fd cmd param s = (pos 0, subscribe fd param s)

-- What follows the look-ups.
pub notify_and_dispatch : CmdId → ℕ → Text → Option Text → Shared → ℤ × Shared
unfolding dispatch notify_request
notify_and_dispatch id fd cmd param s =
    dispatch id fd cmd param
      (if is_sendable id then in_world (notify_request fd cmd s.client_lst) s else s)

pub process_known : Devices → CmdId → ℕ → Text → Shared → ℤ × Shared
unfolding find_param notify_and_dispatch param_of
process_known opt id fd cmd s =
    let (param, w) = find_param opt id fd (param_of cmd) s.world in
    notify_and_dispatch id fd cmd param (record s { world = w })

-- The returned value, the memory of the line, and the state. `cmd` is that memory on entry.
pub process_identified : Devices → Option CmdId → List ℕ → ℕ → Shared → ℤ × List ℕ × Shared
unfolding process_known underscore log_event
process_identified opt none cmd fd s =
    (pos 0, cmd, in_world (log_event warning "unknown command '%s'" (str (c_str cmd) ∷ [])) s)
process_identified opt (some id) cmd fd s =
    let cmd' = underscore id cmd in
    let (ret, s') = process_known opt id fd (c_str cmd') s in (ret, cmd', s')

pub note_start : ℕ → World → World
unfolding log_event
note_start fd w = log_event debug "processing command from %d" (num fd ∷ []) w

unfoldable pub process_cmd : Devices → List ℕ → ℕ → Shared → ℤ × List ℕ × Shared
unfolding identify process_identified note_start
process_cmd opt cmd fd s =
    process_identified opt (identify (c_str cmd)) cmd fd (in_world (note_start fd) s)
