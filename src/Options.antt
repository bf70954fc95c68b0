-- ===== src/Options.antt =====
-- powersensordaemon/options.c and .h: the command line, the files of power ids and sample devices,
-- and the checks after them. options_parse_hex_string and options_print, which nothing calls,
-- options_print_usage, which only prints, options_clear, which only frees, and the option macros
-- that options_parse does not use are not modelled.
pub mod Laws
pub mod Print
pub mod Files
use jk16legacy.Prelude.{
  ℕ, ◌+◌, Bool, true, false, ◌||◌, Option, none, some, List, [], ◌∷◌, ◌==◌, if◌then◌else◌, ℤ, pos,
  negsuc, is_zero, Text, codes, strcmp_eq, strchr, cut_at,
}
use jk16legacy.World.{World, alloc}
use jk16legacy.StringList.{string_list_init, string_list_add}
use jk16legacy.KeyValue.{KeyValueStorage, key_value_storage_init, key_value_storage_add}
use Prim.Native.String.{String}

-- struct options_struct; a null pointer is `none`.
pub record Options : Type 0 where
  pub progname_ : Option Text
  pub daemonize_ : Bool
  pub username_ : Option Text
  pub groupname_ : Option Text
  pub chroot_dir_ : Option Text
  pub pid_file_ : Option Text
  pub log_targets_ : List Text
  pub tty_dev_ : Option Text
  pub command_sock_ : Option Text
  pub powerid_file_ : Option Text
  pub powerids_ : KeyValueStorage
  pub sampledev_file_ : Option Text
  pub sampledevs_ : KeyValueStorage
  pub autosampledevs_ : KeyValueStorage

abbrev option_if : Bool → Text → Option Text
option_if true s = some s
option_if false s = none

unfoldable pub strdup : Text → World → Option Text × World
unfolding alloc
strdup s w = let (ok, w') = alloc w in (option_if ok s, w')

-- The three copies of options_default are not checked.
unfoldable pub options_default : World → Options × World
unfolding strdup key_value_storage_init string_list_init
options_default w =
    let (progname, w1) = strdup (codes "powersensordaemon") w in
    let (tty_dev, w2) = strdup (codes "/dev/ttyUSB0") w1 in
    let (command_sock, w3) = strdup (codes "/var/run/powersensordaemon/cmd.sock") w2 in
    (
      record {
        progname_ = progname;
        daemonize_ = true;
        username_ = none;
        groupname_ = none;
        chroot_dir_ = none;
        pid_file_ = none;
        log_targets_ = string_list_init;
        tty_dev_ = tty_dev;
        command_sock_ = command_sock;
        powerid_file_ = none;
        powerids_ = key_value_storage_init;
        sampledev_file_ = none;
        sampledevs_ = key_value_storage_init;
        autosampledevs_ = key_value_storage_init;
      },
      w3,
    )

-- The options with a string: the uses of PARSE_STRING_PARAM.
pub data StringParam : Type 0 where
  username groupname chroot write_pid device socket powerid_file sampledev_file : StringParam

-- What a word of the command line asks for.
pub data Switch : Type 0 where
  help nodaemonize log_target autosampledev unknown : Switch
  string_param : StringParam → Switch

abbrev is_option : Text → String → String → Bool
is_option word short long = strcmp_eq word (codes short) || strcmp_eq word (codes long)

-- The chain of tests in options_parse.
pub switch_of : Text → Switch
unfolding strcmp_eq
switch_of word =
    if is_option word "-h" "--help"
    then help
    else if is_option word "-D" "--nodaemonize"
    then nodaemonize
    else if is_option word "-u" "--username"
    then string_param username
    else if is_option word "-g" "--groupname"
    then string_param groupname
    else if is_option word "-C" "--chroot"
    then string_param chroot
    else if is_option word "-P" "--write-pid"
    then string_param write_pid
    else if is_option word "-L" "--log"
    then log_target
    else if is_option word "-d" "--device"
    then string_param device
    else if is_option word "-s" "--socket"
    then string_param socket
    else if is_option word "-p" "--powerid-file"
    then string_param powerid_file
    else if is_option word "-a" "--sampledev-file"
    then string_param sampledev_file
    else if is_option word "-A" "--autosampledev"
    then autosampledev
    else unknown

abbrev pub set_param : StringParam → Option Text → Options → Options
set_param username v o = record o { username_ = v }
set_param groupname v o = record o { groupname_ = v }
set_param chroot v o = record o { chroot_dir_ = v }
set_param write_pid v o = record o { pid_file_ = v }
set_param device v o = record o { tty_dev_ = v }
set_param socket v o = record o { command_sock_ = v }
set_param powerid_file v o = record o { powerid_file_ = v }
set_param sampledev_file v o = record o { sampledev_file_ = v }

-- What a run of the loop does: it returns a value, or goes on, past the next word too if it has
-- used that one.
pub data ArgStep : Type 0 where
  stop : ℤ → Options → World → ArgStep
  go_on : Bool → Options → World → ArgStep

-- argv[i+1], where the option may use it: it is there and does not begin with a dash.
pub value_arg : List Text → Option Text
value_arg [] = none
value_arg ([] ∷ args) = some []
value_arg ((c ∷ s) ∷ args) = if c == b'-' then none else some (c ∷ s)

pub copied_param : StringParam → Options → Option Text → World → ArgStep
copied_param p o none w = stop (negsuc 1) (set_param p none o) w
copied_param p o (some s) w = go_on true (set_param p (some s) o) w

-- PARSE_STRING_PARAM at word i
pub parse_string_param : ℕ → StringParam → Option Text → Options → World → ArgStep
unfolding strdup copied_param
parse_string_param i p none o w = stop (pos i) o w
parse_string_param i p (some v) o w = let (copy, w') = strdup v w in copied_param p o copy w'

abbrev is_minus_two : ℤ → Bool
is_minus_two (pos n) = false
is_minus_two (negsuc n) = n == 1

-- PARSE_STRING_LIST at word i
pub parse_string_list : ℕ → Option Text → Options → World → ArgStep
unfolding string_list_add
parse_string_list i none o w = stop (pos i) o w
parse_string_list i (some v) o w =
    let (ret, list, w') = string_list_add o.log_targets_ v w in
    let o' = record o { log_targets_ = list } in
    if is_minus_two ret
    then stop ret o' w'
    else if is_zero ret
    then go_on true o' w'
    else stop (pos (i + 1)) o' w'

-- PARSE_KEY_VALUE at word i, from the first comma of the value on
pub parse_key_value : ℕ → Text → Option Text → Options → World → ArgStep
unfolding key_value_storage_add cut_at
parse_key_value i arg none o w = stop (pos (i + 1)) o w
parse_key_value i arg (some []) o w = stop (pos (i + 1)) o w
parse_key_value i arg (some (c ∷ [])) o w = stop (pos (i + 1)) o w
parse_key_value i arg (some (c ∷ v ∷ vs)) o w =
    let (ret, kv, w') = key_value_storage_add o.autosampledevs_ (cut_at arg b',') (v ∷ vs) w in
    let o' = record o { autosampledevs_ = kv } in
    if is_zero ret then go_on true o' w' else stop (negsuc 1) o' w'

pub parse_autosampledev : ℕ → Option Text → Options → World → ArgStep
unfolding strchr parse_key_value
parse_autosampledev i none o w = stop (pos i) o w
parse_autosampledev i (some v) o w = parse_key_value i v (strchr v b',') o w

pub parse_switch : ℕ → Switch → Option Text → Options → World → ArgStep
unfolding parse_string_param parse_string_list parse_autosampledev
parse_switch i help v o w = stop (negsuc 0) o w
parse_switch i nodaemonize v o w = go_on false (record o { daemonize_ = false }) w
parse_switch i log_target v o w = parse_string_list i v o w
parse_switch i autosampledev v o w = parse_autosampledev i v o w
parse_switch i unknown v o w = stop (pos i) o w
parse_switch i (string_param p) v o w = parse_string_param i p v o w

-- The loop of options_parse from word i on; `used`: word i has been used by the option before it.
pub parse_args : ℕ → Bool → List Text → Options → World → ℤ × Options × World
unfolding switch_of value_arg parse_switch
parse_args i used [] o w = (pos 0, o, w)
parse_args i true (word ∷ args) o w = parse_args (i + 1) false args o w
parse_args i false (word ∷ args) o w = elim (parse_switch i (switch_of word) (value_arg args) o w) [
  | stop ret o' w' ↦ (ret, o', w')
  | go_on used o' w' ↦ parse_args (i + 1) used args o' w'
]

pub named_parse : Option Text → List Text → Options → World → ℤ × Options × World
unfolding parse_args
named_parse none args o w = (negsuc 1, record o { progname_ = none }, w)
named_parse (some s) args o w = parse_args 1 false args (record o { progname_ = some s }) w

-- The words of the command line are argv[0] and `args`.
unfoldable pub options_parse : Text → List Text → World → ℤ × Options × World
unfolding options_default strdup named_parse
options_parse argv0 args w =
    let (o, w1) = options_default w in
    let (progname, w2) = strdup argv0 w1 in named_parse progname args o w2
