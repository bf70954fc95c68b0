-- ===== src/Autosample.antt =====
-- powersensordaemon/autosample.c and .h: the process that asks for samples. What select, read and
-- signal_handle return in a run of its loop is the record `AutoRound`. start_autosample_process is in
-- Startup.Fork.
pub mod Laws
pub mod Loop
use jk16legacy.Prelude.{
  ℕ, ◌+◌, Bool, true, ◌&&◌, not, Option, none, some, List, [], ◌∷◌, ◌++◌, leb, ◌==◌, if◌then◌else◌,
  ℤ, pos, negsuc, Text, codes, atoi,
}
use jk16legacy.World.{error, warning, notice, debug, str, World, log_event, alloc}
use jk16legacy.CommandQueue.{sample}
use jk16legacy.KeyValue.{KeyValueStorage, key_value_storage_length}
use jk16legacy.Daemon.Send.{put_written, response_loop}
use jk16legacy.Daemon.MainLoop.{SelectOutcome, ready, timed_out, select_interrupted, select_failed}
use jk16legacy.Daemon.MainLoop.Body.{returned}
use Prim.Native.String.{String}

-- struct autosample_device_struct
pub record AutosampleDevice : Type 0 where
  pub delay_ : ℤ
  pub cnt_ : ℕ
  pub device_name_ : Text

-- What asprintf prints for send_sample_cmd.
abbrev pub sample_message : Text → Text
sample_message device_name = codes "sample " ++ (device_name ++ (b'\n' ∷ []))

-- send_sample_cmd writes its message with the same loop as send_response, and ends at one byte
-- before the end, too. No caller passes a null name.
pub send_sample_cmd : ℕ → Text → World → ℤ × World
unfolding alloc response_loop
send_sample_cmd fd device_name w =
    let (ok, w1) = alloc w in
    if ok
    then put_written w1 (response_loop w1.writes fd (sample_message device_name) 0 w1.trace)
    else (negsuc 0, w1)

-- cnt >= delay, for an int `delay`
abbrev pub reaches : ℕ → ℤ → Bool
reaches cnt (pos n) = leb n cnt
reaches cnt (negsuc n) = true

pub is_due : AutosampleDevice → Bool
is_due d = reaches (d.cnt_ + 1) d.delay_

-- What a time-out does with the counter of a device.
pub advance : AutosampleDevice → AutosampleDevice
unfolding is_due
advance d = record d { cnt_ = if is_due d then 0 else d.cnt_ + 1 }

abbrev pub is_enabled : ℕ → Bool
is_enabled b = not (b == 0)

pub tick_device : ℕ → ℕ → AutosampleDevice → World → World
unfolding is_due log_event send_sample_cmd
tick_device writefd sample_enabled d w =
    let w1 =
      log_event debug "autosample send sample command for '%s'" (str d.device_name_ ∷ []) w in
    if is_due d && is_enabled sample_enabled
    then (send_sample_cmd writefd d.device_name_ w1).1
    else w

-- if(!ret) …: the loop over the devices after a time-out.
pub tick : ℕ → ℕ → List AutosampleDevice → World → List AutosampleDevice × World
unfolding advance tick_device
tick writefd sample_enabled [] w = ([], w)
tick writefd sample_enabled (d ∷ ds) w =
    let (rest, w') = tick writefd sample_enabled ds (tick_device writefd sample_enabled d w) in
    (advance d ∷ rest, w')

-- What a read of one byte from the pipe returns.
pub data SwitchRead : Type 0 where
  switched : ℕ → SwitchRead
  at_end switch_interrupted switch_failed : SwitchRead

-- do { ret = read(readfd, &sample_enabled, 1); } while(!ret || (ret == -1 && errno == EINTR));
-- The list holds what the calls return; the last one is repeated. `none`: it does not end.
pub read_switch : List SwitchRead → ℕ → Option ℕ
read_switch [] enabled = none
read_switch (switched b ∷ rs) enabled = some b
read_switch (at_end ∷ rs) enabled = read_switch rs enabled
read_switch (switch_interrupted ∷ rs) enabled = read_switch rs enabled
read_switch (switch_failed ∷ rs) enabled = some enabled

pub record AutoRound : Type 0 where
  pub select : SelectOutcome
  pub switch_ready : Bool
  pub switches : List SwitchRead
  pub sig_ready : Bool
  pub signalled : Bool
  pub strerror : Text

-- The variables of autosample_process.
pub record AutoState : Type 0 where
  pub devices : List AutosampleDevice
  pub sample_enabled : ℕ
  pub world : World

-- How a run of the loop ends: with another run, with a return value, or not at all.
pub data AutoFlow : Type 0 where
  next_round : AutoState → AutoFlow
  ended : ℤ → AutoState → AutoFlow
  blocked : AutoFlow

abbrev on_off : ℕ → Text
on_off b = if b == 0 then codes "disabled" else codes "enabled"

-- if(FD_ISSET(sig_fd, &tmpfds)) …
pub auto_signal_part : AutoRound → AutoState → AutoFlow
auto_signal_part r s = if r.sig_ready && r.signalled then ended (pos 1) s else next_round s

pub auto_switched : AutoRound → Option ℕ → AutoState → AutoFlow
unfolding auto_signal_part log_event
auto_switched r none s = blocked
auto_switched r (some b) s = auto_signal_part r (record s {
  sample_enabled = b;
  world = log_event notice "autosample %s" (str (on_off b) ∷ []) s.world;
})

-- if(FD_ISSET(readfd, &tmpfds)) … and what follows it
pub auto_switch_part : AutoRound → AutoState → AutoFlow
unfolding auto_switched auto_signal_part read_switch
auto_switch_part r s =
    if r.switch_ready
    then auto_switched r (read_switch r.switches s.sample_enabled) s
    else auto_signal_part r s

-- A run of the loop of autosample_process. A time-out leaves no descriptor set.
pub auto_select : ℕ → AutoRound → SelectOutcome → AutoState → AutoFlow
unfolding tick auto_switch_part log_event
auto_select writefd r select_failed s = ended (negsuc 2) (record s {
  world =
      log_event error "autosample process select returned with error: %s" (str r.strerror ∷ [])
        s.world;
})
auto_select writefd r select_interrupted s = next_round s
auto_select writefd r timed_out s =
    let (ds, w) = tick writefd s.sample_enabled s.devices s.world in
    next_round (record s { devices = ds; world = w })
auto_select writefd r ready s = auto_switch_part r s

pub auto_run : ℕ → AutoRound → AutoState → AutoFlow
unfolding auto_select
auto_run writefd r s = auto_select writefd r r.select s

pub auto_proceed : (AutoState → AutoFlow) → AutoFlow → AutoFlow
auto_proceed k (next_round s) = k s
auto_proceed k (ended r s) = ended r s
auto_proceed k blocked = blocked

-- The loop over the runs that the list describes.
pub auto_runs : ℕ → List AutoRound → AutoState → AutoFlow
unfolding auto_run auto_proceed
auto_runs writefd [] s = next_round s
auto_runs writefd (r ∷ rs) s = auto_proceed (auto_runs writefd rs) (auto_run writefd r s)

-- The array of devices, from the storage of the options.
pub make_devices : List Text → List Text → List AutosampleDevice
unfolding atoi
make_devices [] vs = []
make_devices (k ∷ ks) [] = []
make_devices (k ∷ ks) (v ∷ vs) =
    record { delay_ = atoi v; cnt_ = 0; device_name_ = k } ∷ make_devices ks vs

abbrev start_state : List AutosampleDevice → World → AutoState
start_state ds w = record { devices = ds; sample_enabled = 0; world = w }

auto_start : ℕ → Bool → List AutoRound → KeyValueStorage → World → AutoFlow
unfolding auto_runs make_devices
auto_start writefd allocated rs devs w =
    if allocated
    then auto_runs writefd rs (start_state (make_devices devs.keys_ devs.values_) w)
    else ended (negsuc 2)
        (start_state [] (log_event warning "autosample memory error, exiting" [] w))

-- autosample_process, for a successful signal_init, over some runs of its loop.
unfoldable autosample_process : ℕ → List AutoRound → KeyValueStorage → World → AutoFlow
unfolding auto_start alloc log_event key_value_storage_length
autosample_process writefd rs devs w =
    let w1 = log_event notice "autosample process just started" [] w in
    let (ok, w2) = alloc w1 in
    if key_value_storage_length devs == 0
    then ended (pos 0)
        (start_state [] (log_event warning "autosample no devices to sample, exiting" [] w1))
    else auto_start writefd ok rs devs w2
