-- ===== src/Autosample/Loop.antt =====
-- autosample.c: the devices that the process starts with, and how its loop can block.
use jk16legacy.Prelude.{
  ℕ, zero, suc, ◌≡◌, refl, ap, ◌∙◌, true, none, List, [], ◌∷◌, ◌++◌, map, if◌then◌else◌, All, Text,
}
use jk16legacy.World.{Event, World}
use jk16legacy.KeyValue.{KeyValueStorage}
use jk16legacy.Daemon.MainLoop.{ready, timed_out}
use jk16legacy.Options.Files.{is_positive}
use jk16legacy.Options.Files.Checks.{AreChecked}
use jk16legacy.Autosample.{
  AutosampleDevice, advance, SwitchRead, switched, at_end, switch_interrupted, switch_failed,
  read_switch, AutoRound, AutoState, blocked, auto_signal_part, auto_switched, auto_switch_part,
  auto_select, auto_run, make_devices,
}
use jk16legacy.Autosample.Laws.{due_events}

abbrev pub HasPositiveDelay : AutosampleDevice → Type 0
HasPositiveDelay d = is_positive d.delay_ ≡ true

-- The devices of options that passed the checks of options_parse_post have a positive delay.
make_devices-AreChecked :
    (devs : KeyValueStorage) (ks vs : List Text)
    → AreChecked devs ks vs
    → All HasPositiveDelay (make_devices ks vs)
unfolding make_devices
make_devices-AreChecked devs [] vs h = tt
make_devices-AreChecked devs (k ∷ ks) [] h = tt
make_devices-AreChecked devs (k ∷ ks) (v ∷ vs) h =
    let (found, rate, rest) = h in (rate, make_devices-AreChecked devs ks vs rest)

-- Neither a byte nor an error other than EINTR comes from the pipe.
abbrev IsSilent : List SwitchRead → Type 0
IsSilent [] = Unit
IsSilent (switched b ∷ rs) = ⊥
IsSilent (at_end ∷ rs) = IsSilent rs
IsSilent (switch_interrupted ∷ rs) = IsSilent rs
IsSilent (switch_failed ∷ rs) = ⊥

read_switch-IsSilent :
    (rs : List SwitchRead) (enabled : ℕ) → IsSilent rs → read_switch rs enabled ≡ none
unfolding read_switch
read_switch-IsSilent [] enabled h = refl
read_switch-IsSilent (switched b ∷ rs) enabled h = elim h [ ]
read_switch-IsSilent (at_end ∷ rs) enabled h = read_switch-IsSilent rs enabled h
read_switch-IsSilent (switch_interrupted ∷ rs) enabled h = read_switch-IsSilent rs enabled h
read_switch-IsSilent (switch_failed ∷ rs) enabled h = elim h [ ]

-- Where the pipe from the daemon is ready because it is closed, so that every read returns 0, a run
-- of the loop does not end, whether or not a signal is waiting.
pub closed_pipe_blocks :
    (writefd : ℕ) (r : AutoRound) (s : AutoState)
    → r.select ≡ ready
    → r.switch_ready ≡ true
    → IsSilent r.switches
    → auto_run writefd r s ≡ blocked
unfolding auto_run auto_select auto_switch_part auto_switched
closed_pipe_blocks writefd r s e k h =
    ap (λ x. auto_select writefd r x s) e
    ∙ (ap
          (λ z.
            if z
            then auto_switched r (read_switch r.switches s.sample_enabled) s
            else auto_signal_part r s)
          k
        ∙ ap (λ o. auto_switched r o s) (read_switch-IsSilent r.switches s.sample_enabled h))

-- Time-outs in a row.
abbrev AllTimedOut : List AutoRound → Type 0
AllTimedOut rs = All (λ r. r.select ≡ timed_out) rs

-- What an enabled process adds to the trace in n time-outs.
abbrev pub timeline : ℕ → ℕ → List AutosampleDevice → List Event
timeline fd zero ds = []
timeline fd (suc n) ds = due_events fd ds ++ timeline fd n (map advance ds)

abbrev pub with_devices : List AutosampleDevice → World → AutoState → AutoState
with_devices ds w s = record s { devices = ds; world = w }
