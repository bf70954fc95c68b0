-- ===== src/Daemon/Commands/Laws.antt =====
-- What process_cmd does to the queue and to the clients.
use jk16legacy.Prelude.{
  ℕ, ◌≡◌, refl, ap, inl, inr, Option, none, some, List, [], ◌∷◌, ◌++◌, map, arith, ◌==◌, Bool-cases,
  Option-cases, Text, c_str,
}
use jk16legacy.World.{debug, num, log_event}
use jk16legacy.Datatypes.{ReadBuffer}
use jk16legacy.CommandQueue.{CmdId, power_on, power_off, sample, listen, Cmd, new_cmd}
use jk16legacy.CommandQueue.Laws.{cmd_push_cases}
use jk16legacy.ClientList.{Client, client_find, client_update}
use jk16legacy.Daemon.Commands.{
  Devices, Shared, in_world, identify, underscore, param_of, find_param, notify_request, enqueue,
  Subscription, subscribe_all, subscribe_none, subscribe_request, subscribe_error, subscribe_sensor,
  subscribe_movement, subscribe_button, listen_change, apply_subscription, apply_listen, subscribe,
  dispatch, notify_and_dispatch, process_known, process_identified, note_start, process_cmd,
}

-- How a command changes the queue: at most one unsent command is put at its end, for the
-- descriptor that the line came from.
pub data QueueChange (fd : ℕ) (q q' : List Cmd) : Type 0 where
  unchanged : q' ≡ q → QueueChange fd q q'
  pushed :
      (id : CmdId) (param : Option Text)
      → q' ≡ q ++ (new_cmd fd id param ∷ [])
      → QueueChange fd q q'

enqueue-QueueChange :
    (id : CmdId) (fd : ℕ) (cmd : Text) (param : Option Text) (s : Shared)
    → QueueChange fd s.cmd_q (enqueue id fd cmd param s).1.cmd_q
unfolding enqueue
enqueue-QueueChange id fd cmd param s = elim (cmd_push_cases s.cmd_q fd id param s.world) [
  | inl h ↦ pushed id param h.1
  | inr h ↦ unchanged h.1
]

cmd_q-subscribe :
    (fd : ℕ) (param : Option Text) (s : Shared) → (subscribe fd param s).cmd_q ≡ s.cmd_q
unfolding subscribe
cmd_q-subscribe fd param s = ground arith

dispatch-QueueChange :
    (id : CmdId) (fd : ℕ) (cmd : Text) (param : Option Text) (s : Shared)
    → QueueChange fd s.cmd_q (dispatch id fd cmd param s).1.cmd_q
unfolding dispatch
dispatch-QueueChange power_on fd cmd param s = enqueue-QueueChange power_on fd cmd param s
dispatch-QueueChange power_off fd cmd param s = enqueue-QueueChange power_off fd cmd param s
dispatch-QueueChange sample fd cmd param s = enqueue-QueueChange sample fd cmd param s
dispatch-QueueChange CmdId.log fd cmd param s = unchanged refl
dispatch-QueueChange listen fd cmd param s = unchanged (cmd_q-subscribe fd param s)

notify_and_dispatch-QueueChange :
    (id : CmdId) (fd : ℕ) (cmd : Text) (param : Option Text) (s : Shared)
    → QueueChange fd s.cmd_q (notify_and_dispatch id fd cmd param s).1.cmd_q
unfolding notify_and_dispatch
notify_and_dispatch-QueueChange power_on fd cmd param s =
    dispatch-QueueChange power_on fd cmd param (in_world (notify_request fd cmd s.client_lst) s)
notify_and_dispatch-QueueChange power_off fd cmd param s =
    dispatch-QueueChange power_off fd cmd param (in_world (notify_request fd cmd s.client_lst) s)
notify_and_dispatch-QueueChange sample fd cmd param s =
    dispatch-QueueChange sample fd cmd param (in_world (notify_request fd cmd s.client_lst) s)
notify_and_dispatch-QueueChange CmdId.log fd cmd param s =
    dispatch-QueueChange CmdId.log fd cmd param s
notify_and_dispatch-QueueChange listen fd cmd param s = dispatch-QueueChange listen fd cmd param s

process_known-QueueChange :
    (opt : Devices) (id : CmdId) (fd : ℕ) (cmd : Text) (s : Shared)
    → QueueChange fd s.cmd_q (process_known opt id fd cmd s).1.cmd_q
unfolding process_known
process_known-QueueChange opt id fd cmd s =
    let found = find_param opt id fd (param_of cmd) s.world in
    notify_and_dispatch-QueueChange id fd cmd found.0 (record s { world = found.1 })

-- Whatever the line and whatever fails, process_cmd leaves the queue as it is or puts one command
-- at its end: an unsent one, for the descriptor that the line came from.
pub process_cmd-QueueChange :
    (opt : Devices) (cmd : List ℕ) (fd : ℕ) (s : Shared)
    → QueueChange fd s.cmd_q (process_cmd opt cmd fd s).2.cmd_q
unfolding process_cmd
process_cmd-QueueChange opt cmd fd s = go (identify (c_str cmd))
  where
    go :
        (id : Option CmdId)
        → QueueChange fd s.cmd_q
            (process_identified opt id cmd fd (in_world (note_start fd) s)).2.cmd_q
    go none = unchanged refl
    go (some id) =
        process_known-QueueChange opt id fd (c_str (underscore id cmd)) (in_world (note_start fd) s)

-- What a command leaves of a client: its descriptor and its buffer.
abbrev pub identity : Client → ℕ × ReadBuffer
identity c = (c.fd, c.buffer)

map-update :
    (f : Client → Client) (cs : List Client) (fd : ℕ)
    → ((c : Client) → identity (f c) ≡ identity c)
    → map identity (client_update f cs fd) ≡ map identity cs
unfolding client_update
map-update f [] fd h = refl
map-update f (c ∷ cs) fd h = elim (Bool-cases (c.fd == fd)) [
  | inl e ↦ rw e (ap (λ i. i ∷ map identity cs) (h c))
  | inr e ↦ rw e (ap (λ r. identity c ∷ r) (map-update f cs fd h))
]

pub apply_subscription-identity :
    (k : Subscription) (c : Client) → identity (apply_subscription k c) ≡ identity c
unfolding apply_subscription
apply_subscription-identity subscribe_all c = refl
apply_subscription-identity subscribe_none c = refl
apply_subscription-identity subscribe_request c = refl
apply_subscription-identity subscribe_error c = refl
apply_subscription-identity subscribe_sensor c = refl
apply_subscription-identity subscribe_movement c = refl
apply_subscription-identity subscribe_button c = refl

apply_listen-identity :
    (fd : ℕ) (param : Option Text) (k : Option Subscription) (s : Shared)
    → map identity (apply_listen fd param k s).client_lst ≡ map identity s.client_lst
unfolding apply_listen
apply_listen-identity fd param none s = refl
apply_listen-identity fd param (some k) s =
    map-update (apply_subscription k) s.client_lst fd (apply_subscription-identity k)

subscribe-identity :
    (fd : ℕ) (param : Option Text) (s : Shared)
    → map identity (subscribe fd param s).client_lst ≡ map identity s.client_lst
unfolding subscribe
subscribe-identity fd param s = elim (Option-cases (client_find s.client_lst fd)) [
  | inl e ↦ rw (e, subscribe)
  | inr (c, e) ↦ rw (e, subscribe) (apply_listen-identity fd param (listen_change param) s)
]

notify_and_dispatch-identity :
    (id : CmdId) (fd : ℕ) (cmd : Text) (param : Option Text) (s : Shared)
    → map identity (notify_and_dispatch id fd cmd param s).1.client_lst ≡ map identity s.client_lst
unfolding notify_and_dispatch
notify_and_dispatch-identity power_on fd cmd param s = refl
notify_and_dispatch-identity power_off fd cmd param s = refl
notify_and_dispatch-identity sample fd cmd param s = refl
notify_and_dispatch-identity CmdId.log fd cmd param s = refl
notify_and_dispatch-identity listen fd cmd param s = subscribe-identity fd param s

process_known-identity :
    (opt : Devices) (id : CmdId) (fd : ℕ) (cmd : Text) (s : Shared)
    → map identity (process_known opt id fd cmd s).1.client_lst ≡ map identity s.client_lst
unfolding process_known
process_known-identity opt id fd cmd s =
    let found = find_param opt id fd (param_of cmd) s.world in
    notify_and_dispatch-identity id fd cmd found.0 (record s { world = found.1 })

-- Whatever the line and whatever fails, process_cmd changes no more of the clients than their
-- listener flags: the same clients stand in the same order, with their descriptors and buffers.
pub process_cmd-identity :
    (opt : Devices) (cmd : List ℕ) (fd : ℕ) (s : Shared)
    → map identity (process_cmd opt cmd fd s).2.client_lst ≡ map identity s.client_lst
unfolding process_cmd
process_cmd-identity opt cmd fd s = go (identify (c_str cmd))
  where
    go :
        (id : Option CmdId)
        → map identity
            (process_identified opt id cmd fd (
              in_world (log_event debug "processing command from %d" (num fd ∷ [])) s)).2.client_lst
          ≡ map identity s.client_lst
    go none = refl
    go (some id) =
        process_known-identity opt id fd (c_str (underscore id cmd)) (in_world (note_start fd) s)
