-- ===== src/Daemon/Commands/Effects.antt =====
-- What a power or sample command does where the kernel takes every write whole and the allocations
-- succeed.
use jk16legacy.Prelude.{
  ℕ, ◌≡◌, refl, ap, ◌∙◌, true, Option, some, List, [], ◌∷◌, ◌++◌, append-nil, append_assoc, ◌==◌,
  if◌then◌else◌, ℤ, pos, Text, c_str,
}
use jk16legacy.World.{notice, debug, str, num, logged, World, log_event, received, received-append}
use jk16legacy.CommandQueue.{CmdId, power_on, power_off, sample, listen, new_cmd}
use jk16legacy.CommandQueue.Laws.{cmd_push_smooth}
use jk16legacy.ClientList.{Client, client_find}
use jk16legacy.ClientList.Laws.{IsDistinct}
use jk16legacy.KeyValue.{key_value_storage_find}
use jk16legacy.Daemon.Send.{send_to_listeners, is_sendable}
use jk16legacy.Daemon.Send.Listeners.{
  listener_loop-deliveries, is_addressee, send_to_listeners_delivers,
}
use jk16legacy.Daemon.Commands.{
  Devices, Shared, identify, underscore, param_of, find_param, notify_request, enqueue, dispatch,
  notify_and_dispatch, process_known, note_start, process_cmd,
}
use jk16legacy.Daemon.Commands.LookUps.{
  IsSmooth, refusal, storage_of, answer_of, find_param-LookUp, request_notice,
}

abbrev request_line : ℕ → Text → List Client → ℕ → Text
request_line fd cmd cs j =
    if is_addressee (λ c. c.request_listener) (some fd) (client_find cs j)
    then request_notice cmd ++ (b'\n' ∷ [])
    else []

writes-notify_request :
    (fd : ℕ) (cmd : Text) (cs : List Client) (w : World)
    → w.writes ≡ []
    → w.allocs ≡ []
    → ((notify_request fd cmd cs w).writes ≡ []) × ((notify_request fd cmd cs w).allocs ≡ [])
unfolding notify_request send_to_listeners log_event
writes-notify_request fd cmd cs w e a =
    rw
      (
        a,
        listener_loop-deliveries (λ c. c.request_listener) (some fd) (request_notice cmd) cs 0
            (record w { allocs = [] }) e,
      )
      (e, refl)

received-notify_request :
    (fd : ℕ) (cmd : Text) (cs : List Client) (w : World) (j : ℕ)
    → w.writes ≡ []
    → w.allocs ≡ []
    → IsDistinct cs
    → received j (notify_request fd cmd cs w).trace ≡ received j w.trace ++ request_line fd cmd cs j
unfolding notify_request
received-notify_request fd cmd cs w j e a d = rw a (
    send_to_listeners_delivers (λ c. c.request_listener) "request" (some fd) (request_notice cmd) cs
      (record w { allocs = [] }) j e d)

pub record Enqueued (id : CmdId) (fd : ℕ) (param : Option Text) (s : Shared) (r : ℤ × Shared)
    : Type 0 where
  pub ret_zero : r.0 ≡ pos 0
  pub queued : r.1.cmd_q ≡ s.cmd_q ++ (new_cmd fd id param ∷ [])
  pub silent : (j : ℕ) → received j r.1.world.trace ≡ received j s.world.trace

enqueue-Enqueued :
    (id : CmdId) (fd : ℕ) (cmd : Text) (param : Option Text) (s : Shared)
    → s.world.allocs ≡ []
    → Enqueued id fd param s (enqueue id fd cmd param s)
unfolding enqueue received
enqueue-Enqueued id fd cmd param s a = rw (cmd_push_smooth s.cmd_q fd id param s.world a) (record {
  ret_zero = refl;
  queued = refl;
  silent = λ j.
      received-append j s.world.trace (logged notice "command: %s" (str cmd ∷ []) ∷ [])
      ∙ append-nil (received j s.world.trace);
})

dispatch-Enqueued :
    (id : CmdId) (fd : ℕ) (cmd : Text) (param : Option Text) (s : Shared)
    → is_sendable id ≡ true
    → s.world.allocs ≡ []
    → Enqueued id fd param s (dispatch id fd cmd param s)
unfolding dispatch
dispatch-Enqueued power_on fd cmd param s h a = enqueue-Enqueued power_on fd cmd param s a
dispatch-Enqueued power_off fd cmd param s h a = enqueue-Enqueued power_off fd cmd param s a
dispatch-Enqueued sample fd cmd param s h a = enqueue-Enqueued sample fd cmd param s a
dispatch-Enqueued CmdId.log fd cmd param s h a = cc
dispatch-Enqueued listen fd cmd param s h a = cc

-- The text of the line as process_cmd passes it on, and the parameter that it looks up.
abbrev line_text : CmdId → List ℕ → Text
line_text id cmd = c_str (underscore id cmd)

abbrev found_param : Devices → CmdId → List ℕ → Option Text
found_param opt id cmd = key_value_storage_find (storage_of opt id) (param_of (line_text id cmd))

pub record Requested (opt : Devices) (id : CmdId) (cmd : List ℕ) (fd : ℕ) (s : Shared)
    (r : ℤ × List ℕ × Shared) : Type 0 where
  pub ret_zero : r.0 ≡ pos 0
  pub queued : r.2.cmd_q ≡ s.cmd_q ++ (new_cmd fd id (found_param opt id cmd) ∷ [])
  pub replies :
      (j : ℕ)
      → received j r.2.world.trace
        ≡ received j s.world.trace
          ++ ((if fd == j then refusal (answer_of id) (found_param opt id cmd) else [])
              ++ request_line fd (line_text id cmd) s.client_lst j)

received-note_start :
    (fd j : ℕ) (w : World) → received j (note_start fd w).trace ≡ received j w.trace
unfolding note_start received
received-note_start fd j w =
    received-append j w.trace (logged debug "processing command from %d" (num fd ∷ []) ∷ [])
    ∙ append-nil (received j w.trace)

-- A power or sample line, where nothing fails and the clients have different descriptors: it
-- returns 0 and queues one unsent command, whether or not its name is known. The parameter of that
-- command is the value of the name, or null. The client that sent the line receives an error
-- message exactly if the name is unknown, every other request listener receives the line, and no
-- other descriptor receives anything.
pub process_cmd_request :
    (opt : Devices) (id : CmdId) (cmd : List ℕ) (fd : ℕ) (s : Shared)
    → identify (c_str cmd) ≡ some id
    → is_sendable id ≡ true
    → IsSmooth s.world
    → IsDistinct s.client_lst
    → Requested opt id cmd fd s (process_cmd opt cmd fd s)
unfolding process_cmd process_known notify_and_dispatch
process_cmd_request opt id cmd fd s i h v d =
    let w0 = note_start fd s.world in
    let text = line_text id cmd in
    let look = find_param-LookUp opt id fd (param_of text) w0 h v.no_writes in
    let found = find_param opt id fd (param_of text) w0 in
    let (we, wa) =
      writes-notify_request fd text s.client_lst found.1 (look.writes_same ∙ v.no_writes)
        (look.allocs_same ∙ v.no_allocs) in
    let s' = record s { world = notify_request fd text s.client_lst found.1 } in
    let queued = dispatch-Enqueued id fd text found.0 s' h wa in
    rw (i, h)
      (record {
        ret_zero = queued.ret_zero;
        queued = queued.queued ∙ ap (λ p. s.cmd_q ++ (new_cmd fd id p ∷ [])) look.value;
        replies = λ j.
            queued.silent j
            ∙ received-notify_request fd text s.client_lst found.1 j
                (look.writes_same ∙ v.no_writes) (look.allocs_same ∙ v.no_allocs) d
            ∙ ap (λ t. t ++ request_line fd text s.client_lst j)
                (look.answered j
                  ∙ ap
                      (λ t.
                        t
                        ++ (if fd == j
                            then refusal (answer_of id) (found_param opt id cmd)
                            else []))
                      (received-note_start fd j s.world))
            ∙ append_assoc (received j s.world.trace) _ _;
      })
