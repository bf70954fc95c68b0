-- ===== src/Daemon/Send.antt =====
-- powersensordaemon.c: send_command, send_response and SEND_TO_LISTENER.
pub mod Response
pub mod Drops
pub mod Listeners
pub mod Command
use jk16legacy.Prelude.{
  ℕ, zero, suc, ◌+◌, ◌-◌, min, Bool, true, false, ◌&&◌, not, Option, none, some, List, [], ◌∷◌,
  ◌++◌, map, leb, ◌==◌, if◌then◌else◌, ℤ, pos, negsuc, is_zero, length, take, drop, Text, codes,
  toupper, tolower,
}
use jk16legacy.World.{
  debug, str, num, Event, wrote, WriteOutcome, taken, interrupted, failed, World, log_event,
}
use jk16legacy.CommandQueue.{
  CmdId, power_on, power_off, sample, log, listen, TimeVal, Cmd, cmd_sent,
}
use jk16legacy.ClientList.{Client}
use Prim.Native.String.{String}

-- What a run of writes leaves: the returned value, the outcomes that are left, and the trace.
pub record Written : Type 0 where
  pub ret : ℤ
  pub rest : List WriteOutcome
  pub out : List Event

abbrev pub put_written : World → Written → ℤ × World
put_written w r = (r.ret, record w { writes = r.rest; trace = r.out })

-- do { ret = write(fd, bytes, n); } while(!ret || (ret == -1 && errno == EINTR)); for some bytes.
unfoldable pub write_loop : List WriteOutcome → ℕ → ℕ → List ℕ → List Event → Written
write_loop [] fd b bs out = record {
  ret = pos (suc (length bs));
  rest = [];
  out = out ++ (wrote fd (b ∷ bs) ∷ []);
}
write_loop (taken zero ∷ ws) fd b bs out = write_loop ws fd b bs out
write_loop (taken (suc n) ∷ ws) fd b bs out = record {
  ret = pos (suc (min n (length bs)));
  rest = ws;
  out = out ++ (wrote fd (b ∷ take n bs) ∷ []);
}
write_loop (interrupted ∷ ws) fd b bs out = write_loop ws fd b bs out
write_loop (failed ∷ ws) fd b bs out = record { ret = negsuc 0; rest = ws; out = out }

-- The same loop for no bytes: write returns 0 whatever the kernel would take, so only an error ends
-- it. `none`: it does not end.
pub write_nothing : List WriteOutcome → Option (List WriteOutcome)
write_nothing [] = none
write_nothing (taken n ∷ ws) = write_nothing ws
write_nothing (interrupted ∷ ws) = write_nothing ws
write_nothing (failed ∷ ws) = some ws

-- The first loop of send_response, from an offset. It ends at one byte before the end, too.
unfoldable pub response_loop : List WriteOutcome → ℕ → Text → ℕ → List Event → Written
response_loop [] fd response offset out = record {
  ret = pos 0;
  rest = [];
  out = out ++ (wrote fd (drop offset response) ∷ []);
}
response_loop (taken n ∷ ws) fd response offset out =
    let ret = min n (length response - offset) in
    let out' = out ++ (wrote fd (take ret (drop offset response)) ∷ []) in
    let more = response_loop ws fd response (offset + ret) out' in
    if leb (length response) (offset + ret + 1)
    then record { ret = pos 0; rest = ws; out = out' }
    else more
response_loop (interrupted ∷ ws) fd response offset out =
    let more = response_loop ws fd response offset out in
    if leb (length response) (offset + 1)
    then record { ret = pos 0; rest = ws; out = out }
    else more
response_loop (failed ∷ ws) fd response offset out = record { ret = negsuc 0; rest = ws; out = out }

abbrev ret_of_newline : ℤ → ℤ
ret_of_newline (pos n) = pos 0
ret_of_newline (negsuc n) = negsuc n

-- The second part of send_response: the line feed, unless the first part returned an error.
pub finish_response : ℕ → Written → Written
unfolding write_loop
finish_response fd r =
    if is_zero r.ret
    then (let nl = write_loop r.rest fd b'\n' [] r.out in record nl { ret = ret_of_newline nl.ret })
    else r

-- No caller passes a null response.
pub send_response : ℕ → Text → World → ℤ × World
unfolding response_loop finish_response
send_response fd response w =
    put_written w (finish_response fd (response_loop w.writes fd response 0 w.trace))

-- client->fd != FD; `none` is the descriptor -1, which no client has.
abbrev pub is_other : Option ℕ → ℕ → Bool
is_other none fd = true
is_other (some d) fd = not (fd == d)

-- The loop of SEND_TO_LISTENER: the number of listeners that were written to, and the world.
pub listener_loop : (Client → Bool) → Option ℕ → Text → List Client → ℕ → World → ℕ × World
listener_loop is_listener except msg [] cnt w = (cnt, w)
listener_loop is_listener except msg (c ∷ cs) cnt w =
    let hit = is_listener c && is_other except c.fd in
    listener_loop is_listener except msg cs (if hit then cnt + 1 else cnt)
      (if hit then (send_response c.fd msg w).1 else w)

unfoldable pub send_to_listeners :
    (Client → Bool) → String → Option ℕ → Text → List Client → World → World
unfolding listener_loop log_event
send_to_listeners is_listener name except msg clients w =
    let (cnt, w') = listener_loop is_listener except msg clients 0 w in
    log_event debug "sent %s to %d additional listeners" (str (codes name) ∷ num cnt ∷ []) w'

-- cmd_id == POWER_ON || cmd_id == POWER_OFF || cmd_id == SAMPLE
abbrev pub is_sendable : CmdId → Bool
is_sendable power_on = true
is_sendable power_off = true
is_sendable sample = true
is_sendable CmdId.log = false
is_sendable listen = false

-- What send_command writes for a command: `none` for one that it does not send.
unfoldable pub command_bytes : CmdId → Text → Option (List ℕ)
unfolding toupper tolower
command_bytes power_on param = some (map toupper (take 60 param))
command_bytes power_off param = some (map tolower (take 60 param))
command_bytes sample param = some (take 60 param)
command_bytes log param = none
command_bytes listen param = none

-- The end of send_command: the command is marked as sent if some of it was written.
pub mark_sent : TimeVal → Cmd → Written → World → ℤ × Cmd × World
unfolding cmd_sent
mark_sent now cmd r w = (
  elim r.ret [ pos n ↦ pos 0 | negsuc n ↦ negsuc n ],
  elim r.ret [ pos n ↦ cmd_sent now cmd | negsuc n ↦ cmd ],
  record w { writes = r.rest; trace = r.out },
)

pub write_command : TimeVal → ℕ → Cmd → Option (List ℕ) → World → Option (ℤ × Cmd × World)
unfolding write_loop write_nothing mark_sent
write_command now tty_fd cmd none w = some (pos 0, cmd, w)
write_command now tty_fd cmd (some []) w = elim (write_nothing w.writes) [
  | none ↦ none
  | some ws ↦ some (negsuc 0, cmd, record w { writes = ws })
]
write_command now tty_fd cmd (some (b ∷ bs)) w =
    some (mark_sent now cmd (write_loop w.writes tty_fd b bs w.trace) w)

-- send_command by the parameter of the command.
pub send_param : TimeVal → ℕ → Cmd → Option Text → World → Option (ℤ × Cmd × World)
unfolding command_bytes write_command
send_param now tty_fd cmd none w = some (pos 0, cmd, w)
send_param now tty_fd cmd (some param) w =
    write_command now tty_fd cmd (command_bytes cmd.cmd param) w

-- `none`: the call does not return.
unfoldable pub send_command : TimeVal → ℕ → Cmd → World → Option (ℤ × Cmd × World)
unfolding send_param
send_command now tty_fd cmd w = send_param now tty_fd cmd cmd.param w
