-- ===== src/Tests/Commands.antt =====
-- Tests of process_cmd, nonblock_readline and of what is written.
use jk16legacy.Prelude.{
  ℕ, ◌+◌, ◌≤◌, ◌≡◌, refl, ◌≢◌, none, some, List, [], ◌∷◌, ◌++◌, arith, pos, take, replicate, codes,
  c_str, strncmp_eq,
}
use jk16legacy.World.{World, received}
use jk16legacy.Datatypes.{ReadBuffer}
use jk16legacy.CommandQueue.{power_on}
use jk16legacy.ClientList.{client_find}
use jk16legacy.Daemon.Send.{send_response, send_to_listeners, send_command}
use jk16legacy.Daemon.Send.Response.{send_response_delivers}
use jk16legacy.Daemon.Send.Listeners.{send_to_listeners_delivers}
use jk16legacy.Daemon.Send.Command.{send_command_hangs}
use jk16legacy.Daemon.Commands.{identify, process_cmd}
use jk16legacy.Daemon.Commands.Effects.{Requested, process_cmd_request}
use jk16legacy.Daemon.Lines.{got, nonblock_readline}
use jk16legacy.Daemon.Lines.Laws.{IsInBounds, nonblock_readline-IsInBounds}
use jk16legacy.Tests.Data.{
  quiet, shaky, at_second, devices, two_clients, two_clients-IsDistinct, idle_state, sampling,
}
use mathlib.Core.Option

abbrev lamp_on : List ℕ
lamp_on = codes "power on lamp" ++ (0 ∷ [])

request_example :
    Requested devices power_on lamp_on 5 idle_state (process_cmd devices lamp_on 5 idle_state)
unfolding identify strncmp_eq c_str
request_example =
    process_cmd_request devices power_on lamp_on 5 idle_state refl refl
      (record { no_writes = refl; no_allocs = refl }) two_clients-IsDistinct

abbrev listen_sensor : List ℕ
listen_sensor = codes "listen sensor" ++ (0 ∷ [])

listeners_example :
    let w =
      send_to_listeners (λ c. c.sensor_listener) "sensor" (some 5) (codes "hi") two_clients quiet in
    received 6 w.trace ≡ codes "hi" ++ (b'\n' ∷ [])
unfolding client_find received
listeners_example =
    send_to_listeners_delivers (λ c. c.sensor_listener) "sensor" (some 5) (codes "hi") two_clients
      quiet 6 refl two_clients-IsDistinct

response_example :
    let (ret, w') = send_response 5 (codes "hello") shaky in
    (ret ≡ pos 0)
    × ((k : ℕ) × (k ≤ 5)
        × (5 ≤ k + 1)
        × (received 5 w'.trace ≡ received 5 [] ++ (take k (codes "hello") ++ (b'\n' ∷ []))))
    × ((j : ℕ) → j ≢ 5 → received j w'.trace ≡ received j [])
response_example = send_response_delivers 5 (codes "hello") shaky tt

hangs_example : send_command (at_second 1) 3 (record sampling { param = some [] }) quiet ≡ none
hangs_example =
    send_command_hangs (at_second 1) 3 (record sampling { param = some [] }) quiet refl refl tt

-- "log" is split over two calls.
abbrev half_line : ReadBuffer
half_line = record { offset = 1; buf = codes "l" ++ replicate 99 0 }

abbrev full_buffer : ReadBuffer
full_buffer = record { offset = 99; buf = replicate 99 b'x' ++ (0 ∷ []) }

bounds_example :
    IsInBounds (nonblock_readline devices 5 (got b'o' ∷ got b'g' ∷ []) half_line idle_state).buffer
bounds_example =
    nonblock_readline-IsInBounds devices 5 (got b'o' ∷ got b'g' ∷ []) half_line idle_state
      (record { size = refl; next = omega arith })
