-- ===== src/Tests/Serial.antt =====
-- Tests of process_tty.
use jk16legacy.Prelude.{◌≡◌, refl, List, [], ◌∷◌, ◌++◌, codes, strncmp_eq}
use jk16legacy.World.{received}
use jk16legacy.ClientList.{client_find}
use jk16legacy.Daemon.Commands.{Shared}
use jk16legacy.Daemon.Lines.{got}
use jk16legacy.Daemon.Tty.{TtyPoll, polled, firmware_line}
use jk16legacy.Daemon.Tty.Delivery.{response_to, firmware_line_delivers}
use jk16legacy.Tests.Data.{quiet, devices, two_clients, two_clients-IsDistinct, sampling}

abbrev busy_state : Shared
busy_state = record { cmd_q = sampling ∷ []; client_lst = two_clients; world = quiet }

delivers_example :
    received 6 (firmware_line devices (codes "Sensor T: 20") busy_state).world.trace
    ≡ response_to devices (codes "Sensor T: 20") busy_state ++ (b'\n' ∷ [])
unfolding received client_find strncmp_eq
delivers_example =
    firmware_line_delivers devices (codes "Sensor T: 20") busy_state 6 refl two_clients-IsDistinct

abbrev tty_polls : List TtyPoll
tty_polls = polled (got b'O') ∷ polled (got b'K') ∷ polled (got b'\r') ∷ polled (got b'\n') ∷ []
