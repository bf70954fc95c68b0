-- ===== src/Tests/Data.antt =====
-- The data that the tests share.
use jk16legacy.Prelude.{ℕ, true, false, some, List, [], ◌∷◌, arith, codes}
use jk16legacy.World.{taken, interrupted, World}
use jk16legacy.CommandQueue.{power_on, sample, TimeVal, Cmd}
use jk16legacy.ClientList.{Client, new_client}
use jk16legacy.ClientList.Laws.{IsDistinct}
use jk16legacy.Daemon.Commands.{Devices, Shared}

abbrev pub quiet : World
quiet = record { writes = []; allocs = []; trace = [] }

-- A world where the next allocation fails, and one where the next write is interrupted.
abbrev pub no_memory : World
no_memory = record { writes = []; allocs = false ∷ []; trace = [] }

abbrev pub shaky : World
shaky = record { writes = interrupted ∷ taken 2 ∷ []; allocs = []; trace = [] }

abbrev pub at_second : ℕ → TimeVal
at_second n = record { tv_sec = n; tv_usec = 0 }

abbrev pub devices : Devices
devices = record {
  powerids_ = record { keys_ = codes "lamp" ∷ []; values_ = codes "a" ∷ [] };
  sampledevs_ = record { keys_ = codes "temp0" ∷ []; values_ = codes "T" ∷ [] };
}

abbrev pub listener : ℕ → Client
listener fd = record (new_client fd) { request_listener = true; sensor_listener = true }

abbrev pub two_clients : List Client
two_clients = new_client 5 ∷ listener 6 ∷ []

pub two_clients-IsDistinct : IsDistinct two_clients
two_clients-IsDistinct = (((λ e. ground arith), tt), (tt, tt))

abbrev pub idle_state : Shared
idle_state = record { cmd_q = []; client_lst = two_clients; world = quiet }

abbrev pub sampling : Cmd
sampling = record {
  fd = 5;
  cmd = sample;
  param = some (codes "T");
  sent = false;
  tv_start = at_second 0;
}

abbrev pub switching : Cmd
switching = record {
  fd = 5;
  cmd = power_on;
  param = some (codes "a");
  sent = true;
  tv_start = at_second 10;
}
