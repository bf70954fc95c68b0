-- ===== src/Tests/Sensors.antt =====
-- Tests of the programs of serial_console and of reset_tty.
use jk16legacy.Prelude.{
  ℕ, ◌≡◌, refl, true, Option, some, List, [], ◌∷◌, ◌++◌, pos, length, replicate, Text, codes,
}
use jk16legacy.Sensors.{Host, buffer_size, silent, arrived, SensorRound, sample_runs, init_sampler}
use jk16legacy.Sensors.Stream.{hear_runs, init_listener}
use jk16legacy.Sensors.Runs.{Agrees}
use jk16legacy.Sensors.Laws.{sample_runs_lem}
use jk16legacy.Startup.{Boot}
use jk16legacy.Startup.Tty.{TtyEnv}
use jk16legacy.Console.{typed_bytes, typed_end, TermRound}
use jk16legacy.Console.Serial.{DoorOpening, door_retry}
use jk16legacy.Console.Start.{serial_main, serial_main_without_argument}

abbrev host : Host
host = record { float_text = λ t. t; open_file = λ cs f. some 4 }

abbrev zeros : List ℕ
zeros = replicate 1024 0

zeros-length : length zeros ≡ buffer_size
zeros-length = refl

abbrev sensor_rounds : List SensorRound
sensor_rounds =
    record { polled = arrived (codes "photo0: 1"); curr_time = 1 }
    ∷ record { polled = silent; curr_time = 40 }
    ∷ record { polled = arrived (codes "2" ++ (b'\n' ∷ [])); curr_time = 41 }
    ∷ []

sensors_example :
    Agrees
      (sample_runs host sensor_rounds (init_sampler zeros 5 0))
      (hear_runs host sensor_rounds (init_listener 5 0))
sensors_example = sample_runs_lem host zeros 5 0 sensor_rounds zeros-length

abbrev long_tail : Text
long_tail = replicate 1023 b'x'

abbrev term_rounds : List TermRound
term_rounds =
    record {
      select_positive = true;
      peer_ready = true;
      peer = codes "Ok";
      stdin_ready = true;
      keys = typed_bytes (codes "listen") ∷ typed_end ∷ [];
    }
    ∷ []

abbrev quiet_device : TtyEnv
quiet_device = record {
  tcgetattr = pos 0;
  cfsetospeed = pos 0;
  cfsetispeed = pos 0;
  tcsetattr = pos 0;
  tcflush = pos 0;
  attributes = record {
    c_iflag = 1;
    c_oflag = 2;
    c_cflag = 3;
    c_lflag = 4;
    echo = true;
    ospeed = 0;
    ispeed = 0;
  };
  input_left = 2;
  tty_error = [];
}

abbrev door_openings : List DoorOpening
door_openings =
    record {
      door_fd = some 3;
      settings = quiet_device;
      raw = record {
        raw_tcgetattr = pos 0;
        raw_tcsetattr = pos 0;
        restore_tcsetattr = pos 0;
        raw_error = [];
      };
      rounds = [];
    }
    ∷ []

no_argument_example : (b : Boot) × (serial_main [] door_openings ≡ door_retry b)
no_argument_example = serial_main_without_argument door_openings

opens_five : Text → Option ℕ
opens_five path = some 5
