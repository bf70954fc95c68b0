-- ===== src/Sensors.antt =====
-- serial_console/sample_sensors.c and .h: the process that records what the sensors say. asprintf
-- is taken to succeed: its failure, -1, passes the tests of the code. main, which opens the
-- connection and tries again for ever, is in Console.Start.
pub mod Stream
pub mod Line
pub mod Buffer
pub mod Runs
pub mod Laws
pub mod Overlong
use jk16legacy.Prelude.{
  ℕ, zero, suc, ◌+◌, ◌-◌, ◌%◌, ◌^◌, Bool, true, false, ◌&&◌, Option, none, some, List, [], ◌∷◌,
  ◌++◌, ltb, leb, ◌==◌, if◌then◌else◌, length, set, take, drop, Text, codes, c_str, strncmp_eq,
  atoi, int_text, unsigned_text,
}
use jk16legacy.CommandQueue.{listen}
use Prim.Native.String.{String}
use mathlib.Core.Option

-- What the process asks the system for, oldest first.
pub data Call : Type 0 where
  send_called : ℕ → Text → Call
  system_called : Text → Call
  open_called : Text → Call
  -- the descriptor is `none` for -1
  write_called : Option ℕ → Text → Call
  close_called : Option ℕ → Call

-- What printf makes of the float that atof reads, for %f; and what open returns for a file, after
-- the calls that were made before.
pub record Host : Type 0 where
  pub float_text : Text → Text
  pub open_file : List Call → Text → Option ℕ

pub is_stdin : Option ℕ → Bool
is_stdin none = false
is_stdin (some fd) = fd == 0

-- if(fd) …: a descriptor that is not 0 gets the first 12 bytes of the value.
write_text : Option ℕ → Text → List Call → List Call
unfolding is_stdin
write_text fd value calls =
    if is_stdin fd then calls else calls ++ (write_called fd (take 12 value) ∷ close_called fd ∷ [])

-- The value goes to the database, and over the text file.
pub store_value : Host → String → String → Text → List Call → List Call
unfolding write_text
store_value h rrd_file txt_file value calls =
    let asked =
      calls
      ++ (system_called (codes "rrdtool update " ++ codes rrd_file ++ codes " N:" ++ value) ∷ []) in
    write_text (h.open_file asked (codes txt_file)) value
      (asked ++ (open_called (codes txt_file) ∷ []))

-- The line is in the memory `buffer`. The value is read before the test.
pub check_handle_line : Host → List ℕ → ℕ → Text → String → String → List Call → Bool × List Call
unfolding store_value
check_handle_line h buffer buflen cmpstr rrd_file txt_file calls =
    let cmpstrlen = length cmpstr in
    let value = int_text (atoi (c_str (drop cmpstrlen buffer))) in
    if ltb cmpstrlen buflen && strncmp_eq cmpstr (c_str buffer) cmpstrlen
    then (true, store_value h rrd_file txt_file value calls)
    else (false, calls)

pub check_handle_line_float :
    Host → List ℕ → ℕ → Text → String → String → List Call → Bool × List Call
unfolding store_value
check_handle_line_float h buffer buflen cmpstr rrd_file txt_file calls =
    let cmpstrlen = length cmpstr in
    let value = h.float_text (c_str (drop cmpstrlen buffer)) in
    if ltb cmpstrlen buflen && strncmp_eq cmpstr (c_str buffer) cmpstrlen
    then (true, store_value h rrd_file txt_file value calls)
    else (false, calls)

abbrev pub rrd_temp_ : String
rrd_temp_ = "/home/sensortemp.rrd"

abbrev pub txt_temp_ : String
txt_temp_ = "/home/sensortemp.txt"

abbrev pub rrd_light_ : String
rrd_light_ = "/home/sensorlight.rrd"

abbrev pub txt_light_ : String
txt_light_ = "/home/sensorlight.txt"

abbrev pub rrd_movement_ : String
rrd_movement_ = "/home/sensormovement.rrd"

-- The movements that the line counts for, and the calls.
unfoldable pub collect_data : Host → List ℕ → ℕ → List Call → ℕ × List Call
unfolding check_handle_line check_handle_line_float
collect_data h buffer size calls =
    let (is_temp, calls1) =
      check_handle_line_float h buffer size (codes "temp0: ") rrd_temp_ txt_temp_ calls in
    let (is_photo, calls2) =
      check_handle_line h buffer size (codes "photo0: ") rrd_light_ txt_light_ calls in
    if leb 8 size && strncmp_eq (codes "movement") (c_str buffer) 8
    then (1, calls)
    else if is_temp
    then (0, calls1)
    else (0, calls2)

abbrev pub buffer_size : ℕ
buffer_size = 1024

-- The variables of sample_sensors.
pub record Sampler : Type 0 where
  pub buffer : List ℕ
  pub buffer_offset : ℕ
  pub movement_count : ℕ
  pub last_sample_time : ℕ
  pub calls : List Call

-- The first line feed among the first bytes.
pub find_linebreak : List ℕ → ℕ → Option ℕ
find_linebreak buffer zero = none
find_linebreak [] (suc n) = none
find_linebreak (b ∷ buffer) (suc n) =
    if b == b'\n' then some 0 else Option.map suc (find_linebreak buffer n)

-- The line that ends at `c` is handled, and what follows it moves to the front.
pub take_line : Host → ℕ → Sampler → Sampler
unfolding collect_data
take_line h c s =
    let line = set s.buffer c 0 in
    let (moved, calls) = collect_data h line (s.buffer_offset + c) s.calls in
    record s {
      buffer = drop (c + 1) line ++ drop (buffer_size - (c + 1)) line;
      buffer_offset = s.buffer_offset - (c + 1);
      movement_count = (s.movement_count + moved) % 2 ^ 32;
      calls = calls;
    }

-- do … while(linebreak_found), with fuel. Every line takes a byte off the buffer, so as much fuel
-- as there are bytes and one is enough.
pub take_lines : Host → ℕ → Sampler → Sampler
unfolding find_linebreak take_line
take_lines h zero s = s
take_lines h (suc n) s = elim (find_linebreak s.buffer s.buffer_offset) [
  | none ↦ s
  | some c ↦ take_lines h n (take_line h c s)
]

-- A run of the loop: what select and recv do, and the time. recv fails, or finds the connection
-- closed, where it gets no byte.
pub data Polled : Type 0 where
  select_error silent : Polled
  arrived : Text → Polled

pub record SensorRound : Type 0 where
  pub polled : Polled
  pub curr_time : ℕ

pub data Sampling : Type 0 where
  sampling_on sampling_over : Sampler → Sampling

-- recv puts the bytes behind those that the buffer holds, at most as many as have room.
pub store_bytes : Text → Sampler → Sampler
store_bytes bytes s = record s {
  buffer =
      take s.buffer_offset s.buffer ++ (bytes ++ drop (s.buffer_offset + length bytes) s.buffer);
  buffer_offset = s.buffer_offset + length bytes;
}

pub receive_bytes : Host → Text → Sampler → Sampling
unfolding store_bytes take_lines
receive_bytes h [] s = sampling_over s
receive_bytes h (b ∷ bytes) s =
    let s1 = store_bytes (b ∷ bytes) s in sampling_on (take_lines h (suc s1.buffer_offset) s1)

pub receive : Host → Text → Sampler → Sampling
unfolding receive_bytes
receive h bytes s = receive_bytes h (take (buffer_size - s.buffer_offset) bytes) s

-- The movements go to the database, when the last time was more than 30 seconds ago.
pub update_movement : ℕ → Sampler → Sampler
update_movement curr_time s =
    if ltb 30 (curr_time - s.last_sample_time)
    then record s {
      last_sample_time = curr_time;
      movement_count = 0;
      calls =
          s.calls
          ++ (system_called (
                codes "rrdtool update "
                ++ codes rrd_movement_
                ++ codes " -t movement N:"
                ++ unsigned_text s.movement_count)
              ∷ []);
    }
    else s

pub and_update : ℕ → Sampling → Sampling
unfolding update_movement
and_update curr_time (sampling_on s) = sampling_on (update_movement curr_time s)
and_update curr_time (sampling_over s) = sampling_over s

pub sample_run : Host → Polled → ℕ → Sampler → Sampling
unfolding receive and_update
sample_run h select_error curr_time s = sampling_over s
sample_run h silent curr_time s = and_update curr_time (sampling_on s)
sample_run h (arrived bytes) curr_time s = and_update curr_time (receive h bytes s)

pub sample_runs : Host → List SensorRound → Sampler → Sampling
unfolding sample_run
sample_runs h [] s = sampling_on s
sample_runs h (r ∷ rs) s = elim (sample_run h r.polled r.curr_time s) [
  | sampling_on s' ↦ sample_runs h rs s'
  | sampling_over s' ↦ sampling_over s'
]

-- The variables before the loop. `memory` is what the buffer happens to hold.
pub init_sampler : List ℕ → ℕ → ℕ → Sampler
init_sampler memory fd time = record {
  buffer = memory;
  buffer_offset = 0;
  movement_count = 0;
  last_sample_time = time;
  calls =
      send_called fd (codes "listen sensor\n") ∷ send_called fd (codes "listen movement\n") ∷ [];
}

-- The function does nothing with a descriptor below 3.
unfoldable pub sample_sensors : Host → List ℕ → ℕ → ℕ → List SensorRound → Option Sampling
unfolding sample_runs init_sampler
sample_sensors h memory fd time rs =
    if ltb fd 3 then none else some (sample_runs h rs (init_sampler memory fd time))
