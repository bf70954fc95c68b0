-- ===== src/Sensors/Stream.antt =====
-- What sample_sensors does with the bytes of the stream, without its buffer: the text that is not
-- yet a line is kept, and every line is handled as a string.
use jk16legacy.Prelude.{
  ℕ, ◌+◌, ◌-◌, ◌%◌, ◌^◌, List, [], ◌∷◌, ◌++◌, ltb, ◌==◌, if◌then◌else◌, length, take, drop, Text,
  codes, c_str, strncmp_eq, atoi, int_text, unsigned_text,
}
use jk16legacy.Sensors.{
  Call, send_called, system_called, Host, store_value, rrd_temp_, txt_temp_, rrd_light_, txt_light_,
  rrd_movement_, buffer_size, Polled, select_error, silent, arrived, SensorRound,
}

-- The lines of a text, and what stands behind its last line feed.
unfoldable pub put_first_byte : ℕ → List Text × Text → List Text × Text
put_first_byte c ([], rest) = ([], c ∷ rest)
put_first_byte c (l ∷ ls, rest) = ((c ∷ l) ∷ ls, rest)

unfoldable pub split_lines : Text → List Text × Text
unfolding put_first_byte
split_lines [] = ([], [])
split_lines (c ∷ t) =
    let (ls, rest) = split_lines t in
    if c == b'\n' then ([] ∷ ls, rest) else put_first_byte c (ls, rest)

-- What a line says, and for how many movements it counts.
unfoldable pub handle_line : Host → Text → List Call → ℕ × List Call
handle_line h line calls =
    if strncmp_eq (codes "movement") line 8
    then (1, calls)
    else if strncmp_eq (codes "temp0: ") line 7
    then (0, store_value h rrd_temp_ txt_temp_ (h.float_text (drop 7 line)) calls)
    else if strncmp_eq (codes "photo0: ") line 8
    then (0, store_value h rrd_light_ txt_light_ (int_text (atoi (drop 8 line))) calls)
    else (0, calls)

-- The variables of sample_sensors, with the text that waits for its line feed in place of the buffer.
pub record Listener : Type 0 where
  pub pending : Text
  pub movements : ℕ
  pub last_time : ℕ
  pub asked : List Call

unfoldable pub hear_line : Host → Text → Listener → Listener
unfolding handle_line
hear_line h line m =
    let (moved, calls) = handle_line h (c_str line) m.asked in
    record m { movements = (m.movements + moved) % 2 ^ 32; asked = calls }

unfoldable pub hear_lines : Host → List Text → Listener → Listener
unfolding hear_line
hear_lines h [] m = m
hear_lines h (l ∷ ls) m = hear_lines h ls (hear_line h l m)

-- The lines that the pending text has are handled, the rest stays.
unfoldable pub hear_pending : Host → Listener → Listener
unfolding hear_lines split_lines
hear_pending h m =
    let (ls, rest) = split_lines m.pending in hear_lines h ls (record m { pending = rest })

unfoldable pub hear : Host → Text → Listener → Listener
unfolding hear_pending
hear h bytes m = hear_pending h (record m { pending = m.pending ++ bytes })

unfoldable pub tell_movements : ℕ → Listener → Listener
tell_movements curr_time m =
    if ltb 30 (curr_time - m.last_time)
    then record m {
      last_time = curr_time;
      movements = 0;
      asked =
          m.asked
          ++ (system_called (
                codes "rrdtool update "
                ++ codes rrd_movement_
                ++ codes " -t movement N:"
                ++ unsigned_text m.movements)
              ∷ []);
    }
    else m

pub data Hearing : Type 0 where
  hearing_on hearing_over : Listener → Hearing

unfoldable pub hear_some : Host → Text → ℕ → Listener → Hearing
unfolding hear tell_movements
hear_some h [] curr_time m = hearing_over m
hear_some h (b ∷ bytes) curr_time m = hearing_on (tell_movements curr_time (hear h (b ∷ bytes) m))

-- A run: of the bytes that have arrived, as many come as there is room for.
unfoldable pub hear_run : Host → Polled → ℕ → Listener → Hearing
unfolding hear_some
hear_run h select_error curr_time m = hearing_over m
hear_run h silent curr_time m = hearing_on (tell_movements curr_time m)
hear_run h (arrived bytes) curr_time m =
    hear_some h (take (buffer_size - length m.pending) bytes) curr_time m

unfoldable pub hear_runs : Host → List SensorRound → Listener → Hearing
unfolding hear_run
hear_runs h [] m = hearing_on m
hear_runs h (r ∷ rs) m = elim (hear_run h r.polled r.curr_time m) [
  | hearing_on m' ↦ hear_runs h rs m'
  | hearing_over m' ↦ hearing_over m'
]

unfoldable pub init_listener : ℕ → ℕ → Listener
init_listener fd time = record {
  pending = [];
  movements = 0;
  last_time = time;
  asked =
      send_called fd (codes "listen sensor\n") ∷ send_called fd (codes "listen movement\n") ∷ [];
}
