-- ===== src/Sensors/Runs.antt =====
-- Every run of sample_sensors does to the stream what Sensors.Stream says.
use jk16legacy.Prelude.{
  ℕ, zero, suc, ◌+◌, ◌-◌, ◌≤◌, ◌<◌, ◌≡◌, refl, sym, ap, ◌∙◌, Bool, true, false, Option, none, some,
  List, [], ◌∷◌, ◌++◌, arith, ltb, if◌then◌else◌, length, take, drop, length-append, length-drop,
  take-append, length-take, take-all, take-within, Text,
}
use jk16legacy.Sensors.{
  Host, buffer_size, Sampler, find_linebreak, take_line, take_lines, Polled, select_error, silent,
  arrived, SensorRound, Sampling, sampling_on, sampling_over, store_bytes, receive_bytes, receive,
  update_movement, and_update, sample_run, sample_runs,
}
use jk16legacy.Sensors.Stream.{
  Listener, hear_pending, hear, tell_movements, Hearing, hearing_on, hearing_over, hear_some,
  hear_run, hear_runs,
}
use jk16legacy.Sensors.Buffer.{
  HoldsText, HasNoFeed, Found, no_feed, feed, find_linebreak-Found, split_lines_last,
  split_lines_feed, take_line-HoldsText,
}

abbrev Drained : Host → ℕ → Type 0
Drained h k =
    (s : Sampler) (m : Listener)
    → s.buffer_offset < k
    → HoldsText s m
    → HoldsText (take_lines h k s) (hear_pending h m)

-- What a run of the loop over the lines does after its search.
abbrev after_search : Host → ℕ → Sampler → Option ℕ → Sampler
after_search h k s none = s
after_search h k s (some c) = take_lines h k (take_line h c s)

take_lines_search :
    (h : Host) (k : ℕ) (s : Sampler) (o : Option ℕ)
    → find_linebreak s.buffer s.buffer_offset ≡ o
    → take_lines h (suc k) s ≡ after_search h k s o
unfolding take_lines
take_lines_search h k s o e = ap (after_search h k s) e

offset-take_line :
    (h : Host) (c : ℕ) (s : Sampler) → (take_line h c s).buffer_offset ≡ s.buffer_offset - (c + 1)
unfolding take_line
offset-take_line h c s = refl

-- The next line, given that `k` runs are enough for the lines behind it.
take_lines_next :
    (h : Host) (k : ℕ) (s : Sampler) (m : Listener) (o : Option ℕ)
    → Drained h k
    → s.buffer_offset ≤ k
    → HoldsText s m
    → find_linebreak s.buffer s.buffer_offset ≡ o
    → Found s.buffer s.buffer_offset o
    → HoldsText (take_lines h (suc k) s) (hear_pending h m)
unfolding hear_pending
take_lines_next h k s m none drained n v e (no_feed quiet) =
    let kept : HasNoFeed m.pending = rw v.pending at quiet in
    rw (take_lines_search h k s none e, split_lines_last m.pending kept) v
take_lines_next h k s m (some _) drained n v e (feed l rest b quiet i) =
    let lines : m.pending ≡ l ++ (b'\n' ∷ take (s.buffer_offset - (length l + 1)) rest) =
      sym v.pending
      ∙ ap (take s.buffer_offset) b
      ∙ take-append l (b'\n' ∷ rest) s.buffer_offset (suc (s.buffer_offset - (length l + 1)))
          (omega (arith, i)) in
    rw (take_lines_search h k s (some (length l)) e, lines, split_lines_feed l _ quiet)
      (drained (take_line h (length l) s) _
        (rw (offset-take_line h (length l) s) (omega (arith, n, i)))
        (take_line-HoldsText h l rest s m b i v))

-- As much fuel as the buffer has bytes, and one, is enough for the lines in it.
take_lines-HoldsText : (h : Host) (k : ℕ) → Drained h k
take_lines-HoldsText h zero s m n v = absurd (omega (arith, n))
take_lines-HoldsText h (suc k) s m n v =
    take_lines_next h k s m (find_linebreak s.buffer s.buffer_offset) (take_lines-HoldsText h k)
      (omega (arith, n)) v refl (find_linebreak-Found s.buffer s.buffer_offset)

store_bytes-HoldsText :
    (bytes : Text) (s : Sampler) (m : Listener)
    → length bytes ≤ buffer_size - s.buffer_offset
    → HoldsText s m
    → HoldsText (store_bytes bytes s) (record m { pending = m.pending ++ bytes })
unfolding store_bytes
store_bytes-HoldsText bytes s m n v =
    let filled = length-take s.buffer_offset s.buffer (omega (arith, v.size, v.room)) in
    record {
      size =
          rw (length-append, length-append)
            (omega (
              arith,
              filled,
              length-drop (s.buffer_offset + length bytes) s.buffer,
              v.size,
              v.room,
              n,
            ));
      room = omega (arith, n, v.room);
      pending =
          take-append (take s.buffer_offset s.buffer) _ (s.buffer_offset + length bytes)
            (length bytes) (omega (arith, filled))
          ∙ ap
              (λ t.
                t ++ take (length bytes) (bytes ++ drop (s.buffer_offset + length bytes) s.buffer))
              v.pending
          ∙ ap (◌++◌ m.pending) (
              take-within (length bytes) bytes _ (omega arith)
              ∙ take-all (length bytes) bytes (omega arith));
      movements = v.movements;
      last_time = v.last_time;
      calls = v.calls;
    }

update_movement-HoldsText :
    (t : ℕ) (s : Sampler) (m : Listener)
    → HoldsText s m
    → HoldsText (update_movement t s) (tell_movements t m)
unfolding update_movement tell_movements
update_movement-HoldsText t s m v =
    both (ltb 30 (t - s.last_sample_time)) (ltb 30 (t - m.last_time))
      (ap (λ x. ltb 30 (t - x)) v.last_time)
      (record {
        size = v.size;
        room = v.room;
        pending = v.pending;
        movements = refl;
        last_time = refl;
        calls = rw (v.calls, v.movements) refl;
      })
  where
    both :
        {x : Sampler} {y : Listener} (a b : Bool)
        → a ≡ b
        → HoldsText x y
        → HoldsText (if a then x else s) (if b then y else m)
    both true true e h = h
    both true false e h = cc
    both false true e h = cc
    both false false e h = v

-- How the loop over its buffer and the listener to the stream end a run alike.
pub data Agrees : Sampling → Hearing → Type 0 where
  both_on : {s : Sampler} {m : Listener} → HoldsText s m → Agrees (sampling_on s) (hearing_on m)
  both_over :
      {s : Sampler} {m : Listener} → HoldsText s m → Agrees (sampling_over s) (hearing_over m)

receive_bytes-Agrees :
    (h : Host) (bytes : Text) (t : ℕ) (s : Sampler) (m : Listener)
    → length bytes ≤ buffer_size - s.buffer_offset
    → HoldsText s m
    → Agrees (and_update t (receive_bytes h bytes s)) (hear_some h bytes t m)
unfolding and_update receive_bytes hear_some hear
receive_bytes-Agrees h [] t s m n v = both_over v
receive_bytes-Agrees h (b ∷ bytes) t s m n v =
    let s1 = store_bytes (b ∷ bytes) s in
    both_on (
      update_movement-HoldsText t (take_lines h (suc s1.buffer_offset) s1) _ (
        take_lines-HoldsText h (suc s1.buffer_offset) s1 _ (omega arith)
          (store_bytes-HoldsText (b ∷ bytes) s m n v)))

length_taken : (n : ℕ) (xs : Text) → length (take n xs) ≤ n
length_taken zero xs = omega arith
length_taken (suc n) [] = omega arith
length_taken (suc n) (x ∷ xs) = omega (arith, length_taken n xs)

sample_run-Agrees :
    (h : Host) (p : Polled) (t : ℕ) (s : Sampler) (m : Listener)
    → HoldsText s m
    → Agrees (sample_run h p t s) (hear_run h p t m)
unfolding sample_run hear_run receive and_update
sample_run-Agrees h select_error t s m v = both_over v
sample_run-Agrees h silent t s m v = both_on (update_movement-HoldsText t s m v)
sample_run-Agrees h (arrived bytes) t s m v =
    let filled : length m.pending ≡ s.buffer_offset =
      sym (ap length v.pending)
      ∙ length-take s.buffer_offset s.buffer (omega (arith, v.size, v.room)) in
    rw filled (
      receive_bytes-Agrees h (take (buffer_size - s.buffer_offset) bytes) t s m
        (length_taken (buffer_size - s.buffer_offset) bytes) v)

abbrev after_run : Host → List SensorRound → Sampling → Sampling
after_run h rs (sampling_on s) = sample_runs h rs s
after_run h rs (sampling_over s) = sampling_over s

abbrev pub after_hearing : Host → List SensorRound → Hearing → Hearing
after_hearing h rs (hearing_on m) = hear_runs h rs m
after_hearing h rs (hearing_over m) = hearing_over m

agree_next :
    (h : Host) (rs : List SensorRound)
    → ((s : Sampler) (m : Listener)
        → HoldsText s m
        → Agrees (sample_runs h rs s) (hear_runs h rs m))
    → (x : Sampling) (y : Hearing) → Agrees x y
    → Agrees (after_run h rs x) (after_hearing h rs y)
agree_next h rs k (sampling_on s) (hearing_on m) (both_on v) = k s m v
agree_next h rs k (sampling_over s) (hearing_over m) (both_over v) = both_over v
agree_next h rs k (sampling_on s) (hearing_over m) x = elim x [ ]
agree_next h rs k (sampling_over s) (hearing_on m) x = elim x [ ]

-- From variables that agree on, any number of runs of the loop agree with those of the listener.
pub sample_runs-Agrees :
    (h : Host) (rs : List SensorRound) (s : Sampler) (m : Listener)
    → HoldsText s m
    → Agrees (sample_runs h rs s) (hear_runs h rs m)
unfolding sample_runs hear_runs
sample_runs-Agrees h [] s m v = both_on v
sample_runs-Agrees h (r ∷ rs) s m v =
    agree_next h rs (λ s m v. sample_runs-Agrees h rs s m v) _ _
      (sample_run-Agrees h r.polled r.curr_time s m v)
