-- ===== src/Sensors/Laws.antt =====
-- What the streams of the sensors come to.
use jk16legacy.Prelude.{
  ℕ, ◌≡◌, refl, sym, ap, ◌∙◌, ◌≢◌, inl, inr, false, some, List, [], ◌∷◌, ◌++◌, append_assoc, arith,
  ◌==◌, Bool-cases, ℤ, length, take, Text, codes, strncmp_eq, int_text, atoi-int_text,
}
use jk16legacy.Sensors.{
  Call, system_called, open_called, write_called, close_called, Host, store_value, rrd_light_,
  txt_light_, buffer_size, SensorRound, sample_runs, init_sampler,
}
use jk16legacy.Sensors.Stream.{
  put_first_byte, split_lines, handle_line, Listener, hear_line, hear_lines, hear_pending, hear,
  hear_runs, init_listener,
}
use jk16legacy.Sensors.Runs.{Agrees, sample_runs-Agrees}
use mathlib.Core.List.{append_assoc}

-- However recv splits the stream and whatever the clock shows, sample_sensors with its buffer of 1024
-- bytes and its moves inside it ends, continues, counts and calls the system exactly as the listener
-- of Sensors.Stream does, which keeps the text of the unfinished line and handles every whole line as
-- a string. The buffer may hold anything at first.
pub sample_runs_lem :
    (h : Host) (memory : List ℕ) (fd time : ℕ) (rs : List SensorRound)
    → length memory ≡ buffer_size
    → Agrees
        (sample_runs h rs (init_sampler memory fd time))
        (hear_runs h rs (init_listener fd time))
unfolding init_sampler init_listener
sample_runs_lem h memory fd time rs e =
    sample_runs-Agrees h rs (init_sampler memory fd time) (init_listener fd time) (record {
      size = e;
      room = omega arith;
      pending = refl;
      movements = refl;
      last_time = refl;
      calls = refl;
    })

-- The lines of the text `b` behind a text that has been split already.
behind : List Text × Text → Text → List Text × Text
behind x b = let y = split_lines (x.1 ++ b) in (x.0 ++ y.0, y.1)

put_first_byte-behind :
    (c : ℕ) (x : List Text × Text) (b : Text)
    → (c == b'\n') ≡ false
    → put_first_byte c (behind x b) ≡ behind (put_first_byte c x) b
unfolding behind split_lines put_first_byte
put_first_byte-behind c ([], r) b e = rw e refl
put_first_byte-behind c (l ∷ ls, r) b e = refl

split_lines-append : (a b : Text) → split_lines (a ++ b) ≡ behind (split_lines a) b
unfolding behind split_lines
split_lines-append [] b = refl
split_lines-append (c ∷ a) b = elim (Bool-cases (c == b'\n')) [
  | inl e ↦ rw (e, split_lines-append a b) refl
  | inr e ↦ rw (e, split_lines-append a b) (put_first_byte-behind c (split_lines a) b e)
]

hear_lines-append :
    (h : Host) (ls ks : List Text) (m : Listener)
    → hear_lines h (ls ++ ks) m ≡ hear_lines h ks (hear_lines h ls m)
unfolding hear_lines
hear_lines-append h [] ks m = refl
hear_lines-append h (l ∷ ls) ks m = hear_lines-append h ls ks (hear_line h l m)

hear_lines-pending :
    (h : Host) (ls : List Text) (t : Text) (m : Listener)
    → hear_lines h ls (record m { pending = t }) ≡ record (hear_lines h ls m) { pending = t }
unfolding hear_lines hear_line
hear_lines-pending h [] t m = refl
hear_lines-pending h (l ∷ ls) t m = hear_lines-pending h ls t (hear_line h l m)

-- Where the stream is cut does not matter: to hear some bytes and then some more is to hear them all
-- at once.
hear-append : (h : Host) (a b : Text) (m : Listener) → hear h b (hear h a m) ≡ hear h (a ++ b) m
unfolding hear hear_pending behind
hear-append h a b m =
    let x = split_lines (m.pending ++ a) in
    let y = split_lines (x.1 ++ b) in
    let whole : split_lines (m.pending ++ (a ++ b)) ≡ behind x b =
      ap split_lines (sym (append_assoc m.pending a b)) ∙ split_lines-append (m.pending ++ a) b in
    ap (hear h b) (hear_lines-pending h x.0 x.1 m)
    ∙ ap (hear_lines h y.0) (sym (hear_lines-pending h x.0 y.1 m))
    ∙ sym (hear_lines-append h x.0 y.0 (record m { pending = y.1 }))
    ∙ ap (λ w. hear_lines h w.0 (record m { pending = w.1 })) (sym whole)

-- A reading of the light sensor is recorded as it was printed: the line with the text of an int
-- makes the process run rrdtool with that text, and write its first 12 bytes to the text file, if
-- the file can be opened with a descriptor other than 0.
photo_reading :
    (h : Host) (i : ℤ) (fd : ℕ) (calls : List Call)
    → fd ≢ 0
    → ((cs : List Call) → h.open_file cs (codes txt_light_) ≡ some fd)
    → handle_line h (codes "photo0: " ++ int_text i) calls ≡ (
      0,
      calls
          ++ (system_called
                (codes "rrdtool update " ++ codes rrd_light_ ++ codes " N:" ++ int_text i)
              ∷ open_called (codes txt_light_)
              ∷ write_called (some fd) (take 12 (int_text i))
              ∷ close_called (some fd)
              ∷ []),
    )
unfolding handle_line store_value strncmp_eq
photo_reading h i fd calls n o =
    let other : (fd == 0) ≡ false = ground (arith, n) in
    simp (atoi-int_text, o, other, append_assoc) refl
