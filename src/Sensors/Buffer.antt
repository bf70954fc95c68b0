-- ===== src/Sensors/Buffer.antt =====
-- The buffer of sample_sensors: its code does to the stream what Sensors.Stream says.
use jk16legacy.Prelude.{
  ℕ, zero, suc, ◌+◌, ◌-◌, ◌%◌, ◌^◌, ◌≤◌, ◌<◌, ◌≡◌, refl, sym, ap, ◌∙◌, ◌≢◌, inl, inr, false, Option,
  none, some, List, [], ◌∷◌, ◌++◌, arith, ◌==◌, ==_iff, Bool-cases, length, set, take, drop,
  length-append, length-drop, set-append, drop-append, All, take-within, Text, c_str,
}
use jk16legacy.Sensors.{Host, collect_data, buffer_size, Sampler, find_linebreak, take_line}
use jk16legacy.Sensors.Stream.{put_first_byte, split_lines, handle_line, Listener, hear_line}
use jk16legacy.Sensors.Line.{collect_data-ended}
use mathlib.Core.Option

-- A listener stands for the variables: the pending text is what the buffer holds.
pub record HoldsText (s : Sampler) (m : Listener) : Type 0 where
  pub size : length s.buffer ≡ buffer_size
  pub room : s.buffer_offset ≤ buffer_size
  pub pending : take s.buffer_offset s.buffer ≡ m.pending
  pub movements : s.movement_count ≡ m.movements
  pub last_time : s.last_sample_time ≡ m.last_time
  pub calls : s.calls ≡ m.asked

unfoldable pub HasNoFeed : Text → Type 0
HasNoFeed = All (λ c. c ≢ b'\n')

-- Where the buffer has a line feed among its first bytes, and where it has none.
pub data Found (buffer : List ℕ) (n : ℕ) : Option ℕ → Type 0 where
  no_feed : HasNoFeed (take n buffer) → Found buffer n none
  feed :
      (l m : Text)
      → buffer ≡ l ++ (b'\n' ∷ m)
      → HasNoFeed l
      → length l < n
      → Found buffer n (some (length l))

Found-cons :
    (b : ℕ) (buffer : List ℕ) (n : ℕ) (o : Option ℕ)
    → b ≢ b'\n'
    → Found buffer n o
    → Found (b ∷ buffer) (suc n) (Option.map suc o)
unfolding HasNoFeed
Found-cons b buffer n none h (no_feed k) = no_feed (h, k)
Found-cons b buffer n (some _) h (feed l m e k i) =
    feed (b ∷ l) m (ap (λ r. b ∷ r) e) (h, k) (omega (arith, i))

pub find_linebreak-Found : (buffer : List ℕ) (n : ℕ) → Found buffer n (find_linebreak buffer n)
unfolding find_linebreak HasNoFeed
find_linebreak-Found buffer zero = no_feed tt
find_linebreak-Found [] (suc n) = no_feed tt
find_linebreak-Found (b ∷ buffer) (suc n) = elim (Bool-cases (b == b'\n')) [
  | inl e ↦
      let is_feed : b ≡ b'\n' = (==_iff b b'\n').0 e in
      rw e (feed [] buffer (ap (λ x. x ∷ buffer) is_feed) tt (omega arith))
  | inr e ↦ rw e (
      Found-cons b buffer n (find_linebreak buffer n) (ground (arith, e))
        (find_linebreak-Found buffer n))
]

pub split_lines_last : (t : Text) → HasNoFeed t → split_lines t ≡ ([], t)
unfolding split_lines HasNoFeed put_first_byte
split_lines_last [] h = refl
split_lines_last (c ∷ t) h =
    let mid : (c == b'\n') ≡ false = ground (arith, h.0) in rw (mid, split_lines_last t h.1) refl

pub split_lines_feed :
    (l m : Text)
    → HasNoFeed l
    → split_lines (l ++ (b'\n' ∷ m)) ≡ (l ∷ (split_lines m).0, (split_lines m).1)
unfolding split_lines HasNoFeed put_first_byte
split_lines_feed [] m h = refl
split_lines_feed (c ∷ l) m h =
    let mid : (c == b'\n') ≡ false = ground (arith, h.0) in rw (mid, split_lines_feed l m h.1) refl

drop_line_end : (l m : Text) → drop (length l + 1) (l ++ (0 ∷ m)) ≡ m
drop_line_end l m =
    let next : length l + 1 ≡ suc (length l) = omega arith in
    ap (λ n. drop n (l ++ (0 ∷ m))) next ∙ drop-append l m 0

pub take_line-HoldsText :
    (h : Host) (l rest : Text) (s : Sampler) (m : Listener)
    → s.buffer ≡ l ++ (b'\n' ∷ rest)
    → length l < s.buffer_offset
    → HoldsText s m
    → HoldsText
        (take_line h (length l) s)
        (record (hear_line h l m) { pending = take (s.buffer_offset - (length l + 1)) rest })
unfolding take_line hear_line
take_line-HoldsText h l rest s m e n v =
    let cut : set s.buffer (length l) 0 ≡ l ++ (0 ∷ rest) = rw e (set-append l rest b'\n' 0) in
    let handled : collect_data h (set s.buffer (length l) 0) (s.buffer_offset + length l) s.calls
        ≡ handle_line h (c_str l) m.asked =
      ap (λ b. collect_data h b (s.buffer_offset + length l) s.calls) cut
      ∙ collect_data-ended h l rest (s.buffer_offset + length l) s.calls (omega (arith, n))
      ∙ ap (handle_line h (c_str l)) v.calls in
    let long : length l + 1 + length rest ≡ buffer_size =
      omega (arith, sym (ap length e) ∙ v.size, length-append l (b'\n' ∷ rest)) in
    record {
      size =
          rw (cut, drop_line_end, length-append)
            (omega (
              arith,
              long,
              length-drop (buffer_size - (length l + 1)) (l ++ (0 ∷ rest)),
              length-append l (0 ∷ rest),
            ));
      room = omega (arith, v.room);
      pending =
          rw (cut, drop_line_end)
            (take-within (s.buffer_offset - (length l + 1)) rest _ (omega (arith, long, v.room)));
      movements = ap (λ c. c % 2 ^ 32) (rw (ap (λ r. r.0) handled, v.movements) refl);
      last_time = v.last_time;
      calls = ap (λ r. r.1) handled;
    }
