-- ===== src/Sensors/Line.antt =====
-- What sample_sensors does with one line of its buffer.
use jk16legacy.Prelude.{
  ℕ, ◌≤◌, ◌<◌, ◌≡◌, refl, ap, ◌∙◌, inl, inr, Bool, true, false, ◌&&◌, List, [], ◌∷◌, ◌++◌, arith,
  ltb, leb, ◌==◌, if◌then◌else◌, Bool-cases, length, drop, Text, codes, c_str, strncmp_eq, atoi,
  int_text,
}
use jk16legacy.Sensors.{
  Call, Host, store_value, check_handle_line, check_handle_line_float, rrd_temp_, txt_temp_,
  rrd_light_, txt_light_, collect_data,
}
use jk16legacy.Sensors.Stream.{handle_line}
use Prim.Native.String.{String}

-- The string in the memory, where a zero has been put behind `l`.
c_str_ended : (l m : Text) → c_str (l ++ (0 ∷ m)) ≡ c_str l
unfolding c_str
c_str_ended [] m = refl
c_str_ended (b ∷ l) m = elim (Bool-cases (b == 0)) [
  | inl e ↦ rw e refl
  | inr e ↦ rw e (ap (λ r. b ∷ r) (c_str_ended l m))
]

-- A string behind a prefix without zeros.
c_str-drop :
    (prefix mem : Text)
    → strncmp_eq prefix (c_str mem) (length prefix) ≡ true
    → c_str (drop (length prefix) mem) ≡ drop (length prefix) (c_str mem)
unfolding c_str strncmp_eq
c_str-drop [] mem h = refl
c_str-drop (p ∷ prefix) [] h = refl
c_str-drop (p ∷ prefix) (b ∷ mem) h = elim (Bool-cases (b == 0)) [
  | inl e ↦ absurd (let k : false ≡ true = rw e at h in cc)
  | inr e ↦
      let k : (p == b && strncmp_eq prefix (c_str mem) (length prefix)) ≡ true = rw e at h in
      rw e (c_str-drop prefix mem (ground (arith, k)))
]

length-prefix :
    (prefix s : Text) → strncmp_eq prefix s (length prefix) ≡ true → length prefix ≤ length s
unfolding strncmp_eq
length-prefix [] s h = omega arith
length-prefix (p ∷ prefix) [] h = ground (arith, h)
length-prefix (p ∷ prefix) (b ∷ s) h = ground (arith, length-prefix prefix s)

length-c_str : (m : Text) → length (c_str m) ≤ length m
unfolding c_str
length-c_str [] = omega arith
length-c_str (b ∷ m) = ground (arith, length-c_str m)

prefix_inside :
    (prefix l : Text) (size : ℕ)
    → length l < size
    → strncmp_eq prefix (c_str l) (length prefix) ≡ true
    → ltb (length prefix) size ≡ true
prefix_inside prefix l size a e = ground (arith, length-prefix prefix (c_str l) e, length-c_str l)

value-ended :
    (prefix l m : Text)
    → strncmp_eq prefix (c_str l) (length prefix) ≡ true
    → c_str (drop (length prefix) (l ++ (0 ∷ m))) ≡ drop (length prefix) (c_str l)
value-ended prefix l m e =
    c_str-drop prefix (l ++ (0 ∷ m)) (rw c_str_ended e)
    ∙ ap (drop (length prefix)) (c_str_ended l m)

and_right : (a : Bool) → (a && false) ≡ false
and_right true = refl
and_right false = refl

module _ (h : Host) (l m : Text) (size : ℕ) (rrd_file txt_file : String) (calls : List Call) where
  check_handle_line-ended :
      (p : Text)
      → length l < size
      → check_handle_line h (l ++ (0 ∷ m)) size p rrd_file txt_file calls ≡ (
          if strncmp_eq p (c_str l) (length p)
          then (
            true,
            store_value h rrd_file txt_file (int_text (atoi (drop (length p) (c_str l)))) calls,
          )
          else (false, calls))
  unfolding check_handle_line
  check_handle_line-ended p a = elim (Bool-cases (strncmp_eq p (c_str l) (length p))) [
    | inl e ↦ rw (c_str_ended, value-ended p l m e, e, prefix_inside p l size a e) refl
    | inr e ↦ rw (c_str_ended, e, and_right) refl
  ]

  check_handle_line_float-ended :
      (p : Text)
      → length l < size
      → check_handle_line_float h (l ++ (0 ∷ m)) size p rrd_file txt_file calls ≡ (
          if strncmp_eq p (c_str l) (length p)
          then (
            true,
            store_value h rrd_file txt_file (h.float_text (drop (length p) (c_str l))) calls,
          )
          else (false, calls))
  unfolding check_handle_line_float
  check_handle_line_float-ended p a = elim (Bool-cases (strncmp_eq p (c_str l) (length p))) [
    | inl e ↦ rw (c_str_ended, value-ended p l m e, e, prefix_inside p l size a e) refl
    | inr e ↦ rw (c_str_ended, e, and_right) refl
  ]

pick : Bool → Bool × List Call → Bool × List Call → List Call → ℕ × List Call
pick moved temp photo calls =
    if moved then (1, calls) else if temp.0 then (0, temp.1) else (0, photo.1)

collect_data-pick :
    (h : Host) (mem : Text) (size : ℕ) (calls : List Call)
    → collect_data h mem size calls
      ≡ pick
          (leb 8 size && strncmp_eq (codes "movement") (c_str mem) 8)
          (check_handle_line_float h mem size (codes "temp0: ") rrd_temp_ txt_temp_ calls)
          (check_handle_line h mem size (codes "photo0: ") rrd_light_ txt_light_ calls)
          calls
unfolding collect_data pick
collect_data-pick h mem size calls = refl

movement_inside :
    (l m : Text) (size : ℕ)
    → length l < size
    → (leb 8 size && strncmp_eq (codes "movement") (c_str (l ++ (0 ∷ m))) 8)
      ≡ strncmp_eq (codes "movement") (c_str l) 8
movement_inside l m size a = elim (Bool-cases (strncmp_eq (codes "movement") (c_str l) 8)) [
  | inl e ↦
      let long : leb 8 size ≡ true =
        ground (arith, length-prefix (codes "movement") (c_str l) e, length-c_str l) in
      rw (c_str_ended, e, long) refl
  | inr e ↦ rw (c_str_ended, e, and_right) refl
]

pick-handle_line :
    (h : Host) (line : Text) (calls : List Call)
    → pick
        (strncmp_eq (codes "movement") line 8)
        (if strncmp_eq (codes "temp0: ") line 7
          then (true, store_value h rrd_temp_ txt_temp_ (h.float_text (drop 7 line)) calls)
          else (false, calls))
        (if strncmp_eq (codes "photo0: ") line 8
          then (true, store_value h rrd_light_ txt_light_ (int_text (atoi (drop 8 line))) calls)
          else (false, calls))
        calls
      ≡ handle_line h line calls
unfolding handle_line pick
pick-handle_line h line calls = elim (Bool-cases (strncmp_eq (codes "movement") line 8)) [
  | inl e ↦ rw e refl
  | inr e ↦ rw e (elim (Bool-cases (strncmp_eq (codes "temp0: ") line 7)) [
    | inl f ↦ rw f refl
    | inr f ↦ rw f (elim (Bool-cases (strncmp_eq (codes "photo0: ") line 8)) [
      | inl g ↦ rw g refl
      | inr g ↦ rw g refl
    ])
  ])
]

-- A line that ends with a zero in the memory is handled as the string that it is, if the size is
-- more than its length.
pub collect_data-ended :
    (h : Host) (l m : Text) (size : ℕ) (calls : List Call)
    → length l < size
    → collect_data h (l ++ (0 ∷ m)) size calls ≡ handle_line h (c_str l) calls
collect_data-ended h l m size calls a =
    rw
      (
        collect_data-pick,
        movement_inside l m size a,
        check_handle_line_float-ended h l m size rrd_temp_ txt_temp_ calls (codes "temp0: ") a,
        check_handle_line-ended h l m size rrd_light_ txt_light_ calls (codes "photo0: ") a,
      )
      (pick-handle_line h (c_str l) calls)
