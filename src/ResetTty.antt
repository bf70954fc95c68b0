-- ===== src/ResetTty.antt =====
-- reset_tty/reset_tty.c: a pulse on the line DTR of a serial device. open is a parameter; ioctl and
-- close are recorded with the descriptor that they are given, `none` for -1.
use jk16legacy.Prelude.{
  ℕ, ◌+◌, ◌-◌, ◌/◌, ◌%◌, Bool, true, false, Option, none, some, List, [], ◌∷◌, ◌==◌, if◌then◌else◌,
  ℤ, pos, Text, codes,
}

-- TIOCM_DTR on Linux is the bit of weight 2.
abbrev pub dtr_bit : ℕ → ℕ
dtr_bit flags = flags / 2 % 2

-- flags | TIOCM_DTR, and flags & ~TIOCM_DTR
pub with_dtr : Bool → ℕ → ℕ
with_dtr true flags = if dtr_bit flags == 0 then flags + 2 else flags
with_dtr false flags = if dtr_bit flags == 0 then flags else flags - 2

pub data ResetCall : Type 0 where
  dtr_set : Option ℕ → ℕ → ResetCall
  slept : ResetCall
  reset_close : Option ℕ → ResetCall
  could_not_open : Text → ResetCall

-- The flags that ioctl(fd, TIOCMSET, …) gets.
pub set_dtr_state : Option ℕ → Bool → ℕ → ResetCall × ℕ
unfolding with_dtr
set_dtr_state fd state flags = (dtr_set fd (with_dtr state flags), with_dtr state flags)

pub reset_device : List Text → Text
reset_device [] = codes "/dev/ttyUSB0"
reset_device (path ∷ args) = path

is_descriptor_zero : Option ℕ → Bool
is_descriptor_zero none = false
is_descriptor_zero (some fd) = fd == 0

-- main: the calls and the exit status, for the words after the name of the program, and the flags
-- that the device has at first.
pub reset_main : (Text → Option ℕ) → ℕ → List Text → List ResetCall × ℤ
unfolding set_dtr_state reset_device is_descriptor_zero
reset_main opens flags args =
    let fd = opens (reset_device args) in
    let (up, flags1) = set_dtr_state fd true flags in
    let (down, flags2) = set_dtr_state fd false flags1 in
    let (again_up, flags3) = set_dtr_state fd true flags2 in
    if is_descriptor_zero fd
    then (could_not_open (reset_device args) ∷ [], pos 1)
    else (up ∷ slept ∷ down ∷ slept ∷ again_up ∷ reset_close fd ∷ [], pos 0)
