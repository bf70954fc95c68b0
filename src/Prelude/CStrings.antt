-- ===== src/Prelude/CStrings.antt =====
-- C strings and the functions of <string.h>, <ctype.h> and <stdlib.h> that the source calls. A
-- string is the list of its bytes before the terminating zero.
use Prim.Native.Nat.{ℕ, zero, suc, ◌+◌, ◌-◌}
use Prim.Native.Char.{code}
use Prim.Native.String.{String}
use mathlib.Core.Path.{◌≡◌, refl}
use mathlib.Core.Bool.{Bool, true, false, ◌&&◌}
use mathlib.Core.Logic.{◌↔◌}
use mathlib.Core.List.{List, [], ◌∷◌}
use mathlib.Core.Option.{Option, none, some}
use native.Mathlib.Omega.{arith}
use jk16legacy.Prelude.Tests.{leb, ◌==◌, if◌then◌else◌}

abbrev pub Text : Type 0
Text = List ℕ

-- The bytes of a literal.
abbrev pub codes : String → Text
codes String.[] = []
codes (String.◌∷◌ c s) = code c ∷ codes s

-- What printf makes of a string that may be null.
abbrev pub or_null : Option Text → Text
or_null none = codes "(null)"
or_null (some s) = s

-- The string that stands at the start of a piece of memory: the bytes before the first zero.
unfoldable pub c_str : List ℕ → Text
c_str [] = []
c_str (b ∷ m) = if b == 0 then [] else b ∷ c_str m

-- !strcmp(a, b)
unfoldable pub strcmp_eq : Text → Text → Bool
strcmp_eq [] [] = true
strcmp_eq [] (y ∷ ys) = false
strcmp_eq (x ∷ xs) [] = false
strcmp_eq (x ∷ xs) (y ∷ ys) = x == y && strcmp_eq xs ys

-- !strncmp(a, b, n)
unfoldable pub strncmp_eq : Text → Text → ℕ → Bool
strncmp_eq xs ys zero = true
strncmp_eq [] [] (suc n) = true
strncmp_eq [] (y ∷ ys) (suc n) = false
strncmp_eq (x ∷ xs) [] (suc n) = false
strncmp_eq (x ∷ xs) (y ∷ ys) (suc n) = x == y && strncmp_eq xs ys n

-- strchr(s, c): the string from the first `c` on.
unfoldable pub strchr : Text → ℕ → Option Text
strchr [] c = none
strchr (x ∷ xs) c = if x == c then some (x ∷ xs) else strchr xs c

-- s with what stands before its first `c`: `s` where `strchr` has put a zero at `c`.
unfoldable pub cut_at : Text → ℕ → Text
cut_at [] c = []
cut_at (x ∷ xs) c = if x == c then [] else x ∷ cut_at xs c

-- toupper and tolower in the C locale.
unfoldable pub toupper : ℕ → ℕ
toupper c = if leb b'a' c && leb c b'z' then c - 32 else c

unfoldable pub tolower : ℕ → ℕ
tolower c = if leb b'A' c && leb c b'Z' then c + 32 else c

unfoldable pub isdigit : ℕ → Bool
isdigit c = leb b'0' c && leb c b'9'

pub strcmp_eq_sound : (xs ys : Text) → strcmp_eq xs ys ≡ true → xs ≡ ys
unfolding strcmp_eq
strcmp_eq_sound [] [] h = refl
strcmp_eq_sound [] (y ∷ ys) h = ground arith
strcmp_eq_sound (x ∷ xs) [] h = ground arith
strcmp_eq_sound (x ∷ xs) (y ∷ ys) h = ground (arith, strcmp_eq_sound xs ys)

pub strcmp_eq_refl : (xs : Text) → strcmp_eq xs xs ≡ true
unfolding strcmp_eq
strcmp_eq_refl [] = refl
strcmp_eq_refl (x ∷ xs) = ground (arith, strcmp_eq_refl xs)

pub strcmp_eq_iff : (xs ys : Text) → (strcmp_eq xs ys ≡ true) ↔ (xs ≡ ys)
strcmp_eq_iff xs ys = (strcmp_eq_sound xs ys, λ e. ground (arith, strcmp_eq_refl xs))
