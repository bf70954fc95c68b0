-- ===== src/Prelude/Numbers.antt =====
-- Decimal numbers: atoi, and what printf makes of an int for %d.
use Prim.Native.Nat.{ℕ, zero, suc, ◌+◌, ◌-◌, ◌*◌, ◌/◌, ◌%◌, ◌^◌, ◌<◌}
use mathlib.Core.Path.{◌≡◌, refl, ap, ◌∙◌}
use mathlib.Core.Bool.{true, ◌&&◌, ◌||◌}
use mathlib.Core.Logic.{◌≢◌, inl, inr}
use mathlib.Core.List.{[], ◌∷◌, ◌++◌}
use native.Mathlib.Omega.{arith}
use jk16legacy.Prelude.Tests.{leb, ltb, ◌==◌, if◌then◌else◌, Bool-cases, ℤ, pos, negsuc}
use jk16legacy.Prelude.Lists.{All, All-append}
use jk16legacy.Prelude.CStrings.{Text, isdigit}

-- atoi; its behaviour outside the range of int is not modelled.
digits_value : ℕ → Text → ℕ
unfolding isdigit
digits_value acc [] = acc
digits_value acc (c ∷ s) =
    let more = digits_value (10 * acc + (c - b'0')) s in if isdigit c then more else acc

abbrev negate : ℕ → ℤ
negate zero = pos 0
negate (suc n) = negsuc n

atoi_signed : Text → ℤ
unfolding digits_value
atoi_signed [] = pos 0
atoi_signed (c ∷ s) =
    if c == b'-'
    then negate (digits_value 0 s)
    else if c == b'+'
    then pos (digits_value 0 s)
    else pos (digits_value 0 (c ∷ s))

skip_blanks : Text → Text
skip_blanks [] = []
skip_blanks (c ∷ s) = if c == b' ' || (leb 9 c && leb c 13) then skip_blanks s else c ∷ s

unfoldable pub atoi : Text → ℤ
unfolding skip_blanks atoi_signed
atoi s = atoi_signed (skip_blanks s)

-- The digits of a number, by fuel: as many steps as the number and one are more than enough.
digits : ℕ → ℕ → Text
digits zero n = []
digits (suc k) n =
    let rest = digits k (n / 10) in
    if ltb n 10 then (b'0' + n) ∷ [] else rest ++ ((b'0' + n % 10) ∷ [])

unfoldable pub decimal : ℕ → Text
unfolding digits
decimal n = digits (suc n) n

-- printf("%d", i)
unfoldable pub int_text : ℤ → Text
unfolding decimal
int_text (pos n) = decimal n
int_text (negsuc n) = b'-' ∷ decimal (suc n)

-- printf("%d", u) of an unsigned int: the same 32 bits as an int.
unfoldable pub unsigned_text : ℕ → Text
unfolding int_text
unsigned_text u = if ltb u (2 ^ 31) then int_text (pos u) else int_text (negsuc (2 ^ 32 - 1 - u))

AreDigits : Text → Type 0
unfolding isdigit
AreDigits = All (λ c. isdigit c ≡ true)

digits-AreDigits : (k n : ℕ) → AreDigits (digits k n)
unfolding digits AreDigits
digits-AreDigits zero n = tt
digits-AreDigits (suc k) n = elim (Bool-cases (ltb n 10)) [
  | inl e ↦ rw e (ground (arith, e), tt)
  | inr e ↦ rw e (
      All-append (λ c. isdigit c ≡ true) (digits k (n / 10)) ((b'0' + n % 10) ∷ [])
        (digits-AreDigits k (n / 10)) (ground arith, tt))
]

IsZeroFree-digits : (s : Text) → AreDigits s → All (λ c. c ≢ 0) s
unfolding AreDigits isdigit
IsZeroFree-digits [] h = tt
IsZeroFree-digits (c ∷ s) h =
    let digit = h.0 in ((λ e. ground (arith, digit, e)), IsZeroFree-digits s h.1)

-- What printf prints of an int has no zero byte.
pub int_text-zeros : (i : ℤ) → All (λ c. c ≢ 0) (int_text i)
unfolding int_text decimal
int_text-zeros (pos n) = IsZeroFree-digits (digits (suc n) n) (digits-AreDigits (suc n) n)
int_text-zeros (negsuc n) = (
  (λ e. ground (arith, e)),
  IsZeroFree-digits (digits (suc (suc n)) (suc n)) (digits-AreDigits (suc (suc n)) (suc n)),
)

digits_value-append :
    (acc : ℕ) (xs : Text) (d : ℕ)
    → AreDigits xs
    → isdigit d ≡ true
    → digits_value acc (xs ++ (d ∷ [])) ≡ 10 * digits_value acc xs + (d - b'0')
unfolding digits_value AreDigits
digits_value-append acc [] d h e = rw e refl
digits_value-append acc (x ∷ xs) d h e =
    rw h.0 (digits_value-append (10 * acc + (x - b'0')) xs d h.1 e)

digits_value-digits : (k n : ℕ) → n < k → digits_value 0 (digits k n) ≡ n
unfolding digits digits_value
digits_value-digits zero n h = absurd (omega (arith, h))
digits_value-digits (suc k) n h = elim (Bool-cases (ltb n 10)) [
  | inl e ↦ rw e (ground (arith, e))
  | inr e ↦
      let below : n / 10 < k = ground (arith, e) in
      rw
        (
          e,
          digits_value-append 0 (digits k (n / 10)) (b'0' + n % 10) (digits-AreDigits k (n / 10))
              (ground arith),
          digits_value-digits k (n / 10) below,
        )
        (omega arith)
]

atoi-AreDigits : (xs : Text) → AreDigits xs → atoi xs ≡ pos (digits_value 0 xs)
unfolding atoi AreDigits digits_value
atoi-AreDigits [] h = refl
atoi-AreDigits (c ∷ s) h = ground (arith, h.0)

-- Where printf has printed an int, atoi reads it back.
pub atoi-int_text : (i : ℤ) → atoi (int_text i) ≡ i
unfolding int_text atoi digits_value
atoi-int_text (pos n) =
    atoi-AreDigits (decimal n) (digits-AreDigits (suc n) n)
    ∙ ap pos (digits_value-digits (suc n) n (omega arith))
atoi-int_text (negsuc n) = ap negate (digits_value-digits (suc (suc n)) (suc n) (omega arith))
