-- ===== src/Prelude/Slices.antt =====
-- The first entries of a list, and those behind them.
use Prim.Native.Nat.{ℕ, zero, suc, ◌+◌, ◌≤◌}
use mathlib.Core.Path.{◌≡◌, refl, ap}
use mathlib.Core.List.{List, [], ◌∷◌, ◌++◌}
use native.Mathlib.Omega.{arith}
use jk16legacy.Prelude.Lists.{length, take, drop}

pub drop-all {ℓ} : {A : Type ℓ} (n : ℕ) (xs : List A) → length xs ≤ n → drop n xs ≡ []
drop-all zero [] h = refl
drop-all zero (x ∷ xs) h = absurd (omega arith)
drop-all (suc n) [] h = refl
drop-all (suc n) (x ∷ xs) h = drop-all n xs (omega arith)

pub take-all {ℓ} : {A : Type ℓ} (n : ℕ) (xs : List A) → length xs ≤ n → take n xs ≡ xs
take-all zero [] h = refl
take-all zero (x ∷ xs) h = absurd (omega arith)
take-all (suc n) [] h = refl
take-all (suc n) (x ∷ xs) h = ap (λ r. x ∷ r) (take-all n xs (omega arith))

pub take-add {ℓ} :
    {A : Type ℓ} (m n k : ℕ) (xs : List A) → m + n ≡ k → take m xs ++ take n (drop m xs) ≡ take k xs
take-add zero n k xs e = ap (λ j. take j xs) (omega (arith, e))
take-add (suc m) n zero [] e = absurd (omega (arith, e))
take-add (suc m) zero (suc k) [] e = refl
take-add (suc m) (suc n) (suc k) [] e = refl
take-add (suc m) n zero (x ∷ xs) e = absurd (omega (arith, e))
take-add (suc m) n (suc k) (x ∷ xs) e = ap (λ r. x ∷ r) (take-add m n k xs (omega (arith, e)))

pub drop-add {ℓ} :
    {A : Type ℓ} (m n k : ℕ) (xs : List A) → m + n ≡ k → drop k xs ≡ drop n (drop m xs)
drop-add zero n k xs e = ap (λ j. drop j xs) (omega (arith, e))
drop-add (suc m) n zero [] e = absurd (omega (arith, e))
drop-add (suc m) zero (suc k) [] e = refl
drop-add (suc m) (suc n) (suc k) [] e = refl
drop-add (suc m) n zero (x ∷ xs) e = absurd (omega (arith, e))
drop-add (suc m) n (suc k) (x ∷ xs) e = drop-add m n k xs (omega (arith, e))

pub take-length {ℓ} : {A : Type ℓ} (xs ys : List A) → take (length xs) (xs ++ ys) ≡ xs
take-length [] [] = refl
take-length [] (y ∷ ys) = refl
take-length (x ∷ xs) ys = ap (λ r. x ∷ r) (take-length xs ys)

pub take-within {ℓ} :
    {A : Type ℓ} (n : ℕ) (xs ys : List A) → n ≤ length xs → take n (xs ++ ys) ≡ take n xs
take-within zero xs ys h = refl
take-within (suc n) [] ys h = absurd (omega (arith, h))
take-within (suc n) (x ∷ xs) ys h = ap (λ r. x ∷ r) (take-within n xs ys (omega (arith, h)))
