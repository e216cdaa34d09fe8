-- ===== src/Base/Decimal.antt =====
-- Decimal numerals are read back, also behind leading zeros.
use Prim.Native.Nat.{ℕ, zero, suc, ◌+◌, ◌-◌, ◌*◌, ◌/◌, ◌%◌, ◌≤◌}
use mathlib.Core.Path.{◌≡◌, refl, ◌∙◌, ap}
use mathlib.Core.Bool.{Bool, true}
use mathlib.Core.Logic.{inl, inr}
use mathlib.Core.List.{[], ◌∷◌, ◌++◌, append_assoc}
use native.Mathlib.Omega.{arith}
use cdk_system.Base.Tests.{◌==◌, if◌then◌else◌, Bool-cases}
use cdk_system.Base.Lists.{length, replicate, all, all-append, all-replicate}
use cdk_system.Base.Texts.{Text, digits_from, decimal, pad_start}

-- The number that the digits before the first underscore continue.
unfoldable pub read_number : ℕ → Text → ℕ
read_number n [] = n
read_number n (c ∷ s) =
    let more = read_number (n * 10 + (c - b'0')) s in if c == b'_' then n else more

read_number-digit :
    (n d : ℕ) (s : Text) → d ≤ 9 → read_number n ((b'0' + d) ∷ s) ≡ read_number (n * 10 + d) s
unfolding read_number
read_number-digit n d s h = ground (arith, digit d)
  where
    digit : (d : ℕ) → (b'0' + d) - b'0' ≡ d
    digit d = omega arith

read_number-digits_from :
    (f n : ℕ) (acc rest : Text)
    → n ≤ f
    → read_number 0 (digits_from f n acc ++ rest) ≡ read_number n (acc ++ rest)
unfolding digits_from
read_number-digits_from zero zero acc rest h = read_number-digit 0 0 (acc ++ rest) (omega arith)
read_number-digits_from zero (suc n) acc rest h = absurd (omega arith)
read_number-digits_from (suc f) n acc rest h = elim (Bool-cases (n / 10 == 0)) [
  | inl last ↦ rw last (
      rw (read_number-digit 0 (n % 10) (acc ++ rest) (omega arith))
        (ap (λ k. read_number k (acc ++ rest)) (ground arith)))
  | inr more ↦ rw more (
      read_number-digits_from f (n / 10) ((b'0' + n % 10) ∷ acc) rest (ground arith)
      ∙ read_number-digit (n / 10) (n % 10) (acc ++ rest) (omega arith)
      ∙ ap (λ k. read_number k (acc ++ rest)) (omega arith))
]

read_number-replicate : (k : ℕ) (s : Text) → read_number 0 (replicate k b'0' ++ s) ≡ read_number 0 s
unfolding read_number
read_number-replicate zero s = refl
read_number-replicate (suc k) s = read_number-replicate k s

-- A padded numeral with an underscore behind it is read back.
pub read_number-pad_start :
    (width n : ℕ) (rest : Text)
    → read_number 0 (pad_start width b'0' (decimal n) ++ (b'_' ∷ rest)) ≡ n
unfolding pad_start decimal
read_number-pad_start width n rest =
    ap (read_number 0) (
      append_assoc (replicate (width - length (digits_from n n [])) b'0') (digits_from n n [])
        (b'_' ∷ rest))
    ∙ read_number-replicate (width - length (digits_from n n []))
        (digits_from n n [] ++ (b'_' ∷ rest))
    ∙ read_number-digits_from n n [] (b'_' ∷ rest) (omega arith)
    ∙ (unfold read_number in refl)

all-digits_from :
    (p : ℕ → Bool)
    → ((d : ℕ) → d ≤ 9 → p (b'0' + d) ≡ true)
    → (f n : ℕ) (acc : Text) → all p acc ≡ true
    → all p (digits_from f n acc) ≡ true
unfolding digits_from all
all-digits_from p h zero n acc k = ground (arith, h (n % 10))
all-digits_from p h (suc f) n acc k =
    ground (arith, h (n % 10), all-digits_from p h f (n / 10) ((b'0' + n % 10) ∷ acc))

-- A padded numeral consists of digits.
pub all-pad_start :
    (p : ℕ → Bool)
    → ((d : ℕ) → d ≤ 9 → p (b'0' + d) ≡ true)
    → (width n : ℕ) → all p (pad_start width b'0' (decimal n)) ≡ true
unfolding pad_start decimal
all-pad_start p h width n =
    rw
      (
        all-append p (replicate (width - length (digits_from n n [])) b'0') (digits_from n n []),
        all-replicate p (width - length (digits_from n n [])) b'0' (h 0 (omega arith)),
      )
      (all-digits_from p h n n [] (unfold all in refl))
