-- ===== src/Prelude/Bits.antt =====
-- When an exclusive or and an or of numbers are zero.
use Prim.Native.Nat.{
  ℕ, zero, suc, ◌+◌, ◌*◌, ◌/◌, ◌%◌, ◌≤◌, ◌<◌, max, digits, differ, bitwise, bit_xor, bit_or,
  bit_xor-bitwise, bit_or-bitwise,
}
use mathlib.Core.Path.{◌≡◌, refl, ap, ◌∙◌, subst}
use mathlib.Core.Logic.{◌↔◌}
use native.Mathlib.Omega.{arith}
use native.Mathlib.Nat.{le_refl}

-- The count of digits that a native operation starts from does not matter, when it is enough.
module _ (f : ℕ → ℕ → ℕ) where
  digits-enough :
      (count more x y : ℕ)
      → x ≤ count
      → x ≤ more
      → digits (λ v. v) f count x y ≡ digits (λ v. v) f more x y
  digits-enough zero zero x y enough plenty = refl
  digits-enough zero (suc more) zero y enough plenty = refl
  digits-enough (suc count) zero zero y enough plenty = refl
  digits-enough (suc count) (suc more) zero y enough plenty = refl
  digits-enough zero (suc more) (suc x) y enough plenty = absurd (omega arith)
  digits-enough (suc count) zero (suc x) y enough plenty = absurd (omega arith)
  digits-enough (suc count) (suc more) (suc x) y enough plenty =
      let half = suc x / 2 in
      rw (digits-enough count more half (y / 2) (omega arith) (omega arith)) refl

  last_digit :
      (a b : ℕ)
      → bitwise (λ y. y) f (suc a) b
        ≡ bitwise (λ y. y) f (suc a / 2) (b / 2) * 2 + f (suc a % 2) (b % 2)
  last_digit a b =
      omega (arith, digits-enough a (suc a / 2) (suc a / 2) (b / 2) (omega arith) (le_refl _))

bit_xor-zero_left : (b : ℕ) → bit_xor 0 b ≡ b
bit_xor-zero_left b = bit_xor-bitwise 0 b

bit_or-zero_left : (b : ℕ) → bit_or 0 b ≡ b
bit_or-zero_left b = bit_or-bitwise 0 b

xor_digit : (a b : ℕ) → bit_xor a b ≡ bit_xor (a / 2) (b / 2) * 2 + differ (a % 2) (b % 2)
xor_digit zero b = omega (arith, bit_xor-zero_left b, bit_xor-zero_left (b / 2))
xor_digit (suc a) b = simp bit_xor-bitwise (last_digit differ a b)

or_digit : (a b : ℕ) → bit_or a b ≡ bit_or (a / 2) (b / 2) * 2 + max (a % 2) (b % 2)
or_digit zero b = omega (arith, bit_or-zero_left b, bit_or-zero_left (b / 2))
or_digit (suc a) b = simp bit_or-bitwise (last_digit max a b)

differ-zero : (x y : ℕ) → (differ x y ≡ 0) ↔ (x ≡ y)
differ-zero zero y = (λ h. omega arith, λ h. omega arith)
differ-zero (suc x) zero = (λ h. absurd (omega arith), λ h. absurd (omega arith))
differ-zero (suc x) (suc y) =
    (λ h. omega (arith, (differ-zero x y).0 h), λ h. (differ-zero x y).1 (omega arith))

differ-le : (x y : ℕ) → x < 2 → y < 2 → differ x y < 2
differ-le zero y h k = k
differ-le (suc zero) zero h k = omega arith
differ-le (suc zero) (suc y) h k = omega arith
differ-le (suc (suc x)) y h k = absurd (omega arith)

-- The low digits of an exclusive or are zero exactly when those of the two numbers are the same.
abbrev Agrees : ℕ → Type 0
Agrees m = (a b : ℕ) → (bit_xor a b % m ≡ 0) ↔ (a % m ≡ b % m)

Agrees-double :
    (m : ℕ)
    → ((x d : ℕ) → d < 2 → (x * 2 + d) % (m * 2) ≡ (x % m) * 2 + d)
    → Agrees m
    → Agrees (m * 2)
Agrees-double m halves agrees a b =
    let d = differ (a % 2) (b % 2) in
    let x = bit_xor (a / 2) (b / 2) in
    let small : d < 2 = differ-le (a % 2) (b % 2) (omega arith) (omega arith) in
    let low_a : a % (m * 2) ≡ (a / 2 % m) * 2 + a % 2 =
      subst (λ n. n % (m * 2) ≡ (a / 2 % m) * 2 + a % 2) (omega arith)
        (halves (a / 2) (a % 2) (omega arith)) in
    let low_b : b % (m * 2) ≡ (b / 2 % m) * 2 + b % 2 =
      subst (λ n. n % (m * 2) ≡ (b / 2 % m) * 2 + b % 2) (omega arith)
        (halves (b / 2) (b % 2) (omega arith)) in
    let low : bit_xor a b % (m * 2) ≡ (x % m) * 2 + d =
      ap (λ n. n % (m * 2)) (xor_digit a b) ∙ halves x d small in
    (
      λ h. omega (
        arith,
        low,
        low_a,
        low_b,
        (agrees (a / 2) (b / 2)).0 (omega (arith, low)),
        (differ-zero (a % 2) (b % 2)).0 (omega (arith, low)),
      ),
      λ h. omega (
        arith,
        low,
        low_a,
        low_b,
        (agrees (a / 2) (b / 2)).1 (omega (arith, low_a, low_b)),
        (differ-zero (a % 2) (b % 2)).1 (omega (arith, low_a, low_b)),
      ),
    )

Agrees-one : Agrees 1
Agrees-one a b = (λ h. omega arith, λ h. omega arith)

pub bit_xor-low_byte : (a b : ℕ) → (bit_xor a b % 256 ≡ 0) ↔ (a % 256 ≡ b % 256)
bit_xor-low_byte =
    Agrees-double 128 (λ x d h. omega arith)
      (Agrees-double 64 (λ x d h. omega arith)
        (Agrees-double 32 (λ x d h. omega arith)
          (Agrees-double 16 (λ x d h. omega arith)
            (Agrees-double 8 (λ x d h. omega arith)
              (Agrees-double 4 (λ x d h. omega arith)
                (Agrees-double 2 (λ x d h. omega arith)
                  (Agrees-double 1 (λ x d h. omega arith) Agrees-one)))))))

xor_zero_within : (n a b : ℕ) → a ≤ n → (bit_xor a b ≡ 0) ↔ (a ≡ b)
xor_zero_within n zero b p =
    (λ h. omega (arith, bit_xor-zero_left b), λ h. omega (arith, bit_xor-zero_left b))
xor_zero_within zero (suc a) b p = absurd (omega arith)
xor_zero_within (suc n) (suc a) b p =
    let halves = xor_zero_within n (suc a / 2) (b / 2) (omega arith) in
    let last = differ-zero (suc a % 2) (b % 2) in
    (
      λ h. omega (
        arith,
        xor_digit (suc a) b,
        halves.0 (omega (arith, xor_digit (suc a) b)),
        last.0 (omega (arith, xor_digit (suc a) b)),
      ),
      λ h. omega (arith, xor_digit (suc a) b, halves.1 (omega arith), last.1 (omega arith)),
    )

pub bit_xor-zero : (a b : ℕ) → (bit_xor a b ≡ 0) ↔ (a ≡ b)
bit_xor-zero a b = xor_zero_within a a b (le_refl _)

or_zero_within : (n a b : ℕ) → a ≤ n → (bit_or a b ≡ 0) ↔ ((a ≡ 0) × (b ≡ 0))
or_zero_within n zero b p =
    (λ h. (refl, omega (arith, bit_or-zero_left b)), λ h. omega (arith, bit_or-zero_left b, h.1))
or_zero_within zero (suc a) b p = absurd (omega arith)
or_zero_within (suc n) (suc a) b p =
    let halves = or_zero_within n (suc a / 2) (b / 2) (omega arith) in
    (
      λ h.
          absurd
            (omega (arith, or_digit (suc a) b, (halves.0 (omega (arith, or_digit (suc a) b))).0)),
      λ h. absurd (omega (arith, h.0)),
    )

pub bit_or-zero : (a b : ℕ) → (bit_or a b ≡ 0) ↔ ((a ≡ 0) × (b ≡ 0))
bit_or-zero a b = or_zero_within a a b (le_refl _)
