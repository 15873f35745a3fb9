-- ===== src/Operator/ApiAuth.antt =====
-- The comparison of credentials by the operator's API: auspex-operator/src/main.rs. A text is the
-- list of its bytes.
use auspex.Prelude.{
  ℕ, ◌%◌, ◌≡◌, ◌≢◌, ◌↔◌, refl, sym, ap, ◌∙◌, Bool, true, List, [], ◌∷◌, ◌++◌, ◌==◌, length,
  length-append, arith, bit_or-zero, bit_xor-low_byte, bit_xor-zero,
}
use Prim.Native.Nat.{bit_or, bit_xor}

-- The loop over the expected bytes; `difference` is what the loop has so far.
unfoldable pub byte_difference : ℕ → List ℕ → List ℕ → ℕ
byte_difference difference actual [] = difference
byte_difference difference [] (e ∷ expected) =
    byte_difference (bit_or difference (bit_xor 0xff e)) [] expected
byte_difference difference (a ∷ actual) (e ∷ expected) =
    byte_difference (bit_or difference (bit_xor a e)) actual expected

unfoldable pub constant_time_eq : List ℕ → List ℕ → Bool
unfolding byte_difference
constant_time_eq actual expected =
    byte_difference (bit_xor (length actual) (length expected) % 256) actual expected == 0

-- No byte of a text in UTF-8 is 0xff.
abbrev pub NeverFf : List ℕ → Type 0
NeverFf [] = Unit
NeverFf (b ∷ bytes) = (b ≢ 0xff) × NeverFf bytes

-- The text `expected`, and maybe more.
abbrev pub Extends : List ℕ → List ℕ → Type 0
Extends actual expected = (rest : List ℕ) × (actual ≡ expected ++ rest)

difference-zero :
    (d : ℕ) (actual expected : List ℕ)
    → NeverFf expected
    → (byte_difference d actual expected ≡ 0) ↔ ((d ≡ 0) × Extends actual expected)
unfolding byte_difference
difference-zero d actual [] u = (λ h. (h, (actual, refl)), λ h. h.0)
difference-zero d [] (e ∷ expected) u = (
  λ h.
      let step = (difference-zero (bit_or d (bit_xor 0xff e)) [] expected u.1).0 h in
      absurd (u.0 (sym ((bit_xor-zero 0xff e).0 ((bit_or-zero d (bit_xor 0xff e)).0 step.0).1))),
  λ h. ground arith,
)
difference-zero d (a ∷ actual) (e ∷ expected) u = (
  λ h.
      let step = (difference-zero (bit_or d (bit_xor a e)) actual expected u.1).0 h in
      let parts = (bit_or-zero d (bit_xor a e)).0 step.0 in
      (
        parts.0,
        (step.1.0, ap (λ b. b ∷ actual) ((bit_xor-zero a e).0 parts.1) ∙ ap (λ l. e ∷ l) step.1.1),
      ),
  λ h.
      let first : a ≡ e = cc (h.1.1) in
      let others : actual ≡ expected ++ h.1.0 = cc (h.1.1) in
      (difference-zero (bit_or d (bit_xor a e)) actual expected u.1).1
        ((bit_or-zero d (bit_xor a e)).1 (h.0, (bit_xor-zero a e).1 first), (h.1.0, others)),
)

-- The comparison of a credential with the expected one, in UTF-8, which has no byte 0xff. It holds
-- exactly when the credential is the expected one, followed by some number of bytes that is a
-- multiple of 256: a longer credential passes too.
pub constant_time_eq_iff :
    (actual expected : List ℕ)
    → NeverFf expected
    → (constant_time_eq actual expected ≡ true)
      ↔ ((rest : List ℕ) × (actual ≡ expected ++ rest) × (length rest % 256 ≡ 0))
unfolding constant_time_eq
constant_time_eq_iff actual expected u =
    let d = bit_xor (length actual) (length expected) % 256 in
    let zero_iff = difference-zero d actual expected u in
    let lengths = bit_xor-low_byte (length actual) (length expected) in
    (
      λ h.
          let found = zero_iff.0 (ground arith) in
          (
            found.1.0,
            found.1.1,
            omega (arith, lengths.0 found.0, ap length found.1.1, length-append expected found.1.0),
          ),
      λ h.
          let same : length actual % 256 ≡ length expected % 256 =
            omega (arith, ap length h.1, length-append expected h.0, h.2) in
          let none_left : byte_difference d actual expected ≡ 0 =
            zero_iff.1 (lengths.1 same, (h.0, h.1)) in
          rw none_left refl,
    )
