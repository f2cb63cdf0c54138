-- ===== src/Prelude/Xor.antt =====
-- Exclusive or of bytes: taking it twice with the same byte changes nothing.
use Prim.Native.Nat.{
  ℕ, zero, suc, ◌+◌, ◌*◌, ◌/◌, ◌%◌, ◌^◌, ◌≤◌, ◌<◌, digits, differ, bit_xor, bit_xor-bitwise,
}
use mathlib.Core.Path.{◌≡◌, refl}
use native.Mathlib.Nat.{pow-suc}
use native.Mathlib.Omega.{arith}

abbrev xor_digits : ℕ → ℕ → ℕ → ℕ
xor_digits fuel a b = digits (λ b. b) differ fuel a b

-- More fuel than digits makes no difference.
xor_digits-enough :
    (small big a b : ℕ) → a ≤ small → small ≤ big → xor_digits big a b ≡ xor_digits small a b
xor_digits-enough zero zero a b le le' = refl
xor_digits-enough zero (suc big) zero b le le' = refl
xor_digits-enough zero (suc big) (suc a) b le le' = absurd (omega arith)
xor_digits-enough (suc small) zero a b le le' = absurd (omega arith)
xor_digits-enough (suc small) (suc big) zero b le le' = refl
xor_digits-enough (suc small) (suc big) (suc a) b le le' =
    rw (xor_digits-enough small big (suc a / 2) (b / 2) (omega arith) (omega arith))

-- The lowest digit, and the others.
bit_xor-half : (a b : ℕ) → bit_xor a b ≡ bit_xor (a / 2) (b / 2) * 2 + differ (a % 2) (b % 2)
bit_xor-half zero b = simp bit_xor-bitwise (omega arith)
bit_xor-half (suc a) b =
    simp bit_xor-bitwise
      (rw (xor_digits-enough (suc a / 2) a (suc a / 2) (b / 2) (omega arith) (omega arith)))

differ-bit : (a b : ℕ) → a < 2 → b < 2 → (differ a b < 2) × (differ (differ a b) b ≡ a)
differ-bit zero zero la lb = (omega arith, refl)
differ-bit zero (suc zero) la lb = (omega arith, refl)
differ-bit (suc zero) zero la lb = (omega arith, refl)
differ-bit (suc zero) (suc zero) la lb = (omega arith, refl)
differ-bit (suc (suc a)) b la lb = absurd (omega arith)
differ-bit a (suc (suc b)) la lb = absurd (omega arith)

pub bit_xor-fits : (k a b : ℕ) → a < 2 ^ k → b < 2 ^ k → bit_xor a b < 2 ^ k
bit_xor-fits zero a b la lb =
    let p : a ≡ 0 = omega arith in let q : b ≡ 0 = omega arith in rw (p, q) (omega arith)
bit_xor-fits (suc k) a b la lb = omega (
  arith,
  bit_xor-half a b,
  pow-suc 2 k,
  (differ-bit (a % 2) (b % 2) (omega arith) (omega arith)).0,
  bit_xor-fits k (a / 2) (b / 2) (omega (arith, pow-suc 2 k)) (omega (arith, pow-suc 2 k)),
)

pub bit_xor-twice : (k a b : ℕ) → a < 2 ^ k → b < 2 ^ k → bit_xor (bit_xor a b) b ≡ a
bit_xor-twice zero a b la lb =
    let p : a ≡ 0 = omega arith in let q : b ≡ 0 = omega arith in rw (p, q) refl
bit_xor-twice (suc k) a b la lb =
    let d = differ (a % 2) (b % 2) in
    let x = bit_xor a b in
    let (small, back) = differ-bit (a % 2) (b % 2) (omega arith) (omega arith) in
    let half : x / 2 ≡ bit_xor (a / 2) (b / 2) = omega (arith, bit_xor-half a b, small) in
    let low : x % 2 ≡ d = omega (arith, bit_xor-half a b, small) in
    let again : bit_xor (x / 2) (b / 2) ≡ a / 2 =
      rw half (
        bit_xor-twice k (a / 2) (b / 2) (omega (arith, pow-suc 2 k))
          (omega (arith, pow-suc 2 k))) in
    let digit : differ (x % 2) (b % 2) ≡ a % 2 = rw low back in
    omega (arith, bit_xor-half x b, again, digit)
