-- ===== src/Error.antt =====
-- lib/common/src/error.rs: the error type, and `VckResult`. The texts are kept.
use volumecrypt_kit.Prelude.{
  ℕ, String, Bool, true, false, Option, none, some, ◌≡◌, refl, ◌⊎◌, inl, inr,
}

pub data VckError : Type 0 where
  invalid_data validation_failed unsupported not_found permission_denied : String → VckError
  size_mismatch : ℕ → ℕ → VckError
  signature_mismatch checksum_mismatch : VckError
  crypto_failed msgpack_encode msgpack_decode io : String → VckError

pub data VckResult {ℓ} (A : Type ℓ) : Type ℓ where
  ok : A → VckResult A
  err : VckError → VckResult A

-- `?` on a value.
infixl 5 ◌>>=◌ ◌>>◌
abbrev pub ◌>>=◌ {ℓ κ} : {A : Type ℓ} {B : Type κ} → VckResult A → (A → VckResult B) → VckResult B
ok a >>= f = f a
err e >>= f = err e

abbrev pub ◌>>◌ {ℓ} : {B : Type ℓ} → VckResult (Unit {0}) → VckResult B → VckResult B
m >> k = m >>= λ _. k

-- An early `return Err(e)` when a test fails.
abbrev pub ensure : Bool → VckError → VckResult (Unit {0})
ensure true e = ok tt
ensure false e = err e

-- `Option::ok_or`
abbrev pub ok_or {ℓ} : {A : Type ℓ} → Option A → VckError → VckResult A
ok_or (some a) e = ok a
ok_or none e = err e

pub Result-cases {ℓ} :
    {A : Type ℓ} (r : VckResult A) → ((a : A) × (r ≡ ok a)) ⊎ ((e : VckError) × (r ≡ err e))
Result-cases (ok a) = inl (a, refl)
Result-cases (err e) = inr (e, refl)

pub ok-injective {ℓ} : {A : Type ℓ} (a b : A) → ok a ≡ ok b → a ≡ b
ok-injective a b h = cc
