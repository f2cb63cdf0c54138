-- ===== src/Jvck/Metadata/RoundTrip.antt =====
-- lib/common/src/jvck/metadata.rs: `parse` and `decrypt_payload` on what `encode` writes.
use volumecrypt_kit.Prelude.{
  ℕ, suc, get_elem?, ◌^◌, ◌<◌, ◌≤◌, String, ◌≡◌, refl, ap, ◌∙◌, true, List, some, drop, All, arith,
}
use volumecrypt_kit.Prelude.Bytes.{IsSector}
use volumecrypt_kit.Prelude.Fields.{
  Field, IsField, zeros, zeros_lem, slice, write_fields, clear, slice-write_fields, bytes_eq_refl,
  slice-write_fields-clear, length-write_fields, All-write_fields,
}
use volumecrypt_kit.Error.{ok}
use volumecrypt_kit.Types.{VolumeState, encrypt, decrypt, as_u16, from_u16}
use volumecrypt_kit.Jvck.Metadata.{
  Crypto, Cbc, JvckSecrets, jvck_signature, payload_fields, le_at, parse_payload,
}
use volumecrypt_kit.Jvck.Metadata.Block.{
  IsSecrets, le_fits, signature_whole, number-IsField, bytes-IsField,
}

-- What CBC does to the 128 bytes of the encrypted part.
pub record IsCbc (cbc : Cbc) : Type 0 where
  pub encrypts :
      (plain : List ℕ)
      → IsSector 128 plain
      → (blob : List ℕ) × (cbc.encrypt_padded plain ≡ some blob)
        × IsSector 128 blob
        × (cbc.decrypt_padded blob ≡ some plain)

-- HKDF-SHA256 gives up to 255 * 32 bytes.
pub record IsCrypto (crypto : Crypto) : Type 0 where
  pub crc32_fits : (bytes : List ℕ) → crypto.crc32 bytes < 2 ^ 32
  pub hkdf_expand_whole :
      (salt ikm : List ℕ) (label : String) (n : ℕ)
      → n ≤ 8160
      → IsSector n (crypto.hkdf_expand salt ikm label n)
  pub cbc_new_keyed :
      (key iv : List ℕ)
      → IsSector 32 key
      → IsSector 16 iv
      → (cbc : Cbc) × (crypto.cbc_new key iv ≡ some cbc) × IsCbc cbc
  pub hmac_new_keyed :
      (key : List ℕ)
      → IsSector 32 key
      → (mac : List ℕ → List ℕ) × (crypto.hmac_new key ≡ some mac)
        × ((msg : List ℕ) → IsSector 32 (mac msg))

as_u16-fits : (state : VolumeState) → as_u16 state < 256 ^ 2
unfolding as_u16
as_u16-fits encrypt = omega arith
as_u16-fits decrypt = omega arith

pub from_u16-as_u16 : (state : VolumeState) → from_u16 (as_u16 state) ≡ state
unfolding from_u16 as_u16
from_u16-as_u16 encrypt = refl
from_u16-as_u16 decrypt = refl

parse_payload_lem :
    (offset : ℕ) (state : VolumeState) (secrets : JvckSecrets) (plain : List ℕ)
    → slice 0 4 plain ≡ jvck_signature
    → slice 4 12 plain ≡ zeros 12
    → le_at 8 16 plain ≡ offset
    → le_at 2 24 plain ≡ as_u16 state
    → slice 32 32 plain ≡ secrets.fvek_key1
    → slice 64 32 plain ≡ secrets.fvek_key2
    → parse_payload plain
      ≡ ok (record { encrypted_offset = offset; state = state; secrets = secrets })
unfolding parse_payload
parse_payload_lem offset state secrets plain sig zero off dir k1 k2 =
    rw (parse_payload, sig, zero, bytes_eq_refl (zeros 12), off, dir, k1, k2)
      (ap
        (λ (v : VolumeState).
          ok (record { encrypted_offset = offset; state = v; secrets = secrets }))
        (from_u16-as_u16 state))

module _ (secrets : JvckSecrets) (valid : IsSecrets secrets) (offset : ℕ)
    (state : VolumeState) where
  abbrev pub plain_of : List ℕ
  plain_of = write_fields (payload_fields secrets offset state) (zeros 128)

  payload_fit : All (IsField 128) (payload_fields secrets offset state)
  payload_fit = (
    bytes-IsField 128 4 0 jvck_signature signature_whole (omega arith),
    (
      number-IsField 128 8 16 offset (omega arith),
      (
        number-IsField 128 2 24 (as_u16 state) (omega arith),
        (
          bytes-IsField 128 32 32 secrets.fvek_key1 valid.key1_whole (omega arith),
          (bytes-IsField 128 32 64 secrets.fvek_key2 valid.key2_whole (omega arith), tt),
        ),
      ),
    ),
  )

  pub plain_of-whole : IsSector 128 plain_of
  plain_of-whole = (
    length-write_fields 128 _ (zeros 128) payload_fit (zeros_lem 128).0,
    All-write_fields 128 _ (zeros 128) payload_fit (zeros_lem 128).0 (zeros_lem 128).1,
  )

  read_payload :
      (i : ℕ) (g : Field)
      → get_elem? (payload_fields secrets offset state) i ≡ some g
      → clear g.off g.size (drop (suc i) (payload_fields secrets offset state)) ≡ true
      → slice g.off g.size plain_of ≡ g.bytes
  read_payload i g is apart =
      slice-write_fields 128 i g (payload_fields secrets offset state) (zeros 128) is apart
        payload_fit (zeros_lem 128).0

  -- The plaintext gives its parts back.
  zero_bytes : slice 4 12 (zeros 128) ≡ zeros 12
  unfolding zeros
  zero_bytes = refl

  pub parse_payload-plain_of :
      offset < 2 ^ 64
      → parse_payload plain_of
        ≡ ok (record { encrypted_offset = offset; state = state; secrets = secrets })
  parse_payload-plain_of small =
      parse_payload_lem offset state secrets plain_of (read_payload 0 _ refl refl)
        (slice-write_fields-clear 128 4 12 (payload_fields secrets offset state) (zeros 128)
            payload_fit (zeros_lem 128).0 refl
          ∙ zero_bytes)
        (le_fits 8 16 offset plain_of (read_payload 1 _ refl refl) small)
        (le_fits 2 24 (as_u16 state) plain_of (read_payload 2 _ refl refl) (as_u16-fits state))
        (read_payload 3 _ refl refl) (read_payload 4 _ refl refl)
