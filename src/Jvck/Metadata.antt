-- ===== src/Jvck/Metadata.antt =====
-- lib/common/src/jvck/metadata.rs: the metadata block of 512 bytes, and the default codec of
-- codec.rs. The crates aes, cbc, hkdf, hmac, sha2 and crc are parameters (`Crypto`). Wiping of key
-- material is not modelled.
pub mod Block
pub mod Accepts
pub mod RoundTrip
pub mod Sealed
use volumecrypt_kit.Prelude.{
  ℕ, zero, suc, ◌+◌, ◌^◌, String, Bool, true, false, ◌&&◌, Option, none, some, List, [], ◌∷◌, ◌++◌,
  take, length, replicate, get_or, ltb, ◌==◌, if◌then◌else◌,
}
use volumecrypt_kit.Prelude.Fields.{Field, slice, write_at, write_fields, bytes_eq, zeros}
use volumecrypt_kit.Error.{
  VckError, crypto_failed, validation_failed, VckResult, ok, err, ok_or, ensure, ◌>>=◌, ◌>>◌,
}
use volumecrypt_kit.Types.{VolumeState, as_u16, from_u16}
use volumecrypt_kit.Xts.{to_le_bytes, from_le_bytes}

-- A CBC encryptor and decryptor of one key and initial vector, without padding: `none` when the
-- length does not fit.
pub record Cbc : Type 0 where
  pub encrypt_padded : List ℕ → Option (List ℕ)
  pub decrypt_padded : List ℕ → Option (List ℕ)

-- `none` is a key or initial vector of a length that the crate refuses. `hkdf_expand` takes salt,
-- key, label and length.
pub record Crypto : Type 0 where
  pub crc32 : List ℕ → ℕ
  pub hkdf_expand : List ℕ → List ℕ → String → ℕ → List ℕ
  pub cbc_new : List ℕ → List ℕ → Option Cbc
  pub hmac_new : List ℕ → Option (List ℕ → List ℕ)

-- b"JVCK"
abbrev pub jvck_signature : List ℕ
jvck_signature = 74 ∷ 86 ∷ 67 ∷ 75 ∷ []

pub record DerivedKeys : Type 0 where
  pub mac_key : List ℕ
  pub enc_key : List ℕ
  pub enc_iv : List ℕ

pub record JvckHeader : Type 0 where
  pub vendor_id : ℕ
  pub metadata_version : ℕ
  pub vendor_version : ℕ
  pub metadata_size : ℕ
  pub sector_size : ℕ
  pub header_replica_count : ℕ
  pub footer_replica_count : ℕ
  pub volume_id : List ℕ
  pub vendor_reserved : List ℕ

pub record JvckSecrets : Type 0 where
  pub fvek_key1 : List ℕ
  pub fvek_key2 : List ℕ

pub record Unsealed : Type 0 where
  pub encrypted_offset : ℕ
  pub state : VolumeState
  pub secrets : JvckSecrets

abbrev pub le_at : ℕ → ℕ → List ℕ → ℕ
le_at size off block = from_le_bytes (slice off size block)

-- The writes of `encode` up to the encrypted part, in their order.
abbrev pub header_fields : JvckHeader → List ℕ → List Field
header_fields h salt =
    record { off = 0; size = 4; bytes = jvck_signature }
    ∷ record { off = 4; size = 8; bytes = to_le_bytes 8 h.vendor_id }
    ∷ record { off = 12; size = 2; bytes = to_le_bytes 2 h.metadata_version }
    ∷ record { off = 14; size = 2; bytes = to_le_bytes 2 h.vendor_version }
    ∷ record { off = 16; size = 4; bytes = to_le_bytes 4 h.metadata_size }
    ∷ record { off = 20; size = 4; bytes = to_le_bytes 4 h.sector_size }
    ∷ record { off = 24; size = 1; bytes = h.header_replica_count ∷ [] }
    ∷ record { off = 25; size = 1; bytes = h.footer_replica_count ∷ [] }
    ∷ record { off = 32; size = 16; bytes = h.volume_id }
    ∷ record { off = 48; size = 16; bytes = salt }
    ∷ record { off = 304; size = 192; bytes = h.vendor_reserved }
    ∷ []

-- The writes of the encrypted part's plaintext.
abbrev pub payload_fields : JvckSecrets → ℕ → VolumeState → List Field
payload_fields secrets encrypted_offset state =
    record { off = 0; size = 4; bytes = jvck_signature }
    ∷ record { off = 16; size = 8; bytes = to_le_bytes 8 encrypted_offset }
    ∷ record { off = 24; size = 2; bytes = to_le_bytes 2 (as_u16 state) }
    ∷ record { off = 32; size = 32; bytes = secrets.fvek_key1 }
    ∷ record { off = 64; size = 32; bytes = secrets.fvek_key2 }
    ∷ []

-- What the decrypted part holds.
unfoldable pub parse_payload : List ℕ → VckResult Unsealed
unfolding from_u16
parse_payload plain = do
  ensure (bytes_eq (slice 0 4 plain) jvck_signature)
      (validation_failed "inner JVCK signature mismatch")
  ensure (bytes_eq (slice 4 12 plain) (zeros 12))
      (validation_failed "inner must-zero field not zero")
  ok (record {
    encrypted_offset = le_at 8 16 plain;
    state = from_u16 (le_at 2 24 plain);
    secrets = record { fvek_key1 = slice 32 32 plain; fvek_key2 = slice 64 32 plain };
  })

abbrev pub read_header : List ℕ → JvckHeader
read_header block = record {
  vendor_id = le_at 8 4 block;
  metadata_version = le_at 2 12 block;
  vendor_version = le_at 2 14 block;
  metadata_size = le_at 4 16 block;
  sector_size = le_at 4 20 block;
  header_replica_count = get_or block 24 0;
  footer_replica_count = get_or block 25 0;
  volume_id = slice 32 16 block;
  vendor_reserved = slice 304 192 block;
}

module _ (crypto : Crypto) where
  unfoldable pub derive_keys : List ℕ → List ℕ → List ℕ → DerivedKeys
  derive_keys volume_id salt vmk = record {
    mac_key = crypto.hkdf_expand (volume_id ++ salt) vmk "EncryptedMetadata:MAC" 32;
    enc_key = crypto.hkdf_expand (volume_id ++ salt) vmk "EncryptedMetadata:ENC" 32;
    enc_iv = crypto.hkdf_expand (volume_id ++ salt) vmk "EncryptedMetadata:IV" 16;
  }

  unfoldable pub encode :
      JvckHeader → JvckSecrets → ℕ → VolumeState → List ℕ → List ℕ → VckResult (List ℕ)
  encode h secrets encrypted_offset state salt vmk = do
    let out0 = write_fields (header_fields h salt) (zeros 512)
    let plain = write_fields (payload_fields secrets encrypted_offset state) (zeros 128)
    let keys = derive_keys h.volume_id salt vmk
    enc ←
        ok_or (crypto.cbc_new keys.enc_key keys.enc_iv) (crypto_failed "invalid ENC key/iv length")
    blob ← ok_or (enc.encrypt_padded plain) (crypto_failed "EncryptedMetadata CBC encrypt failed")
    let out1 = write_at 64 blob out0
    mac ← ok_or (crypto.hmac_new keys.mac_key) (crypto_failed "invalid HMAC key length")
    let out2 = write_at 192 (mac (slice 64 128 out1)) out1
    ok (write_at 508 (to_le_bytes 4 (crypto.crc32 (slice 0 508 out2))) out2)

  unfoldable pub verify_crc : List ℕ → VckResult (Unit {0})
  verify_crc block =
      if ltb (length block) 512
      then err (VckError.size_mismatch 512 (length block))
      else if bytes_eq (slice 0 4 block) jvck_signature
      then (if crypto.crc32 (slice 0 508 block) == le_at 4 508 block
          then ok tt
          else err VckError.checksum_mismatch)
      else err VckError.signature_mismatch

  unfoldable pub parse : List ℕ → VckResult JvckHeader
  parse full = do verify_crc full; ok (read_header (take 512 full))

  -- The tag is compared before anything is decrypted.
  unfoldable pub decrypt_payload : List ℕ → List ℕ → VckResult Unsealed
  decrypt_payload full vmk = do
    verify_crc full
    let block = take 512 full
    let keys = derive_keys (slice 32 16 block) (slice 48 16 block) vmk
    let blob = slice 64 128 block
    mac ← ok_or (crypto.hmac_new keys.mac_key) (crypto_failed "invalid HMAC key length")
    ensure (bytes_eq (mac blob) (slice 192 32 block))
        (validation_failed "EncryptedMetadata HMAC mismatch")
    dec ←
        ok_or (crypto.cbc_new keys.enc_key keys.enc_iv) (crypto_failed "invalid ENC key/iv length")
    plain ← ok_or (dec.decrypt_padded blob) (crypto_failed "EncryptedMetadata CBC decrypt failed")
    parse_payload plain

  unfoldable pub read_encrypted_offset : List ℕ → List ℕ → VckResult ℕ
  read_encrypted_offset block vmk = do
    unsealed ← decrypt_payload block vmk
    ok unsealed.encrypted_offset
