-- ===== src/Jvck/Metadata/Sealed.antt =====
-- lib/common/src/jvck/metadata.rs: a sealed block, tested and opened.
use volumecrypt_kit.Prelude.{
  ℕ, ◌^◌, ◌<◌, ◌≡◌, refl, sym, ap, ◌∙◌, List, [], ◌∷◌, some, length, All, arith,
}
use volumecrypt_kit.Prelude.Bytes.{IsSector}
use volumecrypt_kit.Prelude.Fields.{
  IsField, zeros, zeros_lem, slice, write_at, write_fields, slice-write_fields,
  slice-write_fields-clear, length-write_fields,
}
use volumecrypt_kit.Error.{ok, ok-injective}
use volumecrypt_kit.Types.{VolumeState}
use volumecrypt_kit.Xts.{to_le_bytes}
use volumecrypt_kit.Jvck.Metadata.{
  Crypto, Cbc, DerivedKeys, JvckHeader, JvckSecrets, header_fields, derive_keys, encode, verify_crc,
  parse, decrypt_payload,
}
use volumecrypt_kit.Jvck.Metadata.Accepts.{verify_crc-ok, parse-ok, decrypt_payload-ok}
use volumecrypt_kit.Jvck.Metadata.RoundTrip.{
  IsCrypto, plain_of, plain_of-whole, parse_payload-plain_of,
}
use volumecrypt_kit.Jvck.Metadata.Block.{
  IsHeader, IsSecrets, header_fit, read_header-block, block_of, block_of-whole, blob_field,
  tag_field, crc_field, reads_signature, reads_volume_id, reads_salt, reads_blob, reads_tag,
  reads_crc, number-IsField, bytes-IsField,
}

module _ {crypto : Crypto} (ic : IsCrypto crypto) (h : JvckHeader) (valid : IsHeader h)
    (salt : List ℕ) (salt_whole : IsSector 16 salt) (vmk : List ℕ) where
  abbrev keys : DerivedKeys
  keys = derive_keys crypto h.volume_id salt vmk

  mac_key_whole : IsSector 32 keys.mac_key
  unfolding derive_keys
  mac_key_whole = ic.hkdf_expand_whole _ _ _ 32 (omega arith)

  enc_key_whole : IsSector 32 keys.enc_key
  unfolding derive_keys
  enc_key_whole = ic.hkdf_expand_whole _ _ _ 32 (omega arith)

  enc_iv_whole : IsSector 16 keys.enc_iv
  unfolding derive_keys
  enc_iv_whole = ic.hkdf_expand_whole _ _ _ 16 (omega arith)

  abbrev out0 : List ℕ
  out0 = write_fields (header_fields h salt) (zeros 512)

  module _ (secrets : JvckSecrets) (secrets_valid : IsSecrets secrets) (offset : ℕ)
      (state : VolumeState) (cbc : Cbc) (blob : List ℕ) (mac : List ℕ → List ℕ)
      (keyed : crypto.cbc_new keys.enc_key keys.enc_iv ≡ some cbc)
      (encrypted : cbc.encrypt_padded (plain_of secrets secrets_valid offset state) ≡ some blob)
      (mac_keyed : crypto.hmac_new keys.mac_key ≡ some mac) (blob_whole : IsSector 128 blob)
      (mac_whole : (msg : List ℕ) → IsSector 32 (mac msg)) where
    abbrev out2 : List ℕ
    out2 = write_at 192 (mac blob) (write_at 64 blob out0)

    abbrev crc : ℕ
    crc = crypto.crc32 (slice 0 508 out2)

    length-out0 : length out0 ≡ 512
    length-out0 =
        length-write_fields 512 _ (zeros 512) (header_fit h salt valid salt_whole) (zeros_lem 512).0

    reads_first : slice 64 128 (write_at 64 blob out0) ≡ blob
    unfolding write_fields
    reads_first =
        slice-write_fields 512 0 (blob_field blob) (blob_field blob ∷ []) out0 refl refl
          (bytes-IsField 512 128 64 blob blob_whole (omega arith), tt) length-out0

    two_fit : All (IsField 512) (blob_field blob ∷ tag_field (mac blob) ∷ [])
    two_fit = (
      bytes-IsField 512 128 64 blob blob_whole (omega arith),
      (bytes-IsField 512 32 192 (mac blob) (mac_whole blob) (omega arith), tt),
    )

    length-out2 : length out2 ≡ 512
    unfolding write_fields
    length-out2 =
        length-write_fields 512 (blob_field blob ∷ tag_field (mac blob) ∷ []) out0 two_fit
          length-out0

    encode-out2 :
        encode crypto h secrets offset state salt vmk ≡ ok (write_at 508 (to_le_bytes 4 crc) out2)
    unfolding encode
    encode-out2 = rw (encode, keyed, encrypted, mac_keyed, reads_first) refl

    abbrev block : List ℕ
    block = block_of h salt blob (mac blob) crc

    sealed : encode crypto h secrets offset state salt vmk ≡ ok block
    unfolding write_fields
    sealed = encode-out2

    covered : slice 0 508 block ≡ slice 0 508 out2
    unfolding write_fields
    covered =
        slice-write_fields-clear 512 0 508 (crc_field crc ∷ []) out2
          (number-IsField 512 4 508 crc (omega arith), tt) length-out2 refl

    abbrev whole : IsSector 512 block
    whole = block_of-whole h valid salt blob (mac blob) salt_whole blob_whole (mac_whole blob) crc

    verified : verify_crc crypto block ≡ ok tt
    verified =
        verify_crc-ok crypto block whole.0
          (reads_signature h valid salt blob (mac blob) salt_whole blob_whole (mac_whole blob) crc)
          (ap crypto.crc32 covered
            ∙ sym (
                reads_crc h valid salt blob (mac blob) salt_whole blob_whole (mac_whole blob) crc
                  (ic.crc32_fits (slice 0 508 out2))))

    parses : parse crypto block ≡ ok h
    parses =
        parse-ok crypto block whole.0 verified
        ∙ ap ok (
            read_header-block h valid salt blob (mac blob) salt_whole blob_whole (mac_whole blob)
              crc)

    decrypts :
        offset < 2 ^ 64
        → cbc.decrypt_padded blob ≡ some (plain_of secrets secrets_valid offset state)
        → decrypt_payload crypto block vmk
          ≡ ok (record { encrypted_offset = offset; state = state; secrets = secrets })
    decrypts small back =
        decrypt_payload-ok crypto block vmk h.volume_id salt blob mac cbc
          (plain_of secrets secrets_valid offset state) whole.0 verified
          (reads_volume_id h valid salt blob (mac blob) salt_whole blob_whole (mac_whole blob) crc)
          (reads_salt h valid salt blob (mac blob) salt_whole blob_whole (mac_whole blob) crc)
          (reads_blob h valid salt blob (mac blob) salt_whole blob_whole (mac_whole blob) crc)
          (reads_tag h valid salt blob (mac blob) salt_whole blob_whole (mac_whole blob) crc)
          mac_keyed keyed back
        ∙ parse_payload-plain_of secrets secrets_valid offset state small

  -- The sealed block, and what reads from it.
  sealed_block :
      (secrets : JvckSecrets)
      → IsSecrets secrets
      → (offset : ℕ) (state : VolumeState)
      → (block : List ℕ) × (encode crypto h secrets offset state salt vmk ≡ ok block)
        × IsSector 512 block
        × (verify_crc crypto block ≡ ok tt)
        × (parse crypto block ≡ ok h)
        × (offset < 2 ^ 64
            → decrypt_payload crypto block vmk
              ≡ ok (record { encrypted_offset = offset; state = state; secrets = secrets }))
  sealed_block secrets sv offset state =
      let (cbc, keyed, laws) =
        ic.cbc_new_keyed keys.enc_key keys.enc_iv enc_key_whole enc_iv_whole in
      let (blob, encrypted, blob_whole, back) =
        laws.encrypts (plain_of secrets sv offset state) (plain_of-whole secrets sv offset state) in
      let (mac, mac_keyed, mac_whole) = ic.hmac_new_keyed keys.mac_key mac_key_whole in
      (
        block secrets sv offset state cbc blob mac keyed encrypted mac_keyed blob_whole mac_whole,
        sealed secrets sv offset state cbc blob mac keyed encrypted mac_keyed blob_whole mac_whole,
        whole secrets sv offset state cbc blob mac keyed encrypted mac_keyed blob_whole mac_whole,
        verified secrets sv offset state cbc blob mac keyed encrypted mac_keyed blob_whole
            mac_whole,
        parses secrets sv offset state cbc blob mac keyed encrypted mac_keyed blob_whole mac_whole,
        λ small.
            decrypts secrets sv offset state cbc blob mac keyed encrypted mac_keyed blob_whole
              mac_whole small back,
      )

  -- With lawful crypto primitives, a header whose fields fit the block, a salt of 16 bytes, keys of
  -- 32 bytes and a 64-bit offset: `encode` succeeds with a block of 512 bytes that passes the CRC
  -- test, `parse` gives the header back, and `decrypt_payload` with the same VMK gives the offset,
  -- the state and the keys back.
  pub decrypt_payload-encode :
      (secrets : JvckSecrets)
      → IsSecrets secrets
      → (offset : ℕ) (state : VolumeState) → offset < 2 ^ 64
      → (block : List ℕ) × (encode crypto h secrets offset state salt vmk ≡ ok block)
        × IsSector 512 block
        × (verify_crc crypto block ≡ ok tt)
        × (parse crypto block ≡ ok h)
        × (decrypt_payload crypto block vmk
            ≡ ok (record { encrypted_offset = offset; state = state; secrets = secrets }))
  decrypt_payload-encode secrets sv offset state small =
      let (block, sealed, whole, good, parsed, back) = sealed_block secrets sv offset state in
      (block, sealed, whole, good, parsed, back small)

  -- The same of a block that was sealed.
  module _ (secrets : JvckSecrets) (sv : IsSecrets secrets) (offset : ℕ) (state : VolumeState)
      (block : List ℕ) (is : encode crypto h secrets offset state salt vmk ≡ ok block) where
    same_block : (sealed_block secrets sv offset state).0 ≡ block
    same_block = ok-injective _ _ (sym (sealed_block secrets sv offset state).1 ∙ is)

    pub encode-whole : IsSector 512 block
    encode-whole = rw (sym same_block) (sealed_block secrets sv offset state).2

    pub verify_crc-encode : verify_crc crypto block ≡ ok tt
    verify_crc-encode = rw (sym same_block) (sealed_block secrets sv offset state).3

    pub parse-encode : parse crypto block ≡ ok h
    parse-encode = rw (sym same_block) (sealed_block secrets sv offset state).4

    pub decrypt_payload-sealed :
        offset < 2 ^ 64
        → decrypt_payload crypto block vmk
          ≡ ok (record { encrypted_offset = offset; state = state; secrets = secrets })
    decrypt_payload-sealed small =
        rw (sym same_block) ((sealed_block secrets sv offset state).5 small)
