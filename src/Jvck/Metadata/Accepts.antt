-- ===== src/Jvck/Metadata/Accepts.antt =====
-- When a block is accepted, and what is known of an accepted block.
use volumecrypt_kit.Prelude.{
  ℕ, ◌≡◌, refl, true, List, some, take, length, ◌==◌, ==_iff, inl, inr, Option-cases, Bool-cases,
  take-length, arith,
}
use volumecrypt_kit.Prelude.Fields.{slice, bytes_eq, bytes_eq_refl, bytes_eq→eq}
use volumecrypt_kit.Error.{ok, Result-cases}
use volumecrypt_kit.Jvck.Metadata.{
  read_header, Crypto, Cbc, Unsealed, jvck_signature, le_at, derive_keys, verify_crc, parse,
  parse_payload, decrypt_payload,
}

module _ (crypto : Crypto) (block : List ℕ) where
  pub verify_crc-ok :
      length block ≡ 512
      → slice 0 4 block ≡ jvck_signature
      → crypto.crc32 (slice 0 508 block) ≡ le_at 4 508 block
      → verify_crc crypto block ≡ ok tt
  unfolding verify_crc
  verify_crc-ok len sig crc =
      let same : (crypto.crc32 (slice 0 508 block) == le_at 4 508 block) ≡ true =
        (==_iff _ _).1 crc in
      rw (len, sig, same) refl

  pub parse-ok :
      length block ≡ 512
      → verify_crc crypto block ≡ ok tt
      → parse crypto block ≡ ok (read_header block)
  unfolding parse
  parse-ok len good = rw (good, take-length 512 block (omega (arith, len))) refl

  pub decrypt_payload-ok :
      (vmk volume_id salt blob : List ℕ) (mac : List ℕ → List ℕ) (cbc : Cbc) (plain : List ℕ)
      → length block ≡ 512
      → verify_crc crypto block ≡ ok tt
      → slice 32 16 block ≡ volume_id
      → slice 48 16 block ≡ salt
      → slice 64 128 block ≡ blob
      → slice 192 32 block ≡ mac blob
      → crypto.hmac_new (derive_keys crypto volume_id salt vmk).mac_key ≡ some mac
      → crypto.cbc_new
          (derive_keys crypto volume_id salt vmk).enc_key
          (derive_keys crypto volume_id salt vmk).enc_iv
        ≡ some cbc
      → cbc.decrypt_padded blob ≡ some plain
      → decrypt_payload crypto block vmk ≡ parse_payload plain
  unfolding decrypt_payload
  decrypt_payload-ok vmk volume_id salt blob mac cbc plain len good is_id is_salt is_blob is_tag
        keyed_mac keyed back =
      rw
        (
          decrypt_payload,
          good,
          take-length 512 block (omega (arith, len)),
          is_id,
          is_salt,
          is_blob,
          is_tag,
          keyed_mac,
          bytes_eq_refl (mac blob),
          keyed,
          back,
        )
        refl

  abbrev stored_mac_key : List ℕ → List ℕ
  stored_mac_key vmk =
      (derive_keys crypto (slice 32 16 (take 512 block)) (slice 48 16 (take 512 block)) vmk).mac_key

  -- When `decrypt_payload` gives a result, the block has passed the CRC test and the tag that it
  -- stores is the HMAC of its encrypted part under the key that its volume id, its salt and the VMK
  -- derive.
  pub decrypt_payload-authentic :
      (vmk : List ℕ) (u : Unsealed)
      → decrypt_payload crypto block vmk ≡ ok u
      → (verify_crc crypto block ≡ ok tt)
        × ((mac : List ℕ → List ℕ) × (crypto.hmac_new (stored_mac_key vmk) ≡ some mac)
            × (mac (slice 64 128 (take 512 block)) ≡ slice 192 32 (take 512 block)))
  unfolding decrypt_payload
  decrypt_payload-authentic vmk u h = elim (Result-cases (verify_crc crypto block)) [
    | inr (e, bad) ↦ cc (rw bad at h)
    | inl (_, good) ↦ elim (Option-cases (crypto.hmac_new (stored_mac_key vmk))) [
      | inl bad ↦ cc (rw (good, bad) at h)
      | inr (mac, keyed) ↦
          elim (Bool-cases
            (bytes_eq (mac (slice 64 128 (take 512 block))) (slice 192 32 (take 512 block)))) [
              | inr bad ↦ cc (rw (good, keyed, bad) at h)
              | inl same ↦ (good, (mac, keyed, bytes_eq→eq _ _ same))
            ]
    ]
  ]
