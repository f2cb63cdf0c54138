-- ===== src/Examples/Metadata.antt =====
-- A metadata block with a toy cipher, tag and checksum, and a volume that is created and opened.
use volumecrypt_kit.Prelude.{
  ℕ, ◌+◌, ◌%◌, ◌^◌, ◌≡◌, refl, List, [], ◌∷◌, some, replicate, All-replicate, length-map,
  length-replicate, arith,
}
use volumecrypt_kit.Prelude.Bytes.{IsByte, IsSector}
use volumecrypt_kit.Prelude.Fields.{slice}
use volumecrypt_kit.Prelude.{take, ◌∙◌}
use volumecrypt_kit.Error.{ok}
use volumecrypt_kit.Types.{decrypt}
use volumecrypt_kit.Jvck.{validate, compute_geometry}
use volumecrypt_kit.Jvck.Metadata.{
  Crypto, Cbc, JvckHeader, JvckSecrets, Unsealed, encode, verify_crc, parse, decrypt_payload,
  derive_keys,
}
use volumecrypt_kit.Jvck.Metadata.Accepts.{decrypt_payload-authentic}
use volumecrypt_kit.Jvck.Metadata.Block.{IsHeader, IsSecrets}
use volumecrypt_kit.Jvck.Metadata.RoundTrip.{IsCbc, IsCrypto}
use volumecrypt_kit.Jvck.Metadata.Sealed.{decrypt_payload-encode}
use volumecrypt_kit.Jvck.Codec.{codec_of, jvck_cbc_codec}
use volumecrypt_kit.Jvck.Store.{write_all_replicas, write_replicas, write_block, replica_lbas}
use volumecrypt_kit.Jvck.Open.{JvckMetadataStore, created, create, write_store, open_store}
use volumecrypt_kit.Jvck.Open.Created.{open_store-create}
use volumecrypt_kit.Examples.Disk.{Disk, disk_io, complement, complement-twice, complement-bytes}
use volumecrypt_kit.Examples.Jvck.{
  options, geometry, zero_salt, salt_whole, salt16, dev512, torn_disk,
}

abbrev sum : List ℕ → ℕ
sum [] = 0
sum (x ∷ xs) = x + sum xs

abbrev toy_cbc : Cbc
toy_cbc = record {
  encrypt_padded = λ buf. some (complement buf);
  decrypt_padded = λ buf. some (complement buf);
}

abbrev pub toy_crypto : Crypto
toy_crypto = record {
  crc32 = λ bytes. sum bytes % 2 ^ 32;
  hkdf_expand = λ salt ikm label n. replicate n 5;
  cbc_new = λ key iv. some toy_cbc;
  hmac_new = λ key. some (λ msg. replicate 32 (sum msg % 256));
}

toy_cbc-IsCbc : IsCbc toy_cbc
toy_cbc-IsCbc = record {
  encrypts = λ plain whole. (
    complement plain,
    refl,
    (length-map _ plain ∙ whole.0, complement-bytes plain),
    rw (complement-twice plain whole.1) refl,
  );
}

pub toy_crypto-IsCrypto : IsCrypto toy_crypto
toy_crypto-IsCrypto = record {
  crc32_fits = λ bytes. omega arith;
  hkdf_expand_whole =
      λ salt ikm label n _. (length-replicate n 5, All-replicate IsByte n 5 (omega arith));
  cbc_new_keyed = λ key iv k v. (toy_cbc, refl, toy_cbc-IsCbc);
  hmac_new_keyed = λ key k. (
    (λ msg. replicate 32 (sum msg % 256)),
    refl,
    λ msg. (
      length-replicate {A = ℕ} 32 (sum msg % 256),
      All-replicate IsByte 32 (sum msg % 256) (omega arith),
    ),
  );
}

abbrev header : JvckHeader
header = record {
  vendor_id = 7;
  metadata_version = 1;
  vendor_version = 2;
  metadata_size = 131072;
  sector_size = 512;
  header_replica_count = 1;
  footer_replica_count = 2;
  volume_id = replicate 16 9;
  vendor_reserved = replicate 192 3;
}

header-IsHeader : IsHeader header
header-IsHeader = record {
  vendor_id_fits = omega arith;
  metadata_version_fits = omega arith;
  vendor_version_fits = omega arith;
  metadata_size_fits = omega arith;
  sector_size_fits = omega arith;
  header_replica_count_fits = omega arith;
  footer_replica_count_fits = omega arith;
  volume_id_whole = (refl, All-replicate IsByte 16 9 (omega arith));
  vendor_reserved_whole = (refl, All-replicate IsByte 192 3 (omega arith));
}

abbrev pub secrets : JvckSecrets
secrets = record { fvek_key1 = replicate 32 1; fvek_key2 = replicate 32 2 }

pub secrets-IsSecrets : IsSecrets secrets
secrets-IsSecrets = record {
  key1_whole = (refl, All-replicate IsByte 32 1 (omega arith));
  key2_whole = (refl, All-replicate IsByte 32 2 (omega arith));
}

abbrev pub vmk : List ℕ
vmk = replicate 32 11

abbrev unsealed : Unsealed
unsealed = record { encrypted_offset = 77; state = decrypt; secrets = secrets }

decrypt_payload-encode_example :
    (block : List ℕ) × (encode toy_crypto header secrets 77 decrypt (replicate 16 0) vmk ≡ ok block)
    × IsSector 512 block
    × (verify_crc toy_crypto block ≡ ok tt)
    × (parse toy_crypto block ≡ ok header)
    × (decrypt_payload toy_crypto block vmk ≡ ok unsealed)
decrypt_payload-encode_example =
    decrypt_payload-encode toy_crypto-IsCrypto header header-IsHeader (replicate 16 0) salt16 vmk
      secrets secrets-IsSecrets 77 decrypt (omega arith)

abbrev sealed : List ℕ
sealed =
    (decrypt_payload-encode toy_crypto-IsCrypto header header-IsHeader (replicate 16 0) salt16 vmk
      secrets secrets-IsSecrets 77 decrypt (omega arith)).0

opened : decrypt_payload toy_crypto sealed vmk ≡ ok unsealed
opened =
    (decrypt_payload-encode toy_crypto-IsCrypto header header-IsHeader (replicate 16 0) salt16 vmk
      secrets secrets-IsSecrets 77 decrypt (omega arith)).5

decrypt_payload-authentic_example :
    (verify_crc toy_crypto sealed ≡ ok tt)
    × ((mac : List ℕ → List ℕ) × (toy_crypto.hmac_new
            (derive_keys toy_crypto
              (slice 32 16 (take 512 sealed))
              (slice 48 16 (take 512 sealed))
              vmk).mac_key
          ≡ some mac)
        × (mac (slice 64 128 (take 512 sealed)) ≡ slice 192 32 (take 512 sealed)))
decrypt_payload-authentic_example = decrypt_payload-authentic toy_crypto sealed vmk unsealed opened

abbrev pub new_store : JvckMetadataStore Disk
new_store =
    created toy_crypto (disk_io 512) vmk options geometry secrets (replicate 16 9)
      (jvck_cbc_codec toy_crypto)

created_lem :
    (create toy_crypto
      (disk_io 512)
      zero_salt
      vmk
      options
      secrets
      (replicate 16 9)
      (jvck_cbc_codec toy_crypto)
      torn_disk).0
    ≡ ok new_store
unfolding create write_store write_all_replicas write_replicas write_block replica_lbas codec_of
    jvck_cbc_codec encode validate compute_geometry created
created_lem = refl

open_store-create_example :
    (open_store toy_crypto
      (disk_io 512)
      zero_salt
      vmk
      (create toy_crypto
        (disk_io 512)
        zero_salt
        vmk
        options
        secrets
        (replicate 16 9)
        (jvck_cbc_codec toy_crypto)
        torn_disk).1).0
    ≡ ok new_store
unfolding created replica_lbas
open_store-create_example =
    open_store-create dev512 toy_crypto-IsCrypto zero_salt (λ d l. refl) salt_whole
      (λ lba len d. (_, refl)) vmk options secrets secrets-IsSecrets (replicate 16 9)
      (refl, All-replicate IsByte 16 9 (omega arith)) (omega arith) (omega arith) (omega arith)
      (omega arith) (omega arith) torn_disk new_store 0 (1791 ∷ 2047 ∷ []) created_lem refl
