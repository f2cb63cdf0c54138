-- ===== src/Examples/Jvck.antt =====
-- A JVCK store on a disk of 2048 sectors of 512 bytes: one replica before the data region and two
-- behind it, of 256 sectors each.
use volumecrypt_kit.Prelude.{
  ℕ, ◌+◌, ◌<◌, ◌≤◌, ◌≡◌, ◌⊎◌, refl, sym, ap, ◌∙◌, List, [], ◌∷◌, ◌++◌, All, All-append,
  All-replicate, length-append, length-replicate, take, take-append_exact, replicate, arith, ◌==◌,
  if◌then◌else◌,
}
use mathlib.Core.List.{append-nil}
use volumecrypt_kit.Prelude.Bytes.{IsByte, IsSector}
use volumecrypt_kit.Error.{ok}
use volumecrypt_kit.Exec.{Exec, pure}
use volumecrypt_kit.Types.{encrypt, EncryptedOffset}
use volumecrypt_kit.Device.{KeepsData, IsDevice}
use volumecrypt_kit.Xts.{to_le_bytes, from_le_bytes}
use volumecrypt_kit.Xts.Blocks.{to_le_bytes-whole}
use volumecrypt_kit.Filter.Size.{from_le_bytes-to_le_bytes}
use volumecrypt_kit.Jvck.{
  JvckMetadataOptions, Geometry, compute_geometry, metadata_sector_lbas, vendor_data_lba_checked,
  replica_sectors,
}
use volumecrypt_kit.Jvck.Layout.{metadata_sector_lbas-outside, vendor_data_lba_checked-outside}
use volumecrypt_kit.Jvck.Store.{
  MetadataCodec, JvckFields, JvckConfig, replica_lbas, jvck_load, jvck_store, jvck_offset_store,
  load_offset, write_all_replicas, write_replicas, write_block,
}
use volumecrypt_kit.Jvck.Replicas.{IsCodec}
use volumecrypt_kit.Jvck.Durable.{
  IsConfig, jvck_offset_store-KeepsData, load_offset-largest, jvck_load-jvck_store,
}
use volumecrypt_kit.Examples.Disk.{Disk, disk_io, disk_io-IsDevice, at, whole_or_zero-same}

abbrev pub options : JvckMetadataOptions
options = record { use_header = 1; use_footer = 2; metadata_size = 131072 }

abbrev pub geometry : Geometry
geometry = record { offset_sector = 256; data_sectors = 1280; sector_size = 512 }

pub accepted : compute_geometry 512 2048 options ≡ ok geometry
unfolding compute_geometry
accepted = refl

metadata_sector_lbas_example :
    All
      (λ l. (l < 2048) × ((l < 256) ⊎ (1536 ≤ l)))
      (metadata_sector_lbas 2048 (replica_sectors 131072 512) 1 2)
metadata_sector_lbas_example =
    metadata_sector_lbas-outside 512 2048 options geometry (omega arith) accepted

in_area : vendor_data_lba_checked options 512 2048 2 10 1024 ≡ ok 1802
unfolding vendor_data_lba_checked
in_area = refl

vendor_data_example : (1802 + 1 < 2048) × ((1802 + 1 < 256) ⊎ (1536 ≤ 1802 + 1))
vendor_data_example =
    vendor_data_lba_checked-outside 512 2048 options geometry (omega arith) accepted 2 10 1024 1802
      in_area 1 (omega arith)

-- The offset in the first eight bytes of the block, in the clear.
abbrev pub block_of : ℕ → List ℕ
block_of offset = to_le_bytes 8 offset ++ replicate 504 0

abbrev clear : MetadataCodec
clear = record {
  seal = λ offset state salt. ok (block_of offset);
  read_offset = λ block. ok (from_le_bytes (take 8 block));
  verify_crc = λ block. ok tt;
}

block_of-whole : (offset : ℕ) → IsSector 512 (block_of offset)
block_of-whole offset = (
  omega (
    arith,
    length-append (to_le_bytes 8 offset) (replicate 504 0),
    length-replicate {A = ℕ} 504 0,
    (to_le_bytes-whole 8 offset).0,
  ),
  All-append IsByte (to_le_bytes 8 offset) _ (to_le_bytes-whole 8 offset).1
      (All-replicate IsByte 504 0 (omega arith)),
)

clear-IsCodec : IsCodec clear
clear-IsCodec = record {
  seals = λ offset state salt block whole sealed.
      let e : block ≡ block_of offset = cc sealed in rw e (block_of-whole offset);
  verifies = λ offset state salt block whole sealed. refl;
  reads_back = λ offset state salt block small whole sealed.
      let e : block ≡ block_of offset = cc sealed in
      rw e (
        ap ok (
          ap from_le_bytes (
            take-append_exact 8 (to_le_bytes 8 offset) (replicate 504 0)
              (to_le_bytes-whole 8 offset).0)
          ∙ from_le_bytes-to_le_bytes 8 offset small));
}

abbrev pub zero_salt : Exec Disk (List ℕ)
zero_salt = pure (replicate 16 0)

pub salt16 : IsSector 16 (replicate 16 0)
salt16 = (refl, omega arith)

pub salt_whole : (d : Disk) (salt : List ℕ) → (zero_salt d).0 ≡ ok salt → IsSector 16 salt
salt_whole d salt is = let e : salt ≡ replicate 16 0 = cc is in rw e salt16

abbrev pub config : JvckConfig
config = record { options = options; geometry = geometry; volume_sectors = 2048 }

pub config-IsConfig : IsConfig 512 config
config-IsConfig = record { accepted = accepted; counts = omega arith }

pub dev512 : IsDevice (disk_io 512) (at 512)
dev512 = disk_io-IsDevice 512 (omega arith)

jvck_offset_store_example :
    KeepsData
      (jvck_offset_store (disk_io 512) clear zero_salt config)
      (λ (w : JvckFields × Disk). at 512 w.1)
      256
      1280
jvck_offset_store_example =
    jvck_offset_store-KeepsData dev512 clear-IsCodec zero_salt (λ d l. refl) salt_whole config
      config-IsConfig

pub replicas : replica_lbas config ≡ 0 ∷ 1791 ∷ 2047 ∷ []
unfolding replica_lbas
replicas = refl

-- The first replica is one update behind the others.
abbrev pub torn : ℕ → ℕ
torn l = if l == 0 then 90 else 100

abbrev pub torn_disk : Disk
torn_disk = record {
  contents = λ l. block_of (torn l);
  saved = record { sector = 0; total_sectors = 0 };
  direction = encrypt;
}

at-torn : (l : ℕ) → at 512 torn_disk l ≡ block_of (torn l) ++ []
at-torn l =
    whole_or_zero-same 512 (block_of (torn l)) (block_of-whole (torn l)) ∙ sym (append-nil _)

load_offset_example : (load_offset (disk_io 512) clear zero_salt config torn_disk).0 ≡ ok 100
load_offset_example =
    load_offset-largest dev512 clear-IsCodec zero_salt (λ d l. refl) salt_whole config
      config-IsConfig (λ lba len d. (_, refl)) 0 (1791 ∷ 2047 ∷ []) replicas torn_disk torn
      (
        (block_of 90, (encrypt, (replicate 16 0, (omega arith, salt16, refl, at-torn 0)))),
        (
          (block_of 100, (encrypt, (replicate 16 0, (omega arith, salt16, refl, at-torn 1791)))),
          (
            (block_of 100, (encrypt, (replicate 16 0, (omega arith, salt16, refl, at-torn 2047)))),
            tt,
          ),
        ),
      )

abbrev fields : JvckFields
fields = record { offset = 0; state = 0 }

abbrev progress : EncryptedOffset
progress = record { sector = 77; total_sectors = 1280 }

stores : (jvck_store (disk_io 512) clear zero_salt config progress (fields, torn_disk)).0 ≡ ok tt
unfolding jvck_store write_all_replicas write_replicas write_block replica_lbas
stores = refl

jvck_load_example :
    (jvck_load
      (disk_io 512)
      clear
      zero_salt
      config
      (jvck_store (disk_io 512) clear zero_salt config progress (fields, torn_disk)).1).0
    ≡ ok progress
jvck_load_example =
    jvck_load-jvck_store dev512 clear-IsCodec zero_salt (λ d l. refl) salt_whole config
      config-IsConfig (λ lba len d. (_, refl)) 0 (1791 ∷ 2047 ∷ []) replicas progress
      (fields, torn_disk) (omega arith) refl stores
