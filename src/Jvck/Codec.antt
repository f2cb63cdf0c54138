-- ===== src/Jvck/Codec.antt =====
-- lib/common/src/jvck/codec.rs: the context of one replica, the `MetadataCodec` trait, and the
-- default codec.
pub mod Lawful
use volumecrypt_kit.Prelude.{
  ℕ, ◌+◌, ◌*◌, ◌/◌, ◌%◌, ◌^◌, List, length, Bool, ◌||◌, ltb, leb, ◌==◌, if◌then◌else◌, take,
}
use volumecrypt_kit.Prelude.Fields.{slice}
use volumecrypt_kit.Error.{VckError, validation_failed, VckResult, ok, err, ◌>>=◌}
use volumecrypt_kit.Exec
use volumecrypt_kit.Exec.{Exec}
use volumecrypt_kit.Types.{VolumeState}
use volumecrypt_kit.Device.{SectorIo}
use volumecrypt_kit.Jvck.Store.{MetadataCodec}
use volumecrypt_kit.Jvck.Metadata.{
  Crypto, JvckHeader, JvckSecrets, Unsealed, encode, verify_crc, decrypt_payload,
  read_encrypted_offset,
}

pub record ReplicaCtx : Type 0 where
  pub header : JvckHeader
  pub block : List ℕ
  pub vendor_base_lba : ℕ
  pub vendor_sector_count : ℕ
  pub sector_size : ℕ
  pub replica_index : ℕ

unfoldable pub encrypted_metadata : ReplicaCtx → List ℕ
encrypted_metadata ctx = slice 64 128 ctx.block

unfoldable pub salt : ReplicaCtx → List ℕ
salt ctx = slice 48 16 ctx.block

unfoldable pub volume_id : ReplicaCtx → List ℕ
volume_id ctx = slice 32 16 ctx.block

-- The checks of a read of `len` bytes from sector `rel_sector` of a vendor area, and its LBA.
unfoldable pub vendor_range : ℕ → ℕ → ℕ → ℕ → ℕ → VckResult ℕ
vendor_range sector_size base count rel_sector len =
    if sector_size == 0 || len == 0 || ltb 0 (len % sector_size)
    then err
        (VckError.invalid_data "vendor data buffer must be a non-zero multiple of the sector size")
    else if leb (2 ^ 64) (rel_sector + len / sector_size)
        || ltb count (rel_sector + len / sector_size)
    then err (validation_failed "vendor data range exceeds the replica region")
    else ok (base + rel_sector)

unfoldable pub read_vendor_data : {D : Type 0} → SectorIo D → ReplicaCtx → ℕ → ℕ → Exec D (List ℕ)
unfolding vendor_range
read_vendor_data io ctx rel_sector len =
    Exec.continue
      (vendor_range ctx.sector_size ctx.vendor_base_lba ctx.vendor_sector_count rel_sector len)
      (λ lba. io.read_sectors lba len)

-- The trait `MetadataCodec`. A codec may read the vendor area of its replica, so unsealing acts on
-- the device.
pub record Codec (D : Type 0) : Type 0 where
  pub seal : JvckHeader → JvckSecrets → ℕ → VolumeState → List ℕ → List ℕ → VckResult (List ℕ)
  pub unseal : ReplicaCtx → List ℕ → Exec D Unsealed
  pub read_offset : List ℕ → List ℕ → VckResult ℕ

-- `JvckCbcCodec`
unfoldable pub jvck_cbc_codec : {D : Type 0} → Crypto → Codec D
jvck_cbc_codec crypto = record {
  seal = encode crypto;
  unseal = λ ctx vmk d. (decrypt_payload crypto ctx.block vmk, d);
  read_offset = read_encrypted_offset crypto;
}

-- A codec with what a store passes to it: its header, secrets and key.
unfoldable pub codec_of :
    {D : Type 0} → Crypto → Codec D → JvckHeader → JvckSecrets → List ℕ → MetadataCodec
codec_of crypto codec header secrets vmk = record {
  seal = λ offset state salt. codec.seal header secrets offset state salt vmk;
  read_offset = λ block. codec.read_offset block vmk;
  verify_crc = verify_crc crypto;
}
