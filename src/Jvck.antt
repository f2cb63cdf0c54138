-- ===== src/Jvck.antt =====
-- lib/common/src/jvck: the metadata replicas before and behind the data region. This module is their
-- layout (options.rs and the geometry of store.rs).
pub mod Layout
pub mod Metadata
pub mod Store
pub mod Codec
pub mod Reader
pub mod Open
pub mod Replicas
pub mod Durable
pub mod Vendor
use volumecrypt_kit.Prelude.{
  ℕ, zero, suc, ◌+◌, ◌-◌, ◌*◌, ◌/◌, ◌%◌, ◌^◌, Bool, Option, none, some, List, [], ◌∷◌, ◌++◌, ltb,
  leb, ◌==◌, if◌then◌else◌,
}
use volumecrypt_kit.Prelude.Bytes.{tabulate}
use volumecrypt_kit.Error.{
  VckError, unsupported, validation_failed, VckResult, ok, err, ensure, ◌>>=◌, ◌>>◌,
}

pub record JvckMetadataOptions : Type 0 where
  pub use_header : ℕ
  pub use_footer : ℕ
  pub metadata_size : ℕ

abbrev pub min_metadata_size : ℕ
min_metadata_size = 128 * 1024

-- u32 addition
unfoldable pub replica_count : JvckMetadataOptions → ℕ
replica_count o = (o.use_header + o.use_footer) % 2 ^ 32

unfoldable pub validate : JvckMetadataOptions → VckResult (Unit {0})
unfolding replica_count
validate o =
    if ltb o.metadata_size min_metadata_size
    then err (validation_failed "metadata_size must be at least 128 KiB")
    else if replica_count o == 0
    then err (validation_failed "use_header + use_footer must be >= 1")
    else ok tt

pub record Geometry : Type 0 where
  pub offset_sector : ℕ
  pub data_sectors : ℕ
  pub sector_size : ℕ

unfoldable pub replica_sectors : ℕ → ℕ → ℕ
replica_sectors metadata_size sector_size = metadata_size / sector_size

-- Header replicas begin with their Metadata block, footer replicas end with it.
unfoldable pub metadata_sector_lbas : ℕ → ℕ → ℕ → ℕ → List ℕ
metadata_sector_lbas volume_sectors rs use_header use_footer =
    tabulate use_header (λ i. i * rs)
    ++ tabulate use_footer (λ j. volume_sectors - use_footer * rs + j * rs + rs - 1)

unfoldable pub vendor_data_base_lba_at : ℕ → ℕ → ℕ → ℕ → ℕ → Option ℕ
vendor_data_base_lba_at volume_sectors rs use_header use_footer replica_index =
    if ltb replica_index use_header
    then some (replica_index * rs + 1)
    else if ltb replica_index (use_header + use_footer)
    then some (volume_sectors - use_footer * rs + (replica_index - use_header) * rs)
    else none

unfoldable pub compute_geometry : ℕ → ℕ → JvckMetadataOptions → VckResult Geometry
unfolding replica_sectors replica_count
compute_geometry sector_size volume_sectors o =
    let rs = replica_sectors o.metadata_size sector_size in
    let consumed = replica_count o * rs in
    if ltb sector_size 512
    then err (unsupported "sector size smaller than 512")
    else if rs == 0
    then err (validation_failed "metadata_size smaller than one sector")
    else if leb volume_sectors consumed
    then err (validation_failed "volume too small to hold metadata replicas")
    else ok (record {
      offset_sector = o.use_header * rs;
      data_sectors = volume_sectors - consumed;
      sector_size = sector_size;
    })

-- The checks of a vendor-data access: `len` bytes from sector `rel_sector` of a replica's area on.
unfoldable pub vendor_data_lba_checked : JvckMetadataOptions → ℕ → ℕ → ℕ → ℕ → ℕ → VckResult ℕ
unfolding replica_sectors vendor_data_base_lba_at
vendor_data_lba_checked o sector_size volume_sectors replica_index rel_sector len =
    let rs = replica_sectors o.metadata_size sector_size in
    if sector_size == 0
    then err
        (VckError.invalid_data "vendor data buffer must be a non-zero multiple of the sector size")
    else if len == 0
    then err
        (VckError.invalid_data "vendor data buffer must be a non-zero multiple of the sector size")
    else if ltb 0 (len % sector_size)
    then err
        (VckError.invalid_data "vendor data buffer must be a non-zero multiple of the sector size")
    else elim (vendor_data_base_lba_at volume_sectors rs o.use_header o.use_footer replica_index) [
      | none ↦ err (VckError.not_found "vendor data replica index out of range")
      | some base ↦
          if leb (2 ^ 64) (rel_sector + len / sector_size)
          then err (validation_failed "vendor data range exceeds the replica region")
          else if ltb (rs - 1) (rel_sector + len / sector_size)
          then err (validation_failed "vendor data range exceeds the replica region")
          else ok (base + rel_sector)
    ]
