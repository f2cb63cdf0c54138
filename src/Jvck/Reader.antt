-- ===== src/Jvck/Reader.antt =====
-- `JvckMetadataReader` of lib/common/src/jvck/store.rs: the plaintext header, and the choice of a
-- replica.
use volumecrypt_kit.Prelude.{
  ℕ, suc, ◌-◌, Option, none, some, List, [], ◌∷◌, ltb, ◌==◌, if◌then◌else◌, get_elem?,
}
use volumecrypt_kit.Error.{VckError, unsupported, not_found, VckResult, ok, err, ok_or}
use volumecrypt_kit.Exec.{Exec, pure, raise, lift, continue, ◌>>=◌, ◌>>◌}
use volumecrypt_kit.Device.{SectorIo}
use volumecrypt_kit.Jvck.{
  JvckMetadataOptions, compute_geometry, replica_sectors, vendor_data_base_lba_at,
  vendor_data_lba_checked,
}
use volumecrypt_kit.Jvck.Store.{JvckConfig, replica_lbas, read_block}
use volumecrypt_kit.Jvck.Metadata.{Crypto, JvckHeader, Unsealed, verify_crc, parse}
use volumecrypt_kit.Jvck.Codec.{ReplicaCtx, Codec}

pub record JvckMetadataReader : Type 0 where
  pub config : JvckConfig
  pub header : JvckHeader

unfoldable pub base_or_zero : Option ℕ → ℕ
base_or_zero none = 0
base_or_zero (some base) = base

-- The context of a replica whose block was read.
unfoldable pub ctx_of : JvckMetadataReader → ℕ → List ℕ → ReplicaCtx
unfolding replica_sectors vendor_data_base_lba_at base_or_zero
ctx_of r replica_index block =
    let o = r.config.options in
    let sector_size = r.config.geometry.sector_size in
    let rs = replica_sectors o.metadata_size sector_size in
    record {
      header = r.header;
      block = block;
      vendor_base_lba = base_or_zero (
          vendor_data_base_lba_at r.config.volume_sectors rs o.use_header o.use_footer
            replica_index);
      vendor_sector_count = rs - 1;
      sector_size = sector_size;
      replica_index = replica_index;
    }

unfoldable pub options_of : JvckHeader → JvckMetadataOptions
options_of header = record {
  use_header = header.header_replica_count;
  use_footer = header.footer_replica_count;
  metadata_size = header.metadata_size;
}

module _ {D : Type 0} (crypto : Crypto) (io : SectorIo D) where
  unfoldable pub open_header : JvckHeader → VckResult JvckMetadataReader
  unfolding options_of
  open_header header =
      let options = options_of header in
      elim (compute_geometry io.sector_size io.total_sectors options) [
        | err e ↦ err e
        | ok geometry ↦ ok (record {
          config = record {
            options = options;
            geometry = geometry;
            volume_sectors = io.total_sectors;
          };
          header = header;
        })
      ]

  unfoldable pub open_at : List ℕ → Exec D JvckMetadataReader
  unfolding open_header
  open_at [] d = (err (not_found "no JVCK metadata present"), d)
  open_at (lba ∷ lbas) d =
      let (r, d1) = read_block io io.sector_size lba d in
      elim r [
        | err e ↦ (err e, d1)
        | ok block ↦ elim (verify_crc crypto block) [
          | err _ ↦ open_at lbas d1
          | ok _ ↦ continue (parse crypto block) (λ header. lift (open_header header)) d1
        ]
      ]

  unfoldable pub open_reader : Exec D JvckMetadataReader
  unfolding open_at
  open_reader =
      if ltb io.sector_size 512
      then raise (unsupported "sector size smaller than 512")
      else if io.total_sectors == 0
      then raise (not_found "empty volume")
      else open_at ((io.total_sectors - 1) ∷ 0 ∷ [])

  unfoldable pub replica_ctx : JvckMetadataReader → ℕ → Exec D ReplicaCtx
  unfolding ctx_of
  replica_ctx r replica_index = do
    lba ← lift (
        ok_or (get_elem? (replica_lbas r.config) replica_index)
          (not_found "replica index out of range"))
    block ← read_block io r.config.geometry.sector_size lba
    lift (verify_crc crypto block)
    pure (ctx_of r replica_index block)

  -- `JvckMetadataReader::read_vendor_data`
  unfoldable pub read_replica_vendor_data : JvckMetadataReader → ℕ → ℕ → ℕ → Exec D (List ℕ)
  read_replica_vendor_data r replica_index rel_sector len = do
    lba ← lift (
        vendor_data_lba_checked r.config.options r.config.geometry.sector_size
          r.config.volume_sectors replica_index rel_sector len)
    io.read_sectors lba len

  unfoldable pub last_error : Option VckError → VckError
  last_error none = not_found "no JVCK metadata replica could be unsealed"
  last_error (some e) = e

  module _ (r : JvckMetadataReader) (select : ReplicaCtx → Exec D (Codec D × Unsealed)) where
    -- The loop over the replicas, from replica `idx` on.
    unfoldable pub choose : ℕ → Option VckError → List ℕ → Exec D (Codec D × Unsealed)
    unfolding last_error
    choose idx last [] d = (err (last_error last), d)
    choose idx last (lba ∷ lbas) d =
        let (b, d1) = read_block io r.config.geometry.sector_size lba d in
        elim b [
          | err e ↦ choose (suc idx) (some e) lbas d1
          | ok block ↦ elim (verify_crc crypto block) [
            | err _ ↦ choose (suc idx) last lbas d1
            | ok _ ↦
                let (s, d2) = select (ctx_of r idx block) d1 in
                elim s [ ok pair ↦ (ok pair, d2) | err e ↦ choose (suc idx) (some e) lbas d2 ]
          ]
        ]
