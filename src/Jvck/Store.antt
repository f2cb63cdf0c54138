-- ===== src/Jvck/Store.antt =====
-- `JvckMetadataStore` of lib/common/src/jvck/store.rs: the offset store that keeps its record in the
-- metadata replicas. The codec (with its header, secrets and key), the CRC test and the random
-- numbers are parameters. The store's own fields `offset` and `state` stand beside the device.
use volumecrypt_kit.Prelude.{ℕ, ◌-◌, max, Option, none, some, List, [], ◌∷◌, ◌++◌, take, replicate}
use volumecrypt_kit.Error.{not_found, VckResult, ok, err, ok_or}
use volumecrypt_kit.Exec.{Exec, pure, ◌>>=◌, ◌>>◌, lift}
use volumecrypt_kit.Types.{VolumeState, EncryptedOffset, as_u16, from_u16}
use volumecrypt_kit.Device.{SectorIo, OffsetStore}
use volumecrypt_kit.Jvck.{JvckMetadataOptions, Geometry, replica_sectors, metadata_sector_lbas}

-- `MetadataCodec` with what a store passes to it: `seal` takes the offset, the state and the salt.
pub record MetadataCodec : Type 0 where
  pub seal : ℕ → VolumeState → List ℕ → VckResult (List ℕ)
  pub read_offset : List ℕ → VckResult ℕ
  pub verify_crc : List ℕ → VckResult (Unit {0})

pub record JvckFields : Type 0 where
  pub offset : ℕ
  pub state : ℕ

pub record JvckConfig : Type 0 where
  pub options : JvckMetadataOptions
  pub geometry : Geometry
  pub volume_sectors : ℕ

unfoldable pub replica_lbas : JvckConfig → List ℕ
unfolding replica_sectors metadata_sector_lbas
replica_lbas cfg =
    metadata_sector_lbas cfg.volume_sectors
      (replica_sectors cfg.options.metadata_size cfg.geometry.sector_size) cfg.options.use_header
      cfg.options.use_footer

module _ {D : Type 0} (io : SectorIo D) where
  unfoldable pub read_block : ℕ → ℕ → Exec D (List ℕ)
  read_block sector_size lba = do sector ← io.read_sectors lba sector_size; pure (take 512 sector)

  unfoldable pub write_block : ℕ → ℕ → List ℕ → Exec D (Unit {0})
  write_block sector_size lba block =
      io.write_sectors lba (block ++ replicate (sector_size - 512) 0)

  -- `for lba in … { write_block(…)?; }`
  unfoldable pub write_replicas : ℕ → List ℕ → List ℕ → Exec D (Unit {0})
  unfolding write_block
  write_replicas sector_size block [] = pure tt
  write_replicas sector_size block (lba ∷ lbas) = do
    write_block sector_size lba block
    write_replicas sector_size block lbas

  module _ (codec : MetadataCodec) (fill_random : Exec D (List ℕ)) (cfg : JvckConfig) where
    -- An action of the device, which leaves the fields alone.
    abbrev pub on_device : {A : Type 0} → Exec D A → Exec (JvckFields × D) A
    on_device m (s, d) = let (r, d') = m d in (r, (s, d'))

    unfoldable pub write_all_replicas : Exec (JvckFields × D) (Unit {0})
    unfolding write_replicas replica_lbas from_u16
    write_all_replicas (s, d) =
        on_device
          (do
            salt ← fill_random
            block ← lift (codec.seal s.offset (from_u16 s.state) salt)
            write_replicas cfg.geometry.sector_size block (replica_lbas cfg))
          (s, d)

    -- The offset of one replica: none when it cannot be read, is damaged, or is not the codec's.
    unfoldable pub block_offset : VckResult (List ℕ) → Option ℕ
    block_offset (err _) = none
    block_offset (ok block) = elim (codec.verify_crc block) [
      | err _ ↦ none
      | ok _ ↦ elim (codec.read_offset block) [ err _ ↦ none | ok o ↦ some o ]
    ]

    unfoldable pub better : Option ℕ → Option ℕ → Option ℕ
    better best none = best
    better none (some o) = some o
    better (some b) (some o) = some (max b o)

    unfoldable pub scan_replicas : Option ℕ → List ℕ → D → Option ℕ × D
    unfolding read_block block_offset better
    scan_replicas best [] d = (best, d)
    scan_replicas best (lba ∷ lbas) d =
        let (r, d') = read_block cfg.geometry.sector_size lba d in
        scan_replicas (better best (block_offset r)) lbas d'

    unfoldable pub load_offset : Exec D ℕ
    unfolding scan_replicas replica_lbas
    load_offset d =
        let (best, d') = scan_replicas none (replica_lbas cfg) d in
        (ok_or best (not_found "no valid JVCK metadata replica"), d')

    unfoldable pub jvck_load : Exec (JvckFields × D) EncryptedOffset
    unfolding load_offset
    jvck_load = do
      sector ← on_device load_offset
      pure (record { sector = sector; total_sectors = cfg.geometry.data_sectors })

    unfoldable pub jvck_store : EncryptedOffset → Exec (JvckFields × D) (Unit {0})
    unfolding write_all_replicas
    jvck_store o (s, d) = write_all_replicas (record s { offset = o.sector }, d)

    unfoldable pub jvck_load_state : Exec (JvckFields × D) VolumeState
    unfolding from_u16
    jvck_load_state (s, d) = (ok (from_u16 s.state), (s, d))

    unfoldable pub jvck_store_state : VolumeState → Exec (JvckFields × D) (Unit {0})
    unfolding write_all_replicas as_u16
    jvck_store_state v (s, d) = write_all_replicas (record s { state = as_u16 v }, d)

    abbrev pub jvck_offset_store : OffsetStore (JvckFields × D)
    jvck_offset_store = record {
      load = jvck_load;
      store = jvck_store;
      flush = pure tt;
      load_state = jvck_load_state;
      store_state = jvck_store_state;
    }
