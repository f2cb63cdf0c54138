-- ===== src/Prepare/Opens.antt =====
-- lib/windrv/src/ioctl/dispatch.rs: PREPARE, and then the opening of the device.
use volumecrypt_kit.Prelude.{
  ℕ, ◌+◌, ◌/◌, ◌^◌, ◌≤◌, ◌<◌, ◌≡◌, ◌⊎◌, inl, inr, refl, ap, ◌∙◌, String, Bool, false, some, List,
  ◌∷◌,
}
use volumecrypt_kit.Prelude.Bytes.{IsSector}
use volumecrypt_kit.Error.{VckError, VckResult, ok, err}
use volumecrypt_kit.Exec.{Exec}
use volumecrypt_kit.Types.{from_u16}
use volumecrypt_kit.Device.{SectorIo, IsDevice}
use volumecrypt_kit.Volume.{IoConfig, AttachedVolume, offset_sector, data_sectors}
use volumecrypt_kit.Registry.{get}
use volumecrypt_kit.Dispatch.{Kernel, Driver}
use volumecrypt_kit.Jvck.{compute_geometry}
use volumecrypt_kit.Jvck.Layout.{layout}
use volumecrypt_kit.Jvck.Metadata.{Crypto, encode}
use volumecrypt_kit.Jvck.Metadata.RoundTrip.{IsCrypto}
use volumecrypt_kit.Jvck.Metadata.Sealed.{encode-whole}
use volumecrypt_kit.Jvck.Store.{JvckConfig, replica_lbas, write_replicas}
use volumecrypt_kit.Jvck.Replicas.{write_replicas_sets, write_replicas_frame}
use volumecrypt_kit.Jvck.Durable.{replicas_away}
use volumecrypt_kit.Jvck.Open.{JvckMetadataStore, open_store}
use volumecrypt_kit.Jvck.Open.Opened.{IsStore, same_size, lawful, reopens, same_codec}
use volumecrypt_kit.Prepare.{
  JvckVolumePrepareResp, prepare_lbas, prepare_sized, bind_volume,
  handle_jvck_prepare_adddevice_path,
}
use volumecrypt_kit.Prepare.Ends.{request_for, prepared, attached_lem}
use volumecrypt_kit.Prepare.Replicas.{prepare_lbas_lem}

module _ {D : Type 0} {io : SectorIo D} {sector : D → ℕ → List ℕ} (dev : IsDevice io sector)
    {crypto : Crypto} (ic : IsCrypto crypto) (fill_random : Exec D (List ℕ))
    (random_keeps : (d : D) (l : ℕ) → sector (fill_random d).1 l ≡ sector d l)
    (random_whole : (d : D) (salt : List ℕ) → (fill_random d).0 ≡ ok salt → IsSector 16 salt)
    (reads : (lba len : ℕ) (d : D) → (buf : List ℕ) × ((io.read_sectors lba len d).0 ≡ ok buf))
    (s : JvckMetadataStore D) (is : IsStore crypto io s) (first : ℕ) (others : List ℕ)
    (is_replicas : replica_lbas s.config ≡ first ∷ others) (total_fits : io.total_sectors < 2 ^ 64)
    (salt block : List ℕ) (salt_whole : IsSector 16 salt)
    (sealed : encode crypto s.header s.secrets s.fields.offset (from_u16 s.fields.state) salt s.vmk
      ≡ ok block)
    (k : Kernel D) (open_query : String → Exec D (ℕ × ℕ)) (lower : ℕ → ℕ → SectorIo D)
    (on_attach : List ℕ → SectorIo D → Exec D IoConfig)
    (lower_lem : lower io.sector_size io.total_sectors ≡ io) (path : String) (os : Bool) where
  abbrev cfg : JvckConfig
  cfg = s.config

  size : cfg.geometry.sector_size ≡ io.sector_size
  size = same_size dev ic fill_random random_keeps random_whole reads s is first others is_replicas

  block_whole : IsSector 512 block
  block_whole =
      encode-whole ic s.header is.header_valid salt salt_whole s.vmk s.secrets is.secrets_valid
        s.fields.offset (from_u16 s.fields.state) block sealed

  accepted : compute_geometry io.sector_size io.total_sectors cfg.options ≡ ok cfg.geometry
  accepted = rw is.same_volume at is.config_valid.accepted

  lbas_lem :
      prepare_lbas io.total_sectors
        (cfg.options.metadata_size / io.sector_size)
        cfg.options.use_header
        cfg.options.use_footer
      ≡ replica_lbas cfg
  unfolding replica_lbas
  lbas_lem =
      rw (is.same_volume, size)
        (prepare_lbas_lem io.sector_size io.total_sectors cfg.options cfg.geometry
          is.config_valid.counts accepted total_fits)

  block_fits : 512 ≤ io.sector_size
  block_fits =
      (layout io.sector_size cfg.volume_sectors cfg.options cfg.geometry is.config_valid.counts
        is.config_valid.accepted).block_fits

  module _ (filter_do : ℕ) (d : Driver D) where
    abbrev outcome : VckResult JvckVolumePrepareResp × Driver D
    outcome =
        prepare_sized k open_query lower on_attach (request_for cfg.options block path os) filter_do
          io.sector_size io.total_sectors d

    abbrev answer : JvckVolumePrepareResp
    answer = record {
      offset_sector = cfg.geometry.offset_sector;
      data_sectors = cfg.geometry.data_sectors;
      sector_size = io.sector_size;
      fully_attached = false;
    }

    -- The registry knows the volume with the geometry of the layout.
    abbrev Attached : Driver D → Type 0
    Attached d' =
        (v : AttachedVolume) × (get path d'.entries ≡ some v)
        × (offset_sector v ≡ cfg.geometry.offset_sector)
        × (data_sectors v ≡ cfg.geometry.data_sectors)

    abbrev after_writes : VckResult (Unit {0}) × D
    after_writes = write_replicas io io.sector_size block (replica_lbas cfg) d.kernel

    reopened :
        after_writes.0 ≡ ok tt → (open_store crypto io fill_random s.vmk after_writes.1).0 ≡ ok s
    reopened good =
        reopens dev ic fill_random random_keeps random_whole reads s is first others is_replicas
          salt block salt_whole sealed after_writes.1
          (write_replicas_sets dev block_fits block block_whole.0 block_whole.1 (replica_lbas cfg)
            d.kernel good)
        ∙ ap ok (
            same_codec dev ic fill_random random_keeps random_whole reads s is first others
              is_replicas)

    kept :
        (r : ℕ)
        → r < cfg.geometry.data_sectors
        → sector after_writes.1 (cfg.geometry.offset_sector + r)
          ≡ sector d.kernel (cfg.geometry.offset_sector + r)
    kept r lt =
        write_replicas_frame dev block_fits block block_whole.0 block_whole.1 (replica_lbas cfg)
          d.kernel (cfg.geometry.offset_sector + r)
          (replicas_away dev
            (lawful dev ic fill_random random_keeps random_whole reads s is first others
              is_replicas)
            fill_random random_keeps random_whole cfg is.config_valid r lt)

    ended :
        (r : ℕ)
        → r < cfg.geometry.data_sectors
        → (sector outcome.1.kernel (cfg.geometry.offset_sector + r)
            ≡ sector d.kernel (cfg.geometry.offset_sector + r))
          × (((e : VckError) × (outcome.0 ≡ err e))
              ⊎ ((outcome.0 ≡ ok answer)
                  × ((open_store crypto io fill_random s.vmk outcome.1.kernel).0 ≡ ok s)
                  × Attached outcome.1))
    unfolding bind_volume
    ended r lt =
        elim (prepared io cfg.options cfg.geometry is.config_valid.counts accepted total_fits
          (replica_lbas cfg) lbas_lem block block_fits block_whole.0 k open_query lower on_attach
          lower_lem path os filter_do d) [
            | inl (e, bad, at) ↦ rw at (kept r lt, inl (e, refl))
            | inr (good, at) ↦ rw at (
              kept r lt,
              inr (
                refl,
                reopened good,
                attached_lem io cfg.options cfg.geometry is.config_valid.counts accepted total_fits
                    (replica_lbas cfg) lbas_lem block block_fits block_whole.0 k open_query lower
                    on_attach lower_lem path os filter_do d (record d { kernel = after_writes.1 }),
              ),
            )
          ]

  -- With lawful crypto primitives and a device below the filter that meets its laws and whose reads
  -- succeed, of fewer than 2^64 sectors: when PREPARE is asked, without a VMK, to give a volume the
  -- layout of a well-formed JVCK store and the block that this store's header, keys, progress and
  -- VMK seal with a salt of 16 bytes, and the size of the volume is found, then no sector of the
  -- data region changes; and PREPARE returns an error, or it answers with the store's geometry,
  -- opening the device with the store's VMK gives the store, and the registry has a volume of this
  -- geometry at the path.
  pub open_store-handle_jvck_prepare_adddevice_path :
      (nt_path : String) (filter_do : ℕ) (d : Driver D) (r : ℕ)
      → (open_query nt_path d.kernel).0 ≡ ok (io.sector_size, io.total_sectors)
      → r < cfg.geometry.data_sectors
      → (let (out, d') =
            handle_jvck_prepare_adddevice_path k open_query lower on_attach
              (request_for cfg.options block path os)
              nt_path
              filter_do
              d in
          (sector d'.kernel (cfg.geometry.offset_sector + r)
            ≡ sector (open_query nt_path d.kernel).1 (cfg.geometry.offset_sector + r))
          × (((e : VckError) × (out ≡ err e))
              ⊎ ((out
                    ≡ ok (record {
                      offset_sector = cfg.geometry.offset_sector;
                      data_sectors = cfg.geometry.data_sectors;
                      sector_size = io.sector_size;
                      fully_attached = false;
                    }))
                  × ((open_store crypto io fill_random s.vmk d'.kernel).0 ≡ ok s)
                  × ((v : AttachedVolume) × (get path d'.entries ≡ some v)
                      × (offset_sector v ≡ cfg.geometry.offset_sector)
                      × (data_sectors v ≡ cfg.geometry.data_sectors)))))
  unfolding handle_jvck_prepare_adddevice_path
  open_store-handle_jvck_prepare_adddevice_path nt_path filter_do d r queried lt =
      let w = (open_query nt_path d.kernel).1 in
      let handled : handle_jvck_prepare_adddevice_path k open_query lower on_attach
            (request_for cfg.options block path os) nt_path filter_do d
          ≡ prepare_sized k open_query lower on_attach (request_for cfg.options block path os)
              filter_do io.sector_size io.total_sectors (record d { kernel = w }) =
        rw (handle_jvck_prepare_adddevice_path, queried) refl in
      rw handled (ended filter_do (record d { kernel = w }) r lt)
