-- ===== src/Prepare/Ends.antt =====
-- The ways PREPARE without a VMK ends, over a geometry that the JVCK layout accepts.
use volumecrypt_kit.Prelude.{
  ℕ, ◌+◌, ◌*◌, ◌/◌, ◌^◌, ◌≤◌, ◌<◌, ◌≡◌, length, ◌⊎◌, inl, inr, refl, sym, ap, ◌∙◌, String, Bool,
  false, some, List, [],
}
use text.Mathlib.TextPositions.{eq_refl}
use volumecrypt_kit.Error.{VckError, VckResult, ok, err, Result-cases}
use volumecrypt_kit.Exec.{Exec}
use volumecrypt_kit.Device.{SectorIo}
use volumecrypt_kit.Volume.{
  IoConfig, AttachedVolume, config_offset_sector, offset_sector, data_sectors,
}
use volumecrypt_kit.Registry.{get}
use volumecrypt_kit.Registry.Laws.{get-insert-remove}
use volumecrypt_kit.Dispatch.{Kernel, Driver}
use volumecrypt_kit.Jvck.{JvckMetadataOptions, Geometry, compute_geometry, replica_sectors}
use volumecrypt_kit.Jvck.Layout.{layout}
use volumecrypt_kit.Jvck.Store.{write_replicas}
use volumecrypt_kit.Prepare.{
  write_metadata, prepare_data_sectors, JvckVolumePrepareReq, JvckVolumePrepareResp, prepare_lbas,
  provisional, prepare_sized, write_ended, bind_volume, attach_prepared,
}
use volumecrypt_kit.Prepare.Replicas.{prepare_data_sectors_lem, write_metadata-write_replicas}

-- The request to prepare a volume with a layout and a block, and without its key.
abbrev pub request_for : JvckMetadataOptions → List ℕ → String → Bool → JvckVolumePrepareReq
request_for o block path os = record {
  volume_path = path;
  use_header = o.use_header;
  use_footer = o.use_footer;
  metadata_size = o.metadata_size;
  vmk = [];
  metadata_block = block;
  is_os_volume = os;
}

module _ {D : Type 0} (io : SectorIo D) (o : JvckMetadataOptions) (g : Geometry)
    (counts : o.use_header + o.use_footer < 2 ^ 32)
    (accepted : compute_geometry io.sector_size io.total_sectors o ≡ ok g)
    (total_fits : io.total_sectors < 2 ^ 64) (lbas : List ℕ)
    (lbas_lem : prepare_lbas io.total_sectors
        (o.metadata_size / io.sector_size)
        o.use_header
        o.use_footer
      ≡ lbas)
    (block : List ℕ) (block_fits : 512 ≤ io.sector_size) (len : length block ≡ 512) (k : Kernel D)
    (open_query : String → Exec D (ℕ × ℕ)) (lower : ℕ → ℕ → SectorIo D)
    (on_attach : List ℕ → SectorIo D → Exec D IoConfig)
    (lower_lem : lower io.sector_size io.total_sectors ≡ io) (path : String) (os : Bool) where
  abbrev request : JvckVolumePrepareReq
  request = request_for o block path os

  abbrev pub writes : D → VckResult (Unit {0}) × D
  writes w = write_replicas io io.sector_size block lbas w

  writes_lem :
      (w : D)
      → write_metadata
          (lower io.sector_size io.total_sectors)
          io.sector_size
          block
          (prepare_lbas io.total_sectors
            (o.metadata_size / io.sector_size)
            o.use_header
            o.use_footer)
          w
        ≡ writes w
  writes_lem w =
      rw (lower_lem, lbas_lem)
        (write_metadata-write_replicas io io.sector_size block lbas w block_fits len)

  module _ (filter_do : ℕ) (d : Driver D) where
    -- The provisional volume.
    abbrev pub volume : AttachedVolume
    volume =
        provisional request filter_do io.sector_size
          (o.use_header * (o.metadata_size / io.sector_size))
          (prepare_data_sectors io.total_sectors (o.metadata_size / io.sector_size) o.use_header
            o.use_footer)

    abbrev pub outcome : VckResult JvckVolumePrepareResp × Driver D
    outcome =
        prepare_sized k open_query lower on_attach request filter_do io.sector_size io.total_sectors
          d

    abbrev ends : VckResult (Unit {0}) × D → VckResult JvckVolumePrepareResp × Driver D
    ends r =
        write_ended k open_query lower on_attach request filter_do io.sector_size io.total_sectors
          volume r d

    outcome_lem : outcome ≡ ends (writes d.kernel)
    unfolding prepare_sized
    outcome_lem = ap ends (writes_lem d.kernel)

    fails :
        (r : VckResult (Unit {0}) × D) (e : VckError)
        → r.0 ≡ err e
        → ends r ≡ (err e, record d { kernel = r.1 })
    unfolding write_ended
    fails r e bad = ap (λ x. ends (x, r.1)) bad

    succeeds :
        (r : VckResult (Unit {0}) × D)
        → r.0 ≡ ok tt
        → ends r ≡ (
          ok (record {
            offset_sector = volume.encryption.offset_sector;
            data_sectors = volume.encryption.encrypted_offset.total_sectors;
            sector_size = io.sector_size;
            fully_attached = false;
          }),
          bind_volume filter_do volume (record d { kernel = r.1 }),
        )
    unfolding write_ended attach_prepared
    succeeds r good = ap (λ x. ends (x, r.1)) good

    offset_lem : o.use_header * (o.metadata_size / io.sector_size) ≡ g.offset_sector
    unfolding replica_sectors
    offset_lem = sym (layout io.sector_size io.total_sectors o g counts accepted).offset

    sectors_lem :
        prepare_data_sectors io.total_sectors
          (o.metadata_size / io.sector_size)
          o.use_header
          o.use_footer
        ≡ g.data_sectors
    unfolding replica_sectors
    sectors_lem =
        prepare_data_sectors_lem io.sector_size io.total_sectors o g counts accepted total_fits

    abbrev pub answer : JvckVolumePrepareResp
    answer = record {
      offset_sector = g.offset_sector;
      data_sectors = g.data_sectors;
      sector_size = io.sector_size;
      fully_attached = false;
    }

    -- The registry knows the volume with the geometry of the layout.
    abbrev pub Attached : Driver D → Type 0
    Attached d' =
        (v : AttachedVolume) × (get path d'.entries ≡ some v)
        × (offset_sector v ≡ g.offset_sector)
        × (data_sectors v ≡ g.data_sectors)

    pub attached_lem : (e : Driver D) → Attached (bind_volume filter_do volume e)
    unfolding bind_volume provisional offset_sector config_offset_sector data_sectors
    attached_lem e = (
      volume,
      (get-insert-remove path volume e.entries).0 ∙ rw (eq_refl path) refl,
      offset_lem,
      sectors_lem,
    )

    -- The writes decide: an error is returned, or the provisional volume is bound.
    pub prepared :
        ((e : VckError) × ((writes d.kernel).0 ≡ err e)
          × (outcome ≡ (err e, record d { kernel = (writes d.kernel).1 })))
        ⊎ (((writes d.kernel).0 ≡ ok tt)
            × (outcome ≡ (
              ok answer,
              bind_volume filter_do volume (record d { kernel = (writes d.kernel).1 }),
            )))
    unfolding provisional
    prepared = elim (Result-cases (writes d.kernel).0) [
      | inr (e, bad) ↦ inl (e, bad, outcome_lem ∙ fails (writes d.kernel) e bad)
      | inl (_, good) ↦
          inr (
            good,
            outcome_lem ∙ succeeds (writes d.kernel) good ∙ rw (offset_lem, sectors_lem) refl,
          )
    ]
