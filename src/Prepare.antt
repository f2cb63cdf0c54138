-- ===== src/Prepare.antt =====
-- handle_jvck_prepare_adddevice_path of lib/windrv/src/ioctl/dispatch.rs: a volume under a filter is
-- given its metadata and becomes attached. The device below the filter, the query of the volume's
-- size and the provider's on_attach are parameters. The raw paths of the answer, which the kernel
-- names, are not kept.
pub mod Replicas
pub mod Ends
pub mod Opens
use volumecrypt_kit.Prelude.{
  ℕ, ◌+◌, ◌-◌, ◌*◌, ◌/◌, ◌%◌, ◌^◌, min, String, Bool, true, false, Option, none, some, List, [],
  ◌∷◌, ◌++◌, take, replicate, length, ltb, if◌then◌else◌,
}
use volumecrypt_kit.Prelude.Bytes.{tabulate}
use volumecrypt_kit.Error.{invalid_data, validation_failed, VckResult, ok, err}
use volumecrypt_kit.Exec.{Exec, pure, raise, ◌>>=◌, ◌>>◌}
use volumecrypt_kit.Types.{EncryptedOffset}
use volumecrypt_kit.Device.{SectorIo}
use volumecrypt_kit.Engine
use volumecrypt_kit.Volume.{
  IoConfig, encrypted, geometry, AttachSource, handover, ioctl, AttachedVolume,
}
use volumecrypt_kit.Registry.{insert, remove}
use volumecrypt_kit.Dispatch.{Kernel, Driver, without, detach_filter}

pub record JvckVolumePrepareReq : Type 0 where
  pub volume_path : String
  pub use_header : ℕ
  pub use_footer : ℕ
  pub metadata_size : ℕ
  pub vmk : List ℕ
  pub metadata_block : List ℕ
  pub is_os_volume : Bool

pub record JvckVolumePrepareResp : Type 0 where
  pub offset_sector : ℕ
  pub data_sectors : ℕ
  pub sector_size : ℕ
  pub fully_attached : Bool

-- u64 subtraction
unfoldable pub sub64 : ℕ → ℕ → ℕ
sub64 a b = (a + 2 ^ 64 - b) % 2 ^ 64

-- The LBAs of the replicas, `rs` sectors each.
unfoldable pub prepare_lbas : ℕ → ℕ → ℕ → ℕ → List ℕ
unfolding sub64
prepare_lbas total rs use_header use_footer =
    tabulate use_header (λ i. i * rs)
    ++ tabulate use_footer (λ j. sub64 (sub64 total (use_footer * rs) + j * rs + rs) 1)

-- `saturating_sub`
unfoldable pub prepare_data_sectors : ℕ → ℕ → ℕ → ℕ → ℕ
prepare_data_sectors total rs use_header use_footer = total - (use_header * rs + use_footer * rs)

unfoldable pub sector_buf : ℕ → List ℕ → List ℕ
sector_buf sector_size block =
    let copy_len = min 512 sector_size in
    take copy_len block ++ replicate (sector_size - copy_len) 0

unfoldable pub write_lbas : {W : Type 0} → SectorIo W → List ℕ → List ℕ → Exec W (Unit {0})
write_lbas lo buf [] = pure tt
write_lbas lo buf (lba ∷ lbas) = do lo.write_sectors lba buf; write_lbas lo buf lbas

unfoldable pub write_metadata : {W : Type 0} → SectorIo W → ℕ → List ℕ → List ℕ → Exec W (Unit {0})
unfolding write_lbas sector_buf
write_metadata lo sector_size [] lbas = pure tt
write_metadata lo sector_size (b ∷ block) lbas =
    if ltb (length (b ∷ block)) 512
    then raise (invalid_data "metadata_block too short")
    else write_lbas lo (sector_buf sector_size (b ∷ block)) lbas

unfoldable pub source_of : Bool → AttachSource
source_of true = handover
source_of false = ioctl

-- A volume over a configuration with its geometry.
unfoldable pub attached_volume :
    JvckVolumePrepareReq → ℕ → ℕ → IoConfig → ℕ → EncryptedOffset → AttachedVolume
unfolding source_of Engine.new
attached_volume req filter_do sector_size config offset o = record {
  volume_path = req.volume_path;
  sector_size = sector_size;
  io_config = config;
  encryption = Engine.new offset o;
  attach_source = source_of req.is_os_volume;
  filter_device = filter_do;
  encrypted_boundary = o.sector;
}

-- The volume that is bound before its metadata is read: nothing is encrypted, and there is no cipher.
unfoldable pub provisional : JvckVolumePrepareReq → ℕ → ℕ → ℕ → ℕ → AttachedVolume
unfolding attached_volume
provisional req filter_do sector_size offset sectors =
    let o : EncryptedOffset = record { sector = 0; total_sectors = sectors } in
    attached_volume req filter_do sector_size (encrypted none offset o) offset o

-- Insertion into the registry, and filter_bind_volume.
unfoldable pub bind_volume : {W : Type 0} → ℕ → AttachedVolume → Driver W → Driver W
bind_volume filter_do v d = record d {
  entries = insert v d.entries;
  bound = filter_do ∷ without filter_do d.bound;
}

-- The volume with the geometry of its metadata takes the place of the provisional one.
unfoldable pub fully_attach :
    {W : Type 0} → JvckVolumePrepareReq → ℕ → ℕ → IoConfig → Exec (Driver W) JvckVolumePrepareResp
unfolding bind_volume attached_volume
fully_attach req filter_do sector_size config d = elim (geometry config) [
  | none ↦ (err (validation_failed "on_attach returned passthrough for a VMK-provided volume"), d)
  | some (offset, o) ↦ (
    ok (record {
      offset_sector = offset;
      data_sectors = o.total_sectors;
      sector_size = sector_size;
      fully_attached = true;
    }),
    bind_volume filter_do (attached_volume req filter_do sector_size config offset o)
        (record d { entries = remove req.volume_path d.entries }),
  )
]

module _ {W : Type 0} (k : Kernel W) (open_query : String → Exec W (ℕ × ℕ))
    (lower : ℕ → ℕ → SectorIo W) (on_attach : List ℕ → SectorIo W → Exec W IoConfig) where
  -- From the binding of the provisional volume on.
  unfoldable pub attach_prepared :
      JvckVolumePrepareReq → ℕ → ℕ → ℕ → AttachedVolume → Exec (Driver W) JvckVolumePrepareResp
  unfolding fully_attach
  attach_prepared req filter_do sector_size total v d = elim req.vmk [
    | [] ↦ (
      ok (record {
        offset_sector = v.encryption.offset_sector;
        data_sectors = v.encryption.encrypted_offset.total_sectors;
        sector_size = sector_size;
        fully_attached = false;
      }),
      d,
    )
    | b ∷ bytes ↦
        let (c, w1) = on_attach (b ∷ bytes) (lower sector_size total) d.kernel in
        elim c [
          | err e ↦ (
            err e,
            detach_filter k filter_do
                (record d { entries = remove req.volume_path d.entries; kernel = w1 }),
          )
          | ok config ↦ fully_attach req filter_do sector_size config (record d { kernel = w1 })
        ]
  ]

  -- From the end of the writes on.
  unfoldable pub write_ended :
      JvckVolumePrepareReq
      → ℕ
      → ℕ
      → ℕ
      → AttachedVolume
      → VckResult (Unit {0}) × W
      → Exec (Driver W) JvckVolumePrepareResp
  unfolding bind_volume attach_prepared
  write_ended req filter_do sector_size total v (err e, w) d = (err e, record d { kernel = w })
  write_ended req filter_do sector_size total v (ok _, w) d =
      attach_prepared req filter_do sector_size total v
        (bind_volume filter_do v (record d { kernel = w }))

  unfoldable pub prepare_sized :
      JvckVolumePrepareReq → ℕ → ℕ → ℕ → Exec (Driver W) JvckVolumePrepareResp
  unfolding write_metadata prepare_lbas prepare_data_sectors provisional write_ended
  prepare_sized req filter_do sector_size total d =
      let rs = req.metadata_size / sector_size in
      let lbas = prepare_lbas total rs req.use_header req.use_footer in
      let sectors = prepare_data_sectors total rs req.use_header req.use_footer in
      let v = provisional req filter_do sector_size (req.use_header * rs) sectors in
      write_ended req filter_do sector_size total v
        (write_metadata (lower sector_size total) sector_size req.metadata_block lbas d.kernel) d

  unfoldable pub handle_jvck_prepare_adddevice_path :
      JvckVolumePrepareReq → String → ℕ → Exec (Driver W) JvckVolumePrepareResp
  unfolding prepare_sized
  handle_jvck_prepare_adddevice_path req nt_path filter_do d =
      let (q, w1) = open_query nt_path d.kernel in
      elim q [
        | err e ↦ (err e, record d { kernel = w1 })
        | ok (sector_size, total) ↦
            prepare_sized req filter_do sector_size total (record d { kernel = w1 })
      ]
