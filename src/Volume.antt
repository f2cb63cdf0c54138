-- ===== src/Volume.antt =====
-- `AttachedVolume` of lib/windrv/src/registry.rs and `IoConfig` of lib/windrv/src/provider.rs. The
-- device below the filter and the offset store, which a volume holds as trait objects, are
-- arguments of the operations that use them.
pub mod Stale
use volumecrypt_kit.Prelude.{ℕ, Bool, true, false, Option, none, some, String, ltb}
use volumecrypt_kit.Error.{VckResult, ok, err}
use volumecrypt_kit.Exec.{Exec}
use volumecrypt_kit.Types.{EncryptedOffset}
use volumecrypt_kit.Device.{SectorIo, OffsetStore}
use volumecrypt_kit.Cipher.{VolumeCipher, CipherSupplier}
use volumecrypt_kit.Engine
use volumecrypt_kit.Engine.{EncryptionEngine, progress_step}

pub data IoConfig : Type 0 where
  passthrough : IoConfig
  encrypted : Option CipherSupplier → ℕ → EncryptedOffset → IoConfig
  custom : ℕ → EncryptedOffset → IoConfig

unfoldable pub config_offset_sector : IoConfig → ℕ
config_offset_sector passthrough = 0
config_offset_sector (encrypted _ offset _) = offset
config_offset_sector (custom offset _) = offset

unfoldable pub geometry : IoConfig → Option (ℕ × EncryptedOffset)
geometry passthrough = none
geometry (encrypted _ offset o) = some (offset, o)
geometry (custom offset o) = some (offset, o)

pub data AttachSource : Type 0 where
  handover ioctl : AttachSource

-- A filter device is its address, 0 for none.
pub record AttachedVolume : Type 0 where
  pub volume_path : String
  pub sector_size : ℕ
  pub io_config : IoConfig
  pub encryption : EncryptionEngine
  pub attach_source : AttachSource
  pub filter_device : ℕ
  pub encrypted_boundary : ℕ

unfoldable pub is_os_volume : AttachedVolume → Bool
is_os_volume v = elim v.attach_source [ handover ↦ true | ioctl ↦ false ]

unfoldable pub has_encrypted_data : AttachedVolume → Bool
has_encrypted_data v = ltb 0 v.encrypted_boundary

unfoldable pub offset_sector : AttachedVolume → ℕ
unfolding config_offset_sector
offset_sector v = config_offset_sector v.io_config

unfoldable pub data_sectors : AttachedVolume → ℕ
data_sectors v = elim v.io_config [
  | passthrough ↦ 0
  | encrypted _ _ o ↦ o.total_sectors
  | custom _ o ↦ o.total_sectors
]

unfoldable pub cipher_supplier : AttachedVolume → Option CipherSupplier
cipher_supplier v = elim v.io_config [ encrypted s _ _ ↦ s | _ ↦ none ]

-- The cipher of one burst: the supplier's, if there is a supplier and it has one.
unfoldable pub burst_cipher : AttachedVolume → Option VolumeCipher
unfolding cipher_supplier
burst_cipher v = elim (cipher_supplier v) [ none ↦ none | some s ↦ s.get_cipher ]

unfoldable pub sync_boundary : AttachedVolume → AttachedVolume
unfolding Engine.encrypted_boundary
sync_boundary v = record v { encrypted_boundary = Engine.encrypted_boundary v.encryption }

-- The snapshot of the boundary follows the engine only when the step succeeds.
unfoldable pub after_step : VckResult Bool → AttachedVolume → AttachedVolume
unfolding sync_boundary
after_step (ok _) v = sync_boundary v
after_step (err _) v = v

module _ {W : Type 0} (sweep_io : SectorIo W) (offset_store : OffsetStore W) where
  unfoldable pub sweep_step : ℕ → Exec (AttachedVolume × W) Bool
  unfolding burst_cipher after_step
  sweep_step batch_sectors (v, w) = elim (burst_cipher v) [
    | none ↦ (ok false, (v, w))
    | some c ↦
        let (r, s) = progress_step sweep_io c offset_store batch_sectors (v.encryption, w) in
        (r, (after_step r (record v { encryption = s.0 }), s.1))
  ]
