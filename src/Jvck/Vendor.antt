-- ===== src/Jvck/Vendor.antt =====
-- The vendor data of lib/common/src/jvck/store.rs: the sectors of each replica region beside its
-- metadata block.
pub mod Areas
pub mod Mirrored
use volumecrypt_kit.Prelude.{ℕ, zero, suc, List, length}
use volumecrypt_kit.Error.{VckResult}
use volumecrypt_kit.Exec.{Exec, pure, lift, ◌>>=◌, ◌>>◌}
use volumecrypt_kit.Device.{SectorIo}
use volumecrypt_kit.Jvck.{vendor_data_lba_checked, replica_count}
use volumecrypt_kit.Jvck.Store.{JvckConfig}

module _ {D : Type 0} (io : SectorIo D) (cfg : JvckConfig) where
  unfoldable pub vendor_lba : ℕ → ℕ → ℕ → VckResult ℕ
  unfolding vendor_data_lba_checked
  vendor_lba replica_index rel_sector len =
      vendor_data_lba_checked cfg.options cfg.geometry.sector_size cfg.volume_sectors replica_index
        rel_sector len

  unfoldable pub read_vendor_data : ℕ → ℕ → ℕ → Exec D (List ℕ)
  unfolding vendor_lba
  read_vendor_data replica_index rel_sector len = do
    lba ← lift (vendor_lba replica_index rel_sector len)
    io.read_sectors lba len

  unfoldable pub write_vendor_data : ℕ → ℕ → List ℕ → Exec D (Unit {0})
  unfolding vendor_lba
  write_vendor_data replica_index rel_sector buf = do
    lba ← lift (vendor_lba replica_index rel_sector (length buf))
    io.write_sectors lba buf

  -- The loop over `count` replicas from `replica_index` on.
  unfoldable pub write_vendor_each : ℕ → List ℕ → ℕ → ℕ → Exec D (Unit {0})
  unfolding write_vendor_data
  write_vendor_each rel_sector buf zero replica_index = pure tt
  write_vendor_each rel_sector buf (suc count) replica_index = do
    write_vendor_data replica_index rel_sector buf
    write_vendor_each rel_sector buf count (suc replica_index)

  unfoldable pub write_vendor_data_all : ℕ → List ℕ → Exec D (Unit {0})
  unfolding vendor_lba write_vendor_each replica_count
  write_vendor_data_all rel_sector buf = do
    first ← lift (vendor_lba 0 rel_sector (length buf))
    write_vendor_each rel_sector buf (replica_count cfg.options) 0
