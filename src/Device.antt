-- ===== src/Device.antt =====
-- `SectorIo` and `EncryptedOffsetStore` of lib/common/src/store.rs, as interfaces: the operations
-- over a world of type `W`, and what the code relies on in a block device.
use volumecrypt_kit.Prelude.{ℕ, ◌+◌, ◌*◌, ◌≤◌, ◌<◌, ◌≡◌, ◌⊎◌, List, length, take, drop, All}
use volumecrypt_kit.Prelude.Bytes.{IsByte, IsSector, gather}
use volumecrypt_kit.Error.{ok}
use volumecrypt_kit.Exec.{Exec}
use volumecrypt_kit.Types.{VolumeState, EncryptedOffset}

-- `read_sectors lba len` fills a buffer of `len` bytes; `write_sectors lba buf` writes one.
pub record SectorIo (W : Type 0) : Type 0 where
  pub sector_size : ℕ
  pub total_sectors : ℕ
  pub read_sectors : ℕ → ℕ → Exec W (List ℕ)
  pub write_sectors : ℕ → List ℕ → Exec W (Unit {0})

-- `sector w l` is what the device holds at LBA `l`. An operation may fail, and a failed write may
-- have changed the sectors that it was to write, and no others.
pub record IsDevice {W : Type 0} (io : SectorIo W) (sector : W → ℕ → List ℕ) : Type 0 where
  pub size_pos : 0 < io.sector_size
  pub whole : (w : W) (l : ℕ) → IsSector io.sector_size (sector w l)
  pub read_keeps :
      (lba len : ℕ) (w : W) (l : ℕ) → sector (io.read_sectors lba len w).1 l ≡ sector w l
  pub read_gives :
      (lba n : ℕ) (w : W) (buf : List ℕ)
      → (io.read_sectors lba (n * io.sector_size) w).0 ≡ ok buf
      → buf ≡ gather n (λ i. sector w (lba + i))
  pub write_frame :
      (lba n : ℕ) (buf : List ℕ) (w : W) (l : ℕ)
      → length buf ≡ n * io.sector_size
      → (l < lba) ⊎ (lba + n ≤ l)
      → sector (io.write_sectors lba buf w).1 l ≡ sector w l
  pub write_sets :
      (lba n : ℕ) (buf : List ℕ) (w : W) (i : ℕ)
      → length buf ≡ n * io.sector_size
      → All IsByte buf
      → (io.write_sectors lba buf w).0 ≡ ok tt
      → i < n
      → sector (io.write_sectors lba buf w).1 (lba + i)
        ≡ take io.sector_size (drop (i * io.sector_size) buf)

pub record OffsetStore (W : Type 0) : Type 0 where
  pub load : Exec W EncryptedOffset
  pub store : EncryptedOffset → Exec W (Unit {0})
  pub flush : Exec W (Unit {0})
  pub load_state : Exec W VolumeState
  pub store_state : VolumeState → Exec W (Unit {0})

-- A store keeps its record outside the data region, which is `total` sectors from `offset` on.
pub record KeepsData {W : Type 0} (st : OffsetStore W) (sector : W → ℕ → List ℕ) (offset total : ℕ)
    : Type 0 where
  pub store_keeps :
      (o : EncryptedOffset) (w : W) (rel : ℕ)
      → rel < total
      → sector (st.store o w).1 (offset + rel) ≡ sector w (offset + rel)
  pub flush_keeps : (w : W) (l : ℕ) → sector (st.flush w).1 l ≡ sector w l
  pub load_state_keeps : (w : W) (l : ℕ) → sector (st.load_state w).1 l ≡ sector w l
  pub store_state_keeps :
      (v : VolumeState) (w : W) (rel : ℕ)
      → rel < total
      → sector (st.store_state v w).1 (offset + rel) ≡ sector w (offset + rel)
