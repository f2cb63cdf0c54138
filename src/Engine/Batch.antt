-- ===== src/Engine/Batch.antt =====
-- A batch that is read, transformed sector by sector and written back to the same place.
use volumecrypt_kit.Prelude.{
  ℕ, ◌+◌, ◌*◌, ◌<◌, ◌≤◌, ◌≡◌, ◌⊎◌, ◌∙◌, sym, ap, List, length, take, drop, All,
}
use mathlib.Core.Path.{subst}
use volumecrypt_kit.Prelude.Bytes.{
  IsByte, IsSector, gather, length-gather, All-gather, slice-gather,
}
use volumecrypt_kit.Error.{ok}
use volumecrypt_kit.Device.{SectorIo, IsDevice}

module _ {W : Type 0} {io : SectorIo W} {sector : W → ℕ → List ℕ} (dev : IsDevice io sector)
    (g : List ℕ → List ℕ) (h : ℕ → List ℕ → List ℕ)
    (h_whole : (i : ℕ) (s : List ℕ) → IsSector io.sector_size s → IsSector io.sector_size (h i s))
    (each : (n : ℕ) (f : ℕ → List ℕ)
      → ((i : ℕ) → IsSector io.sector_size (f i))
      → g (gather n f) ≡ gather n (λ i. h i (f i)))
    (lba n : ℕ) (w : W) (buf : List ℕ)
    (read : (io.read_sectors lba (n * io.sector_size) w).0 ≡ ok buf) where
  abbrev pub after_read : W
  after_read = (io.read_sectors lba (n * io.sector_size) w).1

  abbrev pub after_write : W
  after_write = (io.write_sectors lba (g buf) after_read).1

  abbrev new_sector : ℕ → List ℕ
  new_sector i = h i (sector w (lba + i))

  new_whole : (i : ℕ) → IsSector io.sector_size (new_sector i)
  new_whole i = h_whole i (sector w (lba + i)) (dev.whole w (lba + i))

  new_buffer : g buf ≡ gather n new_sector
  new_buffer =
      ap g (dev.read_gives lba n w buf read)
      ∙ each n (λ i. sector w (lba + i)) (λ i. dev.whole w (lba + i))

  length-new_buffer : length (g buf) ≡ n * io.sector_size
  length-new_buffer = ap length new_buffer ∙ length-gather io.sector_size n new_sector new_whole

  -- Sector `i` of the batch is transformed.
  pub batch_sets :
      (io.write_sectors lba (g buf) after_read).0 ≡ ok tt
      → (i : ℕ) → i < n
      → sector after_write (lba + i) ≡ h i (sector w (lba + i))
  batch_sets wrote i lt =
      dev.write_sets lba n (g buf) after_read i length-new_buffer
        (subst (All IsByte) (sym new_buffer) (All-gather io.sector_size n new_sector new_whole))
        wrote lt
      ∙ ap (λ b. take io.sector_size (drop (i * io.sector_size) b)) new_buffer
      ∙ slice-gather io.sector_size n i new_sector new_whole lt

  -- Whatever the write returns, the sectors outside the batch are as before.
  pub batch_frame : (l : ℕ) → (l < lba) ⊎ (lba + n ≤ l) → sector after_write l ≡ sector w l
  batch_frame l out =
      dev.write_frame lba n (g buf) after_read l length-new_buffer out
      ∙ dev.read_keeps lba (n * io.sector_size) w l
