-- ===== src/Volume/Stale.antt =====
-- lib/windrv/src/registry.rs: a sweep step whose batch is written and whose boundary cannot be
-- stored.
use volumecrypt_kit.Prelude.{ℕ, ◌-◌, ◌*◌, ◌<◌, ◌≡◌, refl, ◌∙◌, some, List, false, arith, leb}
use volumecrypt_kit.Error.{VckError, VckResult, ok, err}
use volumecrypt_kit.Types.{EncryptedOffset, is_fully_encrypted}
use volumecrypt_kit.Device.{SectorIo, OffsetStore}
use volumecrypt_kit.Cipher.{VolumeCipher}
use volumecrypt_kit.Engine.{
  encrypting, add64, batch_count, set_sector, progress_step, encrypt_step, encrypt_batch, persist,
}
use volumecrypt_kit.Volume.{AttachedVolume, burst_cipher, after_step, sweep_step}

module _ {W : Type 0} (io : SectorIo W) (st : OffsetStore W) (batch : ℕ) (v : AttachedVolume)
    (w : W) (c : VolumeCipher) (keyed : burst_cipher v ≡ some c)
    (is : v.encryption.state ≡ encrypting)
    (more : v.encryption.encrypted_offset.sector
      < v.encryption.encrypted_offset.total_sectors) where
  open v.encryption use {offset_sector as offset}
  open v.encryption.encrypted_offset use {sector as start, total_sectors as total}

  abbrev count : ℕ
  count = batch_count (total - start) batch

  abbrev read_result : VckResult (List ℕ) × W
  read_result = io.read_sectors (add64 offset start) (count * io.sector_size) w

  abbrev write_result : List ℕ → VckResult (Unit {0}) × W
  write_result buf =
      io.write_sectors (add64 offset start) (c.encrypt_area buf io.sector_size start) read_result.1

  abbrev next : EncryptedOffset
  next = record (v.encryption.encrypted_offset) { sector = add64 start count }

  module _ (buf : List ℕ) (read : read_result.0 ≡ ok buf) (wrote : (write_result buf).0 ≡ ok tt)
      (x : VckError) (fails : (st.store next (write_result buf).1).0 ≡ err x) where
    batch_fails :
        encrypt_batch io c st batch v.encryption.encrypted_offset offset (v.encryption, w) ≡ (
          err x,
          (set_sector (add64 start count) v.encryption, (st.store next (write_result buf).1).1),
        )
    unfolding encrypt_batch persist
    batch_fails = rw (read, wrote, fails) refl

    to_encrypt :
        progress_step io c st batch (v.encryption, w) ≡ encrypt_step io c st batch (v.encryption, w)
    unfolding progress_step
    to_encrypt = ground (arith, is)

    progress_fails : progress_step io c st batch (v.encryption, w) ≡ (
      err x,
      (set_sector (add64 start count) v.encryption, (st.store next (write_result buf).1).1),
    )
    unfolding encrypt_step is_fully_encrypted
    progress_fails =
        let go : leb total start ≡ false = ground arith in to_encrypt ∙ rw go batch_fails

    -- When an encrypting step has read and written its batch and the store then fails, the step
    -- returns that error with the engine's boundary moved over the batch, while the snapshot of the
    -- boundary that the requests use stays where it was.
    pub sweep_step-stale :
        let r = sweep_step io st batch (v, w) in
        (r.0 ≡ err x)
        × (r.1.0.encryption.encrypted_offset ≡ next)
        × (r.1.0.encrypted_boundary ≡ v.encrypted_boundary)
    unfolding sweep_step after_step
    sweep_step-stale = rw (sweep_step, keyed, progress_fails, after_step) (refl, refl, refl)
