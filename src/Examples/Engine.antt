-- ===== src/Examples/Engine.antt =====
-- The end of a sweep, and a step whose progress cannot be stored.
use volumecrypt_kit.Prelude.{ℕ, ◌≡◌, refl, some, arith}
use volumecrypt_kit.Error.{VckError, err}
use volumecrypt_kit.Device.{OffsetStore}
use volumecrypt_kit.Engine.{idle, encrypting, decrypting, EncryptionEngine}
use volumecrypt_kit.Engine.Completes.{sweeps, sweeps-encrypting, sweeps-decrypting}
use volumecrypt_kit.Volume.{burst_cipher, sweep_step}
use volumecrypt_kit.Volume.Stale.{sweep_step-stale}
use volumecrypt_kit.Examples.Disk.{Disk, disk_io, register, toy_xts}
use volumecrypt_kit.Examples.Sweep.{disk, volume, dev16, xts16, reliable16, keeps}

abbrev engine_at : ℕ → EncryptionEngine
engine_at n = record {
  offset_sector = 1;
  encrypted_offset = record { sector = n; total_sectors = 4 };
  state = idle;
}

sweeps-encrypting_example :
    (sweeps (disk_io 16) toy_xts register 1 2 (record (engine_at 2) { state = encrypting }, disk)).0
    ≡ engine_at 4
sweeps-encrypting_example =
    sweeps-encrypting dev16 xts16 reliable16 1 1 4 keeps (omega arith) 2 2 disk (omega arith)
      (omega arith) (omega arith)

sweeps-decrypting_example :
    (sweeps (disk_io 16) toy_xts register 1 3 (record (engine_at 2) { state = decrypting }, disk)).0
    ≡ engine_at 0
sweeps-decrypting_example =
    sweeps-decrypting dev16 xts16 reliable16 1 1 4 keeps (omega arith) 3 2 disk (omega arith)
      (omega arith) (omega arith)

-- A register that cannot be written.
abbrev full_register : OffsetStore Disk
full_register = record register { store = λ o d. (err (VckError.io "full"), d) }

keyed : burst_cipher volume ≡ some toy_xts
unfolding burst_cipher
keyed = refl

sweep_step-stale_example :
    let r = sweep_step (disk_io 16) full_register 1 (volume, disk) in
    (r.0 ≡ err (VckError.io "full"))
    × (r.1.0.encryption.encrypted_offset ≡ record { sector = 3; total_sectors = 4 })
    × (r.1.0.encrypted_boundary ≡ 2)
sweep_step-stale_example =
    sweep_step-stale (disk_io 16) full_register 1 volume disk toy_xts keyed refl (omega arith) _
      refl refl (VckError.io "full") refl
