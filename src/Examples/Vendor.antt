-- ===== src/Examples/Vendor.antt =====
-- Vendor data on the disk of `Examples.Jvck`.
use volumecrypt_kit.Prelude.{
  ℕ, ◌+◌, ◌≡◌, ◌⊎◌, refl, List, All, All-replicate, length, replicate, arith,
}
use volumecrypt_kit.Prelude.Bytes.{IsByte}
use volumecrypt_kit.Error.{VckError, ok, err}
use volumecrypt_kit.Jvck.Store.{replica_lbas}
use volumecrypt_kit.Jvck.Vendor.{read_vendor_data, write_vendor_data_all}
use volumecrypt_kit.Jvck.Vendor.Mirrored.{read_vendor_data-write_vendor_data_all}
use volumecrypt_kit.Examples.Disk.{disk_io, at}
use volumecrypt_kit.Examples.Jvck.{config, config-IsConfig, dev512, torn_disk}

abbrev vendor_bytes : List ℕ
vendor_bytes = replicate 1024 7

vendor_written : (write_vendor_data_all (disk_io 512) config 10 vendor_bytes torn_disk).0 ≡ ok tt
unfolding write_vendor_data_all
vendor_written = refl

read_vendor_data-write_vendor_data_all_example :
    (let (w, d') = write_vendor_data_all (disk_io 512) config 10 vendor_bytes torn_disk in
      (at 512 d' (256 + 5) ≡ at 512 torn_disk (256 + 5))
      × All (λ l. at 512 d' l ≡ at 512 torn_disk l) (replica_lbas config)
      × (((e : VckError) × (w ≡ err e))
          ⊎ ((w ≡ ok tt)
              × ((read_vendor_data (disk_io 512) config 2 10 (length vendor_bytes) d').0
                  ≡ ok vendor_bytes))))
read_vendor_data-write_vendor_data_all_example =
    read_vendor_data-write_vendor_data_all dev512 config config-IsConfig 10 vendor_bytes
      (All-replicate IsByte 1024 7 (omega arith)) (λ lba len d. (_, refl)) torn_disk 2 5
      (omega arith) (omega arith)
