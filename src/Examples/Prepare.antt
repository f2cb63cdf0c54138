-- ===== src/Examples/Prepare.antt =====
-- PREPARE of the volume of `Examples.Jvck`, with the block of a new store.
use volumecrypt_kit.Prelude.{
  ℕ, String, ◌+◌, ◌≡◌, ◌⊎◌, refl, true, false, some, List, [], ◌∷◌, All-replicate, replicate, arith,
}
use volumecrypt_kit.Prelude.Bytes.{IsByte, IsSector}
use volumecrypt_kit.Error.{VckError, ok, err}
use volumecrypt_kit.Exec.{Exec, pure}
use volumecrypt_kit.Types.{encrypt, as_u16, from_u16}
use volumecrypt_kit.Volume.{AttachedVolume, passthrough, offset_sector, data_sectors}
use volumecrypt_kit.Registry.{get}
use volumecrypt_kit.Dispatch.{Driver}
use volumecrypt_kit.Jvck.Metadata.{encode, parse, verify_crc, decrypt_payload}
use volumecrypt_kit.Jvck.Metadata.Sealed.{decrypt_payload-encode}
use volumecrypt_kit.Jvck.Store.{replica_lbas}
use volumecrypt_kit.Jvck.Open.{open_store, created}
use volumecrypt_kit.Jvck.Open.Opened.{IsStore}
use volumecrypt_kit.Jvck.Open.Created.{new_store-IsStore}
use volumecrypt_kit.Prepare.{JvckVolumePrepareReq, handle_jvck_prepare_adddevice_path}
use volumecrypt_kit.Prepare.Opens.{open_store-handle_jvck_prepare_adddevice_path}
use volumecrypt_kit.Examples.Disk.{Disk, disk_io, at}
use volumecrypt_kit.Examples.Jvck.{
  accepted, geometry, options, dev512, salt16, salt_whole, torn_disk, zero_salt,
}
use volumecrypt_kit.Examples.Metadata.{
  toy_crypto, toy_crypto-IsCrypto, secrets, secrets-IsSecrets, vmk, new_store,
}
use volumecrypt_kit.Examples.Dispatch.{in_use}

prepared-IsStore : IsStore toy_crypto (disk_io 512) new_store
prepared-IsStore =
    new_store-IsStore dev512 toy_crypto-IsCrypto zero_salt (λ d l. refl) salt_whole
      (λ lba len d. (_, refl)) vmk options secrets secrets-IsSecrets (replicate 16 9)
      (refl, All-replicate IsByte 16 9 (omega arith)) (omega arith) (omega arith) (omega arith)
      (omega arith) (omega arith) geometry accepted

block_lem :
    (block : List ℕ) × (encode toy_crypto new_store.header secrets 0 encrypt (replicate 16 0) vmk
      ≡ ok block)
    × IsSector 512 block
    × (verify_crc toy_crypto block ≡ ok tt)
    × (parse toy_crypto block ≡ ok new_store.header)
    × (decrypt_payload toy_crypto block vmk
        ≡ ok (record { encrypted_offset = 0; state = encrypt; secrets = secrets }))
unfolding created
block_lem =
    decrypt_payload-encode toy_crypto-IsCrypto new_store.header prepared-IsStore.header_valid
      (replicate 16 0) salt16 vmk secrets secrets-IsSecrets 0 encrypt (omega arith)

abbrev prepare_driver : Driver Disk
prepare_driver = record { entries = []; bound = []; kernel = torn_disk }

abbrev query : String → Exec Disk (ℕ × ℕ)
query path = pure (512, 2048)

abbrev prepare_request : JvckVolumePrepareReq
prepare_request = record {
  volume_path = "\\\\.\\D:";
  use_header = 1;
  use_footer = 2;
  metadata_size = 131072;
  vmk = [];
  metadata_block = block_lem.0;
  is_os_volume = true;
}

open_store-handle_jvck_prepare_adddevice_path_example :
    (let (out, d') =
        handle_jvck_prepare_adddevice_path in_use query
          (λ ss total. disk_io 512)
          (λ key lower. pure passthrough)
          prepare_request
          "\\Device\\HarddiskVolume4"
          5
          prepare_driver in
      (at 512 d'.kernel (256 + 3) ≡ at 512 torn_disk (256 + 3))
      × (((e : VckError) × (out ≡ err e))
          ⊎ ((out
                ≡ ok (record {
                  offset_sector = 256;
                  data_sectors = 1280;
                  sector_size = 512;
                  fully_attached = false;
                }))
              × ((open_store toy_crypto (disk_io 512) zero_salt vmk d'.kernel).0 ≡ ok new_store)
              × ((v : AttachedVolume) × (get "\\\\.\\D:" d'.entries ≡ some v)
                  × (offset_sector v ≡ 256)
                  × (data_sectors v ≡ 1280)))))
unfolding created replica_lbas from_u16 as_u16
open_store-handle_jvck_prepare_adddevice_path_example =
    open_store-handle_jvck_prepare_adddevice_path dev512 toy_crypto-IsCrypto zero_salt (λ d l. refl)
      salt_whole (λ lba len d. (_, refl)) new_store prepared-IsStore 0 (1791 ∷ 2047 ∷ []) refl
      (omega arith) (replicate 16 0) block_lem.0 salt16 block_lem.1 in_use query
      (λ ss total. disk_io 512) (λ key lower. pure passthrough) refl "\\\\.\\D:" true
      "\\Device\\HarddiskVolume4" 5 prepare_driver 3 refl (omega arith)
