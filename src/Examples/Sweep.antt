-- ===== src/Examples/Sweep.antt =====
-- The sweep, the requests and the whole system, on a volume of four sectors of 16 bytes that start at
-- LBA 1 and of which two are encrypted.
use volumecrypt_kit.Prelude.{
  ℕ, ◌+◌, ◌*◌, ◌<◌, ◌≡◌, ◌⊎◌, inl, refl, true, false, none, some, List, [], ◌∷◌, arith, replicate,
  All-replicate, ltb, take, if◌then◌else◌,
}
use volumecrypt_kit.Prelude.Bytes.{IsSector, gather}
use volumecrypt_kit.Types.{encrypt}
use volumecrypt_kit.Cipher.{IsCipher}
use volumecrypt_kit.Device.{IsDevice, KeepsData}
use volumecrypt_kit.Plain.{plain}
use volumecrypt_kit.Pipeline.{decrypt_read, decrypt_read-encrypt_write, encrypt_write}
use volumecrypt_kit.Engine.{
  EngineState, EncryptionEngine, encrypting, decrypting, encrypt_step, decrypt_step, progress_step,
}
use volumecrypt_kit.Engine.Steps.{IsValid, Moved, Stayed, encrypt_step_lem, decrypt_step_lem}
use volumecrypt_kit.Engine.Reliable.{Reliable, Kept, progress_step_lem}
use volumecrypt_kit.Volume.{
  AttachedVolume, encrypted, ioctl, burst_cipher, offset_sector, data_sectors,
}
use volumecrypt_kit.Irp.{Request, process_read, process_write, first_lba}
use volumecrypt_kit.Irp.Transfer.{IsReady}
use volumecrypt_kit.Irp.Read.{Names, ReadOutcome, process_read_lem}
use volumecrypt_kit.Irp.Write.{WriteOutcome, process_write_lem}
use volumecrypt_kit.System.{System, Op, irp, sweep, start, pause, run}
use volumecrypt_kit.System.Spec.{Asks, WellFormed, done, ask, other, answers, Sees}
use volumecrypt_kit.System.Transparent.{run-answers}
use volumecrypt_kit.Examples.Disk.{
  Disk, disk_io, register, at, disk_io-IsDevice, disk_io-Reliable, register-KeepsData, toy_xts,
  toy_xts-IsCipher,
}

abbrev pub disk : Disk
disk = record {
  contents = λ l. replicate 16 (7 * l);
  saved = record { sector = 2; total_sectors = 4 };
  direction = encrypt;
}

abbrev pub engine : EngineState → EncryptionEngine
engine s = record { offset_sector = 1; encrypted_offset = disk.saved; state = s }

pub engine-IsValid : (s : EngineState) → IsValid (engine s)
engine-IsValid s = record { fits = omega arith; within = omega arith }

abbrev pub volume : AttachedVolume
volume = record {
  volume_path = "\\Device\\HarddiskVolume2";
  sector_size = 16;
  io_config = encrypted (some (record { get_cipher = some toy_xts })) 1 disk.saved;
  encryption = engine encrypting;
  attach_source = ioctl;
  filter_device = 1;
  encrypted_boundary = 2;
}

volume-IsReady : IsReady toy_xts 16 volume
unfolding burst_cipher offset_sector data_sectors
volume-IsReady = record {
  keyed = refl;
  sizes = refl;
  same_offset = refl;
  same_total = refl;
  synced = refl;
  engine = engine-IsValid encrypting;
}

-- Three sectors from sector 1 on: one below the boundary, two above it.
abbrev pub read_request : Request
read_request = record {
  is_write = false;
  byte_offset = 32;
  byte_length = 48;
  content = [];
  mapped = true;
  allocated = true;
}

abbrev new_sector : ℕ → List ℕ
new_sector i = replicate 16 i

abbrev pub write_request : Request
write_request = record read_request { is_write = true; content = gather 3 (λ i. replicate 16 9) }

volume-Names :
    (q : Request)
    → q.byte_offset ≡ 32
    → q.byte_length ≡ 48
    → q.mapped ≡ true
    → q.allocated ≡ true
    → Names volume q 1 3
unfolding first_lba
volume-Names q o l m a = record {
  begins = rw o refl;
  inside = omega arith;
  sectors = rw l refl;
  some_sectors = omega arith;
  is_mapped = m;
  is_allocated = a;
}

pub nines-whole : IsSector 16 (replicate 16 9)
nines-whole = (refl, All-replicate (λ b. b < 256) 16 9 (omega arith))

pub dev16 : IsDevice (disk_io 16) (at 16)
dev16 = disk_io-IsDevice 16 (omega arith)

pub xts16 : IsCipher toy_xts 16
xts16 = toy_xts-IsCipher 16 (omega arith)

pub reliable16 : Reliable (disk_io 16) register
reliable16 = disk_io-Reliable 16 (omega arith)

pub keeps : KeepsData register (at 16) 1 4
keeps = register-KeepsData 16 (omega arith) 1 4

encrypt_step_example :
    Moved dev16 xts16
      (engine encrypting)
      (engine-IsValid encrypting)
      keeps
      1
      disk
      3
      true
      (encrypt_step (disk_io 16) toy_xts register 1 (engine encrypting, disk))
    ⊎ Stayed dev16 xts16
        (engine encrypting)
        (engine-IsValid encrypting)
        keeps
        1
        disk
        2
        1
        (encrypt_step (disk_io 16) toy_xts register 1 (engine encrypting, disk))
encrypt_step_example =
    encrypt_step_lem dev16 xts16 (engine encrypting) (engine-IsValid encrypting) keeps 1 disk

decrypt_step_example :
    Moved dev16 xts16
      (engine decrypting)
      (engine-IsValid decrypting)
      keeps
      5
      disk
      0
      false
      (decrypt_step (disk_io 16) toy_xts register 5 (engine decrypting, disk))
    ⊎ Stayed dev16 xts16
        (engine decrypting)
        (engine-IsValid decrypting)
        keeps
        5
        disk
        0
        2
        (decrypt_step (disk_io 16) toy_xts register 5 (engine decrypting, disk))
decrypt_step_example =
    decrypt_step_lem dev16 xts16 (engine decrypting) (engine-IsValid decrypting) keeps 5 disk

progress_step_example :
    Kept dev16 xts16 reliable16
      (engine encrypting)
      (engine-IsValid encrypting)
      keeps
      1
      disk
      (progress_step (disk_io 16) toy_xts register 1 (engine encrypting, disk))
progress_step_example =
    progress_step_lem dev16 xts16 reliable16 (engine encrypting) (engine-IsValid encrypting) keeps 1
      disk

read_names : Names volume read_request 1 3
read_names = volume-Names read_request refl refl refl refl

process_read_example :
    ReadOutcome dev16 xts16 volume volume-IsReady none
      (inl refl)
      read_request
      1
      3
      read_names
      disk
      (process_read (disk_io 16) volume none read_request disk)
process_read_example =
    process_read_lem dev16 xts16 volume volume-IsReady none (inl refl) read_request 1 3 read_names
      disk

write_names : Names volume write_request 1 3
write_names = volume-Names write_request refl refl refl refl

abbrev pub nines : ℕ → List ℕ
nines i = replicate 16 9

process_write_example :
    WriteOutcome dev16 xts16 volume volume-IsReady none
      (inl refl)
      write_request
      1
      3
      write_names
      disk
      nines
      (λ i. nines-whole)
      refl
      (process_write (disk_io 16) volume none write_request disk)
process_write_example =
    process_write_lem dev16 xts16 volume volume-IsReady none (inl refl) write_request 1 3
      write_names disk nines (λ i. nines-whole) refl

decrypt_read-encrypt_write_example :
    (encrypt_write toy_xts 1 2 (gather 3 nines) 16
      ≡ gather 3 (λ i. if ltb (1 + i) 2 then toy_xts.encrypt_sector (1 + i) (nines i) else nines i))
    × (decrypt_read toy_xts 1 2 (gather 3 nines) 16
        ≡ gather 3
            (λ i. if ltb (1 + i) 2 then toy_xts.decrypt_sector (1 + i) (nines i) else nines i))
    × (decrypt_read toy_xts 1 2 (encrypt_write toy_xts 1 2 (gather 3 nines) 16) 16 ≡ gather 3 nines)
decrypt_read-encrypt_write_example =
    decrypt_read-encrypt_write toy_xts 16 xts16 1 2 3 nines (λ i. nines-whole) (omega arith)

asks :
    (q : Request)
    → q.byte_offset ≡ 32
    → q.byte_length ≡ 48
    → q.mapped ≡ true
    → q.allocated ≡ true
    → (q.is_write ≡ true → take 48 q.content ≡ gather 3 nines)
    → Asks 16 1 4 q
asks q o l m a c = record {
  rel = 1;
  n = 3;
  new = nines;
  begins = rw o refl;
  inside = omega arith;
  sectors = rw l refl;
  some_sectors = omega arith;
  is_mapped = m;
  is_allocated = a;
  new_whole = λ i. nines-whole;
  content = c;
}

abbrev ops : List Op
ops = irp write_request ∷ start encrypt ∷ sweep 1 ∷ pause ∷ irp read_request ∷ []

ops-WellFormed : WellFormed 16 1 4 ops
ops-WellFormed = ask (asks write_request refl refl refl refl (λ w. refl)) (
    other refl
      (other refl (other refl (ask (asks read_request refl refl refl refl (λ w. cc w)) done))))

abbrev content : ℕ → List ℕ
content = plain toy_xts 1 2 (at 16 disk)

abbrev pub system : System Disk
system = record { volume = volume; burst = none; world = disk }

system-Sees : Sees toy_xts 16 (at 16) 1 4 content system
system-Sees = record {
  ready = volume-IsReady;
  holds = inl refl;
  offset_same = refl;
  total_same = refl;
  plain_same = λ rel lt. refl;
}

run_example : run (disk_io 16) register ops system ≡ answers ops-WellFormed content
run_example =
    run-answers dev16 xts16 reliable16 1 4 keeps ops ops-WellFormed content system system-Sees
