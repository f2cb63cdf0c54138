-- ===== src/Irp.antt =====
-- lib/windrv/src/filter/volume_thread.rs: how one READ or WRITE request is processed. What the
-- kernel decides (mapping the buffer, allocating the copy) is part of the request.
pub mod Transfer
pub mod Read
pub mod Write
use volumecrypt_kit.Prelude.{
  ℕ, ◌*◌, ◌/◌, ◌<◌, Bool, true, false, ◌&&◌, ◌||◌, Option, none, some, List, [], take, not, ltb,
  ◌==◌, ◌≡◌, arith, if◌then◌else◌,
}
use volumecrypt_kit.Error.{VckResult, ok, err}
use volumecrypt_kit.Device.{SectorIo}
use volumecrypt_kit.Cipher.{VolumeCipher}
use volumecrypt_kit.Pipeline.{decrypt_read, encrypt_write}
use volumecrypt_kit.Engine.{data_relative}
use volumecrypt_kit.Volume.{AttachedVolume, offset_sector, data_sectors, burst_cipher}

pub data Status : Type 0 where
  success unsuccessful cancelled access_denied pending : Status

-- `content` is the caller's buffer: what a WRITE is to write.
pub record Request : Type 0 where
  pub is_write : Bool
  pub byte_offset : ℕ
  pub byte_length : ℕ
  pub content : List ℕ
  pub mapped : Bool
  pub allocated : Bool

-- `read_bytes` is what a READ has copied to the caller's buffer.
pub record Completion : Type 0 where
  pub status : Status
  pub information : ℕ
  pub read_bytes : List ℕ

abbrev pub completed : Status → ℕ → List ℕ → Completion
completed s n bytes = record { status = s; information = n; read_bytes = bytes }

-- The first sector and the boundary, when the range that starts at `first_lba` needs crypto.
unfoldable pub crypto_range : AttachedVolume → ℕ → Option (ℕ × ℕ)
unfolding data_relative offset_sector data_sectors
crypto_range v first_lba = elim (data_relative (offset_sector v) (data_sectors v) first_lba) [
  | none ↦ none
  | some first_rel ↦
      if ltb 0 v.encrypted_boundary && ltb first_rel v.encrypted_boundary
      then some (first_rel, v.encrypted_boundary)
      else none
]

-- The cipher of the burst, acquired when it is first needed.
unfoldable pub get_pipeline : Option VolumeCipher → AttachedVolume → Option VolumeCipher
unfolding burst_cipher
get_pipeline (some c) v = some c
get_pipeline none v = burst_cipher v

-- A buffer run through the pipeline, and the cipher that the burst holds afterwards.
unfoldable pub transform :
    (VolumeCipher → ℕ → ℕ → List ℕ → ℕ → List ℕ)
    → Option VolumeCipher
    → AttachedVolume
    → ℕ
    → List ℕ
    → List ℕ × Option VolumeCipher
unfolding crypto_range get_pipeline
transform run burst v first_lba buf = elim (crypto_range v first_lba) [
  | none ↦ (buf, burst)
  | some (first_rel, boundary) ↦ elim (get_pipeline burst v) [
    | none ↦ (buf, none)
    | some c ↦ (run c first_rel boundary buf v.sector_size, some c)
  ]
]

-- What the whole sectors of a request amount to, in bytes.
unfoldable pub io_len : AttachedVolume → Request → ℕ
io_len v q = q.byte_length / v.sector_size * v.sector_size

unfoldable pub first_lba : AttachedVolume → Request → ℕ
first_lba v q = q.byte_offset / v.sector_size

module _ {W : Type 0} (sio : SectorIo W) where
  abbrev pub Outcome : Type 0
  Outcome = Completion × (Option VolumeCipher × W)

  -- The tests that a READ and a WRITE begin with: no whole sector, no buffer, no memory.
  unfoldable pub with_buffer :
      AttachedVolume → Option VolumeCipher → Request → W → (W → Outcome) → Outcome
  with_buffer v burst q w body =
      if v.sector_size == 0 || q.byte_length == 0
      then (completed success 0 [], (burst, w))
      else if q.byte_length / v.sector_size == 0
      then (completed success 0 [], (burst, w))
      else if not q.mapped
      then (completed unsuccessful 0 [], (burst, w))
      else if not q.allocated
      then (completed unsuccessful 0 [], (burst, w))
      else body w

  unfoldable pub finish_read :
      AttachedVolume → Request → Option VolumeCipher → VckResult (List ℕ) → W → Outcome
  finish_read v q burst (err _) w = (completed unsuccessful 0 [], (burst, w))
  finish_read v q burst (ok frag) w =
      let (out, burst') = transform decrypt_read burst v (first_lba v q) frag in
      (completed success (io_len v q) out, (burst', w))

  unfoldable pub process_read : AttachedVolume → Option VolumeCipher → Request → W → Outcome
  process_read v burst q w = with_buffer v burst q w λ w0.
      let (r, w') = sio.read_sectors (first_lba v q) (io_len v q) w0 in finish_read v q burst r w'

  unfoldable pub finish_write :
      AttachedVolume → Request → Option VolumeCipher → VckResult (Unit {0}) → W → Outcome
  finish_write v q burst (err _) w = (completed unsuccessful 0 [], (burst, w))
  finish_write v q burst (ok _) w = (completed success (io_len v q) [], (burst, w))

  unfoldable pub process_write : AttachedVolume → Option VolumeCipher → Request → W → Outcome
  process_write v burst q w = with_buffer v burst q w λ w0.
      let (buf, burst') =
        transform encrypt_write burst v (first_lba v q) (take (io_len v q) q.content) in
      let (r, w') = sio.write_sectors (first_lba v q) buf w0 in finish_write v q burst' r w'

  unfoldable pub process_irp : AttachedVolume → Option VolumeCipher → Request → W → Outcome
  unfolding process_read process_write
  process_irp v burst q w =
      if q.is_write then process_write v burst q w else process_read v burst q w

  pub process_irp-write :
      (v : AttachedVolume) (burst : Option VolumeCipher) (q : Request) (w : W)
      → q.is_write ≡ true
      → process_irp v burst q w ≡ process_write v burst q w
  unfolding process_irp
  process_irp-write v burst q w writes = ground arith

  pub process_irp-read :
      (v : AttachedVolume) (burst : Option VolumeCipher) (q : Request) (w : W)
      → q.is_write ≡ false
      → process_irp v burst q w ≡ process_read v burst q w
  unfolding process_irp
  process_irp-read v burst q w reads = ground arith
