-- ===== src/Engine.antt =====
-- lib/windrv/src/offset/engine.rs: the sweep that encrypts or decrypts a volume in batches. A step
-- acts on the engine and on the world that the device and the offset store share.
pub mod Batch
pub mod Steps
pub mod Reliable
pub mod Completes
use volumecrypt_kit.Prelude.{
  ℕ, ◌+◌, ◌-◌, ◌*◌, ◌%◌, ◌^◌, min, max, Bool, true, false, Option, none, some, ltb, leb, ◌==◌,
  if◌then◌else◌,
}
use volumecrypt_kit.Error.{VckResult, ok, err}
use volumecrypt_kit.Exec.{Exec, pure, ◌>>=◌, ◌>>◌}
use volumecrypt_kit.Types.{
  VolumeState, encrypt, decrypt, EncryptedOffset, is_encrypted, is_fully_encrypted,
}
use volumecrypt_kit.Device.{SectorIo, OffsetStore}
use volumecrypt_kit.Cipher.{VolumeCipher}

pub data EngineState : Type 0 where
  idle encrypting decrypting paused : EngineState

unfoldable pub as_wire : EngineState → ℕ
as_wire idle = 0
as_wire encrypting = 1
as_wire decrypting = 2
as_wire paused = 3

pub record ProgressSnapshot : Type 0 where
  pub encrypted_sector : ℕ
  pub total_sectors : ℕ
  pub state : EngineState

pub record EncryptionEngine : Type 0 where
  pub offset_sector : ℕ
  pub encrypted_offset : EncryptedOffset
  pub state : EngineState

unfoldable pub new : ℕ → EncryptedOffset → EncryptionEngine
new offset o = record { offset_sector = offset; encrypted_offset = o; state = idle }

-- `lba.checked_sub(offset).filter(|rel| *rel < total)`
unfoldable pub data_relative : ℕ → ℕ → ℕ → Option ℕ
data_relative offset total lba =
    if leb offset lba
    then (if ltb (lba - offset) total then some (lba - offset) else none)
    else none

unfoldable pub relative : EncryptionEngine → ℕ → Option ℕ
unfolding data_relative
relative e lba = data_relative e.offset_sector e.encrypted_offset.total_sectors lba

unfoldable pub encrypted_boundary : EncryptionEngine → ℕ
encrypted_boundary e = e.encrypted_offset.sector

unfoldable pub snapshot : EncryptionEngine → ProgressSnapshot
snapshot e = record {
  encrypted_sector = e.encrypted_offset.sector;
  total_sectors = e.encrypted_offset.total_sectors;
  state = e.state;
}

-- u64 addition
abbrev pub add64 : ℕ → ℕ → ℕ
add64 a b = (a + b) % 2 ^ 64

-- What the direction leaves to do.
unfoldable pub towards : VolumeState → EncryptionEngine → EncryptionEngine
unfolding is_fully_encrypted
towards encrypt e = record e {
  state = if is_fully_encrypted e.encrypted_offset then idle else encrypting;
}
towards decrypt e = record e {
  state = if ltb 0 e.encrypted_offset.sector then decrypting else idle;
}

unfoldable pub pause : EncryptionEngine → EncryptionEngine
pause e = elim e.state [
  | encrypting ↦ record e { state = paused }
  | decrypting ↦ record e { state = paused }
  | _ ↦ e
]

-- `load_state().unwrap_or(VolumeState::Encrypt)`
abbrev pub or_encrypt : VckResult VolumeState → VolumeState
or_encrypt (ok v) = v
or_encrypt (err _) = encrypt

abbrev pub set_sector : ℕ → EncryptionEngine → EncryptionEngine
set_sector n e = record e { encrypted_offset = record (e.encrypted_offset) { sector = n } }

abbrev pub set_state : EngineState → EncryptionEngine → EncryptionEngine
set_state s e = record e { state = s }

-- The sectors of one batch: `remaining.min(batch_sectors.max(1))`.
abbrev pub batch_count : ℕ → ℕ → ℕ
batch_count remaining batch = min remaining (max batch 1)

module _ {W : Type 0} where
  -- An error of `store_state` is dropped.
  unfoldable pub start_encrypt : OffsetStore W → EncryptionEngine × W → EncryptionEngine × W
  unfolding towards
  start_encrypt st (e, w) = let (_, w') = st.store_state encrypt w in (towards encrypt e, w')

  unfoldable pub start_decrypt : OffsetStore W → EncryptionEngine × W → EncryptionEngine × W
  unfolding towards
  start_decrypt st (e, w) = let (_, w') = st.store_state decrypt w in (towards decrypt e, w')

  unfoldable pub resume : OffsetStore W → EncryptionEngine × W → EncryptionEngine × W
  unfolding towards
  resume st (e, w) = let (r, w') = st.load_state w in (towards (or_encrypt r) e, w')

  -- An action of the device or of the store, which leaves the engine alone.
  abbrev pub dev : {A : Type 0} → Exec W A → Exec (EncryptionEngine × W) A
  dev m (e, w) = let (r, w') = m w in (r, (e, w'))

  abbrev pub modify : (EncryptionEngine → EncryptionEngine) → Exec (EncryptionEngine × W) (Unit {0})
  modify f (e, w) = (ok tt, (f e, w))

  abbrev pub get : {A : Type 0} → (EncryptionEngine → A) → Exec (EncryptionEngine × W) A
  get f (e, w) = (ok (f e), (e, w))

  -- `store.store(&self.encrypted_offset)?; store.flush()?`
  unfoldable pub persist : OffsetStore W → Exec (EncryptionEngine × W) (Unit {0})
  persist st = do now ← get (λ e. e.encrypted_offset); dev (st.store now); dev st.flush

  -- The end of a step: idle and `Ok(false)` when the direction is done, else `Ok(true)`.
  unfoldable pub finish : (EncryptedOffset → Bool) → Exec (EncryptionEngine × W) Bool
  finish done = do
    now ← get (λ e. e.encrypted_offset)
    if done now then (modify (set_state idle) >> pure false) else pure true

  module _ (sio : SectorIo W) (c : VolumeCipher) (st : OffsetStore W) (batch_sectors : ℕ) where
    -- The batch at `boundary`, and then the new boundary.
    unfoldable pub encrypt_batch : EncryptedOffset → ℕ → Exec (EncryptionEngine × W) Bool
    unfolding persist finish is_fully_encrypted
    encrypt_batch o offset = do
      let start_rel = o.sector
      let count = batch_count (o.total_sectors - start_rel) batch_sectors
      let abs = add64 offset start_rel
      buf ← dev (sio.read_sectors abs (count * sio.sector_size))
      dev (sio.write_sectors abs (c.encrypt_area buf sio.sector_size start_rel))
      modify (set_sector (add64 start_rel count))
      persist st
      finish (λ o. is_fully_encrypted o)

    unfoldable pub encrypt_step : Exec (EncryptionEngine × W) Bool
    unfolding encrypt_batch is_fully_encrypted
    encrypt_step = do
      e ← get (λ e. e)
      if is_fully_encrypted e.encrypted_offset
          then (modify (set_state idle) >> pure false)
          else encrypt_batch e.encrypted_offset e.offset_sector

    pub decrypt_batch : EncryptedOffset → ℕ → Exec (EncryptionEngine × W) Bool
    unfolding persist finish
    decrypt_batch o offset = do
      let count = batch_count o.sector batch_sectors
      let new_boundary = o.sector - count
      let abs = add64 offset new_boundary
      buf ← dev (sio.read_sectors abs (count * sio.sector_size))
      dev (sio.write_sectors abs (c.decrypt_area buf sio.sector_size new_boundary))
      modify (set_sector new_boundary)
      persist st
      finish (λ _. new_boundary == 0)

    unfoldable pub decrypt_step : Exec (EncryptionEngine × W) Bool
    unfolding decrypt_batch
    decrypt_step = do
      e ← get (λ e. e)
      if e.encrypted_offset.sector == 0
          then (modify (set_state idle) >> pure false)
          else decrypt_batch e.encrypted_offset e.offset_sector

    unfoldable pub progress_step : Exec (EncryptionEngine × W) Bool
    unfolding encrypt_step decrypt_step
    progress_step = do
      s ← get (λ e. e.state)
      elim s [ encrypting ↦ encrypt_step | decrypting ↦ decrypt_step | _ ↦ pure false ]
