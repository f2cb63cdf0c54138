-- ===== src/System.antt =====
-- What the volume's thread does with its volume, one operation at a time: a request of the burst, a
-- batch of the sweep, and the control requests that move the sweep. (The thread serialises them,
-- Thread.)
pub mod Spec
pub mod Control
pub mod Requests
pub mod Transparent
use volumecrypt_kit.Prelude.{ℕ, Option, none, some, List, [], ◌∷◌}
use volumecrypt_kit.Types.{VolumeState, encrypt, decrypt}
use volumecrypt_kit.Device.{SectorIo, OffsetStore}
use volumecrypt_kit.Cipher.{VolumeCipher}
use volumecrypt_kit.Engine
use volumecrypt_kit.Engine.{EncryptionEngine, start_encrypt, start_decrypt}
use volumecrypt_kit.Volume.{AttachedVolume, sweep_step}
use volumecrypt_kit.Irp.{Request, Completion, process_irp}

pub record System (W : Type 0) : Type 0 where
  pub volume : AttachedVolume
  pub burst : Option VolumeCipher
  pub world : W

pub data Op : Type 0 where
  irp : Request → Op
  sweep : ℕ → Op
  start : VolumeState → Op
  pause : Op

module _ {W : Type 0} (io : SectorIo W) (st : OffsetStore W) where
  unfoldable pub start_towards : VolumeState → EncryptionEngine × W → EncryptionEngine × W
  unfolding start_encrypt start_decrypt
  start_towards encrypt s = start_encrypt st s
  start_towards decrypt s = start_decrypt st s

  -- The burst's cipher is dropped before the sweep.
  unfoldable pub step : Op → System W → Option Completion × System W
  unfolding start_towards
  step (irp q) s =
      let (r, (burst', w')) = process_irp io s.volume s.burst q s.world in
      (some r, record s { burst = burst'; world = w' })
  step (sweep batch) s =
      let (_, (v', w')) = sweep_step io st batch (s.volume, s.world) in
      (none, record { volume = v'; burst = none; world = w' })
  step (start direction) s =
      let (e', w') = start_towards direction (s.volume.encryption, s.world) in
      (none, record s { volume = record (s.volume) { encryption = e' }; world = w' })
  step pause s = (
    none,
    record s { volume = record (s.volume) { encryption = Engine.pause s.volume.encryption } },
  )

  -- The replies to the requests, in order.
  unfoldable pub run : List Op → System W → List Completion
  run [] s = []
  run (op ∷ ops) s =
      let (r, s') = step op s in let rest = run ops s' in elim r [ none ↦ rest | some c ↦ c ∷ rest ]
