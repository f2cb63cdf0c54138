-- ===== src/Dispatch/Pauses.antt =====
-- lib/windrv/src/ioctl/dispatch.rs: handle_pause_os_volume, and then a sweep step.
use text.Mathlib.Text.{◌==◌ as same}
use mathlib.Core.Option.{none-ne-some, some-injective}
use volumecrypt_kit.Prelude.{
  ℕ, String, true, false, none, some, List, [], ◌∷◌, map, ◌≡◌, refl, sym, ◌∙◌, inl, inr, Bool-cases,
  Option-cases,
}
use volumecrypt_kit.Error.{ok}
use volumecrypt_kit.Device.{SectorIo, OffsetStore}
use volumecrypt_kit.Cipher.{VolumeCipher}
use volumecrypt_kit.Types.{EncryptedOffset}
use volumecrypt_kit.Engine
use volumecrypt_kit.Engine.{
  EngineState, EncryptionEngine, idle, paused, encrypting, decrypting, progress_step,
}
use volumecrypt_kit.Volume.{AttachedVolume, is_os_volume, sweep_step, burst_cipher}
use volumecrypt_kit.Registry.{Entry, get}
use volumecrypt_kit.Registry.Laws.{IsRegistry, skip-get}
use volumecrypt_kit.Dispatch.{Driver, pause_volume, pause_entry, handle_pause_os_volume}

pub get-pause :
    (p : String) (v : AttachedVolume) (es : List Entry)
    → get p es ≡ some v
    → get p (map pause_entry es) ≡ some (pause_volume v)
unfolding get
get-pause p v [] is = absurd (none-ne-some v is)
get-pause p v (e ∷ es) is = elim (Bool-cases (same p e.key)) [
  | inl b ↦
      let found : some e.volume ≡ some v = sym (rw b refl) ∙ is in
      rw (b, some-injective e.volume v found) refl
  | inr b ↦ rw b (get-pause p v es (sym (rw b refl) ∙ is))
]

absent-pause : (p : String) (es : List Entry) → get p es ≡ none → get p (map pause_entry es) ≡ none
unfolding get
absent-pause p [] is = refl
absent-pause p (e ∷ es) is = let skip = skip-get p e es is in rw skip.0 (absent-pause p es skip.1)

pub pause-IsRegistry : (es : List Entry) → IsRegistry es → IsRegistry (map pause_entry es)
unfolding IsRegistry pause_volume
pause-IsRegistry [] h = tt
pause-IsRegistry (e ∷ es) h = (h.0, absent-pause e.key es h.1, pause-IsRegistry es h.2)

module _ {W : Type 0} (sweep : SectorIo W) (st : OffsetStore W) (batch : ℕ) (w : W) where
  progress-pause :
      (c : VolumeCipher) (offset : ℕ) (o : EncryptedOffset) (x : EngineState)
      → let e = Engine.pause (record { offset_sector = offset; encrypted_offset = o; state = x }) in
        progress_step sweep c st batch (e, w) ≡ (ok false, (e, w))
  unfolding progress_step Engine.pause
  progress-pause c offset o idle = refl
  progress-pause c offset o paused = refl
  progress-pause c offset o encrypting = refl
  progress-pause c offset o decrypting = refl

  sweep_step-still :
      (v : AttachedVolume)
      → ((c : VolumeCipher)
          → progress_step sweep c st batch (v.encryption, w) ≡ (ok false, (v.encryption, w)))
      → let r = sweep_step sweep st batch (v, w) in (r.0 ≡ ok false) × (r.1.1 ≡ w)
  unfolding sweep_step
  sweep_step-still v still = elim (Option-cases (burst_cipher v)) [
    | inl unkeyed ↦ rw (sweep_step, unkeyed) (refl, refl)
    | inr (c, keyed) ↦ rw (sweep_step, keyed, still c) (refl, refl)
  ]

  sweep_step-pause :
      (v : AttachedVolume)
      → is_os_volume v ≡ true
      → let r = sweep_step sweep st batch (pause_volume v, w) in (r.0 ≡ ok false) × (r.1.1 ≡ w)
  unfolding pause_volume
  sweep_step-pause v os = sweep_step-still (pause_volume v) (λ c. rw os (
      progress-pause c v.encryption.offset_sector v.encryption.encrypted_offset v.encryption.state))

  -- After pause-OS an OS volume is still attached at its path, and a sweep step of it returns that
  -- there is no work and leaves the devices as they were.
  pub handle_pause_os_volume-sweep_step :
      (path : String) (v : AttachedVolume) (d : Driver W)
      → get path d.entries ≡ some v
      → is_os_volume v ≡ true
      → let v' = pause_volume v in
        let r = sweep_step sweep st batch (v', w) in
        (get path (handle_pause_os_volume d).1.entries ≡ some v') × (r.0 ≡ ok false) × (r.1.1 ≡ w)
  unfolding handle_pause_os_volume
  handle_pause_os_volume-sweep_step path v d attached os =
      let quiet = sweep_step-pause v os in (get-pause path v d.entries attached, quiet.0, quiet.1)
