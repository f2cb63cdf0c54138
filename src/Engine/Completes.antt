-- ===== src/Engine/Completes.antt =====
-- lib/windrv/src/offset/engine.rs: the steps of a whole sweep, over a device and a store whose
-- operations succeed.
use volumecrypt_kit.Prelude.{
  ℕ, zero, suc, ◌+◌, ◌-◌, ◌*◌, ◌≤◌, ◌<◌, ◌^◌, min, max, ◌≡◌, refl, ap, ◌∙◌, inl, inr, List, Bool,
  arith, ltb, Bool-cases, if◌then◌else◌,
}
use native.Mathlib.Nat.{zero-mul}
use volumecrypt_kit.Error.{VckResult}
use volumecrypt_kit.Device.{SectorIo, IsDevice, OffsetStore, KeepsData}
use volumecrypt_kit.Cipher.{VolumeCipher, IsCipher}
use volumecrypt_kit.Engine.{
  EngineState, idle, encrypting, decrypting, EncryptionEngine, progress_step,
}
use volumecrypt_kit.Engine.Steps.{IsValid}
use volumecrypt_kit.Engine.Reliable.{
  Reliable, encrypt_step-Moved, decrypt_step-Moved, encrypt_step-ok, decrypt_step-ok,
  progress_step-still, progress_step-encrypting, progress_step-decrypting,
}

module _ {W : Type 0} (io : SectorIo W) (c : VolumeCipher) (st : OffsetStore W) (batch : ℕ) where
  -- `k` steps, one behind the other.
  unfoldable pub sweeps : ℕ → EncryptionEngine × W → EncryptionEngine × W
  sweeps zero s = s
  sweeps (suc k) s = sweeps k (progress_step io c st batch s).1

module _ {W : Type 0} {io : SectorIo W} {sector : W → ℕ → List ℕ} (dev : IsDevice io sector)
    {c : VolumeCipher} (ci : IsCipher c io.sector_size) {st : OffsetStore W}
    (reliable : Reliable io st) (batch offset total : ℕ)
    (kd : KeepsData st sector offset total) where
  -- The engine of that region, at a boundary.
  abbrev at : ℕ → EngineState → EncryptionEngine
  at boundary s = record {
    offset_sector = offset;
    encrypted_offset = record { sector = boundary; total_sectors = total };
    state = s;
  }

  sweeps-at :
      (k : ℕ) (s : EncryptionEngine × W) (e : EncryptionEngine)
      → s.0 ≡ e
      → (sweeps io c st batch k s).0 ≡ (sweeps io c st batch k (e, s.1)).0
  sweeps-at k s e is = ap (λ (x : EncryptionEngine). (sweeps io c st batch k (x, s.1)).0) is

  fields :
      (e : EncryptionEngine) (next : ℕ) (s : EngineState)
      → e.offset_sector ≡ offset
      → e.encrypted_offset ≡ record { sector = next; total_sectors = total }
      → e.state ≡ s
      → e ≡ at next s
  fields e next s p q r = rw (← p, ← r) (λ i. record e { encrypted_offset = q i })

  module _ (boundary : ℕ) (le : boundary ≤ total) (fits : offset + total < 2 ^ 64) (w : W) where
    valid : (s : EngineState) → IsValid (at boundary s)
    valid s = record { fits = fits; within = le }

    idle_once : (progress_step io c st batch (at boundary idle, w)).1 ≡ (at boundary idle, w)
    idle_once =
        ap (λ (r : VckResult Bool × (EncryptionEngine × W)). r.1)
          (progress_step-still dev ci reliable (at boundary idle) (valid idle) kd batch w
            (inl refl))

    encrypts_once :
        (progress_step io c st batch (at boundary encrypting, w)).1.0
        ≡ at
            (min total (boundary + max batch 1))
            (if ltb (boundary + max batch 1) total then encrypting else idle)
    encrypts_once =
        let m =
          encrypt_step-Moved dev ci reliable (at boundary encrypting) (valid encrypting) kd batch
            w in
        let (b, good) =
          encrypt_step-ok dev ci reliable (at boundary encrypting) (valid encrypting) kd batch w in
        rw
          (progress_step-encrypting dev ci reliable (at boundary encrypting) (valid encrypting) kd
            batch w refl)
          (fields _ _ _ m.offset_same m.boundary (m.answers b good).1)

    decrypts_once :
        (progress_step io c st batch (at boundary decrypting, w)).1.0
        ≡ at (boundary - max batch 1) (if ltb 0 (boundary - max batch 1) then decrypting else idle)
    decrypts_once =
        let m =
          decrypt_step-Moved dev ci reliable (at boundary decrypting) (valid decrypting) kd batch
            w in
        let (b, good) =
          decrypt_step-ok dev ci reliable (at boundary decrypting) (valid decrypting) kd batch w in
        rw
          (progress_step-decrypting dev ci reliable (at boundary decrypting) (valid decrypting) kd
            batch w refl)
          (fields _ _ _ m.offset_same m.boundary (m.answers b good).1)

  module _ (fits : offset + total < 2 ^ 64) where
    idle_stays :
        (k boundary : ℕ) (w : W)
        → boundary ≤ total
        → (sweeps io c st batch k (at boundary idle, w)).0 ≡ at boundary idle
    unfolding sweeps
    idle_stays zero boundary w le = refl
    idle_stays (suc k) boundary w le =
        rw (sweeps, idle_once boundary le fits w) (idle_stays k boundary w le)

    one_more : (k : ℕ) → suc k * max batch 1 ≡ max batch 1 + k * max batch 1
    one_more k = grind arith

    further :
        (k boundary : ℕ)
        → total ≤ boundary + suc k * max batch 1
        → total ≤ boundary + max batch 1 + k * max batch 1
    further k boundary far = omega (arith, one_more k)

    some_left :
        (k boundary : ℕ)
        → boundary + max batch 1 < total
        → total ≤ boundary + suc k * max batch 1
        → 0 < k
    some_left zero boundary lt far = absurd (omega (arith, one_more 0, zero-mul (max batch 1)))
    some_left (suc k) boundary lt far = omega arith

    -- Over a device and a store whose operations succeed, an engine that encrypts, at a boundary
    -- within its region, is idle with the whole region encrypted after any positive number `k` of
    -- steps for which `k` batches (of at least one sector) cover what is left.
    pub sweeps-encrypting :
        (k boundary : ℕ) (w : W)
        → boundary ≤ total
        → 0 < k
        → total ≤ boundary + k * max batch 1
        → (sweeps io c st batch k (at boundary encrypting, w)).0 ≡ at total idle
    unfolding sweeps
    sweeps-encrypting zero boundary w le pos far = absurd (omega arith)
    sweeps-encrypting (suc k) boundary w le pos far =
        sweeps-at k (progress_step io c st batch (at boundary encrypting, w)).1 _
          (encrypts_once boundary le fits w)
        ∙ elim (Bool-cases (ltb (boundary + max batch 1) total)) [
          | inl more ↦
              let n : min total (boundary + max batch 1) ≡ boundary + max batch 1 = ground arith in
              rw (more, n)
                (sweeps-encrypting k (boundary + max batch 1) _ (ground arith)
                  (some_left k boundary (ground arith) far) (further k boundary far))
          | inr over ↦
              let n : min total (boundary + max batch 1) ≡ total = ground arith in
              rw (over, n) (idle_stays k total _ (omega arith))
        ]

    decrypts_left :
        (k boundary : ℕ)
        → 0 < boundary - max batch 1
        → boundary ≤ suc k * max batch 1
        → (0 < k) × (boundary - max batch 1 ≤ k * max batch 1)
    decrypts_left zero boundary lt far = absurd (omega (arith, one_more 0, zero-mul (max batch 1)))
    decrypts_left (suc k) boundary lt far = (omega arith, omega (arith, one_more (suc k)))

    -- Over a device and a store whose operations succeed, an engine that decrypts, at a boundary
    -- within its region, is idle with nothing encrypted after any positive number `k` of steps for
    -- which `k` batches (of at least one sector) cover what is encrypted.
    pub sweeps-decrypting :
        (k boundary : ℕ) (w : W)
        → boundary ≤ total
        → 0 < k
        → boundary ≤ k * max batch 1
        → (sweeps io c st batch k (at boundary decrypting, w)).0 ≡ at 0 idle
    unfolding sweeps
    sweeps-decrypting zero boundary w le pos far = absurd (omega arith)
    sweeps-decrypting (suc k) boundary w le pos far =
        sweeps-at k (progress_step io c st batch (at boundary decrypting, w)).1 _
          (decrypts_once boundary le fits w)
        ∙ elim (Bool-cases (ltb 0 (boundary - max batch 1))) [
          | inl more ↦
              let (some_steps, near) = decrypts_left k boundary (ground arith) far in
              rw more (sweeps-decrypting k (boundary - max batch 1) _ (omega arith) some_steps near)
          | inr over ↦
              let n : boundary - max batch 1 ≡ 0 = ground arith in
              rw n (idle_stays k 0 _ (omega arith))
        ]
