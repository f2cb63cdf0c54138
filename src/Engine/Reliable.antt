-- ===== src/Engine/Reliable.antt =====
-- lib/windrv/src/offset/engine.rs: a step over a device and a store whose operations succeed.
use volumecrypt_kit.Prelude.{
  ℕ, ◌≤◌, ◌<◌, min, max, ◌-◌, ◌≡◌, refl, ap, ◌∙◌, ◌⊎◌, inl, inr, List, Bool, false, arith, leb, ltb,
  ◌+◌, ◌==◌, not, Bool-cases,
}
use volumecrypt_kit.Error.{VckResult, ok}
use volumecrypt_kit.Exec.{◌>>=◌, ◌>>◌, succeeds-bind}
use volumecrypt_kit.Types.{EncryptedOffset}
use volumecrypt_kit.Device.{SectorIo, IsDevice, OffsetStore, KeepsData}
use volumecrypt_kit.Cipher.{VolumeCipher, IsCipher}
use volumecrypt_kit.Plain.{plain}
use volumecrypt_kit.Engine.{
  EngineState, idle, encrypting, decrypting, paused, EncryptionEngine, encrypt_step, decrypt_step,
  progress_step, persist, finish, dev as dev_of, modify, set_sector,
}
use volumecrypt_kit.Engine.Steps.{IsValid, Moved, Stayed, encrypt_step_lem, decrypt_step_lem}

pub record Reliable {W : Type 0} (io : SectorIo W) (st : OffsetStore W) : Type 0 where
  pub reads : (lba len : ℕ) (w : W) → (buf : List ℕ) × ((io.read_sectors lba len w).0 ≡ ok buf)
  pub writes : (lba : ℕ) (buf : List ℕ) (w : W) → (io.write_sectors lba buf w).0 ≡ ok tt
  pub stores : (o : EncryptedOffset) (w : W) → (st.store o w).0 ≡ ok tt
  pub flushes : (w : W) → (st.flush w).0 ≡ ok tt

module _ {W : Type 0} {io : SectorIo W} {sector : W → ℕ → List ℕ} (dev : IsDevice io sector)
    {c : VolumeCipher} (ci : IsCipher c io.sector_size) {st : OffsetStore W}
    (reliable : Reliable io st) (e : EncryptionEngine) (v : IsValid e)
    (kd : KeepsData st sector e.offset_sector e.encrypted_offset.total_sectors) (batch : ℕ)
    (w : W) where
  open e use {offset_sector as offset}
  open e.encrypted_offset use {sector as start, total_sectors as total}

  -- The step has succeeded: the data region is where it was, and so is the plaintext.
  pub record Kept (r : VckResult Bool × (EncryptionEngine × W)) : Type 0 where
    pub succeeds : (b : Bool) × (r.0 ≡ ok b)
    pub valid : IsValid r.1.0
    pub offset_same : r.1.0.offset_sector ≡ offset
    pub total_same : r.1.0.encrypted_offset.total_sectors ≡ total
    pub plain_same :
        (rel : ℕ)
        → rel < total
        → plain c offset r.1.0.encrypted_offset.sector (sector r.1.1) rel
          ≡ plain c offset start (sector w) rel

  Kept-of-Moved :
      (next : ℕ) (left : Bool) (r : VckResult Bool × (EncryptionEngine × W))
      → next ≤ total
      → ((b : Bool) × (r.0 ≡ ok b))
      → Moved dev ci e v kd batch w next left r
      → Kept r
  Kept-of-Moved next left r le good m = record {
    succeeds = good;
    valid = ground (arith, v.fits);
    offset_same = m.offset_same;
    total_same = ap (λ (o : EncryptedOffset). o.total_sectors) m.boundary;
    plain_same = λ rel lt.
        ap (λ (o : EncryptedOffset). plain c offset o.sector (sector r.1.1) rel) m.boundary
        ∙ m.plain_same rel lt;
  }

  persist-ok : (s : EncryptionEngine × W) → (persist st s).0 ≡ ok tt
  unfolding persist
  persist-ok s = ground (
    arith,
    reliable.stores s.0.encrypted_offset s.1,
    reliable.flushes (st.store s.0.encrypted_offset s.1).1,
  )

  finish-ok :
      (done : EncryptedOffset → Bool) (s : EncryptionEngine × W)
      → (b : Bool) × ((finish done s).0 ≡ ok b)
  unfolding finish
  finish-ok done s = (not (done s.0.encrypted_offset), ground arith)

  -- What a batch does: read, write, move the boundary, persist, finish.
  batch-ok :
      (lba len next : ℕ) (area : List ℕ → List ℕ) (done : EncryptedOffset → Bool)
      → (b : Bool) × (((do
        buf ← dev_of (io.read_sectors lba len)
        dev_of (io.write_sectors lba (area buf))
        modify (set_sector next)
        persist st
        finish done)
            (e, w)).0
          ≡ ok b)
  batch-ok lba len next area done =
      let (buf, read) = reliable.reads lba len w in
      let s1 : EncryptionEngine × W = (e, (io.read_sectors lba len w).1) in
      let s2 : EncryptionEngine × W = (e, (io.write_sectors lba (area buf) s1.1).1) in
      let s3 : EncryptionEngine × W = (set_sector next e, s2.1) in
      succeeds-bind (dev_of (io.read_sectors lba len))
        (λ b.
          dev_of (io.write_sectors lba (area b))
          >> (modify (set_sector next) >> (persist st >> finish done)))
        (e, w) buf read
        (succeeds-bind (dev_of (io.write_sectors lba (area buf)))
          (λ _. modify (set_sector next) >> (persist st >> finish done)) s1 tt
          (reliable.writes lba (area buf) s1.1)
          (succeeds-bind (modify (set_sector next)) (λ _. persist st >> finish done) s2 tt refl
            (succeeds-bind (persist st) (λ _. finish done) s3 tt (persist-ok s3)
              (finish-ok done (persist st s3).1))))

  pub encrypt_step-ok : (b : Bool) × ((encrypt_step io c st batch (e, w)).0 ≡ ok b)
  unfolding encrypt_step
  encrypt_step-ok = elim (Bool-cases (leb total start)) [
    | inl full ↦ (false, rw full)
    | inr more ↦ rw more (batch-ok _ _ _ (λ b. c.encrypt_area b io.sector_size start) _)
  ]

  pub decrypt_step-ok : (b : Bool) × ((decrypt_step io c st batch (e, w)).0 ≡ ok b)
  unfolding decrypt_step
  decrypt_step-ok = elim (Bool-cases (start == 0)) [
    | inl none_left ↦ (false, rw none_left)
    | inr more ↦ rw more (
        batch-ok _ _ (start - min start (max batch 1))
          (λ b. c.decrypt_area b io.sector_size (start - min start (max batch 1))) _)
  ]

  Stayed-absurd :
      (first count : ℕ) (r : VckResult Bool × (EncryptionEngine × W))
      → ((b : Bool) × (r.0 ≡ ok b))
      → Stayed dev ci e v kd batch w first count r
      → ⊥
  Stayed-absurd first count r good stayed = cc (good.1, stayed.failed.1)

  step-Kept :
      (next first count : ℕ) (left : Bool) (r : VckResult Bool × (EncryptionEngine × W))
      → next ≤ total
      → ((b : Bool) × (r.0 ≡ ok b))
      → Moved dev ci e v kd batch w next left r ⊎ Stayed dev ci e v kd batch w first count r
      → Kept r
  step-Kept next first count left r le good (inl m) = Kept-of-Moved next left r le good m
  step-Kept next first count left r le good (inr s) = absurd (Stayed-absurd first count r good s)

  -- What a step that cannot fail does.
  pub encrypt_step-Moved :
      Moved dev ci e v kd batch w
        (min total (start + max batch 1))
        (ltb (start + max batch 1) total)
        (encrypt_step io c st batch (e, w))
  encrypt_step-Moved = elim (encrypt_step_lem dev ci e v kd batch w) [
    | inl m ↦ m
    | inr s ↦ absurd (Stayed-absurd _ _ (encrypt_step io c st batch (e, w)) encrypt_step-ok s)
  ]

  pub decrypt_step-Moved :
      Moved dev ci e v kd batch w
        (start - max batch 1)
        (ltb 0 (start - max batch 1))
        (decrypt_step io c st batch (e, w))
  decrypt_step-Moved = elim (decrypt_step_lem dev ci e v kd batch w) [
    | inl m ↦ m
    | inr s ↦ absurd (Stayed-absurd _ _ (decrypt_step io c st batch (e, w)) decrypt_step-ok s)
  ]

  pub progress_step-still :
      (e.state ≡ idle) ⊎ (e.state ≡ paused)
      → progress_step io c st batch (e, w) ≡ (ok false, (e, w))
  unfolding progress_step
  progress_step-still is = ground arith

  still-Kept : (e.state ≡ idle) ⊎ (e.state ≡ paused) → Kept (progress_step io c st batch (e, w))
  still-Kept is = rw (progress_step-still is) (record {
    succeeds = (false, refl);
    valid = v;
    offset_same = refl;
    total_same = refl;
    plain_same = λ rel lt. refl;
  })

  pub progress_step-encrypting :
      e.state ≡ encrypting → progress_step io c st batch (e, w) ≡ encrypt_step io c st batch (e, w)
  unfolding progress_step
  progress_step-encrypting is = ground arith

  pub progress_step-decrypting :
      e.state ≡ decrypting → progress_step io c st batch (e, w) ≡ decrypt_step io c st batch (e, w)
  unfolding progress_step
  progress_step-decrypting is = ground arith

  by_state : (s : EngineState) → e.state ≡ s → Kept (progress_step io c st batch (e, w))
  by_state encrypting is = rw (progress_step-encrypting is) (
      step-Kept _ _ _ _ (encrypt_step io c st batch (e, w)) (omega arith) encrypt_step-ok
        (encrypt_step_lem dev ci e v kd batch w))
  by_state decrypting is = rw (progress_step-decrypting is) (
      step-Kept _ _ _ _ (decrypt_step io c st batch (e, w)) (omega (arith, v.within))
        decrypt_step-ok (decrypt_step_lem dev ci e v kd batch w))
  by_state idle is = still-Kept (inl is)
  by_state paused is = still-Kept (inr is)

  -- For a valid engine in any state, over a device and a store whose operations succeed, a step
  -- succeeds, keeps the engine valid and the data region where it is, and keeps the plaintext of
  -- every sector of the region.
  pub progress_step_lem : Kept (progress_step io c st batch (e, w))
  progress_step_lem = by_state e.state refl
