-- ===== src/Engine/Steps.antt =====
-- lib/windrv/src/offset/engine.rs: one step of the sweep, on success and on failure.
use mathlib.Core.Path.{subst}
use volumecrypt_kit.Prelude.{
  ℕ, ◌+◌, ◌-◌, ◌*◌, ◌^◌, ◌≤◌, ◌<◌, min, max, ◌≡◌, refl, sym, ap, ◌∙◌, ◌⊎◌, inl, inr, List, Bool,
  true, false, arith, ltb, leb, ◌==◌, not, if◌then◌else◌,
}
use native.Mathlib.Decide.{dec_lt}
use volumecrypt_kit.Prelude.Bytes.{IsSector, gather}
use volumecrypt_kit.Error.{VckError, VckResult, ok, err, Result-cases}
use volumecrypt_kit.Types.{EncryptedOffset, is_fully_encrypted}
use volumecrypt_kit.Device.{SectorIo, IsDevice, OffsetStore, KeepsData}
use volumecrypt_kit.Cipher.{VolumeCipher, IsCipher}
use volumecrypt_kit.Plain.{plain, plain_cong, plain_advance, plain_retreat}
use volumecrypt_kit.Engine.{
  EncryptionEngine, idle, add64, batch_count, encrypt_step, decrypt_step, dev as dev_of, modify,
  set_sector, persist, finish,
}
use volumecrypt_kit.Exec.{Exec, ◌>>=◌, ◌>>◌}
use volumecrypt_kit.Engine.Batch.{batch_sets, batch_frame}

-- LBAs of the data region fit 64 bits, and the boundary lies within the region.
pub record IsValid (e : EncryptionEngine) : Type 0 where
  pub fits : e.offset_sector + e.encrypted_offset.total_sectors < 2 ^ 64
  pub within : e.encrypted_offset.sector ≤ e.encrypted_offset.total_sectors

module _ {W : Type 0} {io : SectorIo W} {sector : W → ℕ → List ℕ} (dev : IsDevice io sector)
    {c : VolumeCipher} (ci : IsCipher c io.sector_size) {st : OffsetStore W} (e : EncryptionEngine)
    (v : IsValid e) (kd : KeepsData st sector e.offset_sector e.encrypted_offset.total_sectors)
    (batch : ℕ) (w : W) where
  open e use {offset_sector as offset}
  open e.encrypted_offset use {sector as start, total_sectors as total}

  -- How a batch at `first` of `count` sectors, which moves the boundary to `next`, may end: the
  -- boundary has moved and the plaintext is the same, or the step has failed with the boundary
  -- where it was and the sectors outside the batch untouched. `left` says whether work remains.
  pub record Moved (next : ℕ) (left : Bool) (r : VckResult Bool × (EncryptionEngine × W))
      : Type 0 where
    pub boundary : r.1.0.encrypted_offset ≡ record (e.encrypted_offset) { sector = next }
    pub offset_same : r.1.0.offset_sector ≡ offset
    pub plain_same :
        (rel : ℕ)
        → rel < total
        → plain c offset next (sector r.1.1) rel ≡ plain c offset start (sector w) rel
    pub answers :
        (b : Bool) → r.0 ≡ ok b → (b ≡ left) × (r.1.0.state ≡ (if left then e.state else idle))

  pub record Stayed (first count : ℕ) (r : VckResult Bool × (EncryptionEngine × W)) : Type 0 where
    pub failed : (e' : VckError) × (r.0 ≡ err e')
    pub engine_same : r.1.0 ≡ e
    pub outside_same :
        (l : ℕ) → (l < offset + first) ⊎ (offset + first + count ≤ l) → sector r.1.1 l ≡ sector w l

  -- What follows a batch that was written: the boundary moves, and the rest touches no data.
  tail_lem :
      (next : ℕ) (done : EncryptedOffset → Bool) (w' : W)
      → let out = (modify (set_sector next) >> (persist st >> finish done)) (e, w') in
        (out.1.0.encrypted_offset ≡ record (e.encrypted_offset) { sector = next })
        × (out.1.0.offset_sector ≡ offset)
        × ((rel : ℕ) → rel < total → sector out.1.1 (offset + rel) ≡ sector w' (offset + rel))
        × ((b : Bool)
            → out.0 ≡ ok b
            → (b ≡ not (done (record (e.encrypted_offset) { sector = next })))
              × (out.1.0.state ≡ (
                  if done (record (e.encrypted_offset) { sector = next }) then idle else e.state)))
  unfolding persist finish
  tail_lem next done w' =
      let now : EncryptedOffset = record (e.encrypted_offset) { sector = next } in
      (
        ground arith,
        ground arith,
        λ rel lt. ground (
          arith,
          kd.store_keeps now w' rel lt,
          kd.flush_keeps (st.store now w').1 (offset + rel),
        ),
        λ b r. ground arith,
      )

  module _ (first count next lba : ℕ) (at : lba ≡ offset + first) (area : List ℕ → List ℕ)
      (each : ℕ → List ℕ → List ℕ) (done : EncryptedOffset → Bool) (left : Bool)
      (ends : done (record (e.encrypted_offset) { sector = next }) ≡ not left) where
    -- Both directions: read a batch, transform it, write it back, move the boundary to `next`.
    abbrev batch_of : Exec (EncryptionEngine × W) Bool
    batch_of = do
      buf ← dev_of (io.read_sectors lba (count * io.sector_size))
      dev_of (io.write_sectors lba (area buf))
      modify (set_sector next)
      persist st
      finish done

    module _
        (each_whole : (i : ℕ) (s : List ℕ)
          → IsSector io.sector_size s
          → IsSector io.sector_size (each i s))
        (area_each : (n : ℕ) (f : ℕ → List ℕ)
          → ((i : ℕ) → IsSector io.sector_size (f i))
          → area (gather n f) ≡ gather n (λ i. each i (f i)))
        (moves : (disk' : ℕ → List ℕ)
          → ((l : ℕ) → (l < offset + first) ⊎ (offset + first + count ≤ l) → disk' l ≡ sector w l)
          → ((i : ℕ)
              → i < count
              → disk' (offset + first + i) ≡ each i (sector w (offset + first + i)))
          → (rel : ℕ) → plain c offset next disk' rel ≡ plain c offset start (sector w) rel) where
      module _ (buf : List ℕ)
          (read : (io.read_sectors lba (count * io.sector_size) w).0 ≡ ok buf) where
        abbrev read_world : W
        read_world = (io.read_sectors lba (count * io.sector_size) w).1

        abbrev written : W
        written = (io.write_sectors lba (area buf) read_world).1

        frame :
            (l : ℕ)
            → (l < offset + first) ⊎ (offset + first + count ≤ l)
            → sector written l ≡ sector w l
        frame =
            subst (λ a. (l : ℕ) → (l < a) ⊎ (a + count ≤ l) → sector written l ≡ sector w l) at
              (batch_frame dev area each each_whole area_each lba count w buf read)

        moved :
            (io.write_sectors lba (area buf) read_world).0 ≡ ok tt
            → Moved next left
                ((modify (set_sector next) >> (persist st >> finish done)) (e, written))
        moved wrote = record {
          boundary = (tail_lem next done written).0;
          offset_same = (tail_lem next done written).1;
          plain_same = λ rel lt.
              plain_cong c offset next (sector written) _ rel
                ((tail_lem next done written).2 rel lt)
              ∙ moves (sector written) frame
                  (subst
                    (λ a. (i : ℕ) → i < count → sector written (a + i) ≡ each i (sector w (a + i)))
                    at (batch_sets dev area each each_whole area_each lba count w buf read wrote))
                  rel;
          answers = λ b r. ground (arith, (tail_lem next done written).3 b r, ends);
        }

      batch_of_lem : Moved next left (batch_of (e, w)) ⊎ Stayed first count (batch_of (e, w))
      batch_of_lem = elim (Result-cases (io.read_sectors lba (count * io.sector_size) w).0) [
        | inr (x, bad) ↦ inr (
            rw bad (record {
              failed = (x, refl);
              engine_same = refl;
              outside_same = λ l _. dev.read_keeps lba (count * io.sector_size) w l;
            }))
        | inl (buf, read) ↦
            rw read (elim (Result-cases (io.write_sectors lba (area buf) (read_world buf read)).0) [
              | inr (x, bad) ↦ inr (
                  rw bad (record {
                    failed = (x, refl);
                    engine_same = refl;
                    outside_same = frame buf read;
                  }))
              | inl (_, wrote) ↦ inl (rw wrote (moved buf read wrote))
            ])
      ]

  -- For a valid engine, over a device, a cipher and a store that meet their laws, one encrypting
  -- step ends in one of two ways: the boundary has moved up by one batch (at least one sector, at
  -- most up to the total), the plaintext of the region is the same, and an `Ok` says whether work
  -- remains and sets the state to idle when none does; or the step has failed with the engine as it
  -- was, and no sector outside the batch has changed.
  pub encrypt_step_lem :
      Moved
        (min total (start + max batch 1))
        (ltb (start + max batch 1) total)
        (encrypt_step io c st batch (e, w))
      ⊎ Stayed start (min (total - start) (max batch 1)) (encrypt_step io c st batch (e, w))
  unfolding encrypt_step is_fully_encrypted
  encrypt_step_lem = elim (dec_lt start total) [
    | no full ↦
        let n : min total (start + max batch 1) ≡ start = omega arith in
        let stop : leb total start ≡ true = ground arith in
        rw (stop, n)
          (inl (record {
            boundary = refl;
            offset_same = refl;
            plain_same = λ rel lt. refl;
            answers = ground arith;
          }))
    | yes lt ↦
        let count = batch_count (total - start) batch in
        let n : add64 start count ≡ min total (start + max batch 1) = omega arith in
        let m : start + count ≡ min total (start + max batch 1) = omega arith in
        let go : leb total start ≡ false = ground arith in
        rw (go, ← n)
          (batch_of_lem start count (add64 start count) (add64 offset start) (omega arith)
            (λ b. c.encrypt_area b io.sector_size start) (λ i. c.encrypt_sector (start + i))
            (λ o. is_fully_encrypted o) (ltb (start + max batch 1) total) (ground arith)
            (λ i s h. ci.encrypt_whole (start + i) s h) (λ n f h. ci.encrypt_area_each n start f h)
            (λ disk' frame sets rel.
              ap (λ (b : ℕ). plain c offset b disk' rel) (n ∙ sym m)
              ∙ plain_advance c io.sector_size ci offset start count (sector w) disk' (dev.whole w)
                  frame sets rel))
  ]

  -- The same for one decrypting step: the boundary has moved down by one batch, down to 0 at most,
  -- and the plaintext of the region is the same; or the step has failed with the engine as it was,
  -- and no sector outside the batch has changed.
  pub decrypt_step_lem :
      Moved (start - max batch 1) (ltb 0 (start - max batch 1)) (decrypt_step io c st batch (e, w))
      ⊎ Stayed (start - max batch 1) (min start (max batch 1)) (decrypt_step io c st batch (e, w))
  unfolding decrypt_step
  decrypt_step_lem = elim (dec_lt 0 start) [
    | no none_left ↦
        let n : start - max batch 1 ≡ start = omega arith in
        let stop : (start == 0) ≡ true = ground arith in
        rw (stop, n)
          (inl (record {
            boundary = refl;
            offset_same = refl;
            plain_same = λ rel lt. refl;
            answers = ground arith;
          }))
    | yes lt ↦
        let count = batch_count start batch in
        let n : start - count ≡ start - max batch 1 = omega arith in
        let m : start - count + count ≡ start = omega arith in
        let go : (start == 0) ≡ false = ground arith in
        rw (go, ← n)
          (batch_of_lem (start - count) count (start - count) (add64 offset (start - count))
            (omega arith) (λ b. c.decrypt_area b io.sector_size (start - count))
            (λ i. c.decrypt_sector (start - count + i)) (λ _. (start - count) == 0)
            (ltb 0 (start - count)) (ground arith)
            (λ i s h. ci.decrypt_whole (start - count + i) s h)
            (λ n f h. ci.decrypt_area_each n (start - count) f h)
            (λ disk' frame sets rel.
              plain_retreat c io.sector_size ci offset (start - count) count (sector w) disk'
                (dev.whole w) frame sets rel
              ∙ ap (λ (b : ℕ). plain c offset b (sector w) rel) m))
  ]
