-- ===== src/Irp/Write.antt =====
-- lib/windrv/src/filter/volume_thread.rs: process_write on a volume that is ready.
use mathlib.Core.Path.{subst}
use volumecrypt_kit.Prelude.{
  ℕ, ◌+◌, ◌-◌, ◌*◌, ◌≤◌, ◌<◌, ◌≡◌, ◌⊎◌, inl, inr, refl, sym, ap, ◌∙◌, Option, List, [], arith, ltb,
  lt→ltb, leb, if◌then◌else◌, true, false, ◌&&◌, length, take, drop, All,
}
use native.Mathlib.Decide.{dec_lt}
use volumecrypt_kit.Prelude.Bytes.{
  IsByte, IsSector, gather, length-gather, All-gather, slice-gather,
}
use volumecrypt_kit.Error.{VckResult, ok, err}
use volumecrypt_kit.Device.{SectorIo, IsDevice}
use volumecrypt_kit.Cipher.{VolumeCipher, IsCipher}
use volumecrypt_kit.Pipeline.{encrypt_write, encrypt_write-gather}
use volumecrypt_kit.Plain.{plain, plain_cong, plain-below, plain-above}
use volumecrypt_kit.Volume.{AttachedVolume}
use volumecrypt_kit.Irp.{
  Request, Completion, completed, success, unsuccessful, finish_write, process_write, transform,
}
use volumecrypt_kit.Irp.Transfer.{IsReady, HoldsAtMost, transform_lem, transform_holds}
use volumecrypt_kit.Irp.Read.{Names, io_len_lem, with_buffer_lem}

module _ {W : Type 0} {io : SectorIo W} {sector : W → ℕ → List ℕ} (dev : IsDevice io sector)
    {c : VolumeCipher} (ci : IsCipher c io.sector_size) (v : AttachedVolume)
    (ready : IsReady c io.sector_size v) (burst : Option VolumeCipher) (holds : HoldsAtMost c burst)
    (q : Request) (rel n : ℕ) (names : Names v q rel n) (w : W) (new : ℕ → List ℕ)
    (new_whole : (i : ℕ) → IsSector io.sector_size (new i))
    (content : take (n * io.sector_size) q.content ≡ gather n new) where
  open v.encryption use {offset_sector as offset}
  open v.encryption.encrypted_offset use {sector as boundary, total_sectors as total}

  -- What goes to the disk at sector `rel + i`.
  abbrev stored : ℕ → List ℕ
  stored i = if ltb (rel + i) boundary then c.encrypt_sector (rel + i) (new i) else new i

  stored_whole : (i : ℕ) → IsSector io.sector_size (stored i)
  stored_whole i = elim (dec_lt (rel + i) boundary) [
    | yes lt ↦ rw (lt→ltb _ _ lt) (ci.encrypt_whole (rel + i) (new i) (new_whole i))
    | no ge ↦ let e : ltb (rel + i) boundary ≡ false = ground arith in rw e (new_whole i)
  ]

  -- The plaintext of sector `r` after the write.
  abbrev expected : ℕ → List ℕ
  expected r =
      if leb rel r && ltb r (rel + n) then new (r - rel) else plain c offset boundary (sector w) r

  pub record WriteOutcome (r : Completion × (Option VolumeCipher × W)) : Type 0 where
    pub reply :
        ((r.0 ≡ completed success (n * io.sector_size) [])
          × ((k : ℕ) → plain c offset boundary (sector r.1.1) k ≡ expected k))
        ⊎ (r.0 ≡ completed unsuccessful 0 [])
    pub outside_same :
        (l : ℕ) → (l < offset + rel) ⊎ (offset + rel + n ≤ l) → sector r.1.1 l ≡ sector w l
    pub burst_holds : HoldsAtMost c r.1.0

  module _ (w' : W) (sets : (i : ℕ) → i < n → sector w' (offset + rel + i) ≡ stored i)
      (frame : (l : ℕ)
        → (l < offset + rel) ⊎ (offset + rel + n ≤ l)
        → sector w' l ≡ sector w l) where
    inside : (i : ℕ) → i < n → plain c offset boundary (sector w') (rel + i) ≡ new i
    inside i lt = elim (dec_lt (rel + i) boundary) [
      | yes below ↦
          plain-below c offset boundary (sector w') (rel + i) below
          ∙ ap (λ (l : ℕ). c.decrypt_sector (rel + i) (sector w' l))
              (let e : offset + (rel + i) ≡ offset + rel + i = omega arith in e)
          ∙ ap (c.decrypt_sector (rel + i)) (sets i lt)
          ∙ rw (lt→ltb _ _ below) (ci.decrypt-encrypt (rel + i) (new i) (new_whole i))
      | no above ↦
          plain-above c offset boundary (sector w') (rel + i) (omega arith)
          ∙ ap (sector w') (let e : offset + (rel + i) ≡ offset + rel + i = omega arith in e)
          ∙ sets i lt
          ∙ (let e : ltb (rel + i) boundary ≡ false = ground arith in rw e)
    ]

    written-expected : (k : ℕ) → plain c offset boundary (sector w') k ≡ expected k
    written-expected k = elim (dec_lt k rel) [
      | yes before ↦
          let t : (leb rel k && ltb k (rel + n)) ≡ false = ground arith in
          rw t (plain_cong c offset boundary (sector w) (sector w') k (frame _ (inl (omega arith))))
      | no ge ↦ elim (dec_lt k (rel + n)) [
        | yes lt ↦
            let t : (leb rel k && ltb k (rel + n)) ≡ true = ground arith in
            let e : rel + (k - rel) ≡ k = omega arith in
            rw t (
              subst (λ (m : ℕ). plain c offset boundary (sector w') m ≡ new (k - rel)) e
                (inside (k - rel) (omega arith)))
        | no after ↦
            let t : (leb rel k && ltb k (rel + n)) ≡ false = ground arith in
            rw t
              (plain_cong c offset boundary (sector w) (sector w') k (frame _ (inr (omega arith))))
      ]
    ]

  module _ (buf : List ℕ) (is_buf : buf ≡ gather n stored) where
    length-buf : length buf ≡ n * io.sector_size
    length-buf = ap length is_buf ∙ length-gather io.sector_size n stored stored_whole

    buf_sets :
        (io.write_sectors (offset + rel) buf w).0 ≡ ok tt
        → (i : ℕ) → i < n
        → sector (io.write_sectors (offset + rel) buf w).1 (offset + rel + i) ≡ stored i
    buf_sets wrote i lt =
        dev.write_sets (offset + rel) n buf w i length-buf
          (subst (All IsByte) (sym is_buf) (All-gather io.sector_size n stored stored_whole)) wrote
          lt
        ∙ ap (λ b. take io.sector_size (drop (i * io.sector_size) b)) is_buf
        ∙ slice-gather io.sector_size n i stored stored_whole lt

    buf_frame :
        (l : ℕ)
        → (l < offset + rel) ⊎ (offset + rel + n ≤ l)
        → sector (io.write_sectors (offset + rel) buf w).1 l ≡ sector w l
    buf_frame l out = dev.write_frame (offset + rel) n buf w l length-buf out

    finish_write_lem :
        (burst' : Option VolumeCipher) (r : VckResult (Unit {0})) (w' : W)
        → ((i : ℕ) → r ≡ ok tt → i < n → sector w' (offset + rel + i) ≡ stored i)
        → ((l : ℕ) → (l < offset + rel) ⊎ (offset + rel + n ≤ l) → sector w' l ≡ sector w l)
        → HoldsAtMost c burst'
        → WriteOutcome (finish_write io v q burst' r w')
    unfolding finish_write
    finish_write_lem burst' (err x) w' sets frame holds' = record {
      reply = inr refl;
      outside_same = frame;
      burst_holds = holds';
    }
    finish_write_lem burst' (ok _) w' sets frame holds' = record {
      reply = inl (
        ap (λ (m : ℕ). completed success m [])
            (io_len_lem dev ci v ready burst holds q rel n names w),
        written-expected w' (λ i lt. sets i refl lt) frame,
      );
      outside_same = frame;
      burst_holds = holds';
    }

  shown :
      (transform encrypt_write burst v (offset + rel) (take (n * io.sector_size) q.content)).0
      ≡ gather n stored
  shown = rw content (
      transform_lem c io.sector_size v ready burst holds encrypt_write c.encrypt_sector rel n new
        names.inside
        (encrypt_write-gather c io.sector_size ci rel boundary n new new_whole dev.size_pos))

  -- On a volume whose parts agree, a WRITE of whole sectors that starts in the data region and for
  -- which buffers are there succeeds and replaces the plaintext of the sectors that it names and of
  -- no others, or returns STATUS_UNSUCCESSFUL; on both paths the other sectors of the disk are as
  -- they were and the burst holds no other cipher than the volume's.
  pub process_write_lem : WriteOutcome (process_write io v burst q w)
  unfolding process_write
  process_write_lem =
      let out =
        transform encrypt_write burst v (offset + rel) (take (n * io.sector_size) q.content) in
      rw
        (
          with_buffer_lem dev ci v ready burst holds q rel n names w _,
          names.begins,
          io_len_lem dev ci v ready burst holds q rel n names w,
        )
        (finish_write_lem out.0 shown out.1 (io.write_sectors (offset + rel) out.0 w).0
          (io.write_sectors (offset + rel) out.0 w).1
          (λ i wrote lt. buf_sets out.0 shown wrote i lt) (buf_frame out.0 shown)
          (transform_holds c io.sector_size v ready burst holds encrypt_write rel
            (take (n * io.sector_size) q.content) names.inside))
