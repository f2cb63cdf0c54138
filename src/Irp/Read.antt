-- ===== src/Irp/Read.antt =====
-- lib/windrv/src/filter/volume_thread.rs: process_read on a volume that is ready.
use volumecrypt_kit.Prelude.{
  ℕ, ◌+◌, ◌*◌, ◌/◌, ◌<◌, ◌≡◌, ◌⊎◌, inl, inr, refl, ◌∙◌, Option, List, [], arith, true,
}
use mathlib.Core.Path.{ap₂}
use volumecrypt_kit.Prelude.Bytes.{gather, gather_cong}
use volumecrypt_kit.Error.{VckResult, ok, err}
use volumecrypt_kit.Device.{SectorIo, IsDevice}
use volumecrypt_kit.Cipher.{VolumeCipher, IsCipher}
use volumecrypt_kit.Pipeline.{decrypt_read, decrypt_read-gather}
use volumecrypt_kit.Plain.{plain, plain_at}
use volumecrypt_kit.Volume.{AttachedVolume}
use volumecrypt_kit.Irp.{
  Request, Completion, completed, success, unsuccessful, io_len, first_lba, with_buffer,
  finish_read, process_read, transform,
}
use volumecrypt_kit.Irp.Transfer.{IsReady, HoldsAtMost, transform_lem, transform_holds}

-- The request is for `n` sectors from sector `rel` of the data region on, and the kernel could map
-- and allocate the buffers.
pub record Names (v : AttachedVolume) (q : Request) (rel n : ℕ) : Type 0 where
  pub begins : first_lba v q ≡ v.encryption.offset_sector + rel
  pub inside : rel < v.encryption.encrypted_offset.total_sectors
  pub sectors : q.byte_length / v.sector_size ≡ n
  pub some_sectors : 0 < n
  pub is_mapped : q.mapped ≡ true
  pub is_allocated : q.allocated ≡ true

module _ {W : Type 0} {io : SectorIo W} {sector : W → ℕ → List ℕ} (dev : IsDevice io sector)
    {c : VolumeCipher} (ci : IsCipher c io.sector_size) (v : AttachedVolume)
    (ready : IsReady c io.sector_size v) (burst : Option VolumeCipher) (holds : HoldsAtMost c burst)
    (q : Request) (rel n : ℕ) (names : Names v q rel n) (w : W) where
  open v.encryption use {offset_sector as offset}
  open v.encryption.encrypted_offset use {sector as boundary, total_sectors as total}

  pub io_len_lem : io_len v q ≡ n * io.sector_size
  unfolding io_len
  io_len_lem = rw (names.sectors, ready.sizes)

  -- No early return is taken.
  pub with_buffer_lem :
      (body : W → Completion × (Option VolumeCipher × W)) → with_buffer io v burst q w body ≡ body w
  unfolding with_buffer
  with_buffer_lem body = ground (
    arith, names.sectors, names.some_sectors, names.is_mapped, names.is_allocated, dev.size_pos,
    ready.sizes,
  )

  abbrev plaintext : List ℕ
  plaintext = gather n (λ i. plain c offset boundary (sector w) (rel + i))

  -- What the request returns, what it leaves on the disk and in the burst.
  pub record ReadOutcome (r : Completion × (Option VolumeCipher × W)) : Type 0 where
    pub reply :
        (r.0 ≡ completed success (n * io.sector_size) plaintext)
        ⊎ (r.0 ≡ completed unsuccessful 0 [])
    pub disk_same : (l : ℕ) → sector r.1.1 l ≡ sector w l
    pub burst_holds : HoldsAtMost c r.1.0

  finish_read_lem :
      (r : VckResult (List ℕ)) (w' : W)
      → ((buf : List ℕ) → r ≡ ok buf → buf ≡ gather n (λ i. sector w (offset + rel + i)))
      → ((l : ℕ) → sector w' l ≡ sector w l)
      → ReadOutcome (finish_read io v q burst r w')
  unfolding finish_read
  finish_read_lem (err x) w' gives same = record {
    reply = inr refl;
    disk_same = same;
    burst_holds = holds;
  }
  finish_read_lem (ok buf) w' gives same = record {
    reply = inl (ap₂ (completed success) io_len_lem shown);
    disk_same = same;
    burst_holds =
        rw names.begins
          (transform_holds c io.sector_size v ready burst holds decrypt_read rel buf names.inside);
  }
    where
      disk : ℕ → List ℕ
      disk i = sector w (offset + rel + i)

      shown : (transform decrypt_read burst v (first_lba v q) buf).0 ≡ plaintext
      shown =
          rw (names.begins, gives buf refl)
            (transform_lem c io.sector_size v ready burst holds decrypt_read c.decrypt_sector rel n
                disk names.inside
                (decrypt_read-gather c io.sector_size ci rel boundary n disk
                  (λ i. dev.whole w (offset + rel + i)) dev.size_pos)
              ∙ gather_cong n _ (λ i. plain c offset boundary (sector w) (rel + i))
                  (λ i _.
                    plain_at c offset boundary (sector w) (rel + i) (offset + rel + i)
                      (omega arith)))

  -- On a volume whose parts agree, a READ of whole sectors that starts in the data region and for
  -- which buffers are there returns the plaintext of its sectors, or STATUS_UNSUCCESSFUL; the disk
  -- is as it was and the burst holds no other cipher than the volume's.
  pub process_read_lem : ReadOutcome (process_read io v burst q w)
  unfolding process_read
  process_read_lem =
      rw (with_buffer_lem _, names.begins, io_len_lem)
        (finish_read_lem (io.read_sectors (offset + rel) (n * io.sector_size) w).0
          (io.read_sectors (offset + rel) (n * io.sector_size) w).1
          (λ buf r. dev.read_gives (offset + rel) n w buf r)
          (λ l. dev.read_keeps (offset + rel) (n * io.sector_size) w l))
