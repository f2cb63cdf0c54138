-- ===== src/Plain.antt =====
-- The specification of transparent encryption: the plaintext that a volume stands for. Sectors of
-- the data region below the boundary are ciphertext on the disk, the others are plaintext.
use volumecrypt_kit.Prelude.{
  ℕ, ◌+◌, ◌-◌, ◌≤◌, ◌<◌, ◌≡◌, ◌⊎◌, inl, inr, sym, ap, ◌∙◌, List, arith, ltb, if◌then◌else◌,
}
use volumecrypt_kit.Prelude.Bytes.{IsSector}
use volumecrypt_kit.Cipher.{VolumeCipher, IsCipher}
use native.Mathlib.Decide.{dec_lt}

-- `disk` is what the device holds at each LBA; `rel` counts from the start of the data region.
unfoldable pub plain : VolumeCipher → ℕ → ℕ → (ℕ → List ℕ) → ℕ → List ℕ
plain c offset boundary disk rel =
    if ltb rel boundary then c.decrypt_sector rel (disk (offset + rel)) else disk (offset + rel)

pub plain-below :
    (c : VolumeCipher) (offset boundary : ℕ) (disk : ℕ → List ℕ) (rel : ℕ)
    → rel < boundary
    → plain c offset boundary disk rel ≡ c.decrypt_sector rel (disk (offset + rel))
unfolding plain
plain-below c offset boundary disk rel h = ground arith

pub plain-above :
    (c : VolumeCipher) (offset boundary : ℕ) (disk : ℕ → List ℕ) (rel : ℕ)
    → boundary ≤ rel
    → plain c offset boundary disk rel ≡ disk (offset + rel)
unfolding plain
plain-above c offset boundary disk rel h = ground arith

pub plain_at :
    (c : VolumeCipher) (offset boundary : ℕ) (disk : ℕ → List ℕ) (rel l : ℕ)
    → l ≡ offset + rel
    → (if ltb rel boundary then c.decrypt_sector rel (disk l) else disk l)
      ≡ plain c offset boundary disk rel
unfolding plain
plain_at c offset boundary disk rel l e =
    ap (λ (k : ℕ). if ltb rel boundary then c.decrypt_sector rel (disk k) else disk k) e

-- Only what the disk holds at that sector counts.
pub plain_cong :
    (c : VolumeCipher) (offset boundary : ℕ) (disk disk' : ℕ → List ℕ) (rel : ℕ)
    → disk' (offset + rel) ≡ disk (offset + rel)
    → plain c offset boundary disk' rel ≡ plain c offset boundary disk rel
unfolding plain
plain_cong c offset boundary disk disk' rel h = rw h

module _ (c : VolumeCipher) (ss : ℕ) (ci : IsCipher c ss) (offset start count : ℕ)
    (disk disk' : ℕ → List ℕ) (whole : (l : ℕ) → IsSector ss (disk l))
    (frame : (l : ℕ) → (l < offset + start) ⊎ (offset + start + count ≤ l) → disk' l ≡ disk l) where
  -- Sector `start + (rel - start)` is sector `rel`.
  at_batch :
      (h : ℕ → List ℕ → List ℕ)
      → ((i : ℕ)
          → i < count
          → disk' (offset + start + i) ≡ h (start + i) (disk (offset + start + i)))
      → (rel : ℕ) → start ≤ rel
      → rel < start + count
      → disk' (offset + rel) ≡ h rel (disk (offset + rel))
  at_batch h sets rel lo hi =
      let e : offset + start + (rel - start) ≡ offset + rel = omega arith in
      let d : start + (rel - start) ≡ rel = omega arith in
      rw (e, d) at (sets (rel - start) (omega arith))

  -- Encrypting the batch above the boundary, and moving the boundary over it.
  pub plain_advance :
      ((i : ℕ)
        → i < count
        → disk' (offset + start + i) ≡ c.encrypt_sector (start + i) (disk (offset + start + i)))
      → (rel : ℕ) → plain c offset (start + count) disk' rel ≡ plain c offset start disk rel
  plain_advance sets rel = elim (dec_lt rel start) [
    | yes lt ↦
        plain-below c offset (start + count) disk' rel (omega arith)
        ∙ ap (c.decrypt_sector rel) (frame (offset + rel) (inl (omega arith)))
        ∙ sym (plain-below c offset start disk rel lt)
    | no ge ↦ elim (dec_lt rel (start + count)) [
      | yes lt ↦
          plain-below c offset (start + count) disk' rel lt
          ∙ ap (c.decrypt_sector rel) (at_batch c.encrypt_sector sets rel (omega arith) lt)
          ∙ ci.decrypt-encrypt rel (disk (offset + rel)) (whole (offset + rel))
          ∙ sym (plain-above c offset start disk rel (omega arith))
      | no ge' ↦
          plain-above c offset (start + count) disk' rel (omega arith)
          ∙ frame (offset + rel) (inr (omega arith))
          ∙ sym (plain-above c offset start disk rel (omega arith))
    ]
  ]

  -- Decrypting the batch below the boundary, and moving the boundary back over it.
  pub plain_retreat :
      ((i : ℕ)
        → i < count
        → disk' (offset + start + i) ≡ c.decrypt_sector (start + i) (disk (offset + start + i)))
      → (rel : ℕ) → plain c offset start disk' rel ≡ plain c offset (start + count) disk rel
  plain_retreat sets rel = elim (dec_lt rel start) [
    | yes lt ↦
        plain-below c offset start disk' rel lt
        ∙ ap (c.decrypt_sector rel) (frame (offset + rel) (inl (omega arith)))
        ∙ sym (plain-below c offset (start + count) disk rel (omega arith))
    | no ge ↦ elim (dec_lt rel (start + count)) [
      | yes lt ↦
          plain-above c offset start disk' rel (omega arith)
          ∙ at_batch c.decrypt_sector sets rel (omega arith) lt
          ∙ sym (plain-below c offset (start + count) disk rel lt)
      | no ge' ↦
          plain-above c offset start disk' rel (omega arith)
          ∙ frame (offset + rel) (inr (omega arith))
          ∙ sym (plain-above c offset (start + count) disk rel (omega arith))
    ]
  ]
