-- ===== src/Irp/Transfer.antt =====
-- lib/windrv/src/filter/volume_thread.rs: the transfer of a request on a volume that is ready.
use volumecrypt_kit.Prelude.{
  ℕ, ◌+◌, ◌≤◌, ◌<◌, ◌≡◌, ◌⊎◌, inr, refl, ap, ◌∙◌, Option, none, some, List, arith, ltb,
  if◌then◌else◌,
}
use native.Mathlib.Decide.{dec_lt}
use volumecrypt_kit.Prelude.Bytes.{gather, gather_cong}
use volumecrypt_kit.Cipher.{VolumeCipher}
use volumecrypt_kit.Engine.Steps.{IsValid}
use volumecrypt_kit.Volume.{AttachedVolume, offset_sector, data_sectors, burst_cipher}
use volumecrypt_kit.Irp.{crypto_range, get_pipeline, transform}

-- A volume whose key is `c`: its configuration and its engine agree, and the snapshot of the
-- boundary is the engine's boundary.
pub record IsReady (c : VolumeCipher) (ss : ℕ) (v : AttachedVolume) : Type 0 where
  pub keyed : burst_cipher v ≡ some c
  pub sizes : v.sector_size ≡ ss
  pub same_offset : offset_sector v ≡ v.encryption.offset_sector
  pub same_total : data_sectors v ≡ v.encryption.encrypted_offset.total_sectors
  pub synced : v.encrypted_boundary ≡ v.encryption.encrypted_offset.sector
  pub engine : IsValid v.encryption

-- The burst holds no cipher yet, or the volume's.
abbrev pub HoldsAtMost : VolumeCipher → Option VolumeCipher → Type 0
HoldsAtMost c burst = (burst ≡ none) ⊎ (burst ≡ some c)

module _ (c : VolumeCipher) (ss : ℕ) (v : AttachedVolume) (ready : IsReady c ss v)
    (burst : Option VolumeCipher) (holds : HoldsAtMost c burst) where
  open v.encryption use {offset_sector as offset}
  open v.encryption.encrypted_offset use {sector as boundary, total_sectors as total}

  get_pipeline_lem : get_pipeline burst v ≡ some c
  unfolding get_pipeline
  get_pipeline_lem = ground (arith, ready.keyed)

  crypto_range_below :
      (rel : ℕ)
      → rel < total
      → rel < boundary
      → crypto_range v (offset + rel) ≡ some (rel, boundary)
  unfolding crypto_range
  crypto_range_below rel lt below =
      ground (arith, ready.same_offset, ready.same_total, ready.synced)

  crypto_range_above :
      (rel : ℕ) → rel < total → boundary ≤ rel → crypto_range v (offset + rel) ≡ none
  unfolding crypto_range
  crypto_range_above rel lt above =
      ground (arith, ready.same_offset, ready.same_total, ready.synced)

  transform_below :
      (run : VolumeCipher → ℕ → ℕ → List ℕ → ℕ → List ℕ) (rel : ℕ) (buf : List ℕ)
      → rel < total
      → rel < boundary
      → transform run burst v (offset + rel) buf ≡ (run c rel boundary buf v.sector_size, some c)
  unfolding transform
  transform_below run rel buf lt below =
      ground (arith, crypto_range_below rel lt below, get_pipeline_lem)

  transform_above :
      (run : VolumeCipher → ℕ → ℕ → List ℕ → ℕ → List ℕ) (rel : ℕ) (buf : List ℕ)
      → rel < total
      → boundary ≤ rel
      → transform run burst v (offset + rel) buf ≡ (buf, burst)
  unfolding transform
  transform_above run rel buf lt above = rw (crypto_range_above rel lt above, transform)

  -- Sector `rel + i` of the buffer is transformed exactly when it lies below the boundary.
  pub transform_lem :
      (run : VolumeCipher → ℕ → ℕ → List ℕ → ℕ → List ℕ) (each : ℕ → List ℕ → List ℕ) (rel n : ℕ)
      (f : ℕ → List ℕ)
      → rel < total
      → run c rel boundary (gather n f) ss
        ≡ gather n (λ i. if ltb (rel + i) boundary then each (rel + i) (f i) else f i)
      → (transform run burst v (offset + rel) (gather n f)).0
        ≡ gather n (λ i. if ltb (rel + i) boundary then each (rel + i) (f i) else f i)
  transform_lem run each rel n f lt runs = elim (dec_lt rel boundary) [
    | yes below ↦
        ap (λ (p : List ℕ × Option VolumeCipher). p.0)
          (transform_below run rel (gather n f) lt below)
        ∙ ap (run c rel boundary (gather n f)) ready.sizes
        ∙ runs
    | no above ↦
        ap (λ (p : List ℕ × Option VolumeCipher). p.0)
          (transform_above run rel (gather n f) lt (omega arith))
        ∙ gather_cong n f (λ i. if ltb (rel + i) boundary then each (rel + i) (f i) else f i)
            (λ i _. ground arith)
  ]

  pub transform_holds :
      (run : VolumeCipher → ℕ → ℕ → List ℕ → ℕ → List ℕ) (rel : ℕ) (buf : List ℕ)
      → rel < total
      → HoldsAtMost c (transform run burst v (offset + rel) buf).1
  transform_holds run rel buf lt = elim (dec_lt rel boundary) [
    | yes below ↦ rw (transform_below run rel buf lt below) (inr refl)
    | no above ↦ rw (transform_above run rel buf lt (omega arith)) holds
  ]
