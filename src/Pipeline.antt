-- ===== src/Pipeline.antt =====
-- lib/windrv/src/crypto/pipeline.rs: the part of a buffer below the boundary is decrypted or
-- encrypted, the rest is left as it is.
use volumecrypt_kit.Prelude.{
  ℕ, zero, suc, ◌+◌, ◌-◌, ◌*◌, ◌/◌, ◌≤◌, ◌<◌, min, ◌≡◌, refl, inl, inr, Bool-cases, ap, ◌∙◌, List,
  ◌++◌, arith, length, take, drop, ltb, leb, lt→ltb, if◌then◌else◌,
}
use native.Mathlib.Nat.{mul-div_cancel}
use volumecrypt_kit.Prelude.Bytes.{IsSector, gather, length-gather, gather_cong}
use volumecrypt_kit.Prelude.Sectors.{take-gather, drop-gather, gather_first}
use volumecrypt_kit.Cipher.{VolumeCipher, IsCipher}

-- How many of the `total` sectors from `first_rel` on lie below the boundary.
unfoldable pub crypto_count : ℕ → ℕ → ℕ → ℕ
crypto_count first_rel boundary total =
    if leb boundary first_rel then 0 else min (boundary - first_rel) total

-- The cipher's area function on the first `n` sectors, if there are any.
unfoldable pub on_prefix : (List ℕ → ℕ → ℕ → List ℕ) → ℕ → List ℕ → ℕ → ℕ → List ℕ
on_prefix area n buf ss first_rel =
    if ltb 0 n then area (take (n * ss) buf) ss first_rel ++ drop (n * ss) buf else buf

unfoldable pub decrypt_read : VolumeCipher → ℕ → ℕ → List ℕ → ℕ → List ℕ
unfolding crypto_count on_prefix
decrypt_read c first_rel boundary buf ss =
    on_prefix c.decrypt_area (crypto_count first_rel boundary (length buf / ss)) buf ss first_rel

unfoldable pub encrypt_write : VolumeCipher → ℕ → ℕ → List ℕ → ℕ → List ℕ
unfolding crypto_count on_prefix
encrypt_write c first_rel boundary buf ss =
    on_prefix c.encrypt_area (crypto_count first_rel boundary (length buf / ss)) buf ss first_rel

module _ (ss first_rel boundary n : ℕ) (f : ℕ → List ℕ) (whole : (i : ℕ) → IsSector ss (f i))
    (pos : 0 < ss) (area : List ℕ → ℕ → ℕ → List ℕ) (each : ℕ → List ℕ → List ℕ)
    (area_each : (m : ℕ)
      → area (gather m f) ss first_rel ≡ gather m (λ i. each (first_rel + i) (f i))) where
  abbrev below : ℕ → List ℕ
  below i = if ltb (first_rel + i) boundary then each (first_rel + i) (f i) else f i

  crypto_count-le : crypto_count first_rel boundary n ≤ n
  unfolding crypto_count
  crypto_count-le = ground arith

  crypto_count-ltb :
      (i : ℕ) → i < n → ltb i (crypto_count first_rel boundary n) ≡ ltb (first_rel + i) boundary
  unfolding crypto_count
  crypto_count-ltb i lt = ground arith

  on_prefix-gather :
      (k : ℕ)
      → k ≤ n
      → ((i : ℕ) → i < n → ltb i k ≡ ltb (first_rel + i) boundary)
      → on_prefix area k (gather n f) ss first_rel ≡ gather n below
  unfolding on_prefix
  on_prefix-gather zero le same = gather_cong n f below (λ i lt. ground (arith, same i lt))
  on_prefix-gather (suc k) le same = rw (lt→ltb 0 (suc k) (omega arith)) (
      ap (λ b. area b ss first_rel ++ drop (suc k * ss) (gather n f))
        (take-gather ss n (suc k) f whole le)
      ∙ ap (λ b. area (gather (suc k) f) ss first_rel ++ b) (drop-gather ss n (suc k) f whole le)
      ∙ ap (λ b. b ++ gather (n - suc k) (λ i. f (suc k + i))) (area_each (suc k))
      ∙ gather_first n (suc k) f (λ i. each (first_rel + i) (f i)) le
      ∙ gather_cong n (λ i. if ltb i (suc k) then each (first_rel + i) (f i) else f i) below
          (λ i lt. rw (same i lt)))

  -- Sector `i` of the buffer is transformed exactly when it lies below the boundary.
  on_prefix_lem :
      on_prefix area
        (crypto_count first_rel boundary (length (gather n f) / ss))
        (gather n f)
        ss
        first_rel
      ≡ gather n below
  on_prefix_lem =
      rw (length-gather ss n f whole, mul-div_cancel n pos)
        (on_prefix-gather (crypto_count first_rel boundary n) crypto_count-le crypto_count-ltb)

module _ (c : VolumeCipher) (ss : ℕ) (ci : IsCipher c ss) (first_rel boundary n : ℕ)
    (f : ℕ → List ℕ) (whole : (i : ℕ) → IsSector ss (f i)) (pos : 0 < ss) where
  -- Of a buffer of whole sectors, the pipeline decrypts exactly the sectors below the boundary,
  -- each at its own number, and leaves the others as they are.
  pub decrypt_read-gather :
      decrypt_read c first_rel boundary (gather n f) ss
      ≡ gather n (λ i.
        if ltb (first_rel + i) boundary then c.decrypt_sector (first_rel + i) (f i) else f i)
  unfolding decrypt_read
  decrypt_read-gather =
      on_prefix_lem ss first_rel boundary n f whole pos c.decrypt_area c.decrypt_sector
        (λ m. ci.decrypt_area_each m first_rel f whole)

  -- Of a buffer of whole sectors, the pipeline encrypts exactly the sectors below the boundary,
  -- each at its own number, and leaves the others as they are.
  pub encrypt_write-gather :
      encrypt_write c first_rel boundary (gather n f) ss
      ≡ gather n (λ i.
        if ltb (first_rel + i) boundary then c.encrypt_sector (first_rel + i) (f i) else f i)
  unfolding encrypt_write
  encrypt_write-gather =
      on_prefix_lem ss first_rel boundary n f whole pos c.encrypt_area c.encrypt_sector
        (λ m. ci.encrypt_area_each m first_rel f whole)

-- A buffer that is encrypted on its way down and decrypted on its way up.
module _ (c : VolumeCipher) (ss : ℕ) (ci : IsCipher c ss) (first_rel boundary n : ℕ)
    (f : ℕ → List ℕ) (whole : (i : ℕ) → IsSector ss (f i)) (pos : 0 < ss) where
  abbrev below_encrypted : ℕ → List ℕ
  below_encrypted i =
      if ltb (first_rel + i) boundary then c.encrypt_sector (first_rel + i) (f i) else f i

  below_encrypted-IsSector : (i : ℕ) → IsSector ss (below_encrypted i)
  below_encrypted-IsSector i = elim (Bool-cases (ltb (first_rel + i) boundary)) [
    | inl below ↦ rw below (ci.encrypt_whole (first_rel + i) (f i) (whole i))
    | inr above ↦ rw above (whole i)
  ]

  restored :
      (i : ℕ)
      → (if ltb (first_rel + i) boundary
          then c.decrypt_sector (first_rel + i) (below_encrypted i)
          else below_encrypted i)
        ≡ f i
  restored i = elim (Bool-cases (ltb (first_rel + i) boundary)) [
    | inl below ↦ rw below (ci.decrypt-encrypt (first_rel + i) (f i) (whole i))
    | inr above ↦ rw above refl
  ]

  -- Of a buffer of whole sectors, the pipeline encrypts, on a write, and decrypts, on a read,
  -- exactly the sectors below the boundary, each at its own number, and leaves the others as they
  -- are; and decrypting what it has encrypted gives the buffer back.
  pub decrypt_read-encrypt_write :
      (encrypt_write c first_rel boundary (gather n f) ss
        ≡ gather n (λ i.
          if ltb (first_rel + i) boundary then c.encrypt_sector (first_rel + i) (f i) else f i))
      × (decrypt_read c first_rel boundary (gather n f) ss
          ≡ gather n (λ i.
            if ltb (first_rel + i) boundary then c.decrypt_sector (first_rel + i) (f i) else f i))
      × (decrypt_read c first_rel boundary (encrypt_write c first_rel boundary (gather n f) ss) ss
          ≡ gather n f)
  decrypt_read-encrypt_write =
      let down = encrypt_write-gather c ss ci first_rel boundary n f whole pos in
      (
        down,
        decrypt_read-gather c ss ci first_rel boundary n f whole pos,
        ap (λ buf. decrypt_read c first_rel boundary buf ss) down
            ∙ decrypt_read-gather c ss ci first_rel boundary n below_encrypted
                below_encrypted-IsSector pos
            ∙ gather_cong n
                (λ i.
                  if ltb (first_rel + i) boundary
                  then c.decrypt_sector (first_rel + i) (below_encrypted i)
                  else below_encrypted i)
                f (λ i _. restored i),
      )
