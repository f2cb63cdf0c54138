-- ===== src/Cipher.antt =====
-- `VolumeCipher` of lib/common/src/types.rs, as an interface, and the laws of a cipher that acts on
-- whole sectors.
use volumecrypt_kit.Prelude.{ℕ, ◌+◌, ◌≡◌, List, Option}
use volumecrypt_kit.Prelude.Bytes.{IsSector, gather}

pub record VolumeCipher : Type 0 where
  pub encrypt_sector : ℕ → List ℕ → List ℕ
  pub decrypt_sector : ℕ → List ℕ → List ℕ
  -- buffer, sector size, first sector
  pub encrypt_area : List ℕ → ℕ → ℕ → List ℕ
  pub decrypt_area : List ℕ → ℕ → ℕ → List ℕ

pub record IsCipher (c : VolumeCipher) (ss : ℕ) : Type 0 where
  pub encrypt_whole : (r : ℕ) (s : List ℕ) → IsSector ss s → IsSector ss (c.encrypt_sector r s)
  pub decrypt_whole : (r : ℕ) (s : List ℕ) → IsSector ss s → IsSector ss (c.decrypt_sector r s)
  pub decrypt-encrypt :
      (r : ℕ) (s : List ℕ) → IsSector ss s → c.decrypt_sector r (c.encrypt_sector r s) ≡ s
  pub encrypt-decrypt :
      (r : ℕ) (s : List ℕ) → IsSector ss s → c.encrypt_sector r (c.decrypt_sector r s) ≡ s
  pub encrypt_area_each :
      (n first : ℕ) (f : ℕ → List ℕ)
      → ((i : ℕ) → IsSector ss (f i))
      → c.encrypt_area (gather n f) ss first ≡ gather n (λ i. c.encrypt_sector (first + i) (f i))
  pub decrypt_area_each :
      (n first : ℕ) (f : ℕ → List ℕ)
      → ((i : ℕ) → IsSector ss (f i))
      → c.decrypt_area (gather n f) ss first ≡ gather n (λ i. c.decrypt_sector (first + i) (f i))

-- `VolumeCipherSupplier`: a cipher for one burst, or `None` for a volume that has no key yet.
pub record CipherSupplier : Type 0 where
  pub get_cipher : Option VolumeCipher
