-- ===== src/Xts/Area.antt =====
-- lib/common/src/xts.rs: `XtsVolumeCipher` as the cipher of the sweep and the requests.
use volumecrypt_kit.Prelude.{
  ℕ, zero, suc, ◌+◌, ◌/◌, ◌%◌, ◌^◌, ◌<◌, ◌≡◌, refl, sym, ap, ◌∙◌, List, ◌++◌, arith, length,
}
use mathlib.Core.Path.{ap₂}
use volumecrypt_kit.Prelude.Bytes.{gather, gather_cong, tabulate, chunks-gather}
use volumecrypt_kit.Cipher.{IsCipher}
use volumecrypt_kit.Xts.{
  BlockCipher, IsBlockCipher, sector_inner, first_tweak, encrypt_sector_inner, over_sectors,
  encrypt_area, batch_loop, to_le_bytes, decrypt_sector_inner, decrypt_area, xts_cipher,
}
use volumecrypt_kit.Xts.Inverse.{sector_inner-whole, sector_inner-inverse}

over_sectors-tabulate :
    (each : ℕ → List ℕ → List ℕ)
    → ((r : ℕ) (s : List ℕ) → each (r % 2 ^ 64) s ≡ each r s)
    → (n first si : ℕ) (f : ℕ → List ℕ)
    → over_sectors each first si (tabulate n f) ≡ gather n (λ i. each (first + (si + i)) (f i))
unfolding over_sectors
over_sectors-tabulate each same zero first si f = refl
over_sectors-tabulate each same (suc n) first si f =
    let e : first + (si + 0) ≡ first + si = omega arith in
    ap₂ (λ (a b : List ℕ). a ++ b) (same (first + si) (f 0) ∙ ap (λ (r : ℕ). each r (f 0)) (sym e))
      (over_sectors-tabulate each same n first (suc si) (λ i. f (suc i))
        ∙ gather_cong n _ _ (λ i lt.
          ap (λ (r : ℕ). each r (f (suc i)))
            (let d : first + (suc si + i) ≡ first + (si + suc i) = omega arith in d)))

sector_inner-mod :
    (f : List ℕ → List ℕ) (b2 : BlockCipher) (r : ℕ) (s : List ℕ)
    → sector_inner f b2 (r % 2 ^ 64) s ≡ sector_inner f b2 r s
unfolding sector_inner first_tweak
sector_inner-mod f b2 r s =
    let e : r % 2 ^ 64 % 2 ^ 64 ≡ r % 2 ^ 64 = omega arith in
    ap
      (λ (k : ℕ).
        batch_loop f (length s / 16) (length s / 16) (b2.encrypt_block (to_le_bytes 16 k)) s)
      e

module _ (b1 b2 : BlockCipher) (ib1 : IsBlockCipher b1) (ib2 : IsBlockCipher b2) (ss : ℕ)
    (pos : 0 < ss) where
  area_each :
      (g : List ℕ → List ℕ) (n first : ℕ) (f : ℕ → List ℕ)
      → over_sectors (sector_inner g b2) first 0 (tabulate n f)
        ≡ gather n (λ i. sector_inner g b2 (first + i) (f i))
  area_each g n first f =
      over_sectors-tabulate (sector_inner g b2) (sector_inner-mod g b2) n first 0 f
      ∙ gather_cong n _ _ (λ i lt.
        ap (λ (r : ℕ). sector_inner g b2 r (f i))
          (let d : first + (0 + i) ≡ first + i = omega arith in d))

  -- With an invertible block cipher, `XtsVolumeCipher` maps whole sectors of any positive size to
  -- whole sectors, encrypting and decrypting a sector undo each other, and an area is transformed
  -- sector by sector, each at its own number.
  pub xts_cipher-IsCipher : IsCipher (xts_cipher b1 b2) ss
  unfolding encrypt_area decrypt_area encrypt_sector_inner decrypt_sector_inner
  xts_cipher-IsCipher = record {
    encrypt_whole =
        λ r s w. sector_inner-whole b2 ib2 r b1.encrypt_block ib1.encrypt_block_whole ss s w;
    decrypt_whole =
        λ r s w. sector_inner-whole b2 ib2 r b1.decrypt_block ib1.decrypt_block_whole ss s w;
    decrypt-encrypt = λ r s w.
        sector_inner-inverse b2 ib2 r b1.encrypt_block ib1.encrypt_block_whole b1.decrypt_block
          ib1.decrypt_block-encrypt_block s w.1;
    encrypt-decrypt = λ r s w.
        sector_inner-inverse b2 ib2 r b1.decrypt_block ib1.decrypt_block_whole b1.encrypt_block
          ib1.encrypt_block-decrypt_block s w.1;
    encrypt_area_each = λ n first f h.
        ap (over_sectors (sector_inner b1.encrypt_block b2) first 0) (chunks-gather ss n f h pos)
        ∙ area_each b1.encrypt_block n first f;
    decrypt_area_each = λ n first f h.
        ap (over_sectors (sector_inner b1.decrypt_block b2) first 0) (chunks-gather ss n f h pos)
        ∙ area_each b1.decrypt_block n first f;
  }
