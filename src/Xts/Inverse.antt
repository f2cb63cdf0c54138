-- ===== src/Xts/Inverse.antt =====
-- lib/common/src/xts.rs: decrypting what was encrypted.
use volumecrypt_kit.Prelude.{
  ℕ, zero, suc, ◌*◌, ◌/◌, ◌≤◌, ◌≡◌, refl, ap, ◌∙◌, List, arith, take, drop, length, All, All-append,
  All-take, All-drop, length-append, length-take, length-drop, take-append_exact, drop-append_exact,
  take-append-drop,
}
use volumecrypt_kit.Prelude.Bytes.{IsByte, IsSector}
use volumecrypt_kit.Xts.{
  BlockCipher, IsBlockCipher, gf128_mul, one_block, scalar_tail, sector_inner, first_tweak,
}
use volumecrypt_kit.Xts.Batch.{batch_loop-scalar_tail}
use volumecrypt_kit.Xts.Blocks.{
  gf128_mul-whole, one_block-whole, one_block-inverse, to_le_bytes-whole,
}

module _ (f : List ℕ → List ℕ) (f_whole : (s : List ℕ) → IsSector 16 s → IsSector 16 (f s)) where
  first_block :
      (left : ℕ) (rest : List ℕ)
      → suc left * 16 ≤ length rest
      → All IsByte rest
      → IsSector 16 (take 16 rest) × (left * 16 ≤ length (drop 16 rest)) × All IsByte (drop 16 rest)
  first_block left rest le bytes = (
    (omega (arith, length-take 16 rest), All-take IsByte 16 rest bytes),
    omega (arith, length-drop 16 rest),
    All-drop IsByte 16 rest bytes,
  )

  pub scalar_tail-whole :
      (left : ℕ) (tw rest : List ℕ)
      → IsSector 16 tw
      → left * 16 ≤ length rest
      → All IsByte rest
      → (length (scalar_tail f left tw rest) ≡ length rest)
        × All IsByte (scalar_tail f left tw rest)
  unfolding scalar_tail
  scalar_tail-whole zero tw rest wt le bytes = (refl, bytes)
  scalar_tail-whole (suc left) tw rest wt le bytes =
      let (wb, le', bytes') = first_block left rest le bytes in
      let (lo, ao) = one_block-whole f f_whole tw wt (take 16 rest) wb in
      let (l, a) =
        scalar_tail-whole left (gf128_mul tw) (drop 16 rest) (gf128_mul-whole tw) le' bytes' in
      (
        omega (
          arith,
          length-append (one_block f tw (take 16 rest))
              (scalar_tail f left (gf128_mul tw) (drop 16 rest)),
          lo,
          l,
          length-drop 16 rest,
        ),
        All-append IsByte _ _ ao a,
      )

  pub scalar_tail-inverse :
      (g : List ℕ → List ℕ)
      → ((s : List ℕ) → IsSector 16 s → g (f s) ≡ s)
      → (left : ℕ) (tw rest : List ℕ) → IsSector 16 tw
      → left * 16 ≤ length rest
      → All IsByte rest
      → scalar_tail g left tw (scalar_tail f left tw rest) ≡ rest
  unfolding scalar_tail
  scalar_tail-inverse g back zero tw rest wt le bytes = refl
  scalar_tail-inverse g back (suc left) tw rest wt le bytes =
      let (wb, le', bytes') = first_block left rest le bytes in
      let out = one_block f tw (take 16 rest) in
      let behind = scalar_tail f left (gf128_mul tw) (drop 16 rest) in
      let whole = one_block-whole f f_whole tw wt (take 16 rest) wb in
      rw
        (
          take-append_exact 16 out behind whole.0,
          drop-append_exact 16 out behind whole.0,
          one_block-inverse f f_whole tw wt (take 16 rest) wb g back,
          scalar_tail-inverse g back left (gf128_mul tw) (drop 16 rest) (gf128_mul-whole tw) le'
              bytes',
        )
        (take-append-drop 16 rest)

-- A sector is the scalar loop over all its blocks.
pub sector_inner-scalar :
    (f : List ℕ → List ℕ) (b2 : BlockCipher) (r : ℕ) (s : List ℕ)
    → sector_inner f b2 r s ≡ scalar_tail f (length s / 16) (first_tweak b2 r) s
unfolding sector_inner
sector_inner-scalar f b2 r s =
    batch_loop-scalar_tail f (length s / 16) (length s / 16) (first_tweak b2 r) s

module _ (b2 : BlockCipher) (ib2 : IsBlockCipher b2) (r : ℕ) (f : List ℕ → List ℕ)
    (f_whole : (s : List ℕ) → IsSector 16 s → IsSector 16 (f s)) where
  first_tweak-whole : IsSector 16 (first_tweak b2 r)
  unfolding first_tweak
  first_tweak-whole = ib2.encrypt_block_whole _ (to_le_bytes-whole 16 _)

  scalar_whole :
      (s : List ℕ)
      → All IsByte s
      → (length (scalar_tail f (length s / 16) (first_tweak b2 r) s) ≡ length s)
        × All IsByte (scalar_tail f (length s / 16) (first_tweak b2 r) s)
  scalar_whole s a =
      scalar_tail-whole f f_whole (length s / 16) (first_tweak b2 r) s first_tweak-whole
        (omega arith) a

  pub sector_inner-whole :
      (ss : ℕ) (s : List ℕ) → IsSector ss s → IsSector ss (sector_inner f b2 r s)
  sector_inner-whole ss s (l, a) =
      rw (sector_inner-scalar f b2 r s) ((scalar_whole s a).0 ∙ l, (scalar_whole s a).1)

  pub sector_inner-inverse :
      (g : List ℕ → List ℕ)
      → ((s : List ℕ) → IsSector 16 s → g (f s) ≡ s)
      → (s : List ℕ) → All IsByte s
      → sector_inner g b2 r (sector_inner f b2 r s) ≡ s
  sector_inner-inverse g back s a =
      ap (sector_inner g b2 r) (sector_inner-scalar f b2 r s)
      ∙ sector_inner-scalar g b2 r _
      ∙ rw (scalar_whole s a).0 (
          scalar_tail-inverse f f_whole g back (length s / 16) (first_tweak b2 r) s
            first_tweak-whole (omega arith) a)
