-- ===== src/Xts/Blocks.antt =====
-- lib/common/src/xts.rs: the lengths of blocks, masks and tweaks, and a mask taken twice.
use volumecrypt_kit.Prelude.{
  ℕ, zero, suc, ◌+◌, ◌/◌, ◌≡◌, refl, ap, ◌∙◌, List, [], ◌∷◌, ◌++◌, arith, length, All, All-append,
  length-append,
}
use volumecrypt_kit.Prelude.Bytes.{IsByte, IsSector}
use volumecrypt_kit.Prelude.Xor.{bit_xor-fits, bit_xor-twice}
use volumecrypt_kit.Xts.{to_le_bytes, gf128_mul, xor_block, one_block}

pub length-to_le_bytes : (k n : ℕ) → length (to_le_bytes k n) ≡ k
unfolding to_le_bytes
length-to_le_bytes zero n = refl
length-to_le_bytes (suc k) n = rw (length-to_le_bytes k (n / 256)) (omega arith)

pub All-to_le_bytes : (k n : ℕ) → All IsByte (to_le_bytes k n)
unfolding to_le_bytes
All-to_le_bytes zero n = tt
All-to_le_bytes (suc k) n = (omega arith, All-to_le_bytes k (n / 256))

pub to_le_bytes-whole : (k n : ℕ) → IsSector k (to_le_bytes k n)
to_le_bytes-whole k n = (length-to_le_bytes k n, All-to_le_bytes k n)

append-whole :
    (j k : ℕ) (xs ys : List ℕ) → IsSector j xs → IsSector k ys → IsSector (j + k) (xs ++ ys)
append-whole j k xs ys (lx, ax) (ly, ay) =
    (omega (arith, length-append xs ys), All-append IsByte xs ys ax ay)

gf128_mul-words :
    (t : List ℕ) → (lo : ℕ) × ((hi : ℕ) × (gf128_mul t ≡ to_le_bytes 8 lo ++ to_le_bytes 8 hi))
unfolding gf128_mul
gf128_mul-words t = (_, (_, refl))

pub gf128_mul-whole : (t : List ℕ) → IsSector 16 (gf128_mul t)
gf128_mul-whole t =
    let (lo, (hi, e)) = gf128_mul-words t in
    rw e (
      append-whole 8 8 (to_le_bytes 8 lo) (to_le_bytes 8 hi) (to_le_bytes-whole 8 lo)
        (to_le_bytes-whole 8 hi))

pub xor_block-whole :
    (k : ℕ) (xs ts : List ℕ) → IsSector k xs → IsSector k ts → IsSector k (xor_block xs ts)
unfolding xor_block
xor_block-whole k [] ts wx wt = wx
xor_block-whole k (x ∷ xs) [] wx wt = wx
xor_block-whole zero (x ∷ xs) (t ∷ ts) wx wt = absurd (omega (arith, wx.0))
xor_block-whole (suc k) (x ∷ xs) (t ∷ ts) wx wt =
    let (l, a) =
      xor_block-whole k xs ts (omega (arith, wx.0), wx.1.1) (omega (arith, wt.0), wt.1.1) in
    (omega (arith, l), (bit_xor-fits 8 x t wx.1.0 wt.1.0, a))

pub xor_block-twice :
    (k : ℕ) (xs ts : List ℕ) → IsSector k xs → IsSector k ts → xor_block (xor_block xs ts) ts ≡ xs
unfolding xor_block
xor_block-twice k [] ts wx wt = refl
xor_block-twice k (x ∷ xs) [] wx wt = refl
xor_block-twice zero (x ∷ xs) (t ∷ ts) wx wt = absurd (omega (arith, wx.0))
xor_block-twice (suc k) (x ∷ xs) (t ∷ ts) wx wt =
    rw
      (
        bit_xor-twice 8 x t wx.1.0 wt.1.0,
        xor_block-twice k xs ts (omega (arith, wx.0), wx.1.1) (omega (arith, wt.0), wt.1.1),
      )
      refl

module _ (f : List ℕ → List ℕ) (f_whole : (s : List ℕ) → IsSector 16 s → IsSector 16 (f s))
    (tw : List ℕ) (wt : IsSector 16 tw) (block : List ℕ) (wb : IsSector 16 block) where
  pub one_block-whole : IsSector 16 (one_block f tw block)
  unfolding one_block
  one_block-whole = xor_block-whole 16 _ _ (f_whole _ (xor_block-whole 16 _ _ wb wt)) wt

  pub one_block-inverse :
      (g : List ℕ → List ℕ)
      → ((s : List ℕ) → IsSector 16 s → g (f s) ≡ s)
      → one_block g tw (one_block f tw block) ≡ block
  unfolding one_block
  one_block-inverse g back =
      ap (λ (b : List ℕ). xor_block (g b) tw)
        (xor_block-twice 16 (f (xor_block block tw)) tw (f_whole _ (xor_block-whole 16 _ _ wb wt))
          wt)
      ∙ ap (λ (b : List ℕ). xor_block b tw) (back _ (xor_block-whole 16 _ _ wb wt))
      ∙ xor_block-twice 16 block tw wb wt
