-- ===== src/Xts/Batch.antt =====
-- lib/common/src/xts.rs: the batches of eight blocks beside the scalar loop.
use volumecrypt_kit.Prelude.{
  ℕ, zero, suc, ◌+◌, ◌-◌, ◌*◌, ◌≡◌, refl, sym, ap, ◌∙◌, List, ◌++◌, arith, leb, take, drop,
  drop-drop, Bool-cases, leb→le, inl, inr,
}
use mathlib.Core.List.{append_assoc}
use volumecrypt_kit.Xts.{
  gf128_mul, tweaks, tweak_after, blocks, xor_blocks, concat, one_block, one_batch, scalar_tail,
  batch_size, batch_loop,
}

module _ (f : List ℕ → List ℕ) where
  one_batch-scalar_tail :
      (k m left : ℕ) (tw rest : List ℕ)
      → left ≡ k + m
      → one_batch f k tw rest ++ scalar_tail f m (tweak_after k tw) (drop (k * 16) rest)
        ≡ scalar_tail f left tw rest
  unfolding one_batch scalar_tail blocks tweaks tweak_after xor_blocks concat one_block
  one_batch-scalar_tail zero m left tw rest e = let d : left ≡ m = omega arith in rw d refl
  one_batch-scalar_tail (suc k) m zero tw rest e = absurd (omega arith)
  one_batch-scalar_tail (suc k) m (suc left) tw rest e =
      let n : suc k * 16 ≡ 16 + k * 16 = omega arith in
      let t : drop (suc k * 16) rest ≡ drop (k * 16) (drop 16 rest) =
        ap (λ (i : ℕ). drop i rest) n ∙ sym (drop-drop (k * 16) 16 rest) in
      rw t (
        append_assoc (one_block f tw (take 16 rest)) _ _
        ∙ ap (λ l. one_block f tw (take 16 rest) ++ l)
            (one_batch-scalar_tail k m left (gf128_mul tw) (drop 16 rest) (omega arith)))

  -- The loop over batches of eight blocks gives, for every number of blocks left and every bound on
  -- the batches, what the scalar loop alone gives.
  pub batch_loop-scalar_tail :
      (fuel left : ℕ) (tw rest : List ℕ)
      → batch_loop f fuel left tw rest ≡ scalar_tail f left tw rest
  unfolding batch_loop
  batch_loop-scalar_tail zero left tw rest = refl
  batch_loop-scalar_tail (suc fuel) left tw rest = elim (Bool-cases (leb batch_size left)) [
    | inr few ↦ rw few refl
    | inl more ↦
        rw
          (
            more,
            batch_loop-scalar_tail fuel (left - batch_size) (tweak_after batch_size tw)
                (drop (batch_size * 16) rest),
          )
          (one_batch-scalar_tail batch_size (left - batch_size) left tw rest
            (omega (arith, leb→le _ _ more)))
  ]
