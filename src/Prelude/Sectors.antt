-- ===== src/Prelude/Sectors.antt =====
-- Buffers of sectors cut at a sector boundary, and a transformation of their first sectors.
use Prim.Native.Nat.{ℕ, zero, suc, ◌+◌, ◌-◌, ◌*◌, ◌≤◌}
use mathlib.Core.Path.{◌≡◌, sym, ap, ◌∙◌}
use mathlib.Core.List.{List, ◌++◌, append_assoc}
use native.Mathlib.Omega.{arith}
use volumecrypt_kit.Prelude.Tests.{ltb, if◌then◌else◌}
use volumecrypt_kit.Prelude.Lists.{take, drop, take-append_exact, drop-append_exact}
use volumecrypt_kit.Prelude.Bytes.{IsSector, gather, length-gather, gather_cong}

-- `n` sectors are `k` sectors and the rest.
pub gather-append :
    (k m : ℕ) (f : ℕ → List ℕ) → gather k f ++ gather m (λ i. f (k + i)) ≡ gather (k + m) f
gather-append zero m f =
    gather_cong m (λ i. f (0 + i)) f (λ i _. ap f (let e : 0 + i ≡ i = omega arith in e))
    ∙ ap (λ (n : ℕ). gather n f) (let e : m ≡ 0 + m = omega arith in e)
gather-append (suc k) m f =
    append_assoc (f 0) (gather k (λ i. f (suc i))) (gather m (λ i. f (suc k + i)))
    ∙ ap (λ r. f 0 ++ (gather k (λ i. f (suc i)) ++ r))
        (gather_cong m (λ i. f (suc k + i)) (λ i. f (suc (k + i)))
          (λ i _. ap f (let e : suc k + i ≡ suc (k + i) = omega arith in e)))
    ∙ ap (λ r. f 0 ++ r) (gather-append k m (λ i. f (suc i)))
    ∙ ap (λ (n : ℕ). gather n f) (let e : suc (k + m) ≡ suc k + m = omega arith in e)

module _ (ss n k : ℕ) (f : ℕ → List ℕ) (whole : (i : ℕ) → IsSector ss (f i)) (le : k ≤ n) where
  gather_parts : gather n f ≡ gather k f ++ gather (n - k) (λ i. f (k + i))
  gather_parts =
      ap (λ (m : ℕ). gather m f) (let e : n ≡ k + (n - k) = omega arith in e)
      ∙ sym (gather-append k (n - k) f)

  pub take-gather : take (k * ss) (gather n f) ≡ gather k f
  take-gather =
      ap (take (k * ss)) gather_parts
      ∙ take-append_exact (k * ss) (gather k f) (gather (n - k) (λ i. f (k + i)))
          (length-gather ss k f whole)

  pub drop-gather : drop (k * ss) (gather n f) ≡ gather (n - k) (λ i. f (k + i))
  drop-gather =
      ap (drop (k * ss)) gather_parts
      ∙ drop-append_exact (k * ss) (gather k f) (gather (n - k) (λ i. f (k + i)))
          (length-gather ss k f whole)

-- Transforming the first `k` of `n` sectors.
pub gather_first :
    (n k : ℕ) (f g : ℕ → List ℕ)
    → k ≤ n
    → gather k g ++ gather (n - k) (λ i. f (k + i)) ≡ gather n (λ i. if ltb i k then g i else f i)
gather_first n k f g le =
    ap (λ r. r ++ gather (n - k) (λ i. f (k + i)))
      (gather_cong k g (λ i. if ltb i k then g i else f i) (λ i lt. ground arith))
    ∙ ap (λ r. gather k (λ i. if ltb i k then g i else f i) ++ r)
        (gather_cong (n - k) (λ i. f (k + i)) (λ i. if ltb (k + i) k then g (k + i) else f (k + i))
          (λ i lt. ground arith))
    ∙ gather-append k (n - k) (λ i. if ltb i k then g i else f i)
    ∙ ap (λ (m : ℕ). gather m (λ i. if ltb i k then g i else f i))
        (let e : k + (n - k) ≡ n = omega arith in e)
