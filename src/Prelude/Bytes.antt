-- ===== src/Prelude/Bytes.antt =====
-- Byte buffers: a byte is a number below 256, a buffer is a list of bytes. Reads and writes of a
-- fixed range (`buf[off..off + len]`, `copy_from_slice`), and buffers that are made of sectors.
use Prim.Native.Nat.{ℕ, zero, suc, ◌+◌, ◌*◌, ◌≤◌, ◌<◌}
use mathlib.Core.Path.{◌≡◌, refl, ap, ◌∙◌}
use mathlib.Core.List.{List, [], ◌∷◌, ◌++◌}
use native.Mathlib.Nat.{zero-mul}
use native.Mathlib.Omega.{arith}
use volumecrypt_kit.Prelude.Lists.{
  length, take, drop, All, length-append, take-append_exact, drop-append_exact, drop-drop,
  All-append,
}

abbrev pub IsByte : ℕ → Type 0
IsByte b = b < 256

-- A whole sector: `ss` bytes.
abbrev pub IsSector : ℕ → List ℕ → Type 0
IsSector ss s = (length s ≡ ss) × All IsByte s

-- The buffer of the sectors `f 0`, …, `f (n - 1)`, one behind the other.
abbrev pub gather : ℕ → (ℕ → List ℕ) → List ℕ
gather zero f = []
gather (suc n) f = f 0 ++ gather n (λ i. f (suc i))

-- `buf.chunks_mut(ss)`: the pieces of `ss` bytes, the last one shorter if need be. The first number
-- bounds the pieces; the length of the buffer is enough.
abbrev pub chunks_upto : ℕ → ℕ → List ℕ → List (List ℕ)
chunks_upto zero ss buf = []
chunks_upto (suc k) ss [] = []
chunks_upto (suc k) ss (b ∷ buf) = take ss (b ∷ buf) ∷ chunks_upto k ss (drop ss (b ∷ buf))

-- The list `f 0`, …, `f (n - 1)`.
abbrev pub tabulate {ℓ} : {A : Type ℓ} → ℕ → (ℕ → A) → List A
tabulate zero f = []
tabulate (suc n) f = f 0 ∷ tabulate n (λ i. f (suc i))

pub length-gather :
    (ss n : ℕ) (f : ℕ → List ℕ) → ((i : ℕ) → IsSector ss (f i)) → length (gather n f) ≡ n * ss
length-gather ss zero f h = omega arith
length-gather ss (suc n) f h = omega (
  arith,
  length-append (f 0) (gather n (λ i. f (suc i))),
  length-gather ss n (λ i. f (suc i)) (λ i. h (suc i)),
  (h 0).0,
)

pub All-gather :
    (ss n : ℕ) (f : ℕ → List ℕ) → ((i : ℕ) → IsSector ss (f i)) → All IsByte (gather n f)
All-gather ss zero f h = tt
All-gather ss (suc n) f h =
    All-append IsByte (f 0) (gather n (λ i. f (suc i))) (h 0).1
      (All-gather ss n (λ i. f (suc i)) (λ i. h (suc i)))

drop_past :
    (ss k m : ℕ) (xs ys : List ℕ) → length xs ≡ ss → m ≡ ss + k → drop m (xs ++ ys) ≡ drop k ys
drop_past ss k m xs ys h e =
    rw (e, ← drop-drop k ss (xs ++ ys)) (ap (drop k) (drop-append_exact ss xs ys h))

-- Sector `i` of such a buffer.
pub slice-gather :
    (ss n i : ℕ) (f : ℕ → List ℕ)
    → ((i : ℕ) → IsSector ss (f i))
    → i < n
    → take ss (drop (i * ss) (gather n f)) ≡ f i
slice-gather ss zero i f h lt = absurd (omega arith)
slice-gather ss (suc n) zero f h lt =
    rw (zero-mul ss) (take-append_exact ss (f 0) (gather n (λ i. f (suc i))) (h 0).0)
slice-gather ss (suc n) (suc i) f h lt =
    rw (drop_past ss (i * ss) (suc i * ss) (f 0) (gather n (λ i. f (suc i))) (h 0).0 (grind arith))
      (slice-gather ss n i (λ i. f (suc i)) (λ i. h (suc i)) (omega arith))

chunks_upto-nil : (k ss : ℕ) → chunks_upto k ss [] ≡ []
chunks_upto-nil zero ss = refl
chunks_upto-nil (suc k) ss = refl

chunks_upto-append :
    (k ss : ℕ) (xs ys : List ℕ)
    → length xs ≡ ss
    → 0 < ss
    → chunks_upto (suc k) ss (xs ++ ys) ≡ xs ∷ chunks_upto k ss ys
chunks_upto-append k ss [] ys h pos = absurd (omega arith)
chunks_upto-append k ss (x ∷ xs) ys h pos =
    rw (take-append_exact ss (x ∷ xs) ys h, drop-append_exact ss (x ∷ xs) ys h)

-- Cutting such a buffer gives its sectors again: one piece for each sector.
chunks_upto-gather :
    (ss k n : ℕ) (f : ℕ → List ℕ)
    → ((i : ℕ) → IsSector ss (f i))
    → 0 < ss
    → n ≤ k
    → chunks_upto k ss (gather n f) ≡ tabulate n f
chunks_upto-gather ss k zero f h pos le = chunks_upto-nil k ss
chunks_upto-gather ss zero (suc n) f h pos le = absurd (omega arith)
chunks_upto-gather ss (suc k) (suc n) f h pos le =
    chunks_upto-append k ss (f 0) (gather n (λ i. f (suc i))) (h 0).0 pos
    ∙ ap (λ r. f 0 ∷ r)
        (chunks_upto-gather ss k n (λ i. f (suc i)) (λ i. h (suc i)) pos (omega arith))

-- `buf.chunks_mut(ss)`, as pieces.
unfoldable pub chunks : ℕ → List ℕ → List (List ℕ)
chunks ss buf = chunks_upto (length buf) ss buf

pub chunks-gather :
    (ss n : ℕ) (f : ℕ → List ℕ)
    → ((i : ℕ) → IsSector ss (f i))
    → 0 < ss
    → chunks ss (gather n f) ≡ tabulate n f
unfolding chunks
chunks-gather ss n f h pos =
    chunks_upto-gather ss (length (gather n f)) n f h pos
      (rw (length-gather ss n f h) (grind arith))

-- Two buffers of sectors are equal when their sectors are.
pub gather_cong :
    (n : ℕ) (f g : ℕ → List ℕ) → ((i : ℕ) → i < n → f i ≡ g i) → gather n f ≡ gather n g
gather_cong zero f g h = refl
gather_cong (suc n) f g h = rw (
  h 0 (omega arith),
  gather_cong n (λ i. f (suc i)) (λ i. g (suc i)) (λ i lt. h (suc i) (omega arith)),
)
