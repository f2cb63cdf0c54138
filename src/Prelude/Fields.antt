-- ===== src/Prelude/Fields.antt =====
-- Fields of a block at fixed places: `block[off..off + n].copy_from_slice(…)`, one after the other,
-- and what a later read of a place gives.
use Prim.Native.Nat.{ℕ, zero, suc, ◌+◌, ◌-◌, ◌≤◌}
use mathlib.Core.Path.{◌≡◌, refl, sym, ap, ◌∙◌}
use mathlib.Core.Logic.{inl, inr}
use mathlib.Core.Bool.{Bool, true, false, ◌&&◌, ◌||◌}
use mathlib.Core.Option.{some, none-ne-some, some-injective}
use mathlib.Core.List.{List, [], ◌∷◌, ◌++◌}
use native.Mathlib.Omega.{arith}
use volumecrypt_kit.Prelude.Tests.{leb, leb→le, Bool-cases, ◌==◌}
use volumecrypt_kit.Prelude.Bytes.{IsByte}
use volumecrypt_kit.Prelude.Lists.{
  length, take, drop, All, get_elem?, get_or, length-append, length-take, length-drop,
  take-append_exact, drop-append_exact, drop-drop, All-append, All-take, All-drop, replicate,
  length-replicate, All-replicate,
}

-- `block[off..off + n]`
abbrev pub slice : ℕ → ℕ → List ℕ → List ℕ
slice off n block = take n (drop off block)

abbrev pub write_at : ℕ → List ℕ → List ℕ → List ℕ
write_at off bytes block = take off block ++ (bytes ++ drop (off + length bytes) block)

and_cases : (a b : Bool) → (a && b) ≡ true → (a ≡ true) × (b ≡ true)
and_cases a b h = ground arith

abbrev pub bytes_eq : List ℕ → List ℕ → Bool
bytes_eq [] [] = true
bytes_eq [] (y ∷ ys) = false
bytes_eq (x ∷ xs) [] = false
bytes_eq (x ∷ xs) (y ∷ ys) = x == y && bytes_eq xs ys

pub bytes_eq_refl : (xs : List ℕ) → bytes_eq xs xs ≡ true
bytes_eq_refl [] = refl
bytes_eq_refl (x ∷ xs) = ground (arith, bytes_eq_refl xs)

pub bytes_eq→eq : (xs ys : List ℕ) → bytes_eq xs ys ≡ true → xs ≡ ys
bytes_eq→eq [] [] h = refl
bytes_eq→eq [] (y ∷ ys) h = cc
bytes_eq→eq (x ∷ xs) [] h = cc
bytes_eq→eq (x ∷ xs) (y ∷ ys) h = ground (arith, bytes_eq→eq xs ys)

-- A field of one byte is the byte there.
pub get_or-slice :
    (off : ℕ) (b : ℕ) (block : List ℕ) → slice off 1 block ≡ b ∷ [] → get_or block off 0 ≡ b
get_or-slice zero b [] h = cc
get_or-slice zero b (x ∷ xs) h = cc
get_or-slice (suc off) b [] h = cc
get_or-slice (suc off) b (x ∷ xs) h = get_or-slice off b xs h

-- `[0u8; n]`
unfoldable pub zeros : ℕ → List ℕ
zeros n = replicate n 0

pub zeros_lem : (n : ℕ) → (length (zeros n) ≡ n) × All IsByte (zeros n)
unfolding zeros
zeros_lem n = (length-replicate n 0, All-replicate IsByte n 0 (omega arith))

pub record Field : Type 0 where
  pub off : ℕ
  pub size : ℕ
  pub bytes : List ℕ

unfoldable pub write_fields : List Field → List ℕ → List ℕ
write_fields [] block = block
write_fields (f ∷ fs) block = write_fields fs (write_at f.off f.bytes block)

-- Each field has its size, is made of bytes, and ends within the block.
abbrev pub IsField : ℕ → Field → Type 0
IsField n f = (length f.bytes ≡ f.size) × All IsByte f.bytes × (f.off + f.size ≤ n)

-- No field of the list meets the `n` bytes from `off` on.
abbrev pub clear : ℕ → ℕ → List Field → Bool
clear off n [] = true
clear off n (f ∷ fs) = (leb (f.off + f.size) off || leb (off + n) f.off) && clear off n fs

module _ {ℓ} {A : Type ℓ} where
  drop-append_before :
      (n : ℕ) (xs ys : List A) → n ≤ length xs → drop n (xs ++ ys) ≡ drop n xs ++ ys
  drop-append_before zero xs ys h = refl
  drop-append_before (suc n) [] ys h = absurd (omega arith)
  drop-append_before (suc n) (x ∷ xs) ys h = drop-append_before n xs ys (omega arith)

  take-append_before : (n : ℕ) (xs ys : List A) → n ≤ length xs → take n (xs ++ ys) ≡ take n xs
  take-append_before zero xs ys h = refl
  take-append_before (suc n) [] ys h = absurd (omega arith)
  take-append_before (suc n) (x ∷ xs) ys h =
      ap (λ r. x ∷ r) (take-append_before n xs ys (omega arith))

  -- A range of the first bytes.
  pub slice-take :
      (n off m : ℕ) (xs : List A)
      → off + n ≤ m
      → take n (drop off (take m xs)) ≡ take n (drop off xs)
  slice-take zero zero zero xs h = refl
  slice-take (suc n) zero zero xs h = absurd (omega arith)
  slice-take n zero (suc m) [] h = refl
  slice-take zero zero (suc m) (x ∷ xs) h = refl
  slice-take (suc n) zero (suc m) (x ∷ xs) h =
      ap (λ r. x ∷ r) (slice-take n zero m xs (omega arith))
  slice-take n (suc off) zero xs h = absurd (omega arith)
  slice-take n (suc off) (suc m) [] h = refl
  slice-take n (suc off) (suc m) (x ∷ xs) h = slice-take n off m xs (omega arith)

module _ (off : ℕ) (bytes block : List ℕ) (within : off + length bytes ≤ length block) where
  abbrev front : List ℕ
  front = take off block

  abbrev back : List ℕ
  back = drop (off + length bytes) block

  length-front : length front ≡ off
  length-front = omega (arith, length-take off block)

  pub length-write_at : length (write_at off bytes block) ≡ length block
  length-write_at = omega (
    arith,
    length-append front (bytes ++ back),
    length-append bytes back,
    length-drop (off + length bytes) block,
    length-front,
  )

  slice-write_at : slice off (length bytes) (write_at off bytes block) ≡ bytes
  slice-write_at =
      ap (take (length bytes)) (drop-append_exact off front (bytes ++ back) length-front)
      ∙ take-append_exact (length bytes) bytes back refl

  slice_before : (o n : ℕ) → o + n ≤ off → slice o n (write_at off bytes block) ≡ slice o n block
  slice_before o n h =
      ap (take n) (drop-append_before o front (bytes ++ back) (omega (arith, length-front)))
      ∙ take-append_before n (drop o front) (bytes ++ back)
          (omega (arith, length-front, length-drop o front))
      ∙ slice-take n o off block h

  slice_after :
      (o n : ℕ) → off + length bytes ≤ o → slice o n (write_at off bytes block) ≡ slice o n block
  slice_after o n h =
      let k = o - (off + length bytes) in
      let e : o ≡ off + (length bytes + k) = omega arith in
      let e' : off + length bytes + k ≡ off + (length bytes + k) = omega arith in
      ap (take n) (
        ap (λ (m : ℕ). drop m (write_at off bytes block)) e
        ∙ sym (drop-drop (length bytes + k) off (write_at off bytes block))
        ∙ ap (drop (length bytes + k)) (drop-append_exact off front (bytes ++ back) length-front)
        ∙ sym (drop-drop k (length bytes) (bytes ++ back))
        ∙ ap (drop k) (drop-append_exact (length bytes) bytes back refl)
        ∙ drop-drop k (off + length bytes) block
        ∙ ap (λ (m : ℕ). drop m block) (e' ∙ sym e))

  All-write_at : All IsByte bytes → All IsByte block → All IsByte (write_at off bytes block)
  All-write_at a b =
      All-append IsByte front (bytes ++ back) (All-take IsByte off block b)
        (All-append IsByte bytes back a (All-drop IsByte (off + length bytes) block b))

module _ (len : ℕ) where
  IsField-within :
      (f : Field) (block : List ℕ)
      → IsField len f
      → length block ≡ len
      → f.off + length f.bytes ≤ length block
  IsField-within f block (size, _, fits) l = omega arith

  pub length-write_fields :
      (fs : List Field) (block : List ℕ)
      → All (IsField len) fs
      → length block ≡ len
      → length (write_fields fs block) ≡ len
  unfolding write_fields
  length-write_fields [] block h l = l
  length-write_fields (f ∷ fs) block (h, hs) l =
      length-write_fields fs (write_at f.off f.bytes block) hs
        (length-write_at f.off f.bytes block (IsField-within f block h l) ∙ l)

  pub All-write_fields :
      (fs : List Field) (block : List ℕ)
      → All (IsField len) fs
      → length block ≡ len
      → All IsByte block
      → All IsByte (write_fields fs block)
  unfolding write_fields
  All-write_fields [] block h l a = a
  All-write_fields (f ∷ fs) block (h, hs) l a =
      let w = IsField-within f block h l in
      All-write_fields fs (write_at f.off f.bytes block) hs
        (length-write_at f.off f.bytes block w ∙ l) (All-write_at f.off f.bytes block w h.1 a)

  slice-write_at-apart :
      (o n : ℕ) (f : Field) (block : List ℕ)
      → IsField len f
      → length block ≡ len
      → (leb (f.off + f.size) o || leb (o + n) f.off) ≡ true
      → slice o n (write_at f.off f.bytes block) ≡ slice o n block
  slice-write_at-apart o n f block h l apart =
      let w = IsField-within f block h l in
      elim (Bool-cases (leb (f.off + f.size) o)) [
        | inl b ↦
            slice_after f.off f.bytes block w o n
              (let le = leb→le (f.off + f.size) o b in omega (arith, h.0))
        | inr b ↦
            slice_before f.off f.bytes block w o n (leb→le (o + n) f.off (sym (rw b refl) ∙ apart))
      ]

  -- What no field of the list meets is as it was.
  pub slice-write_fields-clear :
      (o n : ℕ) (fs : List Field) (block : List ℕ)
      → All (IsField len) fs
      → length block ≡ len
      → clear o n fs ≡ true
      → slice o n (write_fields fs block) ≡ slice o n block
  unfolding write_fields
  slice-write_fields-clear o n [] block h l c = refl
  slice-write_fields-clear o n (f ∷ fs) block (h, hs) l c =
      let w = IsField-within f block h l in
      let both = and_cases (leb (f.off + f.size) o || leb (o + n) f.off) (clear o n fs) c in
      slice-write_fields-clear o n fs (write_at f.off f.bytes block) hs
        (length-write_at f.off f.bytes block w ∙ l) both.1
      ∙ slice-write_at-apart o n f block h l both.0

  -- A field that no later field meets is read back.
  pub slice-write_fields :
      (i : ℕ) (g : Field) (fs : List Field) (block : List ℕ)
      → get_elem? fs i ≡ some g
      → clear g.off g.size (drop (suc i) fs) ≡ true
      → All (IsField len) fs
      → length block ≡ len
      → slice g.off g.size (write_fields fs block) ≡ g.bytes
  unfolding write_fields
  slice-write_fields i g [] block is c h l = absurd (none-ne-some g is)
  slice-write_fields zero g (f ∷ fs) block is c (h, hs) l =
      let w = IsField-within f block h l in
      let same = some-injective f g is in
      rw (sym same) (
        slice-write_fields-clear f.off f.size fs (write_at f.off f.bytes block) hs
          (length-write_at f.off f.bytes block w ∙ l) (rw (sym same) at c)
        ∙ rw (sym h.0) (slice-write_at f.off f.bytes block w))
  slice-write_fields (suc i) g (f ∷ fs) block is c (h, hs) l =
      slice-write_fields i g fs (write_at f.off f.bytes block) is c hs
        (length-write_at f.off f.bytes block (IsField-within f block h l) ∙ l)
