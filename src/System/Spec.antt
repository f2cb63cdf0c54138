-- ===== src/System/Spec.antt =====
-- What the requests on a volume are to return: the replies of a disk of plaintext sectors.
use volumecrypt_kit.Prelude.{
  ℕ, ◌+◌, ◌-◌, ◌*◌, ◌/◌, ◌≤◌, ◌<◌, ◌≡◌, refl, List, [], ◌∷◌, ltb, leb, ◌&&◌, if◌then◌else◌, true,
  false, Bool, take,
}
use volumecrypt_kit.Prelude.Bytes.{IsSector, gather}
use volumecrypt_kit.Cipher.{VolumeCipher}
use volumecrypt_kit.Plain.{plain}
use volumecrypt_kit.Irp.{Request, Completion, completed, success}
use volumecrypt_kit.Irp.Transfer.{IsReady, HoldsAtMost}
use volumecrypt_kit.System.{System, Op, irp}

-- A request for `n` sectors from sector `rel` of the data region on; `new` is what it writes.
pub record Asks (ss offset total : ℕ) (q : Request) : Type 0 where
  pub rel : ℕ
  pub n : ℕ
  pub new : ℕ → List ℕ
  pub begins : q.byte_offset / ss ≡ offset + rel
  pub inside : rel + n ≤ total
  pub sectors : q.byte_length / ss ≡ n
  pub some_sectors : 0 < n
  pub is_mapped : q.mapped ≡ true
  pub is_allocated : q.allocated ≡ true
  pub new_whole : (i : ℕ) → IsSector ss (new i)
  pub content : q.is_write ≡ true → take (n * ss) q.content ≡ gather n new

abbrev pub is_irp : Op → Bool
is_irp (irp q) = true
is_irp op = false

-- A list of operations whose requests are such.
pub data WellFormed (ss offset total : ℕ) : List Op → Type 0 where
  done : WellFormed ss offset total []
  ask :
      {q : Request} {ops : List Op}
      → Asks ss offset total q
      → WellFormed ss offset total ops
      → WellFormed ss offset total (irp q ∷ ops)
  other :
      {op : Op} {ops : List Op}
      → is_irp op ≡ false
      → WellFormed ss offset total ops
      → WellFormed ss offset total (op ∷ ops)

-- The specification: a disk of plaintext sectors, which only a WRITE changes.
abbrev pub written : ℕ → ℕ → (ℕ → List ℕ) → (ℕ → List ℕ) → ℕ → List ℕ
written rel n new content k = if leb rel k && ltb k (rel + n) then new (k - rel) else content k

unfoldable pub answers :
    {ss offset total : ℕ} {ops : List Op}
    → WellFormed ss offset total ops
    → (ℕ → List ℕ)
    → List Completion
answers done content = []
answers {ss} (ask {q = q} a rest) content =
    if q.is_write
    then completed success (a.n * ss) [] ∷ answers rest (written a.rel a.n a.new content)
    else completed success (a.n * ss) (gather a.n (λ i. content (a.rel + i))) ∷ answers rest content
answers (other _ rest) content = answers rest content

module _ {ss offset total : ℕ} (q : Request) (a : Asks ss offset total q) {ops : List Op}
    (rest : WellFormed ss offset total ops) (content : ℕ → List ℕ) where
  pub answers-write :
      q.is_write ≡ true
      → answers (ask a rest) content
        ≡ completed success (a.n * ss) [] ∷ answers rest (written a.rel a.n a.new content)
  unfolding answers
  answers-write writes = rw writes refl

  pub answers-read :
      q.is_write ≡ false
      → answers (ask a rest) content
        ≡ completed success (a.n * ss) (gather a.n (λ i. content (a.rel + i)))
          ∷ answers rest content
  unfolding answers
  answers-read reads = rw reads refl

-- What the volume stands for, and that its parts agree: the region is `total` sectors from `offset`
-- on, and its plaintext is `content`.
pub record Sees {W : Type 0} (c : VolumeCipher) (ss : ℕ) (sector : W → ℕ → List ℕ)
    (offset total : ℕ) (content : ℕ → List ℕ) (s : System W) : Type 0 where
  pub ready : IsReady c ss s.volume
  pub holds : HoldsAtMost c s.burst
  pub offset_same : s.volume.encryption.offset_sector ≡ offset
  pub total_same : s.volume.encryption.encrypted_offset.total_sectors ≡ total
  pub plain_same :
      (rel : ℕ)
      → rel < total
      → plain c s.volume.encryption.offset_sector s.volume.encryption.encrypted_offset.sector
          (sector s.world)
          rel
        ≡ content rel
