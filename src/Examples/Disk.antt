-- ===== src/Examples/Disk.antt =====
-- A disk in memory, whose offset store is a register beside the sectors, and a block cipher that
-- complements each byte.
use native.Mathlib.Nat.{mul-div_cancel}
use volumecrypt_kit.Prelude.{
  ℕ, ◌+◌, ◌-◌, ◌*◌, ◌/◌, ◌≤◌, ◌<◌, ◌≡◌, ◌⊎◌, inl, inr, refl, sym, ap, ◌∙◌, Bool, true, false, ◌&&◌,
  List, [], ◌∷◌, map, arith, ltb, leb, ◌==◌, if◌then◌else◌, length, take, drop, replicate, All,
  All-take, All-drop, All-replicate, length-take, length-drop, length-replicate, length-map,
  Bool-cases,
}
use volumecrypt_kit.Prelude.Bytes.{IsByte, IsSector, gather}
use volumecrypt_kit.Error.{VckResult, ok, err}
use volumecrypt_kit.Types.{VolumeState, EncryptedOffset}
use volumecrypt_kit.Device.{SectorIo, IsDevice, OffsetStore, KeepsData}
use volumecrypt_kit.Engine.Reliable.{Reliable}
use volumecrypt_kit.Cipher.{VolumeCipher, IsCipher}
use volumecrypt_kit.Xts.{BlockCipher, IsBlockCipher, xts_cipher, batch_loop, scalar_tail}
use volumecrypt_kit.Xts.Batch.{batch_loop-scalar_tail}
use volumecrypt_kit.Xts.Area.{xts_cipher-IsCipher}

pub record Disk : Type 0 where
  pub contents : ℕ → List ℕ
  pub saved : EncryptedOffset
  pub direction : VolumeState

abbrev pub all_bytes : List ℕ → Bool
all_bytes [] = true
all_bytes (b ∷ bs) = ltb b 256 && all_bytes bs

-- A sector that is not whole reads as zeros.
abbrev pub whole_or_zero : ℕ → List ℕ → List ℕ
whole_or_zero ss s = if (length s == ss) && all_bytes s then s else replicate ss 0

all_bytes-All : (s : List ℕ) → all_bytes s ≡ true → All IsByte s
all_bytes-All [] h = tt
all_bytes-All (b ∷ bs) h = (ground arith, all_bytes-All bs (ground arith))

All-all_bytes : (s : List ℕ) → All IsByte s → all_bytes s ≡ true
All-all_bytes [] h = refl
All-all_bytes (b ∷ bs) (lt, h) = ground (arith, All-all_bytes bs h)

whole_or_zero-whole : (ss : ℕ) (s : List ℕ) → IsSector ss (whole_or_zero ss s)
whole_or_zero-whole ss s = elim (Bool-cases ((length s == ss) && all_bytes s)) [
  | inl fits ↦ rw fits (ground arith, all_bytes-All s (ground arith))
  | inr bad ↦ rw bad (length-replicate ss 0, All-replicate IsByte ss 0 (omega arith))
]

pub whole_or_zero-same : (ss : ℕ) (s : List ℕ) → IsSector ss s → whole_or_zero ss s ≡ s
whole_or_zero-same ss s (l, a) = ground (arith, l, All-all_bytes s a)

abbrev value_or : {A : Type 0} → A → VckResult A → A
value_or a (ok b) = b
value_or a (err _) = a

abbrev pub at : ℕ → Disk → ℕ → List ℕ
at ss d l = whole_or_zero ss (d.contents l)

abbrev pub disk_io : ℕ → SectorIo Disk
disk_io ss = record {
  sector_size = ss;
  total_sectors = 2048;
  read_sectors = λ lba len d. (ok (gather (len / ss) (λ i. at ss d (lba + i))), d);
  write_sectors = λ lba buf d. (
    ok tt,
    record d {
      contents = λ l.
          if leb lba l && ltb l (lba + length buf / ss)
          then take ss (drop ((l - lba) * ss) buf)
          else d.contents l;
    },
  );
}

abbrev pub register : OffsetStore Disk
register = record {
  load = λ d. (ok d.saved, d);
  store = λ o d. (ok tt, record d { saved = o });
  flush = λ d. (ok tt, d);
  load_state = λ d. (ok d.direction, d);
  store_state = λ v d. (ok tt, record d { direction = v });
}

module _ (ss : ℕ) (pos : 0 < ss) where
  written_out :
      (lba n : ℕ) (buf : List ℕ) (d : Disk) (l : ℕ)
      → length buf ≡ n * ss
      → (l < lba) ⊎ (lba + n ≤ l)
      → at ss ((disk_io ss).write_sectors lba buf d).1 l ≡ at ss d l
  written_out lba n buf d l len out =
      let q : length buf / ss ≡ n = rw len (mul-div_cancel n pos) in
      let miss : (leb lba l && ltb l (lba + n)) ≡ false = ground arith in rw (q, miss) refl

  written_in :
      (lba n : ℕ) (buf : List ℕ) (d : Disk) (i : ℕ)
      → length buf ≡ n * ss
      → All IsByte buf
      → i < n
      → at ss ((disk_io ss).write_sectors lba buf d).1 (lba + i) ≡ take ss (drop (i * ss) buf)
  written_in lba n buf d i len bytes lt =
      let q : length buf / ss ≡ n = rw len (mul-div_cancel n pos) in
      let hit : (leb lba (lba + i) && ltb (lba + i) (lba + n)) ≡ true = ground arith in
      let e : lba + i - lba ≡ i = omega arith in
      let room : i * ss + ss ≤ n * ss = grind arith in
      let piece = take ss (drop (i * ss) buf) in
      let whole : IsSector ss piece = (
        omega (arith, length-take ss (drop (i * ss) buf), length-drop (i * ss) buf),
        All-take IsByte ss _ (All-drop IsByte (i * ss) _ bytes),
      ) in
      rw (q, hit, e) (whole_or_zero-same ss piece whole)

  pub disk_io-IsDevice : IsDevice (disk_io ss) (at ss)
  disk_io-IsDevice = record {
    size_pos = pos;
    whole = λ d l. whole_or_zero-whole ss (d.contents l);
    read_keeps = λ lba len d l. refl;
    read_gives = λ lba n d buf r.
        sym (ap (value_or []) r)
        ∙ ap (λ (k : ℕ). gather k (λ i. at ss d (lba + i))) (mul-div_cancel n pos);
    write_frame = λ lba n buf d l len out. written_out lba n buf d l len out;
    write_sets = λ lba n buf d i len bytes _ lt. written_in lba n buf d i len bytes lt;
  }

  pub disk_io-Reliable : Reliable (disk_io ss) register
  disk_io-Reliable = record {
    reads = λ lba len d. (_, refl);
    writes = λ lba buf d. refl;
    stores = λ o d. refl;
    flushes = λ d. refl;
  }

  pub register-KeepsData : (offset total : ℕ) → KeepsData register (at ss) offset total
  register-KeepsData offset total = record {
    store_keeps = λ o d rel lt. refl;
    flush_keeps = λ d l. refl;
    load_state_keeps = λ d l. refl;
    store_state_keeps = λ v d rel lt. refl;
  }

abbrev pub complement : List ℕ → List ℕ
complement s = map (λ b. 255 - b) s

pub complement-twice : (s : List ℕ) → All IsByte s → complement (complement s) ≡ s
complement-twice [] h = refl
complement-twice (b ∷ bs) (lt, h) =
    let e : 255 - (255 - b) ≡ b = omega arith in rw (e, complement-twice bs h) refl

pub complement-bytes : (s : List ℕ) → All IsByte (complement s)
complement-bytes [] = tt
complement-bytes (b ∷ bs) = (omega arith, complement-bytes bs)

abbrev pub toy : BlockCipher
toy = record { encrypt_block = complement; decrypt_block = complement }

pub toy-IsBlockCipher : IsBlockCipher toy
toy-IsBlockCipher = record {
  encrypt_block_whole = λ s w. (length-map _ s ∙ w.0, complement-bytes s);
  decrypt_block_whole = λ s w. (length-map _ s ∙ w.0, complement-bytes s);
  decrypt_block-encrypt_block = λ s w. complement-twice s w.1;
  encrypt_block-decrypt_block = λ s w. complement-twice s w.1;
}

abbrev pub toy_xts : VolumeCipher
toy_xts = xts_cipher toy toy

pub toy_xts-IsCipher : (ss : ℕ) → 0 < ss → IsCipher toy_xts ss
toy_xts-IsCipher ss pos = xts_cipher-IsCipher toy toy toy-IsBlockCipher toy-IsBlockCipher ss pos

xts_cipher_example : IsCipher toy_xts 512
xts_cipher_example =
    xts_cipher-IsCipher toy toy toy-IsBlockCipher toy-IsBlockCipher 512 (omega arith)

batch_loop_example :
    batch_loop toy.encrypt_block 2 9 (replicate 16 1) (replicate 144 7)
    ≡ scalar_tail toy.encrypt_block 9 (replicate 16 1) (replicate 144 7)
batch_loop_example = batch_loop-scalar_tail toy.encrypt_block 2 9 (replicate 16 1) (replicate 144 7)
