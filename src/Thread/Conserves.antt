-- ===== src/Thread/Conserves.antt =====
-- lib/windrv/src/filter/volume_thread.rs: how often a request is queued and completed.
use volumecrypt_kit.Prelude.{
  ℕ, ◌+◌, ◌≡◌, refl, inl, inr, List, [], ◌∷◌, ◌++◌, map, arith, ltb, ◌==◌, if◌then◌else◌,
  Bool-cases,
}
use volumecrypt_kit.Device.{SectorIo, OffsetStore}
use volumecrypt_kit.System.{step}
use volumecrypt_kit.Thread.{
  IrpEntry, Done, processed, dropped, Phase, head, burst, sweeping, waiting, draining, ended,
  VolumeThread, Event, tick, arrive, cancel, control_start, control_pause, stop, max_irp_burst,
  flag, enqueue, serve, serve_next, sweep_batch, drain_next, thread_step, happen, execute, Outcome,
}

abbrev pub same : ℕ → ℕ → ℕ
same i j = if i == j then 1 else 0

-- How often a request stands in a queue, in a list of completions, and in a list of events.
unfoldable pub queued : ℕ → List IrpEntry → ℕ
queued i [] = 0
queued i (e ∷ q) = same i e.id + queued i q

unfoldable pub completions : ℕ → List Done → ℕ
completions i [] = 0
completions i (processed j c ∷ l) = same i j + completions i l
completions i (dropped j ∷ l) = same i j + completions i l

unfoldable pub arrived : ℕ → List Event → ℕ
arrived i [] = 0
arrived i (arrive e ∷ es) = same i e.id + arrived i es
arrived i (_ ∷ es) = arrived i es

queued-append : (i : ℕ) (q r : List IrpEntry) → queued i (q ++ r) ≡ queued i q + queued i r
unfolding queued
queued-append i [] r = omega arith
queued-append i (e ∷ q) r = omega (arith, queued-append i q r)

completions-append :
    (i : ℕ) (l m : List Done) → completions i (l ++ m) ≡ completions i l + completions i m
unfolding completions
completions-append i [] m = omega arith
completions-append i (processed j c ∷ l) m = omega (arith, completions-append i l m)
completions-append i (dropped j ∷ l) m = omega (arith, completions-append i l m)

pub flag-id : (j : ℕ) (e : IrpEntry) → (flag j e).id ≡ e.id
flag-id j e = ground arith

queued-flag : (i j : ℕ) (q : List IrpEntry) → queued i (map (flag j) q) ≡ queued i q
unfolding queued
queued-flag i j [] = refl
queued-flag i j (e ∷ q) = rw (flag-id j e, queued-flag i j q) refl

module _ {W : Type 0} (io : SectorIo W) (st : OffsetStore W) (i : ℕ) where
  -- What an outcome holds of the request.
  abbrev held : Outcome W → ℕ
  held r = completions i r.0 + queued i r.1.queue

  held-enqueue :
      (e : IrpEntry) (t : VolumeThread W) → held (enqueue e t) ≡ queued i t.queue + same i e.id
  unfolding enqueue completions queued
  held-enqueue e t = elim (Bool-cases t.shutdown) [
    | inl down ↦ simp down (omega arith)
    | inr up ↦ simp up (omega (arith, queued-append i t.queue (e ∷ [])))
  ]

  held-serve_next :
      (n : ℕ) (q : List IrpEntry) (t : VolumeThread W)
      → t.queue ≡ q
      → held (serve_next io st n q t) ≡ queued i q
  unfolding serve_next serve completions queued step
  held-serve_next n [] t is = rw is refl
  held-serve_next n (e ∷ rest) t is = elim (Bool-cases (ltb n max_irp_burst)) [
    | inr full ↦ rw (full, is) (omega arith)
    | inl room ↦ elim (Bool-cases e.cancelled) [
      | inl c ↦ simp (room, c) (omega arith)
      | inr c ↦ simp (room, c) (omega arith)
    ]
  ]

  held-drain_next :
      (q : List IrpEntry) (t : VolumeThread W)
      → t.queue ≡ q
      → held (drain_next io st q t) ≡ queued i q
  unfolding drain_next completions queued
  held-drain_next [] t is = rw is refl
  held-drain_next (e ∷ rest) t is = omega arith

  held-thread_step :
      (p : Phase) (t : VolumeThread W) → held (thread_step io st p t) ≡ queued i t.queue
  unfolding thread_step completions sweep_batch
  held-thread_step head t = omega arith
  held-thread_step (burst n) t = held-serve_next n t.queue t refl
  held-thread_step sweeping t = omega arith
  held-thread_step waiting t = omega arith
  held-thread_step draining t = held-drain_next t.queue t refl
  held-thread_step ended t = omega arith

  held-happen :
      (e : Event) (t : VolumeThread W)
      → held (happen io st e t) ≡ queued i t.queue + arrived i (e ∷ [])
  unfolding happen arrived completions
  held-happen tick t = omega (arith, held-thread_step t.phase t)
  held-happen (arrive e) t = omega (arith, held-enqueue e t)
  held-happen (cancel j) t = omega (arith, queued-flag i j t.queue)
  held-happen (control_start d) t = omega arith
  held-happen control_pause t = omega arith
  held-happen stop t = omega arith

  arrived-cons :
      (e : Event) (es : List Event) → arrived i (e ∷ es) ≡ arrived i (e ∷ []) + arrived i es
  unfolding arrived
  arrived-cons tick es = omega arith
  arrived-cons (arrive e) es = omega arith
  arrived-cons (cancel j) es = omega arith
  arrived-cons (control_start d) es = omega arith
  arrived-cons control_pause es = omega arith
  arrived-cons stop es = omega arith

  -- At all times, for each IRP, the completions and its places in the queue together are as many as
  -- its places in the queue at first and its arrivals.
  pub held-execute :
      (es : List Event) (t : VolumeThread W)
      → completions i (execute io st es t).0 + queued i (execute io st es t).1.queue
        ≡ queued i t.queue + arrived i es
  unfolding execute completions arrived
  held-execute [] t = omega arith
  held-execute (e ∷ es) t =
      let (out, t') = happen io st e t in
      omega (
        arith,
        completions-append i out (execute io st es t').0,
        held-execute es t',
        held-happen e t,
        arrived-cons e es,
      )
