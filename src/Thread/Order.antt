-- ===== src/Thread/Order.antt =====
-- The order in which the thread of lib/windrv/src/filter/volume_thread.rs completes its requests.
use volumecrypt_kit.Prelude.{
  ℕ, ◌≡◌, refl, ap, ◌∙◌, sym, inl, inr, Bool, true, false, ◌&&◌, not, List, [], ◌∷◌, ◌++◌, map,
  arith, ltb, Bool-cases,
}
use mathlib.Core.Path.{ap₂}
use mathlib.Core.List.{append-nil, append_assoc}
use volumecrypt_kit.Device.{SectorIo, OffsetStore}
use volumecrypt_kit.System.{step}
use volumecrypt_kit.Thread.{
  IrpEntry, Done, processed, dropped, Phase, head, burst, sweeping, waiting, draining, ended,
  VolumeThread, Event, tick, arrive, cancel, control_start, control_pause, stop, max_irp_burst,
  flag, enqueue, serve, serve_next, sweep_batch, drain_next, thread_step, happen, execute, Outcome,
}
use volumecrypt_kit.Thread.Conserves.{flag-id}

-- The requests of a queue, of a list of completions and of a list of events, in order.
unfoldable pub ids : List IrpEntry → List ℕ
ids [] = []
ids (e ∷ q) = e.id ∷ ids q

unfoldable pub finished : List Done → List ℕ
finished [] = []
finished (processed i c ∷ l) = i ∷ finished l
finished (dropped i ∷ l) = i ∷ finished l

unfoldable pub arrival : Event → List ℕ
arrival (arrive e) = e.id ∷ []
arrival _ = []

unfoldable pub arrivals : List Event → List ℕ
unfolding arrival
arrivals [] = []
arrivals (e ∷ es) = arrival e ++ arrivals es

-- Whether `stop` was called, after an event.
unfoldable pub stopped : Event → Bool → Bool
stopped stop b = true
stopped _ b = b

unfoldable pub in_time : Event → Bool → Bool
in_time (arrive e) b = not b
in_time _ b = true

-- No request arrives after `stop`.
unfoldable pub on_time : Bool → List Event → Bool
unfolding stopped in_time
on_time b [] = true
on_time b (e ∷ es) = in_time e b && on_time (stopped e b) es

both : (a b : Bool) → a && b ≡ true → (a ≡ true) × (b ≡ true)
both true b is = (refl, is)
both false b is = absurd (cc is)

ids-append : (q r : List IrpEntry) → ids (q ++ r) ≡ ids q ++ ids r
unfolding ids
ids-append [] r = refl
ids-append (e ∷ q) r = ap (λ l. e.id ∷ l) (ids-append q r)

finished-append : (l m : List Done) → finished (l ++ m) ≡ finished l ++ finished m
unfolding finished
finished-append [] m = refl
finished-append (processed i c ∷ l) m = ap (λ k. i ∷ k) (finished-append l m)
finished-append (dropped i ∷ l) m = ap (λ k. i ∷ k) (finished-append l m)

ids-flag : (j : ℕ) (q : List IrpEntry) → ids (map (flag j) q) ≡ ids q
unfolding ids
ids-flag j [] = refl
ids-flag j (e ∷ q) = ap₂ (λ i l. i ∷ l) (flag-id j e) (ids-flag j q)

module _ {W : Type 0} (io : SectorIo W) (st : OffsetStore W) where
  -- The completed requests and then the queued ones.
  abbrev line : Outcome W → List ℕ
  line r = finished r.0 ++ ids r.1.queue

  line-enqueue :
      (e : IrpEntry) (t : VolumeThread W)
      → not t.shutdown ≡ true
      → line (enqueue e t) ≡ ids t.queue ++ (e.id ∷ [])
  unfolding enqueue finished ids
  line-enqueue e t up = elim (Bool-cases t.shutdown) [
    | inl down ↦ absurd (cc (up, ap not down))
    | inr open' ↦ simp open' (ids-append t.queue (e ∷ []))
  ]

  line-serve_next :
      (n : ℕ) (q : List IrpEntry) (t : VolumeThread W)
      → t.queue ≡ q
      → line (serve_next io st n q t) ≡ ids q
  unfolding serve_next serve finished ids step
  line-serve_next n [] t same = rw same refl
  line-serve_next n (e ∷ rest) t same = elim (Bool-cases (ltb n max_irp_burst)) [
    | inr full ↦ rw (full, same) refl
    | inl room ↦ elim (Bool-cases e.cancelled) [
      | inl c ↦ simp (room, c) refl
      | inr c ↦ simp (room, c) refl
    ]
  ]

  line-drain_next :
      (q : List IrpEntry) (t : VolumeThread W) → t.queue ≡ q → line (drain_next io st q t) ≡ ids q
  unfolding drain_next finished ids
  line-drain_next [] t same = rw same refl
  line-drain_next (e ∷ rest) t same = refl

  line-thread_step : (p : Phase) (t : VolumeThread W) → line (thread_step io st p t) ≡ ids t.queue
  unfolding thread_step finished sweep_batch
  line-thread_step head t = refl
  line-thread_step (burst n) t = line-serve_next n t.queue t refl
  line-thread_step sweeping t = refl
  line-thread_step waiting t = refl
  line-thread_step draining t = line-drain_next t.queue t refl
  line-thread_step ended t = refl

  line-happen :
      (e : Event) (t : VolumeThread W)
      → in_time e t.shutdown ≡ true
      → line (happen io st e t) ≡ ids t.queue ++ arrival e
  unfolding happen finished arrival in_time
  line-happen tick t early = line-thread_step t.phase t ∙ sym (append-nil (ids t.queue))
  line-happen (arrive e) t early = line-enqueue e t early
  line-happen (cancel j) t early = ids-flag j t.queue ∙ sym (append-nil (ids t.queue))
  line-happen (control_start d) t early = sym (append-nil (ids t.queue))
  line-happen control_pause t early = sym (append-nil (ids t.queue))
  line-happen stop t early = sym (append-nil (ids t.queue))

  shutdown-enqueue : (e : IrpEntry) (t : VolumeThread W) → (enqueue e t).1.shutdown ≡ t.shutdown
  unfolding enqueue
  shutdown-enqueue e t = ground arith

  shutdown-serve_next :
      (n : ℕ) (q : List IrpEntry) (t : VolumeThread W)
      → (serve_next io st n q t).1.shutdown ≡ t.shutdown
  unfolding serve_next serve
  shutdown-serve_next n [] t = refl
  shutdown-serve_next n (e ∷ rest) t = ground arith

  shutdown-drain_next :
      (q : List IrpEntry) (t : VolumeThread W) → (drain_next io st q t).1.shutdown ≡ t.shutdown
  unfolding drain_next
  shutdown-drain_next [] t = refl
  shutdown-drain_next (e ∷ rest) t = refl

  shutdown-thread_step :
      (p : Phase) (t : VolumeThread W) → (thread_step io st p t).1.shutdown ≡ t.shutdown
  unfolding thread_step sweep_batch
  shutdown-thread_step head t = refl
  shutdown-thread_step (burst n) t = shutdown-serve_next n t.queue t
  shutdown-thread_step sweeping t = refl
  shutdown-thread_step waiting t = refl
  shutdown-thread_step draining t = shutdown-drain_next t.queue t
  shutdown-thread_step ended t = refl

  shutdown-happen :
      (e : Event) (t : VolumeThread W) → (happen io st e t).1.shutdown ≡ stopped e t.shutdown
  unfolding happen stopped
  shutdown-happen tick t = shutdown-thread_step t.phase t
  shutdown-happen (arrive e) t = shutdown-enqueue e t
  shutdown-happen (cancel j) t = refl
  shutdown-happen (control_start d) t = refl
  shutdown-happen control_pause t = refl
  shutdown-happen stop t = refl

  -- When no request arrives after `stop`, the requests are completed first in, first out, whatever
  -- the events: those that were completed, in their order, and then those in the queue are those
  -- that were queued at first and then those that arrived, in the order of their arrival.
  pub finished-execute :
      (es : List Event) (t : VolumeThread W)
      → on_time t.shutdown es ≡ true
      → finished (execute io st es t).0 ++ ids (execute io st es t).1.queue
        ≡ ids t.queue ++ arrivals es
  unfolding execute on_time arrivals finished
  finished-execute [] t early = sym (append-nil (ids t.queue))
  finished-execute (e ∷ es) t early =
      let (out, t') = happen io st e t in
      let (now, later) = both (in_time e t.shutdown) (on_time (stopped e t.shutdown) es) early in
      rw (finished-append, append_assoc)
        (ap (λ l. finished out ++ l) (finished-execute es t' (rw (shutdown-happen e t) later)))
      ∙ sym (append_assoc (finished out) (ids t'.queue) (arrivals es))
      ∙ ap (λ l. l ++ arrivals es) (line-happen e t now)
      ∙ append_assoc (ids t.queue) (arrival e) (arrivals es)
