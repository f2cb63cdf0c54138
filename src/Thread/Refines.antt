-- ===== src/Thread/Refines.antt =====
-- lib/windrv/src/filter/volume_thread.rs: the thread beside the server of Thread/Server.
use volumecrypt_kit.Prelude.{
  ℕ, ◌≡◌, refl, inl, inr, ◌⊎◌, true, some, List, [], ◌∷◌, ◌++◌, ltb, Bool-cases,
}
use volumecrypt_kit.Device.{SectorIo, OffsetStore}
use volumecrypt_kit.System.{step}
use volumecrypt_kit.Thread.{
  IrpEntry, Done, Phase, head, burst, sweeping, waiting, draining, ended, VolumeThread, Event, tick,
  arrive, cancel, control_start, control_pause, stop, max_irp_burst, enqueue, serve, serve_next,
  sweep_batch, drain_next, thread_step, happen, execute, Outcome,
}
use volumecrypt_kit.Thread.Orderly.{IsOrderly, happen-IsOrderly}
use volumecrypt_kit.Thread.Server.{
  Server, Act, asks, withdraws, starts, pauses, closes, takes, sweeps, discards, outside, reply,
  take_first, discard_first, act, serve_acts,
}

-- The thread acts a server.
abbrev pub view : {W : Type 0} → VolumeThread W → Server W
view t = record { pending = t.queue; closed = t.shutdown; system = t.system }

-- What the callers ask of the thread.
unfoldable pub asked : Event → List Act
asked tick = []
asked (arrive e) = asks e ∷ []
asked (cancel i) = withdraws i ∷ []
asked (control_start d) = starts d ∷ []
asked control_pause = pauses ∷ []
asked stop = closes ∷ []

unfoldable pub all_asked : List Event → List Act
unfolding asked
all_asked [] = []
all_asked (e ∷ es) = asked e ++ all_asked es

unfoldable pub all_outside : List Act → List Act
unfolding outside
all_outside [] = []
all_outside (a ∷ acts) = outside a ++ all_outside acts

module _ {W : Type 0} (io : SectorIo W) (st : OffsetStore W) where
  -- The outcome is one act of the server, or none that it would notice.
  abbrev Matches : List Act → VolumeThread W → Outcome W → Type 0
  Matches ask t r =
      ((ask ≡ []) × (r.0 ≡ []) × (view r.1 ≡ view t))
      ⊎ ((a : Act) × ((outside a ≡ ask) × (act io st a (view t) ≡ some (r.0, view r.1))))

  enqueue-act : (e : IrpEntry) (t : VolumeThread W) → Matches (asks e ∷ []) t (enqueue e t)
  unfolding enqueue outside act
  enqueue-act e t = elim (Bool-cases t.shutdown) [
    | inl down ↦ inr (asks e, (refl, rw down refl))
    | inr up ↦ inr (asks e, (refl, rw up refl))
  ]

  serve_next-act :
      (n : ℕ) (q : List IrpEntry) (t : VolumeThread W)
      → t.queue ≡ q
      → Matches [] t (serve_next io st n q t)
  unfolding serve_next serve outside act take_first reply step
  serve_next-act n [] t is = inl (refl, refl, refl)
  serve_next-act n (e ∷ rest) t is = elim (Bool-cases (ltb n max_irp_burst)) [
    | inr full ↦ rw full (inl (refl, refl, refl))
    | inl room ↦ elim (Bool-cases e.cancelled) [
      | inl c ↦ inr (takes, (refl, simp (room, c, is) refl))
      | inr c ↦ inr (takes, (refl, simp (room, c, is) refl))
    ]
  ]

  drain_next-act :
      (q : List IrpEntry) (t : VolumeThread W)
      → t.queue ≡ q
      → t.shutdown ≡ true
      → Matches [] t (drain_next io st q t)
  unfolding drain_next outside act discard_first
  drain_next-act [] t is down = inl (refl, refl, refl)
  drain_next-act (e ∷ rest) t is down = inr (discards, (refl, rw (is, down) refl))

  sweep_batch-act : (t : VolumeThread W) → Matches [] t ([], sweep_batch io st t)
  unfolding sweep_batch outside act step
  sweep_batch-act t = inr (sweeps, (refl, refl))

  thread_step-act :
      (p : Phase) (t : VolumeThread W) → IsOrderly p t → Matches [] t (thread_step io st p t)
  unfolding thread_step IsOrderly
  thread_step-act head t o = inl (refl, refl, refl)
  thread_step-act (burst n) t o = serve_next-act n t.queue t refl
  thread_step-act sweeping t o = sweep_batch-act t
  thread_step-act waiting t o = inl (refl, refl, refl)
  thread_step-act draining t o = drain_next-act t.queue t refl o
  thread_step-act ended t o = inl (refl, refl, refl)

  happen-act :
      (e : Event) (t : VolumeThread W)
      → IsOrderly t.phase t
      → Matches (asked e) t (happen io st e t)
  unfolding happen asked act outside
  happen-act tick t o = thread_step-act t.phase t o
  happen-act (arrive e) t o = enqueue-act e t
  happen-act (cancel i) t o = inr (withdraws i, (refl, refl))
  happen-act (control_start d) t o = inr (starts d, (refl, refl))
  happen-act control_pause t o = inr (pauses, (refl, refl))
  happen-act stop t o = inr (closes, (refl, refl))

  serve_acts-cons :
      (a : Act) (acts : List Act) (s : Server W) {s' s'' : Server W} {out outs : List Done}
      → act io st a s ≡ some (out, s')
      → serve_acts io st acts s' ≡ some (outs, s'')
      → serve_acts io st (a ∷ acts) s ≡ some (out ++ outs, s'')
  unfolding serve_acts
  serve_acts-cons a acts s moved served = rw (serve_acts, moved, served) refl

  -- From any place where the thread is draining or ended only after `stop`, and ended only with an
  -- empty queue, every sequence of events of the thread and its callers is a run of the server that
  -- keeps its requests in the order of their arrival: with the callers' acts in the same order, and
  -- between them acts of its own that each take the first request, sweep a batch, or discard the
  -- first request once it is closed, the server completes the same requests with the same replies
  -- in the same order, and ends with the thread's queue, stop flag, volume and devices.
  pub execute-serve_acts :
      (es : List Event) (t : VolumeThread W)
      → IsOrderly t.phase t
      → (acts : List Act) × ((all_outside acts ≡ all_asked es)
          × (serve_acts io st acts (view t)
              ≡ some ((execute io st es t).0, view (execute io st es t).1)))
  unfolding execute all_outside all_asked serve_acts
  execute-serve_acts [] t o = ([], (refl, refl))
  execute-serve_acts (e ∷ es) t o =
      let (acts, (asked_es, served)) =
        execute-serve_acts es (happen io st e t).1 (happen-IsOrderly io st e t o) in
      elim (happen-act e t o) [
        | inl (silent, none_done, still) ↦
            (acts, (rw silent asked_es, rw (none_done, ← still) served))
        | inr (a, (same, moved)) ↦
            (a ∷ acts, (rw (same, asked_es) refl, serve_acts-cons a acts (view t) moved served))
      ]
