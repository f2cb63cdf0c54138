-- ===== src/Thread/Orderly.antt =====
-- lib/windrv/src/filter/volume_thread.rs: the places of the thread, and the steps that it has
-- left after `stop`.
use volumecrypt_kit.Prelude.{
  ℕ, ◌+◌, ◌-◌, ◌≤◌, ◌≡◌, refl, ◌∙◌, inl, inr, true, false, List, [], ◌∷◌, ◌++◌, map, arith, ltb,
  Bool-cases, length,
}
use volumecrypt_kit.Device.{SectorIo, OffsetStore}
use volumecrypt_kit.Volume.{sweep_step}
use volumecrypt_kit.Thread.{
  IrpEntry, Phase, head, burst, sweeping, waiting, draining, ended, VolumeThread, Event, tick,
  arrive, cancel, control_start, control_pause, stop, max_irp_burst, batch_sectors, flag, enqueue,
  serve, serve_next, sweep_batch, more_work, drain_next, thread_step, happen, execute,
}

module _ {W : Type 0} where
  -- The thread drains and ends only after `stop`, and ends with an empty queue.
  unfoldable pub IsOrderly : Phase → VolumeThread W → Type 0
  IsOrderly draining t = t.shutdown ≡ true
  IsOrderly ended t = (t.shutdown ≡ true) × (t.queue ≡ [])
  IsOrderly p t = Unit {0}

-- The steps to the end, at most, once `stop` was called.
unfoldable pub steps_left : Phase → List IrpEntry → ℕ
steps_left ended q = 0
steps_left draining q = 1 + length q
steps_left head q = 2 + length q
steps_left waiting q = 3 + length q
steps_left sweeping q = 4 + length q
steps_left (burst n) q = 5 + length q + (max_irp_burst - n)

module _ {W : Type 0} (io : SectorIo W) (st : OffsetStore W) where
  abbrev after : Phase → VolumeThread W → VolumeThread W
  after p t = (thread_step io st p t).1

  serve_next_closer :
      (n : ℕ) (q : List IrpEntry) (t : VolumeThread W)
      → t.queue ≡ q
      → let t' = (serve_next io st n q t).1 in
        (steps_left t'.phase t'.queue + 1 ≤ steps_left (burst n) q)
        × (t'.shutdown ≡ t.shutdown)
        × IsOrderly t'.phase t'
  unfolding serve_next serve steps_left IsOrderly
  serve_next_closer n [] t is = rw is (omega arith, refl, tt)
  serve_next_closer n (e ∷ rest) t is = elim (Bool-cases (ltb n max_irp_burst)) [
    | inr full ↦ rw (full, is) (omega arith, refl, tt)
    | inl room ↦ elim (Bool-cases e.cancelled) [
      | inl c ↦ simp (room, c) (ground arith, refl, tt)
      | inr c ↦ simp (room, c) (ground arith, refl, tt)
    ]
  ]

  drain_next_closer :
      (q : List IrpEntry) (t : VolumeThread W)
      → t.queue ≡ q
      → t.shutdown ≡ true
      → let t' = (drain_next io st q t).1 in
        (steps_left t'.phase t'.queue ≤ steps_left draining q - 1)
        × (t'.shutdown ≡ true)
        × IsOrderly t'.phase t'
  unfolding drain_next steps_left IsOrderly
  drain_next_closer [] t is down = (omega arith, down, (down, is))
  drain_next_closer (e ∷ rest) t is down = (omega arith, down, down)

  pub step_closer :
      (p : Phase) (t : VolumeThread W)
      → t.shutdown ≡ true
      → IsOrderly p t
      → (steps_left (after p t).phase (after p t).queue ≤ steps_left p t.queue - 1)
        × ((after p t).shutdown ≡ true)
        × IsOrderly (after p t).phase (after p t)
  unfolding thread_step steps_left IsOrderly sweep_batch
  step_closer head t down o = rw down (omega arith, refl, refl)
  step_closer (burst n) t down o =
      let (less, same, orderly) = serve_next_closer n t.queue t refl in
      (omega (arith, less), same ∙ down, orderly)
  step_closer sweeping t down o =
      elim (Bool-cases
        (more_work (sweep_step io st batch_sectors (t.system.volume, t.system.world)).0 t.did)) [
          | inl more ↦ rw more (omega arith, down, tt)
          | inr idle ↦ rw idle (omega arith, down, tt)
        ]
  step_closer waiting t down o = (omega arith, down, tt)
  step_closer draining t down o = drain_next_closer t.queue t refl down
  step_closer ended t down o = (omega arith, down, o)

  -- Only the end is no step away.
  pub none_left : (p : Phase) (t : VolumeThread W) → steps_left p t.queue ≤ 0 → p ≡ ended
  unfolding steps_left
  none_left ended t le = refl
  none_left draining t le = absurd (omega arith)
  none_left head t le = absurd (omega arith)
  none_left waiting t le = absurd (omega arith)
  none_left sweeping t le = absurd (omega arith)
  none_left (burst n) t le = absurd (omega arith)

  step-IsOrderly :
      (p : Phase) (t : VolumeThread W) → IsOrderly p t → IsOrderly (after p t).phase (after p t)
  unfolding thread_step IsOrderly sweep_batch
  step-IsOrderly head t o = elim (Bool-cases t.shutdown) [
    | inl down ↦ rw down refl
    | inr up ↦ rw up tt
  ]
  step-IsOrderly (burst n) t o = (serve_next_closer n t.queue t refl).2
  step-IsOrderly sweeping t o =
      elim (Bool-cases
        (more_work (sweep_step io st batch_sectors (t.system.volume, t.system.world)).0 t.did)) [
          | inl more ↦ rw more tt
          | inr idle ↦ rw idle tt
        ]
  step-IsOrderly waiting t o = tt
  step-IsOrderly draining t o = (drain_next_closer t.queue t refl o).2
  step-IsOrderly ended t o = o

  IsOrderly-still :
      (p : Phase) (t t' : VolumeThread W)
      → (t.shutdown ≡ true → t'.shutdown ≡ true)
      → (t.shutdown ≡ true → t.queue ≡ [] → t'.queue ≡ [])
      → IsOrderly p t
      → IsOrderly p t'
  unfolding IsOrderly
  IsOrderly-still head t t' down empty o = tt
  IsOrderly-still (burst n) t t' down empty o = tt
  IsOrderly-still sweeping t t' down empty o = tt
  IsOrderly-still waiting t t' down empty o = tt
  IsOrderly-still draining t t' down empty o = down o
  IsOrderly-still ended t t' down empty o = (down o.0, empty o.0 o.1)

  enqueue-down : (e : IrpEntry) (t : VolumeThread W) → t.shutdown ≡ true → (enqueue e t).1 ≡ t
  unfolding enqueue
  enqueue-down e t down = ground arith

  enqueue-up :
      (e : IrpEntry) (t : VolumeThread W)
      → t.shutdown ≡ false
      → (enqueue e t).1 ≡ record t { queue = t.queue ++ (e ∷ []) }
  unfolding enqueue
  enqueue-up e t up = ground arith

  enqueue-IsOrderly :
      (e : IrpEntry) (t : VolumeThread W)
      → IsOrderly t.phase t
      → IsOrderly (enqueue e t).1.phase (enqueue e t).1
  enqueue-IsOrderly e t o = elim (Bool-cases t.shutdown) [
    | inl down ↦ rw (enqueue-down e t down) o
    | inr up ↦ rw (enqueue-up e t up) (
        IsOrderly-still t.phase t (record t { queue = t.queue ++ (e ∷ []) }) (λ d. d)
          (λ d q. cc (d, up)) o)
  ]

  pub happen-IsOrderly :
      (e : Event) (t : VolumeThread W)
      → IsOrderly t.phase t
      → IsOrderly (happen io st e t).1.phase (happen io st e t).1
  unfolding happen
  happen-IsOrderly tick t o = step-IsOrderly t.phase t o
  happen-IsOrderly (arrive e) t o = enqueue-IsOrderly e t o
  happen-IsOrderly (cancel i) t o =
      IsOrderly-still t.phase t (record t { queue = map (flag i) t.queue }) (λ d. d)
        (λ d q. rw q refl) o
  happen-IsOrderly (control_start d) t o =
      IsOrderly-still t.phase t (happen io st (control_start d) t).1 (λ d. d) (λ d q. q) o
  happen-IsOrderly control_pause t o =
      IsOrderly-still t.phase t (happen io st control_pause t).1 (λ d. d) (λ d q. q) o
  happen-IsOrderly stop t o =
      IsOrderly-still t.phase t (record t { shutdown = true }) (λ d. refl) (λ d q. q) o

  pub execute-IsOrderly :
      (es : List Event) (t : VolumeThread W)
      → IsOrderly t.phase t
      → IsOrderly (execute io st es t).1.phase (execute io st es t).1
  unfolding execute
  execute-IsOrderly [] t o = o
  execute-IsOrderly (e ∷ es) t o =
      execute-IsOrderly es (happen io st e t).1 (happen-IsOrderly e t o)
