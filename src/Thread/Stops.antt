-- ===== src/Thread/Stops.antt =====
-- lib/windrv/src/filter/volume_thread.rs: the thread after `stop`.
use volumecrypt_kit.Prelude.{
  ℕ, zero, suc, ◌+◌, ◌≤◌, ◌≡◌, refl, true, List, [], ◌∷◌, ◌++◌, arith, replicate,
}
use volumecrypt_kit.Device.{SectorIo, OffsetStore}
use volumecrypt_kit.Thread.{ended, VolumeThread, Event, tick, stop, thread_step, happen, execute}
use volumecrypt_kit.Thread.Conserves.{queued, completions, arrived, held-execute}
use volumecrypt_kit.Thread.Orderly.{
  IsOrderly, steps_left, step_closer, none_left, happen-IsOrderly, execute-IsOrderly,
}

module _ {W : Type 0} (io : SectorIo W) (st : OffsetStore W) where
  ended_lem :
      (t : VolumeThread W)
      → IsOrderly t.phase t
      → t.phase ≡ ended
      → (t.phase ≡ ended) × (t.queue ≡ [])
  unfolding IsOrderly
  ended_lem t o is = (is, (rw is at o).1)

  ticks_end :
      (k : ℕ) (t : VolumeThread W)
      → t.shutdown ≡ true
      → IsOrderly t.phase t
      → steps_left t.phase t.queue ≤ k
      → let t' = (execute io st (replicate k tick) t).1 in (t'.phase ≡ ended) × (t'.queue ≡ [])
  unfolding execute happen
  ticks_end zero t down o le = ended_lem t o (none_left io st t.phase t le)
  ticks_end (suc k) t down o le =
      let (less, down', o') = step_closer io st t.phase t down o in
      ticks_end k (thread_step io st t.phase t).1 down' o' (omega (arith, less))

  execute-append :
      (es fs : List Event) (t : VolumeThread W)
      → (execute io st (es ++ fs) t).1 ≡ (execute io st fs (execute io st es t).1).1
  unfolding execute
  execute-append [] fs t = refl
  execute-append (e ∷ es) fs t = execute-append es fs (happen io st e t).1

  module _ (es : List Event) (t : VolumeThread W) (o : IsOrderly t.phase t) (k : ℕ) where
    abbrev before : VolumeThread W
    before = (execute io st es t).1

    abbrev stopped : List Event
    stopped = es ++ (stop ∷ replicate k tick)

    -- After any events, once `stop` is called the thread ends with an empty queue within the number
    -- of steps that its place and its queue give: at most one for each queued IRP and for what is
    -- left of a burst, and five more.
    pub stop-ends :
        steps_left before.phase before.queue ≤ k
        → ((execute io st stopped t).1.phase ≡ ended) × ((execute io st stopped t).1.queue ≡ [])
    unfolding execute happen
    stop-ends le = rw (execute-append es (stop ∷ replicate k tick) t) (
        ticks_end k (record before { shutdown = true }) refl
          (happen-IsOrderly io st stop before (execute-IsOrderly io st es t o)) le)

    -- After any events, if `stop` is called and the thread then runs for at least as many steps as
    -- it has left, each IRP has been completed exactly as often as it was queued at first or has
    -- arrived: none is lost and none is completed twice.
    pub stop-completes :
        steps_left before.phase before.queue ≤ k
        → (i : ℕ) → completions i (execute io st stopped t).0 ≡ queued i t.queue + arrived i stopped
    unfolding queued
    stop-completes le i =
        let none_queued : queued i (execute io st stopped t).1.queue ≡ 0 =
          rw (stop-ends le).1 refl in
        omega (arith, held-execute io st i stopped t, none_queued)
