-- ===== src/Examples/Thread.antt =====
-- The thread on the volume of `Examples.Sweep`: requests arrive, one is cancelled, the thread runs
-- and is stopped.
use volumecrypt_kit.Prelude.{
  ℕ, ◌+◌, ◌≡◌, refl, ◌≤◌, arith, true, false, some, List, [], ◌∷◌, ◌++◌, replicate,
}
use volumecrypt_kit.Types.{encrypt}
use volumecrypt_kit.Thread.{
  IrpEntry, VolumeThread, head, ended, Event, tick, arrive, cancel, control_start, stop, execute,
  happen, thread_step, enqueue, serve_next, serve,
}
use volumecrypt_kit.Thread.Server.{Act, serve_acts}
use volumecrypt_kit.Thread.Refines.{view, all_asked, all_outside, execute-serve_acts}
use volumecrypt_kit.Thread.Order.{
  ids, finished, arrivals, stopped, in_time, on_time, finished-execute,
}
use volumecrypt_kit.Thread.Conserves.{queued, completions, arrived, held-execute}
use volumecrypt_kit.Thread.Orderly.{IsOrderly, steps_left}
use volumecrypt_kit.Thread.Stops.{stop-ends, stop-completes}
use volumecrypt_kit.Examples.Disk.{Disk, disk_io, register}
use volumecrypt_kit.Examples.Sweep.{read_request, system}

abbrev thread : VolumeThread Disk
thread = record { queue = []; shutdown = false; did = false; phase = head; system = system }

abbrev entry : ℕ → IrpEntry
entry i = record { id = i; request = read_request; cancelled = false }

abbrev events : List Event
events =
    arrive (entry 1)
    ∷ arrive (entry 2)
    ∷ arrive (entry 3)
    ∷ cancel 2
    ∷ tick
    ∷ tick
    ∷ tick
    ∷ control_start encrypt
    ∷ []

held-execute_example :
    completions 2 (execute (disk_io 16) register events thread).0
      + queued 2 (execute (disk_io 16) register events thread).1.queue
    ≡ queued 2 [] + arrived 2 events
held-execute_example = held-execute (disk_io 16) register 2 events thread

thread-IsOrderly : IsOrderly head thread
unfolding IsOrderly
thread-IsOrderly = tt

execute-serve_acts_example :
    (acts : List Act) × ((all_outside acts ≡ all_asked events)
      × (serve_acts (disk_io 16) register acts (view thread)
          ≡ some (
            (execute (disk_io 16) register events thread).0,
            view (execute (disk_io 16) register events thread).1,
          )))
execute-serve_acts_example = execute-serve_acts (disk_io 16) register events thread thread-IsOrderly

none_late : on_time false events ≡ true
unfolding on_time stopped in_time
none_late = refl

finished-execute_example :
    finished (execute (disk_io 16) register events thread).0
      ++ ids (execute (disk_io 16) register events thread).1.queue
    ≡ ids [] ++ arrivals events
finished-execute_example = finished-execute (disk_io 16) register events thread none_late

enough :
    steps_left
      (execute (disk_io 16) register events thread).1.phase
      (execute (disk_io 16) register events thread).1.queue
    ≤ 80
unfolding steps_left execute happen thread_step enqueue serve_next serve
enough = omega arith

stop-ends_example :
    ((execute (disk_io 16) register (events ++ (stop ∷ replicate 80 tick)) thread).1.phase ≡ ended)
    × ((execute (disk_io 16) register (events ++ (stop ∷ replicate 80 tick)) thread).1.queue ≡ [])
stop-ends_example = stop-ends (disk_io 16) register events thread thread-IsOrderly 80 enough

stop-completes_example :
    completions 3 (execute (disk_io 16) register (events ++ (stop ∷ replicate 80 tick)) thread).0
    ≡ queued 3 [] + arrived 3 (events ++ (stop ∷ replicate 80 tick))
stop-completes_example =
    stop-completes (disk_io 16) register events thread thread-IsOrderly 80 enough 3
