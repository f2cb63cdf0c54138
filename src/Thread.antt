-- ===== src/Thread.antt =====
-- lib/windrv/src/filter/volume_thread.rs: the thread of a volume, which serves its requests and runs
-- its sweep. What one of its steps does under a lock is one event here, and the events of the thread
-- interleave in any order with those of the callers: a request that arrives, a request that is
-- cancelled, a control request, and `stop`.
pub mod Server
pub mod Refines
pub mod Order
pub mod Conserves
pub mod Orderly
pub mod Stops
use volumecrypt_kit.Prelude.{
  ℕ, ◌+◌, Bool, true, false, Option, none, some, List, [], ◌∷◌, ◌++◌, map, ltb, ◌==◌, if◌then◌else◌,
}
use volumecrypt_kit.Error.{VckResult, ok, err}
use volumecrypt_kit.Types.{VolumeState}
use volumecrypt_kit.Device.{SectorIo, OffsetStore}
use volumecrypt_kit.Volume.{AttachedVolume, sweep_step}
use volumecrypt_kit.Irp.{Request, Completion}
use volumecrypt_kit.System.{System, step, irp, start, pause}

-- `cancelled` is the Cancel flag of the IRP, `id` tells the IRPs apart.
pub record IrpEntry : Type 0 where
  pub id : ℕ
  pub request : Request
  pub cancelled : Bool

-- A request that has been completed: processed, or completed with STATUS_CANCELLED.
pub data Done : Type 0 where
  processed : ℕ → Completion → Done
  dropped : ℕ → Done

-- Where `thread_main` is: at the head of its loop, in the burst after `n` requests, before the sweep
-- batch, before the wait, in the final drain, or ended.
pub data Phase : Type 0 where
  head : Phase
  burst : ℕ → Phase
  sweeping waiting draining ended : Phase

pub record VolumeThread (W : Type 0) : Type 0 where
  pub queue : List IrpEntry
  pub shutdown : Bool
  pub did : Bool
  pub phase : Phase
  pub system : System W

pub data Event : Type 0 where
  tick : Event
  arrive : IrpEntry → Event
  cancel : ℕ → Event
  control_start : VolumeState → Event
  control_pause : Event
  stop : Event

abbrev pub max_irp_burst : ℕ
max_irp_burst = 64

abbrev pub batch_sectors : ℕ
batch_sectors = 2048

-- `Ok(true)`: more sweep work remains.
unfoldable pub more_work : VckResult Bool → Bool → Bool
more_work (ok true) did = true
more_work (ok false) did = did
more_work (err _) did = did

abbrev pub flag : ℕ → IrpEntry → IrpEntry
flag i e = if e.id == i then record e { cancelled = true } else e

abbrev pub Outcome : Type 0 → Type 0
Outcome W = List Done × VolumeThread W

module _ {W : Type 0} where
  -- `enqueue`
  unfoldable pub enqueue : IrpEntry → VolumeThread W → Outcome W
  enqueue e t =
      if t.shutdown then (dropped e.id ∷ [], t) else ([], record t { queue = t.queue ++ (e ∷ []) })

  module _ (io : SectorIo W) (st : OffsetStore W) where
    -- `claim_cancelled`, and then `process_irp` if the request was not cancelled.
    unfoldable pub serve : ℕ → IrpEntry → List IrpEntry → VolumeThread W → Outcome W
    serve n e rest t =
        let next = record t { queue = rest; did = true; phase = burst (n + 1) } in
        let (r, s) = step io st (irp e.request) t.system in
        if e.cancelled
        then (dropped e.id ∷ [], next)
        else (elim r [ none ↦ [] | some c ↦ processed e.id c ∷ [] ], record next { system = s })

    -- One iteration of the burst.
    unfoldable pub serve_next : ℕ → List IrpEntry → VolumeThread W → Outcome W
    unfolding serve
    serve_next n [] t = ([], record t { phase = sweeping })
    serve_next n (e ∷ rest) t =
        let out = serve n e rest t in
        if ltb n max_irp_burst then out else ([], record t { phase = sweeping })

    unfoldable pub sweep_batch : VolumeThread W → VolumeThread W
    unfolding more_work
    sweep_batch t =
        let (r, (v, w)) = sweep_step io st batch_sectors (t.system.volume, t.system.world) in
        let did = more_work r t.did in
        record t {
          did = did;
          phase = if did then head else waiting;
          system = record { volume = v; burst = none; world = w };
        }

    unfoldable pub drain_next : List IrpEntry → VolumeThread W → Outcome W
    drain_next [] t = ([], record t { phase = ended })
    drain_next (e ∷ rest) t = (dropped e.id ∷ [], record t { queue = rest; phase = draining })

    -- One step of `thread_main`.
    unfoldable pub thread_step : Phase → VolumeThread W → Outcome W
    unfolding serve_next sweep_batch drain_next
    thread_step head t =
        ([], record t { did = false; phase = if t.shutdown then draining else burst 0 })
    thread_step (burst n) t = serve_next n t.queue t
    thread_step sweeping t = ([], sweep_batch t)
    thread_step waiting t = ([], record t { phase = head })
    thread_step draining t = drain_next t.queue t
    thread_step ended t = ([], record t { phase = ended })

    unfoldable pub happen : Event → VolumeThread W → Outcome W
    unfolding thread_step enqueue
    happen tick t = thread_step t.phase t
    happen (arrive e) t = enqueue e t
    happen (cancel i) t = ([], record t { queue = map (flag i) t.queue })
    happen (control_start d) t = ([], record t { system = (step io st (start d) t.system).1 })
    happen control_pause t = ([], record t { system = (step io st pause t.system).1 })
    happen stop t = ([], record t { shutdown = true })

    -- Events in order, and the requests that they complete.
    unfoldable pub execute : List Event → VolumeThread W → Outcome W
    execute [] t = ([], t)
    execute (e ∷ es) t =
        let (out, t') = happen e t in let (outs, t'') = execute es t' in (out ++ outs, t'')
