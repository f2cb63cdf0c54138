-- ===== src/Thread/Server.antt =====
-- A server of requests, without phases and bursts: what lib/windrv/src/filter/volume_thread.rs
-- promises its callers. It keeps the requests in the order of their arrival, and takes the first.
use volumecrypt_kit.Prelude.{
  ℕ, Bool, true, Option, none, some, List, [], ◌∷◌, ◌++◌, map, if◌then◌else◌,
}
use volumecrypt_kit.Types.{VolumeState}
use volumecrypt_kit.Device.{SectorIo, OffsetStore}
use volumecrypt_kit.Irp.{Completion}
use volumecrypt_kit.System.{System, step, irp, sweep, start, pause}
use volumecrypt_kit.Thread.{IrpEntry, Done, processed, dropped, batch_sectors, flag}

pub record Server (W : Type 0) : Type 0 where
  pub pending : List IrpEntry
  pub closed : Bool
  pub system : System W

-- What the callers do, and then what the server does.
pub data Act : Type 0 where
  asks : IrpEntry → Act
  withdraws : ℕ → Act
  starts : VolumeState → Act
  pauses closes : Act
  takes sweeps discards : Act

-- The callers' part of an act.
unfoldable pub outside : Act → List Act
outside takes = []
outside sweeps = []
outside discards = []
outside a = a ∷ []

abbrev pub Served : Type 0 → Type 0
Served W = Option (List Done × Server W)

-- The reply to a request that was taken.
unfoldable pub reply : ℕ → Option Completion → List Done
reply i none = []
reply i (some c) = processed i c ∷ []

module _ {W : Type 0} (io : SectorIo W) (st : OffsetStore W) where
  -- The first request is answered by the system, unless it was withdrawn.
  unfoldable pub take_first : List IrpEntry → Server W → Served W
  unfolding reply
  take_first [] s = none
  take_first (e ∷ rest) s =
      let (r, y) = step io st (irp e.request) s.system in
      if e.cancelled
      then some (dropped e.id ∷ [], record s { pending = rest })
      else some (reply e.id r, record s { pending = rest; system = y })

  unfoldable pub discard_first : List IrpEntry → Server W → Served W
  discard_first [] s = none
  discard_first (e ∷ rest) s =
      if s.closed then some (dropped e.id ∷ [], record s { pending = rest }) else none

  -- An act, where it is allowed: the server takes and discards only what was asked of it, and
  -- discards nothing before it is closed.
  unfoldable pub act : Act → Server W → Served W
  unfolding take_first discard_first
  act (asks e) s =
      if s.closed
      then some (dropped e.id ∷ [], s)
      else some ([], record s { pending = s.pending ++ (e ∷ []) })
  act (withdraws i) s = some ([], record s { pending = map (flag i) s.pending })
  act (starts d) s = some ([], record s { system = (step io st (start d) s.system).1 })
  act pauses s = some ([], record s { system = (step io st pause s.system).1 })
  act closes s = some ([], record s { closed = true })
  act takes s = take_first s.pending s
  act sweeps s = some ([], record s { system = (step io st (sweep batch_sectors) s.system).1 })
  act discards s = discard_first s.pending s

  unfoldable pub serve_acts : List Act → Server W → Served W
  serve_acts [] s = some ([], s)
  serve_acts (a ∷ acts) s = elim (act a s) [
    | none ↦ none
    | some (out, s') ↦ elim (serve_acts acts s') [
      | none ↦ none
      | some (outs, s'') ↦ some (out ++ outs, s'')
    ]
  ]
