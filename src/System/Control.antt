-- ===== src/System/Control.antt =====
-- The sweep and the control requests of a volume, beside the specification.
use volumecrypt_kit.Prelude.{ℕ, ◌+◌, ◌<◌, ◌≡◌, inl, refl, sym, ◌∙◌, List, arith, Bool}
use volumecrypt_kit.Error.{VckResult, ok}
use volumecrypt_kit.Types.{VolumeState, EncryptedOffset, encrypt, decrypt}
use volumecrypt_kit.Device.{SectorIo, IsDevice, OffsetStore, KeepsData}
use volumecrypt_kit.Cipher.{VolumeCipher, IsCipher}
use volumecrypt_kit.Plain.{plain_cong}
use volumecrypt_kit.Engine
use volumecrypt_kit.Engine.{
  EngineState, idle, encrypting, decrypting, paused, EncryptionEngine, progress_step, towards,
}
use volumecrypt_kit.Engine.Reliable.{Reliable, Kept, progress_step_lem}
use volumecrypt_kit.Volume.{
  AttachedVolume, sync_boundary, sweep_step, after_step, burst_cipher, offset_sector, data_sectors,
}
use volumecrypt_kit.System.{System, sweep, start, pause, start_towards, step}
use volumecrypt_kit.System.Spec.{Sees}

after_step-ok :
    (r : VckResult Bool) (v : AttachedVolume)
    → ((b : Bool) × (r ≡ ok b))
    → after_step r v ≡ record v { encrypted_boundary = v.encryption.encrypted_offset.sector }
unfolding after_step sync_boundary Engine.encrypted_boundary
after_step-ok r v good = rw good.1 refl

abbrev paused_of : EngineState → EngineState
paused_of encrypting = paused
paused_of decrypting = paused
paused_of x = x

pause-state :
    (offset : ℕ) (o : EncryptedOffset) (x : EngineState)
    → Engine.pause (record { offset_sector = offset; encrypted_offset = o; state = x })
      ≡ record { offset_sector = offset; encrypted_offset = o; state = paused_of x }
unfolding Engine.pause
pause-state offset o encrypting = refl
pause-state offset o decrypting = refl
pause-state offset o idle = refl
pause-state offset o paused = refl

module _ {W : Type 0} {io : SectorIo W} {sector : W → ℕ → List ℕ} (dev : IsDevice io sector)
    {c : VolumeCipher} (ci : IsCipher c io.sector_size) {st : OffsetStore W}
    (reliable : Reliable io st) (offset total : ℕ) (kd : KeepsData st sector offset total) where
  module _ (content : ℕ → List ℕ) (s : System W)
      (sees : Sees c io.sector_size sector offset total content s) where
    abbrev engine_of : EncryptionEngine
    engine_of = s.volume.encryption

    region : KeepsData st sector engine_of.offset_sector engine_of.encrypted_offset.total_sectors
    region = rw (sees.offset_same, sees.total_same) kd

    abbrev stepped : ℕ → VckResult Bool × (EncryptionEngine × W)
    stepped batch = progress_step io c st batch (engine_of, s.world)

    kept :
        (batch : ℕ)
        → Kept dev ci reliable engine_of sees.ready.engine region batch s.world (stepped batch)
    kept batch = progress_step_lem dev ci reliable engine_of sees.ready.engine region batch s.world

    sweep_step-eq :
        (batch : ℕ)
        → sweep_step io st batch (s.volume, s.world) ≡ (
          (stepped batch).0,
          (
            record (s.volume) {
              encryption = (stepped batch).1.0;
              encrypted_boundary = (stepped batch).1.0.encrypted_offset.sector;
            },
            (stepped batch).1.1,
          ),
        )
    unfolding sweep_step
    sweep_step-eq batch =
        rw
          (
            sweep_step,
            sees.ready.keyed,
            after_step-ok (stepped batch).0 (record (s.volume) { encryption = (stepped batch).1.0 })
                (kept batch).succeeds,
          )
          refl

    pub sweep-Sees :
        (batch : ℕ)
        → Sees c io.sector_size sector offset total content (step io st (sweep batch) s).1
    unfolding step burst_cipher offset_sector data_sectors
    sweep-Sees batch = rw (sweep_step-eq batch) (record {
      ready = record {
        keyed = sees.ready.keyed;
        sizes = sees.ready.sizes;
        same_offset = sees.ready.same_offset ∙ sym (kept batch).offset_same;
        same_total = sees.ready.same_total ∙ sym (kept batch).total_same;
        synced = refl;
        engine = (kept batch).valid;
      };
      holds = inl refl;
      offset_same = (kept batch).offset_same ∙ sees.offset_same;
      total_same = (kept batch).total_same ∙ sees.total_same;
      plain_same = λ rel lt.
          rw (kept batch).offset_same
            ((kept batch).plain_same rel (omega (arith, sees.total_same)) ∙ sees.plain_same rel lt);
    })

    -- Another state of the engine, and a world whose data region is the same.
    with_state-Sees :
        (x : EngineState) (w : W)
        → ((rel : ℕ)
            → rel < engine_of.encrypted_offset.total_sectors
            → sector w (engine_of.offset_sector + rel)
              ≡ sector s.world (engine_of.offset_sector + rel))
        → Sees c io.sector_size sector offset total content (record s {
          volume = record (s.volume) { encryption = record engine_of { state = x } };
          world = w;
        })
    unfolding burst_cipher offset_sector data_sectors
    with_state-Sees x w keeps = record {
      ready = record {
        keyed = sees.ready.keyed;
        sizes = sees.ready.sizes;
        same_offset = sees.ready.same_offset;
        same_total = sees.ready.same_total;
        synced = sees.ready.synced;
        engine = record { fits = sees.ready.engine.fits; within = sees.ready.engine.within };
      };
      holds = sees.holds;
      offset_same = sees.offset_same;
      total_same = sees.total_same;
      plain_same = λ rel lt.
          plain_cong c _ _ _ _ rel (keeps rel (omega (arith, sees.total_same)))
          ∙ sees.plain_same rel lt;
    }

    pub start-Sees :
        (direction : VolumeState)
        → Sees c io.sector_size sector offset total content (step io st (start direction) s).1
    unfolding step start_towards Engine.start_encrypt Engine.start_decrypt towards
    start-Sees encrypt = with_state-Sees _ _ (λ rel. region.store_state_keeps encrypt s.world rel)
    start-Sees decrypt = with_state-Sees _ _ (λ rel. region.store_state_keeps decrypt s.world rel)

    pub pause-Sees : Sees c io.sector_size sector offset total content (step io st pause s).1
    unfolding step
    pause-Sees =
        rw (pause-state engine_of.offset_sector engine_of.encrypted_offset engine_of.state)
          (with_state-Sees _ _ (λ rel lt. refl))
