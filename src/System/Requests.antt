-- ===== src/System/Requests.antt =====
-- One request of a volume, beside the specification.
use volumecrypt_kit.Prelude.{
  ℕ, ◌+◌, ◌-◌, ◌*◌, ◌<◌, ◌≡◌, inl, inr, refl, ap, ◌∙◌, List, [], arith, ltb, leb, ◌&&◌,
  if◌then◌else◌, true,
}
use volumecrypt_kit.Prelude.Bytes.{gather, gather_cong}
use volumecrypt_kit.Device.{SectorIo, IsDevice, OffsetStore, KeepsData}
use volumecrypt_kit.Cipher.{VolumeCipher, IsCipher}
use volumecrypt_kit.Plain.{plain, plain_cong}
use volumecrypt_kit.Engine.{EncryptionEngine}
use volumecrypt_kit.Engine.Reliable.{Reliable}
use volumecrypt_kit.Irp.{
  Request, completed, success, process_read, process_write, finish_read, finish_write, io_len,
  first_lba,
}
use volumecrypt_kit.Irp.Read.{Names, ReadOutcome, with_buffer_lem, process_read_lem}
use volumecrypt_kit.Irp.Write.{WriteOutcome, process_write_lem}
use volumecrypt_kit.System.{System}
use volumecrypt_kit.System.Spec.{Asks, written, Sees}

module _ {W : Type 0} {io : SectorIo W} {sector : W → ℕ → List ℕ} (dev : IsDevice io sector)
    {c : VolumeCipher} (ci : IsCipher c io.sector_size) {st : OffsetStore W}
    (reliable : Reliable io st) (offset total : ℕ) (kd : KeepsData st sector offset total) where
  module _ (content : ℕ → List ℕ) (s : System W)
      (sees : Sees c io.sector_size sector offset total content s) where
    abbrev engine_of : EncryptionEngine
    engine_of = s.volume.encryption

    module _ (q : Request) (a : Asks io.sector_size offset total q) where
      names : Names s.volume q a.rel a.n
      unfolding first_lba
      names = record {
        begins = rw (sees.ready.sizes, sees.offset_same) a.begins;
        inside = omega (arith, sees.total_same, a.inside, a.some_sectors);
        sectors = rw sees.ready.sizes a.sectors;
        some_sectors = a.some_sectors;
        is_mapped = a.is_mapped;
        is_allocated = a.is_allocated;
      }

      read_done :
          ReadOutcome dev ci s.volume sees.ready s.burst sees.holds q a.rel a.n names s.world
            (process_read io s.volume s.burst q s.world)
      read_done =
          process_read_lem dev ci s.volume sees.ready s.burst sees.holds q a.rel a.n names s.world

      read_succeeds : (process_read io s.volume s.burst q s.world).0.status ≡ success
      unfolding process_read finish_read
      read_succeeds =
          rw
            (
              with_buffer_lem dev ci s.volume sees.ready s.burst sees.holds q a.rel a.n names
                  s.world _,
              (reliable.reads (first_lba s.volume q) (io_len s.volume q) s.world).1,
            )
            refl

      pub read_reply :
          (process_read io s.volume s.burst q s.world).0
          ≡ completed success (a.n * io.sector_size) (gather a.n (λ i. content (a.rel + i)))
      read_reply = elim read_done.reply [
        | inr bad ↦ cc (bad, read_succeeds)
        | inl good ↦
            good
            ∙ ap (completed success (a.n * io.sector_size)) (
                gather_cong a.n _ _ (λ i lt. sees.plain_same (a.rel + i) (omega (arith, a.inside))))
      ]

      pub read-Sees : Sees c io.sector_size sector offset total content (record s {
        burst = (process_read io s.volume s.burst q s.world).1.0;
        world = (process_read io s.volume s.burst q s.world).1.1;
      })
      read-Sees = record {
        ready = sees.ready;
        holds = read_done.burst_holds;
        offset_same = sees.offset_same;
        total_same = sees.total_same;
        plain_same =
            λ rel lt. plain_cong c _ _ _ _ rel (read_done.disk_same _) ∙ sees.plain_same rel lt;
      }

      module _ (writes : q.is_write ≡ true) where
        write_done :
            WriteOutcome dev ci s.volume sees.ready s.burst sees.holds q a.rel a.n names s.world
              a.new a.new_whole
              (a.content writes)
              (process_write io s.volume s.burst q s.world)
        write_done =
            process_write_lem dev ci s.volume sees.ready s.burst sees.holds q a.rel a.n names
              s.world a.new a.new_whole (a.content writes)

        write_succeeds : (process_write io s.volume s.burst q s.world).0.status ≡ success
        unfolding process_write finish_write
        write_succeeds =
            rw
              (
                with_buffer_lem dev ci s.volume sees.ready s.burst sees.holds q a.rel a.n names
                    s.world _,
                reliable.writes (first_lba s.volume q) _ s.world,
              )
              refl

        write_plain :
            (rel : ℕ)
            → rel < total
            → plain c engine_of.offset_sector engine_of.encrypted_offset.sector
                (sector (process_write io s.volume s.burst q s.world).1.1)
                rel
              ≡ written a.rel a.n a.new content rel
        write_plain rel lt = elim write_done.reply [
          | inr bad ↦ cc (bad, write_succeeds)
          | inl good ↦
              good.1 rel
              ∙ ap
                  (λ (p : List ℕ).
                    if leb a.rel rel && ltb rel (a.rel + a.n) then a.new (rel - a.rel) else p)
                  (sees.plain_same rel lt)
        ]

        pub write_reply :
            (process_write io s.volume s.burst q s.world).0
            ≡ completed success (a.n * io.sector_size) []
        write_reply = elim write_done.reply [
          | inr bad ↦ cc (bad, write_succeeds)
          | inl good ↦ good.0
        ]

        pub write-Sees :
            Sees c io.sector_size sector offset total (written a.rel a.n a.new content) (record s {
              burst = (process_write io s.volume s.burst q s.world).1.0;
              world = (process_write io s.volume s.burst q s.world).1.1;
            })
        write-Sees = record {
          ready = sees.ready;
          holds = write_done.burst_holds;
          offset_same = sees.offset_same;
          total_same = sees.total_same;
          plain_same = write_plain;
        }
