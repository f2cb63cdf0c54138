-- ===== src/System/Transparent.antt =====
-- A volume under its thread, over any sequence of operations, beside the disk of System/Spec.
use volumecrypt_kit.Prelude.{
  ℕ, ◌+◌, ◌*◌, ◌≡◌, inl, inr, refl, sym, ap, ◌∙◌, List, [], ◌∷◌, Bool-cases, false,
}
use volumecrypt_kit.Prelude.Bytes.{gather}
use volumecrypt_kit.Device.{SectorIo, IsDevice, OffsetStore, KeepsData}
use volumecrypt_kit.Cipher.{VolumeCipher, IsCipher}
use volumecrypt_kit.Engine.Reliable.{Reliable}
use volumecrypt_kit.Irp.{
  Request, Completion, completed, success, process_irp-write, process_irp-read,
}
use volumecrypt_kit.System.{System, Op, irp, sweep, start, pause, step, run}
use volumecrypt_kit.System.Spec.{
  Asks, is_irp, WellFormed, done, ask, other, answers, answers-write, answers-read, Sees,
}
use volumecrypt_kit.System.Control.{sweep-Sees, start-Sees, pause-Sees}
use volumecrypt_kit.System.Requests.{read_reply, read-Sees, write_reply, write-Sees}

module _ {W : Type 0} {io : SectorIo W} {sector : W → ℕ → List ℕ} (dev : IsDevice io sector)
    {c : VolumeCipher} (ci : IsCipher c io.sector_size) {st : OffsetStore W}
    (reliable : Reliable io st) (offset total : ℕ) (kd : KeepsData st sector offset total) where
  run-ask :
      (q : Request) (a : Asks io.sector_size offset total q) (ops : List Op)
      (rest : WellFormed io.sector_size offset total ops) (content : ℕ → List ℕ) (s : System W)
      → Sees c io.sector_size sector offset total content s
      → ((content' : ℕ → List ℕ) (s' : System W)
          → Sees c io.sector_size sector offset total content' s'
          → run io st ops s' ≡ answers rest content')
      → run io st (irp q ∷ ops) s ≡ answers (ask a rest) content
  unfolding run step
  run-ask q a ops rest content s sees go = elim (Bool-cases q.is_write) [
    | inl writes ↦
        rw
          (
            process_irp-write io s.volume s.burst q s.world writes,
            write_reply dev ci reliable offset total kd content s sees q a writes,
          )
          (ap (λ l. completed success (a.n * io.sector_size) [] ∷ l)
            (go _ _ (write-Sees dev ci reliable offset total kd content s sees q a writes)))
        ∙ sym (answers-write q a rest content writes)
    | inr reads ↦
        rw
          (
            process_irp-read io s.volume s.burst q s.world reads,
            read_reply dev ci reliable offset total kd content s sees q a,
          )
          (ap
            (λ l.
              completed success (a.n * io.sector_size) (gather a.n (λ i. content (a.rel + i))) ∷ l)
            (go _ _ (read-Sees dev ci reliable offset total kd content s sees q a)))
        ∙ sym (answers-read q a rest content reads)
  ]

  run-other :
      (op : Op)
      → is_irp op ≡ false
      → (ops : List Op) → (content : ℕ → List ℕ) (s : System W)
      → Sees c io.sector_size sector offset total content s
      → (l : List Completion)
      → ((s' : System W)
          → Sees c io.sector_size sector offset total content s'
          → run io st ops s' ≡ l)
      → run io st (op ∷ ops) s ≡ l
  unfolding run step
  run-other (irp q) not_irp ops content s sees l go = cc not_irp
  run-other (sweep batch) not_irp ops content s sees l go =
      go _ (sweep-Sees dev ci reliable offset total kd content s sees batch)
  run-other (start d) not_irp ops content s sees l go =
      go _ (start-Sees dev ci reliable offset total kd content s sees d)
  run-other pause not_irp ops content s sees l go =
      go _ (pause-Sees dev ci reliable offset total kd content s sees)

  -- Transparent encryption. Take a device, a cipher and an offset store that meet their laws and
  -- whose operations succeed, and a volume whose parts agree and that stands for the plaintext
  -- `content`. Then for every list of requests for whole sectors of the data region, interleaved in
  -- any way with sweep batches, changes of direction and pauses, the replies are those of a disk
  -- that holds `content` in plaintext and that only a WRITE changes.
  pub run-answers :
      (ops : List Op) (wf : WellFormed io.sector_size offset total ops) (content : ℕ → List ℕ)
      (s : System W)
      → Sees c io.sector_size sector offset total content s
      → run io st ops s ≡ answers wf content
  unfolding run answers
  run-answers [] done content s sees = refl
  run-answers (op ∷ ops) (ask {q = q} a rest) content s sees =
      run-ask q a ops rest content s sees (run-answers ops rest)
  run-answers (op ∷ ops) (other n rest) content s sees =
      run-other op n ops content s sees (answers rest content) (run-answers ops rest content)
