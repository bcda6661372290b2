-- ===== src/Control/Machine.antt =====
-- The device as an abstract machine: one step for each operation, and sequences of them.
use qdmav.Prelude.{
  ℕ, ◌≡◌, ◌≢◌, inl, inr, refl, sym, ap, ◌∙◌, List, [], ◌∷◌, none, some, Option-cases,
}
use qdmav.Prelude.Errors.{Result}
use qdmav.Descq.{Descq}
use qdmav.Device.{Position, descq_at}
use qdmav.Context.{Port}
use qdmav.Lifecycle.{GlobalCsrConf}
use qdmav.Control.{
  config_body, reconfig_body, start_body, stop_body, remove_body, Driver, qdma_queue_config,
  qdma_queue_reconfig, qdma_queue_start, qdma_queue_stop, qdma_queue_remove, Body, with_queue,
}
use qdmav.Control.Phases.{
  Phase, phase, IsSound, Moved, Op, config, reconfig, start, stop, remove, Move,
}
use qdmav.Control.Bodies.{config-Moved, reconfig-Moved, stop-Moved, remove-Moved}
use qdmav.Control.Started.{IsReadable, start-Moved}
use qdmav.Control.Refines.{
  target, in_use, lookup, lookup-enabled, Stepped, AllSound, Stepped-body, gone-body,
}

module _ {ℓ} {S : Type ℓ} (port : Port S) (csr_get : S → Result GlobalCsrConf × S) where
  unfoldable pub step : Op → Driver S → Result ℕ × Driver S
  step (config id qconf) d = qdma_queue_config id qconf d
  step (reconfig id qconf) d = qdma_queue_reconfig id qconf d
  step (start id mem cut) d = qdma_queue_start port csr_get id mem cut d
  step (stop id cut) d = qdma_queue_stop port id cut d
  step (remove id) d = qdma_queue_remove port id d

  -- The operations one after the other.
  unfoldable pub run : List Op → Driver S → Driver S
  run [] d = d
  run (op ∷ ops) d = run ops (step op d).1

  -- The moves that the queue at `p` makes while operations are done on the device: with the operation's
  -- own result where its handle names the queue, and none where it does not.
  pub data Trail (p : Position) : Driver S → List Op → Phase → Phase → Type ℓ where
    here : {d : Driver S} {a : Phase} → Trail p d [] a a
    idle :
        {d : Driver S} {op : Op} {ops : List Op} {a b : Phase}
        → lookup d op ≢ some p
        → Trail p (step op d).1 ops a b
        → Trail p d (op ∷ ops) a b
    moves :
        {d : Driver S} {op : Op} {ops : List Op} {a b c : Phase}
        → lookup d op ≡ some p
        → Move op (step op d).0 a b
        → Trail p (step op d).1 ops b c
        → Trail p d (op ∷ ops) a c

  abbrev body_of : Op → Body S
  body_of (config id qconf) = config_body qconf
  body_of (reconfig id qconf) = reconfig_body qconf
  body_of (start id mem cut) = start_body port csr_get mem cut
  body_of (stop id cut) = stop_body port cut
  body_of (remove id) = remove_body port

  step-eq-body :
      (op : Op) (d : Driver S) → step op d ≡ with_queue (in_use op) (target op) (body_of op) d
  unfolding step qdma_queue_config qdma_queue_reconfig qdma_queue_start qdma_queue_stop
      qdma_queue_remove
  step-eq-body (config id qconf) d = refl
  step-eq-body (reconfig id qconf) d = refl
  step-eq-body (start id mem cut) d = refl
  step-eq-body (stop id cut) d = refl
  step-eq-body (remove id) d = refl

  module _ (readable : IsReadable csr_get) where
    body-Moved :
        (op : Op) (d : Driver S)
        → AllSound d
        → (p : Position) (q : Descq) → lookup d op ≡ some p
        → descq_at d.xdev.qdev p ≡ some q
        → Moved op q d (body_of op p q d)
    body-Moved (config id qconf) d a p q l g = config-Moved p q d (a p q g) id qconf
    body-Moved (reconfig id qconf) d a p q l g =
        reconfig-Moved p q d (a p q g) id qconf (lookup-enabled d.xdev id p q l g)
    body-Moved (start id mem cut) d a p q l g =
        let (csr, read) = readable d.hw in
        start-Moved port csr_get mem cut p q d csr read id (a p q g)
          (lookup-enabled d.xdev id p q l g)
    body-Moved (stop id cut) d a p q l g =
        stop-Moved p q d (a p q g) port id cut (lookup-enabled d.xdev id p q l g)
    body-Moved (remove id) d a p q l g =
        remove-Moved p q d (a p q g) port id (lookup-enabled d.xdev id p q l g)

    -- Every operation on a device whose queues are sound leaves them sound: the queue that its handle
    -- names makes a move of the abstract machine with the operation's result, and every other queue
    -- is as it was.
    pub step-Stepped :
        (op : Op) (d : Driver S) (p : Position) (q : Descq)
        → AllSound d
        → descq_at d.xdev.qdev p ≡ some q
        → Stepped op p q d (step op d)
    step-Stepped op d p q a h =
        rw (step-eq-body op d) (Stepped-body op (body_of op) d p q (body-Moved op d a) h (a p q h))

    step-AllSound : (op : Op) (d : Driver S) → AllSound d → AllSound (step op d).1
    step-AllSound op d a p q' h' = elim (Option-cases (descq_at d.xdev.qdev p)) [
      | inl gone ↦
          let g : descq_at (step op d).1.xdev.qdev p ≡ none =
            rw (step-eq-body op d) (gone-body op (body_of op) d p (body-Moved op d a) gone) in
          cc (sym h' ∙ g)
      | inr (q, h) ↦
          let (q1, h1, s1, m) = step-Stepped op d p q a h in
          let e : q1 ≡ q' = cc (sym h1 ∙ h') in rw (sym e) s1
    ]

    -- Where every queue is sound and the settings can be read: whatever the client asks for, and in
    -- whatever order, a queue makes the move of the abstract machine that belongs to the operation and
    -- to its result whenever the operation's handle names it, and keeps its phase otherwise, from its
    -- phase to the one that it ends in; and it ends sound.
    pub run-Trail :
        (ops : List Op) (d : Driver S) (p : Position) (q : Descq)
        → AllSound d
        → descq_at d.xdev.qdev p ≡ some q
        → (q' : Descq) × (descq_at (run ops d).xdev.qdev p ≡ some q')
          × IsSound q'
          × Trail p d ops (phase q) (phase q')
    unfolding run
    run-Trail [] d p q a h = (q, h, a p q h, here)
    run-Trail (op ∷ ops) d p q a h =
        let (q1, h1, s1, m) = step-Stepped op d p q a h in
        let (q2, h2, s2, path) = run-Trail ops (step op d).1 p q1 (step-AllSound op d a) h1 in
        elim m [
          | inl (other, e) ↦ (q2, h2, s2, idle other (rw (ap phase (sym e)) path))
          | inr (named, mv) ↦ (q2, h2, s2, moves named mv path)
        ]
