-- ===== src/Control/Bodies.antt =====
-- Each operation's body is a move of the abstract machine.
use qdmav.Prelude.{ℕ, ◌≡◌, inl, inr, refl, ◌∙◌, arith, Bool, true, false, Bool-cases}
use qdmav.Prelude.Errors.{einval, invalid_descq_state, ok, err}
use qdmav.Descq.{QueueConf, Descq}
use qdmav.Device.{Qdev, Xdev, Position}
use qdmav.Context.{Port}
use qdmav.Queue.{qdma_descq_config, qcnt_inc, qcnt_dec, set_qcnt}
use qdmav.Threads.{qdma_thread_remove_work}
use qdmav.Lifecycle.Resources.{desc_free_irq, qdma_descq_free_resource, qdma_descq_cleanup}
use qdmav.Control.{Driver, config_body, reconfig_body, said, take_off_work, stop_body, remove_body}
use qdmav.Control.Phases.{
  phase-unused, phase-configured, phase-started, IsSound, IsIdle, IsRunning, IsIdle-IsSound,
  IsSound-cases, SameQueues, Moved, config, reconfig, stop, remove, configures, config_twice,
  config_started, reconfigures, reconfig_started, stops, stop_idle, removes, removes_started,
}

qcnt-SameQueues :
    (c2h : Bool) (x : Xdev)
    → SameQueues x.qdev (qcnt_inc c2h x).qdev × SameQueues x.qdev (qcnt_dec c2h x).qdev
unfolding qcnt_inc qcnt_dec set_qcnt
qcnt-SameQueues true x =
    (record { qmax = refl; h2c = refl; c2h = refl }, record { qmax = refl; h2c = refl; c2h = refl })
qcnt-SameQueues false x =
    (record { qmax = refl; h2c = refl; c2h = refl }, record { qmax = refl; h2c = refl; c2h = refl })

abbrev same_queues : (d : Qdev) → SameQueues d d
same_queues d = record { qmax = refl; h2c = refl; c2h = refl }

module _ {ℓ} {S : Type ℓ} (pos : Position) (q : Descq) (d : Driver S) (s : IsSound q) where
  config-free :
      (qconf : QueueConf)
      → q.enabled ≡ false
      → config_body qconf pos q d ≡ (
        ok 0,
        record q { enabled = true; conf = qconf },
        record d { xdev = qcnt_inc qconf.c2h d.xdev },
      )
  unfolding config_body qdma_descq_config
  config-free qconf e = ground arith

  config-taken :
      (qconf : QueueConf) → q.enabled ≡ true → config_body qconf pos q d ≡ (err einval, q, d)
  unfolding config_body
  config-taken qconf e = ground arith

  pub config-Moved :
      (id : ℕ) (qconf : QueueConf) → Moved (config id qconf) q d (config_body qconf pos q d)
  config-Moved id qconf = elim (IsSound-cases q s) [
    | inl i ↦ elim (Bool-cases q.enabled) [
      | inl e ↦
          rw (config-taken qconf e, phase-configured q e i.inited)
            (s, config_twice, same_queues d.xdev.qdev)
      | inr e ↦
          rw
            (
              config-free qconf e,
              phase-unused q e,
              phase-configured (record q { enabled = true; conf = qconf }) refl i.inited,
            )
            (
              IsIdle-IsSound (record q { enabled = true; conf = qconf })
                  (record {
                    inited = i.inited;
                    online = i.online;
                    desc = i.desc;
                    desc_wrb = i.desc_wrb;
                  }),
              configures,
              (qcnt-SameQueues qconf.c2h d.xdev).0,
            )
    ]
    | inr r ↦
        rw (config-taken qconf r.enabled, phase-started q r.enabled r.inited)
          (s, config_started, same_queues d.xdev.qdev)
  ]

  reconfig-idle :
      (qconf : QueueConf)
      → q.enabled ≡ true
      → IsIdle q
      → reconfig_body qconf pos q d ≡ (ok 0, qdma_descq_config d.xdev.num_vecs qconf true q, d)
  unfolding reconfig_body
  reconfig-idle qconf e i = ground (arith, i.inited, i.online)

  reconfig-running :
      (qconf : QueueConf)
      → IsRunning q
      → reconfig_body qconf pos q d ≡ (err invalid_descq_state, q, d)
  unfolding reconfig_body
  reconfig-running qconf r = ground (arith, r.inited, r.online)

  reconfig-keeps :
      (n : ℕ) (qconf : QueueConf)
      → let q' = qdma_descq_config n qconf true q in
        (q'.enabled ≡ q.enabled)
        × (q'.inited ≡ q.inited)
        × (q'.online ≡ q.online)
        × (q'.has_desc ≡ q.has_desc)
        × (q'.has_desc_wrb ≡ q.has_desc_wrb)
  unfolding qdma_descq_config
  reconfig-keeps n qconf = (refl, refl, refl, refl, refl)

  pub reconfig-Moved :
      (id : ℕ) (qconf : QueueConf)
      → q.enabled ≡ true
      → Moved (reconfig id qconf) q d (reconfig_body qconf pos q d)
  reconfig-Moved id qconf e = elim (IsSound-cases q s) [
    | inl i ↦
        let q' = qdma_descq_config d.xdev.num_vecs qconf true q in
        let (k0, k1, k2, k3, k4) = reconfig-keeps d.xdev.num_vecs qconf in
        rw
          (
            reconfig-idle qconf e i,
            phase-configured q e i.inited,
            phase-configured q' (k0 ∙ e) (k1 ∙ i.inited),
          )
          (
            IsIdle-IsSound q' (record {
              inited = k1 ∙ i.inited;
              online = k2 ∙ i.online;
              desc = k3 ∙ i.desc;
              desc_wrb = k4 ∙ i.desc_wrb;
            }),
            reconfigures,
            same_queues d.xdev.qdev,
          )
    | inr r ↦
        rw (reconfig-running qconf r, phase-started q e r.inited)
          (s, reconfig_started, same_queues d.xdev.qdev)
  ]

  stop-flags :
      (port : Port S) (cut : Bool)
      → let (rv, q', d') = stop_body port cut pos q d in
        (rv ≡ said cut) × (q'.enabled ≡ q.enabled) × IsIdle q' × SameQueues d.xdev.qdev d'.xdev.qdev
  unfolding stop_body take_off_work qdma_thread_remove_work qdma_descq_free_resource
  stop-flags port cut = (
    ground arith,
    ground arith,
    record { inited = refl; online = refl; desc = ground arith; desc_wrb = ground arith },
    record { qmax = ground arith; h2c = ground arith; c2h = ground arith },
  )

  pub stop-Moved :
      (port : Port S) (id : ℕ) (cut : Bool)
      → q.enabled ≡ true
      → Moved (stop id cut) q d (stop_body port cut pos q d)
  stop-Moved port id cut e =
      let (rv, en, i, same) = stop-flags port cut in
      let q' = (stop_body port cut pos q d).1 in
      elim (IsSound-cases q s) [
        | inl idle ↦
            rw (phase-configured q e idle.inited, phase-configured q' (en ∙ e) i.inited)
              (IsIdle-IsSound q' i, stop_idle rv, same)
        | inr r ↦
            rw (phase-started q e r.inited, phase-configured q' (en ∙ e) i.inited)
              (IsIdle-IsSound q' i, stops rv, same)
      ]

  remove-flags :
      (port : Port S)
      → let (rv, q', d') = remove_body port pos q d in
        (rv ≡ ok 0) × (q'.enabled ≡ false) × IsIdle q' × SameQueues d.xdev.qdev d'.xdev.qdev
  unfolding remove_body qdma_descq_cleanup qdma_descq_free_resource desc_free_irq qcnt_dec set_qcnt
  remove-flags port = (
    ground arith,
    refl,
    record {
      inited = ground arith;
      online = ground arith;
      desc = ground arith;
      desc_wrb = ground arith;
    },
    record { qmax = ground arith; h2c = ground arith; c2h = ground arith },
  )

  pub remove-Moved :
      (port : Port S) (id : ℕ) → q.enabled ≡ true → Moved (remove id) q d (remove_body port pos q d)
  remove-Moved port id e =
      let (rv, en, i, same) = remove-flags port in
      let q' = (remove_body port pos q d).1 in
      elim (IsSound-cases q s) [
        | inl idle ↦
            rw (rv, phase-configured q e idle.inited, phase-unused q' en)
              (IsIdle-IsSound q' i, removes, same)
        | inr r ↦
            rw (rv, phase-started q e r.inited, phase-unused q' en)
              (IsIdle-IsSound q' i, removes_started, same)
      ]
