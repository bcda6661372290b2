-- ===== src/Control/Started.antt =====
-- The body of `qdma_queue_start` on each of its ways.
use qdmav.Prelude.{ℕ, ◌≡◌, inl, inr, refl, ap, ◌∙◌, arith, Bool, true, false, if◌then◌else◌}
use qdmav.Prelude.Errors.{Error, invalid_descq_state, Result, ok, err}
use qdmav.Descq.{Descq}
use qdmav.Device.{Qdev, Xdev, Position}
use qdmav.Context.{Port}
use qdmav.Lifecycle.{GlobalCsrConf, qdma_descq_config_complete}
use qdmav.Lifecycle.Resources.{Memory}
use qdmav.Control.{Driver, said, put_to_work, bring_up, start_body}
use qdmav.Control.Phases.{
  phase-configured, phase-started, IsSound, IsIdle, IsRunning, IsIdle-IsSound, IsRunning-IsSound,
  IsSound-cases, SameQueues, Moved, start, starts, start_fails, start_twice,
}
use qdmav.Control.Starting.{bring_up-cases, config_complete-flags, put_to_work-flags}

-- The CSR arrays can be read: `qdma_global_csr_get` does not fail on a device that is there.
abbrev pub IsReadable {ℓ} : {S : Type ℓ} → (S → Result GlobalCsrConf × S) → Type ℓ
IsReadable csr_get = (s : _) → (csr : GlobalCsrConf) × ((csr_get s).0 ≡ ok csr)

module _ {ℓ} {S : Type ℓ} (port : Port S) (csr_get : S → Result GlobalCsrConf × S) (mem : Memory)
    (cut : Bool) (pos : Position) (q : Descq) (d : Driver S) (csr : GlobalCsrConf)
    (read : (csr_get d.hw).0 ≡ ok csr) where
  abbrev pub completed : Descq
  completed = (qdma_descq_config_complete (ok csr) q).1

  abbrev pub with_top : Xdev
  with_top = if q.conf.has_isr_top then record (d.xdev) { isr_top_q_en = true } else d.xdev

  abbrev pub brought_up : Result ℕ × Xdev × Descq × S
  brought_up = bring_up port mem with_top completed (csr_get d.hw).1

  abbrev pub after : Driver S
  after = record d { xdev = brought_up.1; hw = brought_up.3 }

  pub start_body-refused :
      completed.inited ≡ true
      → start_body port csr_get mem cut pos q d
        ≡ (err invalid_descq_state, completed, record d { xdev = with_top; hw = (csr_get d.hw).1 })
  unfolding start_body
  start_body-refused i = ground (arith, read, i, (config_complete-flags csr q).0)

  module _ (en : completed.enabled ≡ true) (no : completed.inited ≡ false)
      (off : completed.online ≡ false) where
    pub start_body-ok :
        {v : ℕ}
        → brought_up.0 ≡ ok v
        → start_body port csr_get mem cut pos q d ≡ (
          said cut,
          (put_to_work pos brought_up.2 after).0,
          (put_to_work pos brought_up.2 after).1,
        )
    unfolding start_body
    start_body-ok b = ground (arith, read, en, no, off, b, (config_complete-flags csr q).0)

    start_body-err :
        {e : Error}
        → brought_up.0 ≡ err e
        → start_body port csr_get mem cut pos q d ≡ (err e, brought_up.2, after)
    unfolding start_body
    start_body-err b = ground (arith, read, en, no, off, b, (config_complete-flags csr q).0)

  with_top-qdev : with_top.qdev ≡ d.xdev.qdev
  with_top-qdev = ground arith

  same : {k : Qdev} → k ≡ d.xdev.qdev → SameQueues d.xdev.qdev k
  same h = record {
    qmax = ap (λ k. k.qmax) h;
    h2c = ap (λ k. k.h2c_descq) h;
    c2h = ap (λ k. k.c2h_descq) h;
  }

  start-Moved-running :
      (id : ℕ)
      → IsRunning q
      → Moved (start id mem cut) q d (start_body port csr_get mem cut pos q d)
  start-Moved-running id r =
      let (rv, ce, ci, co, cd, cw) = config_complete-flags csr q in
      let running : IsRunning completed = record {
        enabled = ce ∙ r.enabled;
        inited = ci ∙ r.inited;
        online = co ∙ r.online;
        desc = cd ∙ r.desc;
      } in
      rw
        (
          start_body-refused running.inited,
          phase-started q r.enabled r.inited,
          phase-started completed running.enabled running.inited,
        )
        (IsRunning-IsSound completed running, start_twice, same with_top-qdev)

  start-Moved-idle :
      (id : ℕ)
      → q.enabled ≡ true
      → IsIdle q
      → Moved (start id mem cut) q d (start_body port csr_get mem cut pos q d)
  start-Moved-idle id e i =
      let (rv, ce, ci, co, cd, cw) = config_complete-flags csr q in
      let en = ce ∙ e in
      let no = ci ∙ i.inited in
      let off = co ∙ i.online in
      let (be, bc, bq, b) = bring_up-cases port mem with_top completed (csr_get d.hw).1 off in
      elim b [
        | inr (er, h, idle) ↦
            rw
              (
                start_body-err en no off h,
                phase-configured q e i.inited,
                phase-configured brought_up.2 (be ∙ en) idle.inited,
              )
              (IsIdle-IsSound brought_up.2 idle, start_fails, same (bq ∙ with_top-qdev))
        | inl (h, hi, ho, hd) ↦
            let (f, fd, fx, fh) = put_to_work-flags pos brought_up.2 after in
            let q' = (put_to_work pos brought_up.2 after).0 in
            let running : IsRunning q' = record {
              enabled = ap (λ f. f.1) f ∙ be ∙ en;
              inited = ap (λ f. f.2) f ∙ hi;
              online = ap (λ f. f.3) f ∙ ho;
              desc = fd ∙ hd;
            } in
            rw
              (
                start_body-ok en no off h,
                phase-configured q e i.inited,
                phase-started q' running.enabled running.inited,
              )
              (
                IsRunning-IsSound q' running,
                starts refl,
                same (ap (λ x. x.qdev) fx ∙ bq ∙ with_top-qdev),
              )
      ]

  pub start-Moved :
      (id : ℕ)
      → IsSound q
      → q.enabled ≡ true
      → Moved (start id mem cut) q d (start_body port csr_get mem cut pos q d)
  start-Moved id s e = elim (IsSound-cases q s) [
    | inl i ↦ start-Moved-idle id e i
    | inr r ↦ start-Moved-running id r
  ]
