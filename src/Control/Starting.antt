-- ===== src/Control/Starting.antt =====
-- Starting a queue: what bringing it up gives, and the body of `qdma_queue_start` as a move.
use qdmav.Prelude.{ℕ, ◌≡◌, ◌⊎◌, inl, inr, refl, ap, ◌∙◌, arith, true, false}
use qdmav.Prelude.Errors.{Error, out_of_memory, Result, ok, err, Result-cases}
use qdmav.Descq.{Descq}
use qdmav.Device.{Xdev, Position}
use qdmav.Context.{Port, qdma_descq_context_clear}
use qdmav.Threads.{qdma_thread_add_work}
use qdmav.Lifecycle.{GlobalCsrConf, qdma_descq_config_complete, completion_entries}
use qdmav.Lifecycle.Resources.{Memory, qdma_descq_alloc_resource, qdma_descq_prog_hw}
use qdmav.Lifecycle.Resources.Effects.{frame, free-frame, alloc_resource-cases, prog_hw-frame}
use qdmav.Control.{Driver, start_failed, put_to_work, bring_up}
use qdmav.Control.Phases.{IsIdle}

failed-IsIdle :
    (q : Descq)
    → q.online ≡ false
    → let q' = start_failed q in IsIdle q' × (q'.enabled ≡ q.enabled) × (q'.conf ≡ q.conf)
unfolding start_failed
failed-IsIdle q o =
    let (f, hd, hw) = free-frame q in
    (
      record { inited = refl; online = ap (λ f. f.3) f ∙ o; desc = hd; desc_wrb = hw },
      ap (λ f. f.1) f,
      ap (λ f. f.0) f,
    )

module _ {ℓ} {S : Type ℓ} (port : Port S) (mem : Memory) (x : Xdev) (q : Descq) (s : S) where
  abbrev pub allocated : Result ℕ × Xdev × Descq
  allocated = qdma_descq_alloc_resource mem x (record q { inited = true })

  abbrev pub programmed : Result ℕ × Descq × S
  programmed = qdma_descq_prog_hw port allocated.1 allocated.2 s

  pub bring_up-ok :
      {v w : ℕ}
      → allocated.0 ≡ ok v
      → programmed.0 ≡ ok w
      → bring_up port mem x q s
        ≡ (ok 0, allocated.1, record (programmed.1) { online = true }, programmed.2)
  unfolding bring_up
  bring_up-ok a p = ground arith

  bring_up-alloc :
      {e : Error}
      → allocated.0 ≡ err e
      → bring_up port mem x q s ≡ (err e, allocated.1, start_failed allocated.2, s)
  unfolding bring_up
  bring_up-alloc a = ground arith

  bring_up-prog :
      {v : ℕ} {e : Error}
      → allocated.0 ≡ ok v
      → programmed.0 ≡ err e
      → let q2 = programmed.1 in
        bring_up port mem x q s ≡ (
          err e,
          allocated.1,
          start_failed q2,
          (qdma_descq_context_clear port q2.qidx_hw q2.conf.st q2.conf.c2h true programmed.2).1,
        )
  unfolding bring_up
  bring_up-prog a p = ground arith

  -- What a queue that comes up keeps of its ring.
  pub bring_up-frame :
      {v w : ℕ}
      → allocated.0 ≡ ok v
      → programmed.0 ≡ ok w
      → let (rv, x', q', s') = bring_up port mem x q s in
        (rv ≡ ok 0) × (frame q' ≡ frame (record q { inited = true; online = true }))
  bring_up-frame a p =
      let (f, qd, nv, c) = alloc_resource-cases mem x (record q { inited = true }) in
      let (pf, pd, pi, pr) = prog_hw-frame port allocated.1 allocated.2 s in
      rw (bring_up-ok a p) (refl, ap (λ f. (f.0, f.1, f.2, true, f.4, f.5, f.6, f.7)) (pf ∙ f))

  -- A queue comes up, with a ring, or is idle again.
  pub bring_up-cases :
      q.online ≡ false
      → let (rv, x', q', s') = bring_up port mem x q s in
        (q'.enabled ≡ q.enabled)
        × (q'.conf ≡ q.conf)
        × (x'.qdev ≡ x.qdev)
        × (((rv ≡ ok 0) × (q'.inited ≡ true) × (q'.online ≡ true) × (q'.has_desc ≡ true))
            ⊎ ((e : Error) × (rv ≡ err e) × IsIdle q'))
  bring_up-cases o =
      let (f, qd, nv, c) = alloc_resource-cases mem x (record q { inited = true }) in
      let (pf, pd, pi, pr) = prog_hw-frame port allocated.1 allocated.2 s in
      elim c [
        | inr (r, hd, hw, same) ↦
            let (i, en, cf) = failed-IsIdle allocated.2 (ap (λ f. f.3) f ∙ o) in
            rw (bring_up-alloc r)
              (en ∙ ap (λ f. f.1) f, cf ∙ ap (λ f. f.0) f, qd, inr (out_of_memory, refl, i))
        | inl (r, hd) ↦ elim (Result-cases programmed.0) [
          | inl (v, p) ↦ rw (bring_up-ok r p) (
            ap (λ f. f.1) (pf ∙ f),
            ap (λ f. f.0) (pf ∙ f),
            qd,
            inl (refl, ap (λ f. f.2) (pf ∙ f), refl, pd ∙ hd),
          )
          | inr (e, p) ↦
              let (i, en, cf) = failed-IsIdle programmed.1 (ap (λ f. f.3) (pf ∙ f) ∙ o) in
              rw (bring_up-prog r p)
                (en ∙ ap (λ f. f.1) (pf ∙ f), cf ∙ ap (λ f. f.0) (pf ∙ f), qd, inr (e, refl, i))
        ]
      ]

pub config_complete-flags :
    (csr : GlobalCsrConf) (q : Descq)
    → let (rv, q') = qdma_descq_config_complete (ok csr) q in
      (rv ≡ ok 0)
      × (q'.enabled ≡ q.enabled)
      × (q'.inited ≡ q.inited)
      × (q'.online ≡ q.online)
      × (q'.has_desc ≡ q.has_desc)
      × (q'.has_desc_wrb ≡ q.has_desc_wrb)
unfolding qdma_descq_config_complete completion_entries
config_complete-flags csr q =
    (refl, ground arith, ground arith, ground arith, ground arith, ground arith)

pub put_to_work-flags {ℓ} :
    {S : Type ℓ} (pos : Position) (q : Descq) (d : Driver S)
    → let (q', d') = put_to_work pos q d in
      (frame q' ≡ frame q) × (q'.has_desc ≡ q.has_desc) × (d'.xdev ≡ d.xdev) × (d'.hw ≡ d.hw)
unfolding put_to_work qdma_thread_add_work
put_to_work-flags pos q d = (ground arith, ground arith, ground arith, ground arith)
