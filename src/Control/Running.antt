-- ===== src/Control/Running.antt =====
-- A queue that was started: it is ready for requests, and stopping it undoes what starting did, but
-- for the count of its interrupt vector.
use qdmav.Prelude.{
  ℕ, ◌+◌, ◌≤◌, ◌≡◌, inl, inr, refl, ap, ◌∙◌, arith, Bool, true, false, List, some, get_or,
}
use qdmav.Prelude.Errors.{Result, ok}
use qdmav.Ring.Laws.{ring_max}
use qdmav.Descq.{Descq}
use qdmav.Device.{Position, descq_at, qdma_device_get_descq_by_id}
use qdmav.Hw.{Sel}
use qdmav.Context.{Port}
use qdmav.Context.Memory.{IsMemory}
use qdmav.Context.Setup.{setup-read}
use qdmav.Mm.Accounting.{IsRing, IsRing-same}
use qdmav.Lifecycle.{GlobalCsrConf}
use qdmav.Lifecycle.Ready.{config_complete-IsRing}
use qdmav.Lifecycle.Resources.{Memory}
use qdmav.Lifecycle.Resources.Effects.{HasMemory, alloc_resource_succeeds, prog_hw-frame}
use qdmav.Control.{Driver, said, put_to_work, qdma_queue_start, start_body}
use qdmav.Control.Phases.{IsSound, IsIdle}
use qdmav.Control.Starting.{allocated, bring_up-frame, config_complete-flags, put_to_work-flags}
use qdmav.Control.Started.{start_body-ok, start-Moved, completed, with_top, brought_up, after}
use qdmav.Control.Refines.{with_queue-found, at-modify_at, at-SameQueues, lookup-enabled}

module _ {ℓ} {S : Type ℓ} (port : Port S) (view : S → ℕ → Sel → List ℕ) (m : IsMemory port view)
    (csr_get : S → Result GlobalCsrConf × S) (mem : Memory) (room : HasMemory mem)
    (cut : Bool) where
  -- The body on a queue that is configured.
  start_body-IsRing :
      (p : Position) (q : Descq) (d : Driver S) (csr : GlobalCsrConf)
      → let sz = get_or csr.ring_sz q.conf.desc_rng_sz_idx 0 in
        let (rv, q', d') = start_body port csr_get mem cut p q d in
        (csr_get d.hw).0 ≡ ok csr
        → q.enabled ≡ true
        → IsIdle q
        → 2 ≤ sz
        → sz ≤ ring_max + 1
        → (rv ≡ said cut) × (q'.online ≡ true) × IsRing q' × (q'.avail + 2 ≡ sz)
  start_body-IsRing p q d csr read e i l u =
      let q1 = completed port csr_get mem cut p q d csr read in
      let x1 = with_top port csr_get mem cut p q d csr read in
      let s1 = (csr_get d.hw).1 in
      let (rv, ce, ci, co, cd, cw) = config_complete-flags csr q in
      let (rv', ring, size) = config_complete-IsRing csr q l u in
      let a = alloc_resource_succeeds mem x1 (record q1 { inited = true }) room in
      let al = allocated port mem x1 q1 s1 in
      let (pf, pd, pi, pr) = prog_hw-frame port al.1 al.2 s1 in
      let pok = pr ∙ (setup-read port view m al.1 al.2 s1).0 in
      let (b, f) = bring_up-frame port mem x1 q1 s1 a pok in
      let up = brought_up port csr_get mem cut p q d csr read in
      let aft = after port csr_get mem cut p q d csr read in
      let (g, gd, gx, gh) = put_to_work-flags p up.2 aft in
      let q' = (put_to_work p up.2 aft).0 in
      let h = g ∙ f in
      rw
        (start_body-ok port csr_get mem cut p q d csr read (ce ∙ e) (ci ∙ i.inited) (co ∙ i.online)
          b)
        (
          refl,
          ap (λ f. f.3) h,
          IsRing-same q1 q' (ap (λ f. f.0) h) (ap (λ f. f.4) h) (ap (λ f. f.5) h) (ap (λ f. f.6) h)
              ring,
          omega (arith, ap (λ f. f.4) h, size),
        )

  -- A configured queue can be started: on a device that keeps its contexts, with memory, and with at
  -- least two entries in the ring, `qdma_queue_start` succeeds (but for a message that is too long),
  -- and the queue is then online, the accounting of its ring is exact, and all entries but two are
  -- free.
  pub queue_start-IsRing :
      (id : ℕ) (d : Driver S) (p : Position) (q : Descq) (csr : GlobalCsrConf)
      → let sz = get_or csr.ring_sz q.conf.desc_rng_sz_idx 0 in
        let (rv, d') = qdma_queue_start port csr_get id mem cut d in
        qdma_device_get_descq_by_id (some d.xdev) id true ≡ some p
        → descq_at d.xdev.qdev p ≡ some q
        → IsSound q
        → q.inited ≡ false
        → (csr_get d.hw).0 ≡ ok csr
        → 2 ≤ sz
        → sz ≤ ring_max + 1
        → (rv ≡ said cut)
          × ((q' : Descq) × (descq_at d'.xdev.qdev p ≡ some q')
              × (q'.online ≡ true)
              × IsRing q'
              × (q'.avail + 2 ≡ sz))
  unfolding qdma_queue_start
  queue_start-IsRing id d p q csr found h s i read l u =
      let e = lookup-enabled d.xdev id p q found h in
      let (rv0, q1, d1) = start_body port csr_get mem cut p q d in
      let (rv, on, ring, size) = start_body-IsRing p q d csr read e (idle i) l u in
      let (s1, mv, same) = start-Moved port csr_get mem cut p q d csr read id s e in
      rw (with_queue-found true id (start_body port csr_get mem cut) d p q found h) (
        rv,
        elim (at-modify_at d1.xdev p p q1 (at-SameQueues d.xdev.qdev d1.xdev.qdev p same ∙ h)) [
          | inl (ne, k) ↦ absurd (ne refl)
          | inr (eq, k) ↦ (q1, k, on, ring, size)
        ],
      )
    where
      idle : q.inited ≡ false → IsIdle q
      idle i = record {
        inited = i;
        online = s.online ∙ i;
        desc = s.desc ∙ i;
        desc_wrb = s.desc_wrb i;
      }
