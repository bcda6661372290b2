-- ===== src/Lifecycle/Resources/Effects.antt =====
-- What allocating and programming change of a queue and of the device.
use qdmav.Prelude.{
  ℕ, suc, modify, ◌≢◌, ◌≡◌, ◌⊎◌, inl, inr, refl, ◌∙◌, arith, Bool, true, false, some,
}
use qdmav.Prelude.Errors.{Error, out_of_memory, ok, err, Result-cases}
use qdmav.Descq.{QueueConf, Descq, emit}
use qdmav.Descq.Update.{descq_c2h_pidx_update, descq_wrb_cidx_update}
use qdmav.Device.{Xdev}
use qdmav.Context.{Port, qdma_descq_context_setup}
use qdmav.Lifecycle.Resources.{
  Memory, alloc_completion, alloc_rings, choose_vector, desc_alloc_irq, qdma_descq_alloc_resource,
  qdma_descq_free_resource, qdma_descq_prog_hw,
}

-- The fields that neither touches.
abbrev pub frame : Descq → QueueConf × Bool × Bool × Bool × ℕ × ℕ × ℕ × ℕ
frame q = (q.conf, q.enabled, q.inited, q.online, q.avail, q.pidx, q.cidx, q.qidx_hw)

completion-frame :
    (mem : Memory) (q : Descq)
    → let (rv, q') = alloc_completion mem q in (frame q' ≡ frame q) × (q'.has_desc ≡ q.has_desc)
unfolding alloc_completion
completion-frame mem q = (ground arith, ground arith)

rings-frame :
    (mem : Memory) (q : Descq) {v : ℕ}
    → let (rv, q') = alloc_rings mem q in (frame q' ≡ frame q) × (rv ≡ ok v → q'.has_desc ≡ true)
unfolding alloc_rings alloc_completion
rings-frame mem q {v} = (ground arith, λ e. ground arith)

irq-frame :
    (x : Xdev) (q : Descq)
    → let (x', q') = desc_alloc_irq x q in
      (frame q' ≡ frame q)
      × (q'.has_desc ≡ q.has_desc)
      × (x'.qdev ≡ x.qdev)
      × (x'.num_vecs ≡ x.num_vecs)
unfolding desc_alloc_irq
irq-frame x q = (ground arith, ground arith, ground arith, ground arith)

pub free-frame :
    (q : Descq)
    → let q' = qdma_descq_free_resource q in
      (frame q' ≡ frame q) × (q'.has_desc ≡ false) × (q'.has_desc_wrb ≡ false)
unfolding qdma_descq_free_resource
free-frame q = (ground arith, ground arith, ground arith)

alloc_resource-ok :
    (mem : Memory) (x : Xdev) (q : Descq) {v : ℕ}
    → let (rv, q1) = alloc_rings mem q in
      let (x2, q2) = desc_alloc_irq x q1 in
      rv ≡ ok v → qdma_descq_alloc_resource mem x q ≡ (ok 0, x2, q2)
unfolding qdma_descq_alloc_resource
alloc_resource-ok mem x q h = ground arith

alloc_resource-err :
    (mem : Memory) (x : Xdev) (q : Descq) {e : Error}
    → let (rv, q1) = alloc_rings mem q in
      rv ≡ err e
      → qdma_descq_alloc_resource mem x q ≡ (err out_of_memory, x, qdma_descq_free_resource q1)
unfolding qdma_descq_alloc_resource
alloc_resource-err mem x q h = ground arith

-- Allocation either succeeds, with a ring, or reports that memory is out and leaves no ring. The
-- queues and the number of vectors stay.
pub alloc_resource-cases :
    (mem : Memory) (x : Xdev) (q : Descq)
    → let (rv, x', q') = qdma_descq_alloc_resource mem x q in
      (frame q' ≡ frame q)
      × (x'.qdev ≡ x.qdev)
      × (x'.num_vecs ≡ x.num_vecs)
      × (((rv ≡ ok 0) × (q'.has_desc ≡ true))
          ⊎ ((rv ≡ err out_of_memory)
              × (q'.has_desc ≡ false)
              × (q'.has_desc_wrb ≡ false)
              × (x' ≡ x)))
alloc_resource-cases mem x q =
    let q1 = (alloc_rings mem q).1 in
    let (ki, hd, kq, kn) = irq-frame x q1 in
    let (kf, fd, fw) = free-frame q1 in
    elim (Result-cases (alloc_rings mem q).0) [
      | inl (v, h) ↦
          let (kr, d) = rings-frame mem q in
          rw (alloc_resource-ok mem x q h) (ki ∙ kr, kq, kn, inl (refl, hd ∙ d h))
      | inr (e, h) ↦
          let (kr, d) = rings-frame mem q {v = 0} in
          rw (alloc_resource-err mem x q h) (kf ∙ kr, refl, refl, inr (refl, fd, fw, refl))
    ]

-- The allocator has memory for both rings and for the receive buffers.
abbrev pub HasMemory : Memory → Type 0
HasMemory mem =
    ((a : ℕ) × (mem.ring_bus ≡ some a))
    × ((b : ℕ) × (mem.wrb_bus ≡ some b))
    × ((n : ℕ) × (mem.flq ≡ ok n))

rings-ok : (mem : Memory) (q : Descq) → HasMemory mem → (alloc_rings mem q).0 ≡ ok 0
unfolding alloc_rings alloc_completion
rings-ok mem q ((a, ha), (b, hb), (n, hn)) = ground (arith, ha, hb, hn)

pub alloc_resource_succeeds :
    (mem : Memory) (x : Xdev) (q : Descq)
    → HasMemory mem
    → (qdma_descq_alloc_resource mem x q).0 ≡ ok 0
alloc_resource_succeeds mem x q h = rw (alloc_resource-ok mem x q (rings-ok mem q h)) refl

-- Without coalescing the chosen vector counts one more queue.
pub alloc_resource_counts :
    (mem : Memory) (x : Xdev) (q : Descq)
    → HasMemory mem
    → x.intr_coal_en ≡ false
    → x.num_vecs ≢ 0
    → let (rv, x', q') = qdma_descq_alloc_resource mem x q in
      (x'.intr_list_cnt ≡ modify (choose_vector x) suc x.intr_list_cnt)
      × (q'.intr_id ≡ choose_vector x)
unfolding desc_alloc_irq
alloc_resource_counts mem x q h c n =
    rw (alloc_resource-ok mem x q (rings-ok mem q h)) (ground (arith, c, n), ground (arith, c, n))

pub prog_hw-frame {ℓ} :
    {S : Type ℓ} (port : Port S) (x : Xdev) (q : Descq) (s : S)
    → let (rv, q', s') = qdma_descq_prog_hw port x q s in
      (frame q' ≡ frame q)
      × (q'.has_desc ≡ q.has_desc)
      × (q'.intr_id ≡ q.intr_id)
      × (rv ≡ (qdma_descq_context_setup port x q s).0)
unfolding qdma_descq_prog_hw descq_c2h_pidx_update descq_wrb_cidx_update emit
prog_hw-frame port x q s = (ground arith, ground arith, ground arith, ground arith)
