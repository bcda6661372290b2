-- ===== src/Lifecycle/Resources.antt =====
-- A queue's memory and interrupt vector: `desc_alloc_irq`, `desc_free_irq`,
-- `qdma_descq_alloc_resource`, `qdma_descq_free_resource`, `qdma_descq_cleanup` and
-- `qdma_descq_prog_hw` of libqdma/qdma_descq.c. What the kernel's allocator gives is an argument.
pub mod Effects
pub mod Vectors
use qdmav.Prelude.{
  ℕ, zero, suc, ◌+◌, ◌-◌, Bool, true, false, not, ◌&&◌, ◌||◌, List, [], ◌∷◌, Option, none, some,
  ltb, ◌==◌, if◌then◌else◌, modify, take, drop, get_or,
}
use qdmav.Prelude.Errors.{Error, out_of_memory, Result, ok, err}
use qdmav.Prelude.Io.{Io, ◌>>=◌, ◌>>◌}
use qdmav.Descq.{Descq}
use qdmav.Descq.Update.{descq_c2h_pidx_update, descq_wrb_cidx_update}
use qdmav.Device.{Xdev}
use qdmav.Context.{Port, qdma_descq_context_clear, qdma_descq_context_setup}

-- The bus addresses of the two rings, or none without memory, and the result of filling the receive
-- buffers.
pub record Memory : Type 0 where
  pub ring_bus : Option ℕ
  pub wrb_bus : Option ℕ
  pub flq : Result ℕ

-- The vector with the fewest queues: the search from vector `i` on, over the counts that are left,
-- stopped at a vector with none.
unfoldable pub least_from : ℕ → ℕ → ℕ → List ℕ → ℕ
least_from i min idx [] = idx
least_from i min idx (c ∷ cs) =
    let min' = if ltb c min then c else min in
    let idx' = if ltb c min then i else idx in
    elim (min' == 0) [ true ↦ idx' | false ↦ least_from (i + 1) min' idx' cs ]

unfoldable pub choose_vector : Xdev → ℕ
choose_vector x =
    let start = x.dvec_start_idx in
    let min = get_or x.intr_list_cnt start 0 in
    if x.intr_coal_en
    then start
    else least_from start min start (drop start (take x.num_vecs x.intr_list_cnt))

-- The count goes up without coalescing only; it is given back in either case.
unfoldable pub desc_alloc_irq : Xdev → Descq → Xdev × Descq
desc_alloc_irq x q =
    let idx = choose_vector x in
    let cnts = if x.intr_coal_en then x.intr_list_cnt else modify idx suc x.intr_list_cnt in
    if x.num_vecs == 0
    then (x, q)
    else (record x { intr_list_cnt = cnts }, record q { intr_id = idx })

-- A count of zero stays.
unfoldable pub desc_free_irq : Xdev → Descq → Xdev
desc_free_irq x q =
    if x.num_vecs == 0
    then x
    else record x { intr_list_cnt = modify q.intr_id (λ n. n - 1) x.intr_list_cnt }

-- The pointers to the rings, and the receive buffers with the second.
unfoldable pub qdma_descq_free_resource : Descq → Descq
qdma_descq_free_resource q =
    let q1 = if q.has_desc then record q { has_desc = false; desc_bus = 0 } else q in
    if q.has_desc_wrb then record q1 { has_desc_wrb = false; desc_wrb_bus = 0 } else q1

-- The completion ring and the receive buffers of a streaming C2H queue.
unfoldable pub alloc_completion : Memory → Descq → Result ℕ × Descq
alloc_completion mem q =
    let q1 = record q { color = true } in
    elim mem.wrb_bus [
      | none ↦ (err out_of_memory, q1)
      | some bus ↦
          let q2 = record q1 { has_desc_wrb = true; desc_wrb_bus = bus } in
          elim mem.flq [ err e ↦ (err e, q2) | ok _ ↦ (ok 0, record q2 { cidx_wrb_pend = 0 }) ]
    ]

unfoldable pub alloc_rings : Memory → Descq → Result ℕ × Descq
alloc_rings mem q = elim mem.ring_bus [
  | none ↦ (err out_of_memory, q)
  | some bus ↦
      let q1 = record q { has_desc = true; desc_bus = bus } in
      if q.conf.st && q.conf.c2h then alloc_completion mem q1 else (ok 0, q1)
]

-- Every failure gives back what was allocated, and is reported as out of memory.
unfoldable pub qdma_descq_alloc_resource : Memory → Xdev → Descq → Result ℕ × Xdev × Descq
qdma_descq_alloc_resource mem x q =
    let (rv, q1) = alloc_rings mem q in
    let (x2, q2) = desc_alloc_irq x q1 in
    elim rv [ err e ↦ (err out_of_memory, x, qdma_descq_free_resource q1) | ok _ ↦ (ok 0, x2, q2) ]

module _ {ℓ} {S : Type ℓ} (port : Port S) where
  unfoldable pub qdma_descq_cleanup : Xdev → Descq → S → Xdev × Descq × S
  qdma_descq_cleanup x q s =
      let q1 = if q.inited then record q { inited = false; online = false } else q in
      let s1 =
        if q.inited
        then (qdma_descq_context_clear port q.qidx_hw q.conf.st q.conf.c2h false s).1
        else s in
      (desc_free_irq x q1, qdma_descq_free_resource q1, s1)

  -- The contexts, and the first indices of a streaming C2H queue.
  unfoldable pub qdma_descq_prog_hw : Xdev → Descq → S → Result ℕ × Descq × S
  qdma_descq_prog_hw x q s =
      let (rv, s1) = qdma_descq_context_setup port x q s in
      let q1 = descq_c2h_pidx_update (descq_wrb_cidx_update q 0) (q.conf.rngsz - 1) in
      elim rv [
        | err e ↦ (err e, q, s1)
        | ok v ↦ (ok v, if q.conf.st && q.conf.c2h then q1 else q, s1)
      ]
