-- ===== src/Intr/Rings/Balance.antt =====
-- The memory of the aggregated rings is given back.
use qdmav.Prelude.{
  ℕ, ◌+◌, ◌*◌, ◌≡◌, refl, arith, Bool, true, not, ◌&&◌, ◌||◌, List, [], ◌∷◌, Option, ltb, ◌==◌,
  if◌then◌else◌, Bool-cases, Option-cases, inl, inr,
}
use qdmav.Prelude.Errors.{Result, ok, err}
use qdmav.Context.{Port}
use qdmav.Context.Words.{data_vec_max}
use qdmav.Intr.Rings.{
  RingState, new_ring, intr_ring_free, unwind, alloc_rings, turned, store_rings, no_aggregation,
  intr_ring_setup, teardown_from, intr_ring_teardown,
}

free_last : (bus : ℕ) (live : List ℕ) → intr_ring_free bus (bus ∷ live) ≡ live
unfolding intr_ring_free
free_last bus live = ground arith

-- The memory is as it was: at once where the setup failed, and otherwise after the teardown, which
-- is called where coalescing is enabled.
abbrev pub Balanced {ℓ} : {S : Type ℓ} → Port S → S → RingState → Result ℕ × RingState → Type 0
Balanced port hw s (err e, s') =
    (s'.live ≡ s.live) × (s'.lists ≡ s.lists) × (s'.coal_list ≡ s.coal_list)
Balanced port hw s (ok n, s') =
    let t = if s'.xdev.intr_coal_en then (intr_ring_teardown port s' hw).0 else s' in
    (t.live ≡ s.live) × (t.lists ≡ s.lists)

module _ {ℓ} {S : Type ℓ} (port : Port S) (hw : S) where
  stored-Balanced :
      (alloc : ℕ → Option ℕ) (msix : ℕ → ℕ) (n start : ℕ) (s : RingState)
      → let s1 = record s { xdev = record (s.xdev) { intr_coal_en = true } } in
        Balanced port hw s
          (store_rings (alloc_rings alloc msix n start data_vec_max 0 [] s.live) s1)
  unfolding teardown_from store_rings alloc_rings unwind turned intr_ring_teardown new_ring
  stored-Balanced alloc msix n start s = elim (Option-cases (alloc 0)) [
    | inl e ↦ rw e (refl, refl, refl)
    | inr (bus, e) ↦ rw e (free_last bus s.live, omega arith)
  ]

  -- Setting up the rings of a function, with or without memory, and tearing down what was set up
  -- gives back everything that was allocated.
  pub ring_setup-Balanced :
      (intr_agg : Bool) (qsets_max intr_rngsz : ℕ) (mem : Bool) (alloc : ℕ → Option ℕ)
      (msix : ℕ → ℕ) (s : RingState)
      → Balanced port hw s (intr_ring_setup intr_agg qsets_max intr_rngsz mem alloc msix s)
  unfolding intr_ring_setup no_aggregation
  ring_setup-Balanced intr_agg qsets_max intr_rngsz mem alloc msix s =
      let b = stored-Balanced alloc msix ((intr_rngsz + 1) * 512) s.xdev.dvec_start_idx s in
      elim (Bool-cases (s.xdev.poll_mode || not intr_agg)) [
        | inl off ↦ rw off (refl, refl)
        | inr on ↦ elim (Bool-cases (not (s.xdev.num_vecs == 0) && ltb s.xdev.num_vecs qsets_max)) [
          | inr few ↦ rw (on, few) (refl, refl)
          | inl many ↦ elim (Bool-cases mem) [
            | inl m ↦ rw (on, many, m) b
            | inr m ↦ rw (on, many, m) (refl, refl, refl)
          ]
        ]
      ]
