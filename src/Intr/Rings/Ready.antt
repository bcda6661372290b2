-- ===== src/Intr/Rings/Ready.antt =====
-- From the setup of the rings to interrupts that are served.
use qdmav.Prelude.{
  ℕ, zero, suc, ◌+◌, ◌*◌, ◌%◌, ◌^◌, ◌≤◌, ◌<◌, ◌≡◌, refl, ap, arith, true, false, not, ◌&&◌, List,
  [], ◌∷◌, map, Option, some, ltb, ◌==◌, replicate, get_elem?, length, All,
}
use qdmav.Prelude.Errors.{ok}
use qdmav.Device.{Xdev}
use qdmav.Intr.{RingEntry}
use qdmav.Intr.Posted.{Writer, InLap}
use qdmav.Intr.Aggregate.{served}
use qdmav.Intr.Batches.{InSync, Line, interrupts, flatten, interrupts_serve}
use qdmav.Intr.Rings.{
  RingState, zero_entry, new_ring, alloc_rings, turned, store_rings, intr_ring_setup,
}

-- The device begins at the ring's first entry, with the colour one.
abbrev pub fresh : ℕ → Writer
fresh n = record { ring = replicate n zero_entry; pidx = 0; color = true }

length-replicate : (n : ℕ) (e : RingEntry) → length (replicate n e) ≡ n
length-replicate zero e = refl
length-replicate (suc n) e = ap suc (length-replicate n e)

get_elem?-replicate : (n i : ℕ) (e f : RingEntry) → get_elem? (replicate n e) i ≡ some f → f ≡ e
get_elem?-replicate zero i e f h = cc
get_elem?-replicate (suc n) zero e f h = cc
get_elem?-replicate (suc n) (suc i) e f h = get_elem?-replicate n i e f h

fresh-InLap : (n : ℕ) → 0 < n → InLap n (fresh n)
fresh-InLap n h = record {
  whole = length-replicate n zero_entry;
  inside = h;
  laps = λ i e at. rw (get_elem?-replicate n i zero_entry e at) (ground arith);
}

-- Where a function has fewer vectors than queues and aggregation is asked for, and memory is given,
-- the rings are set up so that from the first interrupt on everything that the device posts is
-- served, once and in order, however it is spread over interrupts of the function's data vector.
pub setup_serves :
    (qsets_max intr_rngsz bus fuel : ℕ) (alloc : ℕ → Option ℕ) (msix : ℕ → ℕ) (s : RingState)
    (bs : List (List RingEntry))
    → let n = (intr_rngsz + 1) * 512 in
      let (rv, s') = intr_ring_setup true qsets_max intr_rngsz true alloc msix s in
      let start = s.xdev.dvec_start_idx in
      s.xdev.poll_mode ≡ false
      → 0 < s.xdev.num_vecs
      → s.xdev.num_vecs < qsets_max
      → intr_rngsz < 127
      → alloc 0 ≡ some bus
      → n < fuel
      → All (λ es. length es ≤ n) bs
      → (rv ≡ ok 0)
        × (s'.xdev.intr_coal_en ≡ true)
        × ((l : Line) × (interrupts fuel n start
                (msix start)
                bs
                (record { writer = fresh n; xdev = s'.xdev; coals = s'.coal_list; work = [] })
              ≡ some l)
            × (l.work ≡ map (served s.xdev.qdev.qbase) (flatten bs)))
unfolding intr_ring_setup store_rings alloc_rings turned new_ring
setup_serves qsets_max intr_rngsz bus fuel alloc msix s bs poll vecs many range mem enough short =
    let n = (intr_rngsz + 1) * 512 in
    let start = s.xdev.dvec_start_idx in
    let x : Xdev = record (s.xdev) { intr_coal_en = true } in
    let c = new_ring n (msix (0 + start)) bus in
    let fits : n % 2 ^ 16 ≡ n = omega arith in
    let sync : InSync n (fresh n) c = record {
      ring = refl;
      index = refl;
      colour = refl;
      entries = fits;
    } in
    let (l, run, work, writer, last) =
      interrupts_serve fuel n start (msix start) [] (omega arith) enough bs (fresh n) x c [] short
        (fresh-InLap n (omega arith)) sync refl (ap msix (omega arith)) in
    let few : (not (s.xdev.num_vecs == 0) && ltb s.xdev.num_vecs qsets_max) ≡ true = ground arith in
    let e : intr_ring_setup true qsets_max intr_rngsz true alloc msix s ≡ (
      ok 0,
      record s { xdev = x; coal_list = c ∷ []; live = bus ∷ s.live; lists = s.lists + 1 },
    ) =
      simp (poll, few, mem) in
    rw e (refl, refl, (l, run, work))
