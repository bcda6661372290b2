-- ===== src/Intr/Rings.antt =====
-- The memory of the aggregated rings: `intr_ring_setup` and `intr_ring_teardown`
-- (libqdma/qdma_intr.c). What the allocators give is an argument; the rings that are allocated are
-- kept as their bus addresses, in the order of the last first.
pub mod Balance
pub mod Ready
use qdmav.Prelude.{
  ℕ, zero, suc, ◌+◌, ◌-◌, ◌*◌, ◌%◌, ◌^◌, ◌≤◌, ◌<◌, ◌≡◌, refl, sym, ap, ◌∙◌, arith, Bool, true,
  false, not, ◌&&◌, ◌||◌, List, [], ◌∷◌, ◌++◌, Option, none, some, ltb, ◌==◌, if◌then◌else◌,
  replicate, get_elem?, Bool-cases, Option-cases, inl, inr, append_assoc,
}
use qdmav.Prelude.Errors.{Error, enomem, Result, ok, err}
use qdmav.Device.{Xdev}
use qdmav.Context.{Port, get_intr_ring_index}
use qdmav.Context.Words.{data_vec_max}
use qdmav.Hw.{clr, coal}
use qdmav.Intr.{RingEntry, CoalConf}

abbrev pub zero_entry : RingEntry
zero_entry = record { coal_color = false; qid = 0; intr_type = false; error_int = false }

-- `coal_list` is `intr_coal_list`, and `lists` how many lists are allocated.
pub record RingState : Type 0 where
  pub xdev : Xdev
  pub coal_list : List CoalConf
  pub live : List ℕ
  pub lists : ℕ

-- The count of entries is kept in 16 bits.
unfoldable pub new_ring : ℕ → ℕ → ℕ → CoalConf
new_ring num_entries vec_id bus = record {
  vec_id = vec_id;
  intr_rng_num_entries = num_entries % 2 ^ 16;
  intr_ring_bus = bus;
  ring = replicate num_entries zero_entry;
  color = true;
  pidx = 0;
  cidx = 0;
}

unfoldable pub intr_ring_free : ℕ → List ℕ → List ℕ
intr_ring_free bus [] = []
intr_ring_free bus (a ∷ l) = if a == bus then l else a ∷ intr_ring_free bus l

-- `while (--counter >= 0)`, over the rings made so far, the last first.
unfoldable pub unwind : List CoalConf → List ℕ → List ℕ
unwind [] live = live
unwind (c ∷ cs) live = unwind cs (intr_ring_free c.intr_ring_bus live)

-- `msix` gives a vector's entry; `made` holds the rings made so far, the last first.
module _ (alloc : ℕ → Option ℕ) (msix : ℕ → ℕ) (num_entries start : ℕ) where
  unfoldable pub alloc_rings : ℕ → ℕ → List CoalConf → List ℕ → Option (List CoalConf) × List ℕ
  alloc_rings zero counter made live = (some made, live)
  alloc_rings (suc n) counter made live = elim (alloc counter) [
    | none ↦ (none, unwind made live)
    | some bus ↦
        alloc_rings n (counter + 1) (new_ring num_entries (msix (counter + start)) bus ∷ made)
          (bus ∷ live)
  ]

unfoldable pub turned {ℓ} : {A : Type ℓ} → List A → List A → List A
turned [] acc = acc
turned (x ∷ xs) acc = turned xs (x ∷ acc)

unfoldable pub store_rings : Option (List CoalConf) × List ℕ → RingState → Result ℕ × RingState
store_rings (none, live) s = (err enomem, record s { live = live })
store_rings (some made, live) s =
    (ok 0, record s { coal_list = turned made []; live = live; lists = s.lists + 1 })

unfoldable pub no_aggregation : RingState → RingState
no_aggregation s = record s { xdev = record (s.xdev) { intr_coal_en = false }; coal_list = [] }

unfoldable pub intr_ring_setup :
    Bool → ℕ → ℕ → Bool → (ℕ → Option ℕ) → (ℕ → ℕ) → RingState → Result ℕ × RingState
intr_ring_setup intr_agg qsets_max intr_rngsz mem alloc msix s =
    let n = (intr_rngsz + 1) * 512 in
    let s1 = record s { xdev = record (s.xdev) { intr_coal_en = true } } in
    let rings = alloc_rings alloc msix n s.xdev.dvec_start_idx data_vec_max 0 [] s.live in
    let done = if mem then store_rings rings s1 else (err enomem, s1) in
    if s.xdev.poll_mode || not intr_agg
    then (ok 0, no_aggregation s)
    else (if not (s.xdev.num_vecs == 0) && ltb s.xdev.num_vecs qsets_max
        then done
        else (ok 0, no_aggregation s))

module _ {ℓ} {S : Type ℓ} (port : Port S) where
  -- The list's memory is given back, and `intr_coal_list` still points to it.
  unfoldable pub teardown_from : Xdev → ℕ → List CoalConf → List ℕ → S → List ℕ × S
  teardown_from x i [] live hw = (live, hw)
  teardown_from x i (c ∷ cs) live hw =
      let index = get_intr_ring_index x (i + x.dvec_start_idx) in
      let (rv, hw1) = port.prog index clr coal none 0 false hw in
      teardown_from x (i + 1) cs (intr_ring_free c.intr_ring_bus live) hw1

  unfoldable pub intr_ring_teardown : RingState → S → RingState × S
  intr_ring_teardown s hw =
      let (live, hw1) = teardown_from s.xdev 0 s.coal_list s.live hw in
      (record s { live = live; lists = s.lists - 1 }, hw1)
