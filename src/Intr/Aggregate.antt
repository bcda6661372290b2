-- ===== src/Intr/Aggregate.antt =====
-- The interrupts of the first vector of a function: what the device posts is served, each entry once
-- and in order, however its entries are spread over interrupts.
use qdmav.Prelude.{
  ℕ, zero, suc, ◌+◌, ◌-◌, ◌%◌, ◌^◌, ◌≤◌, ◌<◌, ◌≡◌, refl, ◌∙◌, arith, Bool, true, false, not, List,
  [], ◌∷◌, ◌++◌, append_assoc, append-nil, map, Option, some, ◌==◌, get_elem?, length, add32,
  u64_mod, Bool-cases, inl, inr, get_elem?-of_lt, get_elem?-set_self, differ,
}
use qdmav.Device.{Xdev, Position}
use qdmav.Intr.{
  RingEntry, CoalConf, Work, go, stop, step_cidx, work_of, wrap_color, handle_entry, test_vector,
  test_entry, proceed, aggregate_step, aggregate_from, qdma_device_get_descq_by_hw_qid,
}
use qdmav.Intr.Posted.{
  Writer, next_idx, next_color, post, post_all, InLap, post-InLap, post_all-keeps, ahead,
}

-- The queue that an entry names, and what it asks for.
abbrev pub named : ℕ → RingEntry → Position
named qbase e = (e.intr_type, (e.qid + u64_mod - qbase) % u64_mod)

unfoldable pub served : ℕ → RingEntry → Work
served qbase e = work_of e (named qbase e)

-- What lies in a ring from an index on: the entries, and then one of the lap before.
abbrev pub Sees : ℕ → List RingEntry → ℕ → Bool → List RingEntry → Type 0
Sees size ring i c [] = (e : RingEntry) × (get_elem? ring i ≡ some e) × (e.coal_color ≡ not c)
Sees size ring i c (e ∷ es) =
    (get_elem? ring i ≡ some (record e { coal_color = c }))
    × Sees size ring (next_idx size i) (next_color size i c) es

pub post_all-Sees :
    (size : ℕ) (es : List RingEntry) (w : Writer)
    → InLap size w
    → length es ≤ size
    → Sees size (post_all size es w).ring w.pidx w.color es
unfolding post_all post
post_all-Sees size [] w v h =
    let (e, at) = get_elem?-of_lt w.ring w.pidx (omega (arith, v.whole, v.inside)) in
    (e, at, ground (arith, v.laps w.pidx e at))
post_all-Sees size (e ∷ es) w v h =
    let wide : length es ≤ ahead size (next_idx size w.pidx) w.pidx = ground (arith, v.inside) in
    let n : next_idx size w.pidx < size = ground (arith, v.inside) in
    (
      post_all-keeps size es (post size e w) w.pidx n v.inside wide
          ∙ get_elem?-set_self w.ring w.pidx (record e { coal_color = w.color })
              (omega (arith, v.whole, v.inside)),
      post_all-Sees size es (post size e w) (post-InLap size e w v) (omega arith),
    )

-- Where the reader ends.
unfoldable pub end_idx : ℕ → List RingEntry → ℕ → ℕ
end_idx size [] i = i
end_idx size (e ∷ es) i = end_idx size es (next_idx size i)

unfoldable pub end_color : ℕ → List RingEntry → ℕ → Bool → Bool
end_color size [] i c = c
end_color size (e ∷ es) i c = end_color size es (next_idx size i) (next_color size i c)

pub post_all_end :
    (size : ℕ) (es : List RingEntry) (w : Writer)
    → ((post_all size es w).pidx ≡ end_idx size es w.pidx)
      × ((post_all size es w).color ≡ end_color size es w.pidx w.color)
unfolding post_all end_idx end_color post
post_all_end size [] w = (refl, refl)
post_all_end size (e ∷ es) w = post_all_end size es (post size e w)

unfoldable pub last_named : ℕ → List RingEntry → Option Position → Option Position
last_named qbase [] d = d
last_named qbase (e ∷ es) d = last_named qbase es (some (named qbase e))

pub differ_self : (b : Bool) → differ b b ≡ false
differ_self true = refl
differ_self false = refl

differ-not : (b c : Bool) → b ≡ not c → differ b c ≡ true
differ-not b true h = rw h refl
differ-not b false h = rw h refl

module _ (x : Xdev) (size : ℕ) (rest : List CoalConf) (small : size < 2 ^ 32) where
  first_step :
      (coal : CoalConf) (d : Option Position) (acc : List Work) (e : RingEntry)
      → coal.intr_rng_num_entries ≡ size
      → coal.cidx < size
      → get_elem? coal.ring coal.cidx ≡ some (record e { coal_color = coal.color })
      → aggregate_step
          (some x)
          0
          (record { counter = coal.cidx; descq = d; coals = coal ∷ rest; work = acc })
        ≡ go (record {
          counter = next_idx size coal.cidx;
          descq = some (named x.qdev.qbase e);
          coals =
              record coal {
                cidx = next_idx size coal.cidx;
                color = next_color size coal.cidx coal.color;
              }
              ∷ rest;
          work = acc ++ (served x.qdev.qbase e ∷ []);
        })
  unfolding aggregate_step test_vector test_entry handle_entry step_cidx wrap_color served
      qdma_device_get_descq_by_hw_qid work_of
  first_step coal d acc e n l at =
      let q : add32 coal.cidx 1 ≡ coal.cidx + 1 = omega arith in
      elim (Bool-cases (coal.cidx + 1 == size)) [
        | inl wrap ↦ rw (at, differ_self coal.color, n, q, wrap) refl
        | inr on ↦ rw (at, differ_self coal.color, n, q, on) refl
      ]

  pub first_loop :
      (es : List RingEntry) (fuel : ℕ) (coal : CoalConf) (d : Option Position) (acc : List Work)
      → length es < fuel
      → coal.intr_rng_num_entries ≡ size
      → coal.cidx < size
      → Sees size coal.ring coal.cidx coal.color es
      → aggregate_from
          (some x)
          0
          fuel
          (record { counter = coal.cidx; descq = d; coals = coal ∷ rest; work = acc })
        ≡ some (
            stop (record {
              counter = end_idx size es coal.cidx;
              descq = last_named x.qdev.qbase es d;
              coals =
                  record coal {
                    cidx = end_idx size es coal.cidx;
                    color = end_color size es coal.cidx coal.color;
                  }
                  ∷ rest;
              work = acc ++ map (served x.qdev.qbase) es;
            }))
  unfolding aggregate_from proceed end_idx end_color last_named
  first_loop es zero coal d acc f n l see = absurd (omega arith)
  first_loop [] (suc fuel) coal d acc f n l (e, at, old) =
      let t : aggregate_step (some x) 0
            (record { counter = coal.cidx; descq = d; coals = coal ∷ rest; work = acc })
          ≡ stop (record { counter = coal.cidx; descq = d; coals = coal ∷ rest; work = acc }) =
        unfold aggregate_step test_vector test_entry in
        rw (at, differ-not e.coal_color coal.color old) refl in
      rw (t, append-nil acc) refl
  first_loop (e ∷ es) (suc fuel) coal d acc f n l (at, see) =
      let c : CoalConf = record coal {
        cidx = next_idx size coal.cidx;
        color = next_color size coal.cidx coal.color;
      } in
      let ih =
        first_loop es fuel c (some (named x.qdev.qbase e)) (acc ++ (served x.qdev.qbase e ∷ []))
          (omega arith) n (ground arith) see in
      rw (first_step coal d acc e n l at) (rw (append_assoc acc) at ih)
