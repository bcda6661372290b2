-- ===== src/Worker/Drained.antt =====
-- A writeback keeps the balance, and one that reports every descriptor done leaves nothing pending.
use qdmav.Prelude.{
  ℕ, ◌+◌, ◌%◌, ◌-◌, ◌≡◌, ◌≤◌, ◌<◌, ◌^◌, ◌⊎◌, inl, inr, refl, ap, ◌∙◌, arith, Bool, false, List, [],
  ◌∷◌, ◌==◌, if◌then◌else◌, Bool-cases, All,
}
use qdmav.Ring.{ring_idx_delta}
use qdmav.Ring.Laws.{delta-advance}
use qdmav.Request.{Request}
use qdmav.Descq.{Descq, emit, list_del}
use qdmav.Descq.Update.{descq_c2h_pidx_update, descq_h2c_pidx_update}
use qdmav.Mm.Accounting.{IsRing}
use qdmav.Writeback.{
  qdma_sgt_req_done, descq_wb_credit, req_update_from, req_update_pend, wake_if_work,
  descq_mm_n_h2c_wb,
}
use qdmav.Writeback.Laws.{outstanding, req_update_from_step, req_update_pend-Settled}
use qdmav.Writeback.Device.{
  IsDone, wb_credit_moves, wb_keeps, finish_pidx, delta_pos, delta-zero, eq_of_test, processed,
  processed-WroteBack,
}
use qdmav.Worker.Lists.{
  ids, Distinct, outstanding-list_del, All-list_del, All-update, Distinct-list_del,
}
use qdmav.Worker.Balance.{IsFine, in_flight, IsBalanced}

-- What completion does to the lists.
record Shrunk (q q' : Descq) : Type 0 where
  work : outstanding q'.work_list ≤ outstanding q.work_list
  fine : All IsFine q.work_list → All IsFine q'.work_list
  distinct : Distinct (ids q.work_list) → Distinct (ids q'.work_list)
  given : All (λ r. 0 < r.desc_nr) q.pend_list → All (λ r. 0 < r.desc_nr) q'.pend_list

Shrunk-trans : {a b c : Descq} → Shrunk a b → Shrunk b c → Shrunk a c
Shrunk-trans f g = record {
  work = omega (arith, f.work, g.work);
  fine = λ h. g.fine (f.fine h);
  distinct = λ h. g.distinct (f.distinct h);
  given = λ h. g.given (f.given h);
}

Shrunk-same : (q q' : Descq) → q'.work_list ≡ q.work_list → q'.pend_list ≡ q.pend_list → Shrunk q q'
Shrunk-same q q' w p = record {
  work = omega (arith, ap outstanding w);
  fine = λ h. rw w h;
  distinct = λ h. rw w h;
  given = λ h. rw p h;
}

done-lists :
    (q : Descq) (cb : Request) (e : Bool)
    → let q' = (qdma_sgt_req_done q cb e).0 in
      (q'.work_list ≡ list_del cb.id q.work_list) × (q'.pend_list ≡ list_del cb.id q.pend_list)
unfolding qdma_sgt_req_done emit
done-lists q cb e = (ground arith, ground arith)

done-Shrunk : (q : Descq) (cb : Request) → Shrunk q (qdma_sgt_req_done q cb false).0
done-Shrunk q cb =
    let (w, p) = done-lists q cb false in
    record {
      work = omega (arith, ap outstanding w, outstanding-list_del cb.id q.work_list);
      fine = λ h. rw w (All-list_del IsFine cb.id q.work_list h);
      distinct = λ h. rw w (Distinct-list_del cb.id q.work_list h);
      given = λ h. rw p (All-list_del (λ r. 0 < r.desc_nr) cb.id q.pend_list h);
    }

update_from-Shrunk :
    (pend : List Request) (credit : ℕ) (q : Descq) → Shrunk q (req_update_from pend credit q).1
unfolding req_update_from
update_from-Shrunk [] credit q = Shrunk-same q q refl refl
update_from-Shrunk (cb ∷ cbs) credit q =
    let q1 = (qdma_sgt_req_done q cb false).0 in
    elim (req_update_from_step cb cbs credit q) [
      | inl (h, eq) ↦ rw eq (done-Shrunk q cb)
      | inr (inl (h, eq)) ↦
          rw eq (Shrunk-trans (done-Shrunk q cb) (update_from-Shrunk cbs (credit - cb.desc_nr) q1))
      | inr (inr (h, eq)) ↦ rw eq (record {
        work = omega arith;
        fine = λ h. h;
        distinct = λ h. h;
        given = λ g.
            All-update (λ r. 0 < r.desc_nr) (record cb { desc_nr = cb.desc_nr - credit })
              q.pend_list (omega (arith, h)) g;
      })
    ]

update_pend-Shrunk : (q : Descq) (n : ℕ) → Shrunk q (req_update_pend q n)
unfolding req_update_pend
update_pend-Shrunk q n =
    let s = update_from-Shrunk q.pend_list ((n + q.credit) % 2 ^ 32) q in
    record { work = s.work; fine = s.fine; distinct = s.distinct; given = s.given }

credit_work :
    (q : Descq) (cidx : ℕ) → (wake_if_work (descq_wb_credit q cidx).1).work_list ≡ q.work_list
unfolding descq_wb_credit wake_if_work emit
credit_work q cidx = ground arith

pidx_update_work :
    (q : Descq)
    → (if q.conf.c2h
        then descq_c2h_pidx_update q q.pidx
        else descq_h2c_pidx_update q q.pidx).work_list
      ≡ q.work_list
unfolding descq_c2h_pidx_update descq_h2c_pidx_update emit
pidx_update_work q = ground arith

processed-Shrunk : (q : Descq) (cidx : ℕ) → Shrunk q (processed q cidx)
processed-Shrunk q cidx =
    let n = (descq_wb_credit q cidx).0 in
    let q2 = wake_if_work (descq_wb_credit q cidx).1 in
    let q3 = req_update_pend q2 n in
    let (k0, k1, k2, k3, k4, k5) = wb_keeps q cidx in
    let (f0, f1, f2, f3, f4, f5) = finish_pidx q3 in
    Shrunk-trans (Shrunk-same q q2 (credit_work q cidx) k0)
      (Shrunk-trans (update_pend-Shrunk q2 n) (Shrunk-same q3 _ (pidx_update_work q3) f5))

processed-spent :
    (q : Descq) (cidx : ℕ)
    → IsRing q
    → IsDone q cidx
    → q.credit < 2 ^ 31
    → let q' = processed q cidx in
      (q'.pidx ≡ q.pidx) × (q'.conf ≡ q.conf) × ((q'.credit ≡ 0) ⊎ (q'.pend_list ≡ []))
processed-spent q cidx r d hc =
    let n = (descq_wb_credit q cidx).0 in
    let q2 = wake_if_work (descq_wb_credit q cidx).1 in
    let q3 = req_update_pend q2 n in
    let (hn, hcidx, ha, hp, hk) = wb_credit_moves q cidx r d in
    let (k0, k1, k2, k3, k4, k5) = wb_keeps q cidx in
    let s = req_update_pend-Settled q2 n (omega (arith, hn, d.before, r.balance, r.size, k1)) in
    let (f0, f1, f2, f3, f4, f5) = finish_pidx q3 in
    (
      f1 ∙ s.ring.1 ∙ k3 ∙ hp,
      f3 ∙ s.ring.3 ∙ k5 ∙ hk,
      elim s.spent [ inl z ↦ inl (f4 ∙ z) | inr e ↦ inr (f5 ∙ e) ],
    )

-- A call either sees no news, or goes through with the device's index.
wb-cases :
    (q : Descq) (cidx : ℕ)
    → IsRing q
    → IsDone q cidx
    → ((descq_mm_n_h2c_wb q cidx ≡ q) × (cidx ≡ q.cidx))
      ⊎ (descq_mm_n_h2c_wb q cidx ≡ processed q cidx)
unfolding descq_mm_n_h2c_wb
wb-cases q cidx r d = elim (Bool-cases (q.pidx == q.cidx)) [
  | inl empty ↦ inl (
    rw empty refl,
    delta_pos cidx q.cidx q.conf.rngsz r.size d.cidx_in r.cidx_in
        (omega (arith, d.before, delta-zero q q.pidx (eq_of_test q.pidx q.cidx empty))),
  )
  | inr busy ↦ elim (Bool-cases (cidx == q.cidx)) [
    | inl same ↦ inl (rw (busy, same) refl, eq_of_test cidx q.cidx same)
    | inr new ↦ inr (rw (busy, new) refl)
  ]
]

-- Entries with work and no work at all.
empty_or_owed : (rs : List Request) → All (λ r. 0 < r.desc_nr) rs → (rs ≡ []) ⊎ (0 < outstanding rs)
empty_or_owed [] h = inl refl
empty_or_owed (r ∷ rs) h = inr (omega (arith, h.0))

module _ (q : Descq) (cidx : ℕ) (b : IsBalanced q) (d : IsDone q cidx) (k : q.credit < 2 ^ 31) where
  processed-IsBalanced :
      let q' = processed q cidx in
      IsBalanced q'
      × (q'.conf ≡ q.conf)
      × (outstanding q'.pend_list ≤ in_flight q' ⊎ (q'.pend_list ≡ []))
      × (in_flight q' + ring_idx_delta cidx q.cidx q.conf.rngsz ≡ in_flight q)
  processed-IsBalanced =
      let q' = processed q cidx in
      let w = processed-WroteBack q cidx b.ring d k in
      let s = processed-Shrunk q cidx in
      let (hp, hc, spent) = processed-spent q cidx b.ring d k in
      let z : q'.conf.rngsz ≡ q.conf.rngsz = ap (λ c. c.rngsz) hc in
      let a =
        delta-advance q.pidx q.cidx cidx q.conf.rngsz b.ring.size b.ring.pidx_in b.ring.cidx_in
          d.cidx_in d.before in
      let f : in_flight q' + ring_idx_delta cidx q.cidx q.conf.rngsz ≡ in_flight q =
        rw (z, hp, w.cidx_new) a in
      let owed : outstanding q'.pend_list + outstanding q'.work_list ≤ q'.credit + in_flight q' =
        omega (arith, w.conserved, b.owed, s.work, f) in
      let given = s.given b.given in
      let covered : (outstanding q'.pend_list ≤ in_flight q') ⊎ (q'.pend_list ≡ []) = elim spent [
        | inl e ↦ inl (omega (arith, owed, e))
        | inr e ↦ inr e
      ] in
      (
        record {
          ring = w.ring;
          owed = owed;
          given = given;
          busy = elim (empty_or_owed q'.pend_list given) [
            | inl e ↦ inl e
            | inr o ↦ elim covered [ inl c ↦ inr (omega (arith, o, c)) | inr e ↦ inl e ]
          ];
          fine = s.fine b.fine;
          distinct = s.distinct b.distinct;
        },
        hc,
        covered,
        f,
      )

  -- A writeback keeps the balance of a queue.
  pub wb-IsBalanced : let q' = descq_mm_n_h2c_wb q cidx in IsBalanced q' × (q'.conf ≡ q.conf)
  wb-IsBalanced = elim (wb-cases q cidx b.ring d) [
    | inl (same, e) ↦ rw same (b, refl)
    | inr moved ↦ let (b', c, cov, f) = processed-IsBalanced in rw moved (b', c)
  ]

pidx-IsDone : (q : Descq) → IsRing q → IsDone q q.pidx
pidx-IsDone q r = record { cidx_in = r.pidx_in; before = omega arith }

none_owed : (rs : List Request) → All (λ r. 0 < r.desc_nr) rs → outstanding rs ≤ 0 → rs ≡ []
none_owed rs h z = elim (empty_or_owed rs h) [ inl e ↦ e | inr o ↦ absurd (omega (arith, o, z)) ]

-- Once the device reports every descriptor of a balanced queue as done, no request is pending any more:
-- all that were with the device are completed by this one writeback.
pub wb_drains :
    (q : Descq) → IsBalanced q → q.credit < 2 ^ 31 → (descq_mm_n_h2c_wb q q.pidx).pend_list ≡ []
wb_drains q b k =
    let d = pidx-IsDone q b.ring in
    let q' = processed q q.pidx in
    elim (wb-cases q q.pidx b.ring d) [
      | inl (same, e) ↦
          let z = delta-zero q q.pidx e in
          rw same (elim b.busy [ inl p ↦ p | inr f ↦ absurd (omega (arith, f, z)) ])
      | inr moved ↦
          let (b', c, covered, f) = processed-IsBalanced q q.pidx b d k in
          let z : in_flight q' ≡ 0 = omega (arith, f) in
          rw moved (elim covered [
            | inl o ↦ none_owed q'.pend_list b'.given (omega (arith, o, z))
            | inr e ↦ e
          ])
    ]
