-- ===== src/Writeback/Device.antt =====
-- A writeback of the device against the ring's accounting.
use qdmav.Prelude.{
  ℕ, ◌+◌, ◌^◌, ◌≤◌, ◌<◌, ◌≡◌, inl, inr, sym, ap, ◌∙◌, true, arith, ◌==◌, if◌then◌else◌, Bool-cases,
}
use qdmav.Ring.{ring_idx_delta}
use qdmav.Ring.Laws.{ring_max, delta-advance}
use qdmav.Descq.{Descq, emit}
use qdmav.Descq.Update.{descq_c2h_pidx_update, descq_h2c_pidx_update}
use qdmav.Mm.Accounting.{IsRing}
use qdmav.Writeback.{descq_wb_credit, req_update_pend, descq_mm_n_h2c_wb, wake_if_work}
use qdmav.Writeback.Laws.{outstanding, req_update_pend-Settled}

-- The device's index lies between the queue's consumer and producer indices.
pub record IsDone (q : Descq) (cidx : ℕ) : Type 0 where
  pub cidx_in : cidx < q.conf.rngsz
  pub before : ring_idx_delta cidx q.cidx q.conf.rngsz ≤ ring_idx_delta q.pidx q.cidx q.conf.rngsz

pub wb_credit_moves :
    (q : Descq) (cidx : ℕ)
    → IsRing q
    → IsDone q cidx
    → let (n, q') = descq_wb_credit q cidx in
      (n ≡ ring_idx_delta cidx q.cidx q.conf.rngsz)
      × (q'.cidx ≡ cidx)
      × (q'.avail ≡ q.avail + n)
      × (q'.pidx ≡ q.pidx)
      × (q'.conf ≡ q.conf)
unfolding descq_wb_credit ring_idx_delta
wb_credit_moves q cidx r d = (ground arith, ground arith, ground arith, ground arith, ground arith)

moved-IsRing :
    (q q' : Descq) (cidx n : ℕ)
    → IsRing q
    → IsDone q cidx
    → n ≡ ring_idx_delta cidx q.cidx q.conf.rngsz
    → q'.cidx ≡ cidx
    → q'.avail ≡ q.avail + n
    → q'.pidx ≡ q.pidx
    → q'.conf ≡ q.conf
    → IsRing q'
moved-IsRing q q' cidx n r d hn hc ha hp hk =
    let e : q'.conf.rngsz ≡ q.conf.rngsz = ap (λ c. c.rngsz) hk in
    let a =
      delta-advance q.pidx q.cidx cidx q.conf.rngsz r.size r.pidx_in r.cidx_in d.cidx_in d.before in
    record {
      size = rw e r.size;
      pidx_in = rw (e, hp) r.pidx_in;
      cidx_in = rw (e, hc) d.cidx_in;
      balance = rw (e, hp, hc, ha) (omega (arith, a, hn, r.balance));
    }

-- The credit is the distance that the device has advanced, and as many slots become free.
pub descq_wb_credit-IsRing :
    (q : Descq) (cidx : ℕ)
    → IsRing q
    → IsDone q cidx
    → let (n, q') = descq_wb_credit q cidx in
      (n ≡ ring_idx_delta cidx q.cidx q.conf.rngsz)
      × (q'.cidx ≡ cidx)
      × (q'.avail ≡ q.avail + n)
      × IsRing q'
descq_wb_credit-IsRing q cidx r d =
    let (hn, hc, ha, hp, hk) = wb_credit_moves q cidx r d in
    (
      hn,
      hc,
      ha,
      moved-IsRing q (descq_wb_credit q cidx).1 cidx (descq_wb_credit q cidx).0 r d hn hc ha hp hk,
    )

pub wb_keeps :
    (q : Descq) (cidx : ℕ)
    → let (n, q') = descq_wb_credit q cidx in
      ((wake_if_work q').pend_list ≡ q.pend_list)
      × ((wake_if_work q').credit ≡ q.credit)
      × ((wake_if_work q').avail ≡ q'.avail)
      × ((wake_if_work q').pidx ≡ q'.pidx)
      × ((wake_if_work q').cidx ≡ q'.cidx)
      × ((wake_if_work q').conf ≡ q'.conf)
unfolding descq_wb_credit wake_if_work emit
wb_keeps q cidx =
    (ground arith, ground arith, ground arith, ground arith, ground arith, ground arith)

-- A writeback, whatever it says: the accounting of the ring stays exact, the device's index becomes
-- the queue's, and the descriptors done are either credited to requests or kept as credit.
pub record WroteBack (q : Descq) (cidx : ℕ) (q' : Descq) : Type 0 where
  pub ring : IsRing q'
  pub cidx_new : q'.cidx ≡ cidx
  pub conserved :
      q'.credit + outstanding q.pend_list
      ≡ ring_idx_delta cidx q.cidx q.conf.rngsz + q.credit + outstanding q'.pend_list

pub delta-zero :
    (q : Descq) (cidx : ℕ) → cidx ≡ q.cidx → ring_idx_delta cidx q.cidx q.conf.rngsz ≡ 0
unfolding ring_idx_delta
delta-zero q cidx h = ground arith

pub delta_pos : (a b n : ℕ) → n ≤ ring_max → a < n → b < n → ring_idx_delta a b n ≡ 0 → a ≡ b
unfolding ring_idx_delta
delta_pos a b n hn ha hb h = ground arith

WroteBack-same : (q : Descq) (cidx : ℕ) → IsRing q → cidx ≡ q.cidx → WroteBack q cidx q
WroteBack-same q cidx r h = record {
  ring = r;
  cidx_new = sym h;
  conserved = omega (arith, delta-zero q cidx h);
}

pub finish_pidx :
    (q : Descq)
    → let q' =
        if q.conf.c2h then descq_c2h_pidx_update q q.pidx else descq_h2c_pidx_update q q.pidx in
      (q'.avail ≡ q.avail)
      × (q'.pidx ≡ q.pidx)
      × (q'.cidx ≡ q.cidx)
      × (q'.conf ≡ q.conf)
      × (q'.credit ≡ q.credit)
      × (q'.pend_list ≡ q.pend_list)
unfolding descq_c2h_pidx_update descq_h2c_pidx_update emit
finish_pidx q = (ground arith, ground arith, ground arith, ground arith, ground arith, ground arith)

-- The path on which the device has advanced.
abbrev pub processed : Descq → ℕ → Descq
processed q cidx =
    let q3 = req_update_pend (wake_if_work (descq_wb_credit q cidx).1) (descq_wb_credit q cidx).0 in
    if q3.conf.c2h then descq_c2h_pidx_update q3 q3.pidx else descq_h2c_pidx_update q3 q3.pidx

pub processed-WroteBack :
    (q : Descq) (cidx : ℕ)
    → IsRing q
    → IsDone q cidx
    → q.credit < 2 ^ 31
    → WroteBack q cidx (processed q cidx)
processed-WroteBack q cidx r d hc =
    let n = (descq_wb_credit q cidx).0 in
    let q2 = wake_if_work (descq_wb_credit q cidx).1 in
    let q3 = req_update_pend q2 n in
    let (hn, hcidx, ha, hp, hk) = wb_credit_moves q cidx r d in
    let (k0, k1, k2, k3, k4, k5) = wb_keeps q cidx in
    let s = req_update_pend-Settled q2 n (omega (arith, hn, d.before, r.balance, r.size, k1)) in
    let (f0, f1, f2, f3, f4, f5) = finish_pidx q3 in
    record {
      ring =
          moved-IsRing q _ cidx n r d hn (f2 ∙ s.ring.2 ∙ k4 ∙ hcidx) (f0 ∙ s.ring.0 ∙ k2 ∙ ha)
            (f1 ∙ s.ring.1 ∙ k3 ∙ hp) (f3 ∙ s.ring.3 ∙ k5 ∙ hk);
      cidx_new = f2 ∙ s.ring.2 ∙ k4 ∙ hcidx;
      conserved = omega (arith, s.conserved, hn, k1, f4, ap outstanding f5, ap outstanding k0);
    }

pub eq_of_test : (a b : ℕ) → (a == b) ≡ true → a ≡ b
eq_of_test a b h = ground arith

-- What `descq_mm_n_h2c_wb` does with an index of the device that lies between the queue's own:
-- the accounting of the ring stays exact, the device's index becomes the queue's, and every
-- descriptor done is credited to a pending request or kept as credit.
pub descq_mm_n_h2c_wb-WroteBack :
    (q : Descq) (cidx : ℕ)
    → IsRing q
    → IsDone q cidx
    → q.credit < 2 ^ 31
    → WroteBack q cidx (descq_mm_n_h2c_wb q cidx)
unfolding descq_mm_n_h2c_wb
descq_mm_n_h2c_wb-WroteBack q cidx r d hc = elim (Bool-cases (q.pidx == q.cidx)) [
  | inl empty ↦ rw empty (
      WroteBack-same q cidx r (
        delta_pos cidx q.cidx q.conf.rngsz r.size d.cidx_in r.cidx_in
          (omega (arith, d.before, delta-zero q q.pidx (eq_of_test q.pidx q.cidx empty)))))
  | inr busy ↦ elim (Bool-cases (cidx == q.cidx)) [
    | inl same ↦ rw (busy, same) (WroteBack-same q cidx r (eq_of_test cidx q.cidx same))
    | inr new ↦ rw (busy, new) (processed-WroteBack q cidx r d hc)
  ]
]
