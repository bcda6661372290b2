-- ===== src/Worker/Balance.antt =====
-- The balance of a queue: what its requests wait for is covered by credit and by the descriptors that
-- are with the device.
use qdmav.Prelude.{
  ℕ, ◌+◌, ◌≡◌, ◌≢◌, ◌≤◌, ◌<◌, ◌^◌, ◌⊎◌, inl, inr, refl, ap, arith, Bool, true, [], All,
}
use qdmav.Ring.{ring_idx_delta}
use qdmav.Request.{Request}
use qdmav.Request.Sgl.{total}
use qdmav.Descq.{Descq, emit, list_del}
use qdmav.Mm.Accounting.{IsWord, IsRing, IsRing-same}
use qdmav.Mm.Outcome.{work_frame}
use qdmav.Writeback.{qdma_sgt_req_done}
use qdmav.Writeback.Laws.{outstanding}
use qdmav.Worker.Lists.{ids, Distinct, outstanding-list_del, All-list_del, Distinct-list_del}

-- A request whose list is in the fields' ranges and not empty.
abbrev pub IsFine : Request → Type 0
IsFine r = All IsWord r.sgl × (total r.sgl < 2 ^ 32) × (r.sgl ≢ [])

abbrev pub in_flight : Descq → ℕ
in_flight q = ring_idx_delta q.pidx q.cidx q.conf.rngsz

pub record IsBalanced (q : Descq) : Type 0 where
  pub ring : IsRing q
  pub owed : outstanding q.pend_list + outstanding q.work_list ≤ q.credit + in_flight q
  pub given : All (λ r. 0 < r.desc_nr) q.pend_list
  pub busy : (q.pend_list ≡ []) ⊎ (0 < in_flight q)
  pub fine : All IsFine q.work_list
  pub distinct : Distinct (ids q.work_list)

pub IsBalanced-same : (q q' : Descq) → work_frame q' ≡ work_frame q → IsBalanced q → IsBalanced q'
IsBalanced-same q q' f b =
    let c = ap (λ f. f.0) f in
    let a = ap (λ f. f.1) f in
    let p = ap (λ f. f.2) f in
    let i = ap (λ f. f.3) f in
    let k = ap (λ f. f.4) f in
    let w = ap (λ f. f.5) f in
    let l = ap (λ f. f.6) f in
    let z : q'.conf.rngsz ≡ q.conf.rngsz = ap (λ c. c.rngsz) c in
    record {
      ring = IsRing-same q q' c a p i b.ring;
      owed = rw (z, p, i, k, w, l) b.owed;
      given = rw l b.given;
      busy = rw (z, p, i, l) b.busy;
      fine = rw w b.fine;
      distinct = rw w b.distinct;
    }

pub done-frame :
    (q : Descq) (cb : Request) (e : Bool)
    → work_frame (qdma_sgt_req_done q cb e).0 ≡ (
      q.conf,
      q.avail,
      q.pidx,
      q.cidx,
      q.credit,
      list_del cb.id q.work_list,
      list_del cb.id q.pend_list,
    )
unfolding qdma_sgt_req_done emit
done-frame q cb e = ground arith

-- Taking a request out of both lists only lowers what is owed.
pub done-IsBalanced :
    (q : Descq) (cb : Request) → IsBalanced q → IsBalanced (qdma_sgt_req_done q cb true).0
unfolding list_del
done-IsBalanced q cb b =
    IsBalanced-same
      (record q { work_list = list_del cb.id q.work_list; pend_list = list_del cb.id q.pend_list })
      (qdma_sgt_req_done q cb true).0 (done-frame q cb true)
      (record {
        ring = record {
          size = b.ring.size;
          pidx_in = b.ring.pidx_in;
          cidx_in = b.ring.cidx_in;
          balance = b.ring.balance;
        };
        owed = omega (
          arith,
          outstanding-list_del cb.id q.pend_list,
          outstanding-list_del cb.id q.work_list,
          b.owed,
        );
        given = All-list_del (λ r. 0 < r.desc_nr) cb.id q.pend_list b.given;
        busy = elim b.busy [ inl e ↦ inl (gone e) | inr f ↦ inr f ];
        fine = All-list_del IsFine cb.id q.work_list b.fine;
        distinct = Distinct-list_del cb.id q.work_list b.distinct;
      })
  where
    gone : q.pend_list ≡ [] → list_del cb.id q.pend_list ≡ []
    gone e = rw e refl
