-- ===== src/Worker/Written.antt =====
-- The balance after descriptors were written for a request, and after a pass of the request thread.
use qdmav.Prelude.{
  ℕ, ◌+◌, ◌≡◌, ◌<◌, ◌^◌, inl, inr, refl, sym, ap, ◌∙◌, arith, true, false, ◌&&◌, List, [], ◌∷◌,
  ◌++◌, ◌==◌, Bool-cases, All, append_assoc,
}
use qdmav.Prelude.Errors.{Result-cases}
use qdmav.Ring.Laws.{delta-incr_add}
use qdmav.Request.{Request}
use qdmav.Descq.{Descq, list_del, update}
use qdmav.Mm.Accounting.{IsRing}
use qdmav.Mm.Call.{Advanced-IsRing}
use qdmav.Mm.Outcome.{Wrote, Outcome, work_frame, mm_request-Outcome}
use qdmav.Mm.Chunks.{All-append}
use qdmav.Mm.{descq_mm_proc_request}
use qdmav.StH2c.{descq_proc_st_h2c_request}
use qdmav.StH2c.Outcome.{st_request-Outcome}
use qdmav.Writeback.{qdma_sgt_req_done}
use qdmav.Writeback.Laws.{outstanding}
use qdmav.Worker.{RingMemory, after_call, qdma_descq_proc_sgt_request}
use qdmav.Worker.Lists.{
  ids, Distinct, outstanding-append, All-list_del, Distinct-list_del, list_del_at, update_at,
  ids_at, All_at, All-put,
}
use qdmav.Worker.{wrk_from, qdma_thread_wrk_proc}
use qdmav.Worker.Balance.{
  IsFine, in_flight, IsBalanced, IsBalanced-same, done-IsBalanced, done-frame,
}

outstanding_at :
    (cb : Request) (kept rest : List Request)
    → outstanding (kept ++ (cb ∷ rest)) ≡ outstanding kept + cb.desc_nr + outstanding rest
outstanding_at cb kept rest = omega (arith, outstanding-append kept (cb ∷ rest))

-- The counts after `n` descriptors were written for a request of the work list.
record Grown (q : Descq) (cb : Request) (kept rest : List Request) (q' : Descq) (cb' : Request)
    : Type 0 where
  more : ℕ
  some_more : 0 < more
  flight : in_flight q' ≡ in_flight q + more
  desc_nr : cb'.desc_nr ≡ cb.desc_nr + more
  conf : q'.conf ≡ q.conf
  ring : IsRing q'

Wrote-Grown :
    (q : Descq) (cb : Request) (kept rest : List Request) (q' : Descq) (cb' : Request)
    → IsBalanced q
    → q.credit < 2 ^ 31
    → q.work_list ≡ kept ++ (cb ∷ rest)
    → Wrote q cb q' cb'
    → Grown q cb kept rest q' cb'
Wrote-Grown q cb kept rest q' cb' b k e w =
    let a = w.advanced in
    let z : q'.conf.rngsz ≡ q.conf.rngsz = ap (λ c. c.rngsz) a.conf in
    let (d, l) =
      delta-incr_add q.pidx q.cidx w.count q.conf.rngsz b.ring.size b.ring.pidx_in b.ring.cidx_in
        (omega (arith, b.ring.balance, a.avail)) in
    record {
      more = w.count;
      some_more = w.some_written;
      flight = rw (z, a.cidx, a.pidx) d;
      desc_nr = omega (
        arith,
        a.desc_nr,
        a.avail,
        b.owed,
        ap outstanding e,
        outstanding_at cb kept rest,
        b.ring.balance,
        b.ring.size,
        k,
      );
      conf = a.conf;
      ring = Advanced-IsRing q cb w.count w.size q' cb' b.ring a;
    }

module _ (q : Descq) (cb : Request) (kept rest : List Request) (q' : Descq) (cb' : Request)
    (b : IsBalanced q) (k : q.credit < 2 ^ 31) (e : q.work_list ≡ kept ++ (cb ∷ rest))
    (w : Wrote q cb q' cb') where
  -- The request goes to the device.
  submitted-IsBalanced :
      q'.work_list ≡ list_del cb.id q.work_list
      → q'.pend_list ≡ q.pend_list ++ (cb' ∷ [])
      → IsBalanced q' × (q'.work_list ≡ kept ++ rest)
  submitted-IsBalanced hw hp =
      let g = Wrote-Grown q cb kept rest q' cb' b k e w in
      let dis : Distinct (ids (kept ++ (cb ∷ rest))) = rw (ap ids e) at b.distinct in
      let work : q'.work_list ≡ kept ++ rest =
        hw ∙ ap (list_del cb.id) e ∙ list_del_at cb rest kept dis in
      (
        record {
          ring = g.ring;
          owed = omega (
            arith,
            ap outstanding work,
            ap outstanding hp,
            ap outstanding e,
            outstanding_at cb kept rest,
            outstanding-append kept rest,
            outstanding-append q.pend_list (cb' ∷ []),
            g.flight,
            g.desc_nr,
            w.credit,
            b.owed,
          );
          given = rw hp (
              All-append (λ r. 0 < r.desc_nr) q.pend_list (cb' ∷ []) b.given
                (omega (arith, g.desc_nr, g.some_more), tt));
          busy = inr (omega (arith, g.flight, g.some_more));
          fine = rw hw (All-list_del IsFine cb.id q.work_list b.fine);
          distinct = rw hw (Distinct-list_del cb.id q.work_list b.distinct);
        },
        work,
      )

  -- The request waits for room.
  updated-IsBalanced :
      q'.work_list ≡ update cb' q.work_list
      → q'.pend_list ≡ q.pend_list
      → IsBalanced q' × (q'.work_list ≡ (kept ++ (cb' ∷ [])) ++ rest)
  updated-IsBalanced hw hp =
      let g = Wrote-Grown q cb kept rest q' cb' b k e w in
      let dis : Distinct (ids (kept ++ (cb ∷ rest))) = rw (ap ids e) at b.distinct in
      let work : q'.work_list ≡ kept ++ (cb' ∷ rest) =
        hw ∙ ap (update cb') e ∙ update_at cb rest kept cb' w.same_id dis in
      let all : All IsFine (kept ++ (cb ∷ rest)) = rw e at b.fine in
      let one : IsFine cb = All_at cb rest IsFine kept all in
      let one' : IsFine cb' = rw w.same_sgl one in
      (
        record {
          ring = g.ring;
          owed = omega (
            arith,
            ap outstanding work,
            ap outstanding hp,
            ap outstanding e,
            outstanding_at cb kept rest,
            outstanding_at cb' kept rest,
            g.flight,
            g.desc_nr,
            w.credit,
            b.owed,
          );
          given = rw hp b.given;
          busy = inr (omega (arith, g.flight, g.some_more));
          fine = rw work (All-put cb rest IsFine kept cb' one' all);
          distinct = rw (work, ids_at cb rest kept cb' w.same_id) dis;
        },
        work ∙ sym (append_assoc kept (cb' ∷ []) rest),
      )

module _ (page_size : ℕ) (page : 0 < page_size) where
  call-eq-mm :
      (q : Descq) (mem : RingMemory) (cb : Request)
      → q.conf.st ≡ false
      → let (rv, q', mm, cb') = descq_mm_proc_request q mem.mm cb in
        qdma_descq_proc_sgt_request page_size q mem cb ≡ (rv, q', record mem { mm = mm }, cb')
  unfolding qdma_descq_proc_sgt_request
  call-eq-mm q mem cb h = ground arith

  call-eq-st :
      (q : Descq) (mem : RingMemory) (cb : Request)
      → q.conf.st ≡ true
      → q.conf.st && q.conf.c2h ≡ false
      → let (rv, q', st, cb') = descq_proc_st_h2c_request page_size q mem.st cb in
        qdma_descq_proc_sgt_request page_size q mem cb ≡ (rv, q', record mem { st = st }, cb')
  unfolding qdma_descq_proc_sgt_request
  call-eq-st q mem cb h m = ground arith

  call-Outcome :
      (q : Descq) (mem : RingMemory) (cb : Request)
      → q.conf.st && q.conf.c2h ≡ false
      → IsRing q
      → IsFine cb
      → let (rv, q', mem', cb') = qdma_descq_proc_sgt_request page_size q mem cb in
        Outcome q cb rv q' cb'
  call-Outcome q mem cb m r f = elim (Bool-cases q.conf.st) [
    | inl st ↦
        rw (call-eq-st q mem cb st m) (st_request-Outcome page_size page q mem.st cb r f.0 f.1 f.2)
    | inr mm ↦ rw (call-eq-mm q mem cb mm) (mm_request-Outcome q mem.mm cb r f.0 f.1)
  ]

  -- What a call and what follows it leave.
  abbrev Left : Descq → List Request → Descq → Type 0
  Left q rest q' =
      IsBalanced q'
      × (q'.conf ≡ q.conf)
      × (q'.credit ≡ q.credit)
      × ((kept : List Request) × (q'.work_list ≡ kept ++ rest))

  same-Left :
      (q q' : Descq) (cb : Request) (kept rest : List Request)
      → work_frame q' ≡ work_frame q
      → IsBalanced q
      → q.work_list ≡ kept ++ (cb ∷ rest)
      → Left q rest q'
  same-Left q q' cb kept rest f b e = (
    IsBalanced-same q q' f b,
    ap (λ f. f.0) f,
    ap (λ f. f.4) f,
    (kept ++ (cb ∷ []), ap (λ f. f.5) f ∙ e ∙ sym (append_assoc kept (cb ∷ []) rest)),
  )

  failed-Left :
      (q q' : Descq) (cb cb' : Request) (kept rest : List Request)
      → work_frame q' ≡ work_frame q
      → cb'.id ≡ cb.id
      → IsBalanced q
      → q.work_list ≡ kept ++ (cb ∷ rest)
      → Left q rest (qdma_sgt_req_done q' cb' true).0
  failed-Left q q' cb cb' kept rest f i b e =
      let d = done-frame q' cb' true in
      let e' : q'.work_list ≡ kept ++ (cb ∷ rest) = ap (λ f. f.5) f ∙ e in
      let dis : Distinct (ids (kept ++ (cb ∷ rest))) = rw (ap ids e) at b.distinct in
      (
        done-IsBalanced q' cb' (IsBalanced-same q q' f b),
        ap (λ f. f.0) (d ∙ refl) ∙ ap (λ f. f.0) f,
        ap (λ f. f.4) d ∙ ap (λ f. f.4) f,
        (
          kept,
          ap (λ f. f.5) d
              ∙ ap (λ n. list_del n q'.work_list) i
              ∙ ap (list_del cb.id) e'
              ∙ list_del_at cb rest kept dis,
        ),
      )

  call-Left :
      (q : Descq) (mem : RingMemory) (cb : Request) (kept rest : List Request)
      → q.conf.st && q.conf.c2h ≡ false
      → q.credit < 2 ^ 31
      → IsBalanced q
      → q.work_list ≡ kept ++ (cb ∷ rest)
      → let (rv, q1, mem1, cb1) = qdma_descq_proc_sgt_request page_size q mem cb in
        Left q rest (after_call rv q1 cb1)
  unfolding after_call
  call-Left q mem cb kept rest m k b e =
      let (rv, q1, mem1, cb1) = qdma_descq_proc_sgt_request page_size q mem cb in
      let f : IsFine cb = All_at cb rest IsFine kept (rw e at b.fine) in
      elim (call-Outcome q mem cb m b.ring f) [
        | inl (same, i, why) ↦ elim (Result-cases rv) [
          | inl (v, h) ↦ rw h (same-Left q q1 cb kept rest same b e)
          | inr (er, h) ↦ rw h (failed-Left q q1 cb cb1 kept rest same i b e)
        ]
        | inr (h, w) ↦ rw h (elim (w.moves) [
          | inl (hw, hp) ↦
              let (b', l) = submitted-IsBalanced q cb kept rest q1 cb1 b k e w hw hp in
              (b', w.advanced.conf, w.credit, (kept, l))
          | inr (hw, hp) ↦
              let (b', l) = updated-IsBalanced q cb kept rest q1 cb1 b k e w hw hp in
              (b', w.advanced.conf, w.credit, (kept ++ (cb1 ∷ []), l))
        ])
      ]

  wrk_from-IsBalanced :
      (cbs kept : List Request) (q : Descq) (mem : RingMemory)
      → q.conf.st && q.conf.c2h ≡ false
      → q.credit < 2 ^ 31
      → IsBalanced q
      → q.work_list ≡ kept ++ cbs
      → let (q', mem') = wrk_from page_size cbs q mem in
        IsBalanced q' × (q'.conf ≡ q.conf) × (q'.credit ≡ q.credit)
  unfolding wrk_from
  wrk_from-IsBalanced [] kept q mem m k b e = (b, refl, refl)
  wrk_from-IsBalanced (cb ∷ cbs) kept q mem m k b e =
      let (rv, q1, mem1, cb1) = qdma_descq_proc_sgt_request page_size q mem cb in
      let q2 = after_call rv q1 cb1 in
      let (b2, c2, k2, (kept2, e2)) = call-Left q mem cb kept cbs m k b e in
      elim (Bool-cases (q2.avail == 0)) [
        | inl full ↦ rw full (b2, c2, k2)
        | inr room ↦
            let m2 : q2.conf.st && q2.conf.c2h ≡ false = ap (λ c. c.st && c.c2h) c2 ∙ m in
            let (b3, c3, k3) = wrk_from-IsBalanced cbs kept2 q2 mem1 m2 (omega (arith, k2)) b2 e2 in
            rw room (b3, c3 ∙ c2, k3 ∙ k2)
      ]

  -- A pass of the request thread over a queue's work list keeps the balance, whatever the calls for the
  -- requests return: the accounting of the ring stays exact, and what the requests wait for is covered
  -- by credit and by the descriptors that are with the device.
  pub wrk_proc-IsBalanced :
      (q : Descq) (mem : RingMemory)
      → q.conf.st && q.conf.c2h ≡ false
      → q.credit < 2 ^ 31
      → IsBalanced q
      → let (q', mem') = qdma_thread_wrk_proc page_size q mem in
        IsBalanced q' × (q'.conf ≡ q.conf) × (q'.credit ≡ q.credit)
  unfolding qdma_thread_wrk_proc
  wrk_proc-IsBalanced q mem m k b = wrk_from-IsBalanced q.work_list [] q mem m k b refl
