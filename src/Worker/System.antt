-- ===== src/Worker/System.antt =====
-- A queue, its clients, the request thread and the device as one system: clients submit requests, the
-- thread passes over the work list, and the device reports how far it has come, in any order.
use qdmav.Prelude.{
  ℕ, ◌≡◌, ◌<◌, ◌^◌, ◌⊎◌, inl, inr, refl, ap, ◌∙◌, arith, false, not, ◌&&◌, List, [], ◌∷◌, ◌++◌,
  ◌==◌, differ, Bool-cases, All,
}
use qdmav.Prelude.Errors.{Result, Result-cases}
use qdmav.Request.{Request}
use qdmav.Descq.{Descq, emit}
use qdmav.Mm.Accounting.{IsRing-same}
use qdmav.Mm.Chunks.{All-append}
use qdmav.Mm.Outcome.{work_frame}
use qdmav.Writeback.{descq_mm_n_h2c_wb}
use qdmav.Writeback.Device.{IsDone}
use qdmav.Lifecycle.{enqueue, fresh_cb}
use qdmav.Worker.{RingMemory, qdma_thread_wrk_proc, qdma_descq_service_wb}
use qdmav.Worker.Lists.{ids, Distinct, outstanding-append}
use qdmav.Worker.Balance.{IsFine, IsBalanced, IsBalanced-same}
use qdmav.Worker.Written.{wrk_proc-IsBalanced}
use qdmav.Worker.Drained.{wb-IsBalanced, wb_drains}

pub data Step (page_size : ℕ) : Descq × RingMemory → Descq × RingMemory → Type 0 where
  -- a request that is in no list
  submits :
      {q : Descq} {mem : RingMemory} (map : Result ℕ) (r : Request)
      → IsFine r
      → All (λ i. (i == r.id) ≡ false) (ids q.work_list)
      → Step page_size (q, mem) ((enqueue map q r).1, mem)
  works :
      {q : Descq} {mem : RingMemory}
      → q.credit < 2 ^ 31
      → Step page_size (q, mem) (qdma_thread_wrk_proc page_size q mem)
  -- the device's index lies between the queue's
  writes_back :
      {q : Descq} {mem : RingMemory} (st_c2h : Descq → Descq) (cidx : ℕ)
      → IsDone q cidx
      → q.credit < 2 ^ 31
      → Step page_size (q, mem) (qdma_descq_service_wb st_c2h q cidx, mem)

pub data Reach (page_size : ℕ) : Descq × RingMemory → Descq × RingMemory → Type 0 where
  start : {s : Descq × RingMemory} → Reach page_size s s
  next :
      {s t u : Descq × RingMemory} → Reach page_size s t → Step page_size t u → Reach page_size s u

-- A queue that is not streaming C2H, in balance.
abbrev pub IsServed : Descq × RingMemory → Type 0
IsServed (q, mem) = IsBalanced q × (q.conf.st && q.conf.c2h ≡ false)

service-eq :
    (st_c2h : Descq → Descq) (q : Descq) (cidx : ℕ)
    → q.conf.st && q.conf.c2h ≡ false
    → qdma_descq_service_wb st_c2h q cidx ≡ descq_mm_n_h2c_wb q cidx
unfolding qdma_descq_service_wb
service-eq st_c2h q cidx m = rw m refl

All-ids-append :
    (r : Request) (rs : List Request)
    → All (λ i. (i == r.id) ≡ false) (ids rs)
    → Distinct (ids rs)
    → Distinct (ids (rs ++ (r ∷ [])))
All-ids-append r [] h d = (tt, tt)
All-ids-append r (x ∷ rs) h d = (grow rs d.0, All-ids-append r rs h.1 d.1)
  where
    grow :
        (l : List Request)
        → All (λ j. (x.id == j) ≡ false) (ids l)
        → All (λ j. (x.id == j) ≡ false) (ids (l ++ (r ∷ [])))
    grow [] a = (h.0, tt)
    grow (y ∷ l) a = (a.0, grow l a.1)

-- What a submission does: nothing to the ring and the lists, or one more request.
enqueue-cases :
    (map : Result ℕ) (q : Descq) (r : Request)
    → let q' = (enqueue map q r).1 in
      (work_frame q' ≡ work_frame q)
      ⊎ ((cb : Request) × (cb.id ≡ r.id)
          × (cb.sgl ≡ r.sgl)
          × (cb.desc_nr ≡ 0)
          × (work_frame q' ≡ work_frame (record q { work_list = q.work_list ++ (cb ∷ []) })))
unfolding enqueue emit fresh_cb
enqueue-cases map q r =
    let cb = record (fresh_cb r) { unmap_needed = not r.dma_mapped } in
    elim (Bool-cases (differ r.write (not q.conf.c2h))) [
      | inl wrong ↦ inl (ground (arith, wrong))
      | inr right ↦ elim (Bool-cases q.online) [
        | inr off ↦ inl (ground (arith, right, off))
        | inl on ↦ elim (Bool-cases r.dma_mapped) [
          | inl mapped ↦ inr (cb, refl, refl, refl, ground (arith, right, on, mapped))
          | inr unmapped ↦ elim (Result-cases map) [
            | inl (v, h) ↦ inr (cb, refl, refl, refl, ground (arith, right, on, unmapped, h))
            | inr (e, h) ↦ inl (ground (arith, right, on, unmapped, h))
          ]
        ]
      ]
    ]

submit-IsBalanced :
    (map : Result ℕ) (q : Descq) (r : Request)
    → IsFine r
    → All (λ i. (i == r.id) ≡ false) (ids q.work_list)
    → IsBalanced q
    → IsBalanced (enqueue map q r).1 × ((enqueue map q r).1.conf ≡ q.conf)
submit-IsBalanced map q r f n b = elim (enqueue-cases map q r) [
  | inl same ↦ (IsBalanced-same q _ same b, ap (λ f. f.0) same)
  | inr (cb, i, g, z, more) ↦
      let q1 = record q { work_list = q.work_list ++ (cb ∷ []) } in
      let fresh : All (λ i. (i == cb.id) ≡ false) (ids q.work_list) = rw i n in
      let fine : IsFine cb = rw g f in
      (
        IsBalanced-same q1 (enqueue map q r).1 more (record {
          ring = IsRing-same q q1 refl refl refl refl b.ring;
          owed = omega (arith, outstanding-append q.work_list (cb ∷ []), z, b.owed);
          given = b.given;
          busy = b.busy;
          fine = All-append IsFine q.work_list (cb ∷ []) b.fine (fine, tt);
          distinct = All-ids-append cb q.work_list fresh b.distinct;
        }),
        ap (λ f. f.0) more,
      )
]

module _ (page_size : ℕ) (page : 0 < page_size) where
  Step-IsServed : {s t : Descq × RingMemory} → IsServed s → Step page_size s t → IsServed t
  Step-IsServed (b, m) (submits {q} {mem} map r f n) =
      let (b', c) = submit-IsBalanced map q r f n b in (b', ap (λ c. c.st && c.c2h) c ∙ m)
  Step-IsServed (b, m) (works {q} {mem} k) =
      let (b', c, h) = wrk_proc-IsBalanced page_size page q mem m k b in
      (b', ap (λ c. c.st && c.c2h) c ∙ m)
  Step-IsServed (b, m) (writes_back {q} {mem} st_c2h cidx d k) =
      let (b', c) = wb-IsBalanced q cidx b d k in
      rw (service-eq st_c2h q cidx m) (b', ap (λ c. c.st && c.c2h) c ∙ m)

  -- However submissions, passes of the request thread and writebacks follow each other, a queue that is
  -- in balance stays so: the accounting of its ring is exact, and what its requests wait for is covered
  -- by credit and by the descriptors that are with the device.
  pub reach-IsServed : {s t : Descq × RingMemory} → Reach page_size s t → IsServed s → IsServed t
  reach-IsServed start h = h
  reach-IsServed (next r st) h = Step-IsServed (reach-IsServed r h) st

  -- However submissions, passes of the request thread and writebacks followed each other on a queue that
  -- began in balance: once the device reports every descriptor as done, the completion thread leaves no
  -- request pending.
  pub reach-drains :
      (s t : Descq × RingMemory) (st_c2h : Descq → Descq)
      → Reach page_size s t
      → IsServed s
      → t.0.credit < 2 ^ 31
      → (qdma_descq_service_wb st_c2h t.0 t.0.pidx).pend_list ≡ []
  reach-drains s t st_c2h r h k =
      let (b, m) = reach-IsServed r h in rw (service-eq st_c2h t.0 t.0.pidx m) (wb_drains t.0 b k)
