-- ===== src/Lifecycle/Ready.antt =====
-- A queue that was configured, and its first request.
use qdmav.Prelude.{
  ◌+◌, ◌^◌, ◌≤◌, ◌<◌, ◌≡◌, refl, arith, true, false, not, ◌&&◌, List, [], ◌∷◌, ◌++◌, differ, get_or,
  length, All, Bool-cases, inl, inr,
}
use qdmav.Prelude.Errors.{ok}
use qdmav.Ring.{ring_idx_delta}
use qdmav.Ring.Laws.{ring_max}
use qdmav.Request.{Request}
use qdmav.Request.Sgl.{total}
use qdmav.Descq.{Descq, emit}
use qdmav.Mm.{MmDesc, descq_mm_proc_request}
use qdmav.Mm.Chunks.{chunks}
use qdmav.Mm.Accounting.{IsWord, IsRing, IsRing-same}
use qdmav.Mm.Call.{proc_request_completes}
use qdmav.Lifecycle.{
  GlobalCsrConf, qdma_descq_config_complete, completion_entries, fresh_cb, enqueue,
}

-- A queue whose ring has at least two entries is ready once it is configured: the call succeeds, the
-- accounting is exact, and all entries of the ring but two are free.
pub config_complete-IsRing :
    (csr : GlobalCsrConf) (q : Descq)
    → let sz = get_or csr.ring_sz q.conf.desc_rng_sz_idx 0 in
      let (rv, q') = qdma_descq_config_complete (ok csr) q in
      2 ≤ sz → sz ≤ ring_max + 1 → (rv ≡ ok 0) × IsRing q' × (q'.avail + 2 ≡ sz)
unfolding qdma_descq_config_complete completion_entries ring_idx_delta
config_complete-IsRing csr q l u = elim (Bool-cases (q.conf.c2h && q.conf.st)) [
  | inl stream ↦ rw stream (
    refl,
    record {
      size = omega arith;
      pidx_in = omega arith;
      cidx_in = omega arith;
      balance = omega arith;
    },
    omega arith,
  )
  | inr other ↦ rw other (
    refl,
    record {
      size = omega arith;
      pidx_in = omega arith;
      cidx_in = omega arith;
      balance = omega arith;
    },
    omega arith,
  )
]

-- The control block as it is queued.
abbrev pub queued : Request → Request
queued r = record (fresh_cb r) { unmap_needed = not r.dma_mapped }

enqueue-eq :
    (q : Descq) (r : Request)
    → q.online ≡ true
    → differ r.write (not q.conf.c2h) ≡ false
    → let (rv, q') = enqueue (ok 0) q r in
      (rv ≡ ok 0)
      × (q'.conf ≡ q.conf)
      × (q'.avail ≡ q.avail)
      × (q'.pidx ≡ q.pidx)
      × (q'.cidx ≡ q.cidx)
      × (q'.pend_list ≡ q.pend_list)
unfolding enqueue emit
enqueue-eq q r o d =
    (ground arith, ground arith, ground arith, ground arith, ground arith, ground arith)

enqueue-IsRing :
    (q : Descq) (r : Request)
    → q.online ≡ true
    → differ r.write (not q.conf.c2h) ≡ false
    → IsRing q
    → IsRing (enqueue (ok 0) q r).1
enqueue-IsRing q r o d g =
    let (rv, c, a, p, i, l) = enqueue-eq q r o d in IsRing-same q (enqueue (ok 0) q r).1 c a p i g

-- A queue that was configured and is online takes a request in its direction, and the first
-- call of `descq_mm_proc_request` writes the whole request where it fits into the ring: it ends with its size as
-- its offset, after the requests that are with the device.
pub first_request :
    (csr : GlobalCsrConf) (q : Descq) (ring : List MmDesc) (r : Request)
    → let sz = get_or csr.ring_sz q.conf.desc_rng_sz_idx 0 in
      let q1 = (qdma_descq_config_complete (ok csr) q).1 in
      2 ≤ sz
      → sz ≤ ring_max + 1
      → q1.online ≡ true
      → differ r.write (not q1.conf.c2h) ≡ false
      → All IsWord r.sgl
      → total r.sgl < 2 ^ 32
      → r.count ≡ total r.sgl
      → 0 < r.count
      → length (chunks r.sgl) + 2 ≤ sz
      → let (rv, q2) = enqueue (ok 0) q1 r in
        let (rv', q3, ring', cb) = descq_mm_proc_request q2 ring (queued r) in
        (rv ≡ ok 0)
        × (rv' ≡ ok 0)
        × (cb.offset ≡ r.count)
        × (q3.pend_list ≡ q1.pend_list ++ (cb ∷ []))
unfolding fresh_cb
first_request csr q ring r l u o d w t c p n =
    let q1 = (qdma_descq_config_complete (ok csr) q).1 in
    let (k, g, a) = config_complete-IsRing csr q l u in
    let (rv, ec, ea, ep, ei, el) = enqueue-eq q1 r o d in
    let q2 = (enqueue (ok 0) q1 r).1 in
    let room : length (chunks (queued r).sgl) ≤ q2.avail = omega (arith, a, ea) in
    let (s, written, off, pend, work) =
      proc_request_completes q2 ring (queued r) (enqueue-IsRing q1 r o d g) w t refl c p room in
    (rv, s, off, rw el at pend)
