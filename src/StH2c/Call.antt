-- ===== src/StH2c/Call.antt =====
-- Whole calls of `descq_proc_st_h2c_request`.
use Prim.Native.Nat.{bit_or}
use native.Mathlib.Decide.{ℕ_discrete}
use qdmav.Prelude.{
  ◌==◌, if◌then◌else◌, modify, ℕ, zero, suc, ◌^◌, ◌≤◌, ◌<◌, ◌≡◌, ◌≢◌, ◌⊎◌, inl, inr, refl, ap, ◌∙◌,
  arith, List, [], ◌∷◌, none, some, take, drop, length, length-take, All, Option-cases,
}
use qdmav.Prelude.Errors.{ok}
use qdmav.Ring.{ring_idx_incr}
use qdmav.Request.{SwSg, Request}
use qdmav.Request.Sgl.{total}
use qdmav.Descq.{Descq, emit}
use qdmav.Mm.{mm_begin, mm_entry, req_submitted}
use qdmav.Mm.Accounting.{IsWord, IsRing, All-drop, total-drop-le}
use qdmav.Mm.Call.{Advanced, Advanced-IsRing}
use qdmav.StH2c.{H2cDesc, StLoop, sop, st_sgl, st_run, st_finish, descq_proc_st_h2c_request}
use qdmav.StH2c.Placed.{st_sent_ring, put_all-placed}
use qdmav.StH2c.Chunks.{
  StChunk, st_chunks, st_bytes, st_frame, put_all-StCounted, st_sgl-eq-put_all, st_chunks-bytes,
}

module _ (page_size : ℕ) (page : 0 < page_size) where
  -- The chunks that a call writes from entry `i` on.
  abbrev pub st_writes : Descq → Request → ℕ → List StChunk
  st_writes q cb i = take q.avail (st_chunks page_size (drop i cb.sgl))

  pub sgl-sg_offset :
      (room : ℕ) (sgl : List SwSg) (sg_offset : ℕ) (s : StLoop)
      → All IsWord sgl
      → st_sgl page_size room sgl sg_offset s ≡ st_sgl page_size room sgl 0 s
  unfolding st_sgl mm_entry
  sgl-sg_offset room [] sg_offset s h = refl
  sgl-sg_offset zero (sg ∷ sgl) sg_offset s h = refl
  sgl-sg_offset (suc room) (sg ∷ sgl) sg_offset s h = rw (same sg_offset sg h.0)
    where
      same : (o : ℕ) (g : SwSg) → IsWord g → mm_entry o g ≡ (g.dma_addr, g.len)
      same o g w = ground arith

  few : (q : Descq) (cb : Request) (i : ℕ) → length (st_writes q cb i) ≤ q.avail
  few q cb i = omega (arith, length-take q.avail (st_chunks page_size (drop i cb.sgl)))

  bytes-take-le : (n : ℕ) (cs : List StChunk) → st_bytes (take n cs) ≤ st_bytes cs
  bytes-take-le zero cs = omega arith
  bytes-take-le (suc n) [] = omega arith
  bytes-take-le (suc n) ((last, addr, len) ∷ cs) = omega (arith, bytes-take-le n cs)

  bytes-writes : (q : Descq) (cb : Request) (i : ℕ) → st_bytes (st_writes q cb i) ≤ total cb.sgl
  bytes-writes q cb i = omega (
    arith,
    bytes-take-le q.avail (st_chunks page_size (drop i cb.sgl)),
    st_chunks-bytes page_size page (drop i cb.sgl),
    total-drop-le i cb.sgl,
  )

  abbrev pub begin : Descq → List H2cDesc → Request → StLoop
  begin q ring cb = record {
    ring =
        if cb.offset == 0
        then modify q.pidx (λ d. record d { flags = bit_or d.flags sop }) ring
        else ring;
    queue = q;
    data_cnt = 0;
    desc_cnt = 0;
  }

  pub run-StCounted :
      (q : Descq) (ring : List H2cDesc) (cb : Request) (i sg_offset : ℕ)
      → IsRing q
      → All IsWord cb.sgl
      → total cb.sgl < 2 ^ 32
      → let s = st_run page_size q ring cb i sg_offset in
        (s.queue.pidx ≡ ring_idx_incr q.pidx (length (st_writes q cb i)) q.conf.rngsz)
        × (s.desc_cnt ≡ length (st_writes q cb i))
        × (s.data_cnt ≡ st_bytes (st_writes q cb i))
        × (st_frame s.queue ≡ st_frame q)
  unfolding st_run
  run-StCounted q ring cb i sg_offset r w t =
      let n = few q cb i in
      let whole =
        sgl-sg_offset q.avail (drop i cb.sgl) sg_offset (begin q ring cb)
          (All-drop IsWord i cb.sgl w)
        ∙ st_sgl-eq-put_all page_size page q.avail (drop i cb.sgl) (begin q ring cb) in
      let c =
        put_all-StCounted (st_writes q cb i) (begin q ring cb) r.size r.pidx_in
          (omega (arith, n, r.balance)) (omega (arith, n, r.balance, r.size))
          (omega (arith, bytes-writes q cb i)) in
      rw whole (c.pidx, omega (arith, c.desc_cnt), omega (arith, c.data_cnt), c.frame)

  run-placed :
      (q : Descq) (ring : List H2cDesc) (cb : Request) (i sg_offset : ℕ)
      → IsRing q
      → All IsWord cb.sgl
      → (st_run page_size q ring cb i sg_offset).ring ≡ st_sent_ring q ring cb (st_writes q cb i)
  unfolding st_run
  run-placed q ring cb i sg_offset r w =
      rw
        (
          sgl-sg_offset q.avail (drop i cb.sgl) sg_offset (begin q ring cb)
              (All-drop IsWord i cb.sgl w),
          st_sgl-eq-put_all page_size page q.avail (drop i cb.sgl) (begin q ring cb),
        )
        (put_all-placed (st_writes q cb i) (begin q ring cb) r.size r.pidx_in)

  finish-Advanced :
      (q : Descq) (cb : Request) (n b : ℕ) (s : StLoop)
      → n ≤ q.avail
      → q.avail < 2 ^ 32
      → s.desc_cnt ≡ n
      → s.data_cnt ≡ b
      → s.queue.pidx ≡ ring_idx_incr q.pidx n q.conf.rngsz
      → st_frame s.queue ≡ st_frame q
      → let (q', ring', cb') = st_finish page_size q cb s in Advanced q cb n b q' cb'
  unfolding st_finish req_submitted emit
  finish-Advanced q cb n b s hn ha hd hb hp hf =
      let conf = ap (λ f. f.0) hf in
      let avail : s.queue.avail ≡ q.avail = ap (λ f. f.1) hf in
      let cidx = ap (λ f. f.2) hf in
      record {
        conf = ground (arith, conf);
        cidx = ground (arith, cidx);
        avail = ground (arith, avail);
        pidx = ground (arith, hp);
        desc_nr = ground (arith, hd);
        offset = ground (arith, hb);
      }

  finish-ring : (q : Descq) (cb : Request) (s : StLoop) → (st_finish page_size q cb s).1 ≡ s.ring
  unfolding st_finish
  finish-ring q cb s = refl

  pub st_request-eq-finish :
      (q : Descq) (ring : List H2cDesc) (cb : Request) {i sg_offset : ℕ}
      → q.avail ≢ 0
      → mm_begin cb ≡ some (i, sg_offset)
      → let fin = st_finish page_size q cb (st_run page_size q ring cb i sg_offset) in
        descq_proc_st_h2c_request page_size q ring cb ≡ (ok 0, fin.0, fin.1, fin.2)
  unfolding descq_proc_st_h2c_request
  st_request-eq-finish q ring cb ha hb = ground arith

  st_request_idle :
      (q : Descq) (ring : List H2cDesc) (cb : Request)
      → (q.avail ≡ 0) ⊎ (mm_begin cb ≡ none)
      → (descq_proc_st_h2c_request page_size q ring cb).1 ≡ q
  unfolding descq_proc_st_h2c_request
  st_request_idle q ring cb (inl h) = ground arith
  st_request_idle q ring cb (inr h) = ground arith

  -- A streaming call on a ring with room, for a request whose position is found, succeeds: it writes the
  -- first `avail` page chunks of the entries from that position on into consecutive entries of the ring
  -- and around its end, in order, with the packet's start where the request begins and its end in the
  -- chunks of the last entry, and nothing into the ring's other entries. It advances the ring, the
  -- request's descriptor count and its offset by these chunks, also where there are no bytes to send.
  pub st_request_advances :
      (q : Descq) (ring : List H2cDesc) (cb : Request) {i sg_offset : ℕ}
      → IsRing q
      → All IsWord cb.sgl
      → total cb.sgl < 2 ^ 32
      → q.avail ≢ 0
      → mm_begin cb ≡ some (i, sg_offset)
      → let (rv, q', ring', cb') = descq_proc_st_h2c_request page_size q ring cb in
        (rv ≡ ok 0)
        × (ring' ≡ st_sent_ring q ring cb (st_writes q cb i))
        × Advanced q cb (length (st_writes q cb i)) (st_bytes (st_writes q cb i)) q' cb'
  st_request_advances q ring cb {i} {sg_offset} r w t ha hb =
      let (p, d, b, f) = run-StCounted q ring cb i sg_offset r w t in
      rw (st_request-eq-finish q ring cb ha hb) (
        refl,
        finish-ring q cb _ ∙ run-placed q ring cb i sg_offset r w,
        finish-Advanced q cb (length (st_writes q cb i)) (st_bytes (st_writes q cb i))
            (st_run page_size q ring cb i sg_offset) (few q cb i) (omega (arith, r.balance, r.size))
            d b p f,
      )

  -- Whatever a streaming call returns, the ring's accounting stays exact.
  pub st_request-IsRing :
      (q : Descq) (ring : List H2cDesc) (cb : Request)
      → IsRing q
      → All IsWord cb.sgl
      → total cb.sgl < 2 ^ 32
      → let (rv, q', ring', cb') = descq_proc_st_h2c_request page_size q ring cb in IsRing q'
  st_request-IsRing q ring cb r w t = elim (Option-cases (mm_begin cb)) [
    | inl bad ↦ rw (st_request_idle q ring cb (inr bad)) r
    | inr (p, found) ↦ elim (ℕ_discrete q.avail 0) [
      | yes full ↦ rw (st_request_idle q ring cb (inl full)) r
      | no room ↦ Advanced-IsRing q cb _ _ _ _ r (st_request_advances q ring cb r w t room found).2
    ]
  ]
