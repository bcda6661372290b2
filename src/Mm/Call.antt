-- ===== src/Mm/Call.antt =====
-- Whole calls of `descq_mm_proc_request`: what each one returns, writes and leaves behind.
use native.Mathlib.Decide.{ℕ_discrete, dec_lt}
use qdmav.Prelude.{
  ℕ, suc, ◌+◌, ◌-◌, ◌^◌, ◌≤◌, ◌<◌, ◌≡◌, ◌≢◌, refl, sym, ap, ◌∙◌, List, [], ◌∷◌, ◌++◌, ◌⊎◌, none,
  some, inl, inr, arith, add32, take, drop, length, length-take, take-of_length_le, List-cases, All,
  Option-cases,
}
use qdmav.Prelude.Errors.{ok, err, eio}
use qdmav.Ring.{ring_idx_incr}
use qdmav.Ring.Laws.{delta-incr_add, incr-zero}
use qdmav.Request.{Request}
use qdmav.Request.Sgl.{total, sgl_find_offset, sgl_find_offset-Found, total-take-drop, take-suc_end}
use qdmav.Descq.{Descq, emit, list_del}
use qdmav.Descq.Update.{descq_c2h_pidx_update, descq_h2c_pidx_update}
use qdmav.Mm.{MmDesc, MmLoop, mm_begin, mm_finish, mm_run, req_submitted, descq_mm_proc_request}
use qdmav.Mm.Chunks.{chunks, bytes, chunks_lem}
use qdmav.Mm.Placed.{last_slot, sent_ring, mm_run-last_slot, mm_finish-sent_ring}
use qdmav.Mm.Accounting.{IsWord, IsRing, writes, mm_run-Counted}

-- What a successful call leaves behind, `n` descriptors of `b` bytes further on.
pub record Advanced (q : Descq) (cb : Request) (n b : ℕ) (q' : Descq) (cb' : Request) : Type 0 where
  pub conf : q'.conf ≡ q.conf
  pub cidx : q'.cidx ≡ q.cidx
  pub avail : q'.avail + n ≡ q.avail
  pub pidx : q'.pidx ≡ ring_idx_incr q.pidx n q.conf.rngsz
  pub desc_nr : cb'.desc_nr ≡ add32 cb.desc_nr n
  pub offset : cb'.offset ≡ add32 cb.offset b

mm_finish-Advanced :
    (q : Descq) (cb : Request) (ds de n b : ℕ) (s : MmLoop)
    → n ≤ q.avail
    → q.avail < 2 ^ 32
    → s.desc_cnt ≡ n
    → s.data_cnt ≡ b
    → s.pidx ≡ ring_idx_incr q.pidx n q.conf.rngsz
    → let (q', ring', cb') = mm_finish q cb ds de s in Advanced q cb n b q' cb'
unfolding mm_finish req_submitted emit descq_c2h_pidx_update descq_h2c_pidx_update
mm_finish-Advanced q cb ds de n b s hn ha hd hb hp = record {
  conf = ground arith;
  cidx = ground arith;
  avail = ground arith;
  pidx = ground arith;
  desc_nr = ground arith;
  offset = ground arith;
}

-- The path through the function on which descriptors were written.
pub proc_request-eq-finish :
    (q : Descq) (ring : List MmDesc) (cb : Request) {i sg_offset de : ℕ}
    → q.avail ≢ 0
    → mm_begin cb ≡ some (i, sg_offset)
    → (mm_run q ring cb i sg_offset).desc_end ≡ some de
    → let fin = mm_finish q cb q.pidx de (mm_run q ring cb i sg_offset) in
      descq_mm_proc_request q ring cb ≡ (ok 0, fin.0, fin.1, fin.2)
unfolding descq_mm_proc_request
proc_request-eq-finish q ring cb ha hb hd = ground arith

-- A full ring or an offset out of range: nothing changes.
pub proc_request_idle :
    (q : Descq) (ring : List MmDesc) (cb : Request)
    → (q.avail ≡ 0) ⊎ (mm_begin cb ≡ none)
    → (descq_mm_proc_request q ring cb).1 ≡ q
unfolding descq_mm_proc_request
proc_request_idle q ring cb (inl h) = ground arith
proc_request_idle q ring cb (inr h) = ground arith

proc_request-eq-eio :
    (q : Descq) (ring : List MmDesc) (cb : Request) {i sg_offset : ℕ}
    → q.avail ≢ 0
    → mm_begin cb ≡ some (i, sg_offset)
    → (mm_run q ring cb i sg_offset).desc_end ≡ none
    → let s = mm_run q ring cb i sg_offset in
      descq_mm_proc_request q ring cb ≡ (err eio, record q { pidx = s.pidx }, s.ring, cb)
unfolding descq_mm_proc_request
proc_request-eq-eio q ring cb ha hb hd = ground arith

few : (q : Descq) (cb : Request) (i : ℕ) → length (writes q cb i) ≤ q.avail
few q cb i = omega (arith, length-take q.avail (chunks (drop i cb.sgl)))

-- A call on a ring with room, for a request whose position is found and from which there is
-- something to write, succeeds: it writes the first `avail` chunks from that position and
-- advances the ring, the request's descriptor count and its offset by them.
pub proc_request_advances :
    (q : Descq) (ring : List MmDesc) (cb : Request) {i sg_offset : ℕ}
    → IsRing q
    → All IsWord cb.sgl
    → total cb.sgl < 2 ^ 32
    → q.avail ≢ 0
    → mm_begin cb ≡ some (i, sg_offset)
    → writes q cb i ≢ []
    → let (rv, q', ring', cb') = descq_mm_proc_request q ring cb in
      (rv ≡ ok 0) × Advanced q cb (length (writes q cb i)) (bytes (writes q cb i)) q' cb'
proc_request_advances q ring cb {i} {sg_offset} r w t ha hb hw =
    let c = mm_run-Counted q ring cb i sg_offset r w t in
    let (de, hde) = c.wrote hw in
    rw (proc_request-eq-finish q ring cb ha hb hde) (
      refl,
      mm_finish-Advanced q cb q.pidx de (length (writes q cb i)) (bytes (writes q cb i)) _
          (few q cb i) (omega (arith, r.balance, r.size)) (omega (arith, c.desc_cnt))
          (omega (arith, c.data_cnt)) c.pidx,
    )

-- `avail` and the distance from `cidx` to `pidx` trade off exactly.
pub Advanced-IsRing :
    (q : Descq) (cb : Request) (n b : ℕ) (q' : Descq) (cb' : Request)
    → IsRing q
    → Advanced q cb n b q' cb'
    → IsRing q'
Advanced-IsRing q cb n b q' cb' r a =
    let e : q'.conf.rngsz ≡ q.conf.rngsz = ap (λ c. c.rngsz) a.conf in
    let (d, p) =
      delta-incr_add q.pidx q.cidx n q.conf.rngsz r.size r.pidx_in r.cidx_in
        (omega (arith, r.balance, a.avail)) in
    record {
      size = rw e r.size;
      pidx_in = rw (e, a.pidx) p;
      cidx_in = rw (e, a.cidx) r.cidx_in;
      balance = rw (e, a.cidx, a.pidx, d) (omega (arith, r.balance, a.avail));
    }

-- Where there is nothing to write, the call fails and the index stays.
pub proc_request_eio :
    (q : Descq) (ring : List MmDesc) (cb : Request) {i sg_offset : ℕ}
    → IsRing q
    → All IsWord cb.sgl
    → total cb.sgl < 2 ^ 32
    → q.avail ≢ 0
    → mm_begin cb ≡ some (i, sg_offset)
    → writes q cb i ≡ []
    → let s = mm_run q ring cb i sg_offset in
      (descq_mm_proc_request q ring cb ≡ (err eio, record q { pidx = s.pidx }, s.ring, cb))
      × (s.pidx ≡ q.pidx)
proc_request_eio q ring cb {i} {sg_offset} r w t ha hb hw =
    let c = mm_run-Counted q ring cb i sg_offset r w t in
    let z : length (writes q cb i) ≡ 0 = rw hw in
    (
      proc_request-eq-eio q ring cb ha hb (c.last hw),
      c.pidx
          ∙ ap (λ n. ring_idx_incr q.pidx n q.conf.rngsz) z
          ∙ incr-zero q.pidx q.conf.rngsz r.size r.pidx_in,
    )

-- Whatever a call returns, the ring's accounting stays exact: no slot is lost or counted twice,
-- and `pidx` never catches up with `cidx`.
pub proc_request-IsRing :
    (q : Descq) (ring : List MmDesc) (cb : Request)
    → IsRing q
    → All IsWord cb.sgl
    → total cb.sgl < 2 ^ 32
    → let (rv, q', ring', cb') = descq_mm_proc_request q ring cb in IsRing q'
proc_request-IsRing q ring cb r w t = elim (Option-cases (mm_begin cb)) [
  | inl bad ↦ rw (proc_request_idle q ring cb (inr bad)) r
  | inr (p, found) ↦ elim (ℕ_discrete q.avail 0) [
    | yes full ↦ rw (proc_request_idle q ring cb (inl full)) r
    | no room ↦ elim (List-cases (writes q cb p.0)) [
      | inl nothing ↦
          let (e, p) = proc_request_eio q ring cb r w t room found nothing in
          rw (e, p)
            (record {
              size = r.size;
              pidx_in = r.pidx_in;
              cidx_in = r.cidx_in;
              balance = r.balance;
            })
      | inr some_chunk ↦
          Advanced-IsRing q cb _ _ _ _ r
            (proc_request_advances q ring cb r w t room found some_chunk).1
    ]
  ]
]

mm_begin_fresh : (cb : Request) → cb.offset ≡ 0 → mm_begin cb ≡ some (0, 0)
unfolding mm_begin
mm_begin_fresh cb h = ground arith

mm_begin_resumed :
    (cb : Request) {i left : ℕ}
    → 0 < cb.offset
    → sgl_find_offset cb.sgl cb.offset ≡ some (i, left)
    → i < length cb.sgl
    → mm_begin cb ≡ some (i, left)
unfolding mm_begin
mm_begin_resumed cb ho hf hi = ground arith

writes_all :
    (q : Descq) (cb : Request) (i : ℕ)
    → length (chunks (drop i cb.sgl)) ≤ q.avail
    → writes q cb i ≡ chunks (drop i cb.sgl)
writes_all q cb i h = take-of_length_le q.avail (chunks (drop i cb.sgl)) h

writes-avail : (q : Descq) (cb : Request) (i : ℕ) → writes q cb i ≢ [] → q.avail ≢ 0
writes-avail q cb i h z = h (rw z)

mm_finish-submitted :
    (q : Descq) (cb : Request) (ds de : ℕ) (s : MmLoop)
    → let (q', ring', cb') = mm_finish q cb ds de s in
      cb'.offset ≡ cb.count
      → (q'.pend_list ≡ q.pend_list ++ (cb' ∷ [])) × (q'.work_list ≡ list_del cb.id q.work_list)
unfolding mm_finish req_submitted emit descq_c2h_pidx_update descq_h2c_pidx_update
mm_finish-submitted q cb ds de s h = (ground arith, ground arith)

-- A first call, on a ring that has room for all the chunks of a request whose count is its entries'
-- total and not zero, writes a descriptor for each chunk: in order, each at the next address of the
-- device, in consecutive entries of the ring and around its end, with the packet's start in the first
-- and its end in the last; the ring's other entries stay. The offset becomes the count, and the request
-- moves from the work list to the end of the list of requests with the device.
pub proc_request_completes :
    (q : Descq) (ring : List MmDesc) (cb : Request)
    → IsRing q
    → All IsWord cb.sgl
    → total cb.sgl < 2 ^ 32
    → cb.offset ≡ 0
    → cb.count ≡ total cb.sgl
    → 0 < cb.count
    → length (chunks cb.sgl) ≤ q.avail
    → let (rv, q', ring', cb') = descq_mm_proc_request q ring cb in
      (rv ≡ ok 0)
      × (ring' ≡ sent_ring q ring cb)
      × (cb'.offset ≡ cb.count)
      × (q'.pend_list ≡ q.pend_list ++ (cb' ∷ []))
      × (q'.work_list ≡ list_del cb.id q.work_list)
proc_request_completes q ring cb r w t ho hc hp hl =
    let begin = mm_begin_fresh cb ho in
    let all = writes_all q cb 0 hl in
    let b : bytes (writes q cb 0) ≡ cb.count = rw all ((chunks_lem cb.sgl).0 ∙ sym hc) in
    let some_chunk : writes q cb 0 ≢ [] = λ e. absurd (omega (arith, b, ap bytes e)) in
    let de = last_slot q.conf.rngsz q.pidx (chunks cb.sgl) in
    let hde = mm_run-last_slot q ring cb r w all (rw all at some_chunk) in
    let (rv, a) =
      proc_request_advances q ring cb r w t (writes-avail q cb 0 some_chunk) begin some_chunk in
    let o : (descq_mm_proc_request q ring cb).3.offset ≡ cb.count = a.offset ∙ sum cb.offset b ho in
    let fin = proc_request-eq-finish q ring cb (writes-avail q cb 0 some_chunk) begin hde in
    let (p, l) = mm_finish-submitted q cb q.pidx de (mm_run q ring cb 0 0) (rw fin at o) in
    (rv, rw fin (mm_finish-sent_ring q ring cb r w all ho), o, rw fin p, rw fin l)
  where
    sum : (x : ℕ) {y : ℕ} → y ≡ cb.count → x ≡ 0 → add32 x y ≡ cb.count
    sum x e z = omega arith

resumed_inside :
    (cb : Request) {i left : ℕ}
    → total cb.sgl < 2 ^ 32
    → 0 < cb.offset
    → sgl_find_offset cb.sgl cb.offset ≡ some (i, left)
    → 0 < left
    → (total (take i cb.sgl) < cb.offset) × (cb.offset < total (take (suc i) cb.sgl))
resumed_inside cb {i} {left} t ho hf hl =
    let f = sgl_find_offset-Found cb.sgl cb.offset t ho hf in
    let e : i - 0 ≡ i = omega arith in
    let p : total (take (i - 0) cb.sgl) < cb.offset = omega (arith, f.past hl) in
    let n : cb.offset < total (take (suc (i - 0)) cb.sgl) = omega (arith, f.inside hl) in
    (rw e at p, rw e at n)

resumed_lt :
    (cb : Request) {i : ℕ}
    → total (take i cb.sgl) < cb.offset
    → cb.offset < total (take (suc i) cb.sgl)
    → i < length cb.sgl
resumed_lt cb {i} h k = elim (dec_lt i (length cb.sgl)) [
  | yes p ↦ p
  | no p ↦ absurd (omega (arith, take-suc_end i cb.sgl (omega arith)))
]

-- Where the count is the entries' total and the offset and the total sum to less than 2 ^ 32: a call
-- that resumes inside an entry, on a ring with room for the chunks from that entry on, succeeds with
-- the request's offset beyond its size.
pub resume_overshoots :
    (q : Descq) (ring : List MmDesc) (cb : Request) {i left : ℕ}
    → IsRing q
    → All IsWord cb.sgl
    → cb.offset + total cb.sgl < 2 ^ 32
    → 0 < cb.offset
    → cb.count ≡ total cb.sgl
    → sgl_find_offset cb.sgl cb.offset ≡ some (i, left)
    → 0 < left
    → length (chunks (drop i cb.sgl)) ≤ q.avail
    → let (rv, q', ring', cb') = descq_mm_proc_request q ring cb in
      (rv ≡ ok 0) × (cb.count < cb'.offset)
resume_overshoots q ring cb {i} {left} r w t ho hc hf hl hr =
    let t' : total cb.sgl < 2 ^ 32 = omega arith in
    let (before, after) = resumed_inside cb t' ho hf hl in
    let begin = mm_begin_resumed cb ho hf (resumed_lt cb before after) in
    let b : bytes (writes q cb i) ≡ total (drop i cb.sgl) =
      rw (writes_all q cb i hr) ((chunks_lem (drop i cb.sgl)).0) in
    let whole = total-take-drop i cb.sgl in
    let next = total-take-drop (suc i) cb.sgl in
    let some_chunk : writes q cb i ≢ [] =
      λ e. absurd (omega (arith, b, ap bytes e, whole, next, before, after)) in
    let (rv, a) =
      proc_request_advances q ring cb r w t' (writes-avail q cb i some_chunk) begin some_chunk in
    (rv, omega (arith, a.offset, b, whole, before))
