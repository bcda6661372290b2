-- ===== src/Submit/Streaming.antt =====
-- How many bytes a read of a streaming C2H queue reports.
use qdmav.Prelude.{
  ℕ, zero, suc, ◌+◌, ◌-◌, ◌%◌, ◌^◌, ◌<◌, ◌≡◌, ◌⊎◌, refl, ap, ◌∙◌, arith, min, Bool, true, false,
  not, ◌&&◌, ◌||◌, List, [], ◌∷◌, ◌++◌, Option, none, some, add32, sub32, ◌==◌, if◌then◌else◌,
  get_elem?, modify, drop, Bool-cases, Option-cases, inl, inr,
}
use qdmav.Prelude.Errors.{Result, ok, Result-cases}
use qdmav.Ring.{ring_idx_incr, ring_idx_delta}
use qdmav.Request.{SwSg, Request}
use qdmav.Descq.{Descq, emit}
use qdmav.Descq.Update.{descq_c2h_pidx_update, descq_wrb_cidx_update}
use qdmav.C2h.Flq.Steps.{uncons, read_from-zero, read_from-nil, read_from-gone, read_from-go}
use qdmav.C2h.Flq.{
  note_end, Flq, SdescInfo, Copy, ReadLoop, copy_buffer, read_from, descq_st_c2h_read, is_nil,
  qdma_flq_refill, refill_from, renew, clear_flags,
}
use qdmav.Lifecycle.{fresh_cb}
use qdmav.Submit.{qdma_queue_packet_read, qdma_request_submit_st_c2h, after_read, leave_rest}

-- The bytes that were copied.
unfoldable pub total : List Copy → ℕ
total [] = 0
total (c ∷ cs) = c.count + total cs

total-append : (cs : List Copy) (c : Copy) → total (cs ++ (c ∷ [])) ≡ total cs + c.count
unfolding total
total-append [] c = omega arith
total-append (x ∷ cs) c = omega (arith, total-append cs c)

-- `copied` counts the bytes, in 32 bits.
abbrev Counted : ReadLoop → Type 0
Counted s = s.copied ≡ total s.copies % 2 ^ 32

copy_buffer-Counted :
    (pidx flen : ℕ) (ts : List SwSg) (s : ReadLoop)
    → Counted s
    → Counted (copy_buffer pidx flen ts s)
unfolding copy_buffer
copy_buffer-Counted pidx flen [] s h = h
copy_buffer-Counted pidx flen (t ∷ ts) s h =
    let copy = min flen (sub32 t.len s.tsgoff) in
    let c : Copy = record {
      pidx = pidx;
      foff = s.foff;
      j = s.j;
      toff = add32 t.offset s.tsgoff;
      count = copy;
    } in
    let more : add32 s.copied copy ≡ total (s.copies ++ (c ∷ [])) % 2 ^ 32 =
      omega (arith, h, total-append s.copies c) in
    elim (Bool-cases (flen == 0)) [
      | inl done ↦ rw done h
      | inr go ↦ elim (Bool-cases (add32 s.tsgoff copy == t.len)) [
        | inl full ↦ rw (go, full) (copy_buffer-Counted pidx (flen - copy) ts _ more)
        | inr part ↦ rw (go, part) more
      ]
    ]

read_from-Counted :
    (f : Flq) (n i pidx : ℕ) (q : Descq) (s : ReadLoop)
    → Counted s
    → Counted (read_from f n i pidx q s).3
unfolding read_from
read_from-Counted f zero i pidx q s h = h
read_from-Counted f (suc n) i pidx q s h = elim (uncons s.tsg) [
  | inl nothing ↦ rw (read_from-nil f (suc n) i pidx q s nothing) h
  | inr (t, ts, more) ↦ elim (Option-cases (get_elem? f.sdesc pidx)) [
    | inl gone ↦ rw (read_from-gone f (suc n) i pidx q s gone) h
    | inr (g, held) ↦
        let s0 : ReadLoop = record s { foff = 0 } in
        let s1 = copy_buffer pidx g.len (t ∷ ts) s0 in
        let k : Counted s1 = copy_buffer-Counted pidx g.len (t ∷ ts) s0 h in
        elim (read_from-go f n i pidx q s more held) [
          | inl stop ↦ rw stop k
          | inr go ↦ rw go (
              read_from-Counted f n (i + 1) (ring_idx_incr pidx 1 q.conf.rngsz)
                (note_end (get_elem? f.sdesc_info pidx) q) (record s1 { foff = 0 }) k)
        ]
  ]
]

-- The request's count of missing bytes goes down by what is copied.
read_left :
    (buf_size : ℕ) (f : Flq) (q : Descq) (cb : Request)
    → let (rv, f', q', cb', copies) = descq_st_c2h_read buf_size true true f q cb in
      cb.left < 2 ^ 32 → cb'.left ≡ sub32 cb.left (total copies % 2 ^ 32)
unfolding descq_st_c2h_read total
read_left buf_size f q cb small =
    let n = ring_idx_delta q.pidx f.pidx_pend f.size in
    let counted =
      read_from-Counted f n 0 f.pidx_pend q
        (record {
          foff = 0;
          tsg = drop cb.sg_idx cb.sgl;
          tsgoff = cb.sg_offset;
          j = cb.sg_idx;
          copied = 0;
          copies = [];
        })
        refl in
    elim (Bool-cases (n == 0)) [
      | inl idle ↦ rw idle (omega arith)
      | inr busy ↦ elim (Bool-cases (not (cb.sg_idx == 0) && is_nil (drop cb.sg_idx cb.sgl))) [
        | inl wrong ↦ rw (busy, wrong) (omega arith)
        | inr good ↦ rw (busy, good) (omega (arith, counted))
      ]
    ]

-- `qdma_queue_packet_read` returns the number of bytes that it copied added to the number that the
-- caller asked for: where nothing has been received it reports a full read.
pub packet_read_overcounts :
    (buf_size : ℕ) (f : Flq) (q : Descq) (r : Request)
    → let (rv, f', q', cb', copies) = qdma_queue_packet_read buf_size f q r in
      q.conf.st ≡ true → q.conf.c2h ≡ true → rv ≡ ok ((r.count + total copies) % 2 ^ 32)
unfolding qdma_queue_packet_read fresh_cb
packet_read_overcounts buf_size f q r st c2h =
    let left = read_left buf_size f q (fresh_cb r) (omega arith) in
    let streaming : (not q.conf.st || not q.conf.c2h) ≡ false = cc in
    rw streaming (ap (λ (n : ℕ). ok n) (omega (arith, left)))

-- What a read leaves alone of the queue.
abbrev Kept : Descq → Descq → Type 0
Kept q q' = (q'.pend_list ≡ q.pend_list) × (q'.online ≡ q.online)

refill_from-Kept :
    (buf_size : ℕ) (recycle : Bool) (alloc : ℕ → Result ℕ) (n i idx : ℕ) (f : Flq) (q : Descq)
    → Kept q (refill_from buf_size recycle alloc n i idx f q).2
unfolding refill_from
refill_from-Kept buf_size recycle alloc zero i idx f q = (refl, refl)
refill_from-Kept buf_size recycle alloc (suc n) i idx f q =
    let here : ℕ = if idx == f.size then 0 else idx in
    let f1 = (renew buf_size recycle (alloc i) here f).1 in
    let f2 : Flq = record f1 { sdesc_info = modify here clear_flags f1.sdesc_info } in
    let ih =
      refill_from-Kept buf_size recycle alloc n (i + 1) (here + 1) f2
        (record q { avail = add32 q.avail 1 }) in
    elim (Result-cases (renew buf_size recycle (alloc i) here f).0) [
      | inl (v, h) ↦ rw (h, refill_from) ih
      | inr (e, h) ↦ rw (h, refill_from) (refl, refl)
    ]

note_end-Kept : (info : Option SdescInfo) (q : Descq) → Kept q (note_end info q)
unfolding note_end
note_end-Kept none q = (refl, refl)
note_end-Kept (some info) q = ground arith

read_from-Kept :
    (f : Flq) (n i pidx : ℕ) (q : Descq) (s : ReadLoop) → Kept q (read_from f n i pidx q s).2
read_from-Kept f zero i pidx q s = rw (read_from-zero f i pidx q s) (refl, refl)
read_from-Kept f (suc n) i pidx q s = elim (uncons s.tsg) [
  | inl nothing ↦ rw (read_from-nil f (suc n) i pidx q s nothing) (refl, refl)
  | inr (t, ts, more) ↦ elim (Option-cases (get_elem? f.sdesc pidx)) [
    | inl gone ↦ rw (read_from-gone f (suc n) i pidx q s gone) (refl, refl)
    | inr (g, held) ↦
        let s1 = copy_buffer pidx g.len (t ∷ ts) (record s { foff = 0 }) in
        let info = get_elem? f.sdesc_info pidx in
        let (p, o) = note_end-Kept info q in
        let (p', o') =
          read_from-Kept f n (i + 1) (ring_idx_incr pidx 1 q.conf.rngsz) (note_end info q)
            (record s1 { foff = 0 }) in
        elim (read_from-go f n i pidx q s more held) [
          | inl stop ↦ rw stop (refl, refl)
          | inr go ↦ rw go (p' ∙ p, o' ∙ o)
        ]
  ]
]

read-Kept :
    (buf_size : ℕ) (f : Flq) (q : Descq) (cb : Request)
    → Kept q (descq_st_c2h_read buf_size true true f q cb).2
unfolding descq_st_c2h_read qdma_flq_refill emit descq_c2h_pidx_update descq_wrb_cidx_update
read-Kept buf_size f q cb =
    let n = ring_idx_delta q.pidx f.pidx_pend f.size in
    let s : ReadLoop = record {
      foff = 0;
      tsg = drop cb.sg_idx cb.sgl;
      tsgoff = cb.sg_offset;
      j = cb.sg_idx;
      copied = 0;
      copies = [];
    } in
    let (i, pidx, q1, s1) = read_from f n 0 f.pidx_pend q s in
    let (p, o) = read_from-Kept f n 0 f.pidx_pend q s in
    let (p', o') = refill_from-Kept buf_size true (λ _. ok 0) i 0 f.pidx_pend f q1 in
    elim (Bool-cases (n == 0)) [
      | inl idle ↦ rw idle (refl, refl)
      | inr busy ↦ elim (Bool-cases (not (cb.sg_idx == 0) && is_nil (drop cb.sg_idx cb.sgl))) [
        | inl wrong ↦ rw (busy, wrong) (refl, refl)
        | inr good ↦ elim (Bool-cases (i == 0)) [
          | inl none_done ↦ rw (busy, good, none_done) (p, o)
          | inr some_done ↦ rw (busy, good, some_done) (p' ∙ p, o' ∙ o)
        ]
      ]
    ]

read_async :
    (buf_size : ℕ) (f : Flq) (q : Descq) (cb : Request)
    → (descq_st_c2h_read buf_size true true f q cb).3.has_fp_done ≡ cb.has_fp_done
unfolding descq_st_c2h_read
read_async buf_size f q cb =
    let n = ring_idx_delta q.pidx f.pidx_pend f.size in
    elim (Bool-cases (n == 0)) [
      | inl idle ↦ rw idle refl
      | inr busy ↦ elim (Bool-cases (not (cb.sg_idx == 0) && is_nil (drop cb.sg_idx cb.sgl))) [
        | inl wrong ↦ rw (busy, wrong) refl
        | inr good ↦ rw (busy, good) refl
      ]
    ]

-- Either filled, with the call reporting the size, or the last of the pending list.
abbrev pub HandedOver : ℕ → List Request → Result ℕ × Flq × Descq × Request × List Copy → Type 0
HandedOver count pend (rv, f, q, cb, copies) =
    ((cb.left + total copies) % 2 ^ 32 ≡ count)
    × (((cb.left ≡ 0) × (rv ≡ ok count) × (q.pend_list ≡ pend))
        ⊎ ((0 < cb.left) × (rv ≡ ok 0) × (q.pend_list ≡ pend ++ (cb ∷ []))))

module _ (wait : Descq → Request → Descq × Request) where
  after_read-HandedOver :
      (count : ℕ) (pend : List Request) (rv : Result ℕ) (f : Flq) (q : Descq) (cb : Request)
      (copies : List Copy)
      → q.online ≡ true
      → cb.has_fp_done ≡ true
      → q.pend_list ≡ pend
      → (cb.left + total copies) % 2 ^ 32 ≡ count
      → HandedOver count pend (after_read wait count (rv, f, q, cb, copies))
  unfolding after_read leave_rest descq_wrb_cidx_update emit
  after_read-HandedOver count pend rv f q cb copies on async same sum =
      elim (Bool-cases (cb.left == 0)) [
        | inl all ↦ rw all (sum, inl (ground arith, refl, same))
        | inr missing ↦
            let here : not q.online ≡ false = cc in
            rw (missing, here, async) (sum, inr (ground arith, refl, ground (arith, same)))
      ]

  -- A request that need not wait, on a queue that is online: what is missing and what was copied
  -- make its size (in 32 bits). Either the read fills it and the call reports its size, or it is the last of the
  -- pending list and the call reports nothing yet.
  pub submit_st_c2h-HandedOver :
      (buf_size : ℕ) (f : Flq) (q : Descq) (r : Request)
      → q.online ≡ true
      → r.has_fp_done ≡ true
      → r.count < 2 ^ 32
      → HandedOver r.count q.pend_list (qdma_request_submit_st_c2h wait buf_size f q r)
  unfolding qdma_request_submit_st_c2h fresh_cb
  submit_st_c2h-HandedOver buf_size f q r on async small =
      let cb : Request = record (fresh_cb r) { left = r.count } in
      let (rv, f1, q1, cb1, copies) = descq_st_c2h_read buf_size true true f q cb in
      let (p, o) = read-Kept buf_size f q cb in
      let left = read_left buf_size f q cb small in
      after_read-HandedOver r.count q.pend_list rv f1 q1 cb1 copies (o ∙ on)
        (read_async buf_size f q cb ∙ async) p (omega (arith, left))
