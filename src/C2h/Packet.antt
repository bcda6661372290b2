-- ===== src/C2h/Packet.antt =====
-- Taking packets from the completion ring (libqdma/qdma_st_c2h.c): `rcv_pkt`, `rcv_udd_only`,
-- `qdma_c2h_packets_proc_dflt` and `descq_process_completion_st_c2h`. What the client's handler returns
-- for a packet of `len` bytes in `fl_nr` buffers from `pidx` on is an argument, and so are the words of
-- the completion ring. The copies that the default processing makes are left out here.
pub mod Buffers
use qdmav.Prelude.{
  ℕ, zero, suc, ◌+◌, ◌-◌, ◌/◌, ◌%◌, ◌^◌, Bool, true, false, not, ◌&&◌, ◌||◌, List, [], ◌∷◌, add32,
  sub32, ltb, ◌==◌, if◌then◌else◌, modify,
}
use qdmav.Prelude.Errors.{Error, Result, ok, err, is_ok}
use qdmav.Ring.{ring_idx_delta, ring_idx_incr, ring_idx_decr}
use qdmav.Request.{SwSg, Request}
use qdmav.Descq.{Descq, update}
use qdmav.Descq.Update.{descq_c2h_pidx_update, descq_wrb_cidx_update}
use qdmav.Writeback.{qdma_sgt_req_done, is_empty}
use qdmav.C2h.{CmplInfo, wrb_next, is_new_cmpl_entry, parse_cmpl_entry}
use qdmav.C2h.Flq.{SdescInfo, Flq, Copy, qdma_flq_refill, descq_st_c2h_read}

-- The buffers that a packet takes: one also where it is empty.
unfoldable pub buffers_of : ℕ → ℕ → ℕ
buffers_of pg_shift len = if len == 0 then 1 else add32 len (2 ^ pg_shift - 1) / 2 ^ pg_shift

unfoldable pub set_last_len : ℕ → ℕ → Flq → Flq
set_last_len last len f =
    let last_len = len % 2 ^ f.pg_shift in
    let cut = record f { sdesc = modify last (λ s. record s { len = last_len }) f.sdesc } in
    if len == 0
    then record f { sdesc = modify last (λ s. record s { len = 0 }) f.sdesc }
    else (if last_len == 0 then f else cut)

-- `fl_nr` entries from `pidx` on are valid, and belong to the completion entry before `cidx_next`.
unfoldable pub mark_valid : ℕ → ℕ → ℕ → ℕ → List SdescInfo → List SdescInfo
mark_valid size cidx_next zero pidx l = l
mark_valid size cidx_next (suc n) pidx l =
    mark_valid size cidx_next n (if pidx + 1 == size then 0 else pidx + 1)
      (modify pidx (λ s. record s { valid = true; cidx = cidx_next }) l)

unfoldable pub keep_packet : ℕ → ℕ → ℕ → ℕ → Descq → Flq → Flq
keep_packet pidx last fl_nr len q f =
    let cidx_next = ring_idx_incr q.cidx_wrb 1 q.conf.rngsz_wrb in
    record f {
      sdesc_info =
          modify last (λ s. record s { eop = true })
            (modify pidx (λ s. record s { sop = true })
              (mark_valid f.size cidx_next fl_nr pidx f.sdesc_info));
      pkt_dlen = add32 f.pkt_dlen len;
      udd_cnt = if q.conf.cmpl_udd_en then add32 f.udd_cnt 1 else f.udd_cnt;
    }

-- What follows the client's handler, by its result.
unfoldable pub handled : Result ℕ → ℕ → ℕ → ℕ → Descq → Flq → Result ℕ × ℕ × Descq × Flq
handled (err e) pidx next last q f = (err e, pidx, q, f)
handled (ok n) pidx next last q f =
    (ok 0, next, record q { cidx_wrb_pend = q.cidx_wrb }, record f { pidx_pend = last })

module _ (handler : ℕ → ℕ → ℕ → Result ℕ) where
  -- The second value is `cmpl->pidx`.
  unfoldable pub rcv_pkt : ℕ → ℕ → Descq → Flq → Result ℕ × ℕ × Descq × Flq
  rcv_pkt pidx len q f =
      let fl_nr = buffers_of f.pg_shift len in
      let last = ring_idx_incr pidx (fl_nr - 1) q.conf.rngsz in
      let q1 = record q { avail = sub32 q.avail fl_nr } in
      let f1 = set_last_len last len f in
      let next = ring_idx_incr last 1 q.conf.rngsz in
      if q.conf.has_c2h_packet
      then handled (handler len fl_nr pidx) pidx next last q1 f1
      else (ok 0, next, q1, keep_packet pidx last fl_nr len q1 f1)

  unfoldable pub rcv_udd_only : Descq → Flq → Result ℕ × Flq
  rcv_udd_only q f =
      if q.conf.has_c2h_packet
      then (handler 0 0 0, f)
      else (ok 0, record f { udd_cnt = add32 f.udd_cnt 1 })

  -- What one entry brings: the result, the index after it, the queue and the buffers.
  unfoldable pub receive : CmplInfo → ℕ → Descq → Flq → Result ℕ × ℕ × Descq × Flq
  receive cmpl pidx q f =
      let (rv, f1) = rcv_udd_only q f in
      if cmpl.desc_used
      then rcv_pkt pidx cmpl.len q f
      else (if q.conf.cmpl_udd_en then (rv, pidx, q, f1) else (ok 0, pidx, q, f))

  -- The loop, with `n` of the budget left and `cnt` entries done. A bad entry halts the queue: the
  -- function returns at once.
  unfoldable pub process_from : (ℕ → ℕ) → ℕ → ℕ → ℕ → Descq → Flq → Result ℕ × ℕ × Descq × Flq
  process_from entry zero cnt pidx q f = (ok cnt, pidx, q, f)
  process_from entry (suc n) cnt pidx q f =
      let (rv, q1, cmpl) = parse_cmpl_entry q (entry q.cidx_wrb) in
      let (rv2, pidx2, q2, f2) = receive cmpl pidx q1 f in
      let rest = process_from entry n (cnt + 1) pidx2 (wrb_next q2) f2 in
      elim rv [
        | err e ↦ (err e, pidx, q1, f)
        | ok _ ↦
            if not (is_new_cmpl_entry q1 cmpl)
            then (ok cnt, pidx, q1, f)
            else elim rv2 [ err e ↦ (ok cnt, pidx, q2, f2) | ok _ ↦ rest ]
      ]

-- The default processing, over the requests as they were at its start.
unfoldable pub packets_from : List Request → Descq → Flq → Descq × Flq
packets_from [] q f = (q, f)
packets_from (cb ∷ cbs) q f =
    let (rv, f1, q1, cb', copies) = descq_st_c2h_read 0 false false f q cb in
    let q2 = record q1 { pend_list = update cb' q1.pend_list } in
    let q3 = if is_ok rv then q2 else (qdma_sgt_req_done q2 cb' true).0 in
    let rest = packets_from cbs (qdma_sgt_req_done q3 cb' false).0 f1 in
    if cb.left == 0
    then ((qdma_sgt_req_done q cb false).0, f)
    else (if cb'.left == 0 then rest else (q3, f1))

unfoldable pub qdma_c2h_packets_proc_dflt : Descq → Flq → Descq × Flq
qdma_c2h_packets_proc_dflt q f = packets_from q.pend_list q f

-- `alloc` is for a queue with a handler, whose buffers are replaced.
unfoldable pub after_packets : ℕ → (ℕ → Result ℕ) → ℕ → ℕ → ℕ → Descq → Flq → Descq × Flq
after_packets buf_size alloc pidx_pend pidx_wrb pidx q f =
    let q1 = record q { pidx_wrb = pidx_wrb; pidx = pidx } in
    let (q2, f2) =
      if◌then◌else◌ {A = Descq × Flq} q.conf.has_c2h_packet (q1, f)
        (qdma_c2h_packets_proc_dflt q1 f) in
    let cnt = ring_idx_delta f2.pidx_pend pidx_pend f2.size in
    let (n, f3, q3) =
      qdma_flq_refill buf_size pidx_pend cnt (not q.conf.has_c2h_packet) alloc f2 q2 in
    let (q4, f4) =
      if◌then◌else◌ {A = Descq × Flq} (f2.pidx_pend == pidx_pend) (q2, f2)
        (descq_c2h_pidx_update q3 (ring_idx_decr f3.pidx_pend 1 f3.size), f3) in
    (descq_wrb_cidx_update q4 q4.cidx_wrb_pend, f4)

-- `wb_pidx` is the index that the device wrote.
unfoldable pub descq_process_completion_st_c2h :
    (ℕ → ℕ → ℕ → Result ℕ)
    → (ℕ → ℕ)
    → ℕ
    → (ℕ → Result ℕ)
    → ℕ
    → ℕ
    → Descq
    → Flq
    → Result ℕ × Descq × Flq
descq_process_completion_st_c2h handler entry buf_size alloc wb_pidx budget q f =
    let pend = ring_idx_delta wb_pidx q.cidx_wrb q.conf.rngsz_wrb in
    let n = if budget == 0 || ltb pend budget then pend else budget in
    let (rv, pidx, q1, f1) = process_from handler entry n 0 q.pidx q f in
    let (q2, f2) = after_packets buf_size alloc f.pidx_pend wb_pidx pidx q1 f1 in
    let idle = not q.conf.has_c2h_packet && is_empty q.pend_list && is_empty q.work_list in
    if q.failed || idle || pend == 0 then (ok 0, q, f) else elim rv [
      | err e ↦ (err e, q1, f1)
      | ok cnt ↦ if cnt == 0 then (ok 0, q1, f1) else (ok 0, q2, f2)
    ]
