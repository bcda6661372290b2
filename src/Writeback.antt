-- ===== src/Writeback.antt =====
-- Completion of MM and ST H2C requests from the device's writeback: `qdma_sgt_req_done`,
-- `descq_wb_credit`, `req_update_pend` and `descq_mm_n_h2c_wb` of libqdma/qdma_descq.c. The index
-- that the device wrote, `wb->cidx`, is an argument.
pub mod Laws
pub mod Device
use qdmav.Prelude.{
  ℕ, ◌+◌, ◌-◌, Bool, true, false, not, ◌&&◌, ◌||◌, List, [], ◌∷◌, add32, sub32, ltb, leb, ◌==◌,
  if◌then◌else◌,
}
use qdmav.Request.{Request}
use qdmav.Descq.{Descq, emit, list_del, update}
use qdmav.Descq.Events.{callback, wake_waiter, unmap_sgl, wake_work_thread}
use qdmav.Descq.Update.{descq_h2c_pidx_update, descq_c2h_pidx_update}

-- The second value is the control block as it is left.
unfoldable pub qdma_sgt_req_done : Descq → Request → Bool → Descq × Request
qdma_sgt_req_done q cb error =
    let q1 = record q {
      work_list = list_del cb.id q.work_list;
      pend_list = list_del cb.id q.pend_list;
    } in
    let q2 = if cb.unmap_needed then emit (unmap_sgl cb.id) q1 else q1 in
    let error' = if cb.has_fp_done then error || not (cb.offset == cb.count) else error in
    let cb' = record cb { unmap_needed = false; failed = error'; done = true } in
    (emit (if cb.has_fp_done then callback cb.id cb.offset error' else wake_waiter cb.id) q2, cb')

-- The number of descriptors that the device has done, and the queue.
unfoldable pub descq_wb_credit : Descq → ℕ → ℕ × Descq
descq_wb_credit q cidx =
    let n = if ltb cidx q.cidx then add32 (sub32 q.conf.rngsz q.cidx) cidx else cidx - q.cidx in
    if cidx == q.cidx then (0, q) else (n, record q { cidx = cidx; avail = add32 q.avail n })

-- The loop over `pend_list`, with the credit that is left.
unfoldable pub req_update_from : List Request → ℕ → Descq → ℕ × Descq
req_update_from [] credit q = (credit, q)
req_update_from (cb ∷ cbs) credit q =
    let q1 = (qdma_sgt_req_done q cb false).0 in
    let rest = req_update_from cbs (credit - cb.desc_nr) q1 in
    let q2 = record q {
      pend_list = update (record cb { desc_nr = cb.desc_nr - credit }) q.pend_list;
    } in
    if leb cb.desc_nr credit then (if credit - cb.desc_nr == 0 then (0, q1) else rest) else (0, q2)

unfoldable pub req_update_pend : Descq → ℕ → Descq
req_update_pend q n =
    let (credit, q') = req_update_from q.pend_list (add32 n q.credit) q in
    record q' { credit = credit }

unfoldable pub is_empty : List Request → Bool
is_empty [] = true
is_empty (r ∷ rs) = false

-- The request thread may go on with a request that the ring had no room for.
unfoldable pub wake_if_work : Descq → Descq
wake_if_work q =
    if not (is_empty q.work_list) && not (q.avail == 0) then emit wake_work_thread q else q

unfoldable pub descq_mm_n_h2c_wb : Descq → ℕ → Descq
descq_mm_n_h2c_wb q cidx_hw =
    let (cr, q1) = descq_wb_credit q cidx_hw in
    let q2 = wake_if_work q1 in
    let q3 = req_update_pend q2 cr in
    let q4 =
      if q3.conf.c2h then descq_c2h_pidx_update q3 q3.pidx else descq_h2c_pidx_update q3 q3.pidx in
    if q.pidx == q.cidx then q else (if cidx_hw == q.cidx then q else q4)
