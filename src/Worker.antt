-- ===== src/Worker.antt =====
-- The work of the request and completion threads on one queue: `qdma_thread_wrk_pend`,
-- `qdma_thread_wrk_proc`, `qdma_thread_wb_pend` and `qdma_thread_wb_proc` of libqdma/qdma_thread.c with
-- `qdma_descq_proc_sgt_request` and `qdma_descq_service_wb` of libqdma/qdma_descq.c. The walk over the
-- work list goes over the list as it was at its start: only the request at hand is taken out. The
-- streaming C2H side of `qdma_descq_service_wb` is an argument.
pub mod Lists
pub mod Balance
pub mod Written
pub mod Drained
pub mod System
use qdmav.Prelude.{
  ℕ, ◌+◌, Bool, true, false, not, ◌&&◌, ◌||◌, List, [], ◌∷◌, ltb, ◌==◌, if◌then◌else◌,
}
use qdmav.Prelude.Errors.{Error, failed, Result, ok, err}
use qdmav.Request.{Request}
use qdmav.Descq.{Descq}
use qdmav.Mm.{MmDesc, descq_mm_proc_request}
use qdmav.StH2c.{H2cDesc, descq_proc_st_h2c_request}
use qdmav.Writeback.{qdma_sgt_req_done, descq_mm_n_h2c_wb, is_empty}

-- The ring's memory, as the queue's mode reads it.
pub record RingMemory : Type 0 where
  pub mm : List MmDesc
  pub st : List H2cDesc

-- `if (rv < 0) qdma_sgt_req_done(descq, cb, rv)`
unfoldable pub after_call : Result ℕ → Descq → Request → Descq
after_call (ok n) q cb = q
after_call (err e) q cb = (qdma_sgt_req_done q cb true).0

module _ (page_size : ℕ) where
  unfoldable pub qdma_descq_proc_sgt_request :
      Descq → RingMemory → Request → Result ℕ × Descq × RingMemory × Request
  qdma_descq_proc_sgt_request q mem cb =
      let (rv1, q1, mm, cb1) = descq_mm_proc_request q mem.mm cb in
      let (rv2, q2, st, cb2) = descq_proc_st_h2c_request page_size q mem.st cb in
      if not q.conf.st
      then (rv1, q1, record mem { mm = mm }, cb1)
      else (if q.conf.st && not q.conf.c2h
          then (rv2, q2, record mem { st = st }, cb2)
          else (err failed, q, mem, cb))

  unfoldable pub wrk_from : List Request → Descq → RingMemory → Descq × RingMemory
  wrk_from [] q mem = (q, mem)
  wrk_from (cb ∷ cbs) q mem =
      let (rv, q1, mem1, cb1) = qdma_descq_proc_sgt_request q mem cb in
      let q2 = after_call rv q1 cb1 in
      let rest = wrk_from cbs q2 mem1 in if q2.avail == 0 then (q2, mem1) else rest

  unfoldable pub qdma_thread_wrk_proc : Descq → RingMemory → Descq × RingMemory
  qdma_thread_wrk_proc q mem = wrk_from q.work_list q mem

unfoldable pub wrk_pend_from : Bool → List Request → ℕ
wrk_pend_from avail [] = 0
wrk_pend_from avail (cb ∷ cbs) =
    let rest = wrk_pend_from avail cbs in
    if (cb.count == 0 || ltb cb.offset cb.count) && avail then rest + 1 else rest

unfoldable pub qdma_thread_wrk_pend : Descq → ℕ
qdma_thread_wrk_pend q = wrk_pend_from (not (q.avail == 0)) q.work_list

unfoldable pub qdma_thread_wb_pend : Descq → Bool
qdma_thread_wb_pend q = not (is_empty q.pend_list)

-- `cidx` is the index that the device wrote.
unfoldable pub qdma_descq_service_wb : (Descq → Descq) → Descq → ℕ → Descq
qdma_descq_service_wb st_c2h q cidx =
    if q.conf.st && q.conf.c2h then st_c2h q else descq_mm_n_h2c_wb q cidx
