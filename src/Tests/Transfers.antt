-- ===== src/Tests/Transfers.antt =====
-- Requests that are programmed and completed.
use qdmav.Prelude.{◌≤◌, ◌<◌, ◌≡◌, ◌≢◌, refl, ap, false, [], ◌∷◌, some, arith, take, drop, length}
use qdmav.Prelude.Errors.{ok}
use qdmav.Ring.{ring_idx_delta}
use qdmav.Request.{Request}
use qdmav.Request.Sgl.{sgl_find_offset, find_offset_from}
use qdmav.Descq.{Descq, list_del}
use qdmav.Mm.{mm_sgl, mm_begin, mm_run, mm_fill, mm_entry, mm_put, mm_finish, descq_mm_proc_request}
use qdmav.Mm.Chunks.{chunks, cut, put_all, mm_sgl-eq-put_all}
use qdmav.Mm.Accounting.{IsRing, writes, start}
use qdmav.Mm.Placed.{sent_ring}
use qdmav.Mm.Call.{proc_request_completes, resume_overshoots}
use qdmav.Writeback.{req_update_pend, descq_mm_n_h2c_wb}
use qdmav.Writeback.Laws.{Settled, req_update_pend-Settled}
use qdmav.Writeback.Device.{IsDone, WroteBack, descq_mm_n_h2c_wb-WroteBack}
use qdmav.Tests.{request, queue, ring}

queue-IsRing : IsRing queue
unfolding ring_idx_delta
queue-IsRing = omega arith

mm_sgl-eq-put_all_example :
    mm_sgl false 4 3 request.sgl 0 (start queue ring request)
    ≡ put_all false 4 (take 3 (chunks request.sgl)) (start queue ring request)
mm_sgl-eq-put_all_example = mm_sgl-eq-put_all false 4 3 request.sgl (start queue ring request)

begin : mm_begin request ≡ some (0, 0)
unfolding mm_begin
begin = refl

chunks-request : chunks request.sgl ≡ (0x8000, 100) ∷ (0x9000, 200) ∷ []
unfolding chunks cut
chunks-request = refl

some_chunk : writes queue request 0 ≢ []
unfolding chunks cut
some_chunk h = absurd (omega (arith, ap length h))

few : length (chunks request.sgl) ≤ 3
unfolding chunks cut
few = omega arith

proc_request_completes_example :
    let (rv, q, r, cb) = descq_mm_proc_request queue ring request in
    (rv ≡ ok 0)
    × (r ≡ sent_ring queue ring request)
    × (cb.offset ≡ 300)
    × (q.pend_list ≡ cb ∷ [])
    × (q.work_list ≡ [])
unfolding list_del
proc_request_completes_example =
    proc_request_completes queue ring request queue-IsRing (omega arith) (omega arith) refl refl
      (omega arith) few

-- Half of the second entry is done.
abbrev resumed : Request
resumed = record request { offset = 150; desc_nr = 2 }

few_more : length (chunks (drop 1 request.sgl)) ≤ 3
unfolding chunks cut
few_more = omega arith

resume_overshoots_example :
    let (rv, q, r, cb) = descq_mm_proc_request queue ring resumed in (rv ≡ ok 0) × (300 < cb.offset)
unfolding sgl_find_offset find_offset_from
resume_overshoots_example =
    resume_overshoots queue ring resumed {i = 1} {left = 150} queue-IsRing (omega arith)
      (omega arith) (omega arith) refl refl (omega arith) few_more

-- What the call returns: the 200 bytes of the second entry again.
resumed_run : (descq_mm_proc_request queue ring resumed).3.offset ≡ 350
unfolding descq_mm_proc_request mm_begin sgl_find_offset find_offset_from mm_run mm_sgl mm_fill
    mm_entry mm_put mm_finish
resumed_run = refl

-- Three descriptors of one request, two of which the device has done.
abbrev pending : Request
pending = record request { desc_nr = 3; offset = 300 }

abbrev busy : Descq
busy = record queue { avail = 0; pidx = 2; pend_list = pending ∷ []; work_list = [] }

req_update_pend-Settled_example :
    Settled (pending ∷ []) 2 (req_update_pend busy 2).credit busy (req_update_pend busy 2)
req_update_pend-Settled_example = req_update_pend-Settled busy 2 (omega arith)

busy-IsRing : IsRing busy
unfolding ring_idx_delta
busy-IsRing = omega arith

busy-IsDone : IsDone busy 1
unfolding ring_idx_delta
busy-IsDone = omega arith

descq_mm_n_h2c_wb-WroteBack_example : WroteBack busy 1 (descq_mm_n_h2c_wb busy 1)
descq_mm_n_h2c_wb-WroteBack_example =
    descq_mm_n_h2c_wb-WroteBack busy 1 busy-IsRing busy-IsDone (omega arith)
