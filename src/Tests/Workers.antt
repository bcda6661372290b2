-- ===== src/Tests/Workers.antt =====
-- Passes of the threads over a queue, and streaming requests.
use qdmav.Prelude.{◌≡◌, ◌≢◌, ◌<◌, ◌^◌, inl, refl, arith, true, [], some, length, replicate}
use qdmav.Prelude.Errors.{ok}
use qdmav.Ring.{ring_idx_delta}
use qdmav.Descq.{Descq, emit}
use qdmav.Mm.{mm_begin}
use qdmav.Mm.Accounting.{IsRing}
use qdmav.Mm.Call.{Advanced}
use qdmav.Lifecycle.{enqueue}
use qdmav.StH2c.{H2cDesc, StLoop, descq_proc_st_h2c_request}
use qdmav.StH2c.Chunks.{st_bytes}
use qdmav.StH2c.Placed.{st_sent_ring}
use qdmav.StH2c.Call.{st_writes, st_request_advances}
use qdmav.Worker.{RingMemory, qdma_thread_wrk_proc, qdma_descq_service_wb}
use qdmav.Worker.Written.{wrk_proc-IsBalanced}
use qdmav.Worker.System.{submits, works, Reach, next, IsServed, reach-IsServed, reach-drains}
use qdmav.Tests.{conf, queue, request, ring}

abbrev blank_st : H2cDesc
blank_st = record { cdh_flags = 0; pld_len = 0; len = 0; flags = 0; src_addr = 0 }

abbrev memory : RingMemory
memory = record { mm = ring; st = replicate 4 blank_st }

abbrev streaming : Descq
streaming = record queue { conf = record conf { st = true } }

streaming-IsRing : IsRing streaming
unfolding ring_idx_delta
streaming-IsRing = omega arith

begins : mm_begin request ≡ some (0, 0)
unfolding mm_begin
begins = refl

st_request_advances_example :
    let (rv, q', ring', cb') = descq_proc_st_h2c_request 4096 streaming memory.st request in
    let w = st_writes 4096 (omega arith) streaming request 0 in
    (rv ≡ ok 0)
    × (ring' ≡ st_sent_ring streaming memory.st request w)
    × Advanced streaming request (length w) (st_bytes w) q' cb'
st_request_advances_example =
    st_request_advances 4096 (omega arith) streaming memory.st request streaming-IsRing
      ((omega arith, omega arith), ((omega arith, omega arith), tt)) (omega arith)
      (λ h. absurd (omega (arith, h))) begins

abbrev at_start : StLoop
at_start = record { ring = memory.st; queue = streaming; data_cnt = 0; desc_cnt = 0 }

-- An empty queue, a request for it, and a pass of the request thread.
abbrev empty : Descq
empty = record queue { work_list = [] }

empty-IsServed : IsServed (empty, memory)
unfolding ring_idx_delta
empty-IsServed = (
  record {
    ring = omega arith;
    owed = omega arith;
    given = tt;
    busy = inl refl;
    fine = tt;
    distinct = tt;
  },
  refl,
)

abbrev submitted : Descq
submitted = (enqueue (ok 0) empty request).1

request_some : request.sgl ≢ []
request_some h = cc

accepted : Reach 4096 (empty, memory) (submitted, memory)
accepted = next Reach.start (
    submits (ok 0) request
      (((omega arith, omega arith), ((omega arith, omega arith), tt)), omega arith, request_some)
      tt)

no_credit : submitted.credit < 2 ^ 31
unfolding enqueue emit
no_credit = omega arith

passed : Reach 4096 (empty, memory) (qdma_thread_wrk_proc 4096 submitted memory)
passed = next accepted (works no_credit)

still_no_credit : (qdma_thread_wrk_proc 4096 submitted memory).0.credit < 2 ^ 31
still_no_credit =
    let (b, m) = reach-IsServed 4096 (omega arith) accepted empty-IsServed in
    let (b', c, k) = wrk_proc-IsBalanced 4096 (omega arith) submitted memory m no_credit b in
    omega (arith, k, no_credit)

reach-IsServed_example : IsServed (qdma_thread_wrk_proc 4096 submitted memory)
reach-IsServed_example = reach-IsServed 4096 (omega arith) passed empty-IsServed

reach-drains_example :
    let q = (qdma_thread_wrk_proc 4096 submitted memory).0 in
    (qdma_descq_service_wb (λ q. q) q q.pidx).pend_list ≡ []
reach-drains_example =
    reach-drains 4096 (omega arith) (empty, memory) (qdma_thread_wrk_proc 4096 submitted memory)
      (λ q. q) passed empty-IsServed still_no_credit
