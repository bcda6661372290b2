-- ===== src/Tests/Lifecycles.antt =====
-- A queue that is configured on a device with small rings.
use qdmav.Prelude.{◌≡◌, refl, arith, [], ◌∷◌, ◌++◌}
use qdmav.Prelude.Errors.{ok}
use qdmav.Lifecycle.{GlobalCsrConf, qdma_descq_config_complete, enqueue}
use qdmav.Lifecycle.Ready.{queued, first_request}
use qdmav.Mm.{descq_mm_proc_request}
use qdmav.Mm.Chunks.{chunks, cut}
use qdmav.Tests.{queue, request, ring}

abbrev pub csr : GlobalCsrConf
csr = record {
  ring_sz = 3 ∷ 3 ∷ 3 ∷ 9 ∷ [];
  wb_acc = 1;
  c2h_timer_cnt = [];
  c2h_cnt_th = [];
  c2h_buf_sz = 4096 ∷ 4096 ∷ [];
}

first_request_example :
    let q1 = (qdma_descq_config_complete (ok csr) queue).1 in
    let (rv, q2) = enqueue (ok 0) q1 request in
    let (rv', q3, ring', cb) = descq_mm_proc_request q2 ring (queued request) in
    (rv ≡ ok 0) × (rv' ≡ ok 0) × (cb.offset ≡ 300) × (q3.pend_list ≡ q1.pend_list ++ (cb ∷ []))
unfolding qdma_descq_config_complete chunks cut
first_request_example =
    first_request csr queue ring request (omega arith) (omega arith) refl refl
      ((omega arith, omega arith), ((omega arith, omega arith), tt)) (omega arith) refl
      (omega arith) (omega arith)
