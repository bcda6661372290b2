-- ===== src/Submit.antt =====
-- The client's calls that move data (libqdma/libqdma_export.c, libqdma/qdma_st_c2h.c): mapping a
-- request's list for the device, submitting a request, waiting for it, and reading what a streaming
-- C2H queue has received.
-- The queue has been found. What happens while a client waits is an argument: it gives the queue
-- and the control block as they are at the wake-up or at the timeout.
pub mod Pages
pub mod Streaming
pub mod Waiting
use qdmav.Prelude.{
  ℕ, zero, suc, ◌+◌, ◌-◌, ◌*◌, ◌%◌, ◌^◌, Bool, true, false, not, ◌&&◌, ◌||◌, List, [], ◌∷◌, ◌++◌,
  Option, none, some, add64, u64_mod, sub32, ◌==◌, if◌then◌else◌, is_some, differ,
}
use qdmav.Prelude.Errors.{Error, einval, eio, Result, ok, err}
use qdmav.Request.{SwSg, Request}
use qdmav.Descq.{Descq, emit, list_del}
use qdmav.Descq.Events.{wake_wrb_thread, unmap_sgl}
use qdmav.Descq.Update.{descq_wrb_cidx_update}
use qdmav.Lifecycle.{fresh_cb, enqueue}
use qdmav.C2h.Flq.{Flq, Copy, descq_st_c2h_read}

-- The page's address, or the value that stands for a failure.
pub data Mapping : Type 0 where
  mapped bad : ℕ → Mapping

unfoldable pub map_one : Mapping → SwSg → SwSg
map_one (mapped a) sg = record sg { dma_addr = add64 a sg.offset }
map_one (bad a) sg = record sg { dma_addr = a }

abbrev pub is_bad : Mapping → Bool
is_bad (mapped a) = false
is_bad (bad a) = true

-- The loop's body, with what follows when it goes on.
unfoldable pub map_entry : Mapping → SwSg → List SwSg → Result ℕ × List SwSg → Result ℕ × List SwSg
map_entry m sg sgl (rv, rest) =
    if is_bad m then (err eio, map_one m sg ∷ sgl) else (rv, map_one m sg ∷ rest)

-- `map_page` gives the answer for the entry `i`.
unfoldable pub sgl_map : (ℕ → Mapping) → ℕ → List SwSg → Result ℕ × List SwSg
sgl_map map_page i [] = (ok 0, [])
sgl_map map_page i (sg ∷ sgl) = map_entry (map_page i) sg sgl (sgl_map map_page (i + 1) sgl)

-- The second value lists the pages that are unmapped.
unfoldable pub sgl_unmap : List SwSg → List SwSg × List ℕ
sgl_unmap [] = ([], [])
sgl_unmap (sg ∷ sgl) =
    let (rest, pages) = sgl_unmap sgl in
    let page = (sg.dma_addr + u64_mod - sg.offset) % u64_mod in
    if not sg.has_pg
    then (sg ∷ sgl, [])
    else (if sg.dma_addr == 0
        then (sg ∷ rest, pages)
        else (record sg { dma_addr = 0 } ∷ rest, page ∷ pages))

unfoldable pub qdma_request_wait_for_cmpl : Descq → Request → Result ℕ × Descq
qdma_request_wait_for_cmpl q cb =
    let q1 = record q {
      work_list = list_del cb.id q.work_list;
      pend_list = list_del cb.id q.pend_list;
    } in
    let q2 = if cb.done then q else q1 in
    if not cb.done || cb.failed then (err eio, q2) else (ok 0, q2)

module _ (wait : Descq → Request → Descq × Request) where
  -- After the request has been handed over: the result that is given for one that is done.
  unfoldable pub await : (Request → ℕ) → Request → Descq → Result ℕ × Descq × Request
  await result r q =
      let (q1, cb) = wait q r in
      let (rv, q2) = qdma_request_wait_for_cmpl q1 cb in
      let q3 = if r.dma_mapped then q2 else emit (unmap_sgl r.id) q2 in
      elim rv [ err e ↦ (err e, q3, cb) | ok _ ↦ (ok (result cb), q2, cb) ]

  -- Memory-mapped and H2C requests.
  unfoldable pub submit_and_wait : Result ℕ → Descq → Request → Result ℕ × Descq × Request
  submit_and_wait map q r =
      let (rv, q1) = enqueue map q r in
      let cb = record (fresh_cb r) { unmap_needed = not r.dma_mapped } in
      let waited = await (λ c. c.offset) cb q1 in
      elim rv [ err e ↦ (err e, q1, cb) | ok _ ↦ if r.has_fp_done then (ok 0, q1, cb) else waited ]

  -- What the read did not fill is put on the pending list.
  unfoldable pub leave_rest : Flq → Descq → Request → Result ℕ × Flq × Descq × Request
  leave_rest f q cb =
      let q1 =
        descq_wrb_cidx_update (record q { pend_list = q.pend_list ++ (cb ∷ []) }) q.cidx_wrb_pend in
      let q2 = if is_some q.wbthp then emit wake_wrb_thread q1 else q1 in
      let (rv, q3, cb') = await (λ c. sub32 c.count c.left) cb q2 in
      if not q.online
      then (err einval, f, q, cb)
      else (if cb.has_fp_done then (ok 0, f, q2, cb) else (rv, f, q3, cb'))

  unfoldable pub after_read :
      ℕ
      → Result ℕ × Flq × Descq × Request × List Copy
      → Result ℕ × Flq × Descq × Request × List Copy
  after_read count (rv, f, q, cb, copies) =
      let (rv2, f2, q2, cb2) = leave_rest f q cb in
      if cb.left == 0 then (ok count, f, q, cb, copies) else (rv2, f2, q2, cb2, copies)

  -- The result of the read is not looked at.
  unfoldable pub qdma_request_submit_st_c2h :
      ℕ → Flq → Descq → Request → Result ℕ × Flq × Descq × Request × List Copy
  qdma_request_submit_st_c2h buf_size f q r =
      after_read r.count
        (descq_st_c2h_read buf_size true true f q (record (fresh_cb r) { left = r.count }))

  -- The direction is checked first. For the list's mapping, see `sgl_map`.
  unfoldable pub qdma_request_submit :
      ℕ → Result ℕ → Flq → Descq → Request → Result ℕ × Flq × Descq × Request × List Copy
  qdma_request_submit buf_size map f q r =
      let (rv, q1, cb) = submit_and_wait map q r in
      if differ r.write (not q.conf.c2h)
      then (err einval, f, q, r, [])
      else (if q.conf.st && q.conf.c2h
          then qdma_request_submit_st_c2h buf_size f q r
          else (rv, f, q1, cb, []))

-- The control block is cleared, `left` with it.
unfoldable pub qdma_queue_packet_read :
    ℕ → Flq → Descq → Request → Result ℕ × Flq × Descq × Request × List Copy
qdma_queue_packet_read buf_size f q r =
    let (rv, f1, q1, cb, copies) = descq_st_c2h_read buf_size true true f q (fresh_cb r) in
    if not q.conf.st || not q.conf.c2h
    then (err einval, f, q, r, [])
    else (ok (sub32 r.count cb.left), f1, q1, cb, copies)

-- What waits to be read: `udd_cnt`, `pkt_cnt` and `pkt_dlen`. Nothing changes `pkt_cnt`, which starts
-- at 0.
unfoldable pub qdma_queue_c2h_peek : Flq → ℕ × ℕ × ℕ
qdma_queue_c2h_peek f = (f.udd_cnt, 0, f.pkt_dlen)
