-- ===== src/Lifecycle.antt =====
-- From the device's settings to a queue that is ready: the CSR arrays of libqdma/qdma_regs.c,
-- `qdma_descq_config_complete` of libqdma/qdma_descq.c and the part of `qdma_request_submit`
-- (libqdma/libqdma_export.c) up to the wake-up of the request thread. Mapping the list for DMA is an
-- argument; streaming C2H requests go another way.
pub mod Ready
pub mod Resources
use qdmav.Prelude.{
  ℕ, ◌+◌, ◌-◌, ◌*◌, ◌^◌, Bool, true, false, not, ◌&&◌, ◌||◌, List, [], ◌∷◌, ◌++◌, ltb, ◌==◌, sub32,
  if◌then◌else◌, get_or, differ,
}
use qdmav.Prelude.Errors.{Error, einval, Result, ok, err}
use qdmav.Prelude.Io.{Io}
use qdmav.Request.{Request}
use qdmav.Descq.{QueueConf, Descq, emit}
use qdmav.Descq.Events.{wake_work_thread, unmap_sgl}
use qdmav.Hw.{Hw, read_regs, write_regs}

-- `struct global_csr_conf`
pub record GlobalCsrConf : Type 0 where
  pub ring_sz : List ℕ
  pub wb_acc : ℕ
  pub c2h_timer_cnt : List ℕ
  pub c2h_cnt_th : List ℕ
  pub c2h_buf_sz : List ℕ

abbrev pub rng_sz_base : ℕ
rng_sz_base = 0x204

abbrev pub wb_acc_reg : ℕ
wb_acc_reg = 0x250

abbrev pub timer_cnt_base : ℕ
timer_cnt_base = 0xa00

abbrev pub cnt_th_base : ℕ
cnt_th_base = 0xa40

abbrev pub buf_sz_base : ℕ
buf_sz_base = 0xab0

abbrev pub csr_array_sz : ℕ
csr_array_sz = 16

module _ {ℓ} {S : Type ℓ} (hw : Hw S) where
  -- The device's handle has been checked.
  unfoldable pub qdma_global_csr_get : S → GlobalCsrConf × S
  qdma_global_csr_get s =
      let (wb, s1) = hw.read_reg wb_acc_reg s in
      let (rng, s2) = read_regs hw rng_sz_base csr_array_sz s1 in
      let (buf, s3) = read_regs hw buf_sz_base csr_array_sz s2 in
      let (tmr, s4) = read_regs hw timer_cnt_base csr_array_sz s3 in
      let (cnt, s5) = read_regs hw cnt_th_base csr_array_sz s4 in
      (
        record {
          ring_sz = rng;
          wb_acc = wb;
          c2h_timer_cnt = tmr;
          c2h_cnt_th = cnt;
          c2h_buf_sz = buf;
        },
        s5,
      )

  -- The settings belong to the first function.
  unfoldable pub qdma_global_csr_set : ℕ → GlobalCsrConf → Io S ℕ
  qdma_global_csr_set func_id csr s =
      let s1 = hw.write_reg wb_acc_reg csr.wb_acc s in
      let s2 = write_regs hw rng_sz_base csr.ring_sz s1 in
      let s3 = write_regs hw buf_sz_base csr.c2h_buf_sz s2 in
      let s4 = write_regs hw timer_cnt_base csr.c2h_timer_cnt s3 in
      let s5 = write_regs hw cnt_th_base csr.c2h_cnt_th s4 in
      if func_id == 0 then (ok 0, s5) else (err einval, s)

-- The completion entries of a streaming C2H queue. DESC_SZ_RSV is replaced by DESC_SZ_8B.
unfoldable pub completion_entries : Descq → Descq
completion_entries q =
    let sz = if q.conf.cmpl_desc_sz == 3 then 0 else q.conf.cmpl_desc_sz in
    let len = 8 * 2 ^ sz in
    record q {
      wb_entry_len = len;
      conf = record (q.conf) { cmpl_desc_sz = sz; cmpl_udd_en = ltb 8 len || q.conf.cmpl_udd_en };
    }

-- The CSR values are an argument; the flag that the device notes for a queue with a handler of its
-- own is left out.
unfoldable pub qdma_descq_config_complete : Result GlobalCsrConf → Descq → Result ℕ × Descq
qdma_descq_config_complete (err e) q = (err e, q)
qdma_descq_config_complete (ok csr) q =
    let rngsz = sub32 (get_or csr.ring_sz q.conf.desc_rng_sz_idx 0) 1 in
    let q1 = record q {
      conf = record (q.conf) {
        rngsz = rngsz;
        rngsz_wrb = rngsz;
        c2h_bufsz = get_or csr.c2h_buf_sz q.conf.c2h_buf_sz_idx 0;
      };
      avail = sub32 rngsz 1;
      pidx = 0;
      cidx = 0;
      cidx_wrb = 0;
      pidx_wrb = 0;
      credit = 0;
    } in
    (ok 0, if q.conf.c2h && q.conf.st then completion_entries q1 else q1)

-- `memset` of the control block.
unfoldable pub fresh_cb : Request → Request
fresh_cb r = record r {
  desc_nr = 0;
  offset = 0;
  left = 0;
  sg_offset = 0;
  sg_idx = 0;
  failed = false;
  done = false;
  unmap_needed = false;
}

-- The part of `qdma_request_submit` for a queue that was found and that is not streaming C2H. `map`
-- is the result of `sgl_map`.
unfoldable pub enqueue : Result ℕ → Descq → Request → Result ℕ × Descq
enqueue map q r =
    let cb = record (fresh_cb r) { unmap_needed = not r.dma_mapped } in
    let undone = if r.dma_mapped then q else emit (unmap_sgl r.id) q in
    let queued = emit wake_work_thread (record q { work_list = q.work_list ++ (cb ∷ []) }) in
    let online = if q.online then (ok 0, queued) else (err einval, undone) in
    if differ r.write (not q.conf.c2h)
    then (err einval, q)
    else (if r.dma_mapped then online else elim map [ err e ↦ (err e, undone) | ok _ ↦ online ])
