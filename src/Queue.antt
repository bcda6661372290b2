-- ===== src/Queue.antt =====
-- Adding a queue: `qdma_queue_add` (libqdma/libqdma_export.c) and `qdma_descq_config`
-- (libqdma/qdma_descq.c). The text that is put into the caller's buffer is left out, but for whether
-- a message overflows it (`cut`), which changes how the function returns. The queue's name is
-- left out.
pub mod Choose
pub mod Handle
use qdmav.Prelude.{
  ℕ, zero, suc, ◌+◌, ◌-◌, ◌%◌, ◌^◌, Bool, true, false, not, ◌&&◌, ◌||◌, List, [], ◌∷◌, Option, none,
  some, ltb, leb, ◌==◌, differ, if◌then◌else◌, get_elem?,
}
use qdmav.Prelude.Errors.{
  Error, einval, invalid_input_param, invalid_qidx, descq_full, descq_idx_already_added,
  interface_not_enabled_in_device, Result, ok, err,
}
use qdmav.Descq.{QueueConf, Descq}
use qdmav.Device.{Qdev, Xdev, Position, side, modify_at, qdma_device_prep_q_resource}

-- QDMA_QUEUE_IDX_INVALID: the library chooses.
abbrev pub qidx_any : ℕ
qidx_any = 0xffff

-- `qdma_descq_config` of a new queue, and of one that is reconfigured.
unfoldable pub qdma_descq_config : ℕ → QueueConf → Bool → Descq → Descq
qdma_descq_config num_vecs qconf false q = record q { conf = qconf }
qdma_descq_config num_vecs qconf true q = record q {
  conf = record (q.conf) {
    desc_rng_sz_idx = qconf.desc_rng_sz_idx;
    cmpl_rng_sz_idx = qconf.cmpl_rng_sz_idx;
    c2h_buf_sz_idx = qconf.c2h_buf_sz_idx;
    irq_en = not (num_vecs == 0);
    wbk_en = qconf.wbk_en;
    wbk_acc_en = qconf.wbk_acc_en;
    wbk_pend_chk = qconf.wbk_pend_chk;
    cmpl_stat_en = qconf.cmpl_stat_en;
    cmpl_trig_mode = qconf.cmpl_trig_mode;
    cmpl_timer_idx = qconf.cmpl_timer_idx;
    fetch_credit = qconf.fetch_credit;
    cmpl_cnt_th_idx = qconf.cmpl_cnt_th_idx;
    bypass = qconf.bypass;
    pfetch_en = qconf.pfetch_en;
    cmpl_udd_en = qconf.cmpl_udd_en;
    cmpl_desc_sz = qconf.cmpl_desc_sz;
  };
}

-- The counters are `unsigned short`.
unfoldable pub qcnt : Qdev → Bool → ℕ
qcnt d true = d.c2h_qcnt
qcnt d false = d.h2c_qcnt

unfoldable pub set_qcnt : Bool → (ℕ → ℕ) → Qdev → Qdev
set_qcnt true f d = record d { c2h_qcnt = f d.c2h_qcnt }
set_qcnt false f d = record d { h2c_qcnt = f d.h2c_qcnt }

unfoldable pub qcnt_inc : Bool → Xdev → Xdev
unfolding set_qcnt
qcnt_inc c2h x = record x { qdev = set_qcnt c2h (λ n. (n + 1) % 2 ^ 16) (x.qdev) }

unfoldable pub qcnt_dec : Bool → Xdev → Xdev
unfolding set_qcnt
qcnt_dec c2h x = record x { qdev = set_qcnt c2h (λ n. (n + 2 ^ 16 - 1) % 2 ^ 16) (x.qdev) }

-- A pair partner that is in use in the other mode.
unfoldable pub pair_differs : Bool → Descq → Bool
pair_differs st p = p.enabled && differ st p.conf.st

-- The first free queue from index `i` on whose partner does not run in the other mode.
unfoldable pub find_free : Bool → ℕ → List Descq → List Descq → Option ℕ
find_free st i [] pairs = none
find_free st i (q ∷ qs) [] = none
find_free st i (q ∷ qs) (p ∷ ps) =
    let rest = find_free st (i + 1) qs ps in
    if pair_differs st p then rest else (if q.enabled then rest else some i)

-- The queue that the caller names.
unfoldable pub check_named : Bool → Option Descq → Option Descq → Result (Unit {0})
check_named st none pair = err invalid_qidx
check_named st (some q) none = err invalid_qidx
check_named st (some q) (some p) =
    if pair_differs st p
    then err einval
    else (if q.enabled then err descq_idx_already_added else ok tt)

unfoldable pub choose : QueueConf → Qdev → Result ℕ
choose qconf d =
    let qs = side d qconf.c2h in
    let ps = side d (not qconf.c2h) in
    if qconf.qidx == qidx_any
    then elim (find_free qconf.st 0 qs ps) [ none ↦ err descq_full | some i ↦ ok i ]
    else elim (check_named qconf.st (get_elem? qs qconf.qidx) (get_elem? ps qconf.qidx)) [
      | err e ↦ err e
      | ok _ ↦ ok qconf.qidx
    ]

unfoldable pub enable : Descq → Descq
enable q = record q { enabled = true }

-- The part below the checks: the count goes up, a queue is chosen, and what fails takes the count
-- back. `cut` is whether the message of a failed choice overflows the caller's buffer.
unfoldable pub add_counted :
    (Xdev → Result ℕ × Xdev) → Bool → QueueConf → Xdev → Result ℕ × Xdev × QueueConf
add_counted prep cut qconf x =
    let x1 = qcnt_inc qconf.c2h x in
    elim (choose qconf (x1.qdev)) [
      | err e ↦ (err e, if cut then x1 else qcnt_dec qconf.c2h x1, qconf)
      | ok i ↦
          let qconf' = record qconf { qidx = i } in
          let (rv, x2) = prep (modify_at (qconf.c2h, i) enable x1) in
          elim rv [
            | err e ↦ (err e, qcnt_dec qconf.c2h x2, qconf')
            | ok _ ↦ (
              ok (if qconf.c2h then i + x2.qdev.qmax else i),
              modify_at (qconf.c2h, i) (qdma_descq_config x2.num_vecs qconf' false) x2,
              qconf',
            )
          ]
    ]

-- The result is the queue's handle. `prep` is `qdma_device_prep_q_resource`.
unfoldable pub qdma_queue_add :
    (Xdev → Result ℕ × Xdev) → Bool → QueueConf → Xdev → Result ℕ × Xdev × QueueConf
qdma_queue_add prep cut qconf x =
    let d = x.qdev in
    if qconf.st && not x.st_mode_en || not qconf.st && not x.mm_mode_en
    then (err interface_not_enabled_in_device, x, qconf)
    else (if not (qconf.qidx == qidx_any) && leb d.qmax qconf.qidx
        then (err invalid_qidx, x, qconf)
        else (if leb d.qmax (qcnt d qconf.c2h)
            then (err descq_full, x, qconf)
            else add_counted prep cut qconf x))
