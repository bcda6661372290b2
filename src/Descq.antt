-- ===== src/Descq.antt =====
-- A descriptor queue: `struct qdma_descq` and `struct qdma_queue_conf` (libqdma/qdma_descq.h,
-- libqdma/libqdma_export.h), for the physical function. The descriptors in the ring's memory are
-- an argument of the functions that write them. `work_list` and `pend_list` hold the control blocks
-- themselves; a block that is changed in place is stored back under its request's `id`.
-- Register writes and wake-ups are appended to `events`.
pub mod Events
pub mod Update
use qdmav.Prelude.{ℕ, Bool, Option, List, [], ◌∷◌, ◌++◌, ◌==◌, if◌then◌else◌}
use qdmav.Request.{Request}
use Events.{Event}

pub record QueueConf : Type 0 where
  pub qidx : ℕ
  pub st : Bool
  pub c2h : Bool
  pub irq_en : Bool
  pub desc_rng_sz_idx : ℕ
  pub wbk_en : Bool
  pub wbk_acc_en : Bool
  pub wbk_pend_chk : Bool
  pub bypass : Bool
  pub pfetch_en : Bool
  pub fetch_credit : Bool
  pub c2h_buf_sz_idx : ℕ
  pub cmpl_rng_sz_idx : ℕ
  pub cmpl_desc_sz : ℕ
  pub cmpl_stat_en : Bool
  pub cmpl_udd_en : Bool
  pub cmpl_timer_idx : ℕ
  pub cmpl_cnt_th_idx : ℕ
  pub cmpl_trig_mode : ℕ
  pub has_isr_top : Bool
  pub has_c2h_packet : Bool
  -- filled in by libqdma
  pub rngsz : ℕ
  pub rngsz_wrb : ℕ
  pub c2h_bufsz : ℕ

pub record Descq : Type 0 where
  pub conf : QueueConf
  pub channel : ℕ
  pub failed : Bool
  pub enabled : Bool
  pub inited : Bool
  pub online : Bool
  pub color : Bool
  pub qidx_hw : ℕ
  pub intr_id : ℕ
  -- the threads' positions in the arrays of libqdma/qdma_thread.c
  pub wrkthp : Option ℕ
  pub wbthp : Option ℕ
  pub work_list : List Request
  pub pend_list : List Request
  pub avail : ℕ
  pub pidx : ℕ
  pub cidx : ℕ
  pub credit : ℕ
  pub has_desc : Bool
  pub desc_bus : ℕ
  pub wb_entry_len : ℕ
  pub pidx_wrb : ℕ
  pub cidx_wrb : ℕ
  pub cidx_wrb_pend : ℕ
  pub has_desc_wrb : Bool
  pub desc_wrb_bus : ℕ
  pub events : List Event

-- Appends an event.
unfoldable pub emit : Event → Descq → Descq
emit e q = record q { events = q.events ++ (e ∷ []) }

-- `list_del` of a control block.
unfoldable pub list_del : ℕ → List Request → List Request
list_del id [] = []
list_del id (r ∷ rs) = if r.id == id then rs else r ∷ list_del id rs

-- The list after its block with this `id` was changed in place.
unfoldable pub update : Request → List Request → List Request
update cb [] = []
update cb (r ∷ rs) = if r.id == cb.id then cb ∷ rs else r ∷ update cb rs
