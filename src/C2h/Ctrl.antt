-- ===== src/C2h/Ctrl.antt =====
-- The completion control of a streaming C2H queue: `qdma_queue_cmpl_ctrl` (libqdma/qdma_regs.c). The queue
-- has been found.
pub mod ReadBack
use qdmav.Prelude.{ℕ, ◌+◌, ◌*◌, ◌/◌, ◌%◌, ◌^◌, Bool, ◌==◌}
use qdmav.Hw.{Hw}
use qdmav.Descq.Events.{wrb_cidx_base, pidx_step}
use qdmav.Descq.{Descq}
use qdmav.Descq.Update.{descq_wrb_cidx_update}

-- `struct qdma_cmpl_ctrl`
pub record CmplCtrl : Type 0 where
  pub cnt_th_idx : ℕ
  pub timer_idx : ℕ
  pub trigger_mode : ℕ
  pub en_stat_desc : Bool
  pub cmpl_en_intr : Bool

unfoldable pub configured : CmplCtrl → Descq → Descq
configured c q = record q {
  conf = record (q.conf) {
    cmpl_trig_mode = c.trigger_mode;
    cmpl_timer_idx = c.timer_idx;
    cmpl_cnt_th_idx = c.cnt_th_idx;
    irq_en = c.cmpl_en_intr;
    cmpl_stat_en = c.en_stat_desc;
  };
}

-- With `set`.
unfoldable pub cmpl_ctrl_set : CmplCtrl → Descq → Descq
cmpl_ctrl_set c q = descq_wrb_cidx_update (configured c q) q.cidx_wrb_pend

unfoldable pub ctrl_of : ℕ → CmplCtrl
ctrl_of v = record {
  cnt_th_idx = v / 2 ^ 16 % 2 ^ 4;
  timer_idx = v / 2 ^ 20 % 2 ^ 4;
  trigger_mode = v / 2 ^ 24 % 2 ^ 3;
  en_stat_desc = v / 2 ^ 27 % 2 == 1;
  cmpl_en_intr = v / 2 ^ 28 % 2 == 1;
}

-- Without `set`: the settings are read from the register.
unfoldable pub cmpl_ctrl_get {ℓ} : {S : Type ℓ} → Hw S → Descq → S → CmplCtrl × Descq × S
cmpl_ctrl_get hw q s =
    let (v, s1) = hw.read_reg (wrb_cidx_base + q.conf.qidx * pidx_step) s in
    (ctrl_of v, configured (ctrl_of v) q, s1)
