-- ===== src/Descq/Update.antt =====
-- The index updates that a queue writes to the device: `descq_h2c_pidx_update`,
-- `descq_c2h_pidx_update` and `descq_wrb_cidx_update` of libqdma/qdma_descq.h.
use Prim.Native.Nat.{bit_or}
use qdmav.Prelude.{ℕ, ◌+◌, ◌*◌, ◌/◌, ◌%◌, ◌^◌, ◌<◌, ◌≡◌, bit, arith}
use qdmav.Prelude.BitOps.{bit_or-shift}
use qdmav.Descq.{Descq, QueueConf, emit}
use qdmav.Descq.Events.{write_reg, h2c_pidx_base, c2h_pidx_base, wrb_cidx_base, pidx_step}

-- `pidx | (irq_en << S_WRB_PIDX_UPD_EN_INT)`
unfoldable pub pidx_word : QueueConf → ℕ → ℕ
pidx_word conf pidx = bit_or pidx (bit conf.irq_en * 2 ^ 16)

unfoldable pub descq_h2c_pidx_update : Descq → ℕ → Descq
unfolding emit
descq_h2c_pidx_update q pidx =
    emit (write_reg (h2c_pidx_base + q.conf.qidx * pidx_step) (pidx_word q.conf pidx)) q

unfoldable pub descq_c2h_pidx_update : Descq → ℕ → Descq
unfolding emit
descq_c2h_pidx_update q pidx =
    emit (write_reg (c2h_pidx_base + q.conf.qidx * pidx_step) (pidx_word q.conf pidx)) q

-- The source shifts the counter threshold, too, by V_WRB_CIDX_UPD_TIMER_IDX.
unfoldable pub wrb_cidx_word : QueueConf → ℕ → ℕ
wrb_cidx_word conf cidx = bit_or cidx (
    bit_or (bit conf.irq_en * 2 ^ 28) (
      bit_or (bit conf.cmpl_stat_en * 2 ^ 27) (
        bit_or (conf.cmpl_trig_mode * 2 ^ 24)
          (bit_or (conf.cmpl_timer_idx * 2 ^ 20) (conf.cmpl_cnt_th_idx * 2 ^ 20)))))

unfoldable pub descq_wrb_cidx_update : Descq → ℕ → Descq
unfolding emit
descq_wrb_cidx_update q cidx =
    emit (write_reg (wrb_cidx_base + q.conf.qidx * pidx_step) (wrb_cidx_word q.conf cidx)) q

-- The device reads back the index below 2^16 and the interrupt flag.
pub pidx_word_fields :
    (conf : QueueConf) (pidx : ℕ)
    → pidx < 2 ^ 16
    → (pidx_word conf pidx % 2 ^ 16 ≡ pidx) × (pidx_word conf pidx / 2 ^ 16 ≡ bit conf.irq_en)
unfolding pidx_word
pidx_word_fields conf pidx h =
    let e : bit_or pidx (bit conf.irq_en * 2 ^ 16) ≡ pidx + bit conf.irq_en * 2 ^ 16 =
      bit_or-shift 16 pidx (bit conf.irq_en) h in
    omega (arith, e)
