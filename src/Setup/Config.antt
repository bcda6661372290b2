-- ===== src/Setup/Config.antt =====
-- The settings of a function (libqdma/libqdma_config.c), but for `qdma_set_qmax`, which starts the
-- function again. The function exists.
use qdmav.Prelude.{ℕ, ◌%◌, ◌^◌, Bool, not, ◌==◌, if◌then◌else◌, ◌||◌}
use qdmav.Prelude.Errors.{einval, failed, Result, ok, err}
use qdmav.Hw.{Hw}
use qdmav.Lifecycle.{wb_acc_reg}
use qdmav.Setup.{Function}

-- `conf.intr_agg` and `conf.intr_rngsz`, which has eight bits
pub record IntrConf : Type 0 where
  pub intr_agg : Bool
  pub intr_rngsz : ℕ

unfoldable pub qdma_get_qmax : Function → ℕ
qdma_get_qmax f = f.qsets_max

unfoldable pub qdma_set_intr_rngsz : ℕ → Function → IntrConf → Result ℕ × IntrConf
qdma_set_intr_rngsz intr_rngsz f c =
    if not f.has_qdev
    then (err einval, c)
    else (if intr_rngsz == c.intr_rngsz || (not c.intr_agg || f.xdev.qdev.init_qrange)
        then (err failed, c)
        else (ok 0, record c { intr_rngsz = intr_rngsz % 2 ^ 8 }))

unfoldable pub qdma_get_intr_rngsz : IntrConf → ℕ
qdma_get_intr_rngsz c = if c.intr_agg then c.intr_rngsz else 0

module _ {ℓ} {S : Type ℓ} (hw : Hw S) where
  unfoldable pub qdma_set_wrb_acc : ℕ → S → S
  qdma_set_wrb_acc wrb_acc s = hw.write_reg wb_acc_reg wrb_acc s

  unfoldable pub qdma_get_wrb_acc : S → ℕ × S
  qdma_get_wrb_acc s = hw.read_reg wb_acc_reg s
