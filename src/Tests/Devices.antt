-- ===== src/Tests/Devices.antt =====
-- A device's registers at the start, and when an error is reported.
use qdmav.Prelude.{
  inl, inr, ℕ, ◌+◌, ◌*◌, ◌≤◌, ◌≡◌, ◌⊎◌, refl, arith, Bool, true, false, ◌||◌, [], ◌∷◌, none, some,
  ◌==◌, if◌then◌else◌, replicate, All,
}
use qdmav.Hw.{Hw, read_regs, write_regs}
use qdmav.Lifecycle.{qdma_global_csr_get}
use qdmav.Mbox.Transport.Delivery.{File, file}
use qdmav.Intr.Vectors.{intr_error, Vectors}
use qdmav.Intr.Errors.{
  stat_from, acknowledge, logged, detected, c2h_err_int, glbl_err_stat, err_stat_info,
  err_stat_handler, err_int_word,
}
use qdmav.Intr.Errors.Quiet.{IsStatus, IsQuiet, err_stat_handler-IsQuiet}
use qdmav.Intr.Errors.Named.{IsNamed, err_stat_handler-IsNamed}
use qdmav.Prelude.Errors.{ok}
use qdmav.Sriov.{q_per_vf_max}
use qdmav.Setup.{Function, qdma_device_init}
use qdmav.Setup.Ready.{Started, device_init-Started}
use qdmav.Tests.Queues.{xdev}
use qdmav.Caps.{Attributes, qdma_device_num_pfs_get, qdma_device_attributes_get, hw_set_global_csr}
use qdmav.Caps.Fits.{attributes_get_fits}

-- Two physical functions on a device of 2048 queues.
abbrev power_on : File
power_on reg = if reg == 0x120 then 2048 else (if reg == 0x104 then 0x41 else 0)

attributes_get_fits_example :
    let r = (qdma_device_attributes_get file 4 power_on).0 in
    (((qdma_device_num_pfs_get file power_on).0 ≡ 0) × (r ≡ none))
    ⊎ ((a : Attributes) × (r ≡ some a)
        × (a.pf_count ≡ (qdma_device_num_pfs_get file power_on).0)
        × ((a.qsets_max ≡ 0) ⊎ (a.pf_count * (a.qsets_max + 4 * q_per_vf_max) ≤ 2048)))
attributes_get_fits_example = attributes_get_fits file 4 power_on

-- The settings that are read after the defaults were set.
default_settings : (qdma_global_csr_get file (hw_set_global_csr file 4096 power_on)).0 ≡ record {
  ring_sz = replicate 16 257;
  wb_acc = 1;
  c2h_timer_cnt = replicate 16 1;
  c2h_cnt_th = replicate 16 1;
  c2h_buf_sz = replicate 16 4096;
}
unfolding qdma_global_csr_get hw_set_global_csr read_regs write_regs
default_settings = refl

-- Registers of which those of the errors' status are emptied by any write.
abbrev is_stat : ℕ → Bool
is_stat reg =
    reg == 0x248
    || (reg == 0x254 || (reg == 0x264 || (reg == 0xaf0 || (reg == 0xaf8 || reg == 0xe00))))

abbrev board : Hw File
board = record {
  read_reg = λ reg s. (s reg, s);
  write_reg = λ reg v s. λ r. if r == reg then (if is_stat r then 0 else v) else s r;
}

board-IsStatus : IsStatus board (λ reg s. s reg) (λ reg. is_stat reg ≡ true)
board-IsStatus = record {
  reads = λ reg s. refl;
  clears = λ reg s h. let e : (reg == reg) ≡ true = ground arith in rw (e, h) refl;
  stays = λ reg v s h z. let e : (reg == reg) ≡ true = ground arith in rw (e, h) refl;
  apart = λ reg other v s n. let e : (reg == other) ≡ false = ground arith in rw e refl;
  other = λ e. absurd (cc);
  keeps = λ v s. refl;
}

-- An error of the second register, which the first one sums up.
abbrev failing : File
failing reg = if reg == 0x254 then 0x10 else (if reg == 0x248 then 4 else 0)

abbrev vectors : Vectors
vectors = record {
  func_id = 0;
  num_vecs = 1;
  dvec_start_idx = 2;
  intr_vec_map = record { intr_type = intr_error; intr_vec_index = 0 } ∷ [];
  irq_flag = true;
  requested = 0 ∷ [];
  msix_enabled = true;
}

err_stat_handler-IsQuiet_example :
    let s' = (err_stat_handler board false vectors failing).1 in
    All (IsQuiet board (λ reg s. s reg) (λ reg. is_stat reg ≡ true) board-IsStatus s') err_stat_info
    × ((failing glbl_err_stat ≡ 0)
        ⊎ ((s' glbl_err_stat ≡ 0) × (s' c2h_err_int ≡ err_int_word false vectors)))
err_stat_handler-IsQuiet_example =
    err_stat_handler-IsQuiet board (λ reg s. s reg) (λ reg. is_stat reg ≡ true) board-IsStatus false
      vectors failing
      (inr refl, (inr refl, (inr refl, (inr refl, (inr refl, (inr refl, (inl refl, tt)))))))

err_stat_handler-IsNamed_example :
    All (IsNamed 0 err_stat_info) (err_stat_handler board false vectors failing).0
err_stat_handler-IsNamed_example = err_stat_handler-IsNamed board false vectors failing

-- What is logged: of the first register its third error, of the second its fifth.
logged_errors : (err_stat_handler board false vectors failing).0 ≡ (0, 2) ∷ (1, 4) ∷ []
unfolding err_stat_handler stat_from acknowledge logged detected
logged_errors = refl

-- A function that asks for four queues, with a vector for each.
abbrev function : Function
function = record {
  xdev = xdev;
  has_qdev = false;
  vectors = record vectors {
    num_vecs = 0;
    intr_vec_map = replicate 8 (record { intr_type = intr_error; intr_vec_index = 0 });
    requested = [];
    msix_enabled = false;
  };
  qsets_max = 4;
  qsets_base = 0;
  mm_channel_max = 1;
  bar_num_user = none;
}

device_init-Started_example :
    Started function (qdma_device_init file 4096 4 (ok 0) (λ i. ok 0) true function power_on)
device_init-Started_example =
    device_init-Started file 4096 4 (ok 0) (λ i. ok 0) true function power_on
