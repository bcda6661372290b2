-- ===== src/Setup.antt =====
-- The start of a function: `qdma_device_init` (libqdma/qdma_device.c) and `qdma_descq_init`
-- (libqdma/qdma_descq.c). What the PCI core and the allocator answer, and PAGE_SIZE, are arguments.
pub mod Ready
pub mod Config
use qdmav.Prelude.{
  ℕ, zero, suc, ◌+◌, ◌*◌, ◌/◌, ◌%◌, ◌^◌, Bool, true, false, not, ◌&&◌, List, [], ◌∷◌, Option, none,
  some, ◌==◌, if◌then◌else◌, u32_mod,
}
use qdmav.Prelude.Errors.{Error, einval, enomem, Result, ok, err}
use qdmav.Hw.{Hw}
use qdmav.Descq.{QueueConf, Descq}
use qdmav.Device.{Qdev, Xdev}
use qdmav.Caps.{hw_set_global_csr, hw_mm_channel_enable}
use qdmav.Intr.Vectors.{Vectors, intr_setup, intr_teardown}

-- QDMA_Q_PER_PF_MAX
abbrev pub q_per_pf_max : ℕ
q_per_pf_max = 512

-- What `struct xlnx_dma_dev` holds of a function. Without `has_qdev`, `dev_priv` is null and the
-- arrays of queues have no meaning.
pub record Function : Type 0 where
  pub xdev : Xdev
  pub has_qdev : Bool
  pub vectors : Vectors
  pub qsets_max : ℕ
  pub qsets_base : ℕ
  pub mm_channel_max : ℕ
  pub bar_num_user : Option ℕ

abbrev pub blank_conf : QueueConf
blank_conf = record {
  qidx = 0;
  st = false;
  c2h = false;
  irq_en = false;
  desc_rng_sz_idx = 0;
  wbk_en = false;
  wbk_acc_en = false;
  wbk_pend_chk = false;
  bypass = false;
  pfetch_en = false;
  fetch_credit = false;
  c2h_buf_sz_idx = 0;
  cmpl_rng_sz_idx = 0;
  cmpl_desc_sz = 0;
  cmpl_stat_en = false;
  cmpl_udd_en = false;
  cmpl_timer_idx = 0;
  cmpl_cnt_th_idx = 0;
  cmpl_trig_mode = 0;
  has_isr_top = false;
  has_c2h_packet = false;
  rngsz = 0;
  rngsz_wrb = 0;
  c2h_bufsz = 0;
}

unfoldable pub qdma_descq_init : ℕ → ℕ → Descq
qdma_descq_init qbase i = record {
  conf = record blank_conf { qidx = i };
  channel = 0;
  failed = false;
  enabled = false;
  inited = false;
  online = false;
  color = false;
  qidx_hw = (qbase + i) % u32_mod;
  intr_id = 0;
  wrkthp = none;
  wbthp = none;
  work_list = [];
  pend_list = [];
  avail = 0;
  pidx = 0;
  cidx = 0;
  credit = 0;
  has_desc = false;
  desc_bus = 0;
  wb_entry_len = 0;
  pidx_wrb = 0;
  cidx_wrb = 0;
  cidx_wrb_pend = 0;
  has_desc_wrb = false;
  desc_wrb_bus = 0;
  events = [];
}

-- The loop over an array, with `n` queues to go.
unfoldable pub queues_from : ℕ → ℕ → ℕ → List Descq
queues_from qbase zero i = []
queues_from qbase (suc n) i = qdma_descq_init qbase i ∷ queues_from qbase n (i + 1)

unfoldable pub new_qdev : ℕ → ℕ → Qdev
new_qdev qbase qmax = record {
  init_qrange = false;
  qmax = qmax;
  qbase = qbase;
  h2c_qcnt = 0;
  c2h_qcnt = 0;
  h2c_descq = queues_from qbase qmax 0;
  c2h_descq = queues_from qbase qmax 0;
}

-- The last bit that is set names the bar.
unfoldable pub user_bar : ℕ → ℕ → ℕ → Option ℕ → Option ℕ
user_bar zero i v bar = bar
user_bar (suc n) i v bar = user_bar n (i + 1) v (if v / 2 ^ i % 2 == 1 then some i else bar)

-- What `intr_setup` leaves in the function.
unfoldable pub with_vectors : Vectors → Function → Function
with_vectors v f = record f {
  vectors = v;
  xdev = record (f.xdev) { num_vecs = v.num_vecs; dvec_start_idx = v.dvec_start_idx };
}

unfoldable pub with_qdev : Function → Function
with_qdev f =
    let qbase = f.xdev.func_id * q_per_pf_max in
    record f {
      xdev = record (f.xdev) { qdev = new_qdev qbase f.qsets_max };
      has_qdev = true;
      qsets_base = qbase;
    }

module _ {ℓ} {S : Type ℓ} (hw : Hw S) where
  unfoldable pub enable_channels : ℕ → ℕ → S → S
  enable_channels zero i s = s
  enable_channels (suc n) i s =
      enable_channels n (i + 1) (hw_mm_channel_enable hw i false (hw_mm_channel_enable hw i true s))

  -- The function's number and its user bar.
  unfoldable pub identify : Function → S → Function × S
  identify f s =
      let (func_id, s1) = hw.read_reg 0x12c s in
      let (v, s2) = hw.read_reg 0x10c s1 in
      let bars = v / 2 ^ (6 * (func_id % 2 ^ 8)) % 2 ^ 6 in
      (
        record f {
          xdev = record (f.xdev) { func_id = func_id % 2 ^ 8 };
          vectors = record (f.vectors) { func_id = func_id % 2 ^ 8 };
          bar_num_user = user_bar 6 0 bars f.bar_num_user;
        },
        s2,
      )

  -- What follows `intr_setup`; `mem` is whether there is memory for the queues.
  unfoldable pub init_queues : ℕ → Bool → Function → S → Result ℕ × Function × S
  init_queues page_size mem f s =
      let down = record f { vectors = intr_teardown f.vectors } in
      let s1 = enable_channels f.mm_channel_max 0 (hw_set_global_csr hw page_size s) in
      if f.qsets_max == 0
      then (err einval, f, s)
      else (if mem
          then (ok 0, with_qdev f, if f.xdev.master_pf then s1 else s)
          else (err enomem, down, s))

  unfoldable pub qdma_device_init :
      ℕ → ℕ → Result ℕ → (ℕ → Result ℕ) → Bool → Function → S → Result ℕ × Function × S
  qdma_device_init page_size count enable request mem f s =
      let (f1, s1) = identify f s in
      let (rv, v) = intr_setup f1.xdev.poll_mode count enable request f1.vectors in
      let f2 = with_vectors v f1 in
      elim rv [ err e ↦ (err einval, f2, s1) | ok _ ↦ init_queues page_size mem f2 s1 ]
