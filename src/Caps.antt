-- ===== src/Caps.antt =====
-- The capabilities of a device and its global settings (libqdma/qdma_regs.c): `qdma_device_attributes_get`,
-- `hw_set_global_csr`, `hw_mm_channel_enable` and `_disable`, `hw_set_fmap`, and the function-level
-- reset of `qdma_device_flr_quirk`. How many virtual functions the PCI core allows is an argument.
pub mod Fits
use Prim.Native.Nat.{bit_or}
use qdmav.Prelude.{
  ℕ, zero, suc, ◌+◌, ◌-◌, ◌*◌, ◌/◌, ◌%◌, ◌^◌, Bool, true, false, not, ◌&&◌, Option, none, some, ltb,
  ◌==◌, if◌then◌else◌, replicate, u32_mod, bit, sub32,
}
use qdmav.Prelude.Errors.{Result, ok, err}
use qdmav.Hw.{Hw, write_regs, hw_monitor_reg}
use qdmav.Sriov.{q_per_vf_max}
use qdmav.Lifecycle.{
  rng_sz_base, wb_acc_reg, timer_cnt_base, cnt_th_base, buf_sz_base, csr_array_sz,
}

-- What `qdma_device_attributes_get` sets in `struct xlnx_dma_dev`.
pub record Attributes : Type 0 where
  pub pf_count : ℕ
  pub qsets_max : ℕ
  pub mm_channel_max : ℕ
  pub flr_prsnt : Bool
  pub mm_mode_en : Bool
  pub st_mode_en : Bool

-- QDMA_REG_GLBL_QMAX
abbrev pub glbl_qmax : ℕ
glbl_qmax = 0x120

-- One of the six-bit fields of the functions' bars is set.
unfoldable pub pf_present : ℕ → ℕ → ℕ
pf_present v shift = bit (not (v / 2 ^ shift % 2 ^ 6 == 0))

-- The queues that a physical function may have, when the virtual functions have theirs; the count has
-- 16 bits.
unfoldable pub left_for_pf : ℕ → ℕ → ℕ
left_for_pf total_vfs qsets =
    let vf_queues = total_vfs * q_per_vf_max in if ltb qsets vf_queues then 0 else qsets - vf_queues

unfoldable pub has_flag : ℕ → ℕ → Bool
has_flag v k = v / 2 ^ k % 2 == 1

module _ {ℓ} {S : Type ℓ} (hw : Hw S) where
  unfoldable pub qdma_device_num_pfs_get : S → ℕ × S
  qdma_device_num_pfs_get s =
      let (v, s1) = hw.read_reg 0x104 s in
      (pf_present v 0 + pf_present v 6 + pf_present v 12 + pf_present v 18, s1)

  -- Without a physical function the division has no result.
  unfoldable pub qdma_device_attributes_get : ℕ → S → Option Attributes × S
  qdma_device_attributes_get total_vfs s =
      let (qmax, s1) = hw.read_reg glbl_qmax s in
      let (pfs, s2) = qdma_device_num_pfs_get s1 in
      let (cap, s3) = hw.read_reg 0x134 s2 in
      let (mdma, s4) = hw.read_reg 0x118 s3 in
      if pfs == 0 then (none, s2) else (
        some (record {
          pf_count = pfs;
          qsets_max = left_for_pf total_vfs (qmax / pfs % 2 ^ 16);
          mm_channel_max = 1;
          flr_prsnt = has_flag cap 1;
          mm_mode_en = has_flag mdma 8 && has_flag mdma 0;
          st_mode_en = has_flag mdma 16 && has_flag mdma 17;
        }),
        s4,
      )

  unfoldable pub hw_set_global_csr : ℕ → S → S
  hw_set_global_csr page_size s =
      let s1 = hw.write_reg wb_acc_reg 1 s in
      let s2 = write_regs hw rng_sz_base (replicate csr_array_sz 257) s1 in
      let s3 = write_regs hw buf_sz_base (replicate csr_array_sz page_size) s2 in
      let s4 = write_regs hw timer_cnt_base (replicate csr_array_sz 1) s3 in
      write_regs hw cnt_th_base (replicate csr_array_sz 1) s4

  unfoldable pub mm_control : Bool → ℕ → ℕ
  mm_control c2h channel = (if c2h then 0x1204 else 0x1004) + channel * 0x100

  unfoldable pub hw_mm_channel_enable : ℕ → Bool → S → S
  hw_mm_channel_enable channel c2h s = hw.write_reg (mm_control c2h channel) 1 s

  unfoldable pub hw_mm_channel_disable : ℕ → Bool → S → S
  hw_mm_channel_disable channel c2h s = hw.write_reg (mm_control c2h channel) 0 s

  unfoldable pub hw_set_fmap : ℕ → ℕ → ℕ → S → S
  hw_set_fmap func_id qbase qmax s =
      hw.write_reg (0x400 + func_id * 4) (bit_or qbase (qmax * 2 ^ 11 % u32_mod)) s

  unfoldable pub qdma_device_flr_quirk_set : Bool → S → Result ℕ × S
  qdma_device_flr_quirk_set flr_prsnt s =
      if flr_prsnt then (ok 0, hw.write_reg 0x2500 1 s) else (ok 0, s)

  -- A status that stays set is only logged.
  unfoldable pub qdma_device_flr_quirk_check : Bool → S → Result ℕ × S
  qdma_device_flr_quirk_check flr_prsnt s =
      let (rv, s1) = hw_monitor_reg hw 0x2500 1 0 500 500000 s in
      if flr_prsnt then (ok 0, s1) else (ok 0, s)

  unfoldable pub qdma_device_flr_quirk : Bool → S → Result ℕ × S
  qdma_device_flr_quirk flr_prsnt s =
      let (rv, s1) = qdma_device_flr_quirk_set flr_prsnt s in
      elim rv [ err e ↦ (err e, s1) | ok _ ↦ qdma_device_flr_quirk_check flr_prsnt s1 ]
