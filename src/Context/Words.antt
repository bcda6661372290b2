-- ===== src/Context/Words.antt =====
-- The words of the contexts: `make_sw_context`, `make_prefetch_context`, `make_wrb_context`,
-- `make_qid2vec_context` and `make_intr_context` of libqdma/qdma_context.c, with the fields that
-- libqdma/qdma_regs.h places in them.
pub mod Fields
pub mod Addresses
use Prim.Native.Nat.{bit_or}
use qdmav.Prelude.{
  ℕ, ◌+◌, ◌-◌, ◌*◌, ◌/◌, ◌%◌, ◌^◌, Bool, true, false, List, [], ◌∷◌, ◌++◌, map, bit, ltb,
  if◌then◌else◌, replicate, u32_mod, u64_mod, take,
}
use qdmav.Prelude.Errors.{Error, einval, Result, ok, err}
use qdmav.Descq.{Descq}

-- `struct intr_coal_conf` as far as the context depends on it
pub record IntrCoal : Type 0 where
  pub vec_id : ℕ
  pub intr_ring_bus : ℕ

-- QDMA_DATA_VEC_PER_PF_MAX
abbrev pub data_vec_max : ℕ
data_vec_max = 1

-- PCI_DMA_H and PCI_DMA_L
unfoldable pub pci_dma_h : ℕ → ℕ
pci_dma_h addr = addr / 2 ^ 16 / 2 ^ 16

unfoldable pub pci_dma_l : ℕ → ℕ
pci_dma_l addr = addr % 2 ^ 32

-- A `u32` shifted left and joined to a word.
infixl 40 ◌<|◌
abbrev pub ◌<|◌ : ℕ → ℕ × ℕ → ℕ
w <| (v, k) = bit_or w (v * 2 ^ k % u32_mod)

-- data[1] of the software context
unfoldable pub sw_word : ℕ → Descq → ℕ
sw_word func_id q =
    let c = q.conf in
    let w =
      1
      <| (c.desc_rng_sz_idx, 12)
      <| (bit c.wbk_acc_en, 3)
      <| (bit c.wbk_pend_chk, 2)
      <| (func_id, 4)
      <| (bit c.bypass, 18)
      <| (bit c.wbk_en, 20)
      <| (bit c.irq_en, 21) in
    if c.st
    then (if c.c2h then w <| (bit c.fetch_credit, 1) <| (0, 16) else w <| (1, 16))
    else w <| (2, 16) <| (q.channel, 19)

-- `cnt` words, the first of which are given: the rest of the array is cleared.
unfoldable pub fill : ℕ → List ℕ → List ℕ
fill cnt ws = take cnt (ws ++ replicate cnt 0)

unfoldable pub make_sw_context : ℕ → Descq → ℕ → Result (List ℕ)
make_sw_context func_id q cnt =
    if ltb cnt 4
    then err einval
    else ok (fill cnt (0 ∷ sw_word func_id q ∷ pci_dma_l q.desc_bus ∷ pci_dma_h q.desc_bus ∷ []))

unfoldable pub make_prefetch_context : Descq → ℕ → Result (List ℕ)
make_prefetch_context q cnt =
    let c = q.conf in
    let w0 = if c.pfetch_en then bit c.bypass <| (c.c2h_buf_sz_idx, 1) <| (1, 27) else 0 in
    if ltb cnt 2 then err einval else ok (fill cnt (w0 ∷ 2 ^ 13 ∷ []))

-- data[0] of the writeback context, where `v` is the lowest part of the address
unfoldable pub wrb_word : ℕ → Descq → ℕ → ℕ
wrb_word func_id q v =
    let c = q.conf in
    bit c.cmpl_stat_en
    <| (bit c.irq_en, 1)
    <| (c.cmpl_trig_mode, 2)
    <| (func_id % 2 ^ 8, 5)
    <| (c.cmpl_timer_idx, 17)
    <| (c.cmpl_cnt_th_idx, 13)
    <| (1, 23)
    <| (c.cmpl_rng_sz_idx, 24)
    <| (v % 2 ^ 4, 28)

-- The address of the completion ring without its six lowest bits, in 64 bits.
unfoldable pub wrb_address : ℕ → ℕ
wrb_address bus = bit_or (pci_dma_l bus / 2 ^ 6) (pci_dma_h bus * 2 ^ 26 % u64_mod)

unfoldable pub make_wrb_context : ℕ → Descq → ℕ → Result (List ℕ)
make_wrb_context func_id q cnt =
    let bus_64 = wrb_address q.desc_wrb_bus in
    if ltb cnt 4
    then err einval
    else ok (
        fill cnt (
          wrb_word func_id q (bus_64 % 2 ^ 4)
          ∷ bus_64 / 2 ^ 4 % 2 ^ 32
          ∷ (bus_64 / 2 ^ 36 % 2 ^ 22 <| (q.conf.cmpl_desc_sz, 22))
          ∷ 2 ^ 24
          ∷ []))

-- The change of the vector map's word: `data[0] &= ~(mask << shift)` and what follows.
unfoldable pub set_vector : Bool → Bool → ℕ → ℕ → ℕ
set_vector c2h intr_coal_en index w =
    let shift = if c2h then 0 else 9 in
    let cleared = w - w / 2 ^ shift % 2 ^ 8 * 2 ^ shift in
    if intr_coal_en
    then cleared <| (1, if c2h then 8 else 17) <| (index, shift)
    else cleared <| (index, shift)

-- The address of the interrupt ring without its twelve lowest bits, in 64 bits.
unfoldable pub intr_address : ℕ → ℕ
intr_address bus = bit_or (pci_dma_l bus / 2 ^ 12) (pci_dma_h bus * 2 ^ 20 % u64_mod)

unfoldable pub make_intr_words : ℕ → IntrCoal → ℕ × ℕ
make_intr_words intr_rngsz entry =
    let bus_64 = intr_address entry.intr_ring_bus in
    (
      1 <| (entry.vec_id, 1) <| (bus_64 % 2 ^ 23, 9) <| (1, 8),
      bus_64 / 2 ^ 23 % 2 ^ 29 <| (intr_rngsz, 1),
    )

-- The pairs of words of the function's vectors.
unfoldable pub make_intr_context : ℕ → List IntrCoal → List (ℕ × ℕ)
make_intr_context intr_rngsz coal_list =
    map (make_intr_words intr_rngsz) (take data_vec_max coal_list)
