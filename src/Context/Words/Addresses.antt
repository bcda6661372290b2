-- ===== src/Context/Words/Addresses.antt =====
-- The addresses and vectors in the words of the contexts.
use native.Mathlib.Decide.{ℕ_discrete}
use qdmav.Prelude.{
  ℕ, ◌+◌, ◌-◌, ◌*◌, ◌/◌, ◌%◌, ◌^◌, ◌<◌, ◌≡◌, refl, ◌∙◌, arith, Bool, true, false, bit, u32_mod,
  u64_mod, if◌then◌else◌, [], ◌∷◌, not,
}
use qdmav.Prelude.BitOps.{bit_or-shift, set_bit-eq-add, set_bit_again}
use qdmav.Prelude.Errors.{ok}
use qdmav.Descq.{Descq}
use qdmav.Context.Words.{
  ◌<|◌, pci_dma_h, pci_dma_l, wrb_address, wrb_word, make_wrb_context, fill, set_vector,
  intr_address, make_intr_words, IntrCoal,
}
use qdmav.Context.Words.Fields.{bit_lt, join}

wrb_address-eq : (bus : ℕ) → bus < u64_mod → wrb_address bus ≡ bus / 2 ^ 6
unfolding wrb_address pci_dma_h pci_dma_l
wrb_address-eq bus h =
    let e : bus / 2 ^ 16 / 2 ^ 16 * 2 ^ 26 % u64_mod ≡ bus / 2 ^ 16 / 2 ^ 16 * 2 ^ 26 =
      omega arith in
    rw e
      (bit_or-shift 26 (bus % 2 ^ 32 / 2 ^ 6) (bus / 2 ^ 16 / 2 ^ 16) (omega arith) ∙ omega arith)

intr_address-eq : (bus : ℕ) → bus < u64_mod → intr_address bus ≡ bus / 2 ^ 12
unfolding intr_address pci_dma_h pci_dma_l
intr_address-eq bus h =
    let e : bus / 2 ^ 16 / 2 ^ 16 * 2 ^ 20 % u64_mod ≡ bus / 2 ^ 16 / 2 ^ 16 * 2 ^ 20 =
      omega arith in
    rw e
      (bit_or-shift 20 (bus % 2 ^ 32 / 2 ^ 12) (bus / 2 ^ 16 / 2 ^ 16) (omega arith) ∙ omega arith)

wrb_numbers :
    (stat irq trig func timer cnt rng v : ℕ)
    → stat < 2
    → irq < 2
    → trig < 8
    → func < 256
    → timer < 16
    → cnt < 16
    → rng < 16
    → v < 16
    → stat
        <| (irq, 1)
        <| (trig, 2)
        <| (func, 5)
        <| (timer, 17)
        <| (cnt, 13)
        <| (1, 23)
        <| (rng, 24)
        <| (v, 28)
      ≡ stat
        + irq * 2 ^ 1
        + trig * 2 ^ 2
        + func * 2 ^ 5
        + timer * 2 ^ 17
        + cnt * 2 ^ 13
        + 1 * 2 ^ 23
        + rng * 2 ^ 24
        + v * 2 ^ 28
wrb_numbers stat irq trig func timer cnt rng v hs hi ht hf hm hc hr hv =
    let e1 = join 1 1 stat irq (omega arith) hi (omega arith) in
    let w1 = stat + irq * 2 ^ 1 in
    let e2 = join 2 3 w1 trig (omega arith) ht (omega arith) in
    let w2 = w1 + trig * 2 ^ 2 in
    let e3 = join 5 8 w2 func (omega arith) hf (omega arith) in
    let w3 = w2 + func * 2 ^ 5 in
    let e4 = join 17 4 w3 timer (omega arith) hm (omega arith) in
    let w4 = w3 + timer * 2 ^ 17 in
    let e5 = join 13 4 w4 cnt (omega arith) hc (omega arith) in
    let w5 = w4 + cnt * 2 ^ 13 in
    let e6 = join 23 1 w5 1 (omega arith) (omega arith) (omega arith) in
    let w6 = w5 + 1 * 2 ^ 23 in
    let e7 = join 24 4 w6 rng (omega arith) hr (omega arith) in
    let e8 = join 28 4 (w6 + rng * 2 ^ 24) v (omega arith) hv (omega arith) in
    rw (e1, e2, e3, e4, e5, e6, e7, e8) refl

-- What the device takes the writeback context for.
pub record WrbFields (func_id : ℕ) (q : Descq) (w0 w1 w2 w3 : ℕ) : Type 0 where
  pub en_stat_desc : w0 % 2 ≡ bit q.conf.cmpl_stat_en
  pub en_int : w0 / 2 % 2 ≡ bit q.conf.irq_en
  pub trig_mode : w0 / 2 ^ 2 % 2 ^ 3 ≡ q.conf.cmpl_trig_mode
  pub fnc_id : w0 / 2 ^ 5 % 2 ^ 8 ≡ func_id % 2 ^ 8
  pub counter_idx : w0 / 2 ^ 13 % 2 ^ 4 ≡ q.conf.cmpl_cnt_th_idx
  pub timer_idx : w0 / 2 ^ 17 % 2 ^ 4 ≡ q.conf.cmpl_timer_idx
  pub color : w0 / 2 ^ 23 % 2 ≡ 1
  pub rng_sz : w0 / 2 ^ 24 % 2 ^ 4 ≡ q.conf.cmpl_rng_sz_idx
  pub baddr : w0 / 2 ^ 28 + w1 * 2 ^ 4 + w2 % 2 ^ 22 * 2 ^ 36 ≡ q.desc_wrb_bus / 2 ^ 6
  pub desc_size : w2 / 2 ^ 22 % 2 ^ 2 ≡ q.conf.cmpl_desc_sz
  pub valid : w3 / 2 ^ 24 ≡ 1

-- The writeback context of a queue whose settings fit their fields holds each in its place, and the
-- address of the completion ring, spread over three words, comes together again.
pub make_wrb_context-WrbFields :
    (func_id : ℕ) (q : Descq)
    → q.desc_wrb_bus < u64_mod
    → q.conf.cmpl_trig_mode < 2 ^ 3
    → q.conf.cmpl_timer_idx < 2 ^ 4
    → q.conf.cmpl_cnt_th_idx < 2 ^ 4
    → q.conf.cmpl_rng_sz_idx < 2 ^ 4
    → q.conf.cmpl_desc_sz < 2 ^ 2
    → (w0 : ℕ) × (w1 : ℕ) × (w2 : ℕ) × (w3 : ℕ) × (make_wrb_context func_id q 4
        ≡ ok (w0 ∷ w1 ∷ w2 ∷ w3 ∷ []))
      × WrbFields func_id q w0 w1 w2 w3
unfolding make_wrb_context wrb_word fill
make_wrb_context-WrbFields func_id q hb ht hm hc hr hd =
    let c = q.conf in
    let bus = q.desc_wrb_bus in
    let a = wrb_address-eq bus hb in
    let bs = bit_lt c.cmpl_stat_en in
    let bi = bit_lt c.irq_en in
    let n =
      wrb_numbers (bit c.cmpl_stat_en) (bit c.irq_en) c.cmpl_trig_mode (func_id % 2 ^ 8)
        c.cmpl_timer_idx c.cmpl_cnt_th_idx c.cmpl_rng_sz_idx (wrb_address bus % 2 ^ 4 % 2 ^ 4) bs bi
        ht (omega arith) hm hc hr (omega arith) in
    let e2 =
      join 22 2 (wrb_address bus / 2 ^ 36 % 2 ^ 22) c.cmpl_desc_sz (omega arith) hd (omega arith) in
    (
      _,
      _,
      _,
      _,
      refl,
      record {
        en_stat_desc = omega (arith, n, bs, bi);
        en_int = omega (arith, n, bs, bi);
        trig_mode = omega (arith, n, bs, bi);
        fnc_id = omega (arith, n, bs, bi);
        counter_idx = omega (arith, n, bs, bi);
        timer_idx = omega (arith, n, bs, bi);
        color = omega (arith, n, bs, bi);
        rng_sz = omega (arith, n, bs, bi);
        baddr = omega (arith, n, e2, a, bs, bi);
        desc_size = omega (arith, e2);
        valid = refl;
      },
    )

-- The vector and the coalescing flag of a direction in the vector map.
unfoldable pub vector_of : Bool → ℕ → ℕ
vector_of c2h w = w / 2 ^ (if c2h then 0 else 9) % 2 ^ 8

unfoldable pub coal_of : Bool → ℕ → ℕ
coal_of c2h w = w / 2 ^ (if c2h then 8 else 17) % 2

-- The word after the coalescing bit `k` of a word was set.
set_coal : (k a : ℕ) → 2 ^ k < u32_mod → a <| (1, k) ≡ a + (1 - a / 2 ^ k % 2) * 2 ^ k
set_coal k a h =
    let e : 1 * 2 ^ k % u32_mod ≡ 2 ^ k = omega arith in
    rw e (elim (ℕ_discrete (a / 2 ^ k % 2) 0) [
      | yes z ↦ rw z (set_bit-eq-add k a z ∙ omega arith)
      | no n ↦ let o : a / 2 ^ k % 2 ≡ 1 = omega arith in rw o (set_bit_again k a o ∙ omega arith)
    ])

-- Mapping a direction of a queue to a vector leaves the other direction's vector and flag alone. Its
-- own flag is set with coalescing, and otherwise keeps the value it had.
pub set_vector_fields :
    (c2h intr_coal_en : Bool) (index w : ℕ)
    → index < 2 ^ 8
    → w < u32_mod
    → let w' = set_vector c2h intr_coal_en index w in
      (vector_of c2h w' ≡ index)
      × (coal_of c2h w' ≡ (if intr_coal_en then 1 else coal_of c2h w))
      × (vector_of (not c2h) w' ≡ vector_of (not c2h) w)
      × (coal_of (not c2h) w' ≡ coal_of (not c2h) w)
unfolding set_vector vector_of coal_of
set_vector_fields true true index w h l =
    let a = w - w / 2 ^ 0 % 2 ^ 8 * 2 ^ 0 in
    let e1 = set_coal 8 a (omega arith) in
    let e2 = join 0 8 (a + (1 - a / 2 ^ 8 % 2) * 2 ^ 8) index (omega arith) h (omega arith) in
    rw (e1, e2) (omega arith, omega arith, omega arith, omega arith)
set_vector_fields true false index w h l =
    let a = w - w / 2 ^ 0 % 2 ^ 8 * 2 ^ 0 in
    let e2 = join 0 8 a index (omega arith) h (omega arith) in
    rw e2 (omega arith, omega arith, omega arith, omega arith)
set_vector_fields false true index w h l =
    let a = w - w / 2 ^ 9 % 2 ^ 8 * 2 ^ 9 in
    let e1 = set_coal 17 a (omega arith) in
    let e2 = join 9 8 (a + (1 - a / 2 ^ 17 % 2) * 2 ^ 17) index (omega arith) h (omega arith) in
    rw (e1, e2) (omega arith, omega arith, omega arith, omega arith)
set_vector_fields false false index w h l =
    let a = w - w / 2 ^ 9 % 2 ^ 8 * 2 ^ 9 in
    let e2 = join 9 8 a index (omega arith) h (omega arith) in
    rw e2 (omega arith, omega arith, omega arith, omega arith)

-- The two words of an interrupt ring's context, for a ring below 2 ^ 36: its vector and the low part
-- of its address are in place, but the code of the ring's size is added to the high part, so the
-- address that the device takes is another one unless the code is zero.
pub make_intr_words_address :
    (intr_rngsz : ℕ) (entry : IntrCoal)
    → entry.intr_ring_bus < 2 ^ 36
    → entry.vec_id < 2 ^ 6
    → intr_rngsz < 2 ^ 6
    → let (w0, w1) = make_intr_words intr_rngsz entry in
      (w0 / 2 % 2 ^ 6 ≡ entry.vec_id)
      × (w0 / 2 ^ 9 + w1 % 2 ^ 29 * 2 ^ 23 ≡ entry.intr_ring_bus / 2 ^ 12 + intr_rngsz * 2 ^ 24)
unfolding make_intr_words
make_intr_words_address intr_rngsz entry hb hv hr =
    let a = intr_address-eq entry.intr_ring_bus (omega arith) in
    let v = entry.vec_id in
    let lo = intr_address entry.intr_ring_bus % 2 ^ 23 in
    let e1 = join 1 6 1 v (omega arith) hv (omega arith) in
    let e2 = join 9 23 (1 + v * 2 ^ 1) lo (omega arith) (omega arith) (omega arith) in
    let e3 = join 8 1 (1 + v * 2 ^ 1 + lo * 2 ^ 9) 1 (omega arith) (omega arith) (omega arith) in
    let hi = intr_address entry.intr_ring_bus / 2 ^ 23 % 2 ^ 29 in
    let e4 = join 1 6 hi intr_rngsz (omega (arith, a)) hr (omega arith) in
    rw (e1, e2, e3, e4) (omega arith, omega (arith, a))
