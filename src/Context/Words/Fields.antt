-- ===== src/Context/Words/Fields.antt =====
-- What the device reads out of the contexts' words.
use qdmav.Prelude.{
  ℕ, ◌+◌, ◌*◌, ◌/◌, ◌%◌, ◌^◌, ◌<◌, ◌≡◌, refl, arith, Bool, true, false, ◌&&◌, bit, u32_mod,
  Bool-cases, inl, inr, if◌then◌else◌,
}
use qdmav.Prelude.BitOps.{bit_or-field}
use qdmav.Descq.{Descq}
use qdmav.Context.Words.{◌<|◌, sw_word}

pub bit_lt : (b : Bool) → bit b < 2
bit_lt true = omega arith
bit_lt false = omega arith

-- Joining a field that is clear, of a word that stays within 32 bits.
pub join :
    (k w a v : ℕ)
    → a / 2 ^ k % 2 ^ w ≡ 0
    → v < 2 ^ w
    → v * 2 ^ k < u32_mod
    → a <| (v, k) ≡ a + v * 2 ^ k
join k w a v h l b =
    let e : v * 2 ^ k % u32_mod ≡ v * 2 ^ k = omega arith in rw e (bit_or-field k w a v h l)

sw_base :
    (func rng acc chk byp wbk irq : ℕ)
    → func < 256
    → rng < 16
    → acc < 2
    → chk < 2
    → byp < 2
    → wbk < 2
    → irq < 2
    → 1 <| (rng, 12) <| (acc, 3) <| (chk, 2) <| (func, 4) <| (byp, 18) <| (wbk, 20) <| (irq, 21)
      ≡ 1
        + rng * 2 ^ 12
        + acc * 2 ^ 3
        + chk * 2 ^ 2
        + func * 2 ^ 4
        + byp * 2 ^ 18
        + wbk * 2 ^ 20
        + irq * 2 ^ 21
sw_base func rng acc chk byp wbk irq hf hr ha hc hb hw hi =
    let e1 = join 12 4 1 rng (omega arith) hr (omega arith) in
    let e2 = join 3 1 (1 + rng * 2 ^ 12) acc (omega arith) ha (omega arith) in
    let e3 = join 2 1 (1 + rng * 2 ^ 12 + acc * 2 ^ 3) chk (omega arith) hc (omega arith) in
    let e4 =
      join 4 8 (1 + rng * 2 ^ 12 + acc * 2 ^ 3 + chk * 2 ^ 2) func (omega arith) hf (omega arith) in
    let e5 =
      join 18 1 (1 + rng * 2 ^ 12 + acc * 2 ^ 3 + chk * 2 ^ 2 + func * 2 ^ 4) byp (omega arith) hb
        (omega arith) in
    let e6 =
      join 20 1 (1 + rng * 2 ^ 12 + acc * 2 ^ 3 + chk * 2 ^ 2 + func * 2 ^ 4 + byp * 2 ^ 18) wbk
        (omega arith) hw (omega arith) in
    let e7 =
      join 21 1
        (1 + rng * 2 ^ 12 + acc * 2 ^ 3 + chk * 2 ^ 2 + func * 2 ^ 4 + byp * 2 ^ 18 + wbk * 2 ^ 20)
        irq (omega arith) hi (omega arith) in
    rw (e1, e2, e3, e4, e5, e6, e7) refl

-- The size of a descriptor, as its two-bit code.
unfoldable pub desc_size : Bool → Bool → ℕ
desc_size false c2h = 2
desc_size true true = 0
desc_size true false = 1

-- The word without the two fields that depend on the mode.
unfoldable common : ℕ → Descq → ℕ
common func_id q =
    let c = q.conf in
    1
    + c.desc_rng_sz_idx * 2 ^ 12
    + bit c.wbk_acc_en * 2 ^ 3
    + bit c.wbk_pend_chk * 2 ^ 2
    + func_id * 2 ^ 4
    + bit c.bypass * 2 ^ 18
    + bit c.wbk_en * 2 ^ 20
    + bit c.irq_en * 2 ^ 21

common_clear :
    (func rng acc chk byp wbk irq : ℕ)
    → func < 256
    → rng < 16
    → acc < 2
    → chk < 2
    → byp < 2
    → let w =
        1
        + rng * 2 ^ 12
        + acc * 2 ^ 3
        + chk * 2 ^ 2
        + func * 2 ^ 4
        + byp * 2 ^ 18
        + wbk * 2 ^ 20
        + irq * 2 ^ 21 in
      (w / 2 ^ 1 % 2 ^ 1 ≡ 0) × (w / 2 ^ 16 % 2 ^ 2 ≡ 0) × (w / 2 ^ 19 % 2 ^ 1 ≡ 0)
common_clear func rng acc chk byp wbk irq hf hr ha hc hb = (omega arith, omega arith, omega arith)

sw_word-sum :
    (func_id : ℕ) (q : Descq)
    → func_id < 2 ^ 8
    → q.conf.desc_rng_sz_idx < 2 ^ 4
    → q.channel < 2
    → let st = q.conf.st in
      let c2h = q.conf.c2h in
      let fcrd = if st && c2h then bit q.conf.fetch_credit else 0 in
      let chn = if st then 0 else q.channel in
      sw_word func_id q ≡ common func_id q + fcrd * 2 + desc_size st c2h * 2 ^ 16 + chn * 2 ^ 19
unfolding sw_word common desc_size
sw_word-sum func_id q hf hr hc =
    let c = q.conf in
    let w = common func_id q in
    let ba = bit_lt c.wbk_acc_en in
    let bc = bit_lt c.wbk_pend_chk in
    let bb = bit_lt c.bypass in
    let bf = bit_lt c.fetch_credit in
    let e =
      sw_base func_id c.desc_rng_sz_idx (bit c.wbk_acc_en) (bit c.wbk_pend_chk) (bit c.bypass)
        (bit c.wbk_en) (bit c.irq_en) hf hr ba bc bb (bit_lt c.wbk_en) (bit_lt c.irq_en) in
    let (z1, z16, z19) =
      common_clear func_id c.desc_rng_sz_idx (bit c.wbk_acc_en) (bit c.wbk_pend_chk) (bit c.bypass)
        (bit c.wbk_en) (bit c.irq_en) hf hr ba bc bb in
    elim (Bool-cases c.st) [
      | inl st ↦ elim (Bool-cases c.c2h) [
        | inl c2h ↦ rw (st, c2h, e) (st_c2h w (bit c.fetch_credit) z1 z16 bf)
        | inr h2c ↦ rw (st, h2c, e) (st_h2c w z16)
      ]
      | inr mm ↦ rw (mm, e) (mm_word w q.channel z16 z19 hc)
    ]
  where
    st_c2h :
        (w f : ℕ)
        → w / 2 ^ 1 % 2 ^ 1 ≡ 0
        → w / 2 ^ 16 % 2 ^ 2 ≡ 0
        → f < 2
        → w <| (f, 1) <| (0, 16) ≡ w + f * 2 + 0 * 2 ^ 16 + 0 * 2 ^ 19
    st_c2h w f z1 z16 l =
        let f1 = join 1 1 w f z1 l (omega arith) in
        let f2 = join 16 2 (w + f * 2 ^ 1) 0 (omega arith) (omega arith) (omega arith) in
        rw (f1, f2) (omega arith)

    st_h2c : (w : ℕ) → w / 2 ^ 16 % 2 ^ 2 ≡ 0 → w <| (1, 16) ≡ w + 0 * 2 + 1 * 2 ^ 16 + 0 * 2 ^ 19
    st_h2c w z16 = let f1 = join 16 2 w 1 z16 (omega arith) (omega arith) in rw f1 (omega arith)

    mm_word :
        (w chn : ℕ)
        → w / 2 ^ 16 % 2 ^ 2 ≡ 0
        → w / 2 ^ 19 % 2 ^ 1 ≡ 0
        → chn < 2
        → w <| (2, 16) <| (chn, 19) ≡ w + 0 * 2 + 2 * 2 ^ 16 + chn * 2 ^ 19
    mm_word w chn z16 z19 l =
        let f1 = join 16 2 w 2 z16 (omega arith) (omega arith) in
        let f2 = join 19 1 (w + 2 * 2 ^ 16) chn (omega arith) l (omega arith) in
        rw (f1, f2) (omega arith)

-- What the device takes the software context's second word for.
pub record SwFields (func_id : ℕ) (q : Descq) (w : ℕ) : Type 0 where
  pub qen : w % 2 ≡ 1
  pub fcrd_en : w / 2 % 2 ≡ (if q.conf.st && q.conf.c2h then bit q.conf.fetch_credit else 0)
  pub wbi_chk : w / 2 ^ 2 % 2 ≡ bit q.conf.wbk_pend_chk
  pub wb_acc_en : w / 2 ^ 3 % 2 ≡ bit q.conf.wbk_acc_en
  pub func : w / 2 ^ 4 % 2 ^ 8 ≡ func_id
  pub rng_sz : w / 2 ^ 12 % 2 ^ 4 ≡ q.conf.desc_rng_sz_idx
  pub dsc_sz : w / 2 ^ 16 % 2 ^ 2 ≡ desc_size q.conf.st q.conf.c2h
  pub byp : w / 2 ^ 18 % 2 ≡ bit q.conf.bypass
  pub mm_chn : w / 2 ^ 19 % 2 ≡ (if q.conf.st then 0 else q.channel)
  pub wbk_en : w / 2 ^ 20 % 2 ≡ bit q.conf.wbk_en
  pub irq_en : w / 2 ^ 21 % 2 ≡ bit q.conf.irq_en
  pub rest : w / 2 ^ 22 ≡ 0

desc_size_lt : (st c2h : Bool) → desc_size st c2h < 3
unfolding desc_size
desc_size_lt false c2h = omega arith
desc_size_lt true true = omega arith
desc_size_lt true false = omega arith

if_lt : (b : Bool) (x : ℕ) → x < 2 → (if b then x else 0) < 2
if_lt true x l = l
if_lt false x l = omega arith

unless_lt : (b : Bool) (x : ℕ) → x < 2 → (if b then 0 else x) < 2
unless_lt true x l = omega arith
unless_lt false x l = l

-- The software context of a queue whose settings fit their fields holds each in its place, and
-- nothing else.
pub sw_word-SwFields :
    (func_id : ℕ) (q : Descq)
    → func_id < 2 ^ 8
    → q.conf.desc_rng_sz_idx < 2 ^ 4
    → q.channel < 2
    → SwFields func_id q (sw_word func_id q)
unfolding common
sw_word-SwFields func_id q hf hr hc =
    let c = q.conf in
    let e = sw_word-sum func_id q hf hr hc in
    let ba = bit_lt c.wbk_acc_en in
    let bc = bit_lt c.wbk_pend_chk in
    let bb = bit_lt c.bypass in
    let bw = bit_lt c.wbk_en in
    let bi = bit_lt c.irq_en in
    let bf = if_lt (c.st && c.c2h) (bit c.fetch_credit) (bit_lt c.fetch_credit) in
    let bd = desc_size_lt c.st c.c2h in
    let bn = unless_lt c.st q.channel hc in
    rw e (record {
      qen = omega (arith, ba, bc, bb, bw, bi, bf, bd, bn);
      fcrd_en = omega (arith, ba, bc, bb, bw, bi, bf, bd, bn);
      wbi_chk = omega (arith, ba, bc, bb, bw, bi, bf, bd, bn);
      wb_acc_en = omega (arith, ba, bc, bb, bw, bi, bf, bd, bn);
      func = omega (arith, ba, bc, bb, bw, bi, bf, bd, bn);
      rng_sz = omega (arith, ba, bc, bb, bw, bi, bf, bd, bn);
      dsc_sz = omega (arith, ba, bc, bb, bw, bi, bf, bd, bn);
      byp = omega (arith, ba, bc, bb, bw, bi, bf, bd, bn);
      mm_chn = omega (arith, ba, bc, bb, bw, bi, bf, bd, bn);
      wbk_en = omega (arith, ba, bc, bb, bw, bi, bf, bd, bn);
      irq_en = omega (arith, ba, bc, bb, bw, bi, bf, bd, bn);
      rest = omega (arith, ba, bc, bb, bw, bi, bf, bd, bn);
    })
