-- ===== src/C2h/Ctrl/ReadBack.antt =====
-- What is read back of a completion control that was set.
use Prim.Native.Nat.{bit_or, max}
use qdmav.Prelude.{
  ℕ, zero, suc, ◌+◌, ◌*◌, ◌/◌, ◌%◌, ◌^◌, ◌≡◌, ◌<◌, refl, ap, ◌∙◌, arith, Bool, true, false, bit,
  ◌==◌, [], ◌∷◌, ◌++◌,
}
use qdmav.Prelude.BitOps.{bit_or-shift, bit_or_step, bit_or_comm}
use Prim.Native.Nat.pow
use qdmav.Hw.{Hw}
use qdmav.Descq.{Descq, emit}
use qdmav.Descq.Events.{write_reg, wrb_cidx_base, pidx_step}
use qdmav.Descq.Update.{wrb_cidx_word, descq_wrb_cidx_update}
use qdmav.C2h.Ctrl.{CmplCtrl, configured, cmpl_ctrl_set, ctrl_of, cmpl_ctrl_get}

double : (a b : ℕ) → bit_or (a * 2) (b * 2) ≡ bit_or a b * 2
double a b =
    let x : a * 2 / 2 ≡ a = omega arith in
    let y : b * 2 / 2 ≡ b = omega arith in
    let e : bit_or (a * 2) (b * 2) ≡ bit_or a b * 2 + max (a * 2 % 2) (b * 2 % 2) =
      rw (x, y) at (bit_or_step (a * 2) (b * 2)) in
    omega (arith, e)

shifted : (k a b : ℕ) → bit_or (a * 2 ^ k) (b * 2 ^ k) ≡ bit_or a b * 2 ^ k
shifted zero a b =
    let x : a * 1 ≡ a = omega arith in let y : b * 1 ≡ b = omega arith in rw (x, y) (omega arith)
shifted (suc k) a b =
    let p : 2 ^ suc k ≡ 2 * 2 ^ k = grind (arith, pow.suc) in
    let x : a * 2 ^ suc k ≡ a * 2 ^ k * 2 = rw p (omega arith) in
    let y : b * 2 ^ suc k ≡ b * 2 ^ k * 2 = rw p (omega arith) in
    let z : bit_or a b * 2 ^ suc k ≡ bit_or a b * 2 ^ k * 2 = rw p (omega arith) in
    rw (x, y, z) (double (a * 2 ^ k) (b * 2 ^ k) ∙ ap (λ (m : ℕ). m * 2) (shifted k a b))

-- What is joined fits where its parts fit.
bit_or-lt : (k a b : ℕ) → a < 2 ^ k → b < 2 ^ k → bit_or a b < 2 ^ k
bit_or-lt zero a b h g =
    let x : a ≡ 0 = omega arith in let y : b ≡ 0 = omega arith in rw (x, y) (omega arith)
bit_or-lt (suc k) a b h g =
    let p : 2 ^ suc k ≡ 2 * 2 ^ k = grind (arith, pow.suc) in
    omega (
      arith,
      p,
      bit_or_step a b,
      bit_or-lt k (a / 2) (b / 2) (omega (arith, p, h)) (omega (arith, p, g)),
    )

above : (k low v : ℕ) → low < 2 ^ k → bit_or (v * 2 ^ k) low ≡ low + v * 2 ^ k
above k low v h = bit_or_comm (v * 2 ^ k) low ∙ bit_or-shift k low v h

bit_lt : (b : Bool) → bit b < 2
bit_lt true = omega arith
bit_lt false = omega arith

word-sum :
    (c : CmplCtrl) (q : Descq) (cidx : ℕ)
    → cidx < 2 ^ 16
    → c.trigger_mode < 2 ^ 3
    → c.timer_idx < 2 ^ 4
    → c.cnt_th_idx < 2 ^ 4
    → wrb_cidx_word (configured c q).conf cidx
      ≡ cidx
        + (bit_or c.timer_idx c.cnt_th_idx
            + c.trigger_mode * 2 ^ 4
            + bit c.en_stat_desc * 2 ^ 7
            + bit c.cmpl_en_intr * 2 ^ 8)
          * 2 ^ 20
unfolding wrb_cidx_word configured
word-sum c q cidx hi ht hm hc =
    let t = bit_or c.timer_idx c.cnt_th_idx in
    let ft : t < 2 ^ 4 = bit_or-lt 4 c.timer_idx c.cnt_th_idx hm hc in
    let stat = bit c.en_stat_desc in
    let irq = bit c.cmpl_en_intr in
    let fs = bit_lt c.en_stat_desc in
    let x1 = t * 2 ^ 20 + c.trigger_mode * 2 ^ 24 in
    let x2 = x1 + stat * 2 ^ 27 in
    let x3 = t + c.trigger_mode * 2 ^ 4 + stat * 2 ^ 7 + irq * 2 ^ 8 in
    let all : x2 + irq * 2 ^ 28 ≡ x3 * 2 ^ 20 = omega arith in
    rw
      (
        shifted 20 c.timer_idx c.cnt_th_idx,
        above 24 (t * 2 ^ 20) c.trigger_mode (omega arith),
        above 27 x1 stat (omega arith),
        above 28 x2 irq (omega arith),
        all,
      )
      (bit_or-shift 20 cidx x3 (omega arith))

bit-eq : (b : Bool) → (bit b == 1) ≡ b
bit-eq true = refl
bit-eq false = refl

ctrl_of-word :
    (c : CmplCtrl) (v cidx t : ℕ)
    → cidx < 2 ^ 16
    → c.trigger_mode < 2 ^ 3
    → t < 2 ^ 4
    → v
      ≡ cidx
        + (t + c.trigger_mode * 2 ^ 4 + bit c.en_stat_desc * 2 ^ 7 + bit c.cmpl_en_intr * 2 ^ 8)
          * 2 ^ 20
    → ctrl_of v ≡ record c { cnt_th_idx = 0; timer_idx = t }
unfolding ctrl_of
ctrl_of-word c v cidx t hi ht hm e =
    let fs = bit_lt c.en_stat_desc in
    let fi = bit_lt c.cmpl_en_intr in
    let cnt : v / 2 ^ 16 % 2 ^ 4 ≡ 0 = omega arith in
    let tmr : v / 2 ^ 20 % 2 ^ 4 ≡ t = omega arith in
    let trig : v / 2 ^ 24 % 2 ^ 3 ≡ c.trigger_mode = omega arith in
    let stat : v / 2 ^ 27 % 2 ≡ bit c.en_stat_desc = omega arith in
    let irq : v / 2 ^ 28 % 2 ≡ bit c.cmpl_en_intr = omega arith in
    rw (cnt, tmr, trig, stat, irq, bit-eq c.en_stat_desc, bit-eq c.cmpl_en_intr) refl

-- A control that is set reaches the register in one write. From a device that shows what was
-- written, the trigger and the two flags are read back as they were set; the counter's index is
-- read back as 0, and the timer's index is joined with it.
pub cmpl_ctrl_get-set {ℓ} :
    {S : Type ℓ} (hw : Hw S) (c : CmplCtrl) (q : Descq) (s : S)
    → let q' = cmpl_ctrl_set c q in
      let reg = wrb_cidx_base + q.conf.qidx * pidx_step in
      let w = wrb_cidx_word q'.conf q.cidx_wrb_pend in
      q.cidx_wrb_pend < 2 ^ 16
      → c.trigger_mode < 2 ^ 3
      → c.timer_idx < 2 ^ 4
      → c.cnt_th_idx < 2 ^ 4
      → hw.read_reg reg s ≡ (w, s)
      → (q'.events ≡ q.events ++ (write_reg reg w ∷ []))
        × ((cmpl_ctrl_get hw q' s).0
            ≡ record c { cnt_th_idx = 0; timer_idx = bit_or c.timer_idx c.cnt_th_idx })
unfolding cmpl_ctrl_set cmpl_ctrl_get descq_wrb_cidx_update emit configured ctrl_of
cmpl_ctrl_get-set hw c q s hi ht hm hc shown =
    let ft = bit_or-lt 4 c.timer_idx c.cnt_th_idx hm hc in
    (
      refl,
      rw shown
          (ctrl_of-word c _ q.cidx_wrb_pend _ hi ht ft (word-sum c q q.cidx_wrb_pend hi ht hm hc)),
    )
