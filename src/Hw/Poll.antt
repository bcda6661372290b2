-- ===== src/Hw/Poll.antt =====
-- Waiting for a register: `hw_monitor_reg` of libqdma/qdma_regs.c.
use Prim.Native.Nat.{bit_and}
use native.Mathlib.Nat.{le-div_iff_mul-le}
use qdmav.Prelude.{ℕ, zero, suc, ◌/◌, ◌≤◌, ◌<◌, ◌≡◌, refl, ◌∙◌, arith, false, ◌==◌}
use qdmav.Prelude.Errors.{ebusy, Result, ok, err}
use qdmav.Hw.{Hw, poll, hw_monitor_reg}

ne_test : {a b : ℕ} → ¬ (a ≡ b) → (a == b) ≡ false
ne_test h = ground arith

module _ {ℓ} {S : Type ℓ} (hw : Hw S) (reg mask val : ℕ) where
  -- The state after `k` reads of the register, and what the next read shows.
  unfoldable pub after : ℕ → S → S
  after zero s = s
  after (suc k) s = after k (hw.read_reg reg s).1

  unfoldable pub Shows : ℕ → S → Type 0
  Shows k s = bit_and (hw.read_reg reg (after k s)).0 mask ≡ val

  pub poll-ready :
      (n k : ℕ) (s : S)
      → k ≤ n
      → Shows k s
      → ((m : ℕ) → m < k → ¬ Shows m s)
      → poll hw n reg mask val s ≡ (ok 1, after (suc k) s)
  unfolding poll after Shows
  poll-ready zero zero s h r b = ground arith
  poll-ready zero (suc k) s h r b = absurd (omega arith)
  poll-ready (suc n) zero s h r b = ground arith
  poll-ready (suc n) (suc k) s h r b =
      let f : (bit_and (hw.read_reg reg s).0 mask == val) ≡ false = ne_test (b 0 (omega arith)) in
      rw (poll, f)
        (poll-ready n k (hw.read_reg reg s).1 (omega arith) r (λ m l. b (suc m) (omega arith)))

  pub poll-busy :
      (n : ℕ) (s : S)
      → ((m : ℕ) → m ≤ n → ¬ Shows m s)
      → poll hw n reg mask val s ≡ (err ebusy, after (suc n) s)
  unfolding poll after Shows
  poll-busy zero s b =
      let f : (bit_and (hw.read_reg reg s).0 mask == val) ≡ false = ne_test (b 0 (omega arith)) in
      rw (poll, f) refl
  poll-busy (suc n) s b =
      let f : (bit_and (hw.read_reg reg s).0 mask == val) ≡ false = ne_test (b 0 (omega arith)) in
      rw (poll, f) (poll-busy n (hw.read_reg reg s).1 (λ m l. b (suc m) (omega arith)))

  hw_monitor_reg-eq-poll :
      (interval timeout : ℕ) (s : S)
      → 0 < interval
      → interval ≤ timeout
      → hw_monitor_reg hw reg mask val interval timeout s
        ≡ poll hw (timeout / interval) reg mask val s
  unfolding hw_monitor_reg
  hw_monitor_reg-eq-poll interval timeout s hi ht =
      let some_wait : 1 ≤ timeout / interval = (le-div_iff_mul-le hi).1 (omega arith) in
      let fi : (interval == 0) ≡ false = ne_test (omega arith) in
      let ft : (timeout == 0) ≡ false = ne_test (omega arith) in
      let fc : (timeout / interval == 0) ≡ false = ne_test (omega (arith, some_wait)) in
      rw (fi, ft, fc) refl

  -- How a wait of at most `n` reads after the first ends: after `k` reads that do not show the value.
  pub data Ends (n : ℕ) (s : S) : ℕ → Result ℕ → Type 0 where
    shown : {k : ℕ} → k ≤ n → Shows k s → ((m : ℕ) → m < k → ¬ Shows m s) → Ends n s k (ok 1)
    timed_out : ((m : ℕ) → m ≤ n → ¬ Shows m s) → Ends n s n (err ebusy)

  -- A wait that is given an interval and a timeout no shorter ends with success at the first read
  -- that shows the value, where that is among the first and one more for each interval in the
  -- timeout, and otherwise with EBUSY after exactly so many reads.
  pub hw_monitor_reg-Ends :
      (interval timeout k : ℕ) (s : S) (rv : Result ℕ)
      → 0 < interval
      → interval ≤ timeout
      → Ends (timeout / interval) s k rv
      → hw_monitor_reg hw reg mask val interval timeout s ≡ (rv, after (suc k) s)
  hw_monitor_reg-Ends interval timeout k s _ hi ht (shown h r b) =
      hw_monitor_reg-eq-poll interval timeout s hi ht ∙ poll-ready (timeout / interval) k s h r b
  hw_monitor_reg-Ends interval timeout k s _ hi ht (timed_out b) =
      hw_monitor_reg-eq-poll interval timeout s hi ht ∙ poll-busy (timeout / interval) s b
