-- ===== src/Sriov/Session.antt =====
-- The requests of a virtual function, from its arrival to its departure.
use qdmav.Prelude.{ℕ, zero, suc, ◌+◌, ◌-◌, ◌*◌, ◌^◌, ◌<◌, ◌≤◌, arith}
use qdmav.Sriov.{Sriov, default_qbase, q_per_vf_max, pf_max}

-- The first queue that a function with the number `src` gets: the one it asks for, or where it leaves
-- the choice the start of its share of eight queues behind those of the physical functions, whose
-- functions have the numbers below 4.
abbrev pub first_queue : ℕ → ℕ → ℕ → ℕ → ℕ
first_queue base max src zero = base + max + 8 * (src - 4)
first_queue base max src (suc qbase) = suc qbase

-- The choice is within the queues' numbers.
abbrev pub IsAsked : ℕ → ℕ → ℕ → ℕ → Type 0
IsAsked base max src zero = (4 ≤ src) × (src < 2 ^ 16) × (base + max + 8 * (src - 4) < 2 ^ 16)
IsAsked base max src (suc qbase) = suc qbase < 2 ^ 16

-- Two virtual functions that leave the choice to the physical function get ranges of queues that do
-- not overlap, above the queues of the physical function.
pub default_qbase_disjoint :
    (base max a b : ℕ)
    → base + max < 2 ^ 16
    → pf_max ≤ a
    → a < b
    → b < 2 ^ 8
    → (base + max ≤ default_qbase base max a)
      × (default_qbase base max a + q_per_vf_max ≤ default_qbase base max b)
unfolding default_qbase
default_qbase_disjoint base max a b h l m n = (omega arith, omega arith)
