-- ===== src/Ring/Laws.antt =====
-- Laws of the ring index arithmetic, for rings of at most 2^31 entries.
use native.Mathlib.Nat.{mod-eq_of_lt, mod-eq-sub-mod}
use native.Mathlib.Decide.{dec_lt}
use qdmav.Prelude.{ℕ, ◌+◌, ◌-◌, ◌%◌, ◌^◌, ◌≤◌, ◌<◌, ◌≡◌, arith}
use qdmav.Ring.{ring_idx_delta, ring_idx_incr, ring_idx_decr}

-- The largest ring for which no index addition wraps.
abbrev pub ring_max : ℕ
ring_max = 2 ^ 31

-- The number of entries between an index and the one `cnt` steps further is `cnt`.
pub delta-incr :
    (idx cnt rngsz : ℕ)
    → rngsz ≤ ring_max
    → idx < rngsz
    → cnt < rngsz
    → (ring_idx_delta (ring_idx_incr idx cnt rngsz) idx rngsz ≡ cnt)
      × (ring_idx_incr idx cnt rngsz < rngsz)
unfolding ring_idx_delta ring_idx_incr
delta-incr idx cnt rngsz hr hi hc = ground arith

-- Stepping from `old` by the distance to `new` arrives at `new`, and the distance is below the
-- ring's size.
pub incr-delta :
    (new old rngsz : ℕ)
    → rngsz ≤ ring_max
    → new < rngsz
    → old < rngsz
    → (ring_idx_incr old (ring_idx_delta new old rngsz) rngsz ≡ new)
      × (ring_idx_delta new old rngsz < rngsz)
unfolding ring_idx_delta ring_idx_incr
incr-delta new old rngsz hr hn ho = ground arith

-- Going back undoes going on, and going on undoes going back; both stay on the ring.
pub decr-incr :
    (idx cnt rngsz : ℕ)
    → rngsz ≤ ring_max
    → idx < rngsz
    → cnt < rngsz
    → (ring_idx_decr (ring_idx_incr idx cnt rngsz) cnt rngsz ≡ idx)
      × (ring_idx_incr (ring_idx_decr idx cnt rngsz) cnt rngsz ≡ idx)
unfolding ring_idx_decr ring_idx_incr
decr-incr idx cnt rngsz hr hi hc = ground arith

-- A step by `cnt` is addition modulo the size of the ring.
pub incr-eq-mod :
    (idx cnt rngsz : ℕ)
    → rngsz ≤ ring_max
    → idx < rngsz
    → cnt < rngsz
    → ring_idx_incr idx cnt rngsz ≡ (idx + cnt) % rngsz
unfolding ring_idx_incr
incr-eq-mod idx cnt rngsz hr hi hc = elim (dec_lt (idx + cnt) rngsz) [
  | yes p ↦ ground (arith, mod-eq_of_lt p)
  | no p ↦ ground (
    arith,
    mod-eq-sub-mod {n = idx + cnt} {m = rngsz} (omega arith),
    mod-eq_of_lt {n = idx + cnt - rngsz} {m = rngsz} (omega arith),
  )
]

-- Two steps are one step.
pub incr-incr :
    (idx a b rngsz : ℕ)
    → rngsz ≤ ring_max
    → idx < rngsz
    → a + b < rngsz
    → ring_idx_incr (ring_idx_incr idx a rngsz) b rngsz ≡ ring_idx_incr idx (a + b) rngsz
unfolding ring_idx_incr
incr-incr idx a b rngsz hr hi hc = ground arith

-- An index that steps on by `n`, without reaching `old`, is `n` further from `old`.
pub delta-incr_add :
    (idx old n rngsz : ℕ)
    → rngsz ≤ ring_max
    → idx < rngsz
    → old < rngsz
    → ring_idx_delta idx old rngsz + n < rngsz
    → (ring_idx_delta (ring_idx_incr idx n rngsz) old rngsz ≡ ring_idx_delta idx old rngsz + n)
      × (ring_idx_incr idx n rngsz < rngsz)
unfolding ring_idx_delta ring_idx_incr
delta-incr_add idx old n rngsz hr hi ho h = ground arith

-- When `old` follows to `mid`, no further than `new`, the distance to `new` shrinks by its step.
pub delta-advance :
    (new old mid rngsz : ℕ)
    → rngsz ≤ ring_max
    → new < rngsz
    → old < rngsz
    → mid < rngsz
    → ring_idx_delta mid old rngsz ≤ ring_idx_delta new old rngsz
    → ring_idx_delta new mid rngsz + ring_idx_delta mid old rngsz ≡ ring_idx_delta new old rngsz
unfolding ring_idx_delta
delta-advance new old mid rngsz hr hn ho hm h = ground arith

pub incr-zero : (idx rngsz : ℕ) → rngsz ≤ ring_max → idx < rngsz → ring_idx_incr idx 0 rngsz ≡ idx
unfolding ring_idx_incr
incr-zero idx rngsz hr hi = ground arith
