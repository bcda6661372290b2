-- ===== src/Ring.antt =====
-- The index arithmetic of a descriptor ring: libqdma/qdma_descq.h.
pub mod Laws
use qdmav.Prelude.{ℕ, ◌-◌, ltb, leb, add32, sub32, if◌then◌else◌}

-- Entries from `old` up to `new`.
unfoldable pub ring_idx_delta : ℕ → ℕ → ℕ → ℕ
ring_idx_delta new old rngsz = if leb old new then new - old else add32 new (sub32 rngsz old)

unfoldable pub ring_idx_incr : ℕ → ℕ → ℕ → ℕ
ring_idx_incr idx cnt rngsz = let i = add32 idx cnt in if leb rngsz i then i - rngsz else i

unfoldable pub ring_idx_decr : ℕ → ℕ → ℕ → ℕ
ring_idx_decr idx cnt rngsz = if leb cnt idx then idx - cnt else sub32 rngsz (cnt - idx)
