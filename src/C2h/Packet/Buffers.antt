-- ===== src/C2h/Packet/Buffers.antt =====
-- The receive buffers that a packet takes.
use native.Mathlib.Nat.{div-mul-le_self, lt-div-mul-add, one-le-pow}
use qdmav.Prelude.{
  ℕ, zero, suc, ◌+◌, ◌-◌, ◌*◌, ◌/◌, ◌^◌, ◌≤◌, ◌<◌, ◌≡◌, ap, ◌∙◌, arith, false, add32, ◌==◌,
  Bool-cases, inl, inr,
}
use qdmav.Prelude.Errors.{Result, ok}
use qdmav.Ring.{ring_idx_incr}
use qdmav.Ring.Laws.{ring_max, incr-incr}
use qdmav.Descq.{Descq}
use qdmav.C2h.Flq.{Flq}
use qdmav.C2h.Packet.{buffers_of, rcv_pkt, keep_packet, set_last_len}

cover :
    (b len : ℕ) → 0 < b → 0 < len → let n = (len + (b - 1)) / b in (len ≤ n * b) × (n * b < len + b)
cover b len p l = (
  omega (arith, lt-div-mul-add {a = len + (b - 1)} p),
  omega (arith, div-mul-le_self (len + (b - 1)) b, p),
)

positive : (n b len : ℕ) → 0 < len → len ≤ n * b → 0 < n
positive zero b len l h = absurd (omega (arith, h, l))
positive (suc n) b len l h = omega arith

-- The buffers of a packet hold it, and one fewer would not hold a packet that has bytes.
buffers_cover :
    (pg_shift len : ℕ)
    → len + 2 ^ pg_shift < 2 ^ 32
    → let n = buffers_of pg_shift len in
      (0 < n) × (len ≤ n * 2 ^ pg_shift) × (0 < len → n * 2 ^ pg_shift < len + 2 ^ pg_shift)
unfolding buffers_of
buffers_cover pg_shift len u =
    let b : 0 < 2 ^ pg_shift = omega (arith, one-le-pow pg_shift 2 (omega arith)) in
    elim (Bool-cases (len == 0)) [
      | inl z ↦
          let e : len ≡ 0 = ground arith in
          rw z (omega arith, omega (arith, e), λ l. absurd (omega (arith, e, l)))
      | inr nz ↦
          let l : 0 < len = ground arith in
          let (c, d) = cover (2 ^ pg_shift) len b l in
          let e : add32 len (2 ^ pg_shift - 1) ≡ len + (2 ^ pg_shift - 1) = omega (arith, u, b) in
          rw (nz, e) (positive _ (2 ^ pg_shift) len l c, c, λ k. d)
    ]

taken_idx :
    (handler : ℕ → ℕ → ℕ → Result ℕ) (pidx len : ℕ) (q : Descq) (f : Flq)
    → q.conf.has_c2h_packet ≡ false
    → (rcv_pkt handler pidx len q f).1
      ≡ ring_idx_incr
          (ring_idx_incr pidx (buffers_of f.pg_shift len - 1) q.conf.rngsz)
          1
          q.conf.rngsz
unfolding rcv_pkt
taken_idx handler pidx len q f h = ground (arith, h)

-- A packet without a handler takes as many buffers as hold it, at least one and no more than needed: the
-- index moves on by them around the ring, they are no longer free, and its bytes are added to what
-- waits to be read.
pub rcv_pkt_takes :
    (handler : ℕ → ℕ → ℕ → Result ℕ) (pidx len : ℕ) (q : Descq) (f : Flq)
    → let n = buffers_of f.pg_shift len in
      let (rv, pidx', q', f') = rcv_pkt handler pidx len q f in
      q.conf.has_c2h_packet ≡ false
      → q.conf.rngsz ≤ ring_max
      → pidx < q.conf.rngsz
      → len + 2 ^ f.pg_shift < 2 ^ 32
      → n < q.conf.rngsz
      → n ≤ q.avail
      → q.avail < 2 ^ 32
      → f.pkt_dlen + len < 2 ^ 32
      → (rv ≡ ok 0)
        × (0 < n)
        × (len ≤ n * 2 ^ f.pg_shift)
        × (0 < len → n * 2 ^ f.pg_shift < len + 2 ^ f.pg_shift)
        × (pidx' ≡ ring_idx_incr pidx n q.conf.rngsz)
        × (q'.avail + n ≡ q.avail)
        × (f'.pkt_dlen ≡ f.pkt_dlen + len)
unfolding rcv_pkt keep_packet set_last_len
rcv_pkt_takes handler pidx len q f h r l w n a u d =
    let (p, c, t) = buffers_cover f.pg_shift len w in
    let m = buffers_of f.pg_shift len in
    let one : m - 1 + 1 ≡ m = omega arith in
    let step = incr-incr pidx (m - 1) 1 q.conf.rngsz r l (omega arith) in
    (
      ground (arith, h),
      p,
      c,
      t,
      rw (taken_idx handler pidx len q f h)
          (step ∙ ap (λ k. ring_idx_incr pidx k q.conf.rngsz) one),
      ground (arith, h),
      ground (arith, h),
    )
