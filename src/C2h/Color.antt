-- ===== src/C2h/Color.antt =====
-- The colour that tells new completion entries from those of the lap before.
use native.Mathlib.Nat.{add-mod_left, add-div_left, mod-eq_of_lt, div-eq_of_lt}
use qdmav.Prelude.{
  ℕ, zero, suc, ◌+◌, ◌/◌, ◌%◌, ◌^◌, ◌<◌, ◌≡◌, refl, ap, ◌∙◌, arith, Bool, true, false, not, ◌==◌,
  add32, Bool-cases, inl, inr,
}
use qdmav.Descq.{Descq}
use qdmav.C2h.{wrb_next}

-- `n` entries taken one after the other.
unfoldable pub wrb_steps : ℕ → Descq → Descq
wrb_steps zero q = q
wrb_steps (suc n) q = wrb_steps n (wrb_next q)

-- A colour that was changed `k` times.
unfoldable pub flips : ℕ → Bool → Bool
flips zero b = b
flips (suc k) b = not (flips k b)

flips-not : (k : ℕ) (b : Bool) → flips k (not b) ≡ not (flips k b)
unfolding flips
flips-not zero b = refl
flips-not (suc k) b = ap not (flips-not k b)

wrb_next_wraps :
    (q : Descq)
    → q.conf.rngsz_wrb < 2 ^ 32
    → q.cidx_wrb + 1 ≡ q.conf.rngsz_wrb
    → wrb_next q ≡ record q { cidx_wrb = 0; color = not q.color }
unfolding wrb_next
wrb_next_wraps q l e =
    let t : (add32 q.cidx_wrb 1 == q.conf.rngsz_wrb) ≡ true = ground arith in rw t refl

wrb_next_moves :
    (q : Descq)
    → q.conf.rngsz_wrb < 2 ^ 32
    → q.cidx_wrb + 1 < q.conf.rngsz_wrb
    → wrb_next q ≡ record q { cidx_wrb = q.cidx_wrb + 1 }
unfolding wrb_next
wrb_next_moves q l e =
    let t : (add32 q.cidx_wrb 1 == q.conf.rngsz_wrb) ≡ false = ground arith in
    let s : add32 q.cidx_wrb 1 ≡ q.cidx_wrb + 1 = omega arith in rw (t, s) refl

-- After `n` entries the index is that many further on around the ring, and the colour that is
-- expected has changed once for each time that the index passed the end.
pub wrb_steps-color :
    (n : ℕ) (q : Descq)
    → q.conf.rngsz_wrb < 2 ^ 32
    → q.cidx_wrb < q.conf.rngsz_wrb
    → let q' = wrb_steps n q in
      (q'.cidx_wrb ≡ (q.cidx_wrb + n) % q.conf.rngsz_wrb)
      × (q'.color ≡ flips ((q.cidx_wrb + n) / q.conf.rngsz_wrb) q.color)
unfolding wrb_steps flips
wrb_steps-color zero q l c =
    let z : q.cidx_wrb + 0 ≡ q.cidx_wrb = omega arith in
    rw (z, mod-eq_of_lt c, div-eq_of_lt c) (refl, refl)
wrb_steps-color (suc n) q l c = elim (Bool-cases (q.cidx_wrb + 1 == q.conf.rngsz_wrb)) [
  | inl wraps ↦
      let e : q.cidx_wrb + 1 ≡ q.conf.rngsz_wrb = ground arith in
      let s : q.cidx_wrb + suc n ≡ q.conf.rngsz_wrb + n = omega (arith, e) in
      let z : 0 + n ≡ n = omega arith in
      let (i, k) =
        rw z at (
          wrb_steps-color n (record q { cidx_wrb = 0; color = not q.color }) l
            (omega (arith, c))) in
      let m = add-mod_left q.conf.rngsz_wrb n in
      let d : (q.conf.rngsz_wrb + n) / q.conf.rngsz_wrb ≡ suc (n / q.conf.rngsz_wrb) =
        add-div_left n (omega (arith, c)) ∙ omega arith in
      rw (wrb_steps, wrb_next_wraps q l e, s, m, d)
        (i, k ∙ flips-not (n / q.conf.rngsz_wrb) q.color)
  | inr stays ↦
      let e : q.cidx_wrb + 1 < q.conf.rngsz_wrb = ground arith in
      let s : q.cidx_wrb + suc n ≡ q.cidx_wrb + 1 + n = omega arith in
      rw (wrb_steps, wrb_next_moves q l e, s)
        (wrb_steps-color n (record q { cidx_wrb = q.cidx_wrb + 1 }) l e)
]
