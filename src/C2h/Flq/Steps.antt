-- ===== src/C2h/Flq/Steps.antt =====
-- How a read goes from one receive buffer to the next.
use qdmav.Prelude.{
  ℕ, zero, suc, ◌+◌, ◌≡◌, ◌⊎◌, inl, inr, refl, arith, List, [], ◌∷◌, none, some, ◌==◌, get_elem?,
  Bool-cases,
}
use qdmav.Ring.{ring_idx_incr}
use qdmav.Request.{SwSg}
use qdmav.Descq.{Descq}
use qdmav.C2h.Flq.{note_end, Flq, ReadLoop, copy_buffer, read_from}

pub uncons {ℓ} : {A : Type ℓ} (l : List A) → (l ≡ []) ⊎ ((t : A) × (ts : List A) × (l ≡ t ∷ ts))
uncons [] = inl refl
uncons (t ∷ ts) = inr (t, ts, refl)

module _ (f : Flq) where
  pub read_from-zero :
      (i pidx : ℕ) (q : Descq) (s : ReadLoop) → read_from f 0 i pidx q s ≡ (i, pidx, q, s)
  unfolding read_from
  read_from-zero i pidx q s = refl

  pub read_from-nil :
      (n i pidx : ℕ) (q : Descq) (s : ReadLoop)
      → s.tsg ≡ []
      → read_from f n i pidx q s ≡ (i, pidx, q, s)
  unfolding read_from
  read_from-nil zero i pidx q s h = refl
  read_from-nil (suc n) i pidx q s h = ground (arith, h)

  pub read_from-gone :
      (n i pidx : ℕ) (q : Descq) (s : ReadLoop)
      → get_elem? f.sdesc pidx ≡ none
      → read_from f n i pidx q s ≡ (i, pidx, q, s)
  unfolding read_from
  read_from-gone zero i pidx q s h = refl
  read_from-gone (suc n) i pidx q s h = ground (arith, h)

  pub read_from-go :
      (n i pidx : ℕ) (q : Descq) (s : ReadLoop) {t g : SwSg} {ts : List SwSg}
      → s.tsg ≡ t ∷ ts
      → get_elem? f.sdesc pidx ≡ some g
      → let s1 = copy_buffer pidx g.len (t ∷ ts) (record s { foff = 0 }) in
        let q1 = note_end (get_elem? f.sdesc_info pidx) q in
        (read_from f (suc n) i pidx q s ≡ (i, pidx, q, s1))
        ⊎ (read_from f (suc n) i pidx q s
            ≡ read_from f n (i + 1) (ring_idx_incr pidx 1 q.conf.rngsz) q1 (record s1 { foff = 0 }))
  unfolding read_from
  read_from-go n i pidx q s {t} {g} {ts} h k =
      let s1 = copy_buffer pidx g.len (t ∷ ts) (record s { foff = 0 }) in
      elim (Bool-cases (s1.foff == g.len)) [
        | inl whole ↦ inr (ground (arith, h, k, whole))
        | inr part ↦ inl (ground (arith, h, k, part))
      ]
