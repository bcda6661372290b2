-- ===== src/C2h/Flq/Copies.antt =====
-- Where the bytes of received packets are copied.
use qdmav.Prelude.{
  ℕ, zero, suc, ◌+◌, ◌-◌, ◌^◌, ◌≤◌, ◌<◌, ◌≡◌, inl, inr, refl, sym, ap, ◌∙◌, arith, min, Bool, not,
  ◌&&◌, List, [], ◌∷◌, some, add32, sub32, ◌==◌, get_elem?, drop, length, All, Bool-cases,
  Option-cases,
}
use qdmav.Ring.{ring_idx_incr, ring_idx_delta}
use qdmav.Request.{SwSg, Request}
use qdmav.Descq.{Descq}
use qdmav.Mm.Chunks.{All-append}
use qdmav.Mm.Accounting.{All-drop}
use qdmav.C2h.Flq.Steps.{uncons, read_from-zero, read_from-nil, read_from-gone, read_from-go}
use qdmav.C2h.Flq.{note_end, Flq, Copy, ReadLoop, copy_buffer, read_from, descq_st_c2h_read, is_nil}

-- A copy within its entry of the request and within what its buffer still holds, from the buffer's
-- offset on.
abbrev pub IsInside : List SwSg → List SwSg → Copy → Type 0
IsInside sgl bufs c =
    ((t : SwSg) × (get_elem? sgl c.j ≡ some t)
      × (t.offset ≤ c.toff)
      × (c.toff + c.count ≤ t.offset + t.len))
    × ((g : SwSg) × (get_elem? bufs c.pidx ≡ some g)
        × (g.offset ≤ c.foff)
        × (c.foff + c.count ≤ g.offset + g.len))

-- An entry whose bytes have addresses below 2 ^ 32.
abbrev pub Fits : SwSg → Type 0
Fits t = t.offset + t.len < 2 ^ 32

-- A buffer of which no part was read.
abbrev pub IsWhole : SwSg → Type 0
IsWhole g = (g.offset ≡ 0) × (g.len < 2 ^ 32)

-- The offset stands in the first of the entries.
abbrev pub Stands : List SwSg → ℕ → Type 0
Stands [] off = Unit
Stands (t ∷ ts) off = off ≤ t.len

drop-cons :
    (j : ℕ) (sgl : List SwSg) (t : SwSg) (ts : List SwSg)
    → t ∷ ts ≡ drop j sgl
    → (get_elem? sgl j ≡ some t) × (ts ≡ drop (suc j) sgl) × (j < length sgl)
drop-cons zero [] t ts h = cc
drop-cons zero (x ∷ xs) t ts h = (cc h, cc h, omega arith)
drop-cons (suc j) [] t ts h = cc
drop-cons (suc j) (x ∷ xs) t ts h =
    let (a, b, c) = drop-cons j xs t ts h in (a, b, omega (arith, c))

module _ (sgl bufs : List SwSg) (short : length sgl < 2 ^ 32) (pidx : ℕ) (g : SwSg)
    (held : get_elem? bufs pidx ≡ some g) (size : IsWhole g) where
  -- The loop's variables between two copies.
  record Going (flen : ℕ) (ts : List SwSg) (s : ReadLoop) : Type 0 where
    part : s.foff + flen ≡ g.len
    rest : ts ≡ drop s.j sgl
    stands : Stands ts s.tsgoff
    inside : All (IsInside sgl bufs) s.copies

  record Stopped (s : ReadLoop) : Type 0 where
    pub within : s.foff ≤ g.len
    pub rest : s.tsg ≡ drop s.j sgl
    pub stands : Stands s.tsg s.tsgoff
    pub inside : All (IsInside sgl bufs) s.copies

  copy_buffer-Stopped :
      (ts : List SwSg) (flen : ℕ) (s : ReadLoop)
      → All Fits ts
      → Going flen ts s
      → Stopped (copy_buffer pidx flen ts s)
  unfolding copy_buffer
  copy_buffer-Stopped [] flen s f k = record {
    within = omega (arith, k.part);
    rest = k.rest;
    stands = tt;
    inside = k.inside;
  }
  copy_buffer-Stopped (t ∷ ts) flen s f k =
      let copy = min flen (sub32 t.len s.tsgoff) in
      let (at, next, l) = drop-cons s.j sgl t ts k.rest in
      let room : sub32 t.len s.tsgoff ≡ t.len - s.tsgoff = omega (arith, k.stands, f.0) in
      let to : add32 t.offset s.tsgoff ≡ t.offset + s.tsgoff = omega (arith, k.stands, f.0) in
      let off : add32 s.tsgoff copy ≡ s.tsgoff + copy = omega (arith, k.stands, f.0, room) in
      let from : add32 s.foff copy ≡ s.foff + copy = omega (arith, k.part, size.1) in
      let c : Copy = record {
        pidx = pidx;
        foff = s.foff;
        j = s.j;
        toff = add32 t.offset s.tsgoff;
        count = copy;
      } in
      let here : IsInside sgl bufs c = (
        (t, at, omega (arith, to), omega (arith, to, room, k.stands)),
        (g, held, omega (arith, size.0), omega (arith, k.part)),
      ) in
      let all = All-append (IsInside sgl bufs) s.copies (c ∷ []) k.inside (here, tt) in
      elim (Bool-cases (flen == 0)) [
        | inl done ↦ rw done (record {
          within = omega (arith, k.part);
          rest = k.rest;
          stands = k.stands;
          inside = k.inside;
        })
        | inr some_left ↦ elim (Bool-cases (add32 s.tsgoff copy == t.len)) [
          | inl full ↦
              let step : suc s.j ≡ add32 s.j 1 = omega (arith, l, short) in
              rw (some_left, full)
                (copy_buffer-Stopped ts (flen - copy) _ f.1 (record {
                  part = omega (arith, from, k.part);
                  rest = next ∙ ap (λ n. drop n sgl) step;
                  stands = stands_zero ts;
                  inside = all;
                }))
          | inr part ↦
              rw (some_left, part)
                (record {
                  within = omega (arith, from, k.part);
                  rest = k.rest;
                  stands = omega (arith, off, room, k.stands);
                  inside = all;
                })
        ]
      ]
    where
      stands_zero : (ts : List SwSg) → Stands ts 0
      stands_zero [] = tt
      stands_zero (t ∷ ts) = omega arith

module _ (f : Flq) (sgl : List SwSg) (short : length sgl < 2 ^ 32) (fits : All Fits sgl)
    (small : All IsWhole f.sdesc) where
  buffer_small :
      (bufs : List SwSg) (i : ℕ) {g : SwSg}
      → All IsWhole bufs
      → get_elem? bufs i ≡ some g
      → IsWhole g
  buffer_small [] i a h = cc
  buffer_small (x ∷ xs) zero a h = rw (sym (value h)) (a.0)
    where
      value : {g : SwSg} → some x ≡ some g → x ≡ g
      value e = cc
  buffer_small (x ∷ xs) (suc i) a h = buffer_small xs i a.1 h

  read_from-IsInside :
      (n i pidx : ℕ) (q : Descq) (s : ReadLoop)
      → s.tsg ≡ drop s.j sgl
      → Stands s.tsg s.tsgoff
      → All (IsInside sgl f.sdesc) s.copies
      → All (IsInside sgl f.sdesc) (read_from f n i pidx q s).3.copies
  read_from-IsInside zero i pidx q s r st a = rw (read_from-zero f i pidx q s) a
  read_from-IsInside (suc n) i pidx q s r st a = elim (uncons s.tsg) [
    | inl nothing ↦ rw (read_from-nil f (suc n) i pidx q s nothing) a
    | inr (t, ts, more) ↦ elim (Option-cases (get_elem? f.sdesc pidx)) [
      | inl gone ↦ rw (read_from-gone f (suc n) i pidx q s gone) a
      | inr (g, held) ↦
          let s1 = copy_buffer pidx g.len (t ∷ ts) (record s { foff = 0 }) in
          let k =
            copy_buffer-Stopped sgl f.sdesc short pidx g held (buffer_small f.sdesc pidx small held)
              (t ∷ ts) g.len (record s { foff = 0 })
              (rw (sym r ∙ more) at (All-drop Fits s.j sgl fits))
              (record {
                part = omega arith;
                rest = sym more ∙ r;
                stands = rw more at st;
                inside = a;
              }) in
          elim (read_from-go f n i pidx q s more held) [
            | inl stop ↦ rw stop k.inside
            | inr go ↦ rw go (
                read_from-IsInside n (i + 1) (ring_idx_incr pidx 1 q.conf.rngsz)
                  (note_end (get_elem? f.sdesc_info pidx) q) (record s1 { foff = 0 }) k.rest
                  k.stands k.inside)
          ]
    ]
  ]

-- Every byte that a read copies comes from what a receive buffer still holds and goes into the entry of the
-- request that it is meant for, where no buffer was read in part before.
pub st_c2h_read-IsInside :
    (buf_size : ℕ) (update_pidx refill : Bool) (f : Flq) (q : Descq) (cb : Request)
    → let (rv, f', q', cb', copies) = descq_st_c2h_read buf_size update_pidx refill f q cb in
      length cb.sgl < 2 ^ 32
      → All Fits cb.sgl
      → All IsWhole f.sdesc
      → Stands (drop cb.sg_idx cb.sgl) cb.sg_offset
      → All (IsInside cb.sgl f.sdesc) copies
unfolding descq_st_c2h_read
st_c2h_read-IsInside buf_size update_pidx refill f q cb short fits small st =
    let n = ring_idx_delta q.pidx f.pidx_pend f.size in
    let all =
      read_from-IsInside f cb.sgl short fits small n 0 f.pidx_pend q
        (record {
          foff = 0;
          tsg = drop cb.sg_idx cb.sgl;
          tsgoff = cb.sg_offset;
          j = cb.sg_idx;
          copied = 0;
          copies = [];
        })
        refl st tt in
    elim (Bool-cases (n == 0)) [
      | inl idle ↦ rw idle tt
      | inr busy ↦ elim (Bool-cases (not (cb.sg_idx == 0) && is_nil (drop cb.sg_idx cb.sgl))) [
        | inl bad ↦ rw (busy, bad) tt
        | inr good ↦ rw (busy, good) all
      ]
    ]
