-- ===== src/StH2c/Outcome.antt =====
-- What a call of `descq_proc_st_h2c_request` makes of the queue's lists.
use native.Mathlib.Decide.{ℕ_discrete}
use qdmav.Prelude.{
  ◌==◌, ℕ, zero, suc, ◌^◌, ◌<◌, ◌≡◌, ◌≢◌, inl, inr, refl, ap, ◌∙◌, arith, List, [], ◌∷◌, none, some,
  add32, drop, length, length-take, All, Option-cases, Bool-cases,
}
use qdmav.Prelude.Errors.{einval, ok, err}
use qdmav.Request.{SwSg, Request}
use qdmav.Request.Sgl.{total}
use qdmav.Descq.{Descq, emit}
use qdmav.Mm.{mm_begin, req_submitted}
use qdmav.Mm.Accounting.{IsWord, IsRing, All-drop}
use qdmav.Mm.Outcome.{Moves, Outcome}
use qdmav.StH2c.{H2cDesc, StLoop, st_run, st_finish, descq_proc_st_h2c_request}
use qdmav.StH2c.Chunks.{
  st_chunks, st_bytes, st_frame, put_all-credit, st_chunks_some, st_sgl-eq-put_all,
}
use qdmav.StH2c.Call.{
  st_writes, sgl-sg_offset, begin, run-StCounted, st_request-eq-finish, st_request_advances,
}

module _ (page_size : ℕ) (page : 0 < page_size) where
  run-credit :
      (q : Descq) (ring : List H2cDesc) (cb : Request) (i sg_offset : ℕ)
      → All IsWord cb.sgl
      → (st_run page_size q ring cb i sg_offset).queue.credit ≡ q.credit
  unfolding st_run
  run-credit q ring cb i sg_offset w =
      let whole =
        sgl-sg_offset page_size page q.avail (drop i cb.sgl) sg_offset
          (begin page_size page q ring cb) (All-drop IsWord i cb.sgl w)
        ∙ st_sgl-eq-put_all page_size page q.avail (drop i cb.sgl)
            (begin page_size page q ring cb) in
      rw whole (put_all-credit (st_writes page_size page q cb i) (begin page_size page q ring cb))

  finish-Moves :
      (q : Descq) (cb : Request) (s : StLoop)
      → st_frame s.queue ≡ st_frame q
      → s.queue.credit ≡ q.credit
      → let (q', ring', cb') = st_finish page_size q cb s in
        (q'.credit ≡ q.credit) × (cb'.id ≡ cb.id) × (cb'.sgl ≡ cb.sgl) × Moves q cb q' cb'
  unfolding st_finish req_submitted emit
  finish-Moves q cb s f c =
      let w = ap (λ f. f.3) f in
      let p = ap (λ f. f.4) f in
      elim (Bool-cases (add32 cb.offset s.data_cnt == cb.count)) [
        | inl e ↦ (ground (arith, c), refl, refl, inl (ground (arith, w, e), ground (arith, p, e)))
        | inr e ↦ (ground (arith, c), refl, refl, inr (ground (arith, w, e), ground (arith, p, e)))
      ]

  idle-eq :
      (q : Descq) (ring : List H2cDesc) (cb : Request)
      → q.avail ≡ 0
      → descq_proc_st_h2c_request page_size q ring cb ≡ (ok 0, q, ring, cb)
  unfolding descq_proc_st_h2c_request
  idle-eq q ring cb h = ground arith

  bad-eq :
      (q : Descq) (ring : List H2cDesc) (cb : Request)
      → q.avail ≢ 0
      → mm_begin cb ≡ none
      → descq_proc_st_h2c_request page_size q ring cb ≡ (err einval, q, ring, cb)
  unfolding descq_proc_st_h2c_request
  bad-eq q ring cb h b = ground arith

  begin_lt :
      (cb : Request) {i sg_offset : ℕ}
      → cb.sgl ≢ []
      → mm_begin cb ≡ some (i, sg_offset)
      → i < length cb.sgl
  unfolding mm_begin
  begin_lt cb ne h = let l : 0 < length cb.sgl = pos cb.sgl ne in ground (arith, h)
    where
      pos : (l : List SwSg) → l ≢ [] → 0 < length l
      pos [] n = absurd (n refl)
      pos (x ∷ xs) n = omega arith

  drop_some : (i : ℕ) (l : List SwSg) → i < length l → drop i l ≢ []
  drop_some i [] h e = absurd (omega arith)
  drop_some zero (x ∷ xs) h e = cc
  drop_some (suc i) (x ∷ xs) h e = drop_some i xs (omega arith) e

  writes_some :
      (q : Descq) (cb : Request) (i : ℕ)
      → q.avail ≢ 0
      → i < length cb.sgl
      → 0 < length (st_writes page_size page q cb i)
  writes_some q cb i room l = omega (
    arith,
    length-take q.avail (st_chunks page_size (drop i cb.sgl)),
    st_chunks_some page_size (drop i cb.sgl) (drop_some i cb.sgl l),
    room,
  )

  -- What a streaming call makes of the queue, whatever it returns.
  pub st_request-Outcome :
      (q : Descq) (ring : List H2cDesc) (cb : Request)
      → IsRing q
      → All IsWord cb.sgl
      → total cb.sgl < 2 ^ 32
      → cb.sgl ≢ []
      → let (rv, q', ring', cb') = descq_proc_st_h2c_request page_size q ring cb in
        Outcome q cb rv q' cb'
  st_request-Outcome q ring cb r w t ne = elim (ℕ_discrete q.avail 0) [
    | yes full ↦ rw (idle-eq q ring cb full) (inl (refl, refl, inl full))
    | no room ↦ elim (Option-cases (mm_begin cb)) [
      | inl bad ↦ rw (bad-eq q ring cb room bad) (inl (refl, refl, inr (einval, refl)))
      | inr (p, found) ↦
          let (rv, written, a) = st_request_advances page_size page q ring cb r w t room found in
          let s = st_run page_size q ring cb p.0 p.1 in
          let (hp, hd, hb, hf) = run-StCounted page_size page q ring cb p.0 p.1 r w t in
          let (fc, fi, fs, fm) = finish-Moves q cb s hf (run-credit q ring cb p.0 p.1 w) in
          let fin = st_request-eq-finish page_size page q ring cb room found in
          inr (
            rv,
            record {
              count = length (st_writes page_size page q cb p.0);
              size = st_bytes (st_writes page_size page q cb p.0);
              some_written = writes_some q cb p.0 room (begin_lt cb ne found);
              advanced = a;
              credit = rw fin fc;
              same_id = rw fin fi;
              same_sgl = rw fin fs;
              moves = rw fin fm;
            },
          )
    ]
  ]
