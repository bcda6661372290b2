-- ===== src/Mm/Outcome.antt =====
-- What a call for a request makes of the queue: nothing, a failure that leaves the ring alone, or
-- descriptors in the ring.
use qdmav.Prelude.{
  ℕ, ◌≡◌, ◌≢◌, ◌<◌, ◌^◌, ◌⊎◌, inl, inr, refl, arith, List, [], ◌∷◌, ◌++◌, none, ◌==◌, add32,
  Bool-cases, Option-cases, List-cases, length, All,
}
use native.Mathlib.Decide.{ℕ_discrete}
use qdmav.Prelude.Errors.{Error, eio, einval, Result, ok, err}
use qdmav.Request.{Request}
use qdmav.Request.Sgl.{total}
use qdmav.Descq.{QueueConf, Descq, emit, list_del, update}
use qdmav.Descq.Update.{descq_c2h_pidx_update, descq_h2c_pidx_update}
use qdmav.Mm.{MmDesc, MmLoop, mm_begin, mm_run, mm_finish, req_submitted, descq_mm_proc_request}
use qdmav.Mm.Chunks.{Chunk, bytes}
use qdmav.Mm.Accounting.{IsWord, IsRing, writes, mm_run-Counted}
use qdmav.Mm.Call.{Advanced, proc_request_advances, proc_request-eq-finish, proc_request_eio}

-- The request goes to the end of the pending list, or stays in the work list with its new counts.
abbrev pub Moves : Descq → Request → Descq → Request → Type 0
Moves q cb q' cb' =
    ((q'.work_list ≡ list_del cb.id q.work_list) × (q'.pend_list ≡ q.pend_list ++ (cb' ∷ [])))
    ⊎ ((q'.work_list ≡ update cb' q.work_list) × (q'.pend_list ≡ q.pend_list))

-- The ring, the credit and the lists.
abbrev pub work_frame : Descq → QueueConf × ℕ × ℕ × ℕ × ℕ × List Request × List Request
work_frame q = (q.conf, q.avail, q.pidx, q.cidx, q.credit, q.work_list, q.pend_list)

-- `n` descriptors were written.
pub record Wrote (q : Descq) (cb : Request) (q' : Descq) (cb' : Request) : Type 0 where
  pub count : ℕ
  pub size : ℕ
  pub some_written : 0 < count
  pub advanced : Advanced q cb count size q' cb'
  pub credit : q'.credit ≡ q.credit
  pub same_id : cb'.id ≡ cb.id
  pub same_sgl : cb'.sgl ≡ cb.sgl
  pub moves : Moves q cb q' cb'

abbrev pub Outcome : Descq → Request → Result ℕ → Descq → Request → Type 0
Outcome q cb rv q' cb' =
    ((work_frame q' ≡ work_frame q)
      × (cb'.id ≡ cb.id)
      × (q.avail ≡ 0 ⊎ ((e : Error) × (rv ≡ err e))))
    ⊎ ((rv ≡ ok 0) × Wrote q cb q' cb')

finish-Moves :
    (q : Descq) (cb : Request) (ds de : ℕ) (s : MmLoop)
    → let (q', ring', cb') = mm_finish q cb ds de s in
      (q'.credit ≡ q.credit) × (cb'.id ≡ cb.id) × (cb'.sgl ≡ cb.sgl) × Moves q cb q' cb'
unfolding mm_finish req_submitted emit descq_c2h_pidx_update descq_h2c_pidx_update
finish-Moves q cb ds de s = elim (Bool-cases (add32 cb.offset s.data_cnt == cb.count)) [
  | inl e ↦ (ground arith, refl, refl, inl (ground (arith, e), ground (arith, e)))
  | inr e ↦ (ground arith, refl, refl, inr (ground (arith, e), ground (arith, e)))
]

idle-eq :
    (q : Descq) (ring : List MmDesc) (cb : Request)
    → q.avail ≡ 0
    → descq_mm_proc_request q ring cb ≡ (ok 0, q, ring, cb)
unfolding descq_mm_proc_request
idle-eq q ring cb h = ground arith

bad-eq :
    (q : Descq) (ring : List MmDesc) (cb : Request)
    → q.avail ≢ 0
    → mm_begin cb ≡ none
    → descq_mm_proc_request q ring cb ≡ (err einval, q, ring, cb)
unfolding descq_mm_proc_request
bad-eq q ring cb h b = ground arith

-- What a memory-mapped call makes of the queue, whatever it returns.
pub mm_request-Outcome :
    (q : Descq) (ring : List MmDesc) (cb : Request)
    → IsRing q
    → All IsWord cb.sgl
    → total cb.sgl < 2 ^ 32
    → let (rv, q', ring', cb') = descq_mm_proc_request q ring cb in Outcome q cb rv q' cb'
mm_request-Outcome q ring cb r w t = elim (ℕ_discrete q.avail 0) [
  | yes full ↦ rw (idle-eq q ring cb full) (inl (refl, refl, inl full))
  | no room ↦ elim (Option-cases (mm_begin cb)) [
    | inl bad ↦ rw (bad-eq q ring cb room bad) (inl (refl, refl, inr (einval, refl)))
    | inr (p, found) ↦ elim (List-cases (writes q cb p.0)) [
      | inl nothing ↦
          let (e, s) = proc_request_eio q ring cb r w t room found nothing in
          rw (e, s) (inl (refl, refl, inr (eio, refl)))
      | inr chunk ↦
          let (rv, a) = proc_request_advances q ring cb r w t room found chunk in
          let c = mm_run-Counted q ring cb p.0 p.1 r w t in
          let (de, hde) = c.wrote chunk in
          let fin = proc_request-eq-finish q ring cb room found hde in
          let (fc, fi, fs, fm) = finish-Moves q cb q.pidx de (mm_run q ring cb p.0 p.1) in
          inr (
            rv,
            record {
              count = length (writes q cb p.0);
              size = bytes (writes q cb p.0);
              some_written = pos (writes q cb p.0) chunk;
              advanced = a;
              credit = rw fin fc;
              same_id = rw fin fi;
              same_sgl = rw fin fs;
              moves = rw fin fm;
            },
          )
    ]
  ]
]
  where
    pos : (cs : List Chunk) → cs ≢ [] → 0 < length cs
    pos [] h = absurd (h refl)
    pos (c ∷ cs) h = omega arith
