-- ===== src/Mm/Effects.antt =====
-- What `descq_mm_proc_request` does to the queue and to the request.
use qdmav.Prelude.{ℕ, ◌+◌, ◌^◌, ◌≤◌, ◌<◌, ◌≡◌, ◌≢◌, refl, Bool, List, [], ◌∷◌, some, arith, length}
use qdmav.Ring.{ring_idx_incr}
use qdmav.Ring.Laws.{ring_max}
use qdmav.Mm.{MmLoop, mm_put}
use qdmav.Mm.Chunks.{Chunk, put_all, bytes}

-- The counters after a list of chunks was written.
pub record Counted (rngsz : ℕ) (cs : List Chunk) (s t : MmLoop) : Type 0 where
  pub pidx : t.pidx ≡ ring_idx_incr s.pidx (length cs) rngsz
  pub desc_cnt : t.desc_cnt ≡ s.desc_cnt + length cs
  pub data_cnt : t.data_cnt ≡ s.data_cnt + bytes cs
  pub last : cs ≡ [] → t.desc_end ≡ s.desc_end
  pub wrote : cs ≢ [] → (e : ℕ) × (t.desc_end ≡ some e)

pub put_all-Counted :
    (c2h : Bool) (rngsz : ℕ) (cs : List Chunk) (s : MmLoop)
    → rngsz ≤ ring_max
    → s.pidx < rngsz
    → length cs < rngsz
    → s.desc_cnt + length cs < 2 ^ 32
    → s.data_cnt + bytes cs < 2 ^ 32
    → Counted rngsz cs s (put_all c2h rngsz cs s)
unfolding put_all mm_put ring_idx_incr
put_all-Counted c2h rngsz [] s hr hp hl hd hb = record {
  pidx = ground arith;
  desc_cnt = omega arith;
  data_cnt = omega arith;
  last = λ _. refl;
  wrote = λ h. absurd (h refl);
}
put_all-Counted c2h rngsz ((addr, len) ∷ []) s hr hp hl hd hb = record {
  pidx = ground arith;
  desc_cnt = ground arith;
  data_cnt = ground arith;
  last = λ h. cc;
  wrote = λ h. (s.pidx, refl);
}
put_all-Counted c2h rngsz ((addr, len) ∷ c ∷ cs) s hr hp hl hd hb =
    let ih =
      put_all-Counted c2h rngsz (c ∷ cs) (mm_put c2h rngsz addr len s) hr (ground arith)
        (ground arith) (ground arith) (ground arith) in
    record {
      pidx = ground (arith, ih.pidx);
      desc_cnt = ground (arith, ih.desc_cnt);
      data_cnt = ground (arith, ih.data_cnt);
      last = λ h. cc;
      wrote = λ h. ih.wrote (λ k. cc);
    }
