-- ===== src/StH2c/Chunks.antt =====
-- The nested loops of `descq_proc_st_h2c_request` as one pass over a list of chunks.
use qdmav.Prelude.{
  ℕ, zero, suc, ◌+◌, ◌-◌, ◌%◌, ◌≤◌, ◌<◌, ◌^◌, min, ◌≡◌, ◌≢◌, refl, sym, ap, ◌∙◌, Bool, List, [],
  ◌∷◌, ◌++◌, Option, arith, add64, ◌==◌, if◌then◌else◌, take, length, Bool-cases, inl, inr,
}
use qdmav.Ring.{ring_idx_incr}
use qdmav.Ring.Laws.{ring_max, incr-incr, incr-zero}
use qdmav.Request.{SwSg, Request}
use qdmav.Request.Sgl.{total}
use qdmav.Descq.{QueueConf, Descq, emit}
use qdmav.Descq.Update.{descq_h2c_pidx_update}
use qdmav.Mm.{mm_entry}
use qdmav.Mm.Chunks.{take-append, take-nil}
use qdmav.StH2c.{StLoop, next_pidx, st_put, st_fill, st_sgl, is_last}

-- Whether it belongs to the last entry, an address and a length.
abbrev pub StChunk : Type 0
StChunk = Bool × ℕ × ℕ

unfoldable pub st_put_all : List StChunk → StLoop → StLoop
st_put_all [] s = s
st_put_all ((last, addr, len) ∷ cs) s = st_put_all cs (st_put last addr len s)

put_all-append :
    (cs ds : List StChunk) (s : StLoop) → st_put_all (cs ++ ds) s ≡ st_put_all ds (st_put_all cs s)
unfolding st_put_all
put_all-append [] ds s = refl
put_all-append ((last, addr, len) ∷ cs) ds s = put_all-append cs ds _

-- The bytes of some chunks.
abbrev pub st_bytes : List StChunk → ℕ
st_bytes [] = 0
st_bytes ((last, addr, len) ∷ cs) = len + st_bytes cs

bytes-append : (cs ds : List StChunk) → st_bytes (cs ++ ds) ≡ st_bytes cs + st_bytes ds
bytes-append [] ds = omega arith
bytes-append ((last, addr, len) ∷ cs) ds = omega (arith, bytes-append cs ds)

module _ (page_size : ℕ) where
  -- A stretch of `len` bytes cut into pages: at least one chunk, also where there are no bytes. The
  -- first number bounds them.
  unfoldable pub st_cut : ℕ → Bool → ℕ → ℕ → List StChunk
  st_cut zero last addr len = []
  st_cut (suc n) last addr len =
      let c = min len page_size in
      let rest = st_cut n last (add64 addr c) (len - c) in
      (last, addr, c) ∷ (if len - c == 0 then [] else rest)

  unfoldable pub st_chunks : List SwSg → List StChunk
  st_chunks [] = []
  st_chunks (sg ∷ sgl) = st_cut (suc sg.len) (is_last sgl) sg.dma_addr sg.len ++ st_chunks sgl

  module _ (page : 0 < page_size) where
    fill-cut :
        (last : Bool) (room n addr len : ℕ) (s : StLoop)
        → len < n
        → st_fill page_size last room addr len s ≡ (
          room - length (st_cut n last addr len),
          st_put_all (take room (st_cut n last addr len)) s,
        )
    unfolding st_fill st_cut st_put_all
    fill-cut last room zero addr len s h = absurd (omega arith)
    fill-cut last zero (suc n) addr len s h = ground arith
    fill-cut last (suc room) (suc n) addr len s h =
        let c = min len page_size in
        elim (Bool-cases (len - c == 0)) [
          | inl done ↦
              let e : suc room - 1 ≡ room = omega arith in
              rw (done, e, take-nil {A = StChunk} room) refl
          | inr more ↦
              let next = add64 addr c in
              let ih = fill-cut last room n next (len - c) (st_put last addr c s) (ground arith) in
              let e : suc room - suc (length (st_cut n last next (len - c)))
                  ≡ room - length (st_cut n last next (len - c)) =
                omega arith in
              rw (more, ih)
                (ap
                  (λ k. (
                    k,
                    st_put_all (take room (st_cut n last next (len - c))) (st_put last addr c s),
                  ))
                  (sym e))
        ]

    -- A fresh walk over a list writes the first `room` chunks of the list, in order.
    pub st_sgl-eq-put_all :
        (room : ℕ) (sgl : List SwSg) (s : StLoop)
        → st_sgl page_size room sgl 0 s ≡ st_put_all (take room (st_chunks sgl)) s
    unfolding st_sgl st_chunks mm_entry st_put_all
    st_sgl-eq-put_all zero [] s = refl
    st_sgl-eq-put_all (suc room) [] s = refl
    st_sgl-eq-put_all zero (sg ∷ sgl) s = refl
    st_sgl-eq-put_all (suc room) (sg ∷ sgl) s =
        let here = st_cut (suc sg.len) (is_last sgl) sg.dma_addr sg.len in
        rw (fill-cut (is_last sgl) (suc room) (suc sg.len) sg.dma_addr sg.len s (omega arith)) (
          st_sgl-eq-put_all (suc room - length here) sgl (st_put_all (take (suc room) here) s)
          ∙ sym (put_all-append (take (suc room) here) _ s)
          ∙ ap (λ cs. st_put_all cs s) (sym (take-append (suc room) here (st_chunks sgl))))

    cut-bytes :
        (n : ℕ) (last : Bool) (addr len : ℕ) → len < n → st_bytes (st_cut n last addr len) ≡ len
    unfolding st_cut
    cut-bytes zero last addr len h = absurd (omega arith)
    cut-bytes (suc n) last addr len h =
        let c = min len page_size in
        elim (Bool-cases (len - c == 0)) [
          | inl done ↦ rw done (ground arith)
          | inr more ↦
              let ih = cut-bytes n last (add64 addr c) (len - c) (ground arith) in
              rw more (omega (arith, ih))
        ]

    -- The chunks of a list carry exactly its bytes.
    pub st_chunks-bytes : (sgl : List SwSg) → st_bytes (st_chunks sgl) ≡ total sgl
    unfolding st_chunks
    st_chunks-bytes [] = refl
    st_chunks-bytes (sg ∷ sgl) =
        let here = st_cut (suc sg.len) (is_last sgl) sg.dma_addr sg.len in
        omega (
          arith,
          bytes-append here (st_chunks sgl),
          cut-bytes (suc sg.len) (is_last sgl) sg.dma_addr sg.len (omega arith),
          st_chunks-bytes sgl,
        )

-- What the walk does not change of the queue.
abbrev pub st_frame : Descq → QueueConf × ℕ × ℕ × List Request × List Request × Option ℕ
st_frame q = (q.conf, q.avail, q.cidx, q.work_list, q.pend_list, q.wbthp)

-- The counters after a list of chunks was written.
pub record StCounted (cs : List StChunk) (s t : StLoop) : Type 0 where
  pub pidx : t.queue.pidx ≡ ring_idx_incr s.queue.pidx (length cs) s.queue.conf.rngsz
  pub desc_cnt : t.desc_cnt ≡ s.desc_cnt + length cs
  pub data_cnt : t.data_cnt ≡ s.data_cnt + st_bytes cs
  pub frame : st_frame t.queue ≡ st_frame s.queue

put-eq :
    (last : Bool) (addr len : ℕ) (s : StLoop)
    → let t = st_put last addr len s in
      (st_frame t.queue ≡ st_frame s.queue)
      × (t.queue.pidx ≡ (next_pidx s.queue).pidx)
      × (t.desc_cnt ≡ (s.desc_cnt + 1) % 2 ^ 32)
      × (t.data_cnt ≡ (s.data_cnt + len) % 2 ^ 32)
unfolding st_put next_pidx descq_h2c_pidx_update emit
put-eq last addr len s = (refl, refl, refl, refl)

next_pidx-eq-incr :
    (q : Descq)
    → q.conf.rngsz ≤ ring_max
    → q.pidx < q.conf.rngsz
    → ((next_pidx q).pidx ≡ ring_idx_incr q.pidx 1 q.conf.rngsz)
      × ((next_pidx q).pidx < q.conf.rngsz)
unfolding next_pidx ring_idx_incr
next_pidx-eq-incr q r l = (ground arith, ground arith)

pub put_all-StCounted :
    (cs : List StChunk) (s : StLoop)
    → s.queue.conf.rngsz ≤ ring_max
    → s.queue.pidx < s.queue.conf.rngsz
    → length cs < s.queue.conf.rngsz
    → s.desc_cnt + length cs < 2 ^ 32
    → s.data_cnt + st_bytes cs < 2 ^ 32
    → StCounted cs s (st_put_all cs s)
unfolding st_put_all
put_all-StCounted [] s hr hp hl hd hb = record {
  pidx = sym (incr-zero s.queue.pidx s.queue.conf.rngsz hr hp);
  desc_cnt = omega arith;
  data_cnt = omega arith;
  frame = refl;
}
put_all-StCounted ((last, addr, len) ∷ cs) s hr hp hl hd hb =
    let t = st_put last addr len s in
    let (f, p, d, b) = put-eq last addr len s in
    let (pi, pl) = next_pidx-eq-incr s.queue hr hp in
    let z : t.queue.conf.rngsz ≡ s.queue.conf.rngsz = ap (λ f. f.0.rngsz) f in
    let ih =
      put_all-StCounted cs t (omega (arith, z)) (omega (arith, z, p, pl)) (omega (arith, z))
        (omega (arith, d)) (omega (arith, b)) in
    record {
      pidx =
          ih.pidx
          ∙ ap (λ n. ring_idx_incr t.queue.pidx (length cs) n) z
          ∙ ap (λ i. ring_idx_incr i (length cs) s.queue.conf.rngsz) (p ∙ pi)
          ∙ incr-incr s.queue.pidx 1 (length cs) s.queue.conf.rngsz hr hp (omega arith)
          ∙ ap (λ n. ring_idx_incr s.queue.pidx n s.queue.conf.rngsz) (omega arith);
      desc_cnt = omega (arith, ih.desc_cnt, d);
      data_cnt = omega (arith, ih.data_cnt, b);
      frame = ih.frame ∙ f;
    }

pub put_all-credit :
    (cs : List StChunk) (s : StLoop) → (st_put_all cs s).queue.credit ≡ s.queue.credit
unfolding st_put_all st_put next_pidx descq_h2c_pidx_update emit
put_all-credit [] s = refl
put_all-credit ((last, addr, len) ∷ cs) s = put_all-credit cs (st_put last addr len s)

-- From an entry on there is at least one chunk.
pub st_chunks_some :
    (page_size : ℕ) (sgl : List SwSg) → sgl ≢ [] → 0 < length (st_chunks page_size sgl)
unfolding st_chunks st_cut
st_chunks_some page_size [] h = absurd (h refl)
st_chunks_some page_size (sg ∷ sgl) h = omega arith
