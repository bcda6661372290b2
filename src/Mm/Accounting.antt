-- ===== src/Mm/Accounting.antt =====
-- A call of `descq_mm_proc_request`: the accounting of the ring, progress and completion.
use qdmav.Prelude.{
  ℕ, zero, suc, ◌+◌, ◌^◌, ◌≤◌, ◌<◌, ◌≡◌, refl, ap, ◌∙◌, Bool, List, [], ◌∷◌, none, arith, add64,
  take, drop, length, length-take, All,
}
use qdmav.Ring.{ring_idx_delta}
use qdmav.Ring.Laws.{ring_max}
use qdmav.Request.{SwSg, Request}
use qdmav.Request.Sgl.{total}
use qdmav.Descq.{Descq}
use qdmav.Mm.{MmDesc, MmLoop, mm_sgl, mm_entry, mm_run}
use qdmav.Mm.Chunks.{Chunk, chunks, put_all, bytes, mm_sgl-eq-put_all, chunks_lem}
use qdmav.Mm.Effects.{Counted, put_all-Counted}

-- The fields' ranges.
abbrev pub IsWord : SwSg → Type 0
IsWord sg = (sg.len < 2 ^ 32) × (sg.dma_addr < 2 ^ 64)

-- One slot of the ring always stays free, and `avail` counts the slots that are neither free nor
-- with the device.
pub record IsRing (q : Descq) : Type 0 where
  pub size : q.conf.rngsz ≤ ring_max
  pub pidx_in : q.pidx < q.conf.rngsz
  pub cidx_in : q.cidx < q.conf.rngsz
  pub balance : q.avail + ring_idx_delta q.pidx q.cidx q.conf.rngsz + 1 ≡ q.conf.rngsz

-- The accounting is about four fields only.
pub IsRing-same :
    (q q' : Descq)
    → q'.conf ≡ q.conf
    → q'.avail ≡ q.avail
    → q'.pidx ≡ q.pidx
    → q'.cidx ≡ q.cidx
    → IsRing q
    → IsRing q'
IsRing-same q q' c a p i g =
    let e : q'.conf.rngsz ≡ q.conf.rngsz = ap (λ k. k.rngsz) c in
    record {
      size = rw e g.size;
      pidx_in = rw (e, p) g.pidx_in;
      cidx_in = rw (e, i) g.cidx_in;
      balance = rw (e, a, p, i) g.balance;
    }

-- What a resumed walk does with the offset into its first entry: nothing.
pub mm_sgl-sg_offset :
    (c2h : Bool) (rngsz room : ℕ) (sgl : List SwSg) (sg_offset : ℕ) (s : MmLoop)
    → All IsWord sgl
    → mm_sgl c2h rngsz room sgl sg_offset s ≡ mm_sgl c2h rngsz room sgl 0 s
unfolding mm_sgl mm_entry
mm_sgl-sg_offset c2h rngsz room [] sg_offset s h = refl
mm_sgl-sg_offset c2h rngsz zero (sg ∷ sgl) sg_offset s h = refl
mm_sgl-sg_offset c2h rngsz (suc room) (sg ∷ sgl) sg_offset s h = rw (same sg_offset sg h.0)
  where
    same : (o : ℕ) (g : SwSg) → IsWord g → mm_entry o g ≡ (g.dma_addr, g.len)
    same o g w = ground arith

pub All-drop {ℓ κ} :
    {A : Type ℓ} (P : A → Type κ) (n : ℕ) (xs : List A) → All P xs → All P (drop n xs)
All-drop P zero xs h = h
All-drop P (suc n) [] h = h
All-drop P (suc n) (x ∷ xs) h = All-drop P n xs h.1

-- The chunks that a call writes from entry `i` on.
abbrev pub writes : Descq → Request → ℕ → List Chunk
writes q cb i = take q.avail (chunks (drop i cb.sgl))

abbrev pub start : Descq → List MmDesc → Request → MmLoop
start q ring cb = record {
  ring = ring;
  pidx = q.pidx;
  ep_addr = add64 cb.ep_addr cb.offset;
  data_cnt = 0;
  desc_cnt = 0;
  desc_end = none;
}

pub mm_run-eq-put_all :
    (q : Descq) (ring : List MmDesc) (cb : Request) (i sg_offset : ℕ)
    → All IsWord cb.sgl
    → mm_run q ring cb i sg_offset
      ≡ put_all q.conf.c2h q.conf.rngsz (writes q cb i) (start q ring cb)
unfolding mm_run
mm_run-eq-put_all q ring cb i sg_offset h =
    mm_sgl-sg_offset q.conf.c2h q.conf.rngsz q.avail (drop i cb.sgl) sg_offset _
      (All-drop IsWord i cb.sgl h)
    ∙ mm_sgl-eq-put_all q.conf.c2h q.conf.rngsz q.avail (drop i cb.sgl) _

bytes-take-le : (n : ℕ) (cs : List Chunk) → bytes (take n cs) ≤ bytes cs
bytes-take-le zero cs = omega arith
bytes-take-le (suc n) [] = omega arith
bytes-take-le (suc n) ((addr, len) ∷ cs) = omega (arith, bytes-take-le n cs)

pub total-drop-le : (i : ℕ) (sgl : List SwSg) → total (drop i sgl) ≤ total sgl
total-drop-le zero sgl = omega arith
total-drop-le (suc i) [] = omega arith
total-drop-le (suc i) (sg ∷ sgl) = omega (arith, total-drop-le i sgl)

bytes-writes : (q : Descq) (cb : Request) (i : ℕ) → bytes (writes q cb i) ≤ total cb.sgl
bytes-writes q cb i = omega (
  arith,
  bytes-take-le q.avail (chunks (drop i cb.sgl)),
  (chunks_lem (drop i cb.sgl)).0,
  total-drop-le i cb.sgl,
)

pub mm_run-Counted :
    (q : Descq) (ring : List MmDesc) (cb : Request) (i sg_offset : ℕ)
    → IsRing q
    → All IsWord cb.sgl
    → total cb.sgl < 2 ^ 32
    → Counted q.conf.rngsz (writes q cb i) (start q ring cb) (mm_run q ring cb i sg_offset)
mm_run-Counted q ring cb i sg_offset r h t = rw (mm_run-eq-put_all q ring cb i sg_offset h) (
    put_all-Counted q.conf.c2h q.conf.rngsz (writes q cb i) (start q ring cb) r.size r.pidx_in
      (omega (arith, few, r.balance)) (omega (arith, few, r.balance, r.size))
      (omega (arith, bytes-writes q cb i)))
  where
    few : length (writes q cb i) ≤ q.avail
    few = omega (arith, length-take q.avail (chunks (drop i cb.sgl)))
