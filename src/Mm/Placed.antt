-- ===== src/Mm/Placed.antt =====
-- Which descriptors `descq_mm_proc_request` leaves in which entries of the ring.
use Prim.Native.Nat.{bit_or}
use qdmav.Prelude.{
  ℕ, ◌+◌, ◌%◌, ◌^◌, ◌≤◌, ◌<◌, ◌≡◌, ◌≢◌, refl, ap, ◌∙◌, Bool, List, [], ◌∷◌, some, arith, ◌==◌,
  if◌then◌else◌, set, modify, add32, All,
}
use qdmav.Ring.Laws.{ring_max}
use qdmav.Request.{Request}
use qdmav.Descq.{Descq}
use qdmav.Mm.{MmDesc, MmLoop, mm_put, mm_desc, mm_run, mm_finish, or_flag}
use qdmav.Mm.Chunks.{Chunk, chunks, put_all}
use qdmav.Mm.Accounting.{IsWord, IsRing, writes, start, mm_run-eq-put_all}

-- The entry after `i`, around the ring's end.
abbrev pub next_slot : ℕ → ℕ → ℕ
next_slot rngsz i = if i + 1 == rngsz then 0 else i + 1

-- A descriptor of `len` bytes between the memory at `addr` and the device at `ep`, with its valid bit.
abbrev pub transfer : Bool → ℕ → ℕ → ℕ → MmDesc
transfer c2h ep addr len = record {
  src_addr = if c2h then ep else addr;
  flag_len = bit_or len (2 ^ 28);
  rsvd0 = 0;
  dst_addr = if c2h then addr else ep;
  rsvd1 = 0;
}

-- The ring with a descriptor for each chunk, in order, from the entry `i` and the device's address
-- `ep` on.
unfoldable pub placed : Bool → ℕ → ℕ → ℕ → List Chunk → List MmDesc → List MmDesc
placed c2h rngsz i ep [] ring = ring
placed c2h rngsz i ep ((addr, len) ∷ cs) ring =
    placed c2h rngsz (next_slot rngsz i) ((ep + len) % 2 ^ 64) cs
      (set ring i (transfer c2h ep addr len))

-- The entry of the last of the chunks.
unfoldable pub last_slot : ℕ → ℕ → List Chunk → ℕ
last_slot rngsz i [] = i
last_slot rngsz i (c ∷ []) = i
last_slot rngsz i (c ∷ d ∷ cs) = last_slot rngsz (next_slot rngsz i) (d ∷ cs)

-- `desc->flag_len |= flag` at an entry.
abbrev pub flagged : ℕ → ℕ → List MmDesc → List MmDesc
flagged flag i = modify i (λ d. record d { flag_len = bit_or d.flag_len flag })

put-pidx :
    (c2h : Bool) (rngsz addr len : ℕ) (s : MmLoop)
    → rngsz ≤ ring_max
    → s.pidx < rngsz
    → ((mm_put c2h rngsz addr len s).pidx ≡ next_slot rngsz s.pidx)
      × (next_slot rngsz s.pidx < rngsz)
unfolding mm_put
put-pidx c2h rngsz addr len s r l =
    let e : add32 s.pidx 1 ≡ s.pidx + 1 = omega arith in (rw e refl, ground arith)

pub put_all-placed :
    (c2h : Bool) (rngsz : ℕ) (cs : List Chunk) (s : MmLoop)
    → rngsz ≤ ring_max
    → s.pidx < rngsz
    → (put_all c2h rngsz cs s).ring ≡ placed c2h rngsz s.pidx s.ep_addr cs s.ring
unfolding put_all placed mm_put mm_desc
put_all-placed c2h rngsz [] s r l = refl
put_all-placed c2h rngsz ((addr, len) ∷ cs) s r l =
    let t = mm_put c2h rngsz addr len s in
    let (e, b) = put-pidx c2h rngsz addr len s r l in
    put_all-placed c2h rngsz cs t r (rw e b) ∙ ap (λ i. placed c2h rngsz i t.ep_addr cs t.ring) e

pub put_all-last_slot :
    (c2h : Bool) (rngsz : ℕ) (cs : List Chunk) (s : MmLoop)
    → rngsz ≤ ring_max
    → s.pidx < rngsz
    → cs ≢ []
    → (put_all c2h rngsz cs s).desc_end ≡ some (last_slot rngsz s.pidx cs)
unfolding put_all last_slot mm_put
put_all-last_slot c2h rngsz [] s r l h = absurd (h refl)
put_all-last_slot c2h rngsz ((addr, len) ∷ []) s r l h = refl
put_all-last_slot c2h rngsz ((addr, len) ∷ d ∷ cs) s r l h =
    let t = mm_put c2h rngsz addr len s in
    let (e, b) = put-pidx c2h rngsz addr len s r l in
    put_all-last_slot c2h rngsz (d ∷ cs) t r (rw e b) (λ k. cc)
    ∙ ap (λ i. some (last_slot rngsz i (d ∷ cs))) e

-- The ring after all chunks of a request were written: the first descriptor starts the packet, the last
-- one ends it.
abbrev pub sent_ring : Descq → List MmDesc → Request → List MmDesc
sent_ring q ring cb =
    let cs = chunks cb.sgl in
    flagged (2 ^ 29) q.pidx (
      flagged (2 ^ 30) (last_slot q.conf.rngsz q.pidx cs)
        (placed q.conf.c2h q.conf.rngsz q.pidx (cb.ep_addr % 2 ^ 64) cs ring))

pub mm_run-last_slot :
    (q : Descq) (ring : List MmDesc) (cb : Request)
    → IsRing q
    → All IsWord cb.sgl
    → writes q cb 0 ≡ chunks cb.sgl
    → chunks cb.sgl ≢ []
    → (mm_run q ring cb 0 0).desc_end ≡ some (last_slot q.conf.rngsz q.pidx (chunks cb.sgl))
mm_run-last_slot q ring cb r w all h =
    rw (mm_run-eq-put_all q ring cb 0 0 w, all)
      (put_all-last_slot q.conf.c2h q.conf.rngsz (chunks cb.sgl) (start q ring cb) r.size r.pidx_in
        h)

pub mm_finish-sent_ring :
    (q : Descq) (ring : List MmDesc) (cb : Request)
    → IsRing q
    → All IsWord cb.sgl
    → writes q cb 0 ≡ chunks cb.sgl
    → cb.offset ≡ 0
    → (mm_finish q cb q.pidx
        (last_slot q.conf.rngsz q.pidx (chunks cb.sgl))
        (mm_run q ring cb 0 0)).1
      ≡ sent_ring q ring cb
unfolding mm_finish or_flag
mm_finish-sent_ring q ring cb r w all z =
    let cs = chunks cb.sgl in
    let ep : (cb.ep_addr + cb.offset) % 2 ^ 64 ≡ cb.ep_addr % 2 ^ 64 = rw z (omega arith) in
    let whole : (mm_run q ring cb 0 0).ring
        ≡ placed q.conf.c2h q.conf.rngsz q.pidx (cb.ep_addr % 2 ^ 64) cs ring =
      rw (mm_run-eq-put_all q ring cb 0 0 w, all)
        (put_all-placed q.conf.c2h q.conf.rngsz cs (start q ring cb) r.size r.pidx_in
          ∙ ap (λ e. placed q.conf.c2h q.conf.rngsz q.pidx e cs ring) ep) in
    rw whole refl
