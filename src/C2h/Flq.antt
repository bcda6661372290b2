-- ===== src/C2h/Flq.antt =====
-- The receive buffers of a streaming C2H queue (libqdma/qdma_st_c2h.c): refilling them, and copying
-- what they hold to a request. `sdesc`, `sdesc_info` and the ring's descriptors, of which only the
-- address counts, are lists of `size` entries, each linked to the next. A copy of bytes is kept as what
-- it copies. The size of a buffer, PAGE_SIZE << pg_order, is an argument, and so is what the allocator
-- gives at each step.
pub mod Steps
pub mod Copies
use qdmav.Prelude.{
  ℕ, zero, suc, ◌+◌, ◌-◌, ◌^◌, min, Bool, true, false, not, ◌&&◌, ◌||◌, List, [], ◌∷◌, ◌++◌, Option,
  none, some, add32, sub32, ◌==◌, if◌then◌else◌, modify, get_elem?, drop,
}
use qdmav.Prelude.Errors.{Error, einval, enomem, Result, ok, err}
use qdmav.Ring.{ring_idx_delta, ring_idx_incr, ring_idx_decr}
use qdmav.Request.{SwSg, Request}
use qdmav.Descq.{Descq, update}
use qdmav.Descq.Update.{descq_c2h_pidx_update, descq_wrb_cidx_update}

-- `struct qdma_sdesc_info`
pub record SdescInfo : Type 0 where
  pub valid : Bool
  pub sop : Bool
  pub eop : Bool
  pub cidx : ℕ

-- `struct qdma_flq`, with the ring's addresses
pub record Flq : Type 0 where
  pub size : ℕ
  pub pg_shift : ℕ
  pub udd_cnt : ℕ
  pub pkt_dlen : ℕ
  pub alloc_fail : ℕ
  pub mapping_err : ℕ
  pub pidx_pend : ℕ
  pub desc : List ℕ
  pub sdesc : List SwSg
  pub sdesc_info : List SdescInfo

unfoldable pub clear_flags : SdescInfo → SdescInfo
clear_flags s = record s { valid = false; sop = false; eop = false }

-- Entry `idx` is unmapped where it has an address.
unfoldable pub flq_unmap_one : ℕ → Flq → Flq
flq_unmap_one idx f = elim (get_elem? f.sdesc idx) [
  | none ↦ f
  | some s ↦
      let unmapped = record f {
        desc = modify idx (λ _. 0) f.desc;
        sdesc = modify idx (λ s. record s { dma_addr = 0 }) f.sdesc;
      } in
      if s.dma_addr == 0 then f else unmapped
]

unfoldable pub flq_fill_one : ℕ → Result ℕ → ℕ → Flq → Result ℕ × Flq
flq_fill_one buf_size (err e) idx f = (err e, f)
flq_fill_one buf_size (ok addr) idx f = (
  ok 0,
  record f {
    desc = modify idx (λ _. addr) f.desc;
    sdesc =
        modify idx (λ s. record s { has_pg = true; dma_addr = addr; len = buf_size; offset = 0 })
          f.sdesc;
  },
)

unfoldable pub count_failure : Error → Flq → Flq
count_failure enomem f = record f { alloc_fail = f.alloc_fail + 1 }
count_failure e f = record f { mapping_err = f.mapping_err + 1 }

-- The buffer of entry `idx` for the next packet: the same, or a new one.
unfoldable pub renew : ℕ → Bool → Result ℕ → ℕ → Flq → Result ℕ × Flq
renew buf_size true alloc idx f =
    (ok 0, record f { sdesc = modify idx (λ s. record s { len = buf_size; offset = 0 }) f.sdesc })
renew buf_size false alloc idx f = flq_fill_one buf_size alloc idx (flq_unmap_one idx f)

-- The loop with `count` entries to go and `i` done.
unfoldable pub refill_from : ℕ → Bool → (ℕ → Result ℕ) → ℕ → ℕ → ℕ → Flq → Descq → ℕ × Flq × Descq
refill_from buf_size recycle alloc zero i idx f q = (i, f, q)
refill_from buf_size recycle alloc (suc count) i idx f q =
    let here = if idx == f.size then 0 else idx in
    let (rv, f1) = renew buf_size recycle (alloc i) here f in
    let f2 = record f1 { sdesc_info = modify here clear_flags f1.sdesc_info } in
    let rest =
      refill_from buf_size recycle alloc count (i + 1) (here + 1) f2
        (record q { avail = add32 q.avail 1 }) in
    elim rv [ err e ↦ (i, count_failure e f1, q) | ok _ ↦ rest ]

unfoldable pub qdma_flq_refill : ℕ → ℕ → ℕ → Bool → (ℕ → Result ℕ) → Flq → Descq → ℕ × Flq × Descq
qdma_flq_refill buf_size idx count recycle alloc f q =
    refill_from buf_size recycle alloc count 0 idx f q

-- A `memcpy` to entry `j` of the request, at `toff` of its page, from `foff` of the page of the buffer
-- at `pidx`.
pub record Copy : Type 0 where
  pub pidx : ℕ
  pub foff : ℕ
  pub j : ℕ
  pub toff : ℕ
  pub count : ℕ

abbrev pub is_nil : List SwSg → Bool
is_nil [] = true
is_nil (t ∷ ts) = false

-- The variables of the loops: `tsg` is the rest of the request's entries.
pub record ReadLoop : Type 0 where
  pub foff : ℕ
  pub tsg : List SwSg
  pub tsgoff : ℕ
  pub j : ℕ
  pub copied : ℕ
  pub copies : List Copy

-- One buffer: `while (flen && tsg)`. It ends with an entry that has room left, since then `flen` is
-- zero. The source's address is the page's, whatever `offset` the buffer has.
unfoldable pub copy_buffer : ℕ → ℕ → List SwSg → ReadLoop → ReadLoop
copy_buffer pidx flen [] s = record s { tsg = [] }
copy_buffer pidx flen (t ∷ ts) s =
    let copy = min flen (sub32 t.len s.tsgoff) in
    let s1 = record s {
      foff = add32 s.foff copy;
      tsgoff = add32 s.tsgoff copy;
      copied = add32 s.copied copy;
      copies =
          s.copies
          ++ (record {
            pidx = pidx;
            foff = s.foff;
            j = s.j;
            toff = add32 t.offset s.tsgoff;
            count = copy;
          }
              ∷ []);
    } in
    let rest = copy_buffer pidx (flen - copy) ts (record s1 { tsgoff = 0; j = add32 s.j 1 }) in
    if flen == 0
    then record s { tsg = t ∷ ts }
    else (if s1.tsgoff == t.len then rest else record s1 { tsg = t ∷ ts })

-- The last buffer of a packet.
unfoldable pub note_end : Option SdescInfo → Descq → Descq
note_end none q = q
note_end (some info) q = if info.eop then record q { cidx_wrb_pend = info.cidx } else q

-- `while ((i < fsgcnt) && tsg)`, with `n` buffers to go: the buffers that were emptied, the index, the
-- queue, and the offset in the last buffer.
unfoldable pub read_from : Flq → ℕ → ℕ → ℕ → Descq → ReadLoop → ℕ × ℕ × Descq × ReadLoop
read_from f zero i pidx q s = (i, pidx, q, s)
read_from f (suc n) i pidx q s = elim s.tsg [
  | [] ↦ (i, pidx, q, s)
  | t ∷ ts ↦ elim (get_elem? f.sdesc pidx) [
    | none ↦ (i, pidx, q, s)
    | some fsg ↦
        let s1 = copy_buffer pidx fsg.len (t ∷ ts) (record s { foff = 0 }) in
        let q1 = note_end (get_elem? f.sdesc_info pidx) q in
        let rest =
          read_from f n (i + 1) (ring_idx_incr pidx 1 q.conf.rngsz) q1 (record s1 { foff = 0 }) in
        if s1.foff == fsg.len then rest else (i, pidx, q, s1)
  ]
]

-- The copies are the last value. `buf_size` is for the refill.
unfoldable pub descq_st_c2h_read :
    ℕ → Bool → Bool → Flq → Descq → Request → Result ℕ × Flq × Descq × Request × List Copy
descq_st_c2h_read buf_size update_pidx refill f q cb =
    let fsgcnt = ring_idx_delta q.pidx f.pidx_pend f.size in
    let tsg = drop cb.sg_idx cb.sgl in
    let (i, pidx, q1, s) = read_from f fsgcnt 0 f.pidx_pend q (record {
      foff = 0;
      tsg = tsg;
      tsgoff = cb.sg_offset;
      j = cb.sg_idx;
      copied = 0;
      copies = [];
    }) in
    let (n, f2, q2) = qdma_flq_refill buf_size f.pidx_pend i true (λ _. ok 0) f q1 in
    let (f3, q3) = if refill && not (i == 0) then (f2, q2) else (f, q1) in
    let f4 = record f3 {
      pidx_pend = ring_idx_incr f3.pidx_pend i f3.size;
      sdesc =
          if s.foff == 0
          then f3.sdesc
          else modify pidx
              (λ g. record g { offset = add32 g.offset s.foff; len = sub32 g.len s.foff }) f3.sdesc;
      pkt_dlen = sub32 f3.pkt_dlen s.copied;
    } in
    let q4 =
      if update_pidx
      then descq_wrb_cidx_update (descq_c2h_pidx_update q3 (ring_idx_decr f4.pidx_pend 1 f4.size))
          q3.cidx_wrb_pend
      else q3 in
    let cb' = record cb { sg_idx = s.j; sg_offset = s.tsgoff; left = sub32 cb.left s.copied } in
    if fsgcnt == 0
    then (ok 0, f, q, cb, [])
    else (if not (cb.sg_idx == 0) && is_nil tsg
        then (err einval, f, q, cb, [])
        else (ok s.copied, f4, q4, cb', s.copies))
