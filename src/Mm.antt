-- ===== src/Mm.antt =====
-- A memory-mapped transfer request: `descq_mm_proc_request` of libqdma/qdma_descq.c, which splits a
-- request's scatter-gather list into descriptors, as many as the ring has room for.
pub mod Chunks
pub mod Effects
pub mod Accounting
pub mod Placed
pub mod Call
pub mod Outcome
use Prim.Native.Nat.{bit_or}
use qdmav.Prelude.{
  ℕ, zero, suc, ◌+◌, ◌-◌, ◌^◌, min, Bool, true, false, List, [], ◌∷◌, ◌++◌, Option, none, some,
  add32, add64, sub32, leb, ◌==◌, if◌then◌else◌, is_some, modify, get_elem?, set, length, drop,
}
use qdmav.Prelude.Errors.{Error, einval, eio, Result, ok, err}
use qdmav.Request.{SwSg, Request}
use qdmav.Request.Sgl.{sgl_find_offset}
use qdmav.Descq.{Descq, emit, list_del, update}
use qdmav.Descq.Events.{wake_wrb_thread}
use qdmav.Descq.Update.{descq_h2c_pidx_update, descq_c2h_pidx_update}

-- `struct qdma_mm_desc`
pub record MmDesc : Type 0 where
  pub src_addr : ℕ
  pub flag_len : ℕ
  pub rsvd0 : ℕ
  pub dst_addr : ℕ
  pub rsvd1 : ℕ

-- QDMA_DESC_BLEN_MAX
abbrev pub desc_blen_max : ℕ
desc_blen_max = 2 ^ 28 - 1

-- The loop's variables. `desc` points at the ring's entry `pidx` throughout, `desc_end` at the last
-- entry written. Of `desc_max - desc_cnt` the loops keep the value, `room`.
pub record MmLoop : Type 0 where
  pub ring : List MmDesc
  pub pidx : ℕ
  pub ep_addr : ℕ
  pub data_cnt : ℕ
  pub desc_cnt : ℕ
  pub desc_end : Option ℕ

-- `desc->flag_len |= f`
unfoldable pub or_flag : ℕ → MmDesc → MmDesc
or_flag f d = record d { flag_len = bit_or d.flag_len f }

unfoldable pub mm_desc : Bool → ℕ → ℕ → ℕ → MmDesc
mm_desc c2h ep_addr addr len = record {
  src_addr = if c2h then ep_addr else addr;
  flag_len = bit_or len (2 ^ 28);
  rsvd0 = 0;
  dst_addr = if c2h then addr else ep_addr;
  rsvd1 = 0;
}

-- The body of `while (tlen)`: one descriptor of `len` bytes at `addr`.
unfoldable pub mm_put : Bool → ℕ → ℕ → ℕ → MmLoop → MmLoop
mm_put c2h rngsz addr len s = record {
  ring = set s.ring s.pidx (mm_desc c2h s.ep_addr addr len);
  pidx = if add32 s.pidx 1 == rngsz then 0 else add32 s.pidx 1;
  ep_addr = add64 s.ep_addr len;
  data_cnt = add32 s.data_cnt len;
  desc_cnt = add32 s.desc_cnt 1;
  desc_end = some s.pidx;
}

-- `while (tlen)`, left when no room remains. The result has the room that remains.
unfoldable pub mm_fill : Bool → ℕ → ℕ → ℕ → ℕ → MmLoop → ℕ × MmLoop
mm_fill c2h rngsz zero addr tlen s = (0, s)
mm_fill c2h rngsz (suc room) addr tlen s =
    let len = min tlen desc_blen_max in
    let rest = mm_fill c2h rngsz room (add64 addr len) (tlen - len) (mm_put c2h rngsz addr len s) in
    if tlen == 0 then (suc room, s) else rest

-- What the code makes of an entry: where `sg_offset` is set, it is cleared before it is used.
unfoldable pub mm_entry : ℕ → SwSg → ℕ × ℕ
mm_entry sg_offset sg =
    if sg_offset == 0
    then (sg.dma_addr, sg.len)
    else (let sg_offset : ℕ = 0 in (add64 sg.dma_addr sg_offset, sub32 sg.len sg_offset))

-- The `for` loop over the entries from `i` on.
unfoldable pub mm_sgl : Bool → ℕ → ℕ → List SwSg → ℕ → MmLoop → MmLoop
mm_sgl c2h rngsz room [] sg_offset s = s
mm_sgl c2h rngsz zero (sg ∷ sgl) sg_offset s = s
mm_sgl c2h rngsz (suc room) (sg ∷ sgl) sg_offset s =
    let (addr, tlen) = mm_entry sg_offset sg in
    let (room', s') = mm_fill c2h rngsz (suc room) addr tlen s in mm_sgl c2h rngsz room' sgl 0 s'

-- Where to begin: the entry's index and `sg_offset`, or `none` for an offset out of range.
unfoldable pub mm_begin : Request → Option (ℕ × ℕ)
mm_begin cb = if cb.offset == 0 then some (0, 0) else elim (sgl_find_offset cb.sgl cb.offset) [
  | none ↦ none
  | some (i, sg_offset) ↦ if leb (length cb.sgl) i then none else some (i, sg_offset)
]

-- `req_submitted`
unfoldable pub req_submitted : Descq → Request → Descq
req_submitted q cb = record q {
  work_list = list_del cb.id q.work_list;
  pend_list = q.pend_list ++ (cb ∷ []);
}

-- The end of the function, after a descriptor was written at `desc_end`.
unfoldable pub mm_finish : Descq → Request → ℕ → ℕ → MmLoop → Descq × List MmDesc × Request
mm_finish q cb desc_start desc_end s =
    let ring = modify desc_start (or_flag (2 ^ 29)) (modify desc_end (or_flag (2 ^ 30)) s.ring) in
    let q1 = record q { pidx = s.pidx; avail = sub32 q.avail s.desc_cnt } in
    let cb' = record cb {
      desc_nr = add32 cb.desc_nr s.desc_cnt;
      offset = add32 cb.offset s.data_cnt;
    } in
    let q2 =
      if cb'.offset == cb.count
      then req_submitted q1 cb'
      else record q1 { work_list = update cb' q1.work_list } in
    let q3 =
      if q.conf.c2h then descq_c2h_pidx_update q2 q2.pidx else descq_h2c_pidx_update q2 q2.pidx in
    (if is_some q.wbthp then emit wake_wrb_thread q3 else q3, ring, cb')

unfoldable pub mm_run : Descq → List MmDesc → Request → ℕ → ℕ → MmLoop
mm_run q ring cb i sg_offset =
    mm_sgl q.conf.c2h q.conf.rngsz q.avail (drop i cb.sgl) sg_offset (record {
      ring = ring;
      pidx = q.pidx;
      ep_addr = add64 cb.ep_addr cb.offset;
      data_cnt = 0;
      desc_cnt = 0;
      desc_end = none;
    })

unfoldable pub descq_mm_proc_request :
    Descq → List MmDesc → Request → Result ℕ × Descq × List MmDesc × Request
descq_mm_proc_request q ring cb = if q.avail == 0 then (ok 0, q, ring, cb) else elim (mm_begin cb) [
  | none ↦ (err einval, q, ring, cb)
  | some (i, sg_offset) ↦
      let s = mm_run q ring cb i sg_offset in
      elim s.desc_end [
        | none ↦ (err eio, record q { pidx = s.pidx }, s.ring, cb)
        | some desc_end ↦
            let (q', ring', cb') = mm_finish q cb q.pidx desc_end s in (ok 0, q', ring', cb')
      ]
]
