-- ===== src/StH2c.antt =====
-- A streaming H2C request: `descq_proc_st_h2c_request` of libqdma/qdma_descq.c, and
-- `qdma_descq_proc_sgt_request`, which sends a request to it or to the memory-mapped one. The kernel's
-- PAGE_SIZE is a section parameter.
pub mod Chunks
pub mod Placed
pub mod Call
pub mod Outcome
use Prim.Native.Nat.{bit_or}
use qdmav.Prelude.{
  ℕ, zero, suc, ◌+◌, ◌-◌, ◌%◌, ◌^◌, min, Bool, true, false, List, [], ◌∷◌, Option, none, some,
  add32, add64, sub32, ◌==◌, if◌then◌else◌, is_some, modify, drop,
}
use qdmav.Prelude.Errors.{Error, einval, Result, ok, err}
use qdmav.Request.{SwSg, Request}
use qdmav.Descq.{Descq, emit, update}
use qdmav.Descq.Events.{wake_wrb_thread}
use qdmav.Descq.Update.{descq_h2c_pidx_update}
use qdmav.Mm.{mm_begin, mm_entry, req_submitted}

-- `struct qdma_h2c_desc`
pub record H2cDesc : Type 0 where
  pub cdh_flags : ℕ
  pub pld_len : ℕ
  pub len : ℕ
  pub flags : ℕ
  pub src_addr : ℕ

-- The loops' variables: the queue, whose `pidx` and events change with every descriptor, and the
-- counters. `desc` points at the ring's entry `pidx` throughout; of `desc_max - desc_cnt` the loops
-- keep the value, `room`.
pub record StLoop : Type 0 where
  pub ring : List H2cDesc
  pub queue : Descq
  pub data_cnt : ℕ
  pub desc_cnt : ℕ

-- S_H2C_DESC_F_SOP, S_H2C_DESC_F_EOP and S_H2C_DESC_F_ZERO_CDH, as they are or-ed in
abbrev pub sop : ℕ
sop = 1

abbrev pub eop : ℕ
eop = 2

abbrev pub zero_cdh : ℕ
zero_cdh = 13

-- What is written into an entry: its flags are added to those that it has.
unfoldable pub st_desc : Bool → ℕ → ℕ → H2cDesc → H2cDesc
st_desc last addr len d = record {
  cdh_flags = bit_or d.cdh_flags zero_cdh;
  pld_len = len % 2 ^ 16;
  len = len % 2 ^ 16;
  flags = if last then bit_or d.flags eop else d.flags;
  src_addr = addr;
}

unfoldable pub next_pidx : Descq → Descq
next_pidx q = record q { pidx = if add32 q.pidx 1 == q.conf.rngsz then 0 else add32 q.pidx 1 }

-- The body of `do … while (tlen)`: one descriptor, and the doorbell.
unfoldable pub st_put : Bool → ℕ → ℕ → StLoop → StLoop
st_put last addr len s =
    let q = next_pidx s.queue in
    record {
      ring = modify s.queue.pidx (st_desc last addr len) s.ring;
      queue = descq_h2c_pidx_update q q.pidx;
      data_cnt = add32 s.data_cnt len;
      desc_cnt = add32 s.desc_cnt 1;
    }

-- `i == sg_max - 1`, by the entries that follow.
abbrev pub is_last : List SwSg → Bool
is_last [] = true
is_last (sg ∷ sgl) = false

module _ (page_size : ℕ) where
  -- `do … while (tlen)`, left when no room remains. The result has the room that remains.
  unfoldable pub st_fill : Bool → ℕ → ℕ → ℕ → StLoop → ℕ × StLoop
  st_fill last zero addr tlen s = (0, s)
  st_fill last (suc room) addr tlen s =
      let len = min tlen page_size in
      let s' = st_put last addr len s in
      let rest = st_fill last room (add64 addr len) (tlen - len) s' in
      if tlen - len == 0 then (room, s') else rest

  -- The `for` loop: the last entry of the list gets the end flag.
  unfoldable pub st_sgl : ℕ → List SwSg → ℕ → StLoop → StLoop
  st_sgl room [] sg_offset s = s
  st_sgl zero (sg ∷ sgl) sg_offset s = s
  st_sgl (suc room) (sg ∷ sgl) sg_offset s =
      let (addr, tlen) = mm_entry sg_offset sg in
      let (room', s') = st_fill (is_last sgl) (suc room) addr tlen s in st_sgl room' sgl 0 s'

  unfoldable pub st_run : Descq → List H2cDesc → Request → ℕ → ℕ → StLoop
  st_run q ring cb i sg_offset =
      let start = λ (d : H2cDesc). record d { flags = bit_or d.flags sop } in
      st_sgl q.avail (drop i cb.sgl) sg_offset (record {
        ring = if cb.offset == 0 then modify q.pidx start ring else ring;
        queue = q;
        data_cnt = 0;
        desc_cnt = 0;
      })

  -- The end of the function.
  unfoldable pub st_finish : Descq → Request → StLoop → Descq × List H2cDesc × Request
  st_finish q cb s =
      let q1 = record (s.queue) { avail = sub32 s.queue.avail s.desc_cnt } in
      let cb' = record cb {
        desc_nr = add32 cb.desc_nr s.desc_cnt;
        offset = add32 cb.offset s.data_cnt;
      } in
      let q2 =
        if cb'.offset == cb.count
        then req_submitted q1 cb'
        else record q1 { work_list = update cb' q1.work_list } in
      (if is_some q.wbthp then emit wake_wrb_thread q2 else q2, s.ring, cb')

  unfoldable pub descq_proc_st_h2c_request :
      Descq → List H2cDesc → Request → Result ℕ × Descq × List H2cDesc × Request
  descq_proc_st_h2c_request q ring cb =
      if q.avail == 0 then (ok 0, q, ring, cb) else elim (mm_begin cb) [
        | none ↦ (err einval, q, ring, cb)
        | some (i, sg_offset) ↦
            let (q', ring', cb') = st_finish q cb (st_run q ring cb i sg_offset) in
            (ok 0, q', ring', cb')
      ]
