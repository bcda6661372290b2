-- ===== src/C2h.antt =====
-- The completion ring of a streaming C2H queue (libqdma/qdma_st_c2h.c): taking the next entry, and
-- the entry's flags. An entry is its first 64-bit word; `desc_wrb_cur` follows `cidx_wrb`.
pub mod Ctrl
pub mod Color
pub mod Entry
pub mod Flq
pub mod Packet
use qdmav.Prelude.{
  ℕ, zero, suc, ◌+◌, ◌*◌, ◌/◌, ◌%◌, ◌^◌, Bool, true, false, not, ◌&&◌, ◌||◌, ◌==◌, add32, differ,
  if◌then◌else◌,
}
use qdmav.Prelude.Errors.{Error, einval, Result, ok, err}
use qdmav.Descq.{Descq}

-- `struct cmpl_info`, without the entry and the index that are filled in later
pub record CmplInfo : Type 0 where
  pub format : Bool
  pub color : Bool
  pub err : Bool
  pub desc_used : Bool
  pub len : ℕ

unfoldable pub wrb_next : Descq → Descq
wrb_next q =
    if add32 q.cidx_wrb 1 == q.conf.rngsz_wrb
    then record q { cidx_wrb = 0; color = not q.color }
    else record q { cidx_wrb = add32 q.cidx_wrb 1 }

unfoldable pub is_new_cmpl_entry : Descq → CmplInfo → Bool
is_new_cmpl_entry q cmpl = not (differ cmpl.color q.color)

unfoldable pub flag : ℕ → ℕ → Bool
flag k w = w / 2 ^ k % 2 == 1

-- The result, the queue, which is halted by an error, and what the entry says.
unfoldable pub parse_cmpl_entry : Descq → ℕ → Result ℕ × Descq × CmplInfo
parse_cmpl_entry q w =
    let used = flag 3 w in
    let cmpl : CmplInfo = record {
      format = flag 0 w;
      color = flag 1 w;
      err = flag 2 w;
      desc_used = used;
      len = if not (flag 0 w) && used then w / 2 ^ 4 % 2 ^ 16 else 0;
    } in
    let bad = flag 2 w || flag 0 w || not used && not q.conf.cmpl_udd_en in
    (if bad then err einval else ok 0, if bad then record q { failed = true } else q, cmpl)
