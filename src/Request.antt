-- ===== src/Request.antt =====
-- A transfer request and its scatter-gather list: `struct qdma_request`, `struct qdma_sgt_req_cb`
-- and `struct qdma_sw_sg` of libqdma. The control block lies in the request's opaque bytes, so one
-- record holds both; the array `sgl` of `sgcnt` entries is a list of that length, which is
-- walked in order, by index or by `next`. Wait queues have no state here: `done` is what a waiter sees.
pub mod Sgl
use qdmav.Prelude.{ℕ, Bool, List}

pub record SwSg : Type 0 where
  pub has_pg : Bool
  pub offset : ℕ
  pub len : ℕ
  pub dma_addr : ℕ

pub record Request : Type 0 where
  -- what the caller fills in
  pub id : ℕ
  pub count : ℕ
  pub ep_addr : ℕ
  pub write : Bool
  pub dma_mapped : Bool
  pub has_fp_done : Bool
  pub sgl : List SwSg
  -- the control block
  pub desc_nr : ℕ
  pub offset : ℕ
  pub left : ℕ
  pub sg_offset : ℕ
  pub sg_idx : ℕ
  pub failed : Bool
  pub done : Bool
  pub unmap_needed : Bool
