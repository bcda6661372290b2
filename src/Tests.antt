-- ===== src/Tests.antt =====
-- Inputs on which the theorems and the functions are exercised.
mod Board
mod Contexts
mod Completions
mod Lifecycles
mod Functions
mod Queues
mod Controls
mod Workers
mod Transfers
mod Interrupts
mod Submits
mod Mailboxes
mod Devices
use qdmav.Prelude.{ℕ, some, List, [], ◌∷◌, true, false, replicate}
use qdmav.Request.{SwSg, Request}
use qdmav.Descq.{QueueConf, Descq}
use qdmav.Mm.{MmDesc}

abbrev pub conf : QueueConf
conf = record {
  qidx = 2;
  st = false;
  c2h = false;
  irq_en = true;
  desc_rng_sz_idx = 3;
  wbk_en = true;
  wbk_acc_en = false;
  wbk_pend_chk = true;
  bypass = false;
  pfetch_en = false;
  fetch_credit = false;
  c2h_buf_sz_idx = 1;
  cmpl_rng_sz_idx = 4;
  cmpl_desc_sz = 0;
  cmpl_stat_en = true;
  cmpl_udd_en = false;
  cmpl_timer_idx = 5;
  cmpl_cnt_th_idx = 9;
  cmpl_trig_mode = 1;
  has_isr_top = false;
  has_c2h_packet = false;
  rngsz = 4;
  rngsz_wrb = 4;
  c2h_bufsz = 4096;
}

abbrev pub request : Request
request = record {
  id = 7;
  count = 300;
  ep_addr = 0x1000;
  write = true;
  dma_mapped = true;
  has_fp_done = true;
  sgl =
      record { has_pg = true; offset = 0; len = 100; dma_addr = 0x8000 }
      ∷ record { has_pg = true; offset = 0; len = 200; dma_addr = 0x9000 }
      ∷ [];
  desc_nr = 0;
  offset = 0;
  left = 0;
  sg_offset = 0;
  sg_idx = 0;
  failed = false;
  done = false;
  unmap_needed = false;
}

-- An empty ring of four slots whose indices stand before the wrap.
abbrev pub queue : Descq
queue = record {
  conf = conf;
  channel = 0;
  failed = false;
  enabled = true;
  inited = true;
  online = true;
  color = false;
  qidx_hw = 2;
  intr_id = 0;
  wrkthp = some 0;
  wbthp = some 0;
  work_list = request ∷ [];
  pend_list = [];
  avail = 3;
  pidx = 3;
  cidx = 3;
  credit = 0;
  has_desc = true;
  desc_bus = 0x12345678;
  wb_entry_len = 8;
  pidx_wrb = 0;
  cidx_wrb = 0;
  cidx_wrb_pend = 0;
  has_desc_wrb = false;
  desc_wrb_bus = 0;
  events = [];
}

abbrev pub blank : MmDesc
blank = record { src_addr = 0; flag_len = 0; rsvd0 = 0; dst_addr = 0; rsvd1 = 0 }

abbrev pub ring : List MmDesc
ring = replicate 4 blank
