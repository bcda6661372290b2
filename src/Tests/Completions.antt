-- ===== src/Tests/Completions.antt =====
-- A completion ring of four entries, and four receive buffers.
use qdmav.Prelude.{◌+◌, ◌*◌, ◌≤◌, ◌<◌, ◌≡◌, refl, arith, true, false, [], ◌∷◌, replicate, All}
use qdmav.Prelude.Errors.{ok}
use qdmav.Ring.{ring_idx_delta, ring_idx_incr}
use qdmav.C2h.Flq.{Flq, read_from, copy_buffer, descq_st_c2h_read}
use qdmav.C2h.Flq.Copies.{IsInside, st_c2h_read-IsInside}
use qdmav.C2h.Packet.{buffers_of, rcv_pkt}
use qdmav.C2h.Packet.Buffers.{rcv_pkt_takes}
use Prim.Native.Nat.{bit_or}
use qdmav.Descq.{emit}
use qdmav.Descq.Events.{write_reg}
use qdmav.Descq.Update.{wrb_cidx_word, descq_wrb_cidx_update}
use qdmav.Mbox.Transport.Delivery.{file}
use qdmav.C2h.Ctrl.{CmplCtrl, configured, cmpl_ctrl_set, cmpl_ctrl_get}
use qdmav.C2h.Ctrl.ReadBack.{cmpl_ctrl_get-set}
use qdmav.Tests.{request, queue}

-- Two buffers hold a packet of 5000 bytes that has not been read.
abbrev buffers : Flq
buffers = record {
  size = 4;
  pg_shift = 12;
  udd_cnt = 0;
  pkt_dlen = 5000;
  alloc_fail = 0;
  mapping_err = 0;
  pidx_pend = 1;
  desc = 0x4000 ∷ 0x5000 ∷ 0x6000 ∷ 0x7000 ∷ [];
  sdesc =
      record { has_pg = true; offset = 0; len = 4096; dma_addr = 0x4000 }
      ∷ record { has_pg = true; offset = 0; len = 4096; dma_addr = 0x5000 }
      ∷ record { has_pg = true; offset = 0; len = 904; dma_addr = 0x6000 }
      ∷ record { has_pg = true; offset = 0; len = 4096; dma_addr = 0x7000 }
      ∷ [];
  sdesc_info = replicate 4 (record { valid = false; sop = false; eop = false; cidx = 0 });
}

read_copies :
    (descq_st_c2h_read 4096 true true buffers queue request).4
    ≡ record { pidx = 1; foff = 0; j = 0; toff = 0; count = 100 }
      ∷ record { pidx = 1; foff = 100; j = 1; toff = 0; count = 200 }
      ∷ []
unfolding descq_st_c2h_read ring_idx_delta read_from copy_buffer
read_copies = refl

st_c2h_read-IsInside_example :
    All
      (IsInside request.sgl buffers.sdesc)
      (descq_st_c2h_read 4096 true true buffers queue request).4
st_c2h_read-IsInside_example =
    st_c2h_read-IsInside 4096 true true buffers queue request (omega arith)
      (omega arith, (omega arith, tt))
      (omega arith, (omega arith, (omega arith, (omega arith, tt)))) (omega arith)

rcv_pkt_takes_example :
    let (rv, pidx', q', f') = rcv_pkt (λ len n pidx. ok 0) 3 5000 queue buffers in
    (rv ≡ ok 0)
    × (0 < 2)
    × (5000 ≤ 2 * 4096)
    × (0 < 5000 → 2 * 4096 < 5000 + 4096)
    × (pidx' ≡ ring_idx_incr 3 2 4)
    × (q'.avail + 2 ≡ 3)
    × (f'.pkt_dlen ≡ 5000 + 5000)
unfolding buffers_of
rcv_pkt_takes_example =
    rcv_pkt_takes (λ len n pidx. ok 0) 3 5000 queue buffers refl (omega arith) (omega arith)
      (omega arith) (omega arith) (omega arith) (omega arith) (omega arith)

-- A control with the timer's index 5 and the counter's index 9, on registers that keep what is written.
abbrev control : CmplCtrl
control = record {
  cnt_th_idx = 9;
  timer_idx = 5;
  trigger_mode = 1;
  en_stat_desc = true;
  cmpl_en_intr = true;
}

cmpl_ctrl_get-set_example :
    let q' = cmpl_ctrl_set control queue in
    let w = wrb_cidx_word q'.conf 0 in
    (q'.events ≡ write_reg 0x642c w ∷ [])
    × ((cmpl_ctrl_get file q' (file.write_reg 0x642c w (λ reg. 0))).0
        ≡ record control { cnt_th_idx = 0; timer_idx = bit_or 5 9 })
unfolding cmpl_ctrl_set descq_wrb_cidx_update configured emit
cmpl_ctrl_get-set_example =
    cmpl_ctrl_get-set file control queue
      (file.write_reg 0x642c (wrb_cidx_word (cmpl_ctrl_set control queue).conf 0) (λ reg. 0))
      (omega arith) (omega arith) (omega arith) (omega arith) refl
