-- ===== src/Tests/Submits.antt =====
-- Requests of clients on concrete queues.
use qdmav.Prelude.{
  if◌then◌else◌, ◌==◌, ◌*◌, ◌-◌, ℕ, ◌+◌, ◌%◌, ◌^◌, ◌≡◌, refl, arith, true, false, [], ◌∷◌,
  replicate,
}
use qdmav.Prelude.Errors.{ok}
use qdmav.Request.{SwSg, Request}
use qdmav.Descq.{Descq}
use qdmav.C2h.Flq.{Flq}
use qdmav.Submit.{
  Mapping, mapped, bad, sgl_map, sgl_unmap, qdma_request_submit_st_c2h, qdma_queue_packet_read,
}
use qdmav.Submit.Pages.{pages, sgl_map-pages}
use qdmav.Submit.Streaming.{total, HandedOver, packet_read_overcounts, submit_st_c2h-HandedOver}
use qdmav.Tests.{conf, request, queue}

abbrev page : SwSg
page = record { has_pg = true; offset = 8; len = 100; dma_addr = 0 }

-- The second page of three cannot be mapped.
abbrev answers : ℕ → Mapping
answers i = if i == 1 then bad (2 ^ 64 - 1) else mapped (0x1000 * (i + 1))

sgl_map-pages_example :
    let (rv, l) = sgl_map answers 0 (page ∷ page ∷ page ∷ []) in
    ((sgl_unmap l).1 ≡ pages answers 0 (page ∷ page ∷ page ∷ []))
    × ((sgl_unmap (sgl_unmap l).0).1 ≡ [])
sgl_map-pages_example =
    sgl_map-pages answers 0 (page ∷ page ∷ page ∷ [])
      ((refl, refl, omega arith), ((refl, refl, omega arith), ((refl, refl, omega arith), tt)))
      ((omega arith, ground arith), (omega arith, ((omega arith, ground arith), tt)))

abbrev buffers : Flq
buffers = record {
  size = 4;
  pg_shift = 12;
  udd_cnt = 0;
  pkt_dlen = 5000;
  alloc_fail = 0;
  mapping_err = 0;
  pidx_pend = 1;
  desc = 0x4000 ∷ 0x5000 ∷ 0x6000 ∷ 0x7000 ∷ [];
  sdesc =
      record { has_pg = true; offset = 0; len = 4096; dma_addr = 0x4000 }
      ∷ record { has_pg = true; offset = 0; len = 4096; dma_addr = 0x5000 }
      ∷ record { has_pg = true; offset = 0; len = 904; dma_addr = 0x6000 }
      ∷ record { has_pg = true; offset = 0; len = 4096; dma_addr = 0x7000 }
      ∷ [];
  sdesc_info = replicate 4 (record { valid = false; sop = false; eop = false; cidx = 0 });
}

abbrev stream : Descq
stream = record queue { conf = record conf { st = true; c2h = true } }

packet_read_overcounts_example :
    let (rv, f', q', cb', copies) = qdma_queue_packet_read 4096 buffers stream request in
    rv ≡ ok ((300 + total copies) % 2 ^ 32)
packet_read_overcounts_example = packet_read_overcounts 4096 buffers stream request refl refl

submit_st_c2h-HandedOver_example :
    HandedOver 300 [] (qdma_request_submit_st_c2h (λ q cb. (q, cb)) 4096 buffers stream request)
submit_st_c2h-HandedOver_example =
    submit_st_c2h-HandedOver (λ q cb. (q, cb)) 4096 buffers stream request refl refl (omega arith)

-- Two requests of a descriptor each wait for the device.
abbrev waiting : ℕ → Request
waiting id = record request { id = id; has_fp_done = false; desc_nr = 1 }

abbrev busy : Descq
busy = record queue { work_list = []; pend_list = waiting 1 ∷ waiting 2 ∷ [] }
