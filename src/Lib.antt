-- ===== src/Lib.antt =====
-- Verification of libqdma, the kernel library of the Xilinx QDMA driver (libqdma/), for the
-- physical function (no __QDMA_VF__), without the ERR_DEBUG build.
--
-- A client adds, starts and stops queues and submits requests; the request thread turns a
-- request's scatter-gather list into descriptors in the queue's ring and tells the device the new
-- producer index; the device writes back how far it has come, and the completion thread or the
-- interrupt credits finished descriptors to requests. For ST C2H the device fills receive buffers
-- itself and reports packets in a completion ring.
--
-- Numbers are natural numbers; where the source computes in unsigned int or u64 the wrap-around is
-- written out (Prelude.Words). Bit fields of one bit are Bool. Locks, logging, endianness and
-- waits have no model: every function is one atomic step, as it is under the queue's lock.
-- Register writes, wake-ups and callbacks are appended to a list of events, oldest first.
-- Recursion follows the lists, the room that is left, the bits of a word or, in hw_monitor_reg,
-- the reads that the timeout allows. Only two loops are on fuel, since another party decides how
-- often they run: data_intr_aggregate, which is given more rounds than the interrupt ring has
-- entries, and qdma_mbox_proc, which is given more rounds than messages wait. The device behind
-- the registers, the PCI core's and the allocator's answers, what happens while a client waits for
-- its request, and the kernel's PAGE_SIZE are parameters.
--
--   Ring               libqdma/qdma_descq.h: ring_idx_delta, ring_idx_incr, ring_idx_decr
--   Request            libqdma/libqdma_export.h, qdma_descq.h: request, control block, entries;
--                      Request.Sgl: sgl_find_offset
--   Descq              libqdma/qdma_descq.h: struct qdma_descq; Descq.Update: the index updates
--   Mm                 libqdma/qdma_descq.c: descq_mm_proc_request
--   Writeback          libqdma/qdma_descq.c: descq_wb_credit, req_update_pend, qdma_sgt_req_done,
--                      descq_mm_n_h2c_wb
--   StH2c              libqdma/qdma_descq.c: descq_proc_st_h2c_request
--   Device             libqdma/qdma_device.c, xdev.h: the arrays of queues, the lookup by handle
--   Queue              libqdma/libqdma_export.c: qdma_queue_add; qdma_descq_config
--   Hw                 libqdma/qdma_regs.c: hw_monitor_reg, hw_indirect_ctext_prog
--   Context            libqdma/qdma_context.c: the contexts' words and their commands
--   Lifecycle          libqdma/qdma_descq.c: qdma_descq_config_complete; libqdma/qdma_regs.c: the CSR
--                      arrays; libqdma/libqdma_export.c: qdma_request_submit up to the wake-up
--                      Lifecycle.Resources: qdma_descq_alloc_resource and its inverse
--   Control            libqdma/libqdma_export.c: qdma_queue_config, _reconfig, _start, _stop, _remove;
--                      Control.Phases, Control.Machine: the abstract machine of a queue
--   Threads            libqdma/qdma_thread.c: which thread serves a queue
--   Worker             libqdma/qdma_thread.c: the threads' work on a queue; Worker.System: clients,
--                      request thread and device in any order
--   C2h                libqdma/qdma_st_c2h.c: wrb_next, is_new_cmpl_entry, parse_cmpl_entry;
--                      C2h/Flq: qdma_flq_refill, descq_st_c2h_read; C2h/Packet: rcv_pkt, the
--                      loop over completion entries, descq_process_completion_st_c2h; C2h/Ctrl:
--                      qdma_queue_cmpl_ctrl of libqdma/qdma_regs.c
--   Submit             libqdma/libqdma_export.c: sgl_map, sgl_unmap, qdma_request_wait_for_cmpl,
--                      qdma_request_submit_st_c2h, qdma_request_submit; libqdma/qdma_st_c2h.c:
--                      qdma_queue_packet_read, qdma_queue_c2h_peek
--   Intr               libqdma/qdma_intr.c: data_intr_handler and what it calls; Intr.Rings:
--                      intr_ring_setup, intr_ring_teardown; Intr.Vectors: intr_setup,
--                      intr_teardown, irq_bottom; Intr.Errors: err_stat_handler and
--                      qdma_err_intr_setup; Intr.Posted: a device that posts entries
--   Caps               libqdma/qdma_regs.c: qdma_device_attributes_get, hw_set_global_csr, hw_set_fmap,
--                      the engines and the function-level reset
--   Mbox               libqdma/qdma_mbox.c: the loop of qdma_mbox_proc and the requests of virtual
--                      functions; Mbox.Transport: mbox_send, mbox_read and
--                      qdma_mbox_send_msg through the registers
--   Sriov              libqdma/qdma_sriov.c, the VF requests of qdma_mbox.c
--   Prelude            shared names, lists, words, bit operations, error codes
--   Setup              libqdma/qdma_device.c: qdma_device_init; Setup.Config:
--                      libqdma/libqdma_config.c but for qdma_set_qmax
--   Tests              concrete inputs
--
-- Not modelled: allocating and freeing the C2H receive buffers, the mailbox's timer, creating the
-- kernel threads, qdma_device_cleanup and qdma_set_qmax, which stop a whole function; the VF
-- build; and what only calls the kernel or other tools (drv/, user/, tools/, libqdma/xdev.c,
-- libqdma/thread.c).
pub mod Hw
pub mod Context
pub mod Prelude
pub mod Ring
pub mod Request
pub mod Descq
pub mod Mm
pub mod StH2c
pub mod Writeback
pub mod Device
pub mod Queue
pub mod C2h
pub mod Sriov
pub mod Threads
pub mod Worker
pub mod Lifecycle
pub mod Control
pub mod Tests
pub mod Intr
pub mod Submit
pub mod Mbox
pub mod Caps
pub mod Setup
