-- ===== src/Descq/Events.antt =====
-- What a queue does to the device and to other threads, and the registers' addresses
-- (libqdma/qdma_regs.h).
use qdmav.Prelude.{ℕ, Bool}

pub data Event : Type 0 where
  -- an address and a value
  write_reg : ℕ → ℕ → Event
  wake_wrb_thread : Event
  wake_work_thread : Event
  -- a request, its bytes done, and whether it failed
  callback : ℕ → ℕ → Bool → Event
  wake_waiter : ℕ → Event
  unmap_sgl : ℕ → Event
  -- a function, its first queue and its number of queues
  set_fmap : ℕ → ℕ → ℕ → Event
  setup_err_intr : Event
  -- a hardware queue, its modes `st` and `c2h`, and whether its context is cleared (or invalidated)
  clear_context : ℕ → Bool → Bool → Bool → Event
  -- a hardware queue enters or leaves the threads' and the interrupt vector's lists
  add_work : ℕ → Event
  remove_work : ℕ → Event
  add_intr : ℕ → Event
  remove_intr : ℕ → Event

abbrev pub h2c_pidx_base : ℕ
h2c_pidx_base = 0x6404

abbrev pub c2h_pidx_base : ℕ
c2h_pidx_base = 0x6408

abbrev pub wrb_cidx_base : ℕ
wrb_cidx_base = 0x640c

abbrev pub pidx_step : ℕ
pidx_step = 0x10
