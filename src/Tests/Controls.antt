-- ===== src/Tests/Controls.antt =====
-- Queues that are configured, started and stopped on a device that keeps its contexts.
use qdmav.Prelude.{zero, suc, ◌+◌, ◌≡◌, refl, sym, arith, true, false, [], ◌∷◌, none, some, modify}
use qdmav.Prelude.Errors.{invalid_descq_state, Result, ok, err}
use qdmav.Descq.{Descq}
use qdmav.Device.{side, descq_at, qdma_device_get_descq_by_id}
use qdmav.Mm.Accounting.{IsRing}
use qdmav.Threads.{same_position, Thread, Threads}
use qdmav.Lifecycle.{GlobalCsrConf}
use qdmav.Lifecycle.Resources.{Memory, choose_vector}
use qdmav.Lifecycle.Resources.Effects.{HasMemory}
use qdmav.Control.{Driver, said, qdma_queue_start, start_body, stop_body}
use qdmav.Control.Phases.{phase, IsSound, IsIdle, start, stop, remove}
use qdmav.Control.Refines.{AllSound}
use qdmav.Control.Machine.{Trail, run, run-Trail}
use qdmav.Control.Running.{queue_start-IsRing}
use qdmav.Control.Stopping.{stop-start}
use qdmav.Control.Misuse.{start_twice_resets}
use qdmav.Tests.{queue}
use qdmav.Context.{hw_port}
use qdmav.Tests.Board.{Board, board, board_view, board-IsMemory, idle_board}
use qdmav.Tests.Lifecycles.{csr}
use qdmav.Tests.Queues.{xdev, qdev}

-- A queue that was configured, and one that is not in use.
abbrev ready : Descq
ready = record queue {
  inited = false;
  online = false;
  has_desc = false;
  wrkthp = none;
  wbthp = none;
  work_list = [];
}

abbrev unused_queue : Descq
unused_queue = record ready { enabled = false }

abbrev thread : Thread
thread = record { work_cnt = 1; work_list = (true, 5) ∷ [] }

abbrev idle_thread : Thread
idle_thread = record { work_cnt = 0; work_list = [] }

abbrev threads : Threads
threads = record {
  wrk_threads = thread ∷ idle_thread ∷ [];
  wb_threads = idle_thread ∷ idle_thread ∷ [];
}

abbrev driver : Driver Board
driver = record {
  xdev = record xdev {
    qdev = record qdev { qmax = 1; h2c_descq = ready ∷ []; c2h_descq = unused_queue ∷ [] };
    intr_list_cnt = 0 ∷ 0 ∷ 5 ∷ 2 ∷ [];
  };
  threads = threads;
  intr_list = [] ∷ [] ∷ ((true, 4) ∷ []) ∷ [] ∷ [];
  hw = idle_board;
}

abbrev read_csr : Board → Result GlobalCsrConf × Board
read_csr s = (ok csr, s)

abbrev memory : Memory
memory = record { ring_bus = some 0x10000; wrb_bus = some 0x20000; flq = ok 0 }

memory-HasMemory : HasMemory memory
memory-HasMemory = ((0x10000, refl), (0x20000, refl), (0, refl))

ready-IsIdle : IsIdle ready
ready-IsIdle = record { inited = refl; online = refl; desc = refl; desc_wrb = refl }

ready-IsSound : IsSound ready
ready-IsSound = record { enabled = λ h. refl; online = refl; desc = refl; desc_wrb = λ h. refl }

unused-IsSound : IsSound unused_queue
unused-IsSound = record { enabled = λ h. h; online = refl; desc = refl; desc_wrb = λ h. refl }

driver-AllSound : AllSound driver
unfolding descq_at side
driver-AllSound (true, zero) q h = let e : unused_queue ≡ q = cc h in rw (sym e) unused-IsSound
driver-AllSound (true, suc i) q h = cc
driver-AllSound (false, zero) q h = let e : ready ≡ q = cc h in rw (sym e) ready-IsSound
driver-AllSound (false, suc i) q h = cc

found : descq_at driver.xdev.qdev (false, 0) ≡ some ready
unfolding descq_at side
found = refl

run-Trail_example :
    let ops = start 0 memory false ∷ stop 0 false ∷ remove 0 ∷ [] in
    (q' : Descq) × (descq_at (run (hw_port board) read_csr ops driver).xdev.qdev (false, 0)
      ≡ some q')
    × IsSound q'
    × Trail (hw_port board) read_csr (false, 0) driver ops (phase ready) (phase q')
run-Trail_example =
    run-Trail (hw_port board) read_csr (λ s. (csr, refl))
      (start 0 memory false ∷ stop 0 false ∷ remove 0 ∷ []) driver (false, 0) ready driver-AllSound
      found

named : qdma_device_get_descq_by_id (some driver.xdev) 0 true ≡ some (false, 0)
unfolding qdma_device_get_descq_by_id descq_at side
named = refl

queue_start-IsRing_example :
    let (rv, d') = qdma_queue_start (hw_port board) read_csr 0 memory false driver in
    (rv ≡ said false)
    × ((q' : Descq) × (descq_at d'.xdev.qdev (false, 0) ≡ some q')
        × (q'.online ≡ true)
        × IsRing q'
        × (q'.avail + 2 ≡ 9))
queue_start-IsRing_example =
    queue_start-IsRing (hw_port board) board_view board-IsMemory read_csr memory memory-HasMemory
      false 0 driver (false, 0) ready csr named found ready-IsSound refl refl (omega arith)
      (omega arith)

stop-start_example :
    let (rv1, q1, d1) = start_body (hw_port board) read_csr memory false (false, 0) ready driver in
    let (rv2, q2, d2) = stop_body (hw_port board) false (false, 0) q1 d1 in
    (d2.threads ≡ driver.threads)
    × (d2.intr_list ≡ driver.intr_list)
    × (q2.online ≡ false)
    × (d2.xdev.intr_list_cnt ≡ modify (choose_vector driver.xdev) suc driver.xdev.intr_list_cnt)
unfolding same_position
stop-start_example =
    stop-start (hw_port board) board_view board-IsMemory read_csr memory memory-HasMemory false
      (false, 0) ready driver csr refl refl ready-IsIdle
      (record {
        wrk = ((omega arith, (refl, tt)), ((omega arith, tt), tt));
        wb = ((omega arith, tt), ((omega arith, tt), tt));
        intr = (tt, (tt, ((refl, tt), (tt, tt))));
      })
      refl (λ h. absurd (omega (arith, h)))

start_twice_resets_example :
    let (rv, q', d') = start_body (hw_port board) read_csr memory false (false, 0) queue driver in
    (rv ≡ err invalid_descq_state)
    × (q'.pidx ≡ 0)
    × (q'.cidx ≡ 0)
    × (q'.avail + 2 ≡ 9)
    × (q'.pend_list ≡ queue.pend_list)
start_twice_resets_example =
    start_twice_resets (hw_port board) read_csr memory false (false, 0) queue driver csr refl
      (record { enabled = refl; inited = refl; online = refl; desc = refl }) (omega arith)
      (omega arith)
