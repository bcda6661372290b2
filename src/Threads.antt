-- ===== src/Threads.antt =====
-- The request and writeback threads and the queues they serve (libqdma/qdma_thread.c). A queue is
-- its position in the device's arrays. The threads themselves are the kernel's; there is at least one.
pub mod Assign
pub mod Lists
use qdmav.Prelude.{
  ℕ, zero, suc, ◌+◌, ◌-◌, ◌%◌, ◌^◌, Bool, true, false, not, ◌&&◌, ◌||◌, List, [], ◌∷◌, ◌++◌, Option,
  none, some, add32, sub32, ltb, ◌==◌, differ, if◌then◌else◌, modify, length,
}
use qdmav.Descq.{Descq}
use qdmav.Device.{Position}

-- `struct qdma_kthread`
pub record Thread : Type 0 where
  pub work_cnt : ℕ
  pub work_list : List Position

pub record Threads : Type 0 where
  pub wrk_threads : List Thread
  pub wb_threads : List Thread

-- The search of `qdma_thread_add_work`, from thread `i` on; `cnt` is `thread_cnt`, and `idx` still has
-- this value at the first thread.
unfoldable pub assign_from : ℕ → ℕ → ℕ → ℕ → List Thread → ℕ
assign_from cnt i idx v [] = idx
assign_from cnt i idx v (t ∷ ts) = elim (not (idx == cnt) && t.work_cnt == 0) [
  | true ↦ i
  | false ↦
      assign_from cnt (i + 1) (if idx == cnt || ltb t.work_cnt v then i else idx)
        (if idx == cnt then t.work_cnt else v) ts
]

unfoldable pub same_position : Position → Position → Bool
same_position (a, i) (b, j) = not (differ a b) && i == j

unfoldable pub del_position : Position → List Position → List Position
del_position p [] = []
del_position p (x ∷ xs) = if same_position x p then xs else x ∷ del_position p xs

unfoldable pub take_on : Position → Thread → Thread
take_on pos t = record t { work_list = t.work_list ++ (pos ∷ []); work_cnt = add32 t.work_cnt 1 }

unfoldable pub let_go : Position → Thread → Thread
let_go pos t = record t { work_list = del_position pos t.work_list; work_cnt = sub32 t.work_cnt 1 }

-- `num_vecs` is zero in polled mode, where a writeback thread serves the queue, too.
unfoldable pub qdma_thread_add_work : ℕ → Position → Threads → Descq → Threads × Descq
qdma_thread_add_work num_vecs pos ts q =
    let cnt = length ts.wrk_threads in
    let idx = assign_from cnt 0 cnt 0 ts.wrk_threads in
    let wrk = modify idx (take_on pos) ts.wrk_threads in
    let wb_idx = cnt - idx - 1 in
    if num_vecs == 0
    then (
      record { wrk_threads = wrk; wb_threads = modify wb_idx (take_on pos) ts.wb_threads },
      record q { wrkthp = some idx; wbthp = some wb_idx },
    )
    else (record ts { wrk_threads = wrk }, record q { wrkthp = some idx; wbthp = none })

unfoldable pub release : Option ℕ → Position → List Thread → List Thread
release none pos ts = ts
release (some i) pos ts = modify i (let_go pos) ts

unfoldable pub qdma_thread_remove_work : Position → Threads → Descq → Threads × Descq
qdma_thread_remove_work pos ts q = (
  record {
    wrk_threads = release q.wrkthp pos ts.wrk_threads;
    wb_threads = release q.wbthp pos ts.wb_threads;
  },
  record q { wrkthp = none; wbthp = none },
)
