-- ===== src/Intr.antt =====
-- Interrupts of the physical function (libqdma/qdma_intr.c): the aggregated ring of a vector and the
-- handlers of a data interrupt. The entries that the device writes to a ring are a list. What the
-- handlers leave to others is a list of work: a queue's work item, or the error registers. The
-- lock is held all the time, so a handler is one step; the device writes between two of them.
pub mod Posted
pub mod Aggregate
pub mod Batches
pub mod Rings
pub mod Errors
pub mod Vectors
use qdmav.Prelude.{
  ℕ, zero, suc, ◌+◌, ◌-◌, ◌*◌, ◌^◌, Bool, true, false, not, List, [], ◌∷◌, ◌++◌, Option, none, some,
  add32, add64, bit, differ, ◌==◌, if◌then◌else◌, get_elem?, modify, map,
}
use Prim.Native.Nat.{bit_or}
use qdmav.Prelude.{u64_mod, u32_mod, ◌%◌}
use qdmav.Descq.{Descq, emit}
use qdmav.Descq.Events.{write_reg, pidx_step}
use qdmav.Device.{Xdev, Position, modify_at}

-- `struct qdma_intr_ring`: the fields that the driver reads
pub record RingEntry : Type 0 where
  pub coal_color : Bool
  pub qid : ℕ
  pub intr_type : Bool
  pub error_int : Bool

-- `struct intr_coal_conf`, with the ring at `intr_ring_base`
pub record CoalConf : Type 0 where
  pub vec_id : ℕ
  pub intr_rng_num_entries : ℕ
  pub intr_ring_bus : ℕ
  pub ring : List RingEntry
  pub color : Bool
  pub pidx : ℕ
  pub cidx : ℕ

-- `schedule_work(&descq->work)`, and `err_stat_handler`
pub data Work : Type 0 where
  service : Position → Work
  err_stat : Work

abbrev pub int_cidx_base : ℕ
int_cidx_base = 0x6400

unfoldable pub intr_cidx_update : Descq → ℕ → Descq
intr_cidx_update q sw_cidx =
    emit
      (write_reg (int_cidx_base + q.conf.qidx * pidx_step)
        (bit_or sw_cidx (bit q.conf.c2h * 2 ^ 16)))
      q

-- The address of an element of an array, whatever the index: it is null only without the arrays.
unfoldable pub qdma_device_get_descq_by_hw_qid : Option Xdev → ℕ → Bool → Option Position
qdma_device_get_descq_by_hw_qid none qidx_hw c2h = none
qdma_device_get_descq_by_hw_qid (some x) qidx_hw c2h =
    some (c2h, (qidx_hw + u64_mod - x.qdev.qbase) % u64_mod)

-- The variables of the loop; `coals` is `intr_coal_list`.
pub record Irq : Type 0 where
  pub counter : ℕ
  pub descq : Option Position
  pub coals : List CoalConf
  pub work : List Work

-- How a round ends: with another one, at the loop's test, by `return`, or outside the memory.
pub data Next : Type 0 where
  go stop leave fault : Irq → Next

-- The end of the ring: it is the first vector's colour that changes.
unfoldable pub wrap_color : List CoalConf → List CoalConf
wrap_color l = modify 0 (λ c. record c { color = not c.color }) l

-- `++coal_entry->cidx` and what follows, for the vector's entry `i` of the list.
unfoldable pub step_cidx : ℕ → CoalConf → Irq → Irq
step_cidx i coal s =
    let cidx = add32 coal.cidx 1 in
    if cidx == coal.intr_rng_num_entries
    then record s {
      counter = 0;
      coals = modify i (λ c. record c { cidx = 0 }) (wrap_color s.coals);
    }
    else record s {
      counter = add32 s.counter 1;
      coals = modify i (λ c. record c { cidx = cidx }) s.coals;
    }

unfoldable pub work_of : RingEntry → Position → Work
work_of e pos = if e.error_int then err_stat else service pos

unfoldable pub handle_entry : Option Position → ℕ → CoalConf → RingEntry → Irq → Next
handle_entry none i coal e s = leave (record s { descq = none })
handle_entry (some pos) i coal e s =
    go (step_cidx i coal (record s { descq = some pos; work = s.work ++ (work_of e pos ∷ []) }))

-- The loop's test at an entry of the ring.
unfoldable pub test_entry : Option Xdev → ℕ → Irq → CoalConf → Option RingEntry → Next
test_entry x i s coal none = fault s
test_entry x i s coal (some e) =
    if differ e.coal_color coal.color
    then stop s
    else handle_entry (qdma_device_get_descq_by_hw_qid x e.qid e.intr_type) i coal e s

unfoldable pub test_vector : Option Xdev → ℕ → Irq → Option CoalConf → Next
test_vector x i s none = fault s
test_vector x i s (some coal) = test_entry x i s coal (get_elem? coal.ring s.counter)

unfoldable pub aggregate_step : Option Xdev → ℕ → Irq → Next
aggregate_step x i s = test_vector x i s (get_elem? s.coals i)

unfoldable pub proceed : (Irq → Option Next) → Next → Option Next
proceed next (go s) = next s
proceed next (stop s) = some (stop s)
proceed next (leave s) = some (leave s)
proceed next (fault s) = some (fault s)

-- `while (ring_entry->coal_color == coal_entry->color)`, on fuel.
unfoldable pub aggregate_from : Option Xdev → ℕ → ℕ → Irq → Option Next
aggregate_from x i zero s = none
aggregate_from x i (suc n) s = proceed (aggregate_from x i n) (aggregate_step x i s)

-- What follows the loop.
unfoldable pub update_at : Option Position → Option CoalConf → Xdev → Xdev
update_at none c x = x
update_at (some pos) none x = x
update_at (some pos) (some coal) x = modify_at pos (λ q. intr_cidx_update q coal.cidx) x

unfoldable pub note_cidx : ℕ → Irq → Xdev → Xdev
note_cidx i s x = update_at s.descq (get_elem? s.coals i) x

unfoldable pub after_loop : ℕ → Xdev → Next → Xdev × List CoalConf × List Work
after_loop i x (go s) = (x, s.coals, s.work)
after_loop i x (stop s) = (note_cidx i s x, s.coals, s.work)
after_loop i x (leave s) = (x, s.coals, s.work)
after_loop i x (fault s) = (x, s.coals, s.work)

unfoldable pub finish : ℕ → Xdev → Option Next → Option (Xdev × List CoalConf × List Work)
finish i x none = none
finish i x (some e) = some (after_loop i x e)

-- The vector's entry of `intr_coal_list`, at `i`; without one, nothing is done.
unfoldable pub at_vector :
    ℕ → Xdev → ℕ → List CoalConf → ℕ → Option CoalConf → Option (Xdev × List CoalConf × List Work)
at_vector fuel x entry coals i none = some (x, coals, [])
at_vector fuel x entry coals i (some coal) =
    let s : Irq = record { counter = coal.cidx; descq = none; coals = coals; work = [] } in
    let run = finish i x (aggregate_from (some x) i fuel s) in
    if entry == coal.vec_id then run else some (x, coals, [])

-- `entry` is `xdev->msix[vidx].entry`.
unfoldable pub data_intr_aggregate :
    ℕ → Xdev → ℕ → ℕ → List CoalConf → Option (Xdev × List CoalConf × List Work)
data_intr_aggregate fuel x vidx entry coals =
    let i = vidx - x.dvec_start_idx in at_vector fuel x entry coals i (get_elem? coals i)

unfoldable pub data_intr_direct : List Position → List Work
data_intr_direct queues = map service queues

-- `queues` is the vector's list of queues.
unfoldable pub data_intr_handler :
    ℕ → Xdev → ℕ → ℕ → List Position → List CoalConf → Option (Xdev × List CoalConf × List Work)
data_intr_handler fuel x vidx entry queues coals =
    if x.intr_coal_en
    then data_intr_aggregate fuel x vidx entry coals
    else some (x, coals, data_intr_direct queues)
