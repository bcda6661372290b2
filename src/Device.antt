-- ===== src/Device.antt =====
-- The device and its array of queues: `struct xlnx_dma_dev` (libqdma/xdev.h), `struct qdma_dev` and
-- the functions of libqdma/qdma_device.c that look queues up and prepare them. The outcomes of
-- `intr_ring_setup` and `qdma_intr_context_setup` are arguments.
use qdmav.Prelude.{
  ℕ, ◌-◌, Bool, true, false, not, ◌&&◌, List, [], ◌∷◌, ◌++◌, Option, none, some, leb, if◌then◌else◌,
  get_elem?, modify,
}
use qdmav.Prelude.Errors.{Result, ok, err}
use qdmav.Descq.{Descq}
use qdmav.Descq.Events.{Event, set_fmap, setup_err_intr}

pub record Qdev : Type 0 where
  pub init_qrange : Bool
  pub qmax : ℕ
  pub qbase : ℕ
  pub h2c_qcnt : ℕ
  pub c2h_qcnt : ℕ
  pub h2c_descq : List Descq
  pub c2h_descq : List Descq

pub record Xdev : Type 0 where
  pub qdev : Qdev
  pub func_id : ℕ
  pub st_mode_en : Bool
  pub mm_mode_en : Bool
  pub intr_coal_en : Bool
  pub poll_mode : Bool
  pub master_pf : Bool
  pub isr_top_q_en : Bool
  pub num_vecs : ℕ
  pub dvec_start_idx : ℕ
  pub intr_list_cnt : List ℕ
  pub events : List Event

-- A pointer to a queue: whether it is in the C2H array, and its index there.
abbrev pub Position : Type 0
Position = Bool × ℕ

unfoldable pub side : Qdev → Bool → List Descq
side d true = d.c2h_descq
side d false = d.h2c_descq

unfoldable pub set_side : Qdev → Bool → List Descq → Qdev
set_side d true qs = record d { c2h_descq = qs }
set_side d false qs = record d { h2c_descq = qs }

-- `*descq`
unfoldable pub descq_at : Qdev → Position → Option Descq
unfolding side
descq_at d (c2h, i) = get_elem? (side d c2h) i

-- A change of `*descq`.
unfoldable pub modify_at : Position → (Descq → Descq) → Xdev → Xdev
unfolding side set_side
modify_at (c2h, i) f x = record x { qdev = set_side x.qdev c2h (modify i f (side x.qdev c2h)) }

unfoldable pub emit_dev : Event → Xdev → Xdev
emit_dev e x = record x { events = x.events ++ (e ∷ []) }

-- The device has a `qdev` unless `qdma_device_init` failed, so a handle is an optional device.
unfoldable pub qdma_device_get_descq_by_id : Option Xdev → ℕ → Bool → Option Position
unfolding descq_at
qdma_device_get_descq_by_id none idx init = none
qdma_device_get_descq_by_id (some x) idx init =
    let qmax = x.qdev.qmax in
    let found =
      if leb qmax idx
      then (if leb qmax (idx - qmax) then none else some (true, idx - qmax))
      else some (false, idx) in
    elim found [
      | none ↦ none
      | some pos ↦ elim (descq_at x.qdev pos) [
        | none ↦ none
        | some q ↦ if init && not q.enabled then none else some pos
      ]
    ]

unfoldable pub device_set_qrange : Xdev → Xdev
unfolding emit_dev
device_set_qrange x =
    emit_dev (set_fmap x.func_id x.qdev.qbase x.qdev.qmax)
      (record x { qdev = record (x.qdev) { init_qrange = true } })

unfoldable pub qdma_device_prep_q_resource : Result ℕ → Result ℕ → Xdev → Result ℕ × Xdev
qdma_device_prep_q_resource intr_ring intr_context x =
    let x1 = device_set_qrange x in
    let context = if x1.intr_coal_en then intr_context else ok 0 in
    let x2 = if not x1.poll_mode && x1.master_pf then emit_dev setup_err_intr x1 else x1 in
    if x.qdev.init_qrange then (ok 0, x) else elim intr_ring [
      | err e ↦ (err e, x1)
      | ok _ ↦ elim context [ err e ↦ (err e, x1) | ok _ ↦ (ok 0, x2) ]
    ]
