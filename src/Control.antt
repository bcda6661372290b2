-- ===== src/Control.antt =====
-- The life of a queue: `qdma_queue_config`, `qdma_queue_reconfig`, `qdma_queue_start`,
-- `qdma_queue_stop` and `qdma_queue_remove` of libqdma/libqdma_export.c, on a device that was
-- initialised. The indirect commands and the CSR arrays are section parameters: `hw_port` and
-- `qdma_global_csr_get` implement them. Each operation is done under the queue's lock, or before
-- another may use the queue. The text in the caller's buffer is left out, but for whether the last
-- message overflows it (`cut`), which changes the result.
pub mod Phases
pub mod Bodies
pub mod Starting
pub mod Started
pub mod Machine
pub mod Refines
pub mod Running
pub mod Misuse
pub mod Stopping
use qdmav.Prelude.{
  ℕ, ◌+◌, ◌-◌, Bool, true, false, not, ◌&&◌, ◌||◌, List, [], ◌∷◌, ◌++◌, Option, none, some, ◌==◌,
  if◌then◌else◌, modify,
}
use qdmav.Prelude.Errors.{
  Error, einval, invalid_input_param, invalid_qidx, invalid_descq_state, Result, ok, err, is_ok,
}
use qdmav.Descq.{QueueConf, Descq}
use qdmav.Device.{Xdev, Position, descq_at, modify_at, qdma_device_get_descq_by_id}
use qdmav.Context.{Port, qdma_descq_context_clear}
use qdmav.Queue.{qdma_descq_config, qcnt_inc, qcnt_dec}
use qdmav.Threads.{Threads, del_position, qdma_thread_add_work, qdma_thread_remove_work}
use qdmav.Lifecycle.{GlobalCsrConf, qdma_descq_config_complete}
use qdmav.Lifecycle.Resources.{
  Memory, qdma_descq_alloc_resource, qdma_descq_free_resource, qdma_descq_cleanup,
  qdma_descq_prog_hw,
}

-- The device, the threads, the queues of each interrupt vector (`intr_list`) and the hardware.
pub record Driver {ℓ} (S : Type ℓ) : Type ℓ where
  pub xdev : Xdev
  pub threads : Threads
  pub intr_list : List (List Position)
  pub hw : S

-- The work of an operation on a queue that was found: the queue is stored afterwards.
abbrev pub Body {ℓ} : Type ℓ → Type ℓ
Body S = Position → Descq → Driver S → Result ℕ × Descq × Driver S

unfoldable pub with_queue {ℓ} : {S : Type ℓ} → Bool → ℕ → Body S → Driver S → Result ℕ × Driver S
with_queue init id body d = elim (qdma_device_get_descq_by_id (some d.xdev) id init) [
  | none ↦ (err invalid_qidx, d)
  | some pos ↦ elim (descq_at d.xdev.qdev pos) [
    | none ↦ (err invalid_qidx, d)
    | some q ↦
        let (rv, q', d') = body pos q d in
        (rv, record d' { xdev = modify_at pos (λ _. q') d'.xdev })
  ]
]

unfoldable pub config_body {ℓ} : {S : Type ℓ} → QueueConf → Body S
config_body qconf pos q d =
    let x = qcnt_inc qconf.c2h d.xdev in
    if q.enabled then (err einval, q, d) else (
      ok 0,
      qdma_descq_config x.num_vecs qconf false (record q { enabled = true }),
      record d { xdev = x },
    )

unfoldable pub qdma_queue_config {ℓ} : {S : Type ℓ} → ℕ → QueueConf → Driver S → Result ℕ × Driver S
qdma_queue_config id qconf d = with_queue false id (config_body qconf) d

unfoldable pub reconfig_body {ℓ} : {S : Type ℓ} → QueueConf → Body S
reconfig_body qconf pos q d =
    if not q.enabled || q.inited || q.online
    then (err invalid_descq_state, q, d)
    else (ok 0, qdma_descq_config d.xdev.num_vecs qconf true q, d)

unfoldable pub qdma_queue_reconfig {ℓ} :
    {S : Type ℓ} → ℕ → QueueConf → Driver S → Result ℕ × Driver S
qdma_queue_reconfig id qconf d = with_queue true id (reconfig_body qconf) d

-- A call whose last message does not fit the buffer has done its work nevertheless.
unfoldable pub said : Bool → Result ℕ
said cut = if cut then err invalid_input_param else ok 0

-- `free_resource:`
unfoldable pub start_failed : Descq → Descq
start_failed q = record (qdma_descq_free_resource q) { inited = false }

unfoldable pub put_to_work {ℓ} : {S : Type ℓ} → Position → Descq → Driver S → Descq × Driver S
put_to_work pos q d =
    let (ts, q') = qdma_thread_add_work d.xdev.num_vecs pos d.threads q in
    let lists =
      if d.xdev.num_vecs == 0
      then d.intr_list
      else modify q'.intr_id (λ l. l ++ (pos ∷ [])) d.intr_list in
    (q', record d { threads = ts; intr_list = lists })

-- A queue that was never started is in no list of a vector: there the source follows a list entry
-- that was not set up.
unfoldable pub take_off_work {ℓ} : {S : Type ℓ} → Position → Descq → Driver S → Descq × Driver S
take_off_work pos q d =
    let (ts, q') = qdma_thread_remove_work pos d.threads q in
    let lists =
      if d.xdev.num_vecs == 0
      then d.intr_list
      else modify q'.intr_id (del_position pos) d.intr_list in
    (q', record d { threads = ts; intr_list = lists })

module _ {ℓ} {S : Type ℓ} (port : Port S) where
  -- Memory, contexts, and what is given back when these fail.
  unfoldable pub bring_up : Memory → Xdev → Descq → S → Result ℕ × Xdev × Descq × S
  bring_up mem x q s =
      let (rv, x1, q1) = qdma_descq_alloc_resource mem x (record q { inited = true }) in
      let (rv', q2, s2) = qdma_descq_prog_hw port x1 q1 s in
      let s3 = (qdma_descq_context_clear port q2.qidx_hw q2.conf.st q2.conf.c2h true s2).1 in
      elim rv [
        | err e ↦ (err e, x1, start_failed q1, s)
        | ok _ ↦ elim rv' [
          | err e ↦ (err e, x1, start_failed q2, s3)
          | ok _ ↦ (ok 0, x1, record q2 { online = true }, s2)
        ]
      ]

  unfoldable pub start_body : (S → Result GlobalCsrConf × S) → Memory → Bool → Body S
  start_body csr_get mem cut pos q d =
      let (csr, s1) = csr_get d.hw in
      let (rv, q1) = qdma_descq_config_complete csr q in
      let x1 =
        if is_ok csr && q.conf.has_isr_top
        then record (d.xdev) { isr_top_q_en = true }
        else d.xdev in
      let (rv2, x2, q2, s2) = bring_up mem x1 q1 s1 in
      let d2 = record d { xdev = x2; hw = s2 } in
      let (q3, d3) = put_to_work pos q2 d2 in
      elim rv [
        | err e ↦ (err e, start_failed q1, record d { xdev = x1; hw = s1 })
        | ok _ ↦
            if not q1.enabled || q1.inited || q1.online
            then (err invalid_descq_state, q1, record d { xdev = x1; hw = s1 })
            else elim rv2 [ err e ↦ (err e, q2, d2) | ok _ ↦ (said cut, q3, d3) ]
      ]

  unfoldable pub qdma_queue_start :
      (S → Result GlobalCsrConf × S) → ℕ → Memory → Bool → Driver S → Result ℕ × Driver S
  qdma_queue_start csr_get id mem cut d = with_queue true id (start_body csr_get mem cut) d

  unfoldable pub stop_body : Bool → Body S
  stop_body cut pos q d =
      let (q1, d1) = take_off_work pos q d in
      let s1 = (qdma_descq_context_clear port q1.qidx_hw q1.conf.st q1.conf.c2h false d1.hw).1 in
      let q2 = qdma_descq_free_resource q1 in
      (said cut, record q2 { online = false; inited = false }, record d1 { hw = s1 })

  unfoldable pub qdma_queue_stop : ℕ → Bool → Driver S → Result ℕ × Driver S
  qdma_queue_stop id cut d = with_queue true id (stop_body cut) d

  unfoldable pub remove_body : Body S
  remove_body pos q d =
      let (x1, q1, s1) =
        qdma_descq_cleanup port d.xdev (record q { inited = false; online = false }) d.hw in
      (ok 0, record q1 { enabled = false }, record d { xdev = qcnt_dec q1.conf.c2h x1; hw = s1 })

  unfoldable pub qdma_queue_remove : ℕ → Driver S → Result ℕ × Driver S
  qdma_queue_remove id d = with_queue true id remove_body d
