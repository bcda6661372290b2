-- ===== src/Control/Misuse.antt =====
-- What the operations do to a queue that is running.
use qdmav.Prelude.{Bool, ◌+◌, ◌≤◌, ◌≡◌, refl, ◌∙◌, arith, false, get_or}
use qdmav.Prelude.Errors.{invalid_descq_state, Result, ok, err}
use qdmav.Ring.Laws.{ring_max}
use qdmav.Descq.{Descq}
use qdmav.Device.{Position}
use qdmav.Context.{Port}
use qdmav.Lifecycle.{GlobalCsrConf, qdma_descq_config_complete, completion_entries}
use qdmav.Lifecycle.Resources.{Memory, qdma_descq_cleanup, qdma_descq_free_resource}
use qdmav.Control.{Driver, start_body, remove_body}
use qdmav.Control.Phases.{IsRunning}
use qdmav.Control.Starting.{config_complete-flags}
use qdmav.Control.Started.{start_body-refused}

complete-resets :
    (csr : GlobalCsrConf) (q : Descq)
    → let sz = get_or csr.ring_sz q.conf.desc_rng_sz_idx 0 in
      let (rv, q') = qdma_descq_config_complete (ok csr) q in
      2 ≤ sz
      → sz ≤ ring_max + 1
      → (q'.pidx ≡ 0) × (q'.cidx ≡ 0) × (q'.avail + 2 ≡ sz) × (q'.pend_list ≡ q.pend_list)
unfolding qdma_descq_config_complete completion_entries
complete-resets csr q l u = (ground arith, ground arith, ground arith, ground arith)

-- Starting a queue that runs is refused, but the queue's indices and its count of free entries are
-- those of an empty ring afterwards, while the requests that are with the device stay pending.
pub start_twice_resets {ℓ} :
    {S : Type ℓ} (port : Port S) (csr_get : S → Result GlobalCsrConf × S) (mem : Memory)
    (cut : Bool) (p : Position) (q : Descq) (d : Driver S) (csr : GlobalCsrConf)
    → let sz = get_or csr.ring_sz q.conf.desc_rng_sz_idx 0 in
      let (rv, q', d') = start_body port csr_get mem cut p q d in
      (csr_get d.hw).0 ≡ ok csr
      → IsRunning q
      → 2 ≤ sz
      → sz ≤ ring_max + 1
      → (rv ≡ err invalid_descq_state)
        × (q'.pidx ≡ 0)
        × (q'.cidx ≡ 0)
        × (q'.avail + 2 ≡ sz)
        × (q'.pend_list ≡ q.pend_list)
start_twice_resets port csr_get mem cut p q d csr read r l u =
    let (rv, ce, ci, co, cd, cw) = config_complete-flags csr q in
    let (pidx, cidx, avail, pend) = complete-resets csr q l u in
    rw (start_body-refused port csr_get mem cut p q d csr read (ci ∙ r.inited))
      (refl, pidx, cidx, avail, pend)

-- Removing a queue gives no command to the device and leaves the queue in the lists of the threads and
-- of its vector, whatever state it is in, although its ring is freed and it may be given out again.
pub remove_forgets {ℓ} :
    {S : Type ℓ} (port : Port S) (p : Position) (q : Descq) (d : Driver S)
    → let (rv, q', d') = remove_body port p q d in
      (rv ≡ ok 0)
      × (d'.hw ≡ d.hw)
      × (d'.threads ≡ d.threads)
      × (d'.intr_list ≡ d.intr_list)
      × (q'.enabled ≡ false)
      × (q'.has_desc ≡ false)
unfolding remove_body qdma_descq_cleanup qdma_descq_free_resource
remove_forgets port p q d = (refl, refl, refl, refl, refl, ground arith)
