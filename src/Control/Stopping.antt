-- ===== src/Control/Stopping.antt =====
-- Stopping a queue after it was started.
use qdmav.Prelude.{
  ℕ, suc, ◌≡◌, ◌≢◌, inl, inr, refl, sym, ap, ◌∙◌, arith, Bool, true, false, List, [], ◌∷◌, ◌++◌,
  ◌==◌, Bool-cases, modify, All,
}
use qdmav.Prelude.Errors.{Result, ok}
use qdmav.Descq.{Descq}
use qdmav.Device.{Position}
use qdmav.Threads.{Threads, qdma_thread_add_work, qdma_thread_remove_work, del_position}
use qdmav.Threads.Lists.{
  IsReady, IsAbsent, remove_work-add_work, modify-modify_undo, del_position-append,
}
use qdmav.Hw.{Sel}
use qdmav.Context.{Port}
use qdmav.Context.Memory.{IsMemory}
use qdmav.Context.Setup.{setup-read}
use qdmav.Lifecycle.{GlobalCsrConf}
use qdmav.Lifecycle.Resources.{Memory, choose_vector}
use qdmav.Lifecycle.Resources.Effects.{
  HasMemory, alloc_resource_succeeds, alloc_resource_counts, prog_hw-frame,
}
use qdmav.Control.{Driver, said, put_to_work, take_off_work, start_body, stop_body}
use qdmav.Control.Phases.{IsIdle}
use qdmav.Control.Starting.{allocated, bring_up-ok, config_complete-flags}
use qdmav.Control.Started.{start_body-ok, completed, with_top, brought_up, after}

-- A queue that no thread and no vector serves yet.
pub record IsUnserved {ℓ} {S : Type ℓ} (p : Position) (d : Driver S) : Type 0 where
  pub wrk : All (IsReady p) d.threads.wrk_threads
  pub wb : All (IsReady p) d.threads.wb_threads
  pub intr : All (IsAbsent p) d.intr_list

add_work-intr_id :
    (n : ℕ) (p : Position) (ts : Threads) (q : Descq)
    → (qdma_thread_add_work n p ts q).1.intr_id ≡ q.intr_id
unfolding qdma_thread_add_work
add_work-intr_id n p ts q = ground arith

remove_work-intr_id :
    (p : Position) (ts : Threads) (q : Descq)
    → (qdma_thread_remove_work p ts q).1.intr_id ≡ q.intr_id
unfolding qdma_thread_remove_work
remove_work-intr_id p ts q = refl

work_undone {ℓ} :
    {S : Type ℓ} (p : Position) (q : Descq) (d : Driver S)
    → IsUnserved p d
    → let (q1, d1) = put_to_work p q d in
      let (q2, d2) = take_off_work p q1 d1 in
      (d2.threads ≡ d.threads) × (d2.intr_list ≡ d.intr_list) × (d2.xdev ≡ d.xdev)
unfolding put_to_work take_off_work
work_undone p q d u =
    let n = d.xdev.num_vecs in
    let (ts, q1) = qdma_thread_add_work n p d.threads q in
    let (back, q2) = remove_work-add_work n p d.threads q u.wrk u.wb in
    let same : (qdma_thread_remove_work p ts q1).1.intr_id ≡ q1.intr_id =
      remove_work-intr_id p ts q1 in
    let undo =
      modify-modify_undo (IsAbsent p) (λ l. l ++ (p ∷ [])) (del_position p) q1.intr_id d.intr_list
        (λ l. del_position-append p l) u.intr in
    elim (Bool-cases (n == 0)) [
      | inl polled ↦ (back, rw polled refl, refl)
      | inr vectors ↦ (back, rw (vectors, same, undo) refl, refl)
    ]

stop_body-eq {ℓ} :
    {S : Type ℓ} (port : Port S) (cut : Bool) (p : Position) (q : Descq) (d : Driver S)
    → let (rv, q', d') = stop_body port cut p q d in
      let d1 = (take_off_work p q d).1 in
      (rv ≡ said cut)
      × (d'.threads ≡ d1.threads)
      × (d'.intr_list ≡ d1.intr_list)
      × (d'.xdev ≡ d1.xdev)
      × (q'.online ≡ false)
unfolding stop_body
stop_body-eq port cut p q d = (refl, refl, refl, refl, refl)

module _ {ℓ} {S : Type ℓ} (port : Port S) (view : S → ℕ → Sel → List ℕ) (m : IsMemory port view)
    (csr_get : S → Result GlobalCsrConf × S) (mem : Memory) (room : HasMemory mem)
    (cut : Bool) where
  choose_vector-with_top :
      (p : Position) (q : Descq) (d : Driver S) (csr : GlobalCsrConf)
      (read : (csr_get d.hw).0 ≡ ok csr)
      → let x = with_top port csr_get mem cut p q d csr read in
        (choose_vector x ≡ choose_vector d.xdev)
        × (x.intr_list_cnt ≡ d.xdev.intr_list_cnt)
        × (x.intr_coal_en ≡ d.xdev.intr_coal_en)
        × (x.num_vecs ≡ d.xdev.num_vecs)
  unfolding choose_vector
  choose_vector-with_top p q d csr read = elim (Bool-cases q.conf.has_isr_top) [
    | inl t ↦ rw t (refl, refl, refl, refl)
    | inr t ↦ rw t (refl, refl, refl, refl)
  ]

  -- A queue that was started with an interrupt vector of its own and is stopped again leaves the
  -- threads and the vectors' lists as they were and is offline, but the count of queues of the vector
  -- stays one higher: stopping does not give the vector back.
  pub stop-start :
      (p : Position) (q : Descq) (d : Driver S) (csr : GlobalCsrConf)
      → let (rv1, q1, d1) = start_body port csr_get mem cut p q d in
        let (rv2, q2, d2) = stop_body port cut p q1 d1 in
        (csr_get d.hw).0 ≡ ok csr
        → q.enabled ≡ true
        → IsIdle q
        → IsUnserved p d
        → d.xdev.intr_coal_en ≡ false
        → d.xdev.num_vecs ≢ 0
        → (d2.threads ≡ d.threads)
          × (d2.intr_list ≡ d.intr_list)
          × (q2.online ≡ false)
          × (d2.xdev.intr_list_cnt ≡ modify (choose_vector d.xdev) suc d.xdev.intr_list_cnt)
  stop-start p q d csr read e i u c n =
      let q1 = completed port csr_get mem cut p q d csr read in
      let x1 = with_top port csr_get mem cut p q d csr read in
      let s1 = (csr_get d.hw).1 in
      let (rv, ce, ci, co, cd, cw) = config_complete-flags csr q in
      let (vt, vl, vc, vn) = choose_vector-with_top p q d csr read in
      let a = alloc_resource_succeeds mem x1 (record q1 { inited = true }) room in
      let al = allocated port mem x1 q1 s1 in
      let (cnt, id) =
        alloc_resource_counts mem x1 (record q1 { inited = true }) room (vc ∙ c)
          (λ z. n (sym vn ∙ z)) in
      let (pf, pd, pi, pr) = prog_hw-frame port al.1 al.2 s1 in
      let pok = pr ∙ (setup-read port view m al.1 al.2 s1).0 in
      let whole = bring_up-ok port mem x1 q1 s1 a pok in
      let up = brought_up port csr_get mem cut p q d csr read in
      let aft = after port csr_get mem cut p q d csr read in
      let (q3, d3) = put_to_work p up.2 aft in
      let (sv, st, sl, sx, so) = stop_body-eq port cut p q3 d3 in
      let (ut, ul, ux) =
        work_undone p up.2 aft (record { wrk = u.wrk; wb = u.wb; intr = u.intr }) in
      rw
        (start_body-ok port csr_get mem cut p q d csr read (ce ∙ e) (ci ∙ i.inited) (co ∙ i.online)
          (ap (λ r. r.0) whole))
        (
          st ∙ ut,
          sl ∙ ul,
          so,
          ap (λ x. x.intr_list_cnt) (sx ∙ ux)
              ∙ ap (λ r. r.1.intr_list_cnt) whole
              ∙ cnt
              ∙ ap (λ v. modify v suc x1.intr_list_cnt) vt
              ∙ ap (modify (choose_vector d.xdev) suc) vl,
        )
