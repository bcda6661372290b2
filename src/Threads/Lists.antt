-- ===== src/Threads/Lists.antt =====
-- The threads' lists of queues and their counts.
use qdmav.Prelude.{
  ℕ, zero, suc, ◌+◌, ◌-◌, ◌^◌, ◌<◌, ◌≡◌, refl, ap, arith, true, false, List, [], ◌∷◌, ◌++◌, none,
  add32, sub32, ◌==◌, modify, length, All, Bool-cases, inl, inr,
}
use qdmav.Descq.{Descq}
use qdmav.Device.{Position}
use qdmav.Threads.{
  Thread, Threads, assign_from, same_position, del_position, take_on, let_go, release,
  qdma_thread_add_work, qdma_thread_remove_work,
}

-- A queue that a list does not hold.
abbrev pub IsAbsent : Position → List Position → Type 0
IsAbsent p [] = Unit
IsAbsent p (x ∷ xs) = (same_position x p ≡ false) × IsAbsent p xs

same_position_refl : (p : Position) → same_position p p ≡ true
unfolding same_position
same_position_refl (true, i) = ground arith
same_position_refl (false, i) = ground arith

pub del_position-append :
    (p : Position) (xs : List Position) → IsAbsent p xs → del_position p (xs ++ (p ∷ [])) ≡ xs
unfolding del_position
del_position-append p [] h = rw (same_position_refl p) refl
del_position-append p (x ∷ xs) h = rw (h.0) (ap (λ l. x ∷ l) (del_position-append p xs h.1))

let_go-take_on :
    (p : Position) (t : Thread)
    → t.work_cnt + 1 < 2 ^ 32
    → IsAbsent p t.work_list
    → let_go p (take_on p t) ≡ t
unfolding let_go take_on
let_go-take_on p t r a =
    let c : sub32 (add32 t.work_cnt 1) 1 ≡ t.work_cnt = omega arith in
    rw (del_position-append p t.work_list a, c) refl

pub modify-modify_undo {ℓ κ} :
    {A : Type ℓ} (P : A → Type κ) (f g : A → A) (i : ℕ) (xs : List A)
    → ((x : A) → P x → g (f x) ≡ x)
    → All P xs
    → modify i g (modify i f xs) ≡ xs
modify-modify_undo P f g i [] h a = refl
modify-modify_undo P f g zero (x ∷ xs) h a = ap (λ y. y ∷ xs) (h x a.0)
modify-modify_undo P f g (suc i) (x ∷ xs) h a =
    ap (λ l. x ∷ l) (modify-modify_undo P f g i xs h a.1)

-- What the threads are before they take a queue.
abbrev pub IsReady : Position → Thread → Type 0
IsReady p t = (t.work_cnt + 1 < 2 ^ 32) × IsAbsent p t.work_list

-- A queue that is given to the threads and taken away again leaves them as they were, whether it is
-- polled or served by interrupts.
pub remove_work-add_work :
    (num_vecs : ℕ) (pos : Position) (ts : Threads) (q : Descq)
    → All (IsReady pos) ts.wrk_threads
    → All (IsReady pos) ts.wb_threads
    → let (ts1, q1) = qdma_thread_add_work num_vecs pos ts q in
      let (ts2, q2) = qdma_thread_remove_work pos ts1 q1 in
      (ts2 ≡ ts) × (q2 ≡ record q { wrkthp = none; wbthp = none })
unfolding qdma_thread_add_work qdma_thread_remove_work release
remove_work-add_work num_vecs pos ts q a b =
    let undo = λ (t : Thread) (h : IsReady pos t). let_go-take_on pos t h.0 h.1 in
    let cnt = length ts.wrk_threads in
    let idx = assign_from cnt 0 cnt 0 ts.wrk_threads in
    let e1 =
      modify-modify_undo (IsReady pos) (take_on pos) (let_go pos) idx ts.wrk_threads undo a in
    let e2 =
      modify-modify_undo (IsReady pos) (take_on pos) (let_go pos) (cnt - idx - 1) ts.wb_threads undo
        b in
    elim (Bool-cases (num_vecs == 0)) [
      | inl polled ↦ rw (polled, e1, e2) (refl, refl)
      | inr vectors ↦ rw (vectors, e1) (refl, refl)
    ]
