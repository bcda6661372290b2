-- ===== src/Threads/Assign.antt =====
-- Which request thread a queue is given to.
use qdmav.Prelude.{
  ℕ, zero, suc, ◌+◌, ◌≤◌, ◌<◌, ◌≡◌, ◌≢◌, ◌⊎◌, inl, inr, refl, ◌∙◌, arith, true, false, List, [],
  ◌∷◌, ltb, ◌==◌, length, Bool-cases,
}
use qdmav.Threads.{Thread, assign_from}

-- The load of thread `k`.
abbrev pub load : List Thread → ℕ → ℕ
load [] k = 0
load (t ∷ ts) zero = t.work_cnt
load (t ∷ ts) (suc k) = load ts k

-- Every thread has work.
abbrev pub IsBusy : List Thread → Type 0
IsBusy [] = Unit
IsBusy (t ∷ ts) = (0 < t.work_cnt) × IsBusy ts

module _ (cnt i v : ℕ) (t : Thread) (ts : List Thread) where
  step_first : assign_from cnt i cnt v (t ∷ ts) ≡ assign_from cnt (i + 1) i t.work_cnt ts
  unfolding assign_from
  step_first = let e : (cnt == cnt) ≡ true = ground arith in simp (assign_from, e)

  module _ (idx : ℕ) (n : idx ≢ cnt) where
    step_idle : t.work_cnt ≡ 0 → assign_from cnt i idx v (t ∷ ts) ≡ i
    unfolding assign_from
    step_idle z = let f : (idx == cnt) ≡ false = ground arith in simp (assign_from, f, z)

    step_less :
        0 < t.work_cnt
        → t.work_cnt < v
        → assign_from cnt i idx v (t ∷ ts) ≡ assign_from cnt (i + 1) i v ts
    unfolding assign_from
    step_less b l =
        let f : (idx == cnt) ≡ false = ground arith in
        let g : (t.work_cnt == 0) ≡ false = ground arith in
        let h : ltb t.work_cnt v ≡ true = ground arith in simp (assign_from, f, g, h)

    step_more :
        0 < t.work_cnt
        → v ≤ t.work_cnt
        → assign_from cnt i idx v (t ∷ ts) ≡ assign_from cnt (i + 1) idx v ts
    unfolding assign_from
    step_more b l =
        let f : (idx == cnt) ≡ false = ground arith in
        let g : (t.work_cnt == 0) ≡ false = ground arith in
        let h : ltb t.work_cnt v ≡ false = ground arith in simp (assign_from, f, g, h)

-- After the first thread: the result is the earlier choice, a later thread below `v`, or the first
-- later thread that is idle.
later :
    (cnt i idx v : ℕ) (ts : List Thread)
    → i + length ts ≡ cnt
    → idx < i
    → let r = assign_from cnt i idx v ts in
      ((r ≡ idx) × IsBusy ts)
      ⊎ ((k : ℕ) × (r ≡ i + k)
          × (k < length ts)
          × ((load ts k ≡ 0) ⊎ ((load ts k < v) × IsBusy ts)))
unfolding assign_from
later cnt i idx v [] e l = inl (refl, tt)
later cnt i idx v (t ∷ ts) e l =
    let n : idx ≢ cnt = λ z. absurd (omega (arith, z)) in
    elim (Bool-cases (t.work_cnt == 0)) [
      | inl z ↦ inr (
        0,
        step_idle cnt i v t ts idx n (ground arith) ∙ omega arith,
        omega arith,
        inl (ground arith),
      )
      | inr b ↦
          let busy : 0 < t.work_cnt = ground arith in
          elim (Bool-cases (ltb t.work_cnt v)) [
            | inl lt ↦
                let below : t.work_cnt < v = ground arith in
                let s = step_less cnt i v t ts idx n busy below in
                elim (later cnt (i + 1) i v ts (omega arith) (omega arith)) [
                  | inl (r, all) ↦
                      inr (0, s ∙ r ∙ omega arith, omega arith, inr (below, (busy, all)))
                  | inr (k, r, kl, w) ↦
                      inr (suc k, s ∙ r ∙ omega arith, omega (arith, kl), wider k busy w)
                ]
            | inr ge ↦
                let s = step_more cnt i v t ts idx n busy (ground arith) in
                elim (later cnt (i + 1) idx v ts (omega arith) (omega arith)) [
                  | inl (r, all) ↦ inl (s ∙ r, (busy, all))
                  | inr (k, r, kl, w) ↦
                      inr (suc k, s ∙ r ∙ omega arith, omega (arith, kl), wider k busy w)
                ]
          ]
    ]
  where
    wider :
        (k : ℕ)
        → 0 < t.work_cnt
        → (load ts k ≡ 0) ⊎ ((load ts k < v) × IsBusy ts)
        → (load ts k ≡ 0) ⊎ ((load ts k < v) × IsBusy (t ∷ ts))
    wider k b (inl q) = inl q
    wider k b (inr (q, all)) = inr (q, (b, all))

-- A queue goes to an idle request thread where there is one, and never to one with more queues than
-- the first.
pub assign_from-idle :
    (ts : List Thread)
    → 0 < length ts
    → let r = assign_from (length ts) 0 (length ts) 0 ts in
      (r < length ts) × (load ts r ≤ load ts 0) × ((load ts r ≡ 0) ⊎ IsBusy ts)
unfolding assign_from
assign_from-idle [] h = absurd (omega arith)
assign_from-idle (t ∷ ts) h =
    let start = step_first (suc (length ts)) 0 0 t ts in
    rw start (elim (later (suc (length ts)) 1 0 t.work_cnt ts (omega arith) (omega arith)) [
      | inl (r, all) ↦ rw r (omega arith, omega arith, idle_or_busy t.work_cnt all)
      | inr (k, r, l, w) ↦
          let s : 1 + k ≡ suc k = omega arith in
          rw (r, s)
            (elim w [
              | inl z ↦ (omega (arith, l), omega (arith, z), inl z)
              | inr (b, all) ↦ (omega (arith, l), omega (arith, b), inr (omega (arith, b), all))
            ])
    ])
  where
    idle_or_busy : (n : ℕ) → IsBusy ts → (n ≡ 0) ⊎ ((0 < n) × IsBusy ts)
    idle_or_busy zero all = inl refl
    idle_or_busy (suc n) all = inr (omega arith, all)

-- The load of the best thread so far is not kept: of three busy threads of which the last two have
-- less work than the first, the last is taken, also where the second has the least.
pub assign_from-last :
    (a b c : Thread)
    → 0 < b.work_cnt
    → b.work_cnt < c.work_cnt
    → c.work_cnt < a.work_cnt
    → assign_from 3 0 3 0 (a ∷ b ∷ c ∷ []) ≡ 2
unfolding assign_from
assign_from-last a b c hb hc ha =
    let n : ◌≢◌ {A = ℕ} 0 3 = λ z. absurd (omega (arith, z)) in
    let m : ◌≢◌ {A = ℕ} 1 3 = λ z. absurd (omega (arith, z)) in
    step_first 3 0 0 a (b ∷ c ∷ [])
    ∙ step_less 3 1 a.work_cnt b (c ∷ []) 0 n hb (omega arith)
    ∙ step_less 3 2 a.work_cnt c [] 1 m (omega arith) ha
