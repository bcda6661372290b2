-- ===== src/Setup/Ready.antt =====
-- The queues of a function that was started.
use qdmav.Prelude.{
  ℕ, zero, suc, ◌+◌, ◌-◌, ◌*◌, ◌≡◌, ◌<◌, ◌⊎◌, inl, inr, refl, sym, ap, ◌∙◌, arith, Bool, true,
  false, not, Option, none, some, ◌==◌, if◌then◌else◌, length, get_elem?, Bool-cases, Option-cases,
  leb,
}
use qdmav.Prelude.Errors.{Error, Result, ok, err, Result-cases}
use qdmav.Hw.{Hw}
use qdmav.Descq.{Descq}
use qdmav.Device.{Qdev, Xdev, Position, side, descq_at, qdma_device_get_descq_by_id}
use qdmav.Intr.Vectors.{intr_setup}
use qdmav.Queue.Handle.{IsSized}
use qdmav.Setup.{
  Function, q_per_pf_max, qdma_descq_init, queues_from, new_qdev, with_vectors, with_qdev, identify,
  init_queues, qdma_device_init,
}

length-queues_from : (qbase n i : ℕ) → length (queues_from qbase n i) ≡ n
unfolding queues_from
length-queues_from qbase zero i = refl
length-queues_from qbase (suc n) i = omega (arith, length-queues_from qbase n (i + 1))

queues_from-at :
    (qbase n i k : ℕ)
    → k < n
    → get_elem? (queues_from qbase n i) k ≡ some (qdma_descq_init qbase (i + k))
unfolding queues_from
queues_from-at qbase zero i k h = absurd (omega arith)
queues_from-at qbase (suc n) i zero h = ap (λ (m : ℕ). some (qdma_descq_init qbase m)) (omega arith)
queues_from-at qbase (suc n) i (suc k) h =
    queues_from-at qbase n (i + 1) k (omega arith)
    ∙ ap (λ (m : ℕ). some (qdma_descq_init qbase m)) (omega arith)

queues_from-idle :
    (qbase n i k : ℕ) (q : Descq) → get_elem? (queues_from qbase n i) k ≡ some q → q.enabled ≡ false
unfolding queues_from qdma_descq_init
queues_from-idle qbase zero i k q h = cc
queues_from-idle qbase (suc n) i zero q h =
    let same : qdma_descq_init qbase i ≡ q = cc in sym (ap (λ (d : Descq). d.enabled) same)
queues_from-idle qbase (suc n) i (suc k) q h = queues_from-idle qbase n (i + 1) k q h

-- The arrays have the size that was asked for and hold initial queues, and no handle names a queue
-- that is in use.
pub record IsFresh (qbase n : ℕ) (x : Xdev) : Type 0 where
  pub sized : IsSized x.qdev
  pub qmax : x.qdev.qmax ≡ n
  pub queues :
      (c2h : Bool) (k : ℕ) → k < n → descq_at x.qdev (c2h, k) ≡ some (qdma_descq_init qbase k)
  pub free : (id : ℕ) → qdma_device_get_descq_by_id (some x) id true ≡ none

new_qdev-at :
    (qbase qmax : ℕ) (c2h : Bool) (k : ℕ)
    → k < qmax
    → descq_at (new_qdev qbase qmax) (c2h, k) ≡ some (qdma_descq_init qbase k)
unfolding descq_at side new_qdev
new_qdev-at qbase qmax true k h =
    let z : 0 + k ≡ k = omega arith in rw z at (queues_from-at qbase qmax 0 k h)
new_qdev-at qbase qmax false k h =
    let z : 0 + k ≡ k = omega arith in rw z at (queues_from-at qbase qmax 0 k h)

new_qdev-idle :
    (qbase qmax : ℕ) (pos : Position) (q : Descq)
    → descq_at (new_qdev qbase qmax) pos ≡ some q
    → q.enabled ≡ false
unfolding descq_at side new_qdev
new_qdev-idle qbase qmax (true, k) q h = queues_from-idle qbase qmax 0 k q h
new_qdev-idle qbase qmax (false, k) q h = queues_from-idle qbase qmax 0 k q h

-- The lookup of a queue in use, where none is.
lookup : Option Position → Qdev → Option Position
lookup none d = none
lookup (some pos) d = elim (descq_at d pos) [
  | none ↦ none
  | some q ↦ if not q.enabled then none else some pos
]

lookup-none : (found : Option Position) (qbase qmax : ℕ) → lookup found (new_qdev qbase qmax) ≡ none
unfolding lookup
lookup-none none qbase qmax = refl
lookup-none (some pos) qbase qmax = elim (Option-cases (descq_at (new_qdev qbase qmax) pos)) [
  | inl e ↦ rw (lookup, e) refl
  | inr (q, e) ↦ rw (lookup, e, new_qdev-idle qbase qmax pos q e) refl
]

with_qdev-free :
    (f : Function) (id : ℕ) → qdma_device_get_descq_by_id (some (with_qdev f).xdev) id true ≡ none
unfolding qdma_device_get_descq_by_id with_qdev new_qdev lookup
with_qdev-free f id =
    let n = f.qsets_max in
    elim (Bool-cases (leb n id)) [
      | inr e ↦ rw (qdma_device_get_descq_by_id, e) (lookup-none (some (false, id)) _ n)
      | inl e ↦ elim (Bool-cases (leb n (id - n))) [
        | inl g ↦ rw (qdma_device_get_descq_by_id, e, g) refl
        | inr g ↦ rw (qdma_device_get_descq_by_id, e, g) (lookup-none (some (true, id - n)) _ n)
      ]
    ]

with_qdev-IsFresh :
    (f : Function) → IsFresh (f.xdev.func_id * q_per_pf_max) f.qsets_max (with_qdev f).xdev
unfolding with_qdev new_qdev
with_qdev-IsFresh f = record {
  sized = record {
    h2c = length-queues_from _ f.qsets_max 0;
    c2h = length-queues_from _ f.qsets_max 0;
  };
  qmax = refl;
  queues = new_qdev-at (f.xdev.func_id * q_per_pf_max) f.qsets_max;
  free = with_qdev-free f;
}

-- Either the function is ready, with queues of its own number, or it failed and has the queues that it had.
abbrev pub Started {ℓ} : {S : Type ℓ} → Function → Result ℕ × Function × S → Type 0
Started f (rv, f', s') =
    ((rv ≡ ok 0)
      × (f'.has_qdev ≡ true)
      × IsFresh (f'.xdev.func_id * q_per_pf_max) f.qsets_max f'.xdev)
    ⊎ ((e : Error) × (rv ≡ err e) × (f'.has_qdev ≡ f.has_qdev) × (f'.xdev.qdev ≡ f.xdev.qdev))

module _ {ℓ} {S : Type ℓ} (hw : Hw S) where
  init_queues-Started :
      (page_size : ℕ) (mem : Bool) (f : Function) (s : S)
      → Started f (init_queues hw page_size mem f s)
  unfolding init_queues with_qdev
  init_queues-Started page_size mem f s = elim (Bool-cases (f.qsets_max == 0)) [
    | inl e ↦ rw e (inr (_, refl, refl, refl))
    | inr e ↦ elim (Bool-cases mem) [
      | inl m ↦ rw (e, m) (inl (refl, refl, with_qdev-IsFresh f))
      | inr m ↦ rw (e, m) (inr (_, refl, refl, refl))
    ]
  ]

  -- Whatever the PCI core and the allocator answer, `qdma_device_init` either gives the function
  -- the arrays of queues that its configuration asks for, each in its initial state, or fails and leaves
  -- the arrays as they were.
  pub device_init-Started :
      (page_size count : ℕ) (enable : Result ℕ) (request : ℕ → Result ℕ) (mem : Bool) (f : Function)
      (s : S)
      → Started f (qdma_device_init hw page_size count enable request mem f s)
  unfolding qdma_device_init identify with_vectors intr_setup
  device_init-Started page_size count enable request mem f s =
      let (f1, s1) = identify hw f s in
      let (rv, v) = intr_setup f1.xdev.poll_mode count enable request f1.vectors in
      elim (Result-cases rv) [
        | inl (n, e) ↦ rw e (init_queues-Started page_size mem (with_vectors v f1) s1)
        | inr (n, e) ↦ rw e (inr (_, refl, refl, refl))
      ]
