-- ===== src/Intr/Vectors/Laws.antt =====
-- What the vectors of a function are for, and that they are given back.
use qdmav.Prelude.{
  ℕ, zero, suc, ◌+◌, ◌≤◌, ◌<◌, ◌≡◌, ◌≢◌, refl, ◌∙◌, arith, true, false, List, some, ◌==◌,
  if◌then◌else◌, get_elem?, length, Bool-cases, inl, inr, min, length-set, get_elem?-set_self,
  get_elem?-set_ne,
}
use qdmav.Prelude.Errors.{Result, ok, err, Result-cases}
use qdmav.Intr.Vectors.{
  intr_data, VecMap, Vectors, num_irq_max, type_of, free_irq, free_irqs, map_vector, cleanup_irq,
  request_from, data_vectors, intr_setup, intr_teardown,
}

-- The vectors below `i` are requested above `base`, and each is mapped to its handler.
record Mapped (base : List ℕ) (s : Vectors) (i : ℕ) : Type 0 where
  pub held : free_irqs i s.requested ≡ base
  pub types :
      (k : ℕ)
      → k < i
      → get_elem? s.intr_vec_map k
        ≡ some (record { intr_type = type_of s.func_id k; intr_vec_index = k })
  pub room : num_irq_max ≤ length s.intr_vec_map

map_vector-Mapped :
    (base : List ℕ) (s : Vectors) (i : ℕ)
    → i < num_irq_max
    → Mapped base s i
    → Mapped base (map_vector i s) (suc i)
unfolding map_vector free_irqs free_irq
map_vector-Mapped base s i l m = record {
  held = ground (arith, m.held);
  types = λ k h. elim (Bool-cases (i == k)) [
    | inl e ↦
        let q : i ≡ k = ground arith in
        rw (← q) (get_elem?-set_self s.intr_vec_map i _ (omega (arith, m.room)))
    | inr e ↦
        let q : i ≢ k = λ p. absurd (ground arith) in
        get_elem?-set_ne s.intr_vec_map _ q ∙ m.types k (ground arith)
  ];
  room = omega (
    arith,
    length-set s.intr_vec_map i (record { intr_type = type_of s.func_id i; intr_vec_index = i }),
    m.room,
  );
}

-- The outcome of the loop.
abbrev Requested : List ℕ → ℕ → Vectors → Result ℕ × Vectors → Type 0
Requested base n s (err e, s') = (s'.requested ≡ base) × (s'.msix_enabled ≡ false)
Requested base n s (ok v, s') =
    Mapped base s' n × (s'.func_id ≡ s.func_id) × (s'.num_vecs ≡ s.num_vecs)

request_from-Requested :
    (request : ℕ → Result ℕ) (base : List ℕ) (n i : ℕ) (s : Vectors)
    → i + n ≤ num_irq_max
    → Mapped base s i
    → Requested base (i + n) s (request_from request n i s)
unfolding request_from cleanup_irq map_vector
request_from-Requested request base zero i s l m =
    let e : i + 0 ≡ i = omega arith in rw e (m, refl, refl)
request_from-Requested request base (suc n) i s l m = elim (Result-cases (request i)) [
  | inr (e, h) ↦ rw (h, request_from) (m.held, refl)
  | inl (v, h) ↦
      let q : i + suc n ≡ i + 1 + n = omega arith in
      let one : i + 1 ≡ suc i = omega arith in
      let m' : Mapped base (map_vector i s) (i + 1) =
        rw one (map_vector-Mapped base s i (omega arith) m) in
      let rest : Requested base (i + 1 + n) s (request_from request n (i + 1) (map_vector i s)) =
        request_from-Requested request base n (i + 1) (map_vector i s) (omega arith) m' in
      rw (h, request_from, q) rest
]

-- A vector with its own index, for data exactly from `dvec_start_idx` on.
abbrev pub Serves : Vectors → ℕ → Type 0
Serves s i =
    (v : VecMap) × (get_elem? s.intr_vec_map i ≡ some v)
    × (v.intr_vec_index ≡ i)
    × (v.intr_type ≡ intr_data → s.dvec_start_idx ≤ i)
    × (s.dvec_start_idx ≤ i → v.intr_type ≡ intr_data)

-- A failure leaves nothing requested; a success gives every vector its handler, and the teardown
-- gives them all back.
abbrev pub IsComplete : ℕ → Vectors → Result ℕ × Vectors → Type 0
IsComplete count s (err e, s') = (s'.requested ≡ s.requested) × (s'.msix_enabled ≡ false)
IsComplete count s (ok n, s') =
    (s'.num_vecs ≡ min count num_irq_max)
    × ((i : ℕ) → i < s'.num_vecs → Serves s' i)
    × ((intr_teardown s').requested ≡ s.requested)
    × ((intr_teardown s').msix_enabled ≡ false)

type_of-data :
    (func_id i : ℕ)
    → let start : ℕ = if func_id == 0 then 2 else 1 in
      (type_of func_id i ≡ intr_data → start ≤ i) × (start ≤ i → type_of func_id i ≡ intr_data)
unfolding type_of
type_of-data func_id zero = (λ h. ground arith, λ h. absurd (ground arith))
type_of-data func_id (suc zero) = (λ h. ground arith, λ h. ground arith)
type_of-data func_id (suc (suc i)) = (λ h. ground arith, λ h. refl)

data_vectors-IsComplete :
    (count n : ℕ) (s s1 : Vectors) (r : Result ℕ × Vectors)
    → n ≡ min count num_irq_max
    → 0 < n
    → s1.num_vecs ≡ n
    → Requested s.requested n s1 r
    → IsComplete count s (data_vectors r)
unfolding data_vectors intr_teardown
data_vectors-IsComplete count n s s1 (err e, t) m p v q = q
data_vectors-IsComplete count n s s1 (ok k, t) m p v (q, f, vecs) =
    let same : t.num_vecs ≡ n = vecs ∙ v in
    (
      same ∙ m,
      λ i l. (
        record { intr_type = type_of t.func_id i; intr_vec_index = i },
        q.types i (omega arith),
        refl,
        (type_of-data t.func_id i).0,
        (type_of-data t.func_id i).1,
      ),
      rw same q.held,
      ground arith,
    )

-- Whatever the PCI core answers, setting up the interrupts of a function that has vectors and is not
-- polled either gives every vector its handler, with the data vectors from `dvec_start_idx` on, so
-- that the teardown gives everything back, or fails with nothing requested.
pub intr_setup-IsComplete :
    (count : ℕ) (enable : Result ℕ) (request : ℕ → Result ℕ) (s : Vectors)
    → 0 < count
    → s.msix_enabled ≡ false
    → num_irq_max ≤ length s.intr_vec_map
    → IsComplete count s (intr_setup false count enable request s)
unfolding intr_setup
intr_setup-IsComplete count enable request s p off room =
    let n = min count num_irq_max in
    let s1 : Vectors = record s { num_vecs = n; msix_enabled = true } in
    let none_yet : Mapped s.requested s1 0 = record {
      held = unfold free_irqs in refl;
      types = λ k h. elim h [ ];
      room = room;
    } in
    let z : 0 + n ≡ n = omega arith in
    let loop : Requested s.requested n s1 (request_from request n 0 s1) =
      rw z at (request_from-Requested request s.requested n 0 s1 (omega arith) none_yet) in
    let some_vecs : (count == 0) ≡ false = ground arith in
    elim (Result-cases enable) [
      | inl (v, e) ↦
          rw (some_vecs, e) (data_vectors-IsComplete count n s s1 _ refl (omega arith) refl loop)
      | inr (v, e) ↦ rw (some_vecs, e) (refl, off)
    ]
