-- ===== src/Intr/Vectors.antt =====
-- The interrupt vectors of a function: `intr_setup`, `intr_teardown`, `irq_bottom` and
-- `get_intr_vec_index` (libqdma/qdma_intr.c). What the PCI core answers is an argument: the count of
-- vectors, whether they can be enabled, and whether each can be requested.
pub mod Laws
use qdmav.Prelude.{
  ℕ, zero, suc, ◌+◌, ◌-◌, ◌≤◌, ◌<◌, ◌≡◌, ◌↔◌, refl, sym, ap, ◌∙◌, arith, Bool, true, false, not,
  List, [], ◌∷◌, Option, none, some, ltb, leb, ◌==◌, if◌then◌else◌, set, get_elem?, length,
  Bool-cases, inl, inr, min, length-set, get_elem?-set_self, get_elem?-set_ne,
}
use qdmav.Prelude.Errors.{Error, Result, ok, err, Result-cases}

-- `intr_type_list`; a vector's handler goes by its type
pub data IntrType : Type 0 where
  intr_error intr_user intr_data : IntrType

pub record VecMap : Type 0 where
  pub intr_type : IntrType
  pub intr_vec_index : ℕ

-- `requested` holds the vectors whose interrupt is requested, the last first.
pub record Vectors : Type 0 where
  pub func_id : ℕ
  pub num_vecs : ℕ
  pub dvec_start_idx : ℕ
  pub intr_vec_map : List VecMap
  pub irq_flag : Bool
  pub requested : List ℕ
  pub msix_enabled : Bool

-- XDEV_NUM_IRQ_MAX
abbrev pub num_irq_max : ℕ
num_irq_max = 8

unfoldable pub type_of : ℕ → ℕ → IntrType
type_of func_id zero = if func_id == 0 then intr_error else intr_user
type_of func_id (suc zero) = if func_id == 0 then intr_user else intr_data
type_of func_id (suc (suc i)) = intr_data

unfoldable pub free_irq : ℕ → List ℕ → List ℕ
free_irq i [] = []
free_irq i (j ∷ l) = if j == i then l else j ∷ free_irq i l

-- `while (--i >= 0)`
unfoldable pub free_irqs : ℕ → List ℕ → List ℕ
free_irqs zero l = l
free_irqs (suc i) l = free_irqs i (free_irq i l)

unfoldable pub map_vector : ℕ → Vectors → Vectors
map_vector i s = record s {
  intr_vec_map =
      set s.intr_vec_map i (record { intr_type = type_of s.func_id i; intr_vec_index = i });
  requested = i ∷ s.requested;
}

unfoldable pub cleanup_irq : ℕ → Vectors → Vectors
cleanup_irq i s = record s { requested = free_irqs i s.requested; msix_enabled = false }

-- The loop with `n` vectors to go, from `i` on.
unfoldable pub request_from : (ℕ → Result ℕ) → ℕ → ℕ → Vectors → Result ℕ × Vectors
request_from request zero i s = (ok 0, s)
request_from request (suc n) i s = elim (request i) [
  | err e ↦ (err e, cleanup_irq i s)
  | ok _ ↦ request_from request n (i + 1) (map_vector i s)
]

unfoldable pub data_vectors : Result ℕ × Vectors → Result ℕ × Vectors
data_vectors (err e, s) = (err e, s)
data_vectors (ok n, s) =
    (ok n, record s { dvec_start_idx = if s.func_id == 0 then 2 else 1; irq_flag = true })

unfoldable pub intr_setup : Bool → ℕ → Result ℕ → (ℕ → Result ℕ) → Vectors → Result ℕ × Vectors
intr_setup poll_mode count enable request s =
    let n = min count num_irq_max in
    let s1 = record s { num_vecs = n } in
    let on = data_vectors (request_from request n 0 (record s1 { msix_enabled = true })) in
    if poll_mode
    then (ok 0, s)
    else (if count == 0 then (ok 0, s1) else elim enable [ err e ↦ (err e, s1) | ok _ ↦ on ])

unfoldable pub intr_teardown : Vectors → Vectors
intr_teardown s = record s {
  requested = free_irqs s.num_vecs s.requested;
  msix_enabled = if s.num_vecs == 0 then s.msix_enabled else false;
}

unfoldable pub same_type : IntrType → IntrType → Bool
same_type intr_error intr_error = true
same_type intr_user intr_user = true
same_type intr_data intr_data = true
same_type a b = false

-- The first vector of a type, or 0.
unfoldable pub vec_index_from : IntrType → ℕ → List VecMap → ℕ
vec_index_from t zero l = 0
vec_index_from t (suc n) [] = 0
vec_index_from t (suc n) (v ∷ l) =
    if same_type v.intr_type t then v.intr_vec_index else vec_index_from t n l

unfoldable pub get_intr_vec_index : IntrType → Vectors → ℕ
get_intr_vec_index t s = vec_index_from t s.num_vecs s.intr_vec_map

-- The handler that an interrupt reaches, and the vector that it is called with: `vector` gives
-- `msix[i].vector`.
unfoldable pub find_vector : (ℕ → ℕ) → ℕ → ℕ → ℕ → List VecMap → Option (IntrType × ℕ)
find_vector vector irq zero i l = none
find_vector vector irq (suc n) i [] = none
find_vector vector irq (suc n) i (v ∷ l) =
    if vector i == irq then some (v.intr_type, i) else find_vector vector irq n (i + 1) l

unfoldable pub irq_bottom : Bool → (ℕ → ℕ) → ℕ → Vectors → Option (IntrType × ℕ)
irq_bottom isr_top vector irq s =
    if isr_top then none else find_vector vector irq s.num_vecs 0 s.intr_vec_map
