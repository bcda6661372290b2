-- ===== src/Control/Refines.antt =====
-- The operations on the device as steps of one machine per queue.
use native.Mathlib.Decide.{ℕ_discrete}
use qdmav.Prelude.{
  ℕ, zero, suc, ◌≡◌, ◌≢◌, ◌⊎◌, inl, inr, refl, sym, ap, ◌∙◌, arith, Bool, true, false, List, [],
  ◌∷◌, Option, none, some, Option-cases, get_elem?, modify, get_elem?-modify, get_elem?-modify_ne,
}
use qdmav.Prelude.Errors.{invalid_qidx, Result, err}
use qdmav.Descq.{Descq}
use qdmav.Device.{
  Qdev, Xdev, Position, side, set_side, descq_at, modify_at, qdma_device_get_descq_by_id,
}
use qdmav.Control.{Driver, Body, with_queue}
use qdmav.Control.Phases.{
  phase, IsSound, SameQueues, Moved, Op, config, reconfig, start, stop, remove, Move,
}

-- A queue after one queue was stored: the other one is as it was, and the stored one is there.
pub at-modify_at :
    (x : Xdev) (p p' : Position) (v : Descq) {q : Descq}
    → descq_at x.qdev p' ≡ some q
    → let y = modify_at p (λ _. v) x in
      ((p ≢ p') × (descq_at y.qdev p' ≡ some q)) ⊎ ((p ≡ p') × (descq_at y.qdev p' ≡ some v))
unfolding descq_at modify_at side set_side
at-modify_at x (true, i) (true, j) v h = elim (ℕ_discrete i j) [
  | yes e ↦ inr (ap (λ n. (true, n)) e, rw e (get_elem?-modify j (λ _. v) x.qdev.c2h_descq h))
  | no n ↦ inl (λ e. n (ap (λ p. p.1) e), get_elem?-modify_ne i j (λ _. v) x.qdev.c2h_descq n ∙ h)
]
at-modify_at x (false, i) (false, j) v h = elim (ℕ_discrete i j) [
  | yes e ↦ inr (ap (λ n. (false, n)) e, rw e (get_elem?-modify j (λ _. v) x.qdev.h2c_descq h))
  | no n ↦ inl (λ e. n (ap (λ p. p.1) e), get_elem?-modify_ne i j (λ _. v) x.qdev.h2c_descq n ∙ h)
]
at-modify_at x (true, i) (false, j) v h = inl (λ e. cc, h)
at-modify_at x (false, i) (true, j) v h = inl (λ e. cc, h)

get_elem?-modify-none {ℓ} :
    {A : Type ℓ} (i j : ℕ) (f : A → A) (xs : List A)
    → get_elem? xs j ≡ none
    → get_elem? (modify i f xs) j ≡ none
get_elem?-modify-none i j f [] h = refl
get_elem?-modify-none i zero f (x ∷ xs) h = cc
get_elem?-modify-none zero (suc j) f (x ∷ xs) h = h
get_elem?-modify-none (suc i) (suc j) f (x ∷ xs) h = get_elem?-modify-none i j f xs h

at-modify_at-none :
    (x : Xdev) (p p' : Position) (v : Descq)
    → descq_at x.qdev p' ≡ none
    → descq_at (modify_at p (λ _. v) x).qdev p' ≡ none
unfolding descq_at modify_at side set_side
at-modify_at-none x (true, i) (true, j) v h = get_elem?-modify-none i j (λ _. v) x.qdev.c2h_descq h
at-modify_at-none x (false, i) (false, j) v h =
    get_elem?-modify-none i j (λ _. v) x.qdev.h2c_descq h
at-modify_at-none x (true, i) (false, j) v h = h
at-modify_at-none x (false, i) (true, j) v h = h

pub at-SameQueues : (d d' : Qdev) (p : Position) → SameQueues d d' → descq_at d' p ≡ descq_at d p
unfolding descq_at side
at-SameQueues d d' (true, i) s = ap (λ l. get_elem? l i) s.c2h
at-SameQueues d d' (false, i) s = ap (λ l. get_elem? l i) s.h2c

pub lookup-enabled :
    (x : Xdev) (id : ℕ) (p : Position) (q : Descq)
    → qdma_device_get_descq_by_id (some x) id true ≡ some p
    → descq_at x.qdev p ≡ some q
    → q.enabled ≡ true
unfolding qdma_device_get_descq_by_id
lookup-enabled x id p q h e = ground (arith, h, e)

abbrev pub target : Op → ℕ
target (config id qconf) = id
target (reconfig id qconf) = id
target (start id mem cut) = id
target (stop id cut) = id
target (remove id) = id

-- Every operation but the first wants a queue that is in use.
abbrev pub in_use : Op → Bool
in_use (config id qconf) = false
in_use op = true

abbrev pub lookup {ℓ} : {S : Type ℓ} → Driver S → Op → Option Position
lookup d op = qdma_device_get_descq_by_id (some d.xdev) (target op) (in_use op)

with_queue-none {ℓ} :
    {S : Type ℓ} (init : Bool) (id : ℕ) (body : Body S) (d : Driver S)
    → qdma_device_get_descq_by_id (some d.xdev) id init ≡ none
    → with_queue init id body d ≡ (err invalid_qidx, d)
unfolding with_queue
with_queue-none init id body d h = ground (arith, h)

with_queue-gone {ℓ} :
    {S : Type ℓ} (init : Bool) (id : ℕ) (body : Body S) (d : Driver S) (p : Position)
    → qdma_device_get_descq_by_id (some d.xdev) id init ≡ some p
    → descq_at d.xdev.qdev p ≡ none
    → with_queue init id body d ≡ (err invalid_qidx, d)
unfolding with_queue
with_queue-gone init id body d p h g = ground (arith, h, g)

pub with_queue-found {ℓ} :
    {S : Type ℓ} (init : Bool) (id : ℕ) (body : Body S) (d : Driver S) (p : Position) (q : Descq)
    → qdma_device_get_descq_by_id (some d.xdev) id init ≡ some p
    → descq_at d.xdev.qdev p ≡ some q
    → let (rv, q', d') = body p q d in
      with_queue init id body d ≡ (rv, record d' { xdev = modify_at p (λ _. q') d'.xdev })
unfolding with_queue
with_queue-found init id body d p q h g = ground (arith, h, g)

-- A queue after an operation: it is the one that the operation names and makes a move, or it is as it
-- was.
abbrev pub Stepped {ℓ} :
    {S : Type ℓ} → Op → Position → Descq → Driver S → Result ℕ × Driver S → Type 0
Stepped op p q d (rv, d') =
    (q' : Descq) × (descq_at d'.xdev.qdev p ≡ some q')
    × IsSound q'
    × (((lookup d op ≢ some p) × (q' ≡ q))
        ⊎ ((lookup d op ≡ some p) × Move op rv (phase q) (phase q')))

-- Every queue of the device is sound.
abbrev pub AllSound {ℓ} : {S : Type ℓ} → Driver S → Type 0
AllSound d = (p : Position) (q : Descq) → descq_at d.xdev.qdev p ≡ some q → IsSound q

pub Stepped-body {ℓ} :
    {S : Type ℓ} (op : Op) (body : Body S) (d : Driver S) (p : Position) (q : Descq)
    → ((p : Position) (q : Descq)
        → lookup d op ≡ some p
        → descq_at d.xdev.qdev p ≡ some q
        → Moved op q d (body p q d))
    → descq_at d.xdev.qdev p ≡ some q
    → IsSound q
    → Stepped op p q d (with_queue (in_use op) (target op) body d)
Stepped-body op body d p q moves h s = elim (Option-cases (lookup d op)) [
  | inl missing ↦
      rw (with_queue-none (in_use op) (target op) body d missing) (q, h, s, inl ((λ e. cc), refl))
  | inr (p0, found) ↦ elim (Option-cases (descq_at d.xdev.qdev p0)) [
    | inl gone ↦
        rw (with_queue-gone (in_use op) (target op) body d p0 found gone)
          (q, h, s, inl ((λ e. cc), refl))
    | inr (q0, g) ↦
        let (s0, m, same) = moves p0 q0 found g in
        let (rv, q1, d1) = body p0 q0 d in
        rw (with_queue-found (in_use op) (target op) body d p0 q0 found g)
          (elim (at-modify_at d1.xdev p0 p q1 (at-SameQueues d.xdev.qdev d1.xdev.qdev p same ∙ h)) [
            | inl (ne, k) ↦ (q, k, s, inl ((λ e. ne (cc)), refl))
            | inr (eq, k) ↦
                (q1, k, s0, inr (found ∙ ap some eq, rw (ap phase (sym (same_queue eq g))) m))
          ])
  ]
]
  where
    same_queue : {p0 : Position} {q0 : Descq} → p0 ≡ p → descq_at d.xdev.qdev p0 ≡ some q0 → q0 ≡ q
    same_queue eq g = cc (sym g ∙ ap (descq_at d.xdev.qdev) eq ∙ h)

pub gone-body {ℓ} :
    {S : Type ℓ} (op : Op) (body : Body S) (d : Driver S) (p : Position)
    → ((p : Position) (q : Descq)
        → lookup d op ≡ some p
        → descq_at d.xdev.qdev p ≡ some q
        → Moved op q d (body p q d))
    → descq_at d.xdev.qdev p ≡ none
    → descq_at (with_queue (in_use op) (target op) body d).1.xdev.qdev p ≡ none
gone-body op body d p moves h = elim (Option-cases (lookup d op)) [
  | inl missing ↦ rw (with_queue-none (in_use op) (target op) body d missing) h
  | inr (p0, found) ↦ elim (Option-cases (descq_at d.xdev.qdev p0)) [
    | inl gone ↦ rw (with_queue-gone (in_use op) (target op) body d p0 found gone) h
    | inr (q0, g) ↦
        let (s0, m, same) = moves p0 q0 found g in
        let (rv, q1, d1) = body p0 q0 d in
        rw (with_queue-found (in_use op) (target op) body d p0 q0 found g)
          (at-modify_at-none d1.xdev p0 p q1 (at-SameQueues d.xdev.qdev d1.xdev.qdev p same ∙ h))
  ]
]
