-- ===== src/Queue/Choose.antt =====
-- Which queue `qdma_queue_add` takes.
use qdmav.Prelude.{
  ℕ, zero, suc, ◌+◌, ◌<◌, ◌≡◌, ◌⊎◌, inl, inr, sym, ◌∙◌, Bool, false, not, List, [], ◌∷◌, Option,
  none, some, arith, ◌==◌, get_elem?, Bool-cases, Option-cases,
}
use qdmav.Prelude.Errors.{descq_full, ok, err, Result-cases}
use qdmav.Descq.{QueueConf, Descq}
use qdmav.Device.{Qdev, side}
use qdmav.Queue.{qidx_any, pair_differs, find_free, check_named, choose}

-- A queue that is free, beside a partner that does not run in the other mode.
abbrev pub IsFree : Bool → Option Descq → Option Descq → Type 0
IsFree st (some q) (some p) = (q.enabled ≡ false) × (pair_differs st p ≡ false)
IsFree st (some q) none = ⊥
IsFree st none p = ⊥

abbrev pub IsFirst : Bool → List Descq → List Descq → ℕ → Type 0
IsFirst st qs ps k =
    IsFree st (get_elem? qs k) (get_elem? ps k)
    × ((m : ℕ) → m < k → ¬ IsFree st (get_elem? qs m) (get_elem? ps m))

IsFirst-suc :
    (st : Bool) (q p : Descq) (qs ps : List Descq) (k : ℕ)
    → ¬ IsFree st (some q) (some p)
    → IsFirst st qs ps k
    → IsFirst st (q ∷ qs) (p ∷ ps) (suc k)
IsFirst-suc st q p qs ps k h f = (f.0, below)
  where
    below : (m : ℕ) → m < suc k → ¬ IsFree st (get_elem? (q ∷ qs) m) (get_elem? (p ∷ ps) m)
    below zero l = h
    below (suc m) l = f.1 m (omega arith)

find_free_step :
    (st : Bool) (i : ℕ) (q p : Descq) (qs ps : List Descq)
    → ((IsFree st (some q) (some p)) × (find_free st i (q ∷ qs) (p ∷ ps) ≡ some i))
      ⊎ ((¬ IsFree st (some q) (some p))
          × (find_free st i (q ∷ qs) (p ∷ ps) ≡ find_free st (i + 1) qs ps))
unfolding find_free
find_free_step st i q p qs ps = elim (Bool-cases (pair_differs st p)) [
  | inl d ↦ inr ((λ f. cc), rw d)
  | inr s ↦ elim (Bool-cases q.enabled) [
    | inl e ↦ inr ((λ f. cc), rw (s, e))
    | inr f ↦ inl ((f, s), rw (s, f))
  ]
]

find_free-IsFirst :
    (st : Bool) (i : ℕ) (qs ps : List Descq) {j : ℕ}
    → find_free st i qs ps ≡ some j
    → (k : ℕ) × (j ≡ i + k) × IsFirst st qs ps k
unfolding find_free
find_free-IsFirst st i [] ps e = cc
find_free-IsFirst st i (q ∷ qs) [] e = cc
find_free-IsFirst st i (q ∷ qs) (p ∷ ps) {j} e = elim (find_free_step st i q p qs ps) [
  | inl (f, h) ↦
      let same : i ≡ j = cc (sym h ∙ e) in
      (0, omega (arith, same), (f, λ m l. absurd (omega arith)))
  | inr (f, h) ↦
      let (k, ej, r) = find_free-IsFirst st (i + 1) qs ps (sym h ∙ e) in
      (suc k, omega (arith, ej), IsFirst-suc st q p qs ps k f r)
]

not-IsFree : (st : Bool) (o : Option Descq) → ¬ IsFree st o none
not-IsFree st none f = f
not-IsFree st (some q) f = f

find_free-none :
    (st : Bool) (i : ℕ) (qs ps : List Descq)
    → find_free st i qs ps ≡ none
    → (m : ℕ) → ¬ IsFree st (get_elem? qs m) (get_elem? ps m)
unfolding find_free
find_free-none st i [] ps e m f = absurd f
find_free-none st i (q ∷ qs) [] e m f = absurd (not-IsFree st (get_elem? (q ∷ qs) m) f)
find_free-none st i (q ∷ qs) (p ∷ ps) e m f = elim (find_free_step st i q p qs ps) [
  | inl (g, h) ↦ cc (sym h ∙ e)
  | inr (g, h) ↦ later m f g (find_free-none st (i + 1) qs ps (sym h ∙ e))
]
  where
    later :
        (n : ℕ)
        → IsFree st (get_elem? (q ∷ qs) n) (get_elem? (p ∷ ps) n)
        → ¬ IsFree st (some q) (some p)
        → ((l : ℕ) → ¬ IsFree st (get_elem? qs l) (get_elem? ps l))
        → ⊥
    later zero k g r = g k
    later (suc l) k g r = r l k

-- Left to the library, the queue is the first that is free beside a partner of the same mode, and
-- the request fails only where there is none.
pub choose_any :
    (qconf : QueueConf) (d : Qdev)
    → qconf.qidx ≡ qidx_any
    → let qs = side d qconf.c2h in
      let ps = side d (not qconf.c2h) in
      ((i : ℕ) × (choose qconf d ≡ ok i) × IsFirst qconf.st qs ps i)
      ⊎ ((choose qconf d ≡ err descq_full)
          × ((m : ℕ) → ¬ IsFree qconf.st (get_elem? qs m) (get_elem? ps m)))
unfolding choose
choose_any qconf d h =
    let qs = side d qconf.c2h in
    let ps = side d (not qconf.c2h) in
    elim (Option-cases (find_free qconf.st 0 qs ps)) [
      | inl e ↦ inr (ground arith, find_free-none qconf.st 0 qs ps e)
      | inr (i, e) ↦
          let (k, ek, f) = find_free-IsFirst qconf.st 0 qs ps e in
          let same : k ≡ i = omega (arith, ek) in inl (i, ground arith, rw same at f)
    ]

check_named-ok :
    (st : Bool) (q p : Option Descq) {u : Unit {0}} → check_named st q p ≡ ok u → IsFree st q p
unfolding check_named
check_named-ok st none p e = cc
check_named-ok st (some q) none e = cc
check_named-ok st (some q) (some p) e = (ground arith, ground arith)

-- Every queue that is chosen is free, beside a partner of the same mode.
pub choose-IsFree :
    (qconf : QueueConf) (d : Qdev) {i : ℕ}
    → choose qconf d ≡ ok i
    → IsFree qconf.st (get_elem? (side d qconf.c2h) i) (get_elem? (side d (not qconf.c2h)) i)
unfolding choose
choose-IsFree qconf d {i} e = elim (Bool-cases (qconf.qidx == qidx_any)) [
  | inl any ↦ elim (choose_any qconf d (ground arith)) [
    | inl (j, ej, f) ↦ let same : i ≡ j = cc (sym ej ∙ e) in rw same (f.0)
    | inr (ej, f) ↦ cc (sym ej ∙ e)
  ]
  | inr named ↦
      let r =
        check_named qconf.st (get_elem? (side d qconf.c2h) qconf.qidx)
          (get_elem? (side d (not qconf.c2h)) qconf.qidx) in
      elim (Result-cases r) [
        | inl (u, er) ↦
            let same : i ≡ qconf.qidx = ground arith in rw same (check_named-ok qconf.st _ _ er)
        | inr (x, er) ↦ absurd (ground arith)
      ]
]
