-- ===== src/Intr/Errors/Named.antt =====
-- The names that are logged are in the tables.
use qdmav.Prelude.{
  ℕ, zero, suc, ◌+◌, ◌/◌, ◌%◌, ◌^◌, ◌≡◌, ◌≤◌, ◌<◌, refl, arith, Bool, List, [], ◌∷◌, ◌++◌, map,
  some, ◌==◌, if◌then◌else◌, All, Bool-cases, inl, inr, get_elem?,
}
use Prim.Native.Nat.{bit_and}
use qdmav.Hw.{Hw}
use qdmav.Intr.Vectors.{Vectors}
use qdmav.Intr.Errors.{
  ErrStatInfo, err_stat_info, detected, logged, acknowledge, stat_from, err_stat_handler,
}

-- How many of the lowest `n` bits are set.
unfoldable ones : ℕ → ℕ → ℕ
ones zero mask = 0
ones (suc n) mask = mask % 2 + ones n (mask / 2)

abbrev Below : ℕ → ℕ → Type 0
Below m k = k < m

detected-Below :
    (n j place mask err_stat m : ℕ)
    → place + ones n mask ≤ m
    → m < 2 ^ 8
    → All (Below m) (detected n j place mask err_stat)
unfolding detected ones
detected-Below zero j place mask err_stat m h k = tt
detected-Below (suc n) j place mask err_stat m h k = elim (Bool-cases (mask == 0)) [
  | inl e ↦ rw e tt
  | inr e ↦ elim (Bool-cases (mask % 2 == 1)) [
    | inr f ↦ rw (e, f) (detected-Below n (j + 1) place (mask / 2) err_stat m (ground arith) k)
    | inl f ↦
        let next =
          detected-Below n (j + 1) ((place + 1) % 2 ^ 8) (mask / 2) err_stat m (ground arith) k in
        elim (Bool-cases (err_stat / 2 ^ j % 2 == 1)) [
          | inl g ↦ rw (e, f, g) (ground arith, next)
          | inr g ↦ rw (e, f, g) next
        ]
  ]
]

-- The entry's table has a name for every bit of its mask.
abbrev IsNaming : ErrStatInfo → Type 0
IsNaming info = (ones 32 info.intr_mask ≤ info.stat) × (info.stat < 2 ^ 8)

-- A place that is logged for an entry is in the table of that entry, counted from `i` on.
abbrev pub IsNamed : ℕ → List ErrStatInfo → ℕ × ℕ → Type 0
IsNamed i l (k, place) =
    (n : ℕ) × (info : ErrStatInfo) × (k ≡ i + n) × (get_elem? l n ≡ some info) × (place < info.stat)

All-weaken :
    {P Q : ℕ × ℕ → Type 0} (l : List (ℕ × ℕ)) → ((x : ℕ × ℕ) → P x → Q x) → All P l → All Q l
All-weaken [] f h = tt
All-weaken (x ∷ xs) f (h, hs) = (f x h, All-weaken xs f hs)

All-append : (P : ℕ × ℕ → Type 0) (l r : List (ℕ × ℕ)) → All P l → All P r → All P (l ++ r)
All-append P [] r h k = k
All-append P (x ∷ xs) r (h, hs) k = (h, All-append P xs r hs k)

mapped-IsNamed :
    (i : ℕ) (info : ErrStatInfo) (l : List ErrStatInfo) (places : List ℕ)
    → All (Below info.stat) places
    → All (IsNamed i (info ∷ l)) (map (λ (place : ℕ). (i, place)) places)
mapped-IsNamed i info l [] h = tt
mapped-IsNamed i info l (p ∷ ps) (h, hs) =
    ((0, info, omega arith, refl, h), mapped-IsNamed i info l ps hs)

logged-IsNamed :
    (i : ℕ) (info : ErrStatInfo) (l : List ErrStatInfo) (v : ℕ)
    → IsNaming info
    → All (IsNamed i (info ∷ l)) (logged i info v)
unfolding logged
logged-IsNamed i info l v (h, k) = elim (Bool-cases (bit_and v info.intr_mask == 0)) [
  | inl e ↦ rw e tt
  | inr e ↦ rw e (
      mapped-IsNamed i info l (detected 32 0 0 info.intr_mask v)
        (detected-Below 32 0 0 info.intr_mask v info.stat (omega (arith, h)) k))
]

module _ {ℓ} {S : Type ℓ} (hw : Hw S) where
  stat_from-IsNamed :
      (i : ℕ) (l : List ErrStatInfo) (glb : ℕ) (s : S)
      → All IsNaming l
      → All (IsNamed i l) (stat_from hw i l glb s).1
  unfolding stat_from
  stat_from-IsNamed i [] glb s h = tt
  stat_from-IsNamed i (info ∷ l) glb s (h, hs) =
      let r = hw.read_reg info.stat_reg_addr s in
      let rest =
        stat_from-IsNamed (i + 1) l (if i == 0 then r.0 else glb) (acknowledge hw info r) hs in
      All-append (IsNamed i (info ∷ l)) (logged i info r.0) _ (logged-IsNamed i info l r.0 h)
        (All-weaken _ (λ x (n, one, e, at, p). (suc n, one, omega (arith, e), at, p)) rest)

  -- Whatever the device reports, each name that the handler logs is in the table of the register
  -- that it is logged for.
  pub err_stat_handler-IsNamed :
      (intr_coal_en : Bool) (x : Vectors) (s : S)
      → All (IsNamed 0 err_stat_info) (err_stat_handler hw intr_coal_en x s).0
  unfolding err_stat_handler ones
  err_stat_handler-IsNamed intr_coal_en x s = stat_from-IsNamed 0 err_stat_info 0 s (omega arith)
