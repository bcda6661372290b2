-- ===== src/Lifecycle/Resources/Vectors.antt =====
-- Which interrupt vector a queue gets.
use qdmav.Prelude.{
  ℕ, zero, suc, ◌+◌, ◌≤◌, ◌<◌, ◌≡◌, ◌⊎◌, inl, inr, refl, sym, ◌∙◌, arith, true, false, List, [],
  ◌∷◌, ltb, ◌==◌, get_or, length, take, drop, Bool-cases, All,
}
use qdmav.Device.{Xdev}
use qdmav.Lifecycle.Resources.{least_from, choose_vector}

module _ (i min idx c : ℕ) (cs : List ℕ) where
  step_less : 0 < c → c < min → least_from i min idx (c ∷ cs) ≡ least_from (i + 1) c i cs
  unfolding least_from
  step_less p l =
      let f : ltb c min ≡ true = ground arith in
      let g : (c == 0) ≡ false = ground arith in simp (least_from, f, g)

  step_zero : c ≡ 0 → 0 < min → least_from i min idx (c ∷ cs) ≡ i
  unfolding least_from
  step_zero z p =
      let f : ltb c min ≡ true = ground arith in
      let g : (c == 0) ≡ true = ground arith in simp (least_from, f, g)

  step_more : 0 < min → min ≤ c → least_from i min idx (c ∷ cs) ≡ least_from (i + 1) min idx cs
  unfolding least_from
  step_more p l =
      let f : ltb c min ≡ false = ground arith in
      let g : (min == 0) ≡ false = ground arith in simp (least_from, f, g)

  step_done : min ≡ 0 → least_from i min idx (c ∷ cs) ≡ idx
  unfolding least_from
  step_done z =
      let f : ltb c min ≡ false = ground arith in
      let g : (min == 0) ≡ true = ground arith in simp (least_from, f, g)

All-zero : (m : ℕ) (cs : List ℕ) → m ≡ 0 → All (λ c. m ≤ c) cs
All-zero m [] z = tt
All-zero m (c ∷ cs) z = (omega arith, All-zero m cs z)

-- A result of the search from vector `i` on: the earlier choice or a later vector, with the count `m`.
abbrev Found : ℕ → ℕ → ℕ → List ℕ → ℕ → ℕ → Type 0
Found i min idx cs r m =
    ((r ≡ idx) × (m ≡ min)) ⊎ ((k : ℕ) × (r ≡ i + k) × (k < length cs) × (get_or cs k 0 ≡ m))

Found-suc :
    (cs : List ℕ) {i min idx c min' idx' r m : ℕ}
    → ((idx' ≡ idx) × (min' ≡ min)) ⊎ ((idx' ≡ i) × (min' ≡ c))
    → Found (i + 1) min' idx' cs r m
    → Found i min idx (c ∷ cs) r m
Found-suc cs (inl (a, b)) (inl (r, s)) = inl (r ∙ a, s ∙ b)
Found-suc cs (inr (a, b)) (inl (r, s)) = inr (0, omega (arith, r, a), omega arith, sym (s ∙ b))
Found-suc cs h (inr (k, r, l, g)) = inr (suc k, omega (arith, r), omega (arith, l), g)

least_from-IsLeast :
    (i min idx : ℕ) (cs : List ℕ)
    → (m : ℕ) × Found i min idx cs (least_from i min idx cs) m × (m ≤ min) × All (λ c. m ≤ c) cs
unfolding least_from
least_from-IsLeast i min idx [] = (min, inl (refl, refl), omega arith, tt)
least_from-IsLeast i min idx (c ∷ cs) = elim (Bool-cases (min == 0)) [
  | inl z ↦
      let e : min ≡ 0 = ground arith in
      (min, inl (step_done i min idx c cs e, refl), omega arith, All-zero min (c ∷ cs) e)
  | inr nz ↦
      let p : 0 < min = ground arith in
      elim (Bool-cases (c == 0)) [
        | inl z ↦
            let e : c ≡ 0 = ground arith in
            (
              c,
              inr (0, step_zero i min idx c cs e p ∙ omega arith, omega arith, refl),
              omega arith,
              All-zero c (c ∷ cs) e,
            )
        | inr nz ↦
            let q : 0 < c = ground arith in
            elim (Bool-cases (ltb c min)) [
              | inl l ↦
                  let lt : c < min = ground arith in
                  let (m, f, b, all) = least_from-IsLeast (i + 1) c i cs in
                  rw (step_less i min idx c cs q lt)
                    (m, Found-suc cs (inr (refl, refl)) f, omega (arith, b), (b, all))
              | inr l ↦
                  let ge : min ≤ c = ground arith in
                  let (m, f, b, all) = least_from-IsLeast (i + 1) min idx cs in
                  rw (step_more i min idx c cs p ge)
                    (m, Found-suc cs (inl (refl, refl)) f, b, (omega (arith, b), all))
            ]
      ]
]

get_or-drop-take :
    (s n k : ℕ) (xs : List ℕ)
    → k < length (drop s (take n xs))
    → (get_or (drop s (take n xs)) k 0 ≡ get_or xs (s + k) 0) × (s + k < n)
get_or-drop-take s zero k xs h = absurd (omega (arith, drop-nil s, h))
  where
    drop-nil : (s : ℕ) → length {A = ℕ} (drop s []) ≡ 0
    drop-nil zero = refl
    drop-nil (suc s) = refl
get_or-drop-take zero (suc n) k [] h = absurd (omega arith)
get_or-drop-take zero (suc n) zero (x ∷ xs) h = (refl, omega arith)
get_or-drop-take zero (suc n) (suc k) (x ∷ xs) h =
    let (g, l) = get_or-drop-take zero n k xs (omega arith) in
    let e : 0 + suc k ≡ suc k = omega arith in
    let e' : 0 + k ≡ k = omega arith in (rw e (rw e' at g), omega (arith, l))
get_or-drop-take (suc s) (suc n) k [] h = absurd (omega arith)
get_or-drop-take (suc s) (suc n) k (x ∷ xs) h =
    let (g, l) = get_or-drop-take s n k xs h in
    let e : suc s + k ≡ suc (s + k) = omega arith in (rw e g, omega (arith, l))

-- Without coalescing, a queue gets a vector of the function whose count of queues is the least of
-- all those vectors: no vector from `dvec_start_idx` up to `num_vecs` has fewer.
pub choose_vector-IsLeast :
    (x : Xdev)
    → let r = choose_vector x in
      x.intr_coal_en ≡ false
      → x.dvec_start_idx < x.num_vecs
      → (x.dvec_start_idx ≤ r)
        × (r < x.num_vecs)
        × All
            (λ c. get_or x.intr_list_cnt r 0 ≤ c)
            (drop x.dvec_start_idx (take x.num_vecs x.intr_list_cnt))
unfolding choose_vector
choose_vector-IsLeast x h l =
    let start = x.dvec_start_idx in
    let cs = drop start (take x.num_vecs x.intr_list_cnt) in
    let min = get_or x.intr_list_cnt start 0 in
    let (m, f, b, all) = least_from-IsLeast start min start cs in
    rw h (elim f [
      | inl (r, e) ↦ rw (r, sym e) (omega arith, omega arith, all)
      | inr (k, r, kl, g) ↦
          let (same, below) = get_or-drop-take start x.num_vecs k x.intr_list_cnt kl in
          let e : get_or x.intr_list_cnt (start + k) 0 ≡ m = sym same ∙ g in
          rw (r, e) (omega arith, below, all)
    ])
