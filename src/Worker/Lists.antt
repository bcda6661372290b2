-- ===== src/Worker/Lists.antt =====
-- The work list while its requests are taken out or changed in place.
use qdmav.Prelude.{
  ℕ, ◌+◌, ◌≡◌, ◌≤◌, refl, ap, arith, true, false, List, [], ◌∷◌, ◌++◌, ◌==◌, map, Bool-cases, inl,
  inr, All,
}
use qdmav.Request.{Request}
use qdmav.Descq.{list_del, update}
use qdmav.Writeback.Laws.{outstanding}

abbrev pub ids : List Request → List ℕ
ids rs = map (λ r. r.id) rs

-- No request stands twice in the list.
abbrev pub Distinct : List ℕ → Type 0
Distinct [] = Unit
Distinct (i ∷ is) = All (λ j. (i == j) ≡ false) is × Distinct is

pub outstanding-append :
    (xs ys : List Request) → outstanding (xs ++ ys) ≡ outstanding xs + outstanding ys
outstanding-append [] ys = omega arith
outstanding-append (x ∷ xs) ys = omega (arith, outstanding-append xs ys)

pub outstanding-list_del :
    (id : ℕ) (rs : List Request) → outstanding (list_del id rs) ≤ outstanding rs
unfolding list_del
outstanding-list_del id [] = omega arith
outstanding-list_del id (r ∷ rs) = ground (arith, outstanding-list_del id rs)

pub All-list_del {κ} :
    (P : Request → Type κ) (id : ℕ) (rs : List Request) → All P rs → All P (list_del id rs)
unfolding list_del
All-list_del P id [] h = h
All-list_del P id (r ∷ rs) h = elim (Bool-cases (r.id == id)) [
  | inl e ↦ rw e (h.1)
  | inr e ↦ rw e (h.0, All-list_del P id rs h.1)
]

pub All-update {κ} :
    (P : Request → Type κ) (cb : Request) (rs : List Request)
    → P cb
    → All P rs
    → All P (update cb rs)
unfolding update
All-update P cb [] p h = h
All-update P cb (r ∷ rs) p h = elim (Bool-cases (r.id == cb.id)) [
  | inl e ↦ rw e (p, h.1)
  | inr e ↦ rw e (h.0, All-update P cb rs p h.1)
]

All-ids-list_del :
    (i id : ℕ) (rs : List Request)
    → All (λ j. (i == j) ≡ false) (ids rs)
    → All (λ j. (i == j) ≡ false) (ids (list_del id rs))
unfolding list_del
All-ids-list_del i id [] h = h
All-ids-list_del i id (r ∷ rs) h = elim (Bool-cases (r.id == id)) [
  | inl e ↦ rw e (h.1)
  | inr e ↦ rw e (h.0, All-ids-list_del i id rs h.1)
]

pub Distinct-list_del :
    (id : ℕ) (rs : List Request) → Distinct (ids rs) → Distinct (ids (list_del id rs))
unfolding list_del
Distinct-list_del id [] h = h
Distinct-list_del id (r ∷ rs) h = elim (Bool-cases (r.id == id)) [
  | inl e ↦ rw e (h.1)
  | inr e ↦ rw e (All-ids-list_del r.id id rs h.0, Distinct-list_del id rs h.1)
]

-- A request between those that were kept and those that follow.
module _ (cb : Request) (rest : List Request) where
  All-ids_at :
      (i : ℕ) (kept : List Request)
      → All (λ j. (i == j) ≡ false) (ids (kept ++ (cb ∷ rest)))
      → (i == cb.id) ≡ false
  All-ids_at i [] h = h.0
  All-ids_at i (k ∷ kept) h = All-ids_at i kept h.1

  pub list_del_at :
      (kept : List Request)
      → Distinct (ids (kept ++ (cb ∷ rest)))
      → list_del cb.id (kept ++ (cb ∷ rest)) ≡ kept ++ rest
  unfolding list_del
  list_del_at [] h = let e : (cb.id == cb.id) ≡ true = ground arith in rw e refl
  list_del_at (k ∷ kept) h = rw (All-ids_at k.id kept h.0) (ap (λ l. k ∷ l) (list_del_at kept h.1))

  pub update_at :
      (kept : List Request) (cb' : Request)
      → cb'.id ≡ cb.id
      → Distinct (ids (kept ++ (cb ∷ rest)))
      → update cb' (kept ++ (cb ∷ rest)) ≡ kept ++ (cb' ∷ rest)
  unfolding update
  update_at [] cb' s h = let e : (cb.id == cb'.id) ≡ true = ground arith in rw e refl
  update_at (k ∷ kept) cb' s h =
      let e : (k.id == cb'.id) ≡ false = rw s (All-ids_at k.id kept h.0) in
      rw e (ap (λ l. k ∷ l) (update_at kept cb' s h.1))

  pub ids_at :
      (kept : List Request) (cb' : Request)
      → cb'.id ≡ cb.id
      → ids (kept ++ (cb' ∷ rest)) ≡ ids (kept ++ (cb ∷ rest))
  ids_at [] cb' s = ap (λ i. i ∷ ids rest) s
  ids_at (k ∷ kept) cb' s = ap (λ l. k.id ∷ l) (ids_at kept cb' s)

  pub All_at {κ} : (P : Request → Type κ) (kept : List Request) → All P (kept ++ (cb ∷ rest)) → P cb
  All_at P [] h = h.0
  All_at P (k ∷ kept) h = All_at P kept h.1

  pub All-put {κ} :
      (P : Request → Type κ) (kept : List Request) (cb' : Request)
      → P cb'
      → All P (kept ++ (cb ∷ rest))
      → All P (kept ++ (cb' ∷ rest))
  All-put P [] cb' p h = (p, h.1)
  All-put P (k ∷ kept) cb' p h = (h.0, All-put P kept cb' p h.1)
