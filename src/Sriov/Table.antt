-- ===== src/Sriov/Table.antt =====
-- The slots of the virtual functions.
use qdmav.Prelude.{
  ℕ, suc, ◌+◌, ◌≡◌, ◌≢◌, ◌⊎◌, inl, inr, refl, arith, List, [], ◌∷◌, Option, none, some, ◌==◌,
  if◌then◌else◌, Bool-cases,
}
use qdmav.Prelude.Errors.{Error, einval, ok, err}
use qdmav.Sriov.{
  VfInfo, func_id_invalid, vacate, xdev_sriov_vf_offline, xdev_sriov_vf_online, xdev_sriov_vf_fmap,
}

-- How many slots a function has.
unfoldable pub slots : ℕ → List VfInfo → ℕ
slots func_id [] = 0
slots func_id (vf ∷ vfs) =
    let rest = slots func_id vfs in if vf.func_id == func_id then suc rest else rest

-- Going online takes one free slot, and no function but this one gains or loses one; it fails only
-- where no slot is free.
pub vf_online_slots :
    (func_id : ℕ) (vfs : List VfInfo)
    → func_id ≢ func_id_invalid
    → ((t : List VfInfo) × (xdev_sriov_vf_online func_id vfs ≡ ok t)
        × (slots func_id t ≡ suc (slots func_id vfs))
        × (suc (slots func_id_invalid t) ≡ slots func_id_invalid vfs)
        × ((g : ℕ) → g ≢ func_id → g ≢ func_id_invalid → slots g t ≡ slots g vfs))
      ⊎ ((slots func_id_invalid vfs ≡ 0)
          × ((e : Error) × (xdev_sriov_vf_online func_id vfs ≡ err e)))
unfolding xdev_sriov_vf_online slots
vf_online_slots func_id [] h = inr (refl, (einval, refl))
vf_online_slots func_id (vf ∷ vfs) h = elim (Bool-cases (vf.func_id == func_id_invalid)) [
  | inl free ↦ inl (
    record vf { func_id = func_id } ∷ vfs,
    ground arith,
    ground arith,
    ground arith,
    λ g a b. ground arith,
  )
  | inr taken ↦ elim (vf_online_slots func_id vfs h) [
    | inl (t, e, a, b, c) ↦
        inl (vf ∷ t, ground arith, ground arith, ground arith, λ g x y. rw (c g x y) refl)
    | inr (z, (er, e)) ↦ inr (ground arith, (er, ground arith))
  ]
]

-- Going offline frees every slot of the function and touches no other function's.
pub vf_offline_slots :
    (func_id : ℕ) (vfs : List VfInfo)
    → func_id ≢ func_id_invalid
    → let t = xdev_sriov_vf_offline func_id vfs in
      (slots func_id t ≡ 0)
      × (slots func_id_invalid t ≡ slots func_id_invalid vfs + slots func_id vfs)
      × ((g : ℕ) → g ≢ func_id → g ≢ func_id_invalid → slots g t ≡ slots g vfs)
unfolding xdev_sriov_vf_offline vacate slots
vf_offline_slots func_id [] h = (refl, refl, λ g a b. refl)
vf_offline_slots func_id (vf ∷ vfs) h =
    let (z, n, o) = vf_offline_slots func_id vfs h in
    elim (Bool-cases (vf.func_id == func_id)) [
      | inl same ↦ (ground arith, ground arith, λ g a b. rw (o g a b) (ground arith))
      | inr other ↦ (ground arith, ground arith, λ g a b. rw (o g a b) (ground arith))
    ]

-- What a function's first slot holds.
unfoldable pub vf_lookup : ℕ → List VfInfo → Option (ℕ × ℕ)
vf_lookup func_id [] = none
vf_lookup func_id (vf ∷ vfs) =
    let rest = vf_lookup func_id vfs in
    if vf.func_id == func_id then some (vf.qbase, vf.qmax) else rest

-- A function with a slot is given the queues it asks for, and no function's slots change; one
-- without a slot is refused.
pub vf_fmap_lookup :
    (func_id qbase qmax : ℕ) (vfs : List VfInfo)
    → ((t : List VfInfo) × (xdev_sriov_vf_fmap func_id qbase qmax vfs ≡ ok t)
        × (vf_lookup func_id t ≡ some (qbase, qmax))
        × ((g : ℕ) → slots g t ≡ slots g vfs)
        × ((g : ℕ) → g ≢ func_id → vf_lookup g t ≡ vf_lookup g vfs))
      ⊎ ((slots func_id vfs ≡ 0) × (xdev_sriov_vf_fmap func_id qbase qmax vfs ≡ err einval))
unfolding xdev_sriov_vf_fmap slots vf_lookup
vf_fmap_lookup func_id qbase qmax [] = inr (refl, refl)
vf_fmap_lookup func_id qbase qmax (vf ∷ vfs) = elim (Bool-cases (vf.func_id == func_id)) [
  | inl same ↦ inl (
    record vf { qbase = qbase; qmax = qmax } ∷ vfs,
    ground arith,
    ground arith,
    (λ g. refl),
    λ g a. ground arith,
  )
  | inr other ↦ elim (vf_fmap_lookup func_id qbase qmax vfs) [
    | inl (t, e, a, b, c) ↦
        inl (vf ∷ t, ground arith, ground arith, (λ g. rw (b g) refl), λ g x. rw (c g x) refl)
    | inr (z, e) ↦ inr (ground arith, ground arith)
  ]
]
