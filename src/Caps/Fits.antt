-- ===== src/Caps/Fits.antt =====
-- The queues of all functions fit in the device.
use native.Mathlib.Nat.{mul-le-mul_left, mul-div-le}
use qdmav.Prelude.{
  ℕ, ◌+◌, ◌*◌, ◌/◌, ◌%◌, ◌^◌, ◌≤◌, ◌≡◌, ◌⊎◌, inl, inr, refl, arith, none, some, ltb, ◌==◌,
  Bool-cases,
}
use qdmav.Hw.{Hw}
use qdmav.Sriov.{q_per_vf_max}
use qdmav.Caps.{
  Attributes, glbl_qmax, left_for_pf, qdma_device_num_pfs_get, qdma_device_attributes_get,
}

share : (qmax pfs rest : ℕ) → rest ≤ qmax / pfs → pfs * rest ≤ qmax
share qmax pfs rest h = omega (arith, mul-le-mul_left pfs h, mul-div-le qmax pfs)

fits :
    (qmax pfs total_vfs : ℕ)
    → let own = left_for_pf total_vfs (qmax / pfs % 2 ^ 16) in
      (own ≡ 0) ⊎ (pfs * (own + total_vfs * q_per_vf_max) ≤ qmax)
unfolding left_for_pf
fits qmax pfs total_vfs = elim (Bool-cases (ltb (qmax / pfs % 2 ^ 16) (total_vfs * q_per_vf_max))) [
  | inl few ↦ rw few (inl refl)
  | inr room ↦ rw room (inr (share qmax pfs _ (ground arith)))
]

module _ {ℓ} {S : Type ℓ} (hw : Hw S) where
  -- Without a physical function the attributes cannot be computed. Otherwise what all physical
  -- functions are given, with the queues of as many virtual functions each as the PCI core allows, is no
  -- more than the device has, unless a function is given no queues of its own.
  pub attributes_get_fits :
      (total_vfs : ℕ) (s : S)
      → let (qmax, s1) = hw.read_reg glbl_qmax s in
        let pfs = (qdma_device_num_pfs_get hw s1).0 in
        let r = (qdma_device_attributes_get hw total_vfs s).0 in
        ((pfs ≡ 0) × (r ≡ none))
        ⊎ ((a : Attributes) × (r ≡ some a)
            × (a.pf_count ≡ pfs)
            × ((a.qsets_max ≡ 0) ⊎ (a.pf_count * (a.qsets_max + total_vfs * q_per_vf_max) ≤ qmax)))
  unfolding qdma_device_attributes_get
  attributes_get_fits total_vfs s =
      let (qmax, s1) = hw.read_reg glbl_qmax s in
      let pfs = (qdma_device_num_pfs_get hw s1).0 in
      elim (Bool-cases (pfs == 0)) [
        | inl e ↦ rw e (inl (ground arith, refl))
        | inr e ↦ rw e (inr (_, refl, refl, fits qmax pfs total_vfs))
      ]
