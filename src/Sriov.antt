-- ===== src/Sriov.antt =====
-- The table of virtual functions: `struct qdma_vf_info` and libqdma/qdma_sriov.c, with the requests
-- of libqdma/qdma_mbox.c that change it. The PCI core's answers are arguments: the number of VFs that
-- are enabled, whether memory was given, and the result of enabling them.
pub mod Table
pub mod Session
use qdmav.Prelude.{
  ℕ, zero, suc, ◌+◌, ◌-◌, ◌*◌, ◌%◌, ◌^◌, Bool, true, false, List, [], ◌∷◌, ◌++◌, Option, none, some,
  ◌==◌, if◌then◌else◌, map,
}
use qdmav.Prelude.Errors.{Error, einval, enomem, Result, ok, err}
use qdmav.Descq.Events.{Event, set_fmap}

pub record VfInfo : Type 0 where
  pub func_id : ℕ
  pub qbase : ℕ
  pub qmax : ℕ

-- QDMA_FUNC_ID_INVALID, which no function has: their numbers are eight bits wide.
abbrev pub func_id_invalid : ℕ
func_id_invalid = 256

abbrev pub pf_max : ℕ
pf_max = 4

abbrev pub q_per_vf_max : ℕ
q_per_vf_max = 8

unfoldable pub vacate : ℕ → VfInfo → VfInfo
vacate func_id vf =
    if vf.func_id == func_id then record { func_id = func_id_invalid; qbase = 0; qmax = 0 } else vf

unfoldable pub xdev_sriov_vf_offline : ℕ → List VfInfo → List VfInfo
xdev_sriov_vf_offline func_id vfs = map (vacate func_id) vfs

-- The loops stop at the first entry that fits; the error leaves the table.
unfoldable pub xdev_sriov_vf_online : ℕ → List VfInfo → Result (List VfInfo)
xdev_sriov_vf_online func_id [] = err einval
xdev_sriov_vf_online func_id (vf ∷ vfs) =
    let rest = xdev_sriov_vf_online func_id vfs in
    if vf.func_id == func_id_invalid
    then ok (record vf { func_id = func_id } ∷ vfs)
    else elim rest [ ok t ↦ ok (vf ∷ t) | err e ↦ err e ]

unfoldable pub xdev_sriov_vf_fmap : ℕ → ℕ → ℕ → List VfInfo → Result (List VfInfo)
xdev_sriov_vf_fmap func_id qbase qmax [] = err einval
xdev_sriov_vf_fmap func_id qbase qmax (vf ∷ vfs) =
    let rest = xdev_sriov_vf_fmap func_id qbase qmax vfs in
    if vf.func_id == func_id
    then ok (record vf { qbase = qbase; qmax = qmax } ∷ vfs)
    else elim rest [ ok t ↦ ok (vf ∷ t) | err e ↦ err e ]

-- The device's part of the state; `vf_info` has `vf_count` entries, and none without memory.
pub record Sriov : Type 0 where
  pub vf_info : List VfInfo
  pub vf_count : ℕ
  pub timer : Bool
  pub events : List Event

unfoldable pub xdev_sriov_disable : Sriov → Sriov
xdev_sriov_disable s = record s { vf_info = []; vf_count = 0; timer = false }

unfoldable pub mark_free : VfInfo → VfInfo
mark_free vf = record vf { func_id = func_id_invalid }

unfoldable pub enable_table : Bool → ℕ → List VfInfo → Sriov → Result ℕ × Sriov
enable_table enabled num_vfs mem s =
    let s1 = record s { vf_info = map mark_free mem; vf_count = num_vfs } in
    if enabled then (ok num_vfs, record s1 { timer = true }) else (ok 0, xdev_sriov_disable s1)

-- `mem` is what the allocated memory happens to hold, for `num_vfs` entries. A failure of
-- `pci_enable_sriov` is reported as no VFs, and as success.
unfoldable pub xdev_sriov_enable : ℕ → Option (List VfInfo) → Bool → ℕ → Sriov → Result ℕ × Sriov
xdev_sriov_enable current_vfs mem enabled num_vfs s =
    if current_vfs == 0
    then elim mem [ none ↦ (err enomem, s) | some vfs ↦ enable_table enabled num_vfs vfs s ]
    else (ok current_vfs, s)

unfoldable pub qdma_device_sriov_config :
    ℕ → Option (List VfInfo) → Bool → ℕ → Sriov → Result ℕ × Sriov
qdma_device_sriov_config current_vfs mem enabled num_vfs s =
    let (rv, s1) = xdev_sriov_enable current_vfs mem enabled num_vfs s in
    if num_vfs == 0
    then (ok 0, xdev_sriov_disable s)
    else elim rv [ err e ↦ (err e, s1) | ok _ ↦ (ok s1.vf_count, s1) ]

unfoldable pub replace_table : Result (List VfInfo) → Sriov → Sriov
replace_table (ok t) s = record s { vf_info = t }
replace_table (err e) s = s

-- The requests MBOX_OP_HELLO, MBOX_OP_BYE and MBOX_OP_FMAP: results are not reported.
unfoldable pub hello : ℕ → Sriov → Sriov
hello src s = replace_table (xdev_sriov_vf_online src s.vf_info) s

unfoldable pub bye : ℕ → Sriov → Sriov
bye src s = record s {
  vf_info = xdev_sriov_vf_offline src s.vf_info;
  events = s.events ++ (set_fmap src 0 0 ∷ []);
}

-- The first queue of a VF that leaves the choice to the physical function, in 32 bits.
unfoldable pub default_qbase : ℕ → ℕ → ℕ → ℕ
default_qbase qsets_base qsets_max src =
    (qsets_base + qsets_max + (src + 2 ^ 32 - pf_max) % 2 ^ 32 * q_per_vf_max) % 2 ^ 32

-- The table's fields are `unsigned short`.
unfoldable pub fmap : ℕ → ℕ → ℕ → ℕ → ℕ → Sriov → Sriov
fmap qsets_base qsets_max src qbase qmax s =
    let qbase' = if qbase == 0 then default_qbase qsets_base qsets_max src else qbase in
    replace_table (xdev_sriov_vf_fmap src (qbase' % 2 ^ 16) (qmax % 2 ^ 16) s.vf_info)
      (record s { events = s.events ++ (set_fmap src qbase' qmax ∷ []) })
