-- ===== src/Intr/Errors.antt =====
-- The error interrupt: `err_stat_handler`, `error_intr_handler`, `qdma_err_intr_setup` and
-- `qdma_enable_hw_err` (libqdma/qdma_intr.c). What is logged is kept as the entry of `err_stat_info`
-- and the name's place in that entry's table.
pub mod Quiet
pub mod Named
use Prim.Native.Nat.{bit_and}
use qdmav.Prelude.{
  ℕ, zero, suc, ◌+◌, ◌*◌, ◌/◌, ◌%◌, ◌^◌, Bool, true, false, not, ◌&&◌, List, [], ◌∷◌, ◌++◌, ◌==◌,
  if◌then◌else◌, bit, map, u32_mod,
}
use qdmav.Hw.{Hw}
use qdmav.Context.Words.{◌<|◌}
use qdmav.Intr.Vectors.{Vectors, intr_error, get_intr_vec_index}

-- `struct qdma_err_stat_info`; `stat` is how many names its table has.
pub record ErrStatInfo : Type 0 where
  pub stat_reg_addr : ℕ
  pub intr_mask : ℕ
  pub stat : ℕ

-- QDMA_REG_GLBL_ERR_STAT
abbrev pub glbl_err_stat : ℕ
glbl_err_stat = 0x248

-- QDMA_C2H_ERR_INT
abbrev pub c2h_err_int : ℕ
c2h_err_int = 0xb04

-- The array has HW_ERRS entries, one more than are written out.
abbrev pub err_stat_info : List ErrStatInfo
err_stat_info =
    record { stat_reg_addr = 0x248; intr_mask = 0xfff; stat = 12 }
    ∷ record { stat_reg_addr = 0x254; intr_mask = 0x1f9023f; stat = 14 }
    ∷ record { stat_reg_addr = 0x264; intr_mask = 0xf; stat = 4 }
    ∷ record { stat_reg_addr = 0xaf0; intr_mask = 0x3edb; stat = 11 }
    ∷ record { stat_reg_addr = 0xaf8; intr_mask = 0x7ff1b; stat = 16 }
    ∷ record { stat_reg_addr = 0xe00; intr_mask = 7; stat = 3 }
    ∷ record { stat_reg_addr = 0; intr_mask = 0; stat = 0 }
    ∷ []

-- `for (j = 0; intr_mask; j++)`, for as many bits as a mask has: the places that are logged.
unfoldable pub detected : ℕ → ℕ → ℕ → ℕ → ℕ → List ℕ
detected zero j place mask err_stat = []
detected (suc n) j place mask err_stat =
    let low = mask % 2 == 1 in
    let rest =
      detected n (j + 1) (if low then (place + 1) % 2 ^ 8 else place) (mask / 2) err_stat in
    if mask == 0 then [] else (if low && (err_stat / 2 ^ j % 2 == 1) then place ∷ rest else rest)

-- The register and the value of `switch (hw_err_type)`.
unfoldable pub err_mask_of : ℕ → ℕ × ℕ
err_mask_of t =
    if t == 2
    then (0x258, 0x1f9023f)
    else (if t == 3
        then (0x268, 0xf)
        else (if t == 4
            then (0xaf4, 0x3edb)
            else (if t == 5
                then (0xafc, 0x7ff1b)
                else (if t == 6 then (0xe04, 7) else (0x24c, 0xfff)))))

-- `func_id` is joined with the vector's index, the coalescing flag and the arming bit.
unfoldable pub err_int_word : Bool → Vectors → ℕ
err_int_word intr_coal_en x =
    x.func_id % 2 ^ 8
    <| (get_intr_vec_index intr_error x % 2 ^ 8, 8)
    <| (bit intr_coal_en, 16)
    <| (1, 17)

unfoldable pub logged : ℕ → ErrStatInfo → ℕ → List (ℕ × ℕ)
logged i info v =
    if bit_and v info.intr_mask == 0
    then []
    else map (λ (place : ℕ). (i, place)) (detected 32 0 0 info.intr_mask v)

module _ {ℓ} {S : Type ℓ} (hw : Hw S) where
  -- The register that was read is written back when an error that the mask has is set.
  unfoldable pub acknowledge : ErrStatInfo → ℕ × S → S
  acknowledge info (v, s) =
      if bit_and v info.intr_mask == 0 then s else hw.write_reg info.stat_reg_addr v s

  -- The loop from the entry `i` on; the first register's value is kept as `glb`.
  unfoldable pub stat_from : ℕ → List ErrStatInfo → ℕ → S → ℕ × List (ℕ × ℕ) × S
  stat_from i [] glb s = (glb, [], s)
  stat_from i (info ∷ l) glb s =
      let r = hw.read_reg info.stat_reg_addr s in
      let (g, log, s1) = stat_from (i + 1) l (if i == 0 then r.0 else glb) (acknowledge info r) in
      (g, logged i info r.0 ++ log, s1)

  unfoldable pub qdma_enable_hw_err : ℕ → S → S
  qdma_enable_hw_err hw_err_type s = let (reg, v) = err_mask_of hw_err_type in hw.write_reg reg v s

  -- `for (i = 0; i < HW_ERRS; i++)`
  unfoldable pub enable_from : ℕ → ℕ → S → S
  enable_from zero i s = s
  enable_from (suc n) i s = enable_from n (i + 1) (qdma_enable_hw_err i s)

  unfoldable pub qdma_err_intr_setup : Bool → Vectors → Bool → S → S
  qdma_err_intr_setup intr_coal_en x rearm s =
      let s1 = hw.write_reg c2h_err_int (err_int_word intr_coal_en x) s in
      if rearm then s1 else enable_from 7 0 s1

  unfoldable pub err_stat_handler : Bool → Vectors → S → List (ℕ × ℕ) × S
  err_stat_handler intr_coal_en x s =
      let (glb, log, s1) = stat_from 0 err_stat_info 0 s in
      let s2 = qdma_err_intr_setup intr_coal_en x true (hw.write_reg glbl_err_stat glb s1) in
      (log, if glb == 0 then s1 else s2)
