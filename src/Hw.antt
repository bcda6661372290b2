-- ===== src/Hw.antt =====
-- The device's registers (libqdma/qdma_regs.h, libqdma/qdma_regs.c, the physical function's build).
-- The device itself is a parameter: a state, and what reading and writing a register do to it.
-- Delays are left out; the locks make each function here one step.
pub mod Poll
pub mod Indirect
use Prim.Native.Nat.{bit_and}
use qdmav.Prelude.{
  ℕ, zero, suc, ◌+◌, ◌-◌, ◌*◌, ◌/◌, ◌%◌, ◌^◌, Bool, true, false, not, ◌||◌, List, [], ◌∷◌, ◌++◌,
  Option, none, some, u32_mod, ltb, ◌==◌, take, replicate, if◌then◌else◌, length,
}
use qdmav.Prelude.Errors.{Error, einval, ebusy, Result, ok, err}
use qdmav.Prelude.Io.{Io, return, fail, ◌>>=◌, ◌>>◌}

pub record Hw {ℓ} (S : Type ℓ) : Type ℓ where
  pub read_reg : ℕ → S → ℕ × S
  pub write_reg : ℕ → ℕ → S → S

-- `enum ind_ctxt_cmd_op`, in the order of the command's codes
pub data Op : Type 0 where
  clr wr rd inv : Op

-- `enum ind_ctxt_cmd_sel`
pub data Sel : Type 0 where
  sw_c2h sw_h2c hw_c2h hw_h2c cr_c2h cr_h2c wrb pftch coal : Sel
  pasid_ram_low pasid_ram_high timer qid2vec : Sel

unfoldable pub op_code : Op → ℕ
op_code clr = 0
op_code wr = 1
op_code rd = 2
op_code inv = 3

unfoldable pub sel_code : Sel → ℕ
sel_code sw_c2h = 0
sel_code sw_h2c = 1
sel_code hw_c2h = 2
sel_code hw_h2c = 3
sel_code cr_c2h = 4
sel_code cr_h2c = 5
sel_code wrb = 6
sel_code pftch = 7
sel_code coal = 8
sel_code pasid_ram_low = 9
sel_code pasid_ram_high = 10
sel_code timer = 11
sel_code qid2vec = 12

-- The command register's word.
unfoldable pub ctxt_cmd : ℕ → Op → Sel → ℕ
ctxt_cmd qid op sel = (qid * 2 ^ 7 + op_code op * 2 ^ 5 + sel_code sel * 2) % u32_mod

abbrev pub ctxt_data_base : ℕ
ctxt_data_base = 0x804

abbrev pub ctxt_mask_base : ℕ
ctxt_mask_base = 0x814

abbrev pub ctxt_cmd_reg : ℕ
ctxt_cmd_reg = 0x824

abbrev pub ctxt_reg_count : ℕ
ctxt_reg_count = 4

-- `memcmp`
unfoldable pub same_words : List ℕ → List ℕ → Bool
same_words [] [] = true
same_words [] (b ∷ ys) = false
same_words (a ∷ xs) [] = false
same_words (a ∷ xs) (b ∷ ys) = if a == b then same_words xs ys else false

module _ {ℓ} {S : Type ℓ} (hw : Hw S) where
  -- The loops over consecutive registers.
  unfoldable pub read_regs : ℕ → ℕ → S → List ℕ × S
  read_regs reg zero s = ([], s)
  read_regs reg (suc n) s =
      let (v, s1) = hw.read_reg reg s in let (vs, s2) = read_regs (reg + 4) n s1 in (v ∷ vs, s2)

  unfoldable pub write_regs : ℕ → List ℕ → S → S
  write_regs reg [] s = s
  write_regs reg (v ∷ vs) s = write_regs (reg + 4) vs (hw.write_reg reg v s)

  -- The reads of `hw_monitor_reg`: as many as the loop makes, and the one after it.
  unfoldable pub poll : ℕ → ℕ → ℕ → ℕ → Io S ℕ
  poll zero reg mask val s =
      let (v, s1) = hw.read_reg reg s in
      if bit_and v mask == val then (ok 1, s1) else (err ebusy, s1)
  poll (suc n) reg mask val s =
      let (v, s1) = hw.read_reg reg s in
      elim (bit_and v mask == val) [ true ↦ (ok 1, s1) | false ↦ poll n reg mask val s1 ]

  -- `--count` of a count of zero wraps.
  unfoldable pub hw_monitor_reg : ℕ → ℕ → ℕ → ℕ → ℕ → Io S ℕ
  hw_monitor_reg reg mask val interval_us timeout_us =
      let interval = if interval_us == 0 then 100 else interval_us in
      let timeout = if timeout_us == 0 then 500000 else timeout_us in
      let count = timeout / interval in poll (if count == 0 then u32_mod else count) reg mask val

  unfoldable pub command : ℕ → Op → Sel → Io S ℕ
  command qid op sel s =
      hw_monitor_reg ctxt_cmd_reg 1 0 100 500000 (hw.write_reg ctxt_cmd_reg (ctxt_cmd qid op sel) s)

  unfoldable pub read_data : ℕ → Io S (List ℕ)
  read_data cnt s = let (vs, s1) = read_regs ctxt_data_base cnt s in (ok vs, s1)

  unfoldable pub compare_words : List ℕ → List ℕ → Io S (List ℕ)
  compare_words words got = if same_words words got then return [] else fail ebusy

  unfoldable pub read_back : ℕ → Sel → List ℕ → ℕ → Io S (List ℕ)
  read_back qid sel words cnt = do
    command qid rd sel
    got ← read_data cnt
    compare_words (take cnt words) got

  unfoldable pub write_masks : Io S ℕ
  write_masks s = (ok 0, write_regs ctxt_mask_base (replicate ctxt_reg_count 0xffffffff) s)

  unfoldable pub write_data : List ℕ → ℕ → Io S ℕ
  write_data words cnt s =
      (ok 0, write_regs ctxt_data_base (take cnt words ++ replicate (ctxt_reg_count - cnt) 0) s)

  -- `words` is `data`: none for a null pointer; the result of a read is the words that it stores there, of any
  -- other command nothing. A pointer is never null with `verify`.
  unfoldable pub hw_indirect_ctext_prog : ℕ → Op → Sel → Option (List ℕ) → ℕ → Bool → Io S (List ℕ)
  hw_indirect_ctext_prog qid wr sel none cnt verify = fail einval
  hw_indirect_ctext_prog qid wr sel (some words) cnt verify =
      if cnt == 0 || ltb ctxt_reg_count cnt then fail einval else do
        write_masks
        write_data words cnt
        command qid wr sel
        if verify then read_back qid sel words cnt else return []
  hw_indirect_ctext_prog qid rd sel none cnt verify = fail einval
  hw_indirect_ctext_prog qid rd sel (some words) cnt verify =
      if cnt == 0 || ltb ctxt_reg_count cnt
      then fail einval
      else do write_masks; command qid rd sel; read_data cnt
  hw_indirect_ctext_prog qid clr sel none cnt verify = do command qid clr sel; return []
  hw_indirect_ctext_prog qid clr sel (some words) cnt verify = do
    command qid clr sel
    if verify then read_back qid sel words cnt else return []
  hw_indirect_ctext_prog qid inv sel none cnt verify = do command qid inv sel; return []
  hw_indirect_ctext_prog qid inv sel (some words) cnt verify = do
    command qid inv sel
    if verify then read_back qid sel words cnt else return []
