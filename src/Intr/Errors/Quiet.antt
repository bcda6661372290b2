-- ===== src/Intr/Errors/Quiet.antt =====
-- What the error interrupt leaves in the status registers.
use Prim.Native.Nat.{bit_and, bit_and-bitwise, digits}
use qdmav.Prelude.{
  ℕ, zero, suc, ◌+◌, ◌/◌, ◌%◌, min, ◌≡◌, ◌<◌, ◌≢◌, ◌⊎◌, inl, inr, refl, ap, ◌∙◌, arith, Bool, false,
  List, [], ◌∷◌, ◌==◌, if◌then◌else◌, All, Bool-cases,
}
use qdmav.Hw.{Hw}
use qdmav.Intr.Vectors.{Vectors}
use qdmav.Intr.Errors.{
  ErrStatInfo, glbl_err_stat, c2h_err_int, acknowledge, err_stat_info, stat_from, err_int_word,
  qdma_err_intr_setup, err_stat_handler,
}

-- Registers that keep what is written, but for those in which a one that is written clears its bit:
-- writing back what such a register holds empties it, and nothing that is written fills it.
pub record IsStatus {ℓ} {S : Type ℓ} (hw : Hw S) (get : ℕ → S → ℕ) (IsStat : ℕ → Type 0)
    : Type ℓ where
  pub reads : (reg : ℕ) (s : S) → hw.read_reg reg s ≡ (get reg s, s)
  pub clears : (reg : ℕ) (s : S) → IsStat reg → get reg (hw.write_reg reg (get reg s) s) ≡ 0
  pub stays : (reg v : ℕ) (s : S) → IsStat reg → get reg s ≡ 0 → get reg (hw.write_reg reg v s) ≡ 0
  pub apart : (reg other v : ℕ) (s : S) → reg ≢ other → get reg (hw.write_reg other v s) ≡ get reg s
  pub other : ¬ IsStat c2h_err_int
  pub keeps : (v : ℕ) (s : S) → get c2h_err_int (hw.write_reg c2h_err_int v s) ≡ v

-- No digit is in both numbers where one of them is zero.
digits-zero : (n a : ℕ) → digits (λ b. 0) min n a 0 ≡ 0
digits-zero zero a = refl
digits-zero (suc n) zero = refl
digits-zero (suc n) (suc a) =
    let ih = digits-zero n (suc a / 2) in
    let low : min (suc a % 2) 0 ≡ 0 = omega arith in rw (ih, low) refl

bit_and-zero : (v : ℕ) → bit_and v 0 ≡ 0
bit_and-zero v = bit_and-bitwise v 0 ∙ digits-zero v v

module _ {ℓ} {S : Type ℓ} (hw : Hw S) (get : ℕ → S → ℕ) (IsStat : ℕ → Type 0)
    (status : IsStatus hw get IsStat) where
  abbrev Lowered : ℕ → S → S → Type 0
  Lowered reg s t = (get reg t ≡ get reg s) ⊎ (get reg t ≡ 0)

  Lowered-trans : (reg : ℕ) {s t u : S} → Lowered reg s t → Lowered reg t u → Lowered reg s u
  Lowered-trans reg (inl a) (inl b) = inl (b ∙ a)
  Lowered-trans reg (inr a) (inl b) = inr (b ∙ a)
  Lowered-trans reg a (inr b) = inr b

  -- Writing back what a register holds lowers it, and leaves the others.
  write_back-Lowered :
      (reg other : ℕ) (s : S) → IsStat other → Lowered reg s (hw.write_reg other (get other s) s)
  write_back-Lowered reg other s h = elim (Bool-cases (reg == other)) [
    | inl e ↦ let same : reg ≡ other = ground arith in rw same (inr (status.clears other s h))
    | inr e ↦ inl (status.apart reg other (get other s) s (ground arith))
  ]

  abbrev pub IsQuiet : S → ErrStatInfo → Type 0
  IsQuiet s info = bit_and (get info.stat_reg_addr s) info.intr_mask ≡ 0

  Lowered-IsQuiet :
      (info : ErrStatInfo) {s t : S}
      → Lowered info.stat_reg_addr s t
      → IsQuiet s info
      → IsQuiet t info
  Lowered-IsQuiet info (inl e) q = rw e q
  Lowered-IsQuiet info (inr z) q = rw z (bit_and-bitwise 0 info.intr_mask)

  -- An entry of the table whose register empties by what is written back, or that names no error:
  -- the table ends with one of these.
  abbrev pub Stat : ErrStatInfo → Type 0
  Stat info = (info.intr_mask ≡ 0) ⊎ IsStat info.stat_reg_addr

  acknowledge-Lowered :
      (info : ErrStatInfo) (reg : ℕ) (s : S)
      → Stat info
      → Lowered reg s (acknowledge hw info (get info.stat_reg_addr s, s))
  unfolding acknowledge
  acknowledge-Lowered info reg s (inl z) =
      let no : bit_and (get info.stat_reg_addr s) info.intr_mask ≡ 0 = rw z (bit_and-zero _) in
      rw no (inl refl)
  acknowledge-Lowered info reg s (inr h) =
      elim (Bool-cases (bit_and (get info.stat_reg_addr s) info.intr_mask == 0)) [
        | inl e ↦ rw e (inl refl)
        | inr e ↦ rw e (write_back-Lowered reg info.stat_reg_addr s h)
      ]

  acknowledge-IsQuiet :
      (info : ErrStatInfo) (s : S)
      → Stat info
      → IsQuiet (acknowledge hw info (get info.stat_reg_addr s, s)) info
  unfolding acknowledge
  acknowledge-IsQuiet info s (inl z) = rw z (bit_and-zero _)
  acknowledge-IsQuiet info s (inr h) =
      elim (Bool-cases (bit_and (get info.stat_reg_addr s) info.intr_mask == 0)) [
        | inl e ↦ rw e (ground arith)
        | inr e ↦ rw (e, status.clears info.stat_reg_addr s h) (bit_and-bitwise 0 info.intr_mask)
      ]

  IsQuiet-All :
      (l : List ErrStatInfo) (s t : S)
      → ((info : ErrStatInfo) → Stat info → IsQuiet s info → IsQuiet t info)
      → All Stat l
      → All (IsQuiet s) l
      → All (IsQuiet t) l
  IsQuiet-All [] s t f h q = tt
  IsQuiet-All (info ∷ l) s t f (h, hs) (q, qs) = (f info h q, IsQuiet-All l s t f hs qs)

  -- The loop's first round.
  stat_from-step :
      (i : ℕ) (info : ErrStatInfo) (l : List ErrStatInfo) (glb : ℕ) (s : S)
      → let v = get info.stat_reg_addr s in
        let r = stat_from hw (i + 1) l (if i == 0 then v else glb) (acknowledge hw info (v, s)) in
        ((stat_from hw i (info ∷ l) glb s).0 ≡ r.0) × ((stat_from hw i (info ∷ l) glb s).2 ≡ r.2)
  unfolding stat_from
  stat_from-step i info l glb s = rw (status.reads info.stat_reg_addr s) (refl, refl)

  stat_from-Lowered :
      (i : ℕ) (l : List ErrStatInfo) (glb reg : ℕ) (s : S)
      → All Stat l
      → Lowered reg s (stat_from hw i l glb s).2
  unfolding stat_from
  stat_from-Lowered i [] glb reg s h = inl refl
  stat_from-Lowered i (info ∷ l) glb reg s (h, hs) =
      let v = get info.stat_reg_addr s in
      rw ((stat_from-step i info l glb s).1) (
        Lowered-trans reg (acknowledge-Lowered info reg s h) (
          stat_from-Lowered (i + 1) l (if i == 0 then v else glb) reg (acknowledge hw info (v, s))
            hs))

  stat_from-IsQuiet :
      (i : ℕ) (l : List ErrStatInfo) (glb : ℕ) (s : S)
      → All Stat l
      → All (IsQuiet (stat_from hw i l glb s).2) l
  stat_from-IsQuiet i [] glb s h = tt
  stat_from-IsQuiet i (info ∷ l) glb s (h, hs) =
      let v = get info.stat_reg_addr s in
      let glb1 : ℕ = if i == 0 then v else glb in
      let t = acknowledge hw info (v, s) in
      let e = (stat_from-step i info l glb s).1 in
      IsQuiet-All (info ∷ l) _ _
        (λ (one : ErrStatInfo) at. Lowered-IsQuiet one (inl (ap (get one.stat_reg_addr) e))) (h, hs)
        (
          Lowered-IsQuiet info (stat_from-Lowered (i + 1) l glb1 info.stat_reg_addr t hs)
              (acknowledge-IsQuiet info s h),
          stat_from-IsQuiet (i + 1) l glb1 t hs,
        )

  -- After the first round `glb` stays.
  stat_from-glb :
      (i : ℕ) (l : List ErrStatInfo) (glb : ℕ) (s : S) → 0 < i → (stat_from hw i l glb s).0 ≡ glb
  unfolding stat_from
  stat_from-glb i [] glb s h = refl
  stat_from-glb i (info ∷ l) glb s h =
      let later : (i == 0) ≡ false = ground arith in
      rw ((stat_from-step i info l glb s).0, later) (stat_from-glb (i + 1) l glb _ (omega arith))

  other_reg : (reg : ℕ) → IsStat reg → reg ≢ c2h_err_int
  other_reg reg h e = status.other (rw e at h)

  -- Writing the global register's value again, and arming the interrupt.
  rearm-Lowered :
      (reg v w : ℕ) (s t : S)
      → IsStat glbl_err_stat
      → IsStat reg
      → Lowered glbl_err_stat s t
      → get glbl_err_stat s ≡ v
      → Lowered reg t (hw.write_reg c2h_err_int w (hw.write_reg glbl_err_stat v t))
        × (get glbl_err_stat (hw.write_reg c2h_err_int w (hw.write_reg glbl_err_stat v t)) ≡ 0)
  rearm-Lowered reg v w s t g h low e =
      let t1 = hw.write_reg glbl_err_stat v t in
      let empty : get glbl_err_stat t1 ≡ 0 = elim low [
        | inl same ↦
            let held : get glbl_err_stat t ≡ v = cc in rw held at (status.clears glbl_err_stat t g)
        | inr z ↦ status.stays glbl_err_stat v t g z
      ] in
      let keep = λ (r : ℕ) (k : IsStat r). status.apart r c2h_err_int w t1 (other_reg r k) in
      let one : Lowered reg t t1 = elim (Bool-cases (reg == glbl_err_stat)) [
        | inl b ↦ let same : reg ≡ glbl_err_stat = ground arith in inr (rw same empty)
        | inr b ↦ inl (status.apart reg glbl_err_stat v t (ground arith))
      ] in
      (Lowered-trans reg one (inl (keep reg h)), keep glbl_err_stat g ∙ empty)

  rearm-IsQuiet :
      (v w : ℕ) (s t : S)
      → IsStat glbl_err_stat
      → Lowered glbl_err_stat s t
      → get glbl_err_stat s ≡ v
      → (info : ErrStatInfo) → Stat info
      → IsQuiet t info
      → IsQuiet (hw.write_reg c2h_err_int w (hw.write_reg glbl_err_stat v t)) info
  rearm-IsQuiet v w s t g low e info (inl z) q = rw z (bit_and-zero _)
  rearm-IsQuiet v w s t g low e info (inr k) q =
      Lowered-IsQuiet info (rearm-Lowered info.stat_reg_addr v w s t g k low e).0 q

  global : {mask reg : ℕ} → (suc mask ≡ 0) ⊎ IsStat reg → IsStat reg
  global (inl z) = absurd (omega (arith, z))
  global (inr h) = h

  -- Where every status register with an error to look for empties by what is written back: after the
  -- error interrupt no error that the masks have is set in any of them. Where the global register held any, it is empty too
  -- and the error interrupt is armed again.
  pub err_stat_handler-IsQuiet :
      (intr_coal_en : Bool) (x : Vectors) (s : S)
      → All Stat err_stat_info
      → let s' = (err_stat_handler hw intr_coal_en x s).1 in
        All (IsQuiet s') err_stat_info
        × ((get glbl_err_stat s ≡ 0)
            ⊎ ((get glbl_err_stat s' ≡ 0) × (get c2h_err_int s' ≡ err_int_word intr_coal_en x)))
  unfolding err_stat_handler qdma_err_intr_setup
  err_stat_handler-IsQuiet intr_coal_en x s h =
      let r = stat_from hw 0 err_stat_info 0 s in
      let v = get glbl_err_stat s in
      let w = err_int_word intr_coal_en x in
      let glb : r.0 ≡ v = (stat_from-step 0 _ _ 0 s).0 ∙ stat_from-glb 1 _ v _ (omega arith) in
      let quiet = stat_from-IsQuiet 0 err_stat_info 0 s h in
      let low = stat_from-Lowered 0 err_stat_info 0 glbl_err_stat s h in
      elim (Bool-cases (v == 0)) [
        | inl e ↦ rw (glb, e) (quiet, inl (ground arith))
        | inr e ↦
            let after = hw.write_reg c2h_err_int w (hw.write_reg glbl_err_stat v r.2) in
            rw (glb, e)
              (
                IsQuiet-All err_stat_info r.2 after (rearm-IsQuiet v w s r.2 (global h.0) low refl)
                    h quiet,
                inr (
                  (rearm-Lowered glbl_err_stat v w s r.2 (global h.0) (global h.0) low refl).1,
                  status.keeps w _,
                ),
              )
      ]
