-- ===== src/Mbox/Mail.antt =====
-- Messages that wait at the device: what is done for a request lets none in.
use Prim.Native.Nat.{bit_and}
use qdmav.Prelude.{
  ℕ, zero, suc, ◌+◌, ◌-◌, ◌<◌, ◌≤◌, ◌≢◌, arith, inl, inr, Bool-cases, ltb, take, ◌≡◌, refl, Bool,
  true, false, not, ◌&&◌, ◌||◌, List, [], ◌∷◌, Option, none, some, ◌==◌, if◌then◌else◌, get_or,
}
use qdmav.Prelude.Errors.{Result, ok, err}
use qdmav.Prelude.Io.{Io, resume, ◌>>=◌}
use qdmav.Hw.{
  Hw, Op, Sel, clr, wr, rd, inv, pftch, wrb, qid2vec, read_regs, write_regs, poll, hw_monitor_reg,
  command, ctxt_cmd, ctxt_cmd_reg, compare_words, same_words, read_data, ctxt_data_base,
  ctxt_mask_base, read_back, hw_indirect_ctext_prog, write_masks, write_data, ctxt_reg_count,
}
use qdmav.Mbox.Transport.{fn_status, fn_cmd}
use qdmav.Context.{
  Port, hw_port, sel_sw, sel_hw, sel_cr, no_context, HwDescqContext, qdma_descq_context_clear,
  qdma_descq_context_program, qdma_descq_context_read,
}
use qdmav.Lifecycle.{wb_acc_reg, rng_sz_base, buf_sz_base, timer_cnt_base, cnt_th_base}
use qdmav.Mbox.{
  MboxMsg, PfState, Handled, qid_of, flag_of, handle, handle_fmap, handle_csr, read_csr,
  handle_clear, handle_read, store_context, handle_write, program_cleared,
}

-- Messages wait at the device: while its status shows one, at least one waits, the receive command
-- takes one away, and nothing that is done to a register makes one more.
pub record IsMail {ℓ} {S : Type ℓ} (hw : Hw S) (waiting : S → ℕ) : Type ℓ where
  pub shows : (s : S) → bit_and (hw.read_reg fn_status s).0 1 ≢ 0 → 0 < waiting s
  pub takes : (s : S) → waiting (hw.write_reg fn_cmd 2 s) ≤ waiting s - 1
  pub reads : (reg : ℕ) (s : S) → waiting (hw.read_reg reg s).1 ≤ waiting s
  pub writes : (reg v : ℕ) (s : S) → waiting (hw.write_reg reg v s) ≤ waiting s

module _ {ℓ} {S : Type ℓ} (hw : Hw S) (waiting : S → ℕ) (mail : IsMail hw waiting) where
  abbrev port : Port S
  port = hw_port hw

  abbrev pub Same : S → S → Type 0
  Same s t = waiting t ≤ waiting s

  -- An action after which no more messages wait.
  abbrev Quiet {κ} : {A : Type κ} → Io S A → Type ℓ
  Quiet io = (s : S) → Same s (io s).1

  pub Same-trans : {s t u : S} → Same s t → Same t u → Same s u
  Same-trans {s} {t} {u} a b = omega arith

  resume-Same {κ μ} :
      {A : Type κ} {B : Type μ} (r : Result A × S) (f : A → Io S B) (s : S)
      → Same s r.1
      → ((a : A) → Quiet (f a))
      → Same s (resume r f).1
  resume-Same (ok a, t) f s h k = Same-trans h (k a t)
  resume-Same (err e, t) f s h k = h

  done : (s : S) → Same s s
  done s = omega arith

  pub read_regs-Same : (reg n : ℕ) (s : S) → Same s (read_regs hw reg n s).1
  unfolding read_regs
  read_regs-Same reg zero s = omega arith
  read_regs-Same reg (suc n) s =
      Same-trans (mail.reads reg s) (read_regs-Same (reg + 4) n (hw.read_reg reg s).1)

  pub write_regs-Same : (reg : ℕ) (ws : List ℕ) (s : S) → Same s (write_regs hw reg ws s)
  unfolding write_regs
  write_regs-Same reg [] s = omega arith
  write_regs-Same reg (v ∷ vs) s =
      Same-trans (mail.writes reg v s) (write_regs-Same (reg + 4) vs (hw.write_reg reg v s))

  poll-Same : (n reg mask val : ℕ) → Quiet (poll hw n reg mask val)
  unfolding poll
  poll-Same zero reg mask val s = elim (Bool-cases (bit_and (hw.read_reg reg s).0 mask == val)) [
    | inl e ↦ rw e (mail.reads reg s)
    | inr e ↦ rw e (mail.reads reg s)
  ]
  poll-Same (suc n) reg mask val s = elim (Bool-cases (bit_and (hw.read_reg reg s).0 mask == val)) [
    | inl e ↦ rw (e, poll) (mail.reads reg s)
    | inr e ↦
        rw (e, poll)
          (Same-trans (mail.reads reg s) (poll-Same n reg mask val (hw.read_reg reg s).1))
  ]

  pub monitor-Same :
      (reg mask val interval timeout : ℕ) → Quiet (hw_monitor_reg hw reg mask val interval timeout)
  unfolding hw_monitor_reg
  monitor-Same reg mask val interval timeout s = poll-Same _ reg mask val s

  command-Same : (qid : ℕ) (op : Op) (sel : Sel) → Quiet (command hw qid op sel)
  unfolding command
  command-Same qid op sel s =
      Same-trans (mail.writes ctxt_cmd_reg (ctxt_cmd qid op sel) s)
        (monitor-Same ctxt_cmd_reg 1 0 100 500000 _)

  compare-Same : (ws got : List ℕ) → Quiet (compare_words hw ws got)
  unfolding compare_words
  compare-Same ws got s = elim (Bool-cases (same_words ws got)) [
    | inl e ↦ rw e (omega arith)
    | inr e ↦ rw e (omega arith)
  ]

  read_data-Same : (cnt : ℕ) → Quiet (read_data hw cnt)
  unfolding read_data
  read_data-Same cnt s = read_regs-Same ctxt_data_base cnt s

  read_back-Same :
      (qid : ℕ) (sel : Sel) (ws : List ℕ) (cnt : ℕ) → Quiet (read_back hw qid sel ws cnt)
  unfolding read_back
  read_back-Same qid sel ws cnt s =
      resume-Same (command hw qid rd sel s) _ s (command-Same qid rd sel s) (λ _ t.
        resume-Same (read_data hw cnt t) _ t (read_data-Same cnt t)
          (λ got. compare-Same (take cnt ws) got))

  -- The end of a command that is not a read.
  verified-Same :
      (qid : ℕ) (op : Op) (sel : Sel) (ws : List ℕ) (cnt : ℕ) (v : Bool)
      → Quiet (
          command hw qid op sel >>= λ _.
          if v then read_back hw qid sel ws cnt else (λ s. (ok [], s)))
  verified-Same qid op sel ws cnt true s =
      resume-Same (command hw qid op sel s) _ s (command-Same qid op sel s)
        (λ _. read_back-Same qid sel ws cnt)
  verified-Same qid op sel ws cnt false s =
      resume-Same (command hw qid op sel s) _ s (command-Same qid op sel s) (λ _. done)

  progs :
      (qid : ℕ) (op : Op) (sel : Sel) (ws : Option (List ℕ)) (n : ℕ) (v : Bool)
      → Quiet (hw_indirect_ctext_prog hw qid op sel ws n v)
  unfolding hw_indirect_ctext_prog write_masks write_data
  progs qid wr sel none n v s = omega arith
  progs qid rd sel none n v s = omega arith
  progs qid wr sel (some ws) n v s = elim (Bool-cases (n == 0 || ltb ctxt_reg_count n)) [
    | inl e ↦ rw e (omega arith)
    | inr e ↦ rw e (
        Same-trans
          (Same-trans (write_regs-Same ctxt_mask_base _ s) (write_regs-Same ctxt_data_base _ _))
          (verified-Same qid wr sel ws n v _))
  ]
  progs qid rd sel (some ws) n v s = elim (Bool-cases (n == 0 || ltb ctxt_reg_count n)) [
    | inl e ↦ rw e (omega arith)
    | inr e ↦ rw e (
        Same-trans (write_regs-Same ctxt_mask_base _ s) (
          resume-Same (command hw qid rd sel _) _ _ (command-Same qid rd sel _)
            (λ _. read_data-Same n)))
  ]
  progs qid clr sel none n v s =
      resume-Same (command hw qid clr sel s) _ s (command-Same qid clr sel s) (λ _. done)
  progs qid inv sel none n v s =
      resume-Same (command hw qid inv sel s) _ s (command-Same qid inv sel s) (λ _. done)
  progs qid clr sel (some ws) n v s = verified-Same qid clr sel ws n v s
  progs qid inv sel (some ws) n v s = verified-Same qid inv sel ws n v s

  -- A command to the device, with what follows it.
  cmd {κ} :
      {A : Type κ} (qid : ℕ) (op : Op) (sel : Sel) (ws : Option (List ℕ)) (n : ℕ) (v : Bool)
      (f : List ℕ → Io S A)
      → ((a : List ℕ) → Quiet (f a))
      → Quiet (port.prog qid op sel ws n v >>= f)
  cmd qid op sel ws n v f k s =
      resume-Same (port.prog qid op sel ws n v s) f s (progs qid op sel ws n v s) k

  branch : {A : Type 0} (b : Bool) (m k : Io S A) → Quiet m → Quiet k → Quiet (if b then m else k)
  branch true m k h g = h
  branch false m k h g = g

  clear-Quiet :
      (qid : ℕ) (st c2h clear : Bool) → Quiet (qdma_descq_context_clear port qid st c2h clear)
  unfolding qdma_descq_context_clear
  clear-Quiet qid st c2h clear =
      cmd qid (if clear then clr else inv) (sel_sw c2h) none 0 false _ (λ _.
        cmd qid clr (sel_hw c2h) none 0 false _ (λ _. cmd qid clr (sel_cr c2h) none 0 false _ (λ _.
          branch (st && c2h) _ _
            (cmd qid clr pftch none 0 false _ (λ _. cmd qid clr wrb none 0 false _ (λ _. done)))
            done)))

  program-Quiet :
      (qid : ℕ) (st c2h : Bool) (c : HwDescqContext)
      → Quiet (qdma_descq_context_program port qid st c2h c)
  unfolding qdma_descq_context_program
  program-Quiet qid st c2h c s =
      resume-Same (qdma_descq_context_clear port qid st c2h true s) _ s
        (clear-Quiet qid st c2h true s)
        (λ _. cmd qid wr (sel_sw c2h) (some c.sw) 4 true _ (λ _.
          cmd qid wr qid2vec (some c.qid2vec) 1 true _ (λ _. branch (not st || not c2h) _ _ done (
            cmd qid wr pftch (some c.prefetch) 2 true _
              (λ _. cmd qid wr wrb (some c.wrb) 4 true _ (λ _. done))))))

  read-Quiet : (qid : ℕ) (st c2h : Bool) → Quiet (qdma_descq_context_read port qid st c2h)
  unfolding qdma_descq_context_read
  read-Quiet qid st c2h = cmd qid rd (sel_sw c2h) (some no_context.sw) 4 false _ (λ _.
      cmd qid rd (sel_hw c2h) (some no_context.hw) 2 false _ (λ _.
        cmd qid rd (sel_cr c2h) (some no_context.cr) 1 false _ (λ _.
          cmd qid rd qid2vec (some no_context.qid2vec) 1 false _ (λ _.
            branch (st && c2h) _ _
              (cmd qid rd wrb (some no_context.wrb) 4 false _
                (λ _. cmd qid rd pftch (some no_context.prefetch) 2 false _ (λ _. done)))
              done))))

  -- An operation keeps the message's header, and lets no message in.
  abbrev pub Kept : MboxMsg → PfState S → Handled S → Type 0
  Kept m s (rv, m', s') = (m'.hdr ≡ m.hdr) × Same s.hw s'.hw

  pick :
      (m : MboxMsg) (s : PfState S) (b : Bool) (x y : Handled S)
      → Kept m s x
      → Kept m s y
      → Kept m s (if b then x else y)
  pick m s true x y h k = h
  pick m s false x y h k = k

  module _ (qsets_base qsets_max : ℕ) where
    read_csr-Kept :
        (base : ℕ) (m : MboxMsg) (s : PfState S)
        → Kept m s (read_csr port hw qsets_base qsets_max base m s)
    unfolding read_csr
    read_csr-Kept base m s = (
      refl,
      Same-trans (read_regs-Same base 16 s.hw)
          (mail.reads wb_acc_reg (read_regs hw base 16 s.hw).1),
    )

    handle_csr-Kept :
        (m : MboxMsg) (s : PfState S) → Kept m s (handle_csr port hw qsets_base qsets_max m s)
    unfolding handle_csr
    handle_csr-Kept m s =
        let type = get_or m.body 0 0 in
        let csr = λ (base : ℕ). read_csr-Kept base m s in
        pick m s (type == 1) _ _ (csr rng_sz_base) (
          pick m s (type == 2) _ _ (csr buf_sz_base) (
            pick m s (type == 3) _ _ (csr timer_cnt_base)
              (pick m s (type == 4) _ _ (csr cnt_th_base) (refl, omega arith))))

    store_context-Kept :
        (m : MboxMsg) (s : PfState S) (r : Result HwDescqContext × S)
        → Same s.hw r.1
        → Kept m s (store_context port hw qsets_base qsets_max m s r)
    unfolding store_context
    store_context-Kept m s (ok c, t) h = (refl, h)
    store_context-Kept m s (err e, t) h = (refl, h)

    program_cleared-Kept :
        (m : MboxMsg) (s : PfState S) (r : Result ℕ × S)
        → Same s.hw r.1
        → Kept m s (program_cleared port hw qsets_base qsets_max m s r)
    unfolding program_cleared
    program_cleared-Kept m s (ok n, t) h = (refl, Same-trans h (program-Quiet _ _ _ _ t))
    program_cleared-Kept m s (err e, t) h = (refl, h)

    pub handle-Kept :
        (m : MboxMsg) (s : PfState S) → Kept m s (handle port hw qsets_base qsets_max m s)
    unfolding handle handle_fmap handle_clear handle_read handle_write
    handle-Kept m s =
        let op = m.hdr.op in
        let qid = qid_of m.body in
        let st = flag_of 3 m.body in
        let c2h = flag_of 2 m.body in
        let same : Kept m s (ok 0, m, s) = (refl, omega arith) in
        pick m s (op == 1) _ _ same (
          pick m s (op == 2) _ _ same (
            pick m s (op == 4) _ _ same (
              pick m s (op == 5) _ _ (handle_csr-Kept m s) (
                pick m s (op == 6) _ _ same (
                  pick m s (op == 7) _ _
                    (program_cleared-Kept m s _ (clear-Quiet qid st c2h true s.hw))
                    (pick m s (op == 8) _ _ (store_context-Kept m s _ (read-Quiet qid st c2h s.hw))
                      (pick m s (op == 9) _ _ (refl, clear-Quiet qid st c2h false s.hw) same)))))))
