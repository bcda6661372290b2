-- ===== src/Tests/Contexts.antt =====
-- The contexts and registers on concrete devices.
use qdmav.Prelude.{
  ◌↔◌, ℕ, zero, suc, ◌+◌, ◌-◌, ◌/◌, ◌*◌, ◌%◌, ◌^◌, ◌≡◌, ◌≤◌, ◌<◌, ◌||◌, refl, arith, true, List, [],
  ◌∷◌, some, get_or, set, leb, ltb, ◌==◌, if◌then◌else◌,
}
use qdmav.Prelude.Errors.{ok}
use qdmav.Hw.{
  Hw, Sel, wr, sel_code, sw_h2c, hw_indirect_ctext_prog, write_regs, write_masks, write_data,
  command, poll, hw_monitor_reg, read_regs, read_back, read_data, compare_words, same_words,
  op_code, ctxt_cmd,
}
use qdmav.Hw.Poll.{after, Shows, shown, hw_monitor_reg-Ends}
use qdmav.Hw.Indirect.{Verified, prog-Verified}
use qdmav.Context.{
  hw_port, HwDescqContext, no_context, qdma_descq_context_program, qdma_descq_context_read,
}
use qdmav.Tests.Board.{board, board_view, board-IsMemory, idle_board}
use qdmav.Context.Memory.{program-read, programmed}
use qdmav.Context.Words.{IntrCoal, sw_word, make_wrb_context, make_intr_words}
use qdmav.Context.Words.Fields.{SwFields, sw_word-SwFields}
use qdmav.Context.Words.Addresses.{WrbFields, make_wrb_context-WrbFields, make_intr_words_address}
use qdmav.Tests.{queue}

-- A device that counts its reads down: its registers show one until the count is zero.
abbrev countdown : Hw ℕ
countdown = record {
  read_reg = λ reg s. (if s == 0 then 0 else 1, s - 1);
  write_reg = λ reg v s. s;
}

is_shown : Shows countdown 0x2500 1 0 3 3
unfolding Shows after
is_shown = refl

not_before : (m : ℕ) → m < 3 → ¬ Shows countdown 0x2500 1 0 m 3
unfolding Shows after
not_before zero l h = cc
not_before (suc zero) l h = cc
not_before (suc (suc zero)) l h = cc
not_before (suc (suc (suc m))) l h = absurd (omega arith)

never : (m : ℕ) → m ≤ 2 → ¬ Shows countdown 0x2500 1 0 m 20
unfolding Shows after
never zero l h = cc
never (suc zero) l h = cc
never (suc (suc zero)) l h = cc
never (suc (suc (suc m))) l h = absurd (omega arith)

hw_monitor_reg-Ends_example :
    hw_monitor_reg countdown 0x2500 1 0 100 1000 3 ≡ (ok 1, after countdown 0x2500 1 0 4 3)
hw_monitor_reg-Ends_example =
    hw_monitor_reg-Ends countdown 0x2500 1 0 100 1000 3 3 (ok 1) (omega arith) (omega arith)
      (shown (omega arith) is_shown not_before)

-- A device that is never busy and keeps the data registers.
abbrev registers : Hw (List ℕ)
registers = record {
  read_reg =
      λ reg s. (if ltb reg 0x804 || leb 0x814 reg then 0 else get_or s ((reg - 0x804) / 4) 0, s);
  write_reg = λ reg v s. if ltb reg 0x804 || leb 0x814 reg then s else set s ((reg - 0x804) / 4) v;
}

written_ok :
    hw_indirect_ctext_prog registers 5 wr sw_h2c (some (7 ∷ 8 ∷ [])) 2 true (0 ∷ 0 ∷ 9 ∷ 0 ∷ [])
    ≡ (ok [], 7 ∷ 8 ∷ 0 ∷ 0 ∷ [])
unfolding hw_indirect_ctext_prog write_masks write_data write_regs command hw_monitor_reg poll
    read_back read_data read_regs compare_words same_words ctxt_cmd op_code sel_code
written_ok = refl

prog-Verified_example :
    (hw_indirect_ctext_prog registers 5 wr sw_h2c (some (7 ∷ 8 ∷ [])) 2 true (0 ∷ 0 ∷ 9 ∷ 0 ∷ [])
      ≡ (ok [], 7 ∷ 8 ∷ 0 ∷ 0 ∷ []))
    ↔ Verified registers 5 sw_h2c (7 ∷ 8 ∷ []) 2 (0 ∷ 0 ∷ 9 ∷ 0 ∷ []) (7 ∷ 8 ∷ 0 ∷ 0 ∷ [])
prog-Verified_example =
    prog-Verified registers 5 sw_h2c (7 ∷ 8 ∷ []) 2 (0 ∷ 0 ∷ 9 ∷ 0 ∷ []) (7 ∷ 8 ∷ 0 ∷ 0 ∷ [])
      (omega arith) (omega arith)

-- Both sides hold there.
verified : Verified registers 5 sw_h2c (7 ∷ 8 ∷ []) 2 (0 ∷ 0 ∷ 9 ∷ 0 ∷ []) (7 ∷ 8 ∷ 0 ∷ 0 ∷ [])
verified =
    (prog-Verified registers 5 sw_h2c (7 ∷ 8 ∷ []) 2 (0 ∷ 0 ∷ 9 ∷ 0 ∷ []) (7 ∷ 8 ∷ 0 ∷ 0 ∷ [])
        (omega arith) (omega arith)).0
      written_ok

abbrev context : HwDescqContext
context = record no_context {
  sw = 1 ∷ 2 ∷ 3 ∷ 4 ∷ [];
  prefetch = 5 ∷ 6 ∷ [];
  wrb = 7 ∷ 8 ∷ 9 ∷ 10 ∷ [];
  qid2vec = 11 ∷ [];
}

program-read_example :
    let (rv, s') = qdma_descq_context_program (hw_port board) 3 true true context idle_board in
    let (rv', s2) = qdma_descq_context_read (hw_port board) 3 true true s' in
    (rv ≡ ok 0)
    × (rv' ≡ ok (programmed true true context))
    × ((k : Sel) → board_view s2 3 k ≡ board_view s' 3 k)
program-read_example =
    program-read (hw_port board) board_view board-IsMemory 3 true true context idle_board
      (record { sw = refl; prefetch = refl; wrb = refl; qid2vec = refl })

sw_word-SwFields_example : SwFields 3 queue (sw_word 3 queue)
sw_word-SwFields_example = sw_word-SwFields 3 queue (omega arith) (omega arith) (omega arith)

make_wrb_context-WrbFields_example :
    (w0 : ℕ) × (w1 : ℕ) × (w2 : ℕ) × (w3 : ℕ) × (make_wrb_context 3 queue 4
      ≡ ok (w0 ∷ w1 ∷ w2 ∷ w3 ∷ []))
    × WrbFields 3 queue w0 w1 w2 w3
make_wrb_context-WrbFields_example =
    make_wrb_context-WrbFields 3 queue (omega arith) (omega arith) (omega arith) (omega arith)
      (omega arith) (omega arith)

abbrev ring_entry : IntrCoal
ring_entry = record { vec_id = 2; intr_ring_bus = 0x812345000 }

make_intr_words_address_example :
    let (w0, w1) = make_intr_words 3 ring_entry in
    (w0 / 2 % 2 ^ 6 ≡ 2) × (w0 / 2 ^ 9 + w1 % 2 ^ 29 * 2 ^ 23 ≡ 0x812345000 / 2 ^ 12 + 3 * 2 ^ 24)
make_intr_words_address_example =
    make_intr_words_address 3 ring_entry (omega arith) (omega arith) (omega arith)
