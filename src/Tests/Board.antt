-- ===== src/Tests/Board.antt =====
-- A device with the indirect context registers: four data registers, and a command register that clears,
-- writes, reads or invalidates one context of a queue. Its masks are not kept and it is never busy.
use qdmav.Prelude.{
  ℕ, zero, suc, ◌+◌, ◌*◌, ◌/◌, ◌%◌, ◌^◌, ◌<◌, ◌≤◌, ◌≡◌, ◌≢◌, refl, sym, ap, ◌∙◌, arith, true, false,
  ◌==◌, List, [], ◌∷◌, ◌++◌, some, none, if◌then◌else◌, take, length,
}
use qdmav.Prelude.Errors.{ok}
use qdmav.Hw.{
  Hw, Op, Sel, clr, wr, rd, inv, sw_c2h, sw_h2c, hw_c2h, hw_h2c, cr_c2h, cr_h2c, wrb, pftch, coal,
  pasid_ram_low, pasid_ram_high, timer, qid2vec, sel_code, op_code, ctxt_cmd, ctxt_data_base,
  command, hw_monitor_reg, poll, read_regs, write_regs, read_data, write_masks,
  hw_indirect_ctext_prog,
}
use qdmav.Hw.Indirect.{prog-Verified, loaded}
use qdmav.Context.{hw_port}
use qdmav.Context.Memory.{IsMemory}

pub record Words : Type 0 where
  pub w0 : ℕ
  pub w1 : ℕ
  pub w2 : ℕ
  pub w3 : ℕ

abbrev pub no_words : Words
no_words = record { w0 = 0; w1 = 0; w2 = 0; w3 = 0 }

abbrev to_list : Words → List ℕ
to_list w = w.w0 ∷ w.w1 ∷ w.w2 ∷ w.w3 ∷ []

-- The contexts stand under the queue's number and the kind's code, as the command has them.
pub record Board : Type 0 where
  pub regs : Words
  pub contexts : ℕ → Words

abbrev pub idle_board : Board
idle_board = record { regs = no_words; contexts = λ key. no_words }

abbrev place : ℕ → Words → (ℕ → Words) → ℕ → Words
place key w old other = if other == key then w else old other

abbrev execute : ℕ → ℕ → Board → Board
execute op key s =
    if op == 1
    then record s { contexts = place key s.regs s.contexts }
    else (if op == 2
        then record s { regs = s.contexts key }
        else record s { contexts = place key no_words s.contexts })

abbrev pub board : Hw Board
board = record {
  read_reg = λ reg s. (
    if reg == 0x804
        then s.regs.w0
        else (if reg == 0x808
            then s.regs.w1
            else (if reg == 0x80c then s.regs.w2 else (if reg == 0x810 then s.regs.w3 else 0))),
    s,
  );
  write_reg = λ reg v s.
      if reg == 0x824
      then execute (v / 2 ^ 5 % 4) (v / 2 ^ 7 * 16 + v / 2 % 16) s
      else (if reg == 0x804
          then record s { regs = record (s.regs) { w0 = v } }
          else (if reg == 0x808
              then record s { regs = record (s.regs) { w1 = v } }
              else (if reg == 0x80c
                  then record s { regs = record (s.regs) { w2 = v } }
                  else (if reg == 0x810
                      then record s { regs = record (s.regs) { w3 = v } }
                      else s))));
}

abbrev key : ℕ → Sel → ℕ
key q k = q % 2 ^ 25 * 16 + sel_code k

abbrev pub board_view : Board → ℕ → Sel → List ℕ
board_view s q k = to_list (s.contexts (key q k))

sel_small : (k : Sel) → sel_code k < 16
unfolding sel_code
sel_small sw_c2h = omega arith
sel_small sw_h2c = omega arith
sel_small hw_c2h = omega arith
sel_small hw_h2c = omega arith
sel_small cr_c2h = omega arith
sel_small cr_h2c = omega arith
sel_small wrb = omega arith
sel_small pftch = omega arith
sel_small coal = omega arith
sel_small pasid_ram_low = omega arith
sel_small pasid_ram_high = omega arith
sel_small timer = omega arith
sel_small qid2vec = omega arith

op_small : (op : Op) → op_code op < 4
unfolding op_code
op_small clr = omega arith
op_small wr = omega arith
op_small rd = omega arith
op_small inv = omega arith

-- The command's fields.
decode :
    (q : ℕ) (op : Op) (k : Sel)
    → (ctxt_cmd q op k / 2 ^ 5 % 4 ≡ op_code op)
      × (ctxt_cmd q op k / 2 ^ 7 * 16 + ctxt_cmd q op k / 2 % 16 ≡ key q k)
unfolding ctxt_cmd
decode q op k = (omega (arith, sel_small k, op_small op), omega (arith, sel_small k, op_small op))

command-eq :
    (q : ℕ) (op : Op) (k : Sel) (s : Board)
    → command board q op k s ≡ (ok 1, execute (op_code op) (key q k) s)
unfolding command hw_monitor_reg poll
command-eq q op k s = let (a, b) = decode q op k in rw (a, b) refl

same : (a : ℕ) → (a == a) ≡ true
same a = ground arith

-- What is in the data registers for a list of words.
abbrev padded : List ℕ → Words
padded [] = no_words
padded (a ∷ []) = record { w0 = a; w1 = 0; w2 = 0; w3 = 0 }
padded (a ∷ b ∷ []) = record { w0 = a; w1 = b; w2 = 0; w3 = 0 }
padded (a ∷ b ∷ c ∷ []) = record { w0 = a; w1 = b; w2 = c; w3 = 0 }
padded (a ∷ b ∷ c ∷ d ∷ ws) = record { w0 = a; w1 = b; w2 = c; w3 = d }

-- What an operation of the port does.
abbrev board_step : ℕ → Op → Sel → List ℕ → Board → Board
board_step q clr k ws s = execute 0 (key q k) s
board_step q wr k ws s = record {
  regs = padded ws;
  contexts = place (key q k) (padded ws) s.contexts;
}
board_step q rd k ws s = execute 2 (key q k) s
board_step q inv k ws s = execute 3 (key q k) s

loaded-eq :
    (ws : List ℕ) (s : Board)
    → 0 < length ws
    → length ws ≤ 4
    → loaded board ws (length ws) s ≡ record s { regs = padded ws }
unfolding write_regs
loaded-eq [] s h l = absurd (omega arith)
loaded-eq (a ∷ []) s h l = refl
loaded-eq (a ∷ b ∷ []) s h l = refl
loaded-eq (a ∷ b ∷ c ∷ []) s h l = refl
loaded-eq (a ∷ b ∷ c ∷ d ∷ []) s h l = refl
loaded-eq (a ∷ b ∷ c ∷ d ∷ e ∷ ws) s h l = absurd (omega arith)

held-take :
    (ws : List ℕ) (s : Board)
    → 0 < length ws
    → length ws ≤ 4
    → s.regs ≡ padded ws
    → read_regs board ctxt_data_base (length ws) s ≡ (take (length ws) ws, s)
unfolding read_regs
held-take [] s h l e = absurd (omega arith)
held-take (a ∷ []) s h l e = rw e refl
held-take (a ∷ b ∷ []) s h l e = rw e refl
held-take (a ∷ b ∷ c ∷ []) s h l e = rw e refl
held-take (a ∷ b ∷ c ∷ d ∷ []) s h l e = rw e refl
held-take (a ∷ b ∷ c ∷ d ∷ e ∷ ws) s h l _ = absurd (omega arith)

write-ok :
    (q : ℕ) (k : Sel) (ws : List ℕ) (s : Board)
    → 0 < length ws
    → length ws ≤ 4
    → hw_indirect_ctext_prog board q wr k (some ws) (length ws) true s
      ≡ (ok [], board_step q wr k ws s)
unfolding op_code
write-ok q k ws s h l =
    (prog-Verified board q k ws (length ws) s (board_step q wr k ws s) h l).1 (record {
      wrote_in = 1;
      read_in = 1;
      written = execute 1 (key q k) (record s { regs = padded ws });
      shown = board_step q wr k ws s;
      wrote = rw (loaded-eq ws s h l) (command-eq q wr k _);
      asked =
          command-eq q rd k (execute 1 (key q k) (record s { regs = padded ws }))
          ∙ rw (same (key q k)) refl;
      held = held-take ws (board_step q wr k ws s) h l refl;
    })

read-ok :
    (q : ℕ) (k : Sel) (ws : List ℕ) (n : ℕ) (s : Board)
    → 0 < n
    → n ≤ 4
    → hw_indirect_ctext_prog board q rd k (some ws) n false s
      ≡ (ok (take n (board_view s q k)), board_step q rd k [] s)
unfolding hw_indirect_ctext_prog write_masks write_regs read_data read_regs op_code
read-ok q k ws zero s h l = absurd (omega arith)
read-ok q k ws (suc zero) s h l = rw (command-eq q rd k s) refl
read-ok q k ws (suc (suc zero)) s h l = rw (command-eq q rd k s) refl
read-ok q k ws (suc (suc (suc zero))) s h l = rw (command-eq q rd k s) refl
read-ok q k ws (suc (suc (suc (suc zero)))) s h l = rw (command-eq q rd k s) refl
read-ok q k ws (suc (suc (suc (suc (suc n))))) s h l = absurd (omega arith)

padded-start : (ws : List ℕ) → length ws ≤ 4 → (rest : List ℕ) × (to_list (padded ws) ≡ ws ++ rest)
padded-start [] l = (to_list no_words, refl)
padded-start (a ∷ []) l = (0 ∷ 0 ∷ 0 ∷ [], refl)
padded-start (a ∷ b ∷ []) l = (0 ∷ 0 ∷ [], refl)
padded-start (a ∷ b ∷ c ∷ []) l = (0 ∷ [], refl)
padded-start (a ∷ b ∷ c ∷ d ∷ []) l = ([], refl)
padded-start (a ∷ b ∷ c ∷ d ∷ e ∷ ws) l = absurd (omega arith)

clear-ok :
    (q : ℕ) (k : Sel) (s : Board)
    → hw_indirect_ctext_prog board q clr k none 0 false s ≡ (ok [], board_step q clr k [] s)
unfolding hw_indirect_ctext_prog op_code
clear-ok q k s = rw (command-eq q clr k s) refl

other_key :
    (q : ℕ) (k k' : Sel) (w : Words) (old : ℕ → Words)
    → sel_code k' ≢ sel_code k
    → place (key q k) w old (key q k') ≡ old (key q k')
other_key q k k' w old n = let e : (key q k' == key q k) ≡ false = ground arith in rw e refl

-- The program's own command keeps the contexts on this device.
pub board-IsMemory : IsMemory (hw_port board) board_view
board-IsMemory = record {
  step = board_step;
  clears = clear-ok;
  writes = λ q k ws n s h l e. rw (sym e) (write-ok q k ws s (omega (arith, e)) (omega (arith, e)));
  reads = read-ok;
  cleared = λ q k s. rw (same (key q k)) refl;
  written = λ q k ws s l. rw (same (key q k)) (padded-start ws l);
  looks = λ q k s k'. refl;
  others = λ q op k ws s k' n. untouched q op k ws s k' n;
}
  where
    untouched :
        (q : ℕ) (op : Op) (k : Sel) (ws : List ℕ) (s : Board) (k' : Sel)
        → sel_code k' ≢ sel_code k
        → board_view (board_step q op k ws s) q k' ≡ board_view s q k'
    untouched q clr k ws s k' n = ap to_list (other_key q k k' no_words s.contexts n)
    untouched q wr k ws s k' n = ap to_list (other_key q k k' (padded ws) s.contexts n)
    untouched q rd k ws s k' n = refl
    untouched q inv k ws s k' n = ap to_list (other_key q k k' no_words s.contexts n)
