-- ===== src/Context/Memory.antt =====
-- The abstract device of the contexts, a memory with one context for each queue and kind, and what
-- `qdma_descq_context_program` and `qdma_descq_context_read` do to it.
use qdmav.Prelude.{
  ℕ, zero, suc, ◌<◌, ◌≤◌, ◌≡◌, ◌≢◌, inl, inr, refl, sym, ap, ◌∙◌, arith, Bool, true, false, not,
  ◌&&◌, ◌||◌, List, [], ◌∷◌, ◌++◌, none, some, if◌then◌else◌, replicate, take, drop, length, ◌==◌,
  Bool-cases,
}
use qdmav.Prelude.Errors.{ok}
use qdmav.Hw.{Op, Sel, clr, wr, rd, sw_c2h, hw_c2h, cr_c2h, wrb, pftch, qid2vec, sel_code}
use qdmav.Context.{
  Port, HwDescqContext, no_context, sel_sw, sel_hw, sel_cr, qdma_descq_context_clear,
  qdma_descq_context_program, qdma_descq_context_read,
}

-- A device whose commands of one to four words succeed: `view s q k` are the four words of the context
-- of kind `k` of the queue `q`. A write replaces the first words; a read shows the first words and
-- leaves every context of the queue.
pub record IsMemory {ℓ} {S : Type ℓ} (port : Port S) (view : S → ℕ → Sel → List ℕ) : Type ℓ where
  pub step : ℕ → Op → Sel → List ℕ → S → S
  pub clears :
      (q : ℕ) (k : Sel) (s : S) → port.prog q clr k none 0 false s ≡ (ok [], step q clr k [] s)
  pub writes :
      (q : ℕ) (k : Sel) (ws : List ℕ) (n : ℕ) (s : S)
      → 0 < n
      → n ≤ 4
      → length ws ≡ n
      → port.prog q wr k (some ws) n true s ≡ (ok [], step q wr k ws s)
  pub reads :
      (q : ℕ) (k : Sel) (ws : List ℕ) (n : ℕ) (s : S)
      → 0 < n
      → n ≤ 4
      → port.prog q rd k (some ws) n false s ≡ (ok (take n (view s q k)), step q rd k [] s)
  pub cleared : (q : ℕ) (k : Sel) (s : S) → view (step q clr k [] s) q k ≡ replicate 4 0
  pub written :
      (q : ℕ) (k : Sel) (ws : List ℕ) (s : S)
      → length ws ≤ 4
      → (rest : List ℕ) × (view (step q wr k ws s) q k ≡ ws ++ rest)
  pub looks : (q : ℕ) (k : Sel) (s : S) (k' : Sel) → view (step q rd k [] s) q k' ≡ view s q k'
  pub others :
      (q : ℕ) (op : Op) (k : Sel) (ws : List ℕ) (s : S) (k' : Sel)
      → sel_code k' ≢ sel_code k
      → view (step q op k ws s) q k' ≡ view s q k'

-- What a queue's contexts read as once they were programmed.
unfoldable pub programmed : Bool → Bool → HwDescqContext → HwDescqContext
programmed st c2h context =
    if st && c2h
    then record context { hw = no_context.hw; cr = no_context.cr }
    else record no_context { sw = context.sw; qid2vec = context.qid2vec }

-- The context's arrays have their lengths.
pub record IsSized (context : HwDescqContext) : Type 0 where
  pub sw : length context.sw ≡ 4
  pub prefetch : length context.prefetch ≡ 2
  pub wrb : length context.wrb ≡ 4
  pub qid2vec : length context.qid2vec ≡ 1

take_whole {ℓ} : {A : Type ℓ} (n : ℕ) (xs ys : List A) → length xs ≡ n → take n (xs ++ ys) ≡ xs
take_whole zero [] ys h = refl
take_whole zero (x ∷ xs) ys h = absurd (omega arith)
take_whole (suc n) [] ys h = absurd (omega arith)
take_whole (suc n) (x ∷ xs) ys h = ap (λ t. x ∷ t) (take_whole n xs ys (omega arith))

abbrev Command : Type 0
Command = Op × Sel × List ℕ

unfoldable untouched : Sel → List Command → Bool
untouched k [] = true
untouched k ((op, k', ws) ∷ cs) =
    let rest = untouched k cs in if sel_code k == sel_code k' then false else rest

module _ {ℓ} {S : Type ℓ} (port : Port S) (view : S → ℕ → Sel → List ℕ) (m : IsMemory port view)
    (q : ℕ) where
  unfoldable run : List Command → S → S
  run [] s = s
  run ((op, k, ws) ∷ cs) s = run cs (m.step q op k ws s)

  frame :
      (k : Sel) (cs : List Command) (s : S)
      → untouched k cs ≡ true
      → view (run cs s) q k ≡ view s q k
  unfolding run untouched
  frame k [] s h = refl
  frame k ((op, k', ws) ∷ cs) s h = elim (Bool-cases (sel_code k == sel_code k')) [
    | inl e ↦ absurd (ground arith)
    | inr e ↦
        let other : sel_code k ≢ sel_code k' = ground arith in
        frame k cs _ (rw e at h) ∙ m.others q op k' ws s k other
  ]

  shows_written :
      (k : Sel) (ws : List ℕ) (n : ℕ) (cs : List Command) (s : S)
      → length ws ≡ n
      → n ≤ 4
      → untouched k cs ≡ true
      → take n (view (run cs (m.step q wr k ws s)) q k) ≡ ws
  shows_written k ws n cs s l le h =
      let (rest, e) = m.written q k ws s (omega arith) in
      rw (frame k cs (m.step q wr k ws s) h, e) (take_whole n ws rest l)

  shows_cleared :
      (k : Sel) (cs : List Command) (s : S)
      → untouched k cs ≡ true
      → view (run cs (m.step q clr k [] s)) q k ≡ replicate 4 0
  shows_cleared k cs s h = frame k cs (m.step q clr k [] s) h ∙ m.cleared q k s

  -- The commands of a program without and with the contexts of a streaming C2H queue.
  unfoldable commands : Bool → HwDescqContext → List Command
  commands c2h context =
      (clr, sel_sw c2h, [])
      ∷ (clr, sel_hw c2h, [])
      ∷ (clr, sel_cr c2h, [])
      ∷ (wr, sel_sw c2h, context.sw)
      ∷ (wr, qid2vec, context.qid2vec)
      ∷ []

  unfoldable stream_commands : HwDescqContext → List Command
  stream_commands context =
      (clr, sw_c2h, [])
      ∷ (clr, hw_c2h, [])
      ∷ (clr, cr_c2h, [])
      ∷ (clr, pftch, [])
      ∷ (clr, wrb, [])
      ∷ (wr, sw_c2h, context.sw)
      ∷ (wr, qid2vec, context.qid2vec)
      ∷ (wr, pftch, context.prefetch)
      ∷ (wr, wrb, context.wrb)
      ∷ []

  write_ok :
      (k : Sel) (ws : List ℕ) (n : ℕ) (s : S)
      → (0 < n) × (n ≤ 4) × (length ws ≡ n)
      → port.prog q wr k (some ws) n true s ≡ (ok [], m.step q wr k ws s)
  write_ok k ws n s (a, b, l) = m.writes q k ws n s a b l

  read_ok :
      (k : Sel) (ws : List ℕ) (n : ℕ) (s : S)
      → (0 < n) × (n ≤ 4)
      → port.prog q rd k (some ws) n false s ≡ (ok (take n (view s q k)), m.step q rd k [] s)
  read_ok k ws n s (a, b) = m.reads q k ws n s a b

  program_stream :
      (context : HwDescqContext) (s : S)
      → IsSized context
      → qdma_descq_context_program port q true true context s
        ≡ (ok 0, run (stream_commands context) s)
  unfolding qdma_descq_context_program qdma_descq_context_clear sel_sw sel_hw sel_cr run
      stream_commands
  program_stream context s z =
      let w1 = λ (s : S). write_ok sw_c2h context.sw 4 s (omega arith, omega arith, z.sw) in
      let w2 =
        λ (s : S). write_ok qid2vec context.qid2vec 1 s (omega arith, omega arith, z.qid2vec) in
      let w3 =
        λ (s : S). write_ok pftch context.prefetch 2 s (omega arith, omega arith, z.prefetch) in
      let w4 = λ (s : S). write_ok wrb context.wrb 4 s (omega arith, omega arith, z.wrb) in
      simp (m.clears, w1, w2, w3, w4)

  program_plain :
      (st c2h : Bool) (context : HwDescqContext) (s : S)
      → IsSized context
      → st && c2h ≡ false
      → qdma_descq_context_program port q st c2h context s ≡ (ok 0, run (commands c2h context) s)
  unfolding qdma_descq_context_program qdma_descq_context_clear run commands
  program_plain st c2h context s z h =
      let n : (not st || not c2h) ≡ true = either st c2h h in
      let w1 = λ (s : S). write_ok (sel_sw c2h) context.sw 4 s (omega arith, omega arith, z.sw) in
      let w2 =
        λ (s : S). write_ok qid2vec context.qid2vec 1 s (omega arith, omega arith, z.qid2vec) in
      simp (m.clears, w1, w2, h, n)
    where
      either : (a b : Bool) → a && b ≡ false → (not a || not b) ≡ true
      either true true e = sym e
      either true false e = refl
      either false b e = refl

  abbrev plain_reads : Bool → List Command
  plain_reads c2h =
      (rd, sel_sw c2h, []) ∷ (rd, sel_hw c2h, []) ∷ (rd, sel_cr c2h, []) ∷ (rd, qid2vec, []) ∷ []

  abbrev stream_reads : List Command
  stream_reads =
      (rd, sw_c2h, [])
      ∷ (rd, hw_c2h, [])
      ∷ (rd, cr_c2h, [])
      ∷ (rd, qid2vec, [])
      ∷ (rd, wrb, [])
      ∷ (rd, pftch, [])
      ∷ []

  read_stream :
      (context : HwDescqContext) (s : S)
      → IsSized context
      → let s' = run (stream_commands context) s in
        qdma_descq_context_read port q true true s'
        ≡ (ok (programmed true true context), run stream_reads s')
  unfolding qdma_descq_context_read sel_sw sel_hw sel_cr run stream_commands untouched sel_code
      programmed
  read_stream context s z =
      let c = stream_commands context in
      let f = run c s in
      let e1 : take 4 (view f q sw_c2h) ≡ context.sw =
        shows_written sw_c2h context.sw 4 (drop 6 c) (run (take 5 c) s) z.sw (omega arith) refl in
      let e2 : view f q hw_c2h ≡ replicate 4 0 =
        shows_cleared hw_c2h (drop 2 c) (run (take 1 c) s) refl in
      let e3 : view f q cr_c2h ≡ replicate 4 0 =
        shows_cleared cr_c2h (drop 3 c) (run (take 2 c) s) refl in
      let e4 : take 1 (view f q qid2vec) ≡ context.qid2vec =
        shows_written qid2vec context.qid2vec 1 (drop 7 c) (run (take 6 c) s) z.qid2vec
          (omega arith) refl in
      let e5 : take 2 (view f q pftch) ≡ context.prefetch =
        shows_written pftch context.prefetch 2 (drop 8 c) (run (take 7 c) s) z.prefetch
          (omega arith) refl in
      let e6 : take 4 (view f q wrb) ≡ context.wrb =
        shows_written wrb context.wrb 4 [] (run (take 8 c) s) z.wrb (omega arith) refl in
      let r4 = λ (k : Sel) (ws : List ℕ) (s : S). read_ok k ws 4 s (omega arith, omega arith) in
      let r2 = λ (k : Sel) (ws : List ℕ) (s : S). read_ok k ws 2 s (omega arith, omega arith) in
      let r1 = λ (k : Sel) (ws : List ℕ) (s : S). read_ok k ws 1 s (omega arith, omega arith) in
      simp (r4, r2, r1, m.looks, e1, e2, e3, e4, e5, e6)

  read_plain :
      (st c2h : Bool) (context : HwDescqContext) (s : S)
      → IsSized context
      → st && c2h ≡ false
      → let s' = run (commands c2h context) s in
        qdma_descq_context_read port q st c2h s'
        ≡ (ok (programmed st c2h context), run (plain_reads c2h) s')
  unfolding qdma_descq_context_read sel_sw sel_hw sel_cr run commands untouched sel_code programmed
  read_plain st c2h context s z h =
      let c = commands c2h context in
      let f = run c s in
      let e1 : take 4 (view f q (sel_sw c2h)) ≡ context.sw =
        shows_written (sel_sw c2h) context.sw 4 (drop 4 c) (run (take 3 c) s) z.sw (omega arith)
          (u1 c2h) in
      let e2 : view f q (sel_hw c2h) ≡ replicate 4 0 =
        shows_cleared (sel_hw c2h) (drop 2 c) (run (take 1 c) s) (u2 c2h) in
      let e3 : view f q (sel_cr c2h) ≡ replicate 4 0 =
        shows_cleared (sel_cr c2h) (drop 3 c) (run (take 2 c) s) (u3 c2h) in
      let e4 : take 1 (view f q qid2vec) ≡ context.qid2vec =
        shows_written qid2vec context.qid2vec 1 [] (run (take 4 c) s) z.qid2vec (omega arith)
          refl in
      let r4 = λ (k : Sel) (ws : List ℕ) (s : S). read_ok k ws 4 s (omega arith, omega arith) in
      let r2 = λ (k : Sel) (ws : List ℕ) (s : S). read_ok k ws 2 s (omega arith, omega arith) in
      let r1 = λ (k : Sel) (ws : List ℕ) (s : S). read_ok k ws 1 s (omega arith, omega arith) in
      simp (r4, r2, r1, m.looks, e1, e2, e3, e4, h)
    where
      u1 : (b : Bool) → untouched (sel_sw b) (drop 4 (commands b context)) ≡ true
      u1 true = refl
      u1 false = refl

      u2 : (b : Bool) → untouched (sel_hw b) (drop 2 (commands b context)) ≡ true
      u2 true = refl
      u2 false = refl

      u3 : (b : Bool) → untouched (sel_cr b) (drop 3 (commands b context)) ≡ true
      u3 true = refl
      u3 false = refl

-- On a device that keeps its contexts, programming a queue with a context whose arrays have their
-- lengths succeeds, and reading the queue back succeeds with the programmed words, with the hardware and credit contexts cleared, and leaves every
-- context of the queue as it is.
pub program-read {ℓ} :
    {S : Type ℓ} (port : Port S) (view : S → ℕ → Sel → List ℕ)
    → IsMemory port view
    → (q : ℕ) (st c2h : Bool) (context : HwDescqContext) (s : S) → IsSized context
    → let (rv, s') = qdma_descq_context_program port q st c2h context s in
      let (rv', s2) = qdma_descq_context_read port q st c2h s' in
      (rv ≡ ok 0) × (rv' ≡ ok (programmed st c2h context)) × ((k : Sel) → view s2 q k ≡ view s' q k)
unfolding run
program-read port view m q true true context s z =
    rw (program_stream port view m q context s z, read_stream port view m q context s z)
      (refl, refl, λ k. simp m.looks)
program-read port view m q true false context s z =
    rw
      (
        program_plain port view m q true false context s z refl,
        read_plain port view m q true false context s z refl,
      )
      (refl, refl, λ k. simp m.looks)
program-read port view m q false c2h context s z =
    rw
      (
        program_plain port view m q false c2h context s z refl,
        read_plain port view m q false c2h context s z refl,
      )
      (refl, refl, λ k. simp m.looks)
