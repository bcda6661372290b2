-- ===== src/Context/Setup.antt =====
-- `qdma_descq_context_setup` on a device that keeps its contexts.
use qdmav.Prelude.{
  ℕ, ◌≡◌, ap, ◌∙◌, arith, Bool, true, ◌&&◌, List, [], ◌∷◌, if◌then◌else◌, take, get_or, Bool-cases,
  inl, inr,
}
use qdmav.Prelude.Errors.{ok}
use qdmav.Prelude.Io.{resume-ok}
use qdmav.Descq.{Descq}
use qdmav.Device.{Xdev}
use qdmav.Hw.{Sel, qid2vec, rd}
use qdmav.Context.{
  no_context, Port, words_or, make_context, make_qid2vec_context, program_made,
  qdma_descq_context_clear, qdma_descq_context_setup, qdma_descq_context_program,
  qdma_descq_context_read, get_intr_ring_index,
}
use qdmav.Context.Words.{set_vector, make_sw_context, make_prefetch_context, make_wrb_context, fill}
use qdmav.Context.Memory.{IsMemory, IsSized, programmed, program-read}

-- The word of the vector map after the queue's own vector was put in.
abbrev pub vector_word : Xdev → Descq → ℕ → List ℕ
vector_word x q w =
    set_vector q.conf.c2h x.intr_coal_en
      (if x.intr_coal_en then get_intr_ring_index x q.intr_id else q.intr_id) w
    ∷ []

make_context-IsSized {ℓ} :
    {S : Type ℓ} (port : Port S) (x : Xdev) (q : Descq) (w : ℕ)
    → IsSized (make_context port x q (vector_word x q w))
unfolding make_context words_or make_sw_context make_prefetch_context make_wrb_context fill
make_context-IsSized port x q w = record {
  sw = ground arith;
  prefetch = ground arith;
  wrb = ground arith;
  qid2vec = ground arith;
}

module _ {ℓ} {S : Type ℓ} (port : Port S) (view : S → ℕ → Sel → List ℕ)
    (m : IsMemory port view) where
  clear-ok :
      (q : ℕ) (st c2h : Bool) (s : S) → (qdma_descq_context_clear port q st c2h true s).0 ≡ ok 0
  unfolding qdma_descq_context_clear
  clear-ok q st c2h s = elim (Bool-cases (st && c2h)) [
    | inl e ↦ simp (m.clears, e)
    | inr e ↦ simp (m.clears, e)
  ]

  vector-eq :
      (x : Xdev) (q : Descq) (s : S)
      → make_qid2vec_context port x q s ≡ (
        vector_word x q (get_or (take 1 (view s q.qidx_hw qid2vec)) 0 0),
        m.step q.qidx_hw rd qid2vec [] s,
      )
  unfolding make_qid2vec_context
  vector-eq x q s =
      ground (arith, m.reads q.qidx_hw qid2vec no_context.qid2vec 1 s (omega arith) (omega arith))

  setup-eq-program :
      (x : Xdev) (q : Descq) (s : S)
      → let s1 = (qdma_descq_context_clear port q.qidx_hw q.conf.st q.conf.c2h true s).1 in
        qdma_descq_context_setup port x q s
        ≡ qdma_descq_context_program port q.qidx_hw q.conf.st q.conf.c2h
            (make_context port x q
              (vector_word x q (get_or (take 1 (view s1 q.qidx_hw qid2vec)) 0 0)))
            (m.step q.qidx_hw rd qid2vec [] s1)
  unfolding qdma_descq_context_setup program_made
  setup-eq-program x q s =
      resume-ok (qdma_descq_context_clear port q.qidx_hw q.conf.st q.conf.c2h true s) _
        (clear-ok q.qidx_hw q.conf.st q.conf.c2h s)
      ∙ ap
          (λ v.
            qdma_descq_context_program port q.qidx_hw q.conf.st q.conf.c2h
              (make_context port x q v.0) v.1)
          (vector-eq x q _)

  -- The context that a queue is set up with, and the vector map's word that it was made from.
  abbrev pub old_vector : Descq → S → ℕ
  old_vector q s =
      let s1 = (qdma_descq_context_clear port q.qidx_hw q.conf.st q.conf.c2h true s).1 in
      get_or (take 1 (view s1 q.qidx_hw qid2vec)) 0 0

  -- On a device that keeps its contexts, setting a queue up succeeds, and reading the queue back gives
  -- the context that was made from its configuration and its interrupt vector.
  pub setup-read :
      (x : Xdev) (q : Descq) (s : S)
      → let (rv, s') = qdma_descq_context_setup port x q s in
        let context = make_context port x q (vector_word x q (old_vector q s)) in
        let (rv', s2) = qdma_descq_context_read port q.qidx_hw q.conf.st q.conf.c2h s' in
        (rv ≡ ok 0)
        × (rv' ≡ ok (programmed q.conf.st q.conf.c2h context))
        × ((k : Sel) → view s2 q.qidx_hw k ≡ view s' q.qidx_hw k)
  setup-read x q s = rw (setup-eq-program x q s) (
      program-read port view m q.qidx_hw q.conf.st q.conf.c2h _ _
        (make_context-IsSized port x q (old_vector q s)))
