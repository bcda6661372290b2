-- ===== src/Context.antt =====
-- The contexts that program the device's queues and interrupt rings (libqdma/qdma_context.c, the
-- physical function's build). The indirect commands are an interface: `hw_indirect_ctext_prog` of
-- `Hw` implements it, and the memory that `Context/Memory` describes.
pub mod Words
pub mod Memory
pub mod Setup
use qdmav.Prelude.{
  ℕ, zero, suc, ◌+◌, ◌*◌, Bool, true, false, not, ◌&&◌, ◌||◌, List, [], ◌∷◌, ◌++◌, Option, none,
  some, if◌then◌else◌, replicate, get_or, add32, sub32,
}
use qdmav.Prelude.Errors.{Error, Result, ok, err}
use qdmav.Prelude.Io.{Io, return, ◌>>=◌, ◌>>◌}
use qdmav.Descq.{QueueConf, Descq}
use qdmav.Device.{Xdev}
use qdmav.Hw.{
  Hw, Op, Sel, clr, wr, rd, inv, sw_c2h, sw_h2c, hw_c2h, hw_h2c, cr_c2h, cr_h2c, wrb, pftch, coal,
  qid2vec, hw_indirect_ctext_prog,
}
use Words.{
  IntrCoal, make_sw_context, make_prefetch_context, make_wrb_context, set_vector, make_intr_context,
  data_vec_max,
}

-- A queue, a command, a context, the words or a null pointer, their number, and whether to verify.
pub record Port {ℓ} (S : Type ℓ) : Type ℓ where
  pub prog : ℕ → Op → Sel → Option (List ℕ) → ℕ → Bool → Io S (List ℕ)

abbrev pub hw_port {ℓ} : {S : Type ℓ} → Hw S → Port S
hw_port hw = record { prog = hw_indirect_ctext_prog hw }

-- `struct hw_descq_context`
pub record HwDescqContext : Type 0 where
  pub sw : List ℕ
  pub prefetch : List ℕ
  pub wrb : List ℕ
  pub hw : List ℕ
  pub cr : List ℕ
  pub qid2vec : List ℕ

abbrev pub no_context : HwDescqContext
no_context = record {
  sw = replicate 4 0;
  prefetch = replicate 2 0;
  wrb = replicate 4 0;
  hw = replicate 2 0;
  cr = replicate 1 0;
  qid2vec = replicate 1 0;
}

unfoldable pub sel_sw : Bool → Sel
sel_sw c2h = if c2h then sw_c2h else sw_h2c

unfoldable pub sel_hw : Bool → Sel
sel_hw c2h = if c2h then hw_c2h else hw_h2c

unfoldable pub sel_cr : Bool → Sel
sel_cr c2h = if c2h then cr_c2h else cr_h2c

-- The words a `make_` function leaves in an array of `n` that was cleared: its result is not tested.
unfoldable pub words_or : ℕ → Result (List ℕ) → List ℕ
words_or n (ok ws) = ws
words_or n (err e) = replicate n 0

-- `get_intr_ring_index` of libqdma/qdma_intr.c
unfoldable pub get_intr_ring_index : Xdev → ℕ → ℕ
get_intr_ring_index x vector_index =
    add32 (sub32 vector_index x.dvec_start_idx) (x.func_id * data_vec_max)

module _ {ℓ} {S : Type ℓ} (port : Port S) where
  unfoldable pub qdma_descq_context_clear : ℕ → Bool → Bool → Bool → Io S ℕ
  qdma_descq_context_clear qid st c2h clear = do
    port.prog qid (if clear then clr else inv) (sel_sw c2h) none 0 false
    port.prog qid clr (sel_hw c2h) none 0 false
    port.prog qid clr (sel_cr c2h) none 0 false
    if st && c2h
        then (do port.prog qid clr pftch none 0 false; port.prog qid clr wrb none 0 false; return 0)
        else return 0

  unfoldable pub qdma_descq_context_program : ℕ → Bool → Bool → HwDescqContext → Io S ℕ
  qdma_descq_context_program qid st c2h context = do
    qdma_descq_context_clear qid st c2h true
    port.prog qid wr (sel_sw c2h) (some context.sw) 4 true
    port.prog qid wr qid2vec (some context.qid2vec) 1 true
    if not st || not c2h then return 0 else (do
      port.prog qid wr pftch (some context.prefetch) 2 true
      port.prog qid wr wrb (some context.wrb) 4 true
      return 0)

  unfoldable pub qdma_descq_context_read : ℕ → Bool → Bool → Io S HwDescqContext
  qdma_descq_context_read qid st c2h = do
    sw ← port.prog qid rd (sel_sw c2h) (some no_context.sw) 4 false
    hw ← port.prog qid rd (sel_hw c2h) (some no_context.hw) 2 false
    cr ← port.prog qid rd (sel_cr c2h) (some no_context.cr) 1 false
    vec ← port.prog qid rd qid2vec (some no_context.qid2vec) 1 false
    if st && c2h
        then (do
          wb ← port.prog qid rd wrb (some no_context.wrb) 4 false
          pf ← port.prog qid rd pftch (some no_context.prefetch) 2 false
          return (record { sw = sw; prefetch = pf; wrb = wb; hw = hw; cr = cr; qid2vec = vec }))
        else return (record no_context { sw = sw; hw = hw; cr = cr; qid2vec = vec })

  -- Here the words are the result, and what fails leaves those that were read so far, zero.
  unfoldable pub make_qid2vec_context : Xdev → Descq → S → List ℕ × S
  make_qid2vec_context x q s =
      let (r, s1) = port.prog q.qidx_hw rd qid2vec (some no_context.qid2vec) 1 false s in
      elim r [
        | err e ↦ (no_context.qid2vec, s1)
        | ok ws ↦ (
          set_vector q.conf.c2h x.intr_coal_en
                (if x.intr_coal_en then get_intr_ring_index x q.intr_id else q.intr_id)
                (get_or ws 0 0)
              ∷ [],
          s1,
        )
      ]

  unfoldable pub make_context : Xdev → Descq → List ℕ → HwDescqContext
  make_context x q vec =
      let context = record no_context {
        sw = words_or 4 (make_sw_context x.func_id q 4);
        qid2vec = vec;
      } in
      if q.conf.st && q.conf.c2h
      then record context {
        prefetch = words_or 2 (make_prefetch_context q 2);
        wrb = words_or 4 (make_wrb_context x.func_id q 4);
      }
      else context

  unfoldable pub program_made : Xdev → Descq → Io S ℕ
  program_made x q s =
      let (vec, s1) = make_qid2vec_context x q s in
      qdma_descq_context_program q.qidx_hw q.conf.st q.conf.c2h (make_context x q vec) s1

  unfoldable pub qdma_descq_context_setup : Xdev → Descq → Io S ℕ
  qdma_descq_context_setup x q = do
    qdma_descq_context_clear q.qidx_hw q.conf.st q.conf.c2h true
    program_made x q

  -- The loop over the vectors from `i` on, with what remains of `data`; what is read back is only
  -- logged.
  unfoldable pub setup_vectors : Xdev → ℕ → List (ℕ × ℕ) → Io S ℕ
  setup_vectors x i [] = return 0
  setup_vectors x i ((w0, w1) ∷ ws) =
      let ring_index = get_intr_ring_index x (i + x.dvec_start_idx) in
      do
        port.prog ring_index clr coal none 4 false
        port.prog ring_index wr coal (some (w0 ∷ w1 ∷ [])) 2 true
        port.prog ring_index rd coal (some (replicate 4 0)) 4 true
        setup_vectors x (i + 1) ws

  unfoldable pub qdma_intr_context_setup : ℕ → List IntrCoal → Xdev → Io S ℕ
  qdma_intr_context_setup intr_rngsz coal_list x =
      if x.intr_coal_en
      then setup_vectors x 0 (make_intr_context intr_rngsz coal_list)
      else return 0

  unfoldable pub qdma_intr_context_read : ℕ → Io S (List ℕ)
  qdma_intr_context_read ring_index = port.prog ring_index rd coal (some (replicate 4 0)) 4 false
