-- ===== src/Tests/Interrupts.antt =====
-- Rings and vectors of a function with four vectors.
use qdmav.Prelude.{ℕ, zero, suc, ◌≡◌, refl, arith, true, false, List, [], ◌∷◌, some, map, replicate}
use qdmav.Prelude.Errors.{ok, err, Result, eio}
use qdmav.Intr.{RingEntry}
use qdmav.Intr.Aggregate.{served}
use qdmav.Intr.Batches.{Line, interrupts, flatten}
use qdmav.Intr.Rings.{RingState, intr_ring_setup}
use qdmav.Intr.Rings.Balance.{Balanced, ring_setup-Balanced}
use qdmav.Intr.Rings.Ready.{fresh, setup_serves}
use qdmav.Intr.Vectors.{intr_user, Vectors, intr_setup}
use qdmav.Intr.Vectors.Laws.{IsComplete, intr_setup-IsComplete}
use qdmav.Tests.Queues.{xdev}
use qdmav.Context.{hw_port}
use qdmav.Tests.Board.{board, idle_board}

abbrev rings : RingState
rings = record { xdev = xdev; coal_list = []; live = 0x70000 ∷ []; lists = 0 }

-- Two interrupts: the first with two entries, the second with one.
abbrev entry_of : ℕ → RingEntry
entry_of qid = record { coal_color = true; qid = qid; intr_type = false; error_int = false }

abbrev posted : List (List RingEntry)
posted = (entry_of 32 ∷ entry_of 33 ∷ []) ∷ (entry_of 32 ∷ []) ∷ []

setup_serves_example :
    let (rv, s') = intr_ring_setup true 8 0 true (λ i. some 0x80000) (λ i. i) rings in
    (rv ≡ ok 0)
    × (s'.xdev.intr_coal_en ≡ true)
    × ((l : Line) × (interrupts 600 512 2 2 posted
            (record { writer = fresh 512; xdev = s'.xdev; coals = s'.coal_list; work = [] })
          ≡ some l)
        × (l.work ≡ map (served 32) (flatten posted)))
setup_serves_example =
    setup_serves 8 0 0x80000 600 (λ i. some 0x80000) (λ i. i) rings posted refl (omega arith)
      (omega arith) (omega arith) refl (omega arith) (omega arith, (omega arith, tt))

ring_setup-Balanced_example :
    Balanced
      (hw_port board)
      idle_board
      rings
      (intr_ring_setup true 8 0 true (λ i. some 0x80000) (λ i. i) rings)
ring_setup-Balanced_example =
    ring_setup-Balanced (hw_port board) idle_board true 8 0 true (λ i. some 0x80000) (λ i. i) rings

abbrev no_vectors : Vectors
no_vectors = record {
  func_id = 1;
  num_vecs = 0;
  dvec_start_idx = 0;
  intr_vec_map = replicate 8 (record { intr_type = intr_user; intr_vec_index = 0 });
  irq_flag = false;
  requested = [];
  msix_enabled = false;
}

-- The third vector's interrupt is refused.
abbrev refuse_third : ℕ → Result ℕ
refuse_third zero = ok 0
refuse_third (suc zero) = ok 0
refuse_third (suc (suc i)) = err eio

intr_setup-IsComplete_example :
    IsComplete 32 no_vectors (intr_setup false 32 (ok 0) refuse_third no_vectors)
intr_setup-IsComplete_example =
    intr_setup-IsComplete 32 (ok 0) refuse_third no_vectors (omega arith) refl (omega arith)
