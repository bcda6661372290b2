-- ===== src/Mbox/Sticky.antt =====
-- The status of an answer outlives its message.
use qdmav.Prelude.{ℕ, ◌<◌, ◌≤◌, ◌≡◌, refl, arith, true, false, ◌==◌}
use qdmav.Prelude.Errors.{ok}
use qdmav.Hw.{Hw}
use qdmav.Context.{Port}
use qdmav.Sriov.{hello}
use qdmav.Mbox.{
  MboxMsg, Mailbox, PfState, handle, status_einval, answer, answer_status, after_send, respond,
  process,
}

module _ {ℓ} {S : Type ℓ} (box : Mailbox S) (port : Port S) (hw : Hw S)
    (func_id qsets_base qsets_max : ℕ) where
  handle_unknown :
      (u : MboxMsg) (s : PfState S)
      → 9 < u.hdr.op
      → handle port hw qsets_base qsets_max u s ≡ (ok 0, u, record s { status = status_einval })
  unfolding handle
  handle_unknown u s h =
      let other : (k : ℕ) → k ≤ 9 → (u.hdr.op == k) ≡ false = λ k l. ground arith in
      simp (
        other 1 (omega arith),
        other 2 (omega arith),
        other 4 (omega arith),
        other 5 (omega arith),
        other 6 (omega arith),
        other 7 (omega arith),
        other 8 (omega arith),
        other 9 (omega arith),
      )

  handle-hello :
      (m : MboxMsg) (s : PfState S)
      → m.hdr.op ≡ 1
      → handle port hw qsets_base qsets_max m s
        ≡ (ok 0, m, record s { sriov = hello m.hdr.src s.sriov })
  unfolding handle
  handle-hello m s h = let is : (m.hdr.op == 1) ≡ true = ground arith in simp is

  process_unknown :
      (u : MboxMsg) (s : PfState S)
      → 9 < u.hdr.op
      → u.hdr.ack ≡ false
      → u.hdr.wait ≡ false
      → process box port hw func_id qsets_base qsets_max false u s
        ≡ (true, record s { status = status_einval })
  unfolding process respond
  process_unknown u s op ack wait = simp (handle_unknown u s op, ack, wait)

  process-hello :
      (m : MboxMsg) (s : PfState S)
      → m.hdr.op ≡ 1
      → m.hdr.ack ≡ false
      → m.hdr.wait ≡ true
      → process box port hw func_id qsets_base qsets_max false m s
        ≡ after_send box port hw func_id qsets_base qsets_max false
            (record s { sriov = hello m.hdr.src s.sriov })
            (box.send (answer func_id s.status m) s.hw)
  unfolding process respond answer_status
  process-hello m s op ack wait = simp (handle-hello m s op, ack, wait)

  -- A message of an operation that is not known, from any function, taints what follows in the same
  -- run: a virtual function that says hello after it is put online, and is told that its request
  -- was bad.
  pub unknown_taints_hello :
      (u m : MboxMsg) (s : PfState S)
      → let (on, s1) = process box port hw func_id qsets_base qsets_max false u s in
        9 < u.hdr.op
        → u.hdr.ack ≡ false
        → u.hdr.wait ≡ false
        → m.hdr.op ≡ 1
        → m.hdr.ack ≡ false
        → m.hdr.wait ≡ true
        → (on ≡ true)
          × (process box port hw func_id qsets_base qsets_max false m s1
              ≡ after_send box port hw func_id qsets_base qsets_max false
                  (record s { sriov = hello m.hdr.src s.sriov; status = status_einval })
                  (box.send (answer func_id status_einval m) s.hw))
  unknown_taints_hello u m s op ack wait hello_op hello_ack hello_wait =
      rw (process_unknown u s op ack wait)
        (refl, process-hello m (record s { status = status_einval }) hello_op hello_ack hello_wait)
