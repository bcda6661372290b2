-- ===== src/Mbox.antt =====
-- The mailbox between the functions (libqdma/qdma_mbox.c, libqdma/qdma_mbox.h, the physical function's
-- build). A message is its header and the words that follow; `Mbox/Transport` moves it through the
-- registers, and this module handles what virtual functions ask for. A `char` status is kept in
-- eight bits. Whether the device is offline does not change while messages are handled.
pub mod Transport
pub mod Mail
pub mod Rounds
pub mod Answers
pub mod Sticky
use qdmav.Prelude.{
  ℕ, zero, suc, ◌+◌, ◌-◌, ◌*◌, ◌/◌, ◌%◌, ◌^◌, Bool, true, false, not, ◌&&◌, ◌||◌, List, [], ◌∷◌,
  ◌++◌, Option, none, some, bit, ◌==◌, if◌then◌else◌, get_or, take, drop, length,
}
use qdmav.Prelude.Errors.{Error, einval, Result, ok, err, is_ok}
use qdmav.Hw.{Hw, read_regs}
use qdmav.Context.{
  Port, HwDescqContext, qdma_descq_context_clear, qdma_descq_context_program,
  qdma_descq_context_read,
}
use qdmav.Lifecycle.{
  rng_sz_base, wb_acc_reg, timer_cnt_base, cnt_th_base, buf_sz_base, csr_array_sz,
}
use qdmav.Sriov.{Sriov, hello, bye, fmap, default_qbase}

-- `struct mbox_msg_hdr`
pub record MsgHdr : Type 0 where
  pub op : ℕ
  pub sent : Bool
  pub rcv : Bool
  pub ack : Bool
  pub wait : Bool
  pub src : ℕ
  pub dst : ℕ
  pub status : ℕ

-- `struct mbox_msg`: the header, and the words after it
pub record MboxMsg : Type 0 where
  pub hdr : MsgHdr
  pub body : List ℕ

-- MBOX_STATUS_GOOD, -MBOX_STATUS_ERR, -MBOX_STATUS_EINVAL, and -EINVAL
abbrev pub good : ℕ
good = 0

abbrev pub status_err : ℕ
status_err = 255

abbrev pub status_einval : ℕ
status_einval = 254

abbrev pub minus_einval : ℕ
minus_einval = 234

-- How messages are read and sent, and how the acknowledgements of those sent are cleared.
pub record Mailbox {ℓ} (S : Type ℓ) : Type ℓ where
  pub read : S → Result MboxMsg × S
  pub send : MboxMsg → S → Result ℕ × S
  pub clear_ack : S → S

-- Words stored at a place of the body.
unfoldable pub put_words : ℕ → List ℕ → List ℕ → List ℕ
put_words i ws body = take i body ++ (ws ++ drop (i + length ws) body)

-- `struct mbox_msg_qctxt`: the queue, its modes, and the context's words
unfoldable pub qid_of : List ℕ → ℕ
qid_of body = get_or body 0 0 / 2 ^ 16

unfoldable pub flag_of : ℕ → List ℕ → Bool
flag_of k body = get_or body 0 0 / 2 ^ k % 2 == 1

unfoldable pub context_of : List ℕ → HwDescqContext
context_of body = record {
  sw = take 4 (drop 1 body);
  prefetch = take 2 (drop 5 body);
  wrb = take 4 (drop 7 body);
  hw = take 2 (drop 11 body);
  cr = take 1 (drop 13 body);
  qid2vec = take 1 (drop 14 body);
}

unfoldable pub context_words : HwDescqContext → List ℕ
context_words c = c.sw ++ (c.prefetch ++ (c.wrb ++ (c.hw ++ (c.cr ++ c.qid2vec))))

-- What the handling of messages changes.
pub record PfState {ℓ} (S : Type ℓ) : Type ℓ where
  pub sriov : Sriov
  pub status : ℕ
  pub hw : S

-- The result of an operation, with the message as it is left.
abbrev pub Handled {ℓ} : Type ℓ → Type ℓ
Handled S = Result ℕ × MboxMsg × PfState S

module _ {ℓ} {S : Type ℓ} (port : Port S) (hw : Hw S) (qsets_base qsets_max : ℕ) where
  unfoldable pub handle_fmap : MboxMsg → PfState S → Handled S
  handle_fmap m s =
      let qbase = get_or m.body 0 0 in
      let qbase' = if qbase == 0 then default_qbase qsets_base qsets_max m.hdr.src else qbase in
      (
        ok 0,
        record m { body = put_words 0 (qbase' ∷ []) m.body },
        record s { sriov = fmap qsets_base qsets_max m.hdr.src qbase (get_or m.body 1 0) s.sriov },
      )

  unfoldable pub read_csr : ℕ → MboxMsg → PfState S → Handled S
  read_csr base m s =
      let (v, hw1) = read_regs hw base csr_array_sz s.hw in
      let (acc, hw2) = hw.read_reg wb_acc_reg hw1 in
      (ok 0, record m { body = put_words 1 (v ++ (acc ∷ [])) m.body }, record s { hw = hw2 })

  -- `enum mbox_csr_type`
  unfoldable pub handle_csr : MboxMsg → PfState S → Handled S
  handle_csr m s =
      let type = get_or m.body 0 0 in
      if type == 1
      then read_csr rng_sz_base m s
      else (if type == 2
          then read_csr buf_sz_base m s
          else (if type == 3
              then read_csr timer_cnt_base m s
              else (if type == 4
                  then read_csr cnt_th_base m s
                  else (ok 0, m, record s { status = minus_einval }))))

  unfoldable pub handle_clear : MboxMsg → PfState S → Handled S
  handle_clear m s =
      let (rv, hw1) =
        qdma_descq_context_clear port (qid_of m.body) (flag_of 3 m.body) (flag_of 2 m.body) false
          s.hw in
      (rv, m, record s { hw = hw1 })

  -- A context whose read failed is left as it came.
  unfoldable pub store_context : MboxMsg → PfState S → Result HwDescqContext × S → Handled S
  store_context m s (err e, hw1) = (err e, m, record s { hw = hw1 })
  store_context m s (ok c, hw1) =
      (ok 0, record m { body = put_words 1 (context_words c) m.body }, record s { hw = hw1 })

  unfoldable pub handle_read : MboxMsg → PfState S → Handled S
  handle_read m s =
      store_context m s
        (qdma_descq_context_read port (qid_of m.body) (flag_of 3 m.body) (flag_of 2 m.body) s.hw)

  unfoldable pub program_cleared : MboxMsg → PfState S → Result ℕ × S → Handled S
  program_cleared m s (err e, hw1) = (err e, m, record s { hw = hw1 })
  program_cleared m s (ok _, hw1) =
      let (rv, hw2) =
        qdma_descq_context_program port (qid_of m.body) (flag_of 3 m.body) (flag_of 2 m.body)
          (context_of m.body) hw1 in
      (rv, m, record s { hw = hw2 })

  unfoldable pub handle_write : MboxMsg → PfState S → Handled S
  handle_write m s = program_cleared m s (
      qdma_descq_context_clear port (qid_of m.body) (flag_of 3 m.body) (flag_of 2 m.body) true s.hw)

  -- `switch (hdr->op)`, in the order of `enum mbox_msg_op`. A device reset is not known here.
  unfoldable pub handle : MboxMsg → PfState S → Handled S
  handle m s =
      let op = m.hdr.op in
      if op == 1
      then (ok 0, m, record s { sriov = hello m.hdr.src s.sriov })
      else (if op == 2
          then (ok 0, m, record s { sriov = bye m.hdr.src s.sriov })
          else (if op == 4
              then handle_fmap m s
              else (if op == 5
                  then handle_csr m s
                  else (if op == 6
                      then (err einval, m, s)
                      else (if op == 7
                          then handle_write m s
                          else (if op == 8
                              then handle_read m s
                              else (if op == 9
                                  then handle_clear m s
                                  else (ok 0, m, record s { status = status_einval }))))))))

-- The status that is sent, which is kept for the messages that follow.
unfoldable pub answer_status : Result ℕ → ℕ → ℕ
answer_status (ok n) status = status
answer_status (err e) status = if status == good then status_err else status

unfoldable pub answer : ℕ → ℕ → MboxMsg → MboxMsg
answer func_id status m = record m {
  hdr = record (m.hdr) { dst = m.hdr.src; src = func_id; ack = true; status = status };
}

module _ {ℓ} {S : Type ℓ} (box : Mailbox S) (port : Port S) (hw : Hw S) (func_id : ℕ)
    (qsets_base qsets_max : ℕ) (offline : Bool) where
  -- Whether the loop goes on after what was sent.
  unfoldable pub after_send : PfState S → Result ℕ × S → Bool × PfState S
  after_send s (err e, hw1) = (false, record s { hw = hw1 })
  after_send s (ok n, hw1) = (not offline, record s { hw = hw1 })

  unfoldable pub respond : Handled S → Bool × PfState S
  respond (rv, m, s) =
      let status = answer_status rv s.status in
      let s1 = record s { status = status } in
      let sent = after_send s1 (box.send (answer func_id status m) s.hw) in
      if m.hdr.wait then sent else (not offline, s)

  -- One message. An acknowledgement is dropped.
  unfoldable pub process : MboxMsg → PfState S → Bool × PfState S
  process m s = if m.hdr.ack then (true, s) else respond (handle port hw qsets_base qsets_max m s)

  unfoldable pub go_on : (PfState S → Option (PfState S)) → Bool × PfState S → Option (PfState S)
  go_on next (true, s) = next s
  go_on next (false, s) = some s

  unfoldable pub got :
      (PfState S → Option (PfState S)) → PfState S → Result MboxMsg × S → Option (PfState S)
  got next s (err e, hw1) = some (record s { hw = hw1 })
  got next s (ok m, hw1) = go_on next (process m (record s { hw = hw1 }))

  -- `while (mbox_read(xdev, &m, 0) == 0)`, on fuel.
  unfoldable pub mbox_from : ℕ → PfState S → Option (PfState S)
  mbox_from zero s = none
  mbox_from (suc n) s = got (mbox_from n) s (box.read s.hw)

  -- The status is good at first. The timer is started again unless the device is offline.
  unfoldable pub qdma_mbox_proc : ℕ → Sriov → S → Option (PfState S)
  qdma_mbox_proc fuel sriov s =
      mbox_from fuel (record {
        sriov = record sriov { timer = not offline };
        status = good;
        hw = box.clear_ack s;
      })
