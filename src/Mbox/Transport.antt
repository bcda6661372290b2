-- ===== src/Mbox/Transport.antt =====
-- A message on its way through the registers: `mbox_send`, `mbox_read`, `qdma_mbox_send_msg`, `pf_mbox_clear_func_ack` and
-- `pf_mbox_clear_ack` (libqdma/qdma_mbox.c). A mask of the status register is tested as in the source.
pub mod Delivery
use Prim.Native.Nat.{bit_and}
use qdmav.Prelude.{
  ℕ, zero, suc, ◌+◌, ◌*◌, ◌/◌, ◌%◌, ◌^◌, Bool, true, false, not, ◌&&◌, List, [], ◌∷◌, bit, ◌==◌,
  if◌then◌else◌, get_or, drop,
}
use qdmav.Prelude.Errors.{Error, eagain, etime, Result, ok, err}
use qdmav.Hw.{Hw, read_regs, write_regs, hw_monitor_reg}
use qdmav.Mbox.{MsgHdr, MboxMsg, Mailbox}

-- MBOX_BASE + MBOX_FN_STATUS, MBOX_FN_CMD, MBOX_FN_TARGET, MBOX_PF_ACK_BASE, MBOX_IN_MSG_BASE and
-- MBOX_OUT_MSG_BASE
abbrev pub fn_status : ℕ
fn_status = 0x2400

abbrev pub fn_cmd : ℕ
fn_cmd = 0x2404

abbrev pub fn_target : ℕ
fn_target = 0x240c

abbrev pub pf_ack_base : ℕ
pf_ack_base = 0x2420

abbrev pub in_msg_base : ℕ
in_msg_base = 0x2c00

abbrev pub out_msg_base : ℕ
out_msg_base = 0x3000

abbrev pub msg_reg_max : ℕ
msg_reg_max = 32

-- The header's word: four bits, four flags, and three bytes.
unfoldable pub hdr_word : MsgHdr → ℕ
hdr_word h =
    h.op
    + bit h.sent * 2 ^ 4
    + bit h.rcv * 2 ^ 5
    + bit h.ack * 2 ^ 6
    + bit h.wait * 2 ^ 7
    + h.src * 2 ^ 8
    + h.dst * 2 ^ 16
    + h.status * 2 ^ 24

unfoldable pub hdr_of : ℕ → MsgHdr
hdr_of w = record {
  op = w % 2 ^ 4;
  sent = w / 2 ^ 4 % 2 == 1;
  rcv = w / 2 ^ 5 % 2 == 1;
  ack = w / 2 ^ 6 % 2 == 1;
  wait = w / 2 ^ 7 % 2 == 1;
  src = w / 2 ^ 8 % 2 ^ 8;
  dst = w / 2 ^ 16 % 2 ^ 8;
  status = w / 2 ^ 24 % 2 ^ 8;
}

-- `m->raw`
unfoldable pub raw : MboxMsg → List ℕ
raw m = hdr_word m.hdr ∷ m.body

unfoldable pub msg_of : List ℕ → MboxMsg
msg_of ws = record { hdr = hdr_of (get_or ws 0 0); body = drop 1 ws }

-- The sender is the one that the status register names.
unfoldable pub named_source : ℕ → MboxMsg → MboxMsg
named_source from_id m = record m { hdr = record (m.hdr) { src = from_id } }

module _ {ℓ} {S : Type ℓ} (hw : Hw S) where
  unfoldable pub pf_mbox_clear_func_ack : ℕ → S → S
  pf_mbox_clear_func_ack func_id s =
      hw.write_reg (pf_ack_base + func_id / 32 * 4) (2 ^ (func_id % 32)) s

  -- Once the status was read: the message goes out unless another is still there.
  unfoldable pub send_words : MboxMsg → ℕ × S → Result ℕ × S
  send_words m (v, s) =
      let s1 = write_regs hw out_msg_base (raw m) s in
      let s2 = pf_mbox_clear_func_ack m.hdr.dst s1 in
      if bit_and v 2 == 0 then (ok 0, hw.write_reg fn_cmd 1 s2) else (err eagain, s)

  unfoldable pub send_ready : MboxMsg → Result ℕ × S → Result ℕ × S
  send_ready m (err e, s) = (err eagain, s)
  send_ready m (ok n, s) = send_words m (hw.read_reg fn_status s)

  -- `sent` is cleared in the words that go out.
  unfoldable pub mbox_send : Bool → MboxMsg → S → Result ℕ × S
  mbox_send wait m s =
      let out = record m { hdr = record (m.hdr) { sent = false } } in
      let s1 = hw.write_reg fn_target (m.hdr.dst % 2 ^ 8) s in
      let waited = hw_monitor_reg hw fn_status 2 0 100 1000000 s1 in
      send_ready out (if wait then waited else (ok 0, s1))

  unfoldable pub read_words : ℕ × S → Result MboxMsg × S
  read_words (v, s) =
      let from_id = v / 2 ^ 4 % 2 ^ 8 in
      let (ws, s1) = read_regs hw in_msg_base msg_reg_max (hw.write_reg fn_target from_id s) in
      if bit_and v 1 == 0
      then (err eagain, s)
      else (ok (named_source from_id (msg_of ws)), hw.write_reg fn_cmd 2 s1)

  unfoldable pub read_ready : Result ℕ × S → Result MboxMsg × S
  read_ready (err e, s) = (err eagain, s)
  read_ready (ok n, s) = read_words (hw.read_reg fn_status s)

  unfoldable pub mbox_read : Bool → S → Result MboxMsg × S
  mbox_read wait s =
      let waited = hw_monitor_reg hw fn_status 1 1 1000 1000000 s in
      read_ready (if wait then waited else (ok 0, s))

  -- The registers of the acknowledgements from `reg` on, `n` of them: what is set is written back.
  unfoldable pub clear_acks : ℕ → ℕ → S → S
  clear_acks zero reg s = s
  clear_acks (suc n) reg s =
      let (v, s1) = hw.read_reg reg s in
      clear_acks n (reg + 4) (if v == 0 then s1 else hw.write_reg reg v s1)

  unfoldable pub pf_mbox_clear_ack : S → S
  pf_mbox_clear_ack s =
      let (v, s1) = hw.read_reg fn_status s in
      if bit_and v 4 == 0 then s1 else clear_acks 8 pf_ack_base s1

  -- `reply` is `m_req` when the wait ends, by a wake-up or by the timeout. The message is given back.
  unfoldable pub sent_msg : Bool → MboxMsg → MboxMsg → Result ℕ × S → Result ℕ × MboxMsg × S
  sent_msg wait_resp reply m (err e, s) =
      (err e, record m { hdr = record (m.hdr) { sent = false } }, s)
  sent_msg wait_resp reply m (ok n, s) =
      let out = record m { hdr = record (m.hdr) { sent = true } } in
      let answered = reply.hdr.op == m.hdr.op && reply.hdr.ack in
      if not wait_resp
      then (ok n, out, s)
      else (if answered then (ok reply.hdr.status, reply, s) else (err etime, out, s))

  unfoldable pub qdma_mbox_send_msg : Bool → MboxMsg → MboxMsg → S → Result ℕ × MboxMsg × S
  qdma_mbox_send_msg wait_resp reply m s =
      let hdr = record (m.hdr) { ack = if wait_resp then false else m.hdr.ack; wait = wait_resp } in
      let m1 = record m { hdr = hdr } in sent_msg wait_resp reply m1 (mbox_send true m1 s)

  -- The mailbox of `qdma_mbox_proc`.
  abbrev pub hw_mailbox : Mailbox S
  hw_mailbox = record {
    read = mbox_read false;
    send = mbox_send true;
    clear_ack = pf_mbox_clear_ack;
  }
