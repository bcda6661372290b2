-- ===== src/Mbox/Rounds.antt =====
-- What the mailbox's own operations do to the messages that wait at the device.
use Prim.Native.Nat.{bit_and}
use qdmav.Prelude.{
  ℕ, zero, suc, ◌+◌, ◌*◌, ◌/◌, ◌%◌, ◌^◌, ◌<◌, ◌≡◌, ◌≢◌, sym, ap, arith, true, false, ◌==◌, inl, inr,
  Bool-cases,
}
use qdmav.Prelude.Errors.{Error, Result, ok, err}
use qdmav.Hw.{Hw, read_regs, write_regs}
use qdmav.Mbox.{MboxMsg}
use qdmav.Mbox.Mail.{IsMail, Same, Same-trans, read_regs-Same, write_regs-Same, monitor-Same}
use qdmav.Mbox.Transport.{
  fn_status, fn_cmd, fn_target, in_msg_base, out_msg_base, msg_reg_max, raw, pf_ack_base,
  pf_mbox_clear_func_ack, send_words, send_ready, mbox_send, read_words, read_ready, mbox_read,
  clear_acks, pf_mbox_clear_ack,
}

ok_or_err : {m : MboxMsg} {e : Error} → ¬ (err e ≡ ok m)
ok_or_err h = cc

module _ {ℓ} {S : Type ℓ} (hw : Hw S) (waiting : S → ℕ) (mail : IsMail hw waiting) where
  -- A message that was read waits no longer.
  pub mbox_read-takes :
      (s t : S) {m : MboxMsg} → mbox_read hw false s ≡ (ok m, t) → waiting t < waiting s
  unfolding mbox_read read_ready read_words
  mbox_read-takes s t {m} h =
      let v = (hw.read_reg fn_status s).0 in
      let s0 = (hw.read_reg fn_status s).1 in
      let s1 = hw.write_reg fn_target (v / 2 ^ 4 % 2 ^ 8) s0 in
      let s2 = (read_regs hw in_msg_base msg_reg_max s1).1 in
      elim (Bool-cases (bit_and v 1 == 0)) [
        | inl none_there ↦ absurd (ok_or_err (ap (λ p. p.0) (rw none_there at h)))
        | inr one_there ↦
            let there : bit_and v 1 ≢ 0 = ground arith in
            let end : hw.write_reg fn_cmd 2 s2 ≡ t = ap (λ p. p.1) (rw one_there at h) in
            let a = mail.reads fn_status s in
            let b = mail.writes fn_target (v / 2 ^ 4 % 2 ^ 8) s0 in
            let c = read_regs-Same hw waiting mail in_msg_base msg_reg_max s1 in
            rw (sym end) (omega (arith, mail.shows s there, a, b, c, mail.takes s2))
      ]

  send_words-Same :
      (m : MboxMsg) (v : ℕ) (s : S) → Same hw waiting mail s (send_words hw m (v, s)).1
  unfolding send_words pf_mbox_clear_func_ack
  send_words-Same m v s =
      let a = write_regs-Same hw waiting mail out_msg_base (raw m) s in
      let s1 = write_regs hw out_msg_base (raw m) s in
      let reg = pf_ack_base + m.hdr.dst / 32 * 4 in
      let b = mail.writes reg (2 ^ (m.hdr.dst % 32)) s1 in
      elim (Bool-cases (bit_and v 2 == 0)) [
        | inl free ↦
            rw free (
              omega
                (arith, a, b, mail.writes fn_cmd 1 (hw.write_reg reg (2 ^ (m.hdr.dst % 32)) s1)))
        | inr taken ↦ rw taken (omega arith)
      ]

  send_ready-Same :
      (m : MboxMsg) (r : Result ℕ × S) → Same hw waiting mail r.1 (send_ready hw m r).1
  unfolding send_ready
  send_ready-Same m (err e, s) = omega arith
  send_ready-Same m (ok n, s) =
      Same-trans hw waiting mail (mail.reads fn_status s) (send_words-Same m _ _)

  pub mbox_send-Same : (m : MboxMsg) (s : S) → Same hw waiting mail s (mbox_send hw true m s).1
  unfolding mbox_send
  mbox_send-Same m s =
      let s1 = hw.write_reg fn_target (m.hdr.dst % 2 ^ 8) s in
      Same-trans hw waiting mail
        (Same-trans hw waiting mail (mail.writes fn_target (m.hdr.dst % 2 ^ 8) s)
          (monitor-Same hw waiting mail fn_status 2 0 100 1000000 s1))
        (send_ready-Same _ _)

  clear_acks-Same : (n reg : ℕ) (s : S) → Same hw waiting mail s (clear_acks hw n reg s)
  unfolding clear_acks
  clear_acks-Same zero reg s = omega arith
  clear_acks-Same (suc n) reg s =
      let v = (hw.read_reg reg s).0 in
      let s1 = (hw.read_reg reg s).1 in
      let a = mail.reads reg s in
      elim (Bool-cases (v == 0)) [
        | inl e ↦ rw e (Same-trans hw waiting mail a (clear_acks-Same n (reg + 4) s1))
        | inr e ↦ rw e (
            Same-trans hw waiting mail (Same-trans hw waiting mail a (mail.writes reg v s1))
              (clear_acks-Same n (reg + 4) (hw.write_reg reg v s1)))
      ]

  pub clear_ack-Same : (s : S) → Same hw waiting mail s (pf_mbox_clear_ack hw s)
  unfolding pf_mbox_clear_ack
  clear_ack-Same s =
      let v = (hw.read_reg fn_status s).0 in
      let s1 = (hw.read_reg fn_status s).1 in
      let a = mail.reads fn_status s in
      elim (Bool-cases (bit_and v 4 == 0)) [
        | inl e ↦ rw e a
        | inr e ↦ rw e (Same-trans hw waiting mail a (clear_acks-Same 8 pf_ack_base s1))
      ]
