-- ===== src/Mbox/Transport/Delivery.antt =====
-- What is sent through registers that hold what is written to them is what the receiver reads.
use Prim.Native.Nat.{bit_and}
use qdmav.Prelude.{
  ℕ, zero, suc, ◌+◌, ◌*◌, ◌/◌, ◌%◌, ◌^◌, ◌≤◌, ◌<◌, ◌≡◌, refl, sym, ap, ◌∙◌, arith, Bool, true,
  false, List, [], ◌∷◌, some, bit, ◌==◌, if◌then◌else◌, get_elem?, length,
}
use qdmav.Prelude.Errors.{Result, ok}
use qdmav.Hw.{Hw, read_regs, write_regs, hw_monitor_reg, poll}
use qdmav.Mbox.{MsgHdr, MboxMsg}
use qdmav.Mbox.Transport.{
  fn_status, fn_cmd, fn_target, in_msg_base, out_msg_base, msg_reg_max, hdr_word, hdr_of, raw,
  msg_of, pf_mbox_clear_func_ack, send_words, send_ready, mbox_send, named_source, read_words,
  read_ready, mbox_read,
}

-- Registers that hold what is written to them.
abbrev pub File : Type 0
File = ℕ → ℕ

abbrev pub file : Hw File
file = record {
  read_reg = λ reg s. (s reg, s);
  write_reg = λ reg v s. λ r. if r == reg then v else s r;
}

-- The header's fields fit their places.
pub record IsHdr (h : MsgHdr) : Type 0 where
  pub op : h.op < 2 ^ 4
  pub src : h.src < 2 ^ 8
  pub dst : h.dst < 2 ^ 8
  pub status : h.status < 2 ^ 8

flag-bit : (b : Bool) → (bit b == 1) ≡ b
flag-bit true = refl
flag-bit false = refl

bit-le : (b : Bool) → bit b ≤ 1
bit-le true = omega arith
bit-le false = omega arith

pub hdr_of-hdr_word : (h : MsgHdr) → IsHdr h → hdr_of (hdr_word h) ≡ h
unfolding hdr_of hdr_word
hdr_of-hdr_word h f =
    let w = hdr_word h in
    let s = bit-le h.sent in
    let r = bit-le h.rcv in
    let a = bit-le h.ack in
    let t = bit-le h.wait in
    let e_op : w % 2 ^ 4 ≡ h.op = omega (arith, f.op) in
    let e_sent : w / 2 ^ 4 % 2 ≡ bit h.sent = omega (arith, f.op, s) in
    let e_rcv : w / 2 ^ 5 % 2 ≡ bit h.rcv = omega (arith, f.op, s, r) in
    let e_ack : w / 2 ^ 6 % 2 ≡ bit h.ack = omega (arith, f.op, s, r, a) in
    let e_wait : w / 2 ^ 7 % 2 ≡ bit h.wait = omega (arith, f.op, s, r, a, t) in
    let e_src : w / 2 ^ 8 % 2 ^ 8 ≡ h.src = omega (arith, f.op, s, r, a, t, f.src) in
    let e_dst : w / 2 ^ 16 % 2 ^ 8 ≡ h.dst = omega (arith, f.op, s, r, a, t, f.src, f.dst) in
    let e_status : w / 2 ^ 24 % 2 ^ 8 ≡ h.status =
      omega (arith, f.op, s, r, a, t, f.src, f.dst, f.status) in
    simp (e_op, e_sent, e_rcv, e_ack, e_wait, e_src, e_dst, e_status, flag-bit)

write_regs-below :
    (reg : ℕ) (ws : List ℕ) (s : File) (x : ℕ) → x < reg → write_regs file reg ws s x ≡ s x
unfolding write_regs
write_regs-below reg [] s x h = refl
write_regs-below reg (v ∷ vs) s x h =
    write_regs-below (reg + 4) vs (file.write_reg reg v s) x (omega arith) ∙ ground arith

write_regs-file :
    (reg : ℕ) (ws : List ℕ) (s : File) (i : ℕ) {v : ℕ}
    → get_elem? ws i ≡ some v
    → write_regs file reg ws s (reg + 4 * i) ≡ v
unfolding write_regs
write_regs-file reg [] s i h = cc
write_regs-file reg (v ∷ vs) s zero h =
    let z : reg + 4 * 0 ≡ reg = omega arith in
    rw z
      (write_regs-below (reg + 4) vs (file.write_reg reg v s) reg (omega arith) ∙ ground (arith, h))
write_regs-file reg (v ∷ vs) s (suc i) h =
    let z : reg + 4 * suc i ≡ reg + 4 + 4 * i = omega arith in
    rw z (write_regs-file (reg + 4) vs (file.write_reg reg v s) i h)

read_regs-file :
    (reg : ℕ) (ws : List ℕ) (s : File)
    → ((i v : ℕ) → get_elem? ws i ≡ some v → s (reg + 4 * i) ≡ v)
    → read_regs file reg (length ws) s ≡ (ws, s)
unfolding read_regs
read_regs-file reg [] s h = refl
read_regs-file reg (v ∷ vs) s h =
    let z : reg + 4 * 0 ≡ reg = omega arith in
    let first : s reg ≡ v = ap s (sym z) ∙ h 0 v refl in
    let rest : read_regs file (reg + 4) (length vs) s ≡ (vs, s) =
      read_regs-file (reg + 4) vs s (λ i v' e. ap s (next i) ∙ h (suc i) v' e) in
    rw (first, rest) refl
  where
    next : (i : ℕ) → reg + 4 + 4 * i ≡ reg + 4 * suc i
    next i = omega arith

-- The receiver's registers hold what the sender wrote, and its status names the sender.
pub record IsDelivered (src : ℕ) (s r : File) : Type 0 where
  pub words : (i : ℕ) → i < msg_reg_max → r (in_msg_base + 4 * i) ≡ s (out_msg_base + 4 * i)
  pub full : bit_and (r fn_status) 1 ≡ 1
  pub source : r fn_status / 2 ^ 4 % 2 ^ 8 ≡ src

-- The registers after a message was sent.
unfoldable after_sent : MboxMsg → File → File
after_sent m s =
    let out = record m { hdr = record (m.hdr) { sent = false } } in
    let s1 =
      write_regs file out_msg_base (raw out) (file.write_reg fn_target (m.hdr.dst % 2 ^ 8) s) in
    file.write_reg fn_cmd 1 (pf_mbox_clear_func_ack file m.hdr.dst s1)

abbrev outgoing : MboxMsg → MboxMsg
outgoing m = record m { hdr = record (m.hdr) { sent = false } }

poll_now :
    (n reg mask val : ℕ) (s : File)
    → (bit_and (s reg) mask == val) ≡ true
    → poll file n reg mask val s ≡ (ok 1, s)
unfolding poll
poll_now zero reg mask val s h = rw h refl
poll_now (suc n) reg mask val s h = rw (h, poll) refl

monitor_free :
    (s : File)
    → bit_and (s fn_status) 2 ≡ 0
    → hw_monitor_reg file fn_status 2 0 100 1000000 s ≡ (ok 1, s)
unfolding hw_monitor_reg
monitor_free s h = poll_now 10000 fn_status 2 0 s (rw h refl)

send_words-free :
    (m : MboxMsg) (v : ℕ) (s : File)
    → bit_and v 2 ≡ 0
    → send_words file m (v, s) ≡ (
      ok 0,
      file.write_reg fn_cmd 1
          (pf_mbox_clear_func_ack file m.hdr.dst (write_regs file out_msg_base (raw m) s)),
    )
unfolding send_words
send_words-free m v s h = rw h refl

send-after_sent :
    (wait : Bool) (m : MboxMsg) (s : File)
    → bit_and (s fn_status) 2 ≡ 0
    → mbox_send file wait m s ≡ (ok 0, after_sent m s)
unfolding mbox_send send_ready after_sent
send-after_sent false m s h = send_words-free (outgoing m) (s fn_status) _ h
send-after_sent true m s h =
    rw (monitor_free (file.write_reg fn_target (m.hdr.dst % 2 ^ 8) s) h)
      (send_words-free (outgoing m) (s fn_status) _ h)

after_sent-words :
    (m : MboxMsg) (s : File) (i : ℕ) {v : ℕ}
    → m.hdr.dst < 2 ^ 8
    → get_elem? (raw (outgoing m)) i ≡ some v
    → after_sent m s (out_msg_base + 4 * i) ≡ v
unfolding after_sent pf_mbox_clear_func_ack
after_sent-words m s i l h =
    let s1 = file.write_reg fn_target (m.hdr.dst % 2 ^ 8) s in
    ground (arith, write_regs-file out_msg_base (raw (outgoing m)) s1 i h)

named : (m : MboxMsg) → IsHdr m.hdr → named_source m.hdr.src (msg_of (raw m)) ≡ m
unfolding named_source msg_of raw
named m f = rw (hdr_of-hdr_word m.hdr f) refl

read_delivered :
    (m : MboxMsg) (r : File)
    → IsHdr m.hdr
    → length m.body ≡ 31
    → bit_and (r fn_status) 1 ≡ 1
    → r fn_status / 2 ^ 4 % 2 ^ 8 ≡ m.hdr.src
    → ((i v : ℕ) → get_elem? (raw m) i ≡ some v → r (in_msg_base + 4 * i) ≡ v)
    → (mbox_read file false r).0 ≡ ok m
unfolding mbox_read read_ready read_words
read_delivered m r f body full source words =
    let s1 = file.write_reg fn_target (r fn_status / 2 ^ 4 % 2 ^ 8) r in
    let n : length (raw m) ≡ msg_reg_max = unfold raw in omega (arith, body) in
    let got : read_regs file in_msg_base (length (raw m)) s1 ≡ (raw m, s1) =
      read_regs-file in_msg_base (raw m) s1 (λ i v h. kept i ∙ words i v h) in
    let all : read_regs file in_msg_base msg_reg_max s1 ≡ (raw m, s1) = rw n at got in
    rw (all, full, source) (ap (λ (x : MboxMsg). ok x) (named m f))
  where
    kept :
        (i : ℕ)
        → file.write_reg fn_target (r fn_status / 2 ^ 4 % 2 ^ 8) r (in_msg_base + 4 * i)
          ≡ r (in_msg_base + 4 * i)
    kept i = ground arith

get_elem?-lt : (l : List ℕ) (i : ℕ) {v : ℕ} → get_elem? l i ≡ some v → i < length l
get_elem?-lt [] i h = cc
get_elem?-lt (x ∷ l) zero h = omega arith
get_elem?-lt (x ∷ l) (suc i) h = omega (arith, get_elem?-lt l i h)

-- A message that is sent while the outgoing slot is free reaches the receiver word for word, but for
-- the sender's own flag, and the receiver sees who sent it.
pub mbox_send-read :
    (wait : Bool) (m : MboxMsg) (s r : File)
    → let (rv, s') = mbox_send file wait m s in
      IsHdr m.hdr
      → length m.body ≡ 31
      → bit_and (s fn_status) 2 ≡ 0
      → IsDelivered m.hdr.src s' r
      → (rv ≡ ok 0)
        × ((mbox_read file false r).0 ≡ ok (record m { hdr = record (m.hdr) { sent = false } }))
mbox_send-read wait m s r f body free d =
    let e = send-after_sent wait m s free in
    let out : IsHdr (outgoing m).hdr = record {
      op = f.op;
      src = f.src;
      dst = f.dst;
      status = f.status;
    } in
    let n : length (raw (outgoing m)) ≡ msg_reg_max = unfold raw in omega (arith, body) in
    (
      ap (λ (p : Result ℕ × File). p.0) e,
      read_delivered (outgoing m) r out body d.full d.source (λ i v h.
          d.words i (omega (arith, get_elem?-lt (raw (outgoing m)) i h, n))
          ∙ ap (λ (p : Result ℕ × File). p.1 (out_msg_base + 4 * i)) e
          ∙ after_sent-words m s i f.dst h),
    )
