-- ===== src/Tests/Mailboxes.antt =====
-- Messages between two functions.
use qdmav.Prelude.{
  ◌&&◌, if◌then◌else◌, ◌==◌, ◌-◌, leb, Bool, ℕ, ◌+◌, ◌*◌, ◌≡◌, refl, arith, true, false, List, [],
  ◌∷◌, ◌++◌, replicate,
}
use qdmav.Prelude.Errors.{Result, ok, err, eagain}
use qdmav.Hw.{Hw}
use qdmav.Context.{Port}
use qdmav.Sriov.{Sriov, hello}
use qdmav.Mbox.{MboxMsg, Mailbox, PfState, good, status_einval, answer, after_send, process}
use qdmav.Mbox.Sticky.{unknown_taints_hello}
use qdmav.Mbox.Transport.{fn_status, fn_cmd, in_msg_base, out_msg_base, mbox_send, mbox_read}
use qdmav.Mbox.Transport.Delivery.{File, file, IsDelivered, mbox_send-read}

-- Messages that wait, and messages that were sent.
abbrev Post : Type 0
Post = List MboxMsg × List MboxMsg

abbrev read_post : Post → Result MboxMsg × Post
read_post ([], out) = (err eagain, ([], out))
read_post (m ∷ ms, out) = (ok m, (ms, out))

abbrev box : Mailbox Post
box = record { read = read_post; send = λ m s. (ok 0, (s.0, s.1 ++ (m ∷ []))); clear_ack = λ s. s }

abbrev port : Port Post
port = record { prog = λ qid op sel ws n v s. (ok (replicate n 0), s) }

abbrev hw : Hw Post
hw = record { read_reg = λ reg s. (0, s); write_reg = λ reg v s. s }

abbrev msg : ℕ → Bool → MboxMsg
msg op wait = record {
  hdr = record {
    op = op;
    sent = true;
    rcv = false;
    ack = false;
    wait = wait;
    src = 4;
    dst = 0;
    status = 0;
  };
  body = replicate 31 0;
}

abbrev table : Sriov
table = record {
  vf_info = record { func_id = 256; qbase = 0; qmax = 0 } ∷ [];
  vf_count = 1;
  timer = false;
  events = [];
}

-- A function's registers, at which messages wait of which each asks for what stands in the incoming
-- slot; the receive command takes one away.
record Bench : Type 0 where
  left : ℕ
  regs : File

abbrev bench : Hw Bench
bench = record {
  read_reg =
      λ reg s. (if reg == fn_status then (if s.left == 0 then 0 else 0x41) else s.regs reg, s);
  write_reg = λ reg v s. record {
    left = if reg == fn_cmd && v == 2 then s.left - 1 else s.left;
    regs = (file.write_reg reg v s.regs);
  };
}

-- Two hellos that wait for their answers.
abbrev two_waiting : Bench
two_waiting = record { left = 2; regs = λ reg. if reg == in_msg_base then 0x81 else 0 }

abbrev start : PfState Post
start = record { sriov = table; status = good; hw = ([], []) }

unknown_taints_hello_example :
    let (on, s1) = process box port hw 0 0 2048 false (msg 12 false) start in
    (on ≡ true)
    × (process box port hw 0 0 2048 false (msg 1 true) s1
        ≡ after_send box port hw 0 0 2048 false
            (record start { sriov = hello 4 table; status = status_einval })
            (box.send (answer 0 status_einval (msg 1 true)) start.hw))
unknown_taints_hello_example =
    unknown_taints_hello box port hw 0 0 2048 (msg 12 false) (msg 1 true) start (omega arith) refl
      refl refl refl refl

-- The registers of a function whose mailbox is idle, and those of a receiver to which the device has
-- moved what stood in the sender's outgoing slot.
abbrev idle : File
idle reg = 0

abbrev moved : File → File
moved s reg =
    if reg == fn_status
    then 0x41
    else (if leb in_msg_base reg then s (out_msg_base + (reg - in_msg_base)) else 0)

moved-IsDelivered : (s : File) → IsDelivered 4 s (moved s)
moved-IsDelivered s = record {
  words = λ i l.
      let inside : leb in_msg_base (in_msg_base + 4 * i) ≡ true = ground arith in
      let other : (in_msg_base + 4 * i == fn_status) ≡ false = ground arith in
      let here : in_msg_base + 4 * i - in_msg_base ≡ 4 * i = omega arith in
      rw (other, inside, here) refl;
  full = refl;
  source = refl;
}

mbox_send-read_example :
    let (rv, s') = mbox_send file true (msg 1 true) idle in
    (rv ≡ ok 0)
    × ((mbox_read file false (moved s')).0
        ≡ ok (record (msg 1 true) { hdr = record ((msg 1 true).hdr) { sent = false } }))
mbox_send-read_example =
    mbox_send-read true (msg 1 true) idle (moved (mbox_send file true (msg 1 true) idle).1)
      (record { op = omega arith; src = omega arith; dst = omega arith; status = omega arith })
      (omega arith) refl (moved-IsDelivered (mbox_send file true (msg 1 true) idle).1)
