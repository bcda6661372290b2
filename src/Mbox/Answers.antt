-- ===== src/Mbox/Answers.antt =====
-- Which messages the physical function answers, and to whom: `qdma_mbox_proc` of libqdma/qdma_mbox.c on
-- the device's registers.
use qdmav.Prelude.{Option, ℕ, ◌≡◌, Bool, true, false, some}
use qdmav.Prelude.Errors.{Error, Result, ok, err}
use qdmav.Hw.{Hw}
use qdmav.Context.{hw_port}
use qdmav.Sriov.{Sriov}
use qdmav.Mbox.{MboxMsg, PfState, Handled, handle, good, process, go_on, mbox_from}
use qdmav.Mbox.Transport.{mbox_read, mbox_send, hw_mailbox}
use qdmav.Mbox.Mail.{IsMail}

-- An answer to the function that sent `m`, with its operation.
pub record IsAnswer (func_id : ℕ) (m a : MboxMsg) : Type 0 where
  pub op : a.hdr.op ≡ m.hdr.op
  pub to_sender : a.hdr.dst ≡ m.hdr.src
  pub from_here : a.hdr.src ≡ func_id
  pub is_ack : a.hdr.ack ≡ true

-- The status that goes with a result: a failure is never reported as good.
abbrev pub Tells : Result ℕ → ℕ → ℕ → Type 0
Tells (ok n) before status = status ≡ before
Tells (err e) before status = ¬ (status ≡ good)

module _ {ℓ} {S : Type ℓ} (hw : Hw S) (func_id qsets_base qsets_max : ℕ) where
  abbrev outcome_of : MboxMsg → PfState S → Handled S
  outcome_of = handle (hw_port hw) hw qsets_base qsets_max

  -- What becomes of the messages: each is read once; an acknowledgement is dropped, and a request is
  -- handled; where its sender waits one answer is sent. It ends when no message can be read, or
  -- when an answer cannot be sent.
  pub data Served : PfState S → PfState S → Type ℓ where
    none_left :
        {s : PfState S} {e : Error} {t : S}
        → mbox_read hw false s.hw ≡ (err e, t)
        → Served s (record s { hw = t })
    acked :
        {s s' : PfState S} {m : MboxMsg} {t : S}
        → mbox_read hw false s.hw ≡ (ok m, t)
        → m.hdr.ack ≡ true
        → Served (record s { hw = t }) s'
        → Served s s'
    silent :
        {s s' : PfState S} {m : MboxMsg} {t : S}
        → mbox_read hw false s.hw ≡ (ok m, t)
        → m.hdr.ack ≡ false
        → m.hdr.wait ≡ false
        → Served (outcome_of m (record s { hw = t })).2 s'
        → Served s s'
    answered :
        {s s1 s' : PfState S} {m m' a : MboxMsg} {t u : S} {n : ℕ} {rv : Result ℕ}
        → mbox_read hw false s.hw ≡ (ok m, t)
        → m.hdr.ack ≡ false
        → m.hdr.wait ≡ true
        → outcome_of m (record s { hw = t }) ≡ (rv, m', s1)
        → IsAnswer func_id m a
        → Tells rv s1.status a.hdr.status
        → a.body ≡ m'.body
        → mbox_send hw true a s1.hw ≡ (ok n, u)
        → Served (record s1 { status = a.hdr.status; hw = u }) s'
        → Served s s'
    stuck :
        {s s1 : PfState S} {m m' a : MboxMsg} {t u : S} {e : Error} {rv : Result ℕ}
        → mbox_read hw false s.hw ≡ (ok m, t)
        → m.hdr.ack ≡ false
        → m.hdr.wait ≡ true
        → outcome_of m (record s { hw = t }) ≡ (rv, m', s1)
        → IsAnswer func_id m a
        → Tells rv s1.status a.hdr.status
        → a.body ≡ m'.body
        → mbox_send hw true a s1.hw ≡ (err e, u)
        → Served s (record s1 { status = a.hdr.status; hw = u })

  -- One message, by what it is.
  abbrev processed : MboxMsg → PfState S → Bool × PfState S
  processed = process (hw_mailbox hw) (hw_port hw) hw func_id qsets_base qsets_max false

  -- Whether the loop goes on, and the state after an answer was sent.
  abbrev told : PfState S → ℕ → Result ℕ × S → Bool × PfState S
  told s1 status (ok n, u) = (true, record s1 { status = status; hw = u })
  told s1 status (err x, u) = (false, record s1 { status = status; hw = u })

  module _ (waiting : S → ℕ) (mail : IsMail hw waiting) where
    abbrev Rounds : ℕ → PfState S → Type ℓ
    Rounds fuel s =
        (s' : PfState S) × (mbox_from (hw_mailbox hw) (hw_port hw) hw func_id qsets_base qsets_max
            false fuel s
          ≡ some s')
        × Served s s'

    abbrev AfterRead : ℕ → PfState S → MboxMsg → S → Type ℓ
    AfterRead fuel s m t =
        (s' : PfState S) × (go_on (hw_mailbox hw) (hw_port hw) hw func_id qsets_base qsets_max false
            (mbox_from (hw_mailbox hw) (hw_port hw) hw func_id qsets_base qsets_max false fuel)
            (process (hw_mailbox hw) (hw_port hw) hw func_id qsets_base qsets_max false m
              (record s { hw = t }))
          ≡ some s')
        × Served s s'

    abbrev went_on : ℕ → Bool × PfState S → Option (PfState S)
    went_on fuel =
        go_on (hw_mailbox hw) (hw_port hw) hw func_id qsets_base qsets_max false
          (mbox_from (hw_mailbox hw) (hw_port hw) hw func_id qsets_base qsets_max false fuel)
