-- ===== src/Control/Phases.antt =====
-- The phases of a queue, and what each operation's body makes of them.
use qdmav.Prelude.{
  ℕ, ◌≡◌, ◌⊎◌, inl, inr, refl, sym, ◌∙◌, arith, Bool, true, false, if◌then◌else◌, Bool-cases,
}
use qdmav.Prelude.Errors.{Error, einval, invalid_descq_state, Result, ok, err}
use qdmav.Descq.{QueueConf, Descq}
use qdmav.Device.{Qdev}
use qdmav.Lifecycle.Resources.{Memory, qdma_descq_free_resource}
use qdmav.Control.{Driver, said}

pub data Phase : Type 0 where
  unused configured started : Phase

unfoldable pub phase : Descq → Phase
phase q = if q.enabled then (if q.inited then started else configured) else unused

-- A queue is online, and has a ring, exactly while it is started.
pub record IsSound (q : Descq) : Type 0 where
  pub enabled : q.inited ≡ true → q.enabled ≡ true
  pub online : q.online ≡ q.inited
  pub desc : q.has_desc ≡ q.inited
  pub desc_wrb : q.inited ≡ false → q.has_desc_wrb ≡ false

pub data Op : Type 0 where
  config : ℕ → QueueConf → Op
  reconfig : ℕ → QueueConf → Op
  start : ℕ → Memory → Bool → Op
  stop : ℕ → Bool → Op
  remove : ℕ → Op

-- The abstract machine: an operation, its result, and a queue's phases before and after.
pub data Move : Op → Result ℕ → Phase → Phase → Type 0 where
  configures : {id : ℕ} {qconf : QueueConf} → Move (config id qconf) (ok 0) unused configured
  config_twice :
      {id : ℕ} {qconf : QueueConf} → Move (config id qconf) (err einval) configured configured
  config_started :
      {id : ℕ} {qconf : QueueConf} → Move (config id qconf) (err einval) started started
  reconfigures :
      {id : ℕ} {qconf : QueueConf} → Move (reconfig id qconf) (ok 0) configured configured
  reconfig_started :
      {id : ℕ} {qconf : QueueConf}
      → Move (reconfig id qconf) (err invalid_descq_state) started started
  starts :
      {id : ℕ} {mem : Memory} {cut : Bool} {rv : Result ℕ}
      → rv ≡ said cut
      → Move (start id mem cut) rv configured started
  start_fails :
      {id : ℕ} {mem : Memory} {cut : Bool} {e : Error}
      → Move (start id mem cut) (err e) configured configured
  start_twice :
      {id : ℕ} {mem : Memory} {cut : Bool}
      → Move (start id mem cut) (err invalid_descq_state) started started
  stops :
      {id : ℕ} {cut : Bool} {rv : Result ℕ}
      → rv ≡ said cut
      → Move (stop id cut) rv started configured
  stop_idle :
      {id : ℕ} {cut : Bool} {rv : Result ℕ}
      → rv ≡ said cut
      → Move (stop id cut) rv configured configured
  removes : {id : ℕ} → Move (remove id) (ok 0) configured unused
  removes_started : {id : ℕ} → Move (remove id) (ok 0) started unused

pub phase-unused : (q : Descq) → q.enabled ≡ false → phase q ≡ unused
unfolding phase
phase-unused q h = rw h refl

pub phase-configured : (q : Descq) → q.enabled ≡ true → q.inited ≡ false → phase q ≡ configured
unfolding phase
phase-configured q h i = rw (h, i) refl

pub phase-started : (q : Descq) → q.enabled ≡ true → q.inited ≡ true → phase q ≡ started
unfolding phase
phase-started q h i = rw (h, i) refl

-- The flags of a queue that is not started, and of one that is.
pub record IsIdle (q : Descq) : Type 0 where
  pub inited : q.inited ≡ false
  pub online : q.online ≡ false
  pub desc : q.has_desc ≡ false
  pub desc_wrb : q.has_desc_wrb ≡ false

pub record IsRunning (q : Descq) : Type 0 where
  pub enabled : q.enabled ≡ true
  pub inited : q.inited ≡ true
  pub online : q.online ≡ true
  pub desc : q.has_desc ≡ true

pub IsIdle-IsSound : (q : Descq) → IsIdle q → IsSound q
IsIdle-IsSound q i = record {
  enabled = λ h. absurd (no (sym h ∙ i.inited));
  online = i.online ∙ sym i.inited;
  desc = i.desc ∙ sym i.inited;
  desc_wrb = λ h. i.desc_wrb;
}
  where
    no : ¬ (true ≡ false)
    no h = cc

pub IsRunning-IsSound : (q : Descq) → IsRunning q → IsSound q
IsRunning-IsSound q r = record {
  enabled = λ h. r.enabled;
  online = r.online ∙ sym r.inited;
  desc = r.desc ∙ sym r.inited;
  desc_wrb = λ h. absurd (no (sym r.inited ∙ h));
}
  where
    no : ¬ (true ≡ false)
    no h = cc

pub IsSound-cases : (q : Descq) → IsSound q → IsIdle q ⊎ IsRunning q
IsSound-cases q s = elim (Bool-cases q.inited) [
  | inl i ↦
      inr (record { enabled = s.enabled i; inited = i; online = s.online ∙ i; desc = s.desc ∙ i })
  | inr i ↦
      inl (record { inited = i; online = s.online ∙ i; desc = s.desc ∙ i; desc_wrb = s.desc_wrb i })
]

-- What an operation leaves of the device's queues, but for its own.
pub record SameQueues (d d' : Qdev) : Type 0 where
  pub qmax : d'.qmax ≡ d.qmax
  pub h2c : d'.h2c_descq ≡ d.h2c_descq
  pub c2h : d'.c2h_descq ≡ d.c2h_descq

abbrev pub Moved {ℓ} : {S : Type ℓ} → Op → Descq → Driver S → Result ℕ × Descq × Driver S → Type 0
Moved op q d (rv, q', d') =
    IsSound q' × Move op rv (phase q) (phase q') × SameQueues d.xdev.qdev d'.xdev.qdev

free_resource-eq :
    (q : Descq)
    → let q' = qdma_descq_free_resource q in
      (q'.has_desc ≡ false)
      × (q'.has_desc_wrb ≡ false)
      × (q'.enabled ≡ q.enabled)
      × (q'.inited ≡ q.inited)
      × (q'.online ≡ q.online)
      × (q'.conf ≡ q.conf)
unfolding qdma_descq_free_resource
free_resource-eq q =
    (ground arith, ground arith, ground arith, ground arith, ground arith, ground arith)
