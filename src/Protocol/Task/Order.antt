-- ===== src/Protocol/Task/Order.antt =====
-- The order that Protocol::task keeps between a response, the boot loader jump and the next request.
use via_arduino.Base.{
  ◌⊎◌, inl, inr, Bool-cases, ℕ, ◌∙◌, sym, ◌≡◌, refl, arith, ap, true, false, not, ◌||◌, ◌==◌,
}
use via_arduino.Base.{some, ◌∷◌, if◌then◌else◌, either, optionally}
use via_arduino.Base.{get_or-set}
use via_arduino.Protocol.Board.{Board, State, bootloader_jump}
use via_arduino.Protocol.Valid.{IsPacket}
use via_arduino.Protocol.Persist.{save}
use via_arduino.Protocol.Persist.Frame.{save-frame}
use via_arduino.Protocol.Packet.{Packet, at, refuse, command_of}
use via_arduino.Protocol.Process.{process, has_callbacks, run_command}
use via_arduino.Protocol.Process.{prepare_jump}
use via_arduino.Protocol.Process.Buffers.{process-run_command}
use via_arduino.Protocol.Task.{Transport, Outcome, done, null_callbacks, task, poll_request}
use via_arduino.Protocol.Task.{flush_response, jump_when_sent, finish_task, auto_save}
use via_arduino.Protocol.Task.{accept_request}

refused-at : (p : Packet) → IsPacket p → at (refuse p) 0 ≡ 0xFF
refused-at p h = ground (arith, h.full, get_or-set p 0 0 0xFF)

module _ {S C : Type 0} (b : Board S C) where
  save-clean : (s : State S C) → (save b s).0 ≡ true → (save b s).1.dirty ≡ false
  save-clean s h = ap (λ (r : State S C). r.dirty) (save-frame b s) ∙ rw h refl

  prepare_jump-accepted :
      (p : Packet) (s : State S C)
      → IsPacket p
      → (at (prepare_jump b p s).0 0 == 0xFF) ≡ false
      → (b.config.bootloader_enabled ≡ true)
        × (has_callbacks b ≡ true)
        × ((prepare_jump b p s).1.dirty ≡ false)
  unfolding prepare_jump
  prepare_jump-accepted p s h accepted = ground (arith, refused-at p h, save-clean s)

  -- A "bootloader jump" packet of 32 bytes that is accepted needs the configuration to allow it and
  -- the board to have callbacks, and leaves nothing unsaved.
  pub process-jump_accepted :
      (now : ℕ) (p : Packet) (s : State S C)
      → IsPacket p
      → at p 0 ≡ 0x0B
      → (process b now p s).0 ≡ true
      → (b.config.bootloader_enabled ≡ true)
        × (has_callbacks b ≡ true)
        × ((process b now p s).2.dirty ≡ false)
  unfolding command_of run_command
  process-jump_accepted now p s h e accepted =
      let ran = process-run_command b now p s (ap command_of e) in
      let kept : not (at (prepare_jump b p s).0 0 == 0xFF) ≡ true =
        sym (ap (λ t. t.0) ran) ∙ accepted in
      let jump = prepare_jump-accepted p s h (ground (arith, kept)) in
      (jump.0, jump.1, ap (λ t. t.2.dirty) ran ∙ jump.2)

  -- What holds while a jump is pending: the board has callbacks and nothing is unsaved.
  abbrev pub Ready : State S C → Type 0
  Ready s = s.bootloader_pending ≡ true → (has_callbacks b ≡ true) × (s.dirty ≡ false)

  -- The same, as an alternative.
  abbrev pub Safe : State S C → Type 0
  Safe s = (s.bootloader_pending ≡ false) ⊎ ((has_callbacks b ≡ true) × (s.dirty ≡ false))

  Ready-Safe : (s : State S C) → Ready s → Safe s
  Ready-Safe s h = elim (Bool-cases s.bootloader_pending) [
    | inl pending ↦ inr (h pending)
    | inr none_pending ↦ inl none_pending
  ]

  pub Safe-Ready : (s : State S C) → Safe s → Ready s
  Safe-Ready s (inl e) pending = absurd (ground (arith, e, pending))
  Safe-Ready s (inr h) pending = h

  accept_request-Ready :
      (now : ℕ) (p : Packet) (s : State S C) → IsPacket p → Ready (accept_request b now p s)
  unfolding accept_request
  accept_request-Ready now p s h pending =
      let request : at p 0 ≡ 0x0B = ground arith in
      let accepted : (process b now p s).0 ≡ true = ground arith in
      let jump = process-jump_accepted now p s h request accepted in (jump.1, jump.2)

  pub auto_save-Ready : (now : ℕ) (s : State S C) → Ready s → Ready (auto_save b now s)
  unfolding auto_save
  auto_save-Ready now s h pending =
      let kept : (auto_save b now s).bootloader_pending ≡ s.bootloader_pending =
        ground (arith, ap (λ (r : State S C). r.bootloader_pending) (save-frame b s)) in
      let ready = h (sym kept ∙ pending) in (ready.0, ground (arith, ready.1))

  -- The run of task ends without a call through null, in a state with this property.
  abbrev pub EndsWith : {A : Type 0} → (A → Type 0) → Outcome A → Type 0
  EndsWith P null_callbacks = ⊥
  EndsWith P (done a) = P a

  module _ {T : Type 0} (t : Transport T) where
    poll_request-Ready :
        (now : ℕ) (s : State S C) (link : T)
        → ((p : Packet) → (t.receive link).0 ≡ some p → IsPacket p)
        → Ready s
        → Ready (poll_request b t now (s, link)).0
    unfolding poll_request
    poll_request-Ready now s link packets h =
        either (λ (r : State S C × T). Ready r.0) (s.response_pending || s.bootloader_pending)
          {x = (s, link)} h
          (optionally (λ (r : State S C × T). Ready r.0) (t.receive link).0
            {z = (s, (t.receive link).1)} h (λ p e. accept_request-Ready now p s (packets p e)))

    flush_response-Ready :
        (s : State S C) (link : T) → Ready s → Ready (flush_response b t (s, link)).0
    unfolding flush_response
    flush_response-Ready s link h = ground (arith, h)

    jump_when_sent-Ready :
        (s : State S C) (link : T)
        → Ready s
        → EndsWith (λ (r : State S C × T). Ready r.0) (jump_when_sent b t (s, link))
    unfolding jump_when_sent
    jump_when_sent-Ready s link h = ground (arith, h)

    finish_task-Ready :
        (now : ℕ) (o : Outcome (State S C × T))
        → EndsWith (λ (r : State S C × T). Ready r.0) o
        → EndsWith (λ (r : State S C × T). Ready r.0) (finish_task b t now o)
    unfolding finish_task
    finish_task-Ready now (done (s, link)) h = auto_save-Ready now s h
    finish_task-Ready now null_callbacks h = h

    task-Ready :
        (now : ℕ) (s : State S C) (link : T)
        → ((p : Packet) → (t.receive link).0 ≡ some p → IsPacket p)
        → Ready s
        → EndsWith (λ (r : State S C × T). Ready r.0) (task b t now (s, link))
    unfolding task
    task-Ready now s link packets h =
        let polled = poll_request b t now (s, link) in
        let flushed = flush_response b t polled in
        finish_task-Ready now (jump_when_sent b t flushed) (
          jump_when_sent-Ready flushed.0 flushed.1
            (flush_response-Ready polled.0 polled.1 (poll_request-Ready now s link packets h)))

    ends_safely :
        (o : Outcome (State S C × T))
        → EndsWith (λ (r : State S C × T). Ready r.0) o
        → EndsWith (λ (r : State S C × T). Safe r.0) o
    ends_safely (done (s, link)) h = Ready-Safe s h
    ends_safely null_callbacks h = h

    -- If the transport delivers packets of 32 bytes, and no jump is pending or else the board has
    -- callbacks and nothing is unsaved, then task ends without a call through a null Callbacks
    -- pointer, and the same holds after it.
    pub task-Safe :
        (now : ℕ) (s : State S C) (link : T)
        → ((p : Packet) → (t.receive link).0 ≡ some p → IsPacket p)
        → Safe s
        → EndsWith (λ (r : State S C × T). Safe r.0) (task b t now (s, link))
    task-Safe now s link packets h =
        ends_safely (task b t now (s, link)) (task-Ready now s link packets (Safe-Ready s h))

    -- A response that the transport does not take is kept and offered again: no request is taken
    -- and the boot loader is not entered; the only other effect is the automatic save.
    pub task-retry :
        (now : ℕ) (s : State S C) (link : T)
        → s.response_pending ≡ true
        → (t.send s.pending_response link).0 ≡ false
        → task b t now (s, link) ≡ done (auto_save b now s, (t.send s.pending_response link).1)
    unfolding task poll_request flush_response jump_when_sent finish_task
    task-retry now s link pending failed = ground (arith, pending, failed)

    -- With the response sent and nothing unsaved, on a board with callbacks, a pending jump waits for sendComplete and takes no request meanwhile;
    -- when it comes, bootloaderJump is called once and the jump is no longer pending.
    pub task-jump :
        (now : ℕ) (s : State S C) (link : T)
        → s.response_pending ≡ false
        → s.bootloader_pending ≡ true
        → s.dirty ≡ false
        → has_callbacks b ≡ true
        → task b t now (s, link)
          ≡ done (
            if (t.send_complete link).0
                then record s { bootloader_pending = false; events = bootloader_jump ∷ s.events }
                else s,
            (t.send_complete link).1,
          )
    unfolding task poll_request flush_response jump_when_sent finish_task auto_save
    task-jump now s link sent pending clean present = ground (arith, sent, pending, clean, present)
