-- ===== src/Protocol/Task/Delivery.antt =====
-- The response that Protocol::task offers again: it reaches a transport that takes it in the end.
use via_arduino.Base.{ℕ, suc, zero, ◌≡◌, arith, ap, sym, ◌∙◌, true, false}
use mathlib.Core.Path.{subst}
use via_arduino.Protocol.Board.{Board, State}
use via_arduino.Protocol.Persist.Frame.{save-frame}
use via_arduino.Protocol.Packet.{Packet}
use via_arduino.Protocol.Task.{Transport, Outcome, done, null_callbacks, task, auto_save}
use via_arduino.Protocol.Task.{poll_request, flush_response, jump_when_sent, finish_task}
use via_arduino.Protocol.Task.Order.{Ready, Safe, EndsWith, task-retry, auto_save-Ready, Safe-Ready}

-- A transport that takes this packet once it has refused it `n` times.
pub data TakesAfter {T : Type 0} (t : Transport T) (p : Packet) : ℕ → T → Type 0 where
  takes : {link : T} → (t.send p link).0 ≡ true → TakesAfter t p zero link
  refuses :
      {n : ℕ} {link : T}
      → (t.send p link).0 ≡ false
      → TakesAfter t p n (t.send p link).1
      → TakesAfter t p (suc n) link

-- The next task runs where the last one ended.
unfoldable pub and_then : {A B : Type 0} → Outcome A → (A → Outcome B) → Outcome B
and_then (done a) next = next a
and_then null_callbacks next = null_callbacks

module _ {S C T : Type 0} (b : Board S C) (t : Transport T) where
  -- `n` calls of task, at the times that `clock` gives them.
  unfoldable pub run_tasks : ℕ → (ℕ → ℕ) → State S C × T → Outcome (State S C × T)
  run_tasks zero clock session = done session
  run_tasks (suc n) clock session =
      and_then (task b t (clock 0) session) (run_tasks n (λ k. clock (suc k)))

  auto_save-responses :
      (now : ℕ) (s : State S C)
      → ((auto_save b now s).response_pending ≡ s.response_pending)
        × ((auto_save b now s).pending_response ≡ s.pending_response)
  unfolding auto_save
  auto_save-responses now s = (
    ground (arith, ap (λ (r : State S C). r.response_pending) (save-frame b s)),
    ground (arith, ap (λ (r : State S C). r.pending_response) (save-frame b s)),
  )

  abbrev Sent : State S C × T → Type 0
  Sent (s, link) = s.response_pending ≡ false

  jump_when_sent-Sent :
      (s : State S C) (link : T)
      → s.response_pending ≡ false
      → Ready b s
      → EndsWith b Sent (jump_when_sent b t (s, link))
  unfolding jump_when_sent
  jump_when_sent-Sent s link sent h = ground (arith, sent, h)

  finish_task-Sent :
      (now : ℕ) (o : Outcome (State S C × T))
      → EndsWith b Sent o
      → EndsWith b Sent (finish_task b t now o)
  unfolding finish_task
  finish_task-Sent now (done (s, link)) h = (auto_save-responses now s).0 ∙ h
  finish_task-Sent now null_callbacks h = h

  flush_response-takes :
      (now : ℕ) (s : State S C) (link : T)
      → s.response_pending ≡ true
      → (t.send s.pending_response link).0 ≡ true
      → flush_response b t (poll_request b t now (s, link))
        ≡ (record s { response_pending = false }, (t.send s.pending_response link).1)
  unfolding flush_response poll_request
  flush_response-takes now s link pending taken = ground (arith, pending, taken)

  -- The task whose transport takes the response.
  task-takes :
      (now : ℕ) (s : State S C) (link : T)
      → s.response_pending ≡ true
      → (t.send s.pending_response link).0 ≡ true
      → Ready b s
      → EndsWith b Sent (task b t now (s, link))
  unfolding task
  task-takes now s link pending taken h =
      let flushed = flush_response b t (poll_request b t now (s, link)) in
      let same = flush_response-takes now s link pending taken in
      let ready : Ready b flushed.0 = subst (λ (r : State S C × T). Ready b r.0) (sym same) h in
      finish_task-Sent now (jump_when_sent b t flushed)
        (jump_when_sent-Sent flushed.0 flushed.1 (ap (λ r. r.0.response_pending) same) ready)

  and_then-Sent :
      (o : Outcome (State S C × T)) → EndsWith b Sent o → EndsWith b Sent (and_then o done)
  unfolding and_then
  and_then-Sent (done later) h = h
  and_then-Sent null_callbacks h = h

  run_tasks-Ready :
      (n : ℕ) (clock : ℕ → ℕ) (s : State S C) (link : T)
      → s.response_pending ≡ true
      → TakesAfter t s.pending_response n link
      → Ready b s
      → EndsWith b Sent (run_tasks (suc n) clock (s, link))
  unfolding run_tasks and_then
  run_tasks-Ready zero clock s link pending (takes taken) h =
      and_then-Sent (task b t (clock 0) (s, link)) (task-takes (clock 0) s link pending taken h)
  run_tasks-Ready (suc n) clock s link pending (refuses refused taken) h =
      let s' = auto_save b (clock 0) s in
      let (pends, same) = auto_save-responses (clock 0) s in
      let link' = (t.send s.pending_response link).1 in
      let later : TakesAfter t s'.pending_response n link' =
        subst (λ p. TakesAfter t p n link') (sym same) taken in
      rw (task-retry b t (clock 0) s link pending refused) (
        run_tasks-Ready n (λ k. clock (suc k)) s' link' (pends ∙ pending) later
          (auto_save-Ready b (clock 0) s h))

  -- Whatever response is pending, if the transport takes it once it has refused it `n` times, and
  -- no jump is pending or else the board has callbacks and nothing is unsaved, then `n + 1` calls
  -- of task, at any times, end without a call through a null Callbacks pointer, and the response
  -- is then no longer pending.
  pub run_tasks-TakesAfter :
      (n : ℕ) (clock : ℕ → ℕ) (s : State S C) (link : T)
      → s.response_pending ≡ true
      → TakesAfter t s.pending_response n link
      → Safe b s
      → EndsWith b Sent (run_tasks (suc n) clock (s, link))
  run_tasks-TakesAfter n clock s link pending taken safe =
      run_tasks-Ready n clock s link pending taken (Safe-Ready b s safe)
