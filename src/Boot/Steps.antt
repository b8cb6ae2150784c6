-- ===== src/Boot/Steps.antt =====
-- The boot loader is entered only after a request and after a save, whatever the protocol that it
-- shares does meanwhile.
use mathlib.Core.Path.{subst}
use via_arduino.Base.{◌≡◌, arith, ap, sym, ℕ, Bool, true, false, Bool-cases, inl, inr}
use via_arduino.Protocol.Task.{Transport, done}
use via_arduino.Protocol.Task.{task as run_protocol}
use via_arduino.Keyboard.{KeyboardHid}
use via_arduino.Protocol.Board.{Board, State}
use via_arduino.Protocol.Persist.Frame.{save-frame}
use via_arduino.Boot.{
  save_step, release_step, BootState, Coordinator, request, task, idle, keyboard_release,
  via_release, detach, jump, entered,
}

-- Past the save.
abbrev pub is_past_save : BootState → Bool
is_past_save keyboard_release = true
is_past_save via_release = true
is_past_save detach = true
is_past_save jump = true
is_past_save entered = true
is_past_save _ = false

module _ {S C T : Type 0} (b : Board S C) (t : Transport T) where
  -- One call of Protocol::task, at some time and over some state of its transport.
  pub record ProtocolStep (p p' : State S C) : Type 0 where
    pub now : ℕ
    pub link : T
    pub link' : T
    pub runs : run_protocol b t now (p, link) ≡ done (p', link')

  -- Only tasks of the protocol lie between the two.
  pub data Since (p : State S C) : State S C → Type 0 where
    at_once : Since p p
    then_task : (q r : State S C) → Since p q → ProtocolStep q r → Since p r

module _ {S C H T : Type 0} (b : Board S C) (hid : KeyboardHid H) (t : Transport T) where
  -- The runs from one state of a coordinator and of the protocol that it shares with the main loop:
  -- requests, tasks of the coordinator and tasks of the protocol in any order.
  pub data Reaches (start : Coordinator S C H) : Coordinator S C H → Type 0 where
    here : Reaches start start
    after_request : (s : Coordinator S C H) → Reaches start s → Reaches start (request s).1
    after_task : (s : Coordinator S C H) → Reaches start s → Reaches start (task b hid s)
    after_protocol :
        (s : Coordinator S C H) (p : State S C)
        → Reaches start s
        → ProtocolStep b t s.protocol p
        → Reaches start (record s { protocol = p })

  -- The run passed the save step with nothing unsaved, and since then only the protocol's own tasks
  -- changed the protocol.
  pub record PassedSave (start s : Coordinator S C H) : Type 0 where
    pub saved : Coordinator S C H
    pub passed : Reaches start saved
    pub just_saved : saved.boot_state ≡ keyboard_release
    pub nothing_unsaved : saved.protocol.dirty ≡ false
    pub since : Since b t saved.protocol s.protocol

  request-past :
      (s : Coordinator S C H)
      → is_past_save (request s).1.boot_state ≡ true
      → (is_past_save s.boot_state ≡ true) × ((request s).1.protocol ≡ s.protocol)
  unfolding request
  request-past s past = ground (arith, past)

  task-past :
      (s : Coordinator S C H)
      → is_past_save s.boot_state ≡ true
      → (task b hid s).protocol ≡ s.protocol
  unfolding task save_step release_step
  task-past s past = ground (arith, past)

  task-saves :
      (s : Coordinator S C H)
      → is_past_save s.boot_state ≡ false
      → is_past_save (task b hid s).boot_state ≡ true
      → ((task b hid s).boot_state ≡ keyboard_release) × ((task b hid s).protocol.dirty ≡ false)
  unfolding task save_step release_step
  task-saves s before past =
      ground (arith, before, past, ap (λ (p : State S C). p.dirty) (save-frame b s.protocol))

  PassedSave-same :
      {start s s' : Coordinator S C H}
      → s'.protocol ≡ s.protocol
      → PassedSave start s
      → PassedSave start s'
  PassedSave-same e h = record {
    saved = h.saved;
    passed = h.passed;
    just_saved = h.just_saved;
    nothing_unsaved = h.nothing_unsaved;
    since = subst (Since b t h.saved.protocol) (sym e) h.since;
  }

  -- In any run of requests, tasks of the coordinator and tasks of the protocol that it shares, from
  -- an idle coordinator: past the save, and so also when the system boot loader is entered, the run
  -- has passed a save step that left nothing unsaved, and since then the coordinator has not touched
  -- the protocol, so that what is unsaved now came with a later task of the protocol.
  pub Reaches-PassedSave :
      {start s : Coordinator S C H}
      → start.boot_state ≡ idle
      → Reaches start s
      → is_past_save s.boot_state ≡ true
      → PassedSave start s
  Reaches-PassedSave idled here past = absurd (ground (arith, idled, past))
  Reaches-PassedSave idled (after_request s run) past =
      let (before, same) = request-past s past in
      PassedSave-same same (Reaches-PassedSave idled run before)
  Reaches-PassedSave idled (after_protocol s p run step) past =
      let h = Reaches-PassedSave idled run past in
      record {
        saved = h.saved;
        passed = h.passed;
        just_saved = h.just_saved;
        nothing_unsaved = h.nothing_unsaved;
        since = Since.then_task s.protocol p h.since step;
      }
  Reaches-PassedSave idled (after_task s run) past = elim (Bool-cases (is_past_save s.boot_state)) [
    | inl before ↦ PassedSave-same (task-past s before) (Reaches-PassedSave idled run before)
    | inr not_yet ↦
        let (state, clean) = task-saves s not_yet past in
        record {
          saved = task b hid s;
          passed = Reaches.after_task s run;
          just_saved = state;
          nothing_unsaved = clean;
          since = Since.at_once;
        }
  ]
