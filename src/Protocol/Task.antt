-- ===== src/Protocol/Task.antt =====
-- Protocol::begin and Protocol::task of src/VIA_Protocol.cpp, over a Transport.
pub mod Order
pub mod Saving
pub mod Delivery
pub mod Start
pub mod Started
use via_arduino.Base.{ℕ, ◌+◌, ◌^◌, Bool, true, false, not, ◌&&◌, ◌||◌, Option, none, some, ◌∷◌}
use via_arduino.Base.{ltb, ◌==◌, if◌then◌else◌, u32, sub32}
use via_arduino.Protocol.Config.{Config, state_bytes, load_buffer_valid}
use via_arduino.Protocol.Board.{Board, State, bootloader_jump, layout_options_changed}
use via_arduino.Protocol.Board.{notify, custom_size}
use via_arduino.Protocol.Keymap.{reset_buffers}
use via_arduino.Protocol.Persist.{save, load}
use via_arduino.Protocol.Packet.{Packet, at}
use via_arduino.Protocol.Process.{process}

-- class Transport: each call may change it.
pub record Transport (T : Type 0) : Type 0 where
  pub receive : T → Option Packet × T
  pub send : Packet → T → Bool × T
  pub send_complete : T → Bool × T

-- The arrays that begin() insists on.
unfoldable pub config_complete : Config → Bool
config_complete c =
    not (c.rows == 0)
    && (not (c.columns == 0)
        && (not (c.layers == 0)
            && (not (c.keymap_at == 0)
                && (not (c.default_keymap_at == 0)
                    && ((c.macro_bytes == 0 || not (c.macros_at == 0))
                        && (c.encoder_count == 0
                            || (not (c.encoder_map_at == 0)
                                && not (c.default_encoder_map_at == 0))))))))

-- How task() ends. `null_callbacks` is the call through a null Callbacks pointer.
pub data Outcome (A : Type 0) : Type 0 where
  done : A → Outcome A
  null_callbacks : Outcome A

module _ {S C : Type 0} (b : Board S C) where
  unfoldable pub has_storage : State S C → Bool
  has_storage s = elim s.storage [ none ↦ false | some _ ↦ true ]

  -- load(), or else the defaults, and the autosave clock.
  unfoldable pub start : ℕ → State S C → State S C
  start now s =
      let (loaded, s') = load b s in
      let fresh = reset_buffers b s' in
      let s'' =
        if loaded then s' else notify b (layout_options_changed fresh.layout_options) fresh in
      record s'' { dirty = false; save_at = u32 (now + b.config.auto_save_ms) }

  unfoldable pub begin : ℕ → State S C → Bool × State S C
  unfolding has_storage start
  begin now s =
      if not (config_complete b.config)
      then (false, s)
      else (elim (state_bytes b.config (custom_size b s)) [
        | none ↦ (false, s)
        | some bytes ↦
            if has_storage s && not (load_buffer_valid b.config bytes)
            then (false, s)
            else (true, start now s)
      ])

  -- A packet taken from the transport is processed and becomes the pending response.
  unfoldable pub accept_request : ℕ → Packet → State S C → State S C
  accept_request now p s =
      let bootloader_request = at p 0 == 0x0B && b.config.bootloader_enabled in
      let (processed, response, s') = process b now p s in
      record s' {
        pending_response = response;
        response_pending = true;
        bootloader_pending = bootloader_request && processed;
      }

  -- static_cast<int32_t>(nowMs - saveAt_) >= 0
  abbrev pub save_is_due : ℕ → State S C → Bool
  save_is_due now s = ltb (sub32 now s.save_at) (2 ^ 31)

  unfoldable pub auto_save : ℕ → State S C → State S C
  auto_save now s = let (_, s') = save b s in if s.dirty && save_is_due now s then s' else s

  module _ {T : Type 0} (t : Transport T) where
    unfoldable pub poll_request : ℕ → State S C × T → State S C × T
    poll_request now (s, link) =
        let (request, link') = t.receive link in
        if s.response_pending || s.bootloader_pending
        then (s, link)
        else (elim request [ none ↦ (s, link') | some p ↦ (accept_request now p s, link') ])

    unfoldable pub flush_response : State S C × T → State S C × T
    flush_response (s, link) =
        let (sent, link') = t.send s.pending_response link in
        if s.response_pending
        then (if sent then record s { response_pending = false } else s, link')
        else (s, link)

    unfoldable pub jump_when_sent : State S C × T → Outcome (State S C × T)
    jump_when_sent (s, link) =
        let (complete, link') = t.send_complete link in
        let s' = record s { bootloader_pending = false } in
        if not s.response_pending && s.bootloader_pending
        then (if complete
            then (elim b.matrix_row [
              | none ↦ null_callbacks
              | some _ ↦ done (record s' { events = bootloader_jump ∷ s.events }, link')
            ])
            else done (s, link'))
        else done (s, link)

    finish_task : ℕ → Outcome (State S C × T) → Outcome (State S C × T)
    finish_task now null_callbacks = null_callbacks
    finish_task now (done (s, link)) = done (auto_save now s, link)

    unfoldable pub task : ℕ → State S C × T → Outcome (State S C × T)
    unfolding poll_request flush_response jump_when_sent finish_task
    task now session = finish_task now (jump_when_sent (flush_response (poll_request now session)))
