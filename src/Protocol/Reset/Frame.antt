-- ===== src/Protocol/Reset/Frame.antt =====
-- What a factory reset that fails leaves alone.
use via_arduino.Base.{ℕ, ◌≡◌, arith, false, Option-cases, inl, inr}
use via_arduino.Protocol.Board.{Board, State, custom_size}
use via_arduino.Protocol.Config.{state_bytes}
use via_arduino.Protocol.Reset.{
  factory_reset, stage_custom, stage_defaults, reset_storage, finish_reset,
}

module _ {S C : Type 0} (b : Board S C) where
  stage_custom-frame :
      (n : ℕ) (s : State S C)
      → (stage_custom b n s).1 ≡ record s {
        load_buffer = (stage_custom b n s).1.load_buffer;
        custom = (stage_custom b n s).1.custom;
      }
  unfolding stage_custom
  stage_custom-frame n s = ground arith

  -- A factory reset that fails, wherever it stops, keeps the key map, the encoder map, the macros, the
  -- layout options, the dirty flag and the clock of the automatic save, and makes no callback; the
  -- staging buffer, the storage and the custom value may differ.
  pub failed_reset-frame :
      (s s' : State S C)
      → factory_reset b s ≡ (false, s')
      → s' ≡ record s { load_buffer = s'.load_buffer; custom = s'.custom; storage = s'.storage }
  unfolding factory_reset reset_storage finish_reset
  failed_reset-frame s s' h = elim (Option-cases s.storage) [
    | inl no_store ↦ ground (arith, h, no_store)
    | inr (store, here) ↦ elim (Option-cases (state_bytes b.config (custom_size b s))) [
      | inl none_sized ↦ ground (arith, h, here, none_sized)
      | inr (n, sized) ↦ ground (
        arith,
        h,
        here,
        sized,
        stage_custom-frame n (record s { load_buffer = stage_defaults b s.load_buffer }),
      )
    ]
  ]
