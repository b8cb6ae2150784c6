-- ===== src/Protocol/Reset/Roundtrip.antt =====
-- Protocol::factoryReset, then Protocol::load.
use mathlib.Core.Option
use via_arduino.Base.{ℕ, ◌≡◌, ◌∙◌, sym, List, true, false, some, replicate}
use via_arduino.Protocol.Config.{state_bytes, load_buffer_valid, required_load_buffer_size}
use via_arduino.Protocol.Board.{Board, State, custom_size}
use via_arduino.Protocol.Contract.{IsStorage, IsPersistent}
use via_arduino.Protocol.Sizes.{IsConfig}
use via_arduino.Protocol.Valid.{IsValid, IsDefaults}
use via_arduino.Protocol.Persist.{custom_image, load}
use via_arduino.Protocol.Persist.Loaded.{load-Restored}
use via_arduino.Protocol.Persist.Roundtrip.{saved-Takes}
use via_arduino.Protocol.Reset.{factory_reset}
use via_arduino.Protocol.Reset.Staged.{defaults, defaults-Fits}
use via_arduino.Protocol.Reset.Finish.{custom_size-reset}
use via_arduino.Protocol.Reset.Restores.{factory_reset-Fresh}

module _ {S C : Type 0} (b : Board S C) (Usable : S → Type 0) (contents : S → List ℕ)
    (law : IsStorage b.storage_ops Usable contents) (persistent : IsPersistent b.custom_ops)
    (fits : IsConfig b.config) (d : IsDefaults b.config) where
  -- Over a storage and a custom value that keep their documented contracts, a configuration whose
  -- default arrays have its sizes, and a custom value whose reset keeps its state size and saves
  -- `tail`: after a successful factory reset the key map and the encoder map are the defaults, the
  -- macros are zeros, the layout options are the default ones, the custom value saves `tail` and
  -- nothing is unsaved; and a load by a protocol of the same board on that storage, with a custom
  -- state of the same size and a usable load buffer, succeeds and leaves the same.
  pub factory_reset-load :
      (tail : List ℕ) (s s' t : State S C)
      → IsValid b.config s
      → IsValid b.config t
      → ((store : S) → s.storage ≡ some store → Usable store)
      → ((c : C) → b.custom_ops.state_size (b.custom_ops.reset_value c) ≡ b.custom_ops.state_size c)
      → custom_image b (record s { custom = Option.map b.custom_ops.reset_value s.custom })
        ≡ some tail
      → factory_reset b s ≡ (true, s')
      → t.storage ≡ s'.storage
      → custom_size b t ≡ custom_size b s
      → load_buffer_valid b.config (required_load_buffer_size b.config (custom_size b t)) ≡ true
      → ((s'.keymap ≡ b.config.default_keymap)
          × (s'.encoder_map ≡ b.config.default_encoder_map)
          × (s'.macros ≡ replicate b.config.macro_bytes 0)
          × (s'.layout_options ≡ b.config.default_layout_options)
          × (custom_image b s' ≡ some tail)
          × (s'.dirty ≡ false))
        × ((load b t).0 ≡ true)
        × ((load b t).1.keymap ≡ s'.keymap)
        × ((load b t).1.encoder_map ≡ s'.encoder_map)
        × ((load b t).1.macros ≡ s'.macros)
        × ((load b t).1.layout_options ≡ s'.layout_options)
        × (custom_image b (load b t).1 ≡ some tail)
        × ((load b t).1.dirty ≡ false)
  unfolding required_load_buffer_size
  factory_reset-load tail s s' t v w usable keeps saves done shared same room =
      let (bytes, sized, fresh) =
        factory_reset-Fresh b Usable contents law persistent fits d tail s s' v usable keeps saves
          done in
      let size : state_bytes b.config (custom_size b t) ≡ some bytes = rw same sized in
      let own = fresh.restored in
      let back =
        load-Restored b persistent (defaults b.config) (defaults-Fits b.config fits d) tail bytes
          fresh.recorded.size Usable contents law t fresh.store w fresh.recorded
          (shared ∙ fresh.stored) size (rw (size, required_load_buffer_size) at room)
          (saved-Takes b Usable contents law persistent fits _ t tail saves
            (same ∙ sym (custom_size-reset b Usable contents law persistent fits d s keeps))) in
      (
        (
          own.keys_back, own.encoders_back, own.macros_back, own.options_back, own.custom_back,
          own.clean,
        ),
        back.0,
        back.1.keys_back ∙ sym own.keys_back,
        back.1.encoders_back ∙ sym own.encoders_back,
        back.1.macros_back ∙ sym own.macros_back,
        back.1.options_back ∙ sym own.options_back,
        back.1.custom_back,
        back.1.clean,
      )
