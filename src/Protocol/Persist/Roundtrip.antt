-- ===== src/Protocol/Persist/Roundtrip.antt =====
-- Protocol::save and Protocol::load are inverse over a storage that keeps bytes.
use via_arduino.Base.{ℕ, ◌≡◌, arith, ap, ◌∙◌, sym, List, length, true, false}
use via_arduino.Base.{Option-cases, inl, inr, some, ◌==◌}
use via_arduino.Protocol.Config.{state_bytes, load_buffer_valid, required_load_buffer_size}
use via_arduino.Protocol.Board.{Board, State, custom_size}
use via_arduino.Protocol.Contract.{IsStorage, IsPersistent}
use via_arduino.Protocol.Sizes.{IsConfig}
use via_arduino.Protocol.Valid.{IsValid}
use via_arduino.Protocol.Persist.{custom_image, load, save}
use via_arduino.Protocol.Persist.Record.{nil_of_length}
use via_arduino.Protocol.Persist.Saved.{active, active-Fits, save-Saved}
use via_arduino.Protocol.Persist.Saved.{length-custom_image}
use via_arduino.Protocol.Persist.Loaded.{Takes, load-Restored}

module _ {S C : Type 0} (b : Board S C) (Usable : S → Type 0) (contents : S → List ℕ)
    (law : IsStorage b.storage_ops Usable contents) (persistent : IsPersistent b.custom_ops)
    (fits : IsConfig b.config) where
  -- What one protocol's custom value saved, that of another of the same size takes.
  pub saved-Takes :
      (s t : State S C) (tail : List ℕ)
      → custom_image b s ≡ some tail
      → custom_size b t ≡ custom_size b s
      → Takes b t.custom tail
  unfolding custom_image
  saved-Takes s t tail imaged same = elim (Option-cases t.custom) [
    | inl z ↦ rw z (nil_of_length tail (ground (arith, sized)))
    | inr (d, z) ↦
        let all : Takes b (some d) tail = (ground (arith, sized), λ kept. loads d z kept) in
        rw z all
  ]
    where
      sized : length tail ≡ custom_size b s
      sized = length-custom_image b Usable contents law persistent fits s tail imaged

      loads :
          (d : C)
          → t.custom ≡ some d
          → (b.custom_ops.state_size d == 0) ≡ false
          → (b.custom_ops.validate_state d tail (b.custom_ops.state_size d) ≡ true)
            × ((b.custom_ops.load_state d tail (b.custom_ops.state_size d)).0 ≡ true)
            × (b.custom_ops.save_state
                  (b.custom_ops.load_state d tail (b.custom_ops.state_size d)).1
                  (b.custom_ops.state_size d)
                ≡ some tail)
      loads d z kept = elim (Option-cases s.custom) [
        | inl w ↦ absurd (ground arith)
        | inr (c, w) ↦
            let equal : b.custom_ops.state_size d ≡ b.custom_ops.state_size c = ground arith in
            let kept_by : b.custom_ops.save_state c (b.custom_ops.state_size c) ≡ some tail =
              ground arith in
            let loaded = persistent.saved_loads c d equal kept_by in
            (persistent.saved_valid c d equal kept_by, loaded.0, loaded.1)
      ]

  -- Over a storage and a custom value that keep their documented contracts: after a successful save,
  -- a load by a protocol of the same board on that storage, with a custom state of the same size and a
  -- usable load buffer, succeeds and restores the key map, the encoder map, the macros, the layout
  -- options and the custom state of the one that saved, and leaves nothing unsaved.
  pub save-load :
      (s s' t : State S C)
      → IsValid b.config s
      → IsValid b.config t
      → ((store : S) → s.storage ≡ some store → Usable store)
      → save b s ≡ (true, s')
      → t.storage ≡ s'.storage
      → custom_size b t ≡ custom_size b s
      → load_buffer_valid b.config (required_load_buffer_size b.config (custom_size b t)) ≡ true
      → ((load b t).0 ≡ true)
        × ((load b t).1.keymap ≡ s.keymap)
        × ((load b t).1.encoder_map ≡ s.encoder_map)
        × ((load b t).1.macros ≡ s.macros)
        × ((load b t).1.layout_options ≡ s.layout_options)
        × (custom_image b (load b t).1 ≡ custom_image b s)
        × ((load b t).1.dirty ≡ false)
  unfolding required_load_buffer_size
  save-load s s' t v w usable saved shared same room =
      let k = save-Saved b Usable contents law persistent fits s s' v usable saved in
      let stored : t.storage ≡ some k.store = shared ∙ ap (λ r. r.storage) k.result in
      let sized : state_bytes b.config (custom_size b t) ≡ some k.bytes = rw same k.sized in
      let r =
        load-Restored b persistent (active s) (active-Fits b.config s v) k.custom_bytes k.bytes
          k.recorded.size Usable contents law t k.store w k.recorded stored sized
          (rw (sized, required_load_buffer_size) at room)
          (saved-Takes s t k.custom_bytes k.imaged same) in
      (
        r.0,
        r.1.keys_back,
        r.1.encoders_back,
        r.1.macros_back,
        r.1.options_back,
        r.1.custom_back ∙ sym k.imaged,
        r.1.clean,
      )
