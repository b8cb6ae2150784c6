-- ===== src/Protocol/Task/Started.antt =====
-- What Protocol::begin starts with: the stored state, or else the defaults.
use via_arduino.Base.{
  ℕ, ◌+◌, ◌/◌, ◌≡◌, refl, arith, ap, sym, ◌∙◌, true, false, not, ◌&&◌, Option-cases, Bool-cases,
  inl, inr, ◌⊎◌,
}
use via_arduino.Base.{
  List, length, take-all, replicate, length-replicate, splice-all, u32, none, some, if◌then◌else◌,
  ◌==◌,
}
use mathlib.Core.Option
use via_arduino.Protocol.Config.{key_count, encoder_map_bytes, state_bytes, load_buffer_valid}
use via_arduino.Protocol.Board.{Board, State, custom_size, layout_options_changed, notify}
use via_arduino.Protocol.Valid.{IsValid, IsDefaults}
use via_arduino.Protocol.Keymap.{reset_buffers, reset_keymaps, reset_macros}
use via_arduino.Protocol.Persist.{load}
use via_arduino.Protocol.Persist.Frame.{failed_load-frame}
use via_arduino.Protocol.Persist.Publish.{copy_unless}
use via_arduino.Base.{splice}
use via_arduino.Protocol.Task.{begin, start, has_storage, config_complete}

module _ {S C : Type 0} (b : Board S C) where
  -- The arrays, the options, the custom value and the callbacks are those of `t`.
  pub record Holds (t s : State S C) : Type 0 where
    pub keys : s.keymap ≡ t.keymap
    pub encoders : s.encoder_map ≡ t.encoder_map
    pub macros : s.macros ≡ t.macros
    pub options : s.layout_options ≡ t.layout_options
    pub custom : s.custom ≡ t.custom
    pub told : s.events ≡ t.events

  -- The defaults: the default arrays, zeros as macros, the custom value that the load left, reset,
  -- and one callback on the layout options, where there are callbacks.
  pub record IsFresh (before s : State S C) : Type 0 where
    pub keys : s.keymap ≡ b.config.default_keymap
    pub encoders : s.encoder_map ≡ b.config.default_encoder_map
    pub macros : s.macros ≡ replicate b.config.macro_bytes 0
    pub options : s.layout_options ≡ b.config.default_layout_options
    pub custom : s.custom ≡ Option.map b.custom_ops.reset_value (load b before).1.custom
    pub told :
        s.events ≡ (notify b (layout_options_changed b.config.default_layout_options) before).events

  -- Why begin refuses: an array is missing, the state does not fit a record, or there is a storage
  -- and no usable load buffer.
  pub data Refusal (s : State S C) : Type 0 where
    incomplete : config_complete b.config ≡ false → Refusal s
    too_large : state_bytes b.config (custom_size b s) ≡ none → Refusal s
    no_buffer :
        (n : ℕ)
        → state_bytes b.config (custom_size b s) ≡ some n
        → has_storage b s && not (load_buffer_valid b.config n) ≡ true
        → Refusal s

  -- When it does not: none of these.
  pub record Acceptance (s : State S C) : Type 0 where
    pub complete : config_complete b.config ≡ true
    pub bytes : ℕ
    pub fits : state_bytes b.config (custom_size b s) ≡ some bytes
    pub usable : has_storage b s && not (load_buffer_valid b.config bytes) ≡ false

  -- What begin starts with.
  pub record Started (now : ℕ) (before s : State S C) : Type 0 where
    pub clean : s.dirty ≡ false
    pub clock : s.save_at ≡ u32 (now + b.config.auto_save_ms)
    pub content :
        (((load b before).0 ≡ true) × Holds (load b before).1 s)
        ⊎ (((load b before).0 ≡ false) × IsFresh before s)

  -- The arrays have the sizes of the configuration.
  abbrev IsSized : State S C → Type 0
  IsSized t =
      (length t.keymap ≡ key_count b.config)
      × (length t.encoder_map ≡ encoder_map_bytes b.config / 2)
      × (length t.macros ≡ b.config.macro_bytes)

  module _ (d : IsDefaults b.config) where
    reset_buffers-keymap :
        (t : State S C) → IsSized t → (reset_buffers b t).keymap ≡ b.config.default_keymap
    unfolding reset_buffers reset_keymaps reset_macros
    reset_buffers-keymap t v =
        let keys = b.config.default_keymap in
        let whole = take-all (key_count b.config) keys (sym d.default_keys) in
        let kept : (reset_buffers b t).keymap ≡ (reset_keymaps b t).keymap = ground arith in
        kept ∙ ap (splice t.keymap 0) whole ∙ splice-all t.keymap keys (d.default_keys ∙ sym v.0)

    reset_buffers-encoder_map :
        (t : State S C) → IsSized t → (reset_buffers b t).encoder_map ≡ b.config.default_encoder_map
    unfolding reset_buffers reset_keymaps reset_macros
    reset_buffers-encoder_map t v =
        let codes = b.config.default_encoder_map in
        let n = encoder_map_bytes b.config in
        let whole = take-all (n / 2) codes (sym d.default_encoders) in
        let kept : (reset_buffers b t).encoder_map ≡ (reset_keymaps b t).encoder_map =
          ground arith in
        kept
        ∙ ap (λ xs. if n == 0 then t.encoder_map else splice t.encoder_map 0 xs) whole
        ∙ copy_unless n t.encoder_map codes (v.1 ∙ sym d.default_encoders)
            (λ e. d.default_encoders ∙ omega (arith, e))

    reset_buffers-macros :
        (t : State S C) → IsSized t → (reset_buffers b t).macros ≡ replicate b.config.macro_bytes 0
    unfolding reset_buffers reset_keymaps reset_macros
    reset_buffers-macros t v =
        let n = b.config.macro_bytes in
        let zeros : List ℕ = replicate n 0 in
        let size : length zeros ≡ n = length-replicate n 0 in
        let kept : (reset_buffers b t).macros
            ≡ (if n == 0 then t.macros else splice t.macros 0 zeros) =
          ground arith in
        kept ∙ copy_unless n t.macros zeros (v.2 ∙ sym size) (λ e. size ∙ e)

    reset_buffers-others :
        (t : State S C)
        → ((reset_buffers b t).layout_options ≡ b.config.default_layout_options)
          × ((reset_buffers b t).custom ≡ Option.map b.custom_ops.reset_value t.custom)
          × ((reset_buffers b t).events ≡ t.events)
    unfolding reset_buffers reset_keymaps reset_macros
    reset_buffers-others t = elim (Option-cases t.custom) [
      | inl gone ↦ (ground arith, ground (arith, gone), ground arith)
      | inr (c, here) ↦ (ground arith, ground (arith, here), ground arith)
    ]

    start-IsFresh :
        (now : ℕ) (s : State S C)
        → IsValid b.config s
        → (load b s).0 ≡ false
        → IsFresh s (start b now s)
    unfolding start
    start-IsFresh now s v failed =
        let t = (load b s).1 in
        let frame = failed_load-frame b s t (ap (λ ok. (ok, t)) failed) in
        let sized : IsSized t = (
          ap (λ (r : State S C). length r.keymap) frame ∙ v.keymap_size,
          ap (λ (r : State S C). length r.encoder_map) frame ∙ v.encoder_size,
          ap (λ (r : State S C). length r.macros) frame ∙ v.macro_size,
        ) in
        let fresh = reset_buffers b t in
        let told = notify b (layout_options_changed fresh.layout_options) fresh in
        let (options, custom, events) = reset_buffers-others t in
        let picked : (if (load b s).0 then t else told) ≡ told =
          ap (λ ok. if ok then t else told) failed in
        let log : told.events
            ≡ (notify b (layout_options_changed b.config.default_layout_options) s).events =
          ground (arith, options, events, ap (λ (r : State S C). r.events) frame) in
        record {
          keys =
              ap (λ (r : State S C). r.keymap) picked ∙ ground arith ∙ reset_buffers-keymap t sized;
          encoders =
              ap (λ (r : State S C). r.encoder_map) picked
              ∙ ground arith
              ∙ reset_buffers-encoder_map t sized;
          macros =
              ap (λ (r : State S C). r.macros) picked ∙ ground arith ∙ reset_buffers-macros t sized;
          options = ap (λ (r : State S C). r.layout_options) picked ∙ ground arith ∙ options;
          custom = ap (λ (r : State S C). r.custom) picked ∙ ground arith ∙ custom;
          told = ap (λ (r : State S C). r.events) picked ∙ log;
        }

    start-Started : (now : ℕ) (s : State S C) → IsValid b.config s → Started now s (start b now s)
    unfolding start
    start-Started now s v = record {
      clean = refl;
      clock = refl;
      content = elim (Bool-cases (load b s).0) [
        | inr failed ↦ inr (failed, start-IsFresh now s v failed)
        | inl loaded ↦
            let t = (load b s).1 in
            let fresh = reset_buffers b t in
            let told = notify b (layout_options_changed fresh.layout_options) fresh in
            let picked : (if (load b s).0 then t else told) ≡ t =
              ap (λ ok. if ok then t else told) loaded in
            inl (
              loaded,
              record {
                keys = ap (λ (r : State S C). r.keymap) picked;
                encoders = ap (λ (r : State S C). r.encoder_map) picked;
                macros = ap (λ (r : State S C). r.macros) picked;
                options = ap (λ (r : State S C). r.layout_options) picked;
                custom = ap (λ (r : State S C). r.custom) picked;
                told = ap (λ (r : State S C). r.events) picked;
              },
            )
      ];
    }

    -- From arrays of the sizes of the configuration, with elements in range, and default arrays of
    -- those sizes: begin either refuses and changes nothing, since the configuration is incomplete,
    -- the state does not fit a record, or there is a storage and no usable load buffer; or accepts,
    -- where none of these holds, with nothing unsaved and the automatic save autoSaveMs away. Then
    -- the arrays, the options, the custom value and the callbacks are those of a load that succeeds;
    -- where the load fails, the arrays and the options are the default ones, the macros zeros, the
    -- custom value is reset, and the one callback, if there are callbacks, tells of the default
    -- options.
    pub begin-Started :
        (now : ℕ) (s : State S C)
        → IsValid b.config s
        → ((begin b now s ≡ (false, s)) × Refusal s)
          ⊎ (((begin b now s).0 ≡ true) × Started now s (begin b now s).1 × Acceptance s)
    unfolding begin
    begin-Started now s v = elim (Bool-cases (config_complete b.config)) [
      | inr partial ↦ inl (rw partial refl, incomplete partial)
      | inl complete ↦ elim (Option-cases (state_bytes b.config (custom_size b s))) [
        | inl too_big ↦ inl (rw (complete, too_big) refl, too_large too_big)
        | inr (n, sized) ↦
            elim (Bool-cases (has_storage b s && not (load_buffer_valid b.config n))) [
              | inl unusable ↦ inl (rw (complete, sized, unusable) refl, no_buffer n sized unusable)
              | inr usable ↦ inr (
                  rw (complete, sized, usable)
                    (
                      refl,
                      start-Started now s v,
                      record { complete = complete; bytes = n; fits = sized; usable = usable },
                    ))
            ]
      ]
    ]
