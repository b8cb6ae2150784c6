-- ===== src/Protocol/Reset/Good.antt =====
-- factoryReset keeps the protocol's arrays in size and range on every path.
use via_arduino.Base.{ℕ, ◌+◌, ◌-◌, ◌≡◌, refl, arith, ◌∙◌}
use via_arduino.Base.{List, length, slice, splice, take, replicate, length-splice}
use via_arduino.Base.{true, false, not, ◌||◌, Bool-cases, inl, inr, some, ◌==◌, ltb}
use via_arduino.Base.{if◌then◌else◌, either, optionally, le32_bytes}
use via_arduino.Protocol.Config.{encoder_map_bytes, state_bytes, load_buffer_valid}
use via_arduino.Protocol.Config.{header_size}
use via_arduino.Protocol.Board.{Board, State, custom_size, changed}
use via_arduino.Protocol.Contract.{IsByteWise}
use via_arduino.Protocol.Valid.{Below, Below-splice, Below-take, Below-replicate}
use via_arduino.Protocol.Persist.Bytes.{Below-words_bytes}
use via_arduino.Protocol.Persist.Validity.{Below-slice}
use via_arduino.Protocol.Persist.Good.{IsGood, Ends, IsGood-Same, IsGood-publish, IsGood-stage}
use via_arduino.Protocol.Persist.Good.{IsGood-custom, IsGood-notify}
use via_arduino.Protocol.Reset.{stage_defaults, stage_custom, reload_custom, finish_reset}
use via_arduino.Protocol.Reset.{reset_storage, factory_reset, write_defaults}

Below-le32_bytes : (v : ℕ) → Below 256 (le32_bytes v)
Below-le32_bytes v = ground arith

-- A buffer of `n` bytes.
abbrev IsBuffer : ℕ → List ℕ → Type 0
IsBuffer n xs = (length xs ≡ n) × Below 256 xs

splice-IsBuffer :
    (n : ℕ) (xs : List ℕ) (off : ℕ) (bytes : List ℕ)
    → IsBuffer n xs
    → Below 256 bytes
    → IsBuffer n (splice xs off bytes)
splice-IsBuffer n xs off bytes h p =
    (length-splice xs off bytes ∙ h.0, Below-splice 256 xs off bytes h.1 p)

unless-IsBuffer :
    (n k : ℕ) (xs : List ℕ) (off : ℕ) (bytes : List ℕ)
    → IsBuffer n xs
    → Below 256 bytes
    → IsBuffer n (if k == 0 then xs else splice xs off bytes)
unless-IsBuffer n k xs off bytes h p = elim (Bool-cases (k == 0)) [
  | inl e ↦ rw e h
  | inr e ↦ rw e (splice-IsBuffer n xs off bytes h p)
]

module _ {S C : Type 0} (b : Board S C) where
  stage_defaults-IsBuffer : (n : ℕ) (xs : List ℕ) → IsBuffer n xs → IsBuffer n (stage_defaults b xs)
  unfolding stage_defaults
  stage_defaults-IsBuffer n xs h =
      splice-IsBuffer n _ _ (le32_bytes b.config.default_layout_options)
        (unless-IsBuffer n b.config.macro_bytes _ _ (replicate b.config.macro_bytes 0)
          (unless-IsBuffer n (encoder_map_bytes b.config) _ _ _
            (splice-IsBuffer n xs 0 _ h (Below-take 256 _ _ (Below-words_bytes _)))
            (Below-take 256 _ _ (Below-words_bytes _)))
          (Below-replicate 256 b.config.macro_bytes 0 (omega arith)))
        (Below-le32_bytes b.config.default_layout_options)

  module _ (Sound : C → Type 0) where
    IsGood-defaults :
        (s : State S C)
        → IsGood b Sound s
        → IsGood b Sound (record s { load_buffer = stage_defaults b s.load_buffer })
    IsGood-defaults s g =
        let staged =
          stage_defaults-IsBuffer b.config.load_buffer_bytes s.load_buffer
            (g.valid.load_size, g.valid.load_range) in
        record {
          valid = record {
            keymap_size = g.valid.keymap_size;
            keymap_range = g.valid.keymap_range;
            encoder_size = g.valid.encoder_size;
            encoder_range = g.valid.encoder_range;
            macro_size = g.valid.macro_size;
            macro_range = g.valid.macro_range;
            load_size = staged.0;
            load_range = staged.1;
            options_range = g.valid.options_range;
          };
          sound = g.sound;
        }

    module _ (law : IsByteWise b.custom_ops Sound) where
      stage_custom-Ends :
          (n : ℕ) (s : State S C) → IsGood b Sound s → Ends b Sound (stage_custom b n s)
      unfolding stage_custom
      stage_custom-Ends n s g =
          optionally (Ends b Sound) s.custom {z = (true, s)} (record { good = g })
            (λ c e.
              let size = b.custom_ops.state_size c in
              let c' = b.custom_ops.reset_value c in
              let sound : Sound c' = law.reset_lem c (rw e at g.sound) in
              let staged = λ (image : List ℕ) (h : Below 256 image).
                IsGood-stage b Sound (record s { custom = some c' }) (n - size) image
                  (IsGood-custom b Sound s c' g sound) h in
              either (Ends b Sound) (size == 0) {x = (true, s)} (record { good = g })
                (optionally
                  (λ (buffer : List ℕ). Ends b Sound (
                    b.custom_ops.validate_state c' (slice buffer (n - size) size) size,
                    record s { custom = some c'; load_buffer = buffer },
                  ))
                  (b.custom_ops.save_state c' size)
                  {z = splice s.load_buffer (n - size) (replicate size 0)}
                  (record {
                    good = staged (replicate size 0) (Below-replicate 256 size 0 (omega arith));
                  })
                  (λ image kept. record {
                    good = staged image (law.image_lem c' size sound kept);
                  })))

      reload_custom-IsGood :
          (n : ℕ) (s : State S C) → IsGood b Sound s → IsGood b Sound (reload_custom b n s)
      unfolding reload_custom
      reload_custom-IsGood n s g = optionally (IsGood b Sound) s.custom {z = s} g (λ c e.
          let size = b.custom_ops.state_size c in
          let staged = slice s.load_buffer (n - size) size in
          let sound : Sound c = rw e at g.sound in
          let bytes = Below-slice s.load_buffer (n - size) size g.valid.load_range in
          either (IsGood b Sound) (size == 0) {x = s} g
            (IsGood-custom b Sound s _ g (law.load_lem c staged size sound bytes)))

      finish_reset-IsGood :
          (n : ℕ) (s : State S C) → IsGood b Sound s → IsGood b Sound (finish_reset b n s).1
      unfolding finish_reset
      finish_reset-IsGood n s g =
          let reloaded = reload_custom-IsGood n s g in
          let published = IsGood-publish b Sound (reload_custom b n s) reloaded in
          IsGood-notify b Sound changed _ (IsGood-notify b Sound _ _ published)

      reset_storage-Ends :
          (n : ℕ) (store : S) (s : State S C)
          → IsGood b Sound s
          → Ends b Sound (reset_storage b n store s)
      unfolding reset_storage
      reset_storage-Ends n store s g =
          let (written, store') = write_defaults b (take n s.load_buffer) store in
          let s' = record s { storage = some store' } in
          let g' : IsGood b Sound s' =
            IsGood-Same b Sound s s' (refl, refl, refl, refl, refl) refl g in
          either (Ends b Sound) written {x = finish_reset b n s'} {y = (false, s')}
            (record { good = finish_reset-IsGood n s' g' }) (record { good = g' })

      -- Over a custom value that keeps to bytes: however factoryReset ends, the arrays keep their
      -- sizes, their elements stay in range and the custom value stays sound.
      pub factory_reset-IsGood :
          (s : State S C) → IsGood b Sound s → IsGood b Sound (factory_reset b s).1
      unfolding factory_reset
      factory_reset-IsGood s g =
          let failed : Ends b Sound (false, s) = record { good = g } in
          let ends : Ends b Sound (factory_reset b s) =
            optionally (Ends b Sound) s.storage {z = (false, s)} failed (λ store _.
              optionally (Ends b Sound) (state_bytes b.config (custom_size b s)) {z = (false, s)}
                failed
                (λ n _.
                  either (Ends b Sound)
                    (not (load_buffer_valid b.config n)
                      || ltb (b.storage_ops.capacity store) (header_size + n))
                    {x = (false, s)} failed
                    (let staged = record s { load_buffer = stage_defaults b s.load_buffer } in
                      let custom = (stage_custom-Ends n staged (IsGood-defaults s g)).good in
                      either (Ends b Sound) (stage_custom b n staged).0
                        {y = (false, (stage_custom b n staged).1)}
                        (reset_storage-Ends n store (stage_custom b n staged).1 custom)
                        (record { good = custom })))) in
          ends.good
