-- ===== src/Protocol/Reset/Staged.antt =====
-- What factoryReset stages in the load buffer: the defaults, then the bytes of the reset custom value.
use via_arduino.Base.{ℕ, ◌+◌, ◌-◌, ◌≤◌, ◌≡◌, refl, arith, sym}
use via_arduino.Base.{List, [], ◌++◌, length, length-append, take-all, replicate, splice}
use via_arduino.Base.{length-replicate, append-nil, append_assoc, slice}
use via_arduino.Base.{true, Bool-cases, Option-cases, inl, inr, Option, some}
use mathlib.Core.Option
use via_arduino.Base.{◌==◌, if◌then◌else◌, le32_bytes}
use via_arduino.Protocol.Config.{Config, keymap_bytes, encoder_map_bytes}
use via_arduino.Protocol.Board.{Board, State, custom_size}
use via_arduino.Protocol.Contract.{IsPersistent}
use via_arduino.Protocol.Sizes.{IsConfig}
use via_arduino.Protocol.Valid.{IsDefaults}
use via_arduino.Protocol.Persist.{words_bytes, custom_image}
use via_arduino.Protocol.Persist.Record.{Holds, Holds-next, nil_of_length, Holds-slice_back}
use via_arduino.Protocol.Persist.Publish.{Image, Fits, image_bytes, length-words_keys}
use via_arduino.Protocol.Persist.Publish.{length-words_encoders}
use via_arduino.Protocol.Persist.Loaded.{Takes}
use via_arduino.Protocol.Reset.{stage_defaults, stage_custom}

-- The default key map and encoder map, cleared macros and the default layout options.
abbrev pub defaults : Config → Image
defaults c = record {
  keys = c.default_keymap;
  encoders = c.default_encoder_map;
  macro_text = replicate c.macro_bytes 0;
  options = c.default_layout_options;
}

pub defaults-Fits : (c : Config) → IsConfig c → IsDefaults c → Fits c (defaults c)
defaults-Fits c v d = record {
  key_size = d.default_keys;
  key_range = d.default_key_range;
  encoder_size = d.default_encoders;
  encoder_range = d.default_encoder_range;
  macro_size = length-replicate c.macro_bytes 0;
  option_range = v.options_fit;
}

Holds-unless :
    {n : ℕ} {contents : List ℕ} (k off : ℕ) (ys p : List ℕ)
    → Holds n contents p
    → length ys ≡ k
    → off ≡ length p
    → off + length ys ≤ n
    → Holds n (if k == 0 then contents else splice contents off ys) (p ++ ys)
Holds-unless k off ys p h size e le = elim (Bool-cases (k == 0)) [
  | inl z ↦ rw (z, nil_of_length ys (ground arith), append-nil) h
  | inr nz ↦ rw nz (Holds-next h off ys e le)
]

module _ {S C : Type 0} (b : Board S C) (fits : IsConfig b.config) (d : IsDefaults b.config) where
  keys : List ℕ
  keys = words_bytes b.config.default_keymap

  encoders : List ℕ
  encoders = words_bytes b.config.default_encoder_map

  zeros : List ℕ
  zeros = replicate b.config.macro_bytes 0

  keys_length : length keys ≡ keymap_bytes b.config
  unfolding keys
  keys_length = length-words_keys b.config (defaults b.config) (defaults-Fits b.config fits d)

  encoders_length : length encoders ≡ encoder_map_bytes b.config
  unfolding encoders
  encoders_length =
      length-words_encoders b.config (defaults b.config) (defaults-Fits b.config fits d)

  zeros-length : length zeros ≡ b.config.macro_bytes
  unfolding zeros
  zeros-length = length-replicate b.config.macro_bytes 0

  -- The staged bytes before those of the custom value.
  pub front : List ℕ
  front = ((keys ++ encoders) ++ zeros) ++ le32_bytes b.config.default_layout_options

  pub front-append : (tail : List ℕ) → image_bytes (defaults b.config) tail ≡ front ++ tail
  unfolding front keys encoders zeros
  front-append tail = simp append_assoc

  macros_end :
      length ((keys ++ encoders) ++ zeros)
      ≡ keymap_bytes b.config + encoder_map_bytes b.config + b.config.macro_bytes
  macros_end = omega (
    arith,
    keys_length,
    encoders_length,
    zeros-length,
    length-append keys encoders,
    length-append (keys ++ encoders) zeros,
  )

  pub length-front :
      length front ≡ keymap_bytes b.config + encoder_map_bytes b.config + b.config.macro_bytes + 4
  unfolding front
  length-front = omega (
    arith,
    macros_end,
    length-append ((keys ++ encoders) ++ zeros) (le32_bytes b.config.default_layout_options),
  )

  -- Behind what was in the buffer, the defaults stand first.
  pub stage_defaults-Holds :
      (xs : List ℕ) → length front ≤ length xs → Holds (length xs) (stage_defaults b xs) front
  unfolding stage_defaults front keys encoders zeros
  stage_defaults-Holds xs room =
      let key_end : ℕ = keymap_bytes b.config in
      let encoder_end : ℕ = key_end + encoder_map_bytes b.config in
      let old : Holds (length xs) xs [] = record { rest = xs; split = refl; fits = refl } in
      let laid : Holds (length xs) (splice xs 0 keys) keys =
        Holds-next old 0 keys refl (omega (arith, keys_length, length-front)) in
      let encoded =
        Holds-unless (encoder_map_bytes b.config) key_end encoders keys laid encoders_length
          (sym keys_length) (omega (arith, encoders_length, length-front)) in
      let cleared =
        Holds-unless b.config.macro_bytes encoder_end zeros (keys ++ encoders) encoded zeros-length
          (omega (arith, keys_length, encoders_length, length-append keys encoders))
          (omega (arith, zeros-length, length-front)) in
      rw (take-all _ _ (sym keys_length), take-all _ _ (sym encoders_length))
        (Holds-next cleared (encoder_end + b.config.macro_bytes)
          (le32_bytes b.config.default_layout_options) (sym macros_end)
          (omega (arith, length-front)))

  -- The custom value after a reset saves `tail`, where there is one with a state.
  abbrev pub Saves : State S C → List ℕ → Type 0
  Saves s tail =
      custom_image b (record s { custom = Option.map b.custom_ops.reset_value s.custom })
      ≡ some tail

  -- A reset keeps the size of the custom state.
  abbrev pub KeepsSize : Type 0
  KeepsSize =
      (c : C) → b.custom_ops.state_size (b.custom_ops.reset_value c) ≡ b.custom_ops.state_size c

  -- What stageCustom leaves: the flag, and a custom value that saves the bytes it staged behind
  -- `start`.
  pub record Staged (bytes : ℕ) (start tail : List ℕ) (n : ℕ) (s t : State S C) : Type 0 where
    pub value : Option C
    pub buffer : List ℕ
    pub result : t ≡ record s { custom = value; load_buffer = buffer }
    pub held : Holds n buffer (start ++ tail)
    pub saves : custom_image b (record s { custom = value }) ≡ some tail
    pub takes : Takes b value tail

  -- The flag is set, and the bytes that the reset custom value saves follow `start`.
  pub stage_custom-Staged :
      (persistent : IsPersistent b.custom_ops) (keeps : KeepsSize) (bytes n : ℕ)
      (start tail : List ℕ) (s : State S C)
      → Holds n s.load_buffer start
      → bytes ≡ length start + custom_size b s
      → bytes ≤ n
      → Saves s tail
      → ((stage_custom b bytes s).0 ≡ true) × Staged bytes start tail n s (stage_custom b bytes s).1
  unfolding stage_custom custom_image
  stage_custom-Staged persistent keeps bytes n start tail s holds size room saves =
      elim (Option-cases s.custom) [
        | inl z ↦
            let empty : tail ≡ [] = ground arith in
            (
              ground arith,
              record {
                value = s.custom;
                buffer = s.load_buffer;
                result = ground arith;
                held = rw (empty, append-nil) holds;
                saves = ground arith;
                takes = rw z empty;
              },
            )
        | inr (c, z) ↦
            let c' = b.custom_ops.reset_value c in
            elim (Bool-cases (b.custom_ops.state_size c == 0)) [
              | inl none_kept ↦
                  let empty : tail ≡ [] = ground (arith, keeps c) in
                  let known : Takes b (some c) tail =
                    (ground (arith, empty), λ kept. absurd (ground (arith, kept))) in
                  (
                    ground arith,
                    record {
                      value = s.custom;
                      buffer = s.load_buffer;
                      result = ground arith;
                      held = rw (empty, append-nil) holds;
                      saves = ground (arith, empty);
                      takes = rw z known;
                    },
                  )
              | inr kept ↦
                  let imaged : b.custom_ops.save_state c' (b.custom_ops.state_size c') ≡ some tail =
                    ground (arith, keeps c) in
                  let same : b.custom_ops.state_size c' ≡ b.custom_ops.state_size c = keeps c in
                  let imaged_too : b.custom_ops.save_state c' (b.custom_ops.state_size c)
                      ≡ some tail =
                    ground arith in
                  let long : length tail ≡ b.custom_ops.state_size c' =
                    persistent.saved_size c' imaged in
                  let at : bytes - b.custom_ops.state_size c ≡ length start = ground arith in
                  let held : Holds n (splice s.load_buffer (bytes - b.custom_ops.state_size c) tail)
                      (start ++ tail) =
                    Holds-next holds (bytes - b.custom_ops.state_size c) tail at (ground arith) in
                  let valid : b.custom_ops.validate_state c' tail (b.custom_ops.state_size c')
                      ≡ true =
                    persistent.saved_valid c' c' refl imaged in
                  let valid_too : b.custom_ops.validate_state c' tail (b.custom_ops.state_size c)
                      ≡ true =
                    ground arith in
                  let sliced : slice (splice s.load_buffer (bytes - b.custom_ops.state_size c) tail)
                        (bytes - b.custom_ops.state_size c) (b.custom_ops.state_size c)
                      ≡ tail =
                    rw (at, sym same, sym long) (Holds-slice_back start tail (rw at at held)) in
                  let loads = persistent.saved_loads c' c' refl imaged in
                  (
                    ground (arith, sliced),
                    record {
                      value = some c';
                      buffer = splice s.load_buffer (bytes - b.custom_ops.state_size c) tail;
                      result = ground arith;
                      held = held;
                      saves = ground arith;
                      takes = (long, λ kept'. (valid, loads.0, loads.1));
                    },
                  )
            ]
      ]
