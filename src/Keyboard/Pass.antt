-- ===== src/Keyboard/Pass.antt =====
-- The three passes of Keyboard::task over the keys that changed: releases, then presses of layer and
-- boot keys, then the other presses.
use via_arduino.Base.{
  ℕ, zero, suc, ◌+◌, ◌*◌, Bool, true, false, not, ◌||◌, none, some, List, [], ◌∷◌,
}
use via_arduino.Base.{get_or, set, ◌==◌, if◌then◌else◌, u8, not32, bit_and, ◌<<<◌}
use via_arduino.Keycodes.{KeycodeType, classify_keycode, extract_layer_action}
use via_arduino.Layers.{LayerState, apply_layer_press, apply_layer_release, resolve}

pub record KeyboardConfig : Type 0 where
  pub rows : ℕ
  pub columns : ℕ

-- activeCodes_ and layerState_: the code that each held key was pressed with, and the layers.
pub record Held : Type 0 where
  pub active_codes : List ℕ
  pub layers : LayerState

abbrev pub is_boot : KeycodeType → Bool
is_boot KeycodeType.boot = true
is_boot _ = false

-- The columns c, c + 1, … whose bit is set in the word, `count` of them looked at.
unfoldable pub each_column : {A : Type 0} → (ℕ → A → A) → ℕ → ℕ → ℕ → A → A
each_column visit word zero c acc = acc
each_column visit word (suc count) c acc =
    each_column visit word count (c + 1) (if bit_and word (1 <<< c) == 0 then acc else visit c acc)

-- The rows r, r + 1, … whose bit is set in cRows; `word_of` makes the word of columns of the
-- changed and the stable switches.
unfoldable pub each_row :
    {A : Type 0} → (ℕ → ℕ → A → A) → (ℕ → ℕ → ℕ) → ℕ → ℕ → List ℕ → List ℕ → ℕ → A → A
unfolding each_column
each_row visit word_of columns c_rows [] stable r acc = acc
each_row visit word_of columns c_rows (changed ∷ rows) [] r acc = acc
each_row visit word_of columns c_rows (changed ∷ rows) (stable ∷ rest) r acc =
    each_row visit word_of columns c_rows rows rest (r + 1) (
      if bit_and c_rows (1 <<< r) == 0
      then acc
      else each_column (visit r) (word_of changed stable) columns 0 acc)

-- changed & ~stable, and changed & stable.
abbrev pub released : ℕ → ℕ → ℕ
released changed stable = bit_and changed (not32 stable)

abbrev pub pressed : ℕ → ℕ → ℕ
pressed changed stable = bit_and changed stable

module _ (config : KeyboardConfig) (keymap : List ℕ) where
  abbrev pub position : ℕ → ℕ → ℕ
  position r c = u8 (r * config.columns + c)

  -- A key that went up gives up its code, and the layer that it held.
  unfoldable pub release_key : ℕ → ℕ → Held → Held
  release_key r c k =
      let code = get_or k.active_codes (position r c) 0 in
      if code == 0x0000 then k else record k {
        active_codes = set k.active_codes (position r c) 0x0000;
        layers = apply_layer_release code k.layers;
      }

  abbrev pub code_of : ℕ → ℕ → Held → ℕ
  code_of r c k = resolve k.layers k.layers.default_layer keymap r c config.rows config.columns

  abbrev pub keep : ℕ → ℕ → ℕ → Held → Held
  keep r c code k = record k { active_codes = set k.active_codes (position r c) code }

  -- The first look at a key that went down, for layer and boot codes; the flag is bootPending.
  unfoldable pub press_layer_key : ℕ → ℕ → Held × Bool → Held × Bool
  press_layer_key r c (k, boot_pending) =
      let code = code_of r c k in
      elim (extract_layer_action code) [
        | some _ ↦
            (keep r c code (record k { layers = apply_layer_press code k.layers }), boot_pending)
        | none ↦
            if is_boot (classify_keycode code) then (keep r c code k, true) else (k, boot_pending)
      ]

  -- What the second look keeps of a code, and whether it asks for the boot loader.
  abbrev pub kept_code : KeycodeType → ℕ → ℕ
  kept_code KeycodeType.no_key code = 0x0000
  kept_code KeycodeType.transparent code = 0x0000
  kept_code _ code = code

  unfoldable pub press_key : ℕ → ℕ → Held × Bool → Held × Bool
  press_key r c (k, boot_pending) =
      let code = code_of r c k in
      let type = classify_keycode code in
      if not (get_or k.active_codes (position r c) 0 == 0x0000)
      then (k, boot_pending)
      else (keep r c (kept_code type code) k, boot_pending || is_boot type)

  unfoldable pub run_passes : ℕ → List ℕ → List ℕ → Held → Held × Bool
  unfolding each_row release_key press_layer_key press_key
  run_passes c_rows changed stable k =
      let columns = config.columns in
      let k' = each_row release_key released columns c_rows changed stable 0 k in
      let layered = each_row press_layer_key pressed columns c_rows changed stable 0 (k', false) in
      each_row press_key pressed columns c_rows changed stable 0 layered
