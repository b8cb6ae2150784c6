-- ===== src/Tests/Keys.antt =====
-- The keyboard, its layers and its matrix at small inputs.
use via_arduino.Base.{
  ℕ, zero, suc, ◌≤◌, ◌<◌, ◌≡◌, refl, arith, true, false, not, List, [], ◌∷◌, u32, ◌==◌,
  if◌then◌else◌, replicate,
}
use via_arduino.Base.{get_or, ◌+◌}
use via_arduino.Keycodes.{classify_keycode}
use via_arduino.Keyboard.Report.{build_report, contains}
use via_arduino.Keyboard.Keys.{holds, basics, build_report-keys}
use via_arduino.Layers.{LayerState, resolve, code_at, apply_layer_press, apply_layer_release}
use via_arduino.Layers.Active.{active, apply_layer_release-press}
use via_arduino.Layers.Lookup.{Clear, resolve-highest}
use via_arduino.Matrix.{Matrix, MatrixConfig, row_to_col, debounce}
use via_arduino.Matrix.Debounce.{hold, reaches, debounce-hold}

-- Two letters, left shift, and a momentary layer key, with a letter twice.
abbrev down : List ℕ
down = 4 ∷ 0 ∷ 0xE1 ∷ 5 ∷ 0x5201 ∷ 4 ∷ []

basics-down : basics down ≡ 3
unfolding classify_keycode
basics-down = refl

few_down : basics down ≤ 6
few_down = rw basics-down (omega arith)

build_report-keys_example : contains 5 (build_report down).keys ≡ holds 5 down
build_report-keys_example = build_report-keys 5 down refl few_down

abbrev crowded : List ℕ
crowded = 4 ∷ 5 ∷ 6 ∷ 7 ∷ 8 ∷ 9 ∷ 10 ∷ []

basics-crowded : basics crowded ≡ 7
unfolding classify_keycode
basics-crowded = refl

-- Two layers, the second of them active.
abbrev raised : LayerState
raised = record {
  transient_mask = 2;
  ref_counts = 0 ∷ 1 ∷ replicate 30 0;
  layer_count = 2;
  default_layer = 0;
}

abbrev small_keymap : List ℕ
small_keymap = 4 ∷ 5 ∷ 0x0001 ∷ 6 ∷ []

raised-Clear_above : Clear raised 0 small_keymap 0 1 1 2 2 32
raised-Clear_above j from below on used = absurd (omega arith)

resolve-highest_example : resolve raised 0 small_keymap 0 1 1 2 ≡ code_at small_keymap 1 2 0 1 1
resolve-highest_example =
    resolve-highest raised 0 small_keymap 0 1 1 2 1 (omega arith) refl (omega arith)
      (λ e. absurd (omega (arith, e))) raised-Clear_above

transparent_at : (j : ℕ) → j < 2 → active raised j ≡ true → code_at small_keymap 1 2 0 0 j ≡ 0x0001
transparent_at zero below on = absurd (ground (arith, on))
transparent_at (suc zero) below on = refl
transparent_at (suc (suc j)) below on = absurd (omega arith)

raised-Clear : Clear raised 0 small_keymap 0 0 1 2 0 32
raised-Clear j from below on used = transparent_at j used on

apply_layer_release-press_example :
    (active (apply_layer_release (0x5200 + 1) (apply_layer_press (0x5200 + 1) raised)) 1
      ≡ (if 1 == 1 then not (get_or raised.ref_counts 1 0 == 0) else active raised 1))
    × (active (apply_layer_release (0x5220 + 1) (apply_layer_press (0x5220 + 1) raised)) 1
        ≡ (if 1 == 1 then not (active raised 1) else active raised 1))
apply_layer_release-press_example =
    apply_layer_release-press 1 1 raised (omega arith) (omega arith) (omega arith) (omega arith)
      (omega arith)

abbrev two_by_two : MatrixConfig
two_by_two = record {
  row_pins = 1 ∷ 2 ∷ [];
  column_pins = 3 ∷ 4 ∷ [];
  direction = row_to_col;
  settle_us = 5;
  debounce_ms = 5;
}

abbrev untouched : Matrix
untouched = record {
  raw_rows = 0 ∷ 0 ∷ [];
  candidate_rows = 0 ∷ 0 ∷ [];
  stable_rows = 0 ∷ 0 ∷ [];
  changed_rows = 0 ∷ 0 ∷ [];
  prev_raw = 0 ∷ 0 ∷ [];
  last_raw_change_ts = 0;
  debounce_pending = false;
}

debounce-hold_example :
    (hold two_by_two
      (2 ∷ 0 ∷ [])
      100
      (1 ∷ 4 ∷ 6 ∷ [])
      (debounce two_by_two (u32 100) (2 ∷ 0 ∷ []) untouched)).stable_rows
    ≡ (if reaches 5 (1 ∷ 4 ∷ 6 ∷ []) then 2 ∷ 0 ∷ [] else 0 ∷ 0 ∷ [])
debounce-hold_example =
    debounce-hold two_by_two (2 ∷ 0 ∷ []) 100 (1 ∷ 4 ∷ 6 ∷ []) untouched refl refl
      (omega arith, (omega arith, (omega arith, tt)))
