-- ===== src/Layers.antt =====
-- class LayerState of src/VIA_Keyboard.h: the active layers and the lookup of a key through them.
pub mod Active
pub mod Lookup
use via_arduino.Base.{ℕ, zero, suc, ◌+◌, ◌-◌, ◌*◌, ◌^◌, Bool, not, ◌&&◌, none, some, List}
use via_arduino.Base.{get_or, set, splice, replicate, leb, ltb, ◌==◌, if◌then◌else◌, u8, not32}
use via_arduino.Base.{bit_and, bit_or, bit_xor, ◌<<<◌}
use via_arduino.Keycodes.{extract_layer_action}

pub record LayerState : Type 0 where
  pub transient_mask : ℕ
  pub ref_counts : List ℕ
  pub layer_count : ℕ
  pub default_layer : ℕ

-- A LayerState as constructed, after begin(layerCount).
unfoldable pub new_layers : ℕ → LayerState
new_layers layer_count = record {
  transient_mask = 0;
  ref_counts = replicate 32 0;
  layer_count = layer_count;
  default_layer = 0;
}

-- The `switch (action)` of applyLayerPress.
unfoldable pub press_action : ℕ → ℕ → LayerState → LayerState
press_action action layer s =
    if action == 0
    then record s {
      ref_counts = set s.ref_counts layer (u8 (get_or s.ref_counts layer 0 + 1));
      transient_mask = bit_or s.transient_mask (1 <<< layer);
    }
    else if action == 1
    then record s { transient_mask = bit_xor s.transient_mask (1 <<< layer) }
    else if action == 2
    then record s {
      transient_mask = 1 <<< layer;
      ref_counts = splice s.ref_counts 0 (replicate s.layer_count 0);
    }
    else if action == 3
    then record s { default_layer = layer }
    else s

unfoldable pub apply_layer_press : ℕ → LayerState → LayerState
unfolding press_action
apply_layer_press code s = elim (extract_layer_action code) [
  | none ↦ s
  | some (action, layer) ↦ if leb s.layer_count layer then s else press_action action layer s
]

-- `transientMask_ &= ~(1UL << layer)` on a 32-bit word.
unfoldable pub release_action : ℕ → ℕ → LayerState → LayerState
release_action action layer s =
    let count = get_or s.ref_counts layer 0 in
    if not (action == 0) then s else if count == 0 then s else record s {
      ref_counts = set s.ref_counts layer (count - 1);
      transient_mask =
          if count - 1 == 0
          then bit_and s.transient_mask (not32 (1 <<< layer))
          else s.transient_mask;
    }

unfoldable pub apply_layer_release : ℕ → LayerState → LayerState
unfolding release_action
apply_layer_release code s = elim (extract_layer_action code) [
  | none ↦ s
  | some (action, layer) ↦ if leb s.layer_count layer then s else release_action action layer s
]

-- keymap[layer * rows * cols + row * cols + col]
abbrev pub code_at : List ℕ → ℕ → ℕ → ℕ → ℕ → ℕ → ℕ
code_at keymap rows cols row col layer = get_or keymap (layer * rows * cols + row * cols + col) 0

module _ (s : LayerState) (default_layer : ℕ) (keymap : List ℕ) (row col rows cols : ℕ) where
  -- The loop of resolve from layer i - 1 down to 0, and what follows it.
  unfoldable pub resolve_from : ℕ → ℕ
  resolve_from zero =
      if ltb default_layer s.layer_count then code_at keymap rows cols row col default_layer else 0
  resolve_from (suc i) =
      let rest = resolve_from i in
      let code = code_at keymap rows cols row col i in
      if not (bit_and s.transient_mask (1 <<< i) == 0) && ltb i s.layer_count
      then (if code == 0x0000 then code else if not (code == 0x0001) then code else rest)
      else rest

  unfoldable pub resolve : ℕ
  unfolding resolve_from
  resolve = resolve_from 32
