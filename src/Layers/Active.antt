-- ===== src/Layers/Active.antt =====
-- Which layers are active after a layer key goes down or up.
use via_arduino.Base.{ℕ, ◌+◌, ◌^◌, ◌<◌, ◌≡◌, arith, Bool, not, ◌&&◌, ◌||◌}
use via_arduino.Base.{
  get_or, set, leb, ◌==◌, if◌then◌else◌, bit, bit-bit_or, bit-bit_xor, bit-bit_and,
}
use via_arduino.Base.{true, zero, suc, refl, bit_and, ◌>>>◌, Bool-cases, inl, inr}
use via_arduino.Base.{bit-single, bit_or, u8, bit_or-lt, pow_lt, some, length, get_or-set}
use via_arduino.Keycodes.{extract_layer_action}
use via_arduino.Layers.{LayerState, press_action, release_action, apply_layer_press}
use via_arduino.Layers.{apply_layer_release}

-- Whether layer `i` is active.
abbrev pub active : LayerState → ℕ → Bool
active s i = bit s.transient_mask i

press_action-active :
    (action layer i : ℕ) (s : LayerState)
    → action < 4
    → active (press_action action layer s) i ≡ (
        if action == 0
        then active s i || layer == i
        else if action == 1
        then (if layer == i then not (active s i) else active s i)
        else if action == 2
        then layer == i
        else active s i)
unfolding press_action
press_action-active action layer i s h = ground (
  arith,
  bit-bit_or s.transient_mask layer i,
  bit-bit_xor s.transient_mask layer i,
  bit-single layer i,
)

-- Pressing a layer key, by its action: MO (0) adds its layer to the active ones, TG (1) flips it, TO
-- (2) makes it the only one, and any other key, or a layer that is not in use, changes none.
pub apply_layer_press-active :
    (code action layer i : ℕ) (s : LayerState)
    → extract_layer_action code ≡ some (action, layer)
    → action < 4
    → active (apply_layer_press code s) i ≡ (
        if leb s.layer_count layer
        then active s i
        else if action == 0
        then active s i || layer == i
        else if action == 1
        then (if layer == i then not (active s i) else active s i)
        else if action == 2
        then layer == i
        else active s i)
unfolding apply_layer_press
apply_layer_press-active code action layer i s e h =
    ground (arith, e, press_action-active action layer i s h)

release-press_action :
    (layer i : ℕ) (s : LayerState)
    → layer < length s.ref_counts
    → get_or s.ref_counts layer 0 < 255
    → layer < 32
    → s.transient_mask < 2 ^ 32
    → active (release_action 0 layer (press_action 0 layer s)) i
      ≡ (active s i || layer == i) && not (layer == i && get_or s.ref_counts layer 0 == 0)
unfolding press_action release_action
release-press_action layer i s held room small mask =
    let word = bit_or s.transient_mask (2 ^ layer) in
    let count : get_or (set s.ref_counts layer (u8 (get_or s.ref_counts layer 0 + 1))) layer 0
        ≡ get_or s.ref_counts layer 0 + 1 =
      ground
        (arith, get_or-set s.ref_counts layer layer (u8 (get_or s.ref_counts layer 0 + 1)) held) in
    ground (
      arith,
      count,
      bit-bit_or s.transient_mask layer i,
      bit-bit_and 32 word layer i small
          (bit_or-lt 32 s.transient_mask (2 ^ layer) mask (pow_lt layer 32 small)),
    )

-- A test holds of every number below `n`.
abbrev all_below : ℕ → (ℕ → Bool) → Bool
all_below zero test = true
all_below (suc n) test = test n && all_below n test

all_below-at : (n i : ℕ) (test : ℕ → Bool) → all_below n test ≡ true → i < n → test i ≡ true
all_below-at zero i test h le = absurd (omega arith)
all_below-at (suc n) i test h le = elim (Bool-cases (i == n)) [
  | inl same ↦ let e : i ≡ n = ground (arith, same) in rw e (ground (arith, h))
  | inr apart ↦ all_below-at n i test (ground (arith, h)) (ground (arith, apart, le))
]

-- The fields of the code of a layer key.
abbrev has_fields : ℕ → ℕ → ℕ → Bool
has_fields code action layer =
    bit_and code 0xFF00 == 0x5200
    && (bit_and (code >>> 5) 0x03 == action && bit_and code 0x1F == layer)

has_fields-extract_layer_action :
    (code action layer : ℕ)
    → has_fields code action layer ≡ true
    → extract_layer_action code ≡ some (action, layer)
unfolding extract_layer_action
has_fields-extract_layer_action code action layer h = ground (arith, h)

-- The codes 0x5200 + n have action 0, and the codes 0x5220 + n have action 1.
layer_actions :
    (layer : ℕ)
    → layer < 32
    → (extract_layer_action (0x5200 + layer) ≡ some (0, layer))
      × (extract_layer_action (0x5220 + layer) ≡ some (1, layer))
layer_actions layer small = (
  has_fields-extract_layer_action (0x5200 + layer) 0 layer
      (all_below-at 32 layer (λ n. has_fields (0x5200 + n) 0 n) refl small),
  has_fields-extract_layer_action (0x5220 + layer) 1 layer
      (all_below-at 32 layer (λ n. has_fields (0x5220 + n) 1 n) refl small),
)

-- With fewer than 255 holders of a layer below 32 that is in use, and a 32-bit mask: pressing and
-- releasing the key of code 0x5200 + layer leaves every layer as active as it was, but that this
-- layer ends inactive if no other such key holds it and active if one does; pressing and releasing
-- the key of code 0x5220 + layer flips this layer and keeps the others.
pub apply_layer_release-press :
    (layer i : ℕ) (s : LayerState)
    → layer < s.layer_count
    → layer < length s.ref_counts
    → get_or s.ref_counts layer 0 < 255
    → layer < 32
    → s.transient_mask < 2 ^ 32
    → let momentary = 0x5200 + layer in
      let toggle = 0x5220 + layer in
      (active (apply_layer_release momentary (apply_layer_press momentary s)) i
        ≡ (if layer == i then not (get_or s.ref_counts layer 0 == 0) else active s i))
      × (active (apply_layer_release toggle (apply_layer_press toggle s)) i
          ≡ (if layer == i then not (active s i) else active s i))
unfolding apply_layer_press apply_layer_release press_action release_action
apply_layer_release-press layer i s used held room small mask =
    let (first, second) = layer_actions layer small in
    (
      ground (arith, first, release-press_action layer i s held room small mask),
      ground (arith, second, bit-bit_xor s.transient_mask layer i, bit-single layer i),
    )
