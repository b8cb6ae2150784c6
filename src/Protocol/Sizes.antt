-- ===== src/Protocol/Sizes.antt =====
-- Bounds of the sizes in Protocol/Config: no 32-bit product or sum wraps.
use via_arduino.Base.{ℕ, ◌+◌, ◌*◌, ◌^◌, ◌≤◌, ◌<◌, ◌≡◌, some, arith, ltb}
use via_arduino.Base.{if◌then◌else◌, ◌↔◌, true}
use via_arduino.Protocol.Config.{Config, key_count, keymap_bytes, encoder_map_bytes, state_bytes}
use via_arduino.Protocol.Config.{header_size, max_custom_state_size, ranges_overlap}

-- The ranges of the fields of a Config: uint8_t, uint16_t and uint32_t.
pub record IsConfig (c : Config) : Type 0 where
  pub rows_fit : c.rows < 256
  pub columns_fit : c.columns < 256
  pub layers_fit : c.layers < 256
  pub encoders_fit : c.encoder_count < 256
  pub macros_fit : c.macro_bytes < 65536
  pub macro_count_fits : c.macro_count < 256
  pub options_fit : c.default_layout_options < 2 ^ 32
  pub auto_save_fits : c.auto_save_ms < 2 ^ 32
  pub version_fits : c.firmware_version < 2 ^ 32

pub mul-le : (a b m n : ℕ) → a ≤ m → b ≤ n → a * b ≤ m * n
mul-le a b m n p q = grind arith

keys-le : (c : Config) → IsConfig c → c.rows * c.columns * c.layers ≤ 255 * 255 * 255
keys-le c v = omega (
  arith,
  mul-le c.rows c.columns 255 255 (omega arith) (omega arith),
  mul-le (c.rows * c.columns) c.layers (255 * 255) 255
      (mul-le c.rows c.columns 255 255 (omega arith) (omega arith)) (omega arith),
)

encoders-le : (c : Config) → IsConfig c → c.layers * c.encoder_count ≤ 255 * 255
encoders-le c v = mul-le c.layers c.encoder_count 255 255 (omega arith) (omega arith)

pub key_count-eq : (c : Config) → IsConfig c → key_count c ≡ c.rows * c.columns * c.layers
unfolding key_count
key_count-eq c v = omega (arith, keys-le c v)

pub keymap_bytes-eq : (c : Config) → IsConfig c → keymap_bytes c ≡ c.rows * c.columns * c.layers * 2
unfolding keymap_bytes
keymap_bytes-eq c v = omega (arith, key_count-eq c v)

pub encoder_map_bytes-eq :
    (c : Config) → IsConfig c → encoder_map_bytes c ≡ c.layers * c.encoder_count * 4
unfolding encoder_map_bytes
encoder_map_bytes-eq c v = omega (arith, encoders-le c v)

-- The payload is as long as its five parts, and its record fits the 16-bit size field.
pub state_bytes-eq-sum :
    (c : Config) (custom : ℕ) {bytes : ℕ}
    → IsConfig c
    → state_bytes c custom ≡ some bytes
    → (bytes ≡ keymap_bytes c + encoder_map_bytes c + c.macro_bytes + 4 + custom)
      × (bytes + header_size ≤ 65535)
      × (custom ≤ max_custom_state_size)
unfolding state_bytes
state_bytes-eq-sum c custom v h =
    ground (arith, keys-le c v, encoders-le c v, keymap_bytes-eq c v, encoder_map_bytes-eq c v)

fits-state_bytes :
    (c : Config) (custom bytes : ℕ)
    → IsConfig c
    → (bytes ≡ keymap_bytes c + encoder_map_bytes c + c.macro_bytes + 4 + custom)
      × (bytes + header_size ≤ 65535)
      × (custom ≤ max_custom_state_size)
    → state_bytes c custom ≡ some bytes
unfolding state_bytes
fits-state_bytes c custom bytes v h =
    ground (arith, keys-le c v, encoders-le c v, keymap_bytes-eq c v, encoder_map_bytes-eq c v)

-- For a configuration whose fields are in the ranges of their C++ types, stateBytes succeeds with a
-- size exactly when that size is the unwrapped sum of the key map, the encoder map, the macros, the
-- four option bytes and the custom state, the record with its header is at most 65535 bytes, and
-- the custom state is at most 16.
pub state_bytes_iff :
    (c : Config) (custom bytes : ℕ)
    → IsConfig c
    → (state_bytes c custom ≡ some bytes) ↔ (
        (bytes
          ≡ c.rows * c.columns * c.layers * 2
            + c.layers * c.encoder_count * 4
            + c.macro_bytes
            + 4
            + custom)
        × (bytes + header_size ≤ 65535)
        × (custom ≤ max_custom_state_size))
state_bytes_iff c custom bytes v = (
  λ h.
      omega (arith, state_bytes-eq-sum c custom v h, keymap_bytes-eq c v, encoder_map_bytes-eq c v),
  λ h.
      fits-state_bytes c custom bytes v
        (omega (arith, keymap_bytes-eq c v, encoder_map_bytes-eq c v)),
)

overlap-shared :
    (a n b m : ℕ)
    → ranges_overlap a n b m ≡ true
    → let x = if ltb a b then b else a in (a ≤ x) × (x < a + n) × (b ≤ x) × (x < b + m)
unfolding ranges_overlap
overlap-shared a n b m h = ground arith

shared-overlap :
    (a n b m x : ℕ) → a ≤ x → x < a + n → b ≤ x → x < b + m → ranges_overlap a n b m ≡ true
unfolding ranges_overlap
shared-overlap a n b m x p q r s = ground arith

-- rangesOverlap answers true exactly when some address lies in both ranges, empty ranges included.
pub ranges_overlap_iff :
    (a n b m : ℕ)
    → (ranges_overlap a n b m ≡ true) ↔ ((x : ℕ) × (a ≤ x) × (x < a + n) × (b ≤ x) × (x < b + m))
ranges_overlap_iff a n b m = (
  λ h. let s = overlap-shared a n b m h in ((if ltb a b then b else a), s.0, s.1, s.2, s.3),
  λ s. shared-overlap a n b m s.0 s.1 s.2 s.3 s.4,
)
