-- ===== src/Protocol/Keymap/Index.antt =====
-- The indices of the key map and of the encoder map: inside the arrays, and one for each place.
use via_arduino.Base.{ℕ, ◌+◌, ◌*◌, ◌/◌, ◌<◌, ◌≡◌, arith}
use native.Mathlib.Decide.{dec_lt}
use via_arduino.Protocol.Config.{Config, key_count, encoder_map_bytes}
use via_arduino.Protocol.Sizes.{IsConfig, key_count-eq, encoder_map_bytes-eq, mul-le}
use via_arduino.Protocol.Keymap.{key_index, encoder_index}

-- The row-major index of a place in rows of `n`.
row_major-lt : (a x m n : ℕ) → a < m → x < n → a * n + x < m * n
row_major-lt a x m n h k = omega (arith, mul-le (a + 1) n m n (omega arith) (omega arith))

row_major_below : (a b n x y : ℕ) → a < b → x < n → a * n + x ≡ b * n + y → a ≡ b
row_major_below a b n x y h k e =
    absurd (omega (arith, mul-le (a + 1) n b n (omega arith) (omega arith)))

row_major_inj : (a b n x y : ℕ) → x < n → y < n → a * n + x ≡ b * n + y → (a ≡ b) × (x ≡ y)
row_major_inj a b n x y h k e = elim (dec_lt a b) [
  | yes p ↦ let same = row_major_below a b n x y p h e in absurd (omega arith)
  | no p ↦ elim (dec_lt b a) [
    | yes q ↦ let same = row_major_below b a n y x q k (omega arith) in absurd (omega arith)
    | no q ↦ let same : a ≡ b = omega arith in (same, omega (arith, cong_mul a b n same))
  ]
]
  where
    cong_mul : (c d m : ℕ) → c ≡ d → c * m ≡ d * m
    cong_mul c d m same = grind arith

-- keycode and setKeycode index inside the key map.
pub key_index-lt :
    (c : Config) (layer row column : ℕ)
    → IsConfig c
    → layer < c.layers
    → row < c.rows
    → column < c.columns
    → key_index c layer row column < key_count c
key_index-lt c layer row column v hl hr hc = omega (
  arith,
  key_count-eq c v,
  row_major-lt (layer * c.rows + row) column (c.layers * c.rows) c.columns
      (row_major-lt layer row c.layers c.rows hl hr) hc,
)

pub key_index-inj :
    (c : Config) (layer row column layer' row' column' : ℕ)
    → row < c.rows
    → row' < c.rows
    → column < c.columns
    → column' < c.columns
    → key_index c layer row column ≡ key_index c layer' row' column'
    → (layer ≡ layer') × (row ≡ row') × (column ≡ column')
key_index-inj c layer row column layer' row' column' hr hr' hc hc' e =
    let outer =
      row_major_inj (layer * c.rows + row) (layer' * c.rows + row') c.columns column column' hc hc'
        e in
    let inner = row_major_inj layer layer' c.rows row row' hr hr' outer.0 in
    (inner.0, inner.1, outer.1)

pub encoder_index-lt :
    (c : Config) (layer encoder clockwise : ℕ)
    → IsConfig c
    → layer < c.layers
    → encoder < c.encoder_count
    → clockwise < 2
    → encoder_index c layer encoder clockwise < encoder_map_bytes c / 2
encoder_index-lt c layer encoder clockwise v hl he hw =
    omega
      (arith, encoder_map_bytes-eq c v, row_major-lt layer encoder c.layers c.encoder_count hl he)

pub encoder_index-inj :
    (c : Config) (layer encoder clockwise layer' encoder' clockwise' : ℕ)
    → encoder < c.encoder_count
    → encoder' < c.encoder_count
    → clockwise < 2
    → clockwise' < 2
    → encoder_index c layer encoder clockwise ≡ encoder_index c layer' encoder' clockwise'
    → (layer ≡ layer') × (encoder ≡ encoder') × (clockwise ≡ clockwise')
encoder_index-inj c layer encoder clockwise layer' encoder' clockwise' he he' hw hw' e =
    let outer =
      row_major_inj (layer * c.encoder_count + encoder) (layer' * c.encoder_count + encoder') 2
        clockwise clockwise' hw hw' e in
    let inner = row_major_inj layer layer' c.encoder_count encoder encoder' he he' outer.0 in
    (inner.0, inner.1, outer.1)
