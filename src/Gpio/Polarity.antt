-- ===== src/Gpio/Polarity.antt =====
-- What the scan of the matrix makes of the levels that the pin adapters give it.
use via_arduino.Base.{
  ℕ, zero, suc, ◌+◌, ◌≡◌, refl, arith, ap, ◌∙◌, Bool, true, false, not, ◌-◌, ◌&&◌, ◌||◌, List, [],
  ◌∷◌, ◌==◌, if◌then◌else◌, bit, leb, bit_or, bit-bit_or, ◌<<<◌, ◌^◌, none,
}
use via_arduino.Matrix.{MatrixIo, MatrixConfig, Pin, read_columns}
use via_arduino.Gpio.{Arduino, nrf52_io, esp32_io, esp32s3_delay, stm32f1_delay}

-- The pin at the index `i`, if there is one, has the property `p`.
abbrev pub holds_at : (Pin → Bool) → List Pin → ℕ → Bool
holds_at p [] i = false
holds_at p (pin ∷ pins) zero = p pin
holds_at p (pin ∷ pins) (suc i) = holds_at p pins i

holds_at-cons :
    (p : Pin → Bool) (pin : Pin) (pins : List Pin) (k : ℕ)
    → holds_at p (pin ∷ pins) k ≡ (if k == 0 then p pin else holds_at p pins (k - 1))
holds_at-cons p pin pins zero = refl
holds_at-cons p pin pins (suc k) =
    let more : (suc k == 0) ≡ false = ground arith in rw more (ap (holds_at p pins) (omega arith))

-- One more column: a set bit, the bit of this column, or one of those after it.
bits_step :
    (p : Pin → Bool) (pin : Pin) (pins : List Pin) (c j : ℕ) (old : Bool)
    → (old || (p pin && c == j)) || (leb (c + 1) j && holds_at p pins (j - (c + 1)))
      ≡ old || (leb c j && holds_at p (pin ∷ pins) (j - c))
bits_step p pin pins c j true = refl
bits_step p pin pins c j false =
    let same : j - c - 1 ≡ j - (c + 1) = omega arith in
    rw (holds_at-cons p pin pins (j - c), same) (ground arith)

module _ {M : Type 0} (io : MatrixIo M) (config : MatrixConfig) (answer : M → Pin → Bool) where
  bit-mark :
      (closed : Bool) (v c j : ℕ)
      → bit (if closed then bit_or v (1 <<< c) else v) j ≡ bit v j || (closed && c == j)
  bit-mark true v c j = ap (λ k. bit (bit_or v k) j) {y = 2 ^ c} (omega arith) ∙ bit-bit_or v c j
  bit-mark false v c j = ground arith

  -- Bit c + i of the word is set if it was before or if the read of the pin at `i` answers false.
  read_columns_bits :
      (reads : (pin : Pin) (m : M) → io.read pin m ≡ (answer m pin, m)) (pins : List Pin) (c v : ℕ)
      (m : M) (j : ℕ)
      → bit (read_columns io config pins c (v, m)).0 j
        ≡ bit v j || (leb c j && holds_at (λ pin. not (answer m pin)) pins (j - c))
  unfolding read_columns
  read_columns_bits reads [] c v m j = ground arith
  read_columns_bits reads (pin ∷ pins) c v m j =
      rw (read_columns, reads pin m)
        (read_columns_bits reads pins (c + 1) (if not (answer m pin) then bit_or v (1 <<< c) else v)
            m j
          ∙ ap
              (λ t. t || (leb (c + 1) j && holds_at (λ pin. not (answer m pin)) pins (j - (c + 1))))
              (bit-mark (not (answer m pin)) v c j)
          ∙ bits_step (λ pin. not (answer m pin)) pin pins c j (bit v j))

bit-zero : (j : ℕ) → bit 0 j ≡ false
bit-zero zero = refl
bit-zero (suc j) = bit-zero j

holds_at-not-not :
    (p : Pin → Bool) (pins : List Pin) (j : ℕ)
    → holds_at (λ pin. not (not (p pin))) pins j ≡ holds_at p pins j
holds_at-not-not p [] j = refl
holds_at-not-not p (pin ∷ pins) zero = ground arith
holds_at-not-not p (pin ∷ pins) (suc j) = holds_at-not-not p pins j

bits_all :
    (p : Pin → Bool) (pins : List Pin) (j : ℕ)
    → bit 0 j || (leb 0 j && holds_at (λ pin. not (not (p pin))) pins (j - 0)) ≡ holds_at p pins j
bits_all p pins j =
    let same : j - 0 ≡ j = omega arith in
    let first : leb 0 j ≡ true = ground arith in
    rw (bit-zero j, first, same) (holds_at-not-not p pins j)

module _ {M : Type 0} (core : Arduino M) (config : MatrixConfig) (level : M → Pin → Bool) where
  -- Over a core whose digitalRead gives the level of the pin and changes nothing: while a row is
  -- driven, the scan through the nRF52 or the ESP32 adapter sets the bit of exactly those columns
  -- whose pin is HIGH, which are the open switches of a matrix with pull-ups.
  pub read_columns-open :
      (reads : (pin : Pin) (m : M) → core.digital_read pin m ≡ (level m pin, m)) (pins : List Pin)
      (m : M) (j : ℕ)
      → (bit (read_columns (nrf52_io core) config pins 0 (0, m)).0 j ≡ holds_at (level m) pins j)
        × (bit (read_columns (esp32_io core) config pins 0 (0, m)).0 j ≡ holds_at (level m) pins j)
  unfolding nrf52_io esp32_io
  read_columns-open reads pins m j = (through (nrf52_io core) refl, through (esp32_io core) refl)
    where
      through :
          (io : MatrixIo M)
          → io.read ≡ (λ pin m. let (high, m') = core.digital_read pin m in (not high, m'))
          → bit (read_columns io config pins 0 (0, m)).0 j ≡ holds_at (level m) pins j
      through io e =
          read_columns_bits io config (λ m pin. not (level m pin))
            (λ pin m'. ap (λ f. f pin m') e ∙ ap (λ r. (not r.0, r.1)) (reads pin m')) pins 0 0 m j
          ∙ bits_all (level m) pins j

-- Neither call of delayMicroseconds returns, whatever the fuel.
delay-never :
    {M : Type 0} (fuel us : ℕ) (m : M)
    → (esp32s3_delay fuel us m ≡ none) × (stm32f1_delay fuel us m ≡ none)
unfolding esp32s3_delay stm32f1_delay
delay-never zero us m = (refl, refl)
delay-never (suc fuel) us m = delay-never fuel us m
