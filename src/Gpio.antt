-- ===== src/Gpio.antt =====
-- src/VIA_nRF52_GPIO.h, src/VIA_ESP32_GPIO.h, src/VIA_ESP32S3_GPIO.h and src/VIA_STM32F1_GPIO.h: the
-- pins of the switch matrix over the functions of an Arduino core.
pub mod Polarity
use via_arduino.Base.{ℕ, zero, suc, Bool, not, Option, none}
use via_arduino.Matrix.{MatrixIo, Pin}

-- The functions of the core: pinMode with INPUT_PULLUP and with OUTPUT, digitalWrite of LOW,
-- digitalRead, which is true for HIGH, and delayMicroseconds.
pub record Arduino (M : Type 0) : Type 0 where
  pub input_pullup : Pin → M → M
  pub output : Pin → M → M
  pub write_low : Pin → M → M
  pub digital_read : Pin → M → Bool × M
  pub delay_microseconds : ℕ → M → M

module _ {M : Type 0} (core : Arduino M) where
  abbrev pub drive_low : Pin → M → M
  drive_low pin m = core.write_low pin (core.output pin m)

  -- nrf52::MatrixIOArduino: read is digitalRead(pin) == LOW.
  unfoldable pub nrf52_io : MatrixIo M
  nrf52_io = record {
    input_pullup = core.input_pullup;
    drive_low = drive_low;
    release = core.input_pullup;
    read = λ pin m. let (high, m') = core.digital_read pin m in (not high, m');
    delay_microseconds = core.delay_microseconds;
  }

  -- esp32::MatrixIOArduino: read is digitalRead(pin) != HIGH.
  unfoldable pub esp32_io : MatrixIo M
  esp32_io = record {
    input_pullup = core.input_pullup;
    drive_low = drive_low;
    release = core.input_pullup;
    read = λ pin m. let (high, m') = core.digital_read pin m in (not high, m');
    delay_microseconds = core.delay_microseconds;
  }

  -- read of esp32s3::MatrixIOArduino: digitalRead(pin) != HIGH.
  unfoldable pub esp32s3_read : Pin → M → Bool × M
  esp32s3_read pin m = let (high, m') = core.digital_read pin m in (not high, m')

  -- read of stm32f1::MatrixIOArduino: digitalRead(pin) != LOW.
  unfoldable pub stm32f1_read : Pin → M → Bool × M
  stm32f1_read pin m = core.digital_read pin m

-- delayMicroseconds of esp32s3::MatrixIOArduino and of stm32f1::MatrixIOArduino: in the body the
-- name is that of the method itself. `none` means that the fuel ran out.
unfoldable pub esp32s3_delay : {M : Type 0} → ℕ → ℕ → M → Option M
esp32s3_delay zero us m = none
esp32s3_delay (suc fuel) us m = esp32s3_delay fuel us m

unfoldable pub stm32f1_delay : {M : Type 0} → ℕ → ℕ → M → Option M
stm32f1_delay zero us m = none
stm32f1_delay (suc fuel) us m = stm32f1_delay fuel us m
