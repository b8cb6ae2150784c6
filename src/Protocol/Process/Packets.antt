-- ===== src/Protocol/Process/Packets.antt =====
-- The parts of a reply, from the packet helpers of Protocol::process, keep a packet a packet.
use via_arduino.Base.{ℕ, ◌+◌, ◌/◌, ◌^◌, ◌<◌, arith}
use via_arduino.Base.{List, set}
use via_arduino.Base.{◌||◌}
use via_arduino.Base.{either, ltb, ◌==◌, zero, suc, u8, be16, be32, ◌>>>◌}
use via_arduino.Base.Bits.{be16_lem, be32_lem}
use via_arduino.Protocol.Board.{Board, State}
use via_arduino.Protocol.Valid.{Below, Below-append, Below-replicate}
use via_arduino.Protocol.Valid.{IsPacket, IsPacket-set, IsPacket-splice, get_or-lt}
use via_arduino.Protocol.Keymap.{read_macros}
use via_arduino.Protocol.Packet.{Packet, at, put16, put32, refuse}
use via_arduino.Protocol.Packet.{row_bytes, matrix_bytes}
use via_arduino.Protocol.Process.{disclosed_row, matrix_state, keyboard_value}

pub at-lt : (p : Packet) (i : ℕ) → IsPacket p → at p i < 256
at-lt p i h = get_or-lt 256 p i (omega arith) h.bytes

pub IsPacket-refuse : (p : Packet) → IsPacket p → IsPacket (refuse p)
IsPacket-refuse p h = IsPacket-set p 0 0xFF h (omega arith)

pub IsPacket-put16 : (p : Packet) (i v : ℕ) → IsPacket p → IsPacket (put16 p i v)
IsPacket-put16 p i v h =
    IsPacket-set (set p i (u8 (v >>> 8))) (suc i) (u8 v)
      (IsPacket-set p i (u8 (v >>> 8)) h (omega arith)) (omega arith)

pub IsPacket-put32 : (p : Packet) (v : ℕ) → IsPacket p → IsPacket (put32 p v)
IsPacket-put32 p v h =
    IsPacket-set _ 5 (u8 v)
      (IsPacket-set _ 4 (u8 (v >>> 8))
        (IsPacket-set _ 3 (u8 (v >>> 16)) (IsPacket-set p 2 (u8 (v >>> 24)) h (omega arith))
          (omega arith))
        (omega arith))
      (omega arith)

Below-row_bytes : (k row_data : ℕ) → Below 256 (row_bytes k row_data)
unfolding row_bytes
Below-row_bytes zero row_data = tt
Below-row_bytes (suc k) row_data = (omega arith, Below-row_bytes k row_data)

Below-matrix_bytes :
    (data_of : ℕ → ℕ) (width count row : ℕ) → Below 256 (matrix_bytes data_of width count row)
unfolding matrix_bytes
Below-matrix_bytes data_of width zero row = tt
Below-matrix_bytes data_of width (suc count) row =
    Below-append 256 (row_bytes width (data_of row)) _ (Below-row_bytes width (data_of row))
      (Below-matrix_bytes data_of width count (row + 1))

pub Below-read_macros :
    (bytes : ℕ) (macros : List ℕ) (off n : ℕ)
    → Below 256 macros
    → Below 256 (read_macros bytes macros off n)
unfolding read_macros
Below-read_macros bytes macros off zero h = tt
Below-read_macros bytes macros off (suc n) h =
    (ground (arith, get_or-lt 256 macros off), Below-read_macros bytes macros (off + 1) n h)

pub be16-lt : (x y : ℕ) → x < 256 → y < 256 → be16 x y < 2 ^ 16
be16-lt x y h k = omega (arith, be16_lem x y k)

pub be32-lt : (a b c d : ℕ) → a < 256 → b < 256 → c < 256 → d < 256 → be32 a b c d < 2 ^ 32
be32-lt a b c d ha hb hc hd = omega (arith, be32_lem a b c d hb hc hd)

module _ {S C : Type 0} (b : Board S C) where
  matrix_state-IsPacket : (p : Packet) → IsPacket p → IsPacket (matrix_state b p)
  unfolding matrix_state
  matrix_state-IsPacket p h =
      let width : ℕ = u8 ((b.config.columns + 7) / 8) in
      let rows = matrix_bytes (disclosed_row b) width (28 / width) (at p 2) in
      either IsPacket (width == 0 || ltb 4 width) {x = refuse p} (IsPacket-refuse p h) (
        IsPacket-splice p 3 _ h (
          Below-append 256 rows _ (Below-matrix_bytes (disclosed_row b) width (28 / width) (at p 2))
            (Below-replicate 256 _ 0 (omega arith))))

  pub keyboard_value-IsPacket :
      (now : ℕ) (p : Packet) (s : State S C) → IsPacket p → IsPacket (keyboard_value b now p s)
  unfolding keyboard_value
  keyboard_value-IsPacket now p s h = either IsPacket (at p 1 == 0x01) (IsPacket-put32 p now h) (
      either IsPacket (at p 1 == 0x02) (IsPacket-put32 p s.layout_options h) (
        either IsPacket (at p 1 == 0x03) (matrix_state-IsPacket p h) (
          either IsPacket (at p 1 == 0x04) (IsPacket-put32 p b.config.firmware_version h) (
            either IsPacket (at p 1 == 0x06)
              (IsPacket-set _ 5 8
                (IsPacket-set _ 2 0
                  (IsPacket-set _ 3 0 (IsPacket-set p 4 0 h (omega arith)) (omega arith))
                  (omega arith))
                (omega arith))
              (IsPacket-refuse p h)))))
