-- ===== src/Encoder.antt =====
-- src/VIA_Encoder.h: the quadrature decoder of a rotary encoder.
pub mod Turns
use via_arduino.Base.{ℕ, zero, suc, ◌+◌, ◌/◌, Bool, ltb, ◌==◌, if◌then◌else◌, sub32, bit_or}

-- The signed step counter, int32_t in the source: a run of 2^31 steps one way is not modelled.
pub data ℤ : Type 0 where
  pos negsuc : ℕ → ℤ

unfoldable pub step_up : ℤ → ℤ
step_up (pos n) = pos (suc n)
step_up (negsuc zero) = pos zero
step_up (negsuc (suc n)) = negsuc n

unfoldable pub step_down : ℤ → ℤ
step_down (pos zero) = negsuc zero
step_down (pos (suc n)) = pos n
step_down (negsuc n) = negsuc (suc n)

-- Minus `n`.
unfoldable pub minus : ℕ → ℤ
minus zero = pos zero
minus (suc n) = negsuc n

pub record Encoder : Type 0 where
  pub last_state : ℕ
  pub last_pin_state : ℕ
  pub last_change_ts : ℕ
  pub debounce_us : ℕ
  pub steps : ℤ

abbrev pub new_encoder : Encoder
new_encoder = record {
  last_state = 0;
  last_pin_state = 0;
  last_change_ts = 0;
  debounce_us = 0;
  steps = pos 0;
}

unfoldable pub set_debounce_us : ℕ → Encoder → Encoder
set_debounce_us us e = record e { debounce_us = us }

-- (a ? 2 : 0) | (b ? 1 : 0)
abbrev pub pin_state : Bool → Bool → ℕ
pin_state a b = bit_or (if a then 2 else 0) (if b then 1 else 0)

-- The `switch (lastPinState_)`.
unfoldable pub turn : ℕ → ℕ → ℤ → ℤ
turn before state steps =
    if before == 0
    then (if state == 1 then step_down steps else if state == 2 then step_up steps else steps)
    else if before == 1
    then (if state == 3 then step_down steps else if state == 0 then step_up steps else steps)
    else if before == 2
    then (if state == 0 then step_down steps else if state == 3 then step_up steps else steps)
    else if before == 3
    then (if state == 2 then step_down steps else if state == 1 then step_up steps else steps)
    else steps

unfoldable pub update : Bool → Bool → ℕ → Encoder → Encoder
unfolding turn
update a b now e =
    let state = pin_state a b in
    if state == e.last_state
    then e
    else if ltb (sub32 now e.last_change_ts) e.debounce_us
    then e
    else record e {
      last_state = state;
      last_change_ts = now;
      steps = turn e.last_pin_state state e.steps;
      last_pin_state = state;
    }

-- steps_ / 4, which C++ rounds toward zero.
unfoldable pub count : Encoder → ℤ
unfolding minus
count e = elim e.steps [ pos n ↦ pos (n / 4) | negsuc n ↦ minus (suc n / 4) ]

unfoldable pub consume : Encoder → ℤ × Encoder
unfolding count
consume e = (count e, record e { steps = pos 0 })
