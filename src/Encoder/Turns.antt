-- ===== src/Encoder/Turns.antt =====
-- The decoder follows the position of the shaft.
use via_arduino.Base.{ℕ, zero, suc, ◌+◌, ◌-◌, ◌*◌, ◌%◌, ◌<◌, ◌≡◌, arith, Bool, true, false, ap}
use via_arduino.Base.{ltb, ◌==◌, if◌then◌else◌, sub32, not, ◌&&◌, ◌∙◌}
use via_arduino.Encoder.{Encoder, ℤ, pos, step_up, step_down, update, turn, pin_state, count}
use via_arduino.Encoder.{consume}

-- The quarter of its cycle that a clockwise shaft is in: 00, 10, 11, 01.
unfoldable pub quarter : ℕ → ℕ
quarter state = if state == 0 then 0 else if state == 2 then 1 else if state == 3 then 2 else 3

-- The steps after a move by this many quarters, mod 4; a move by two is ambiguous and not counted.
unfoldable pub moved : ℕ → ℤ → ℤ
moved quarters steps =
    if quarters == 1 then step_up steps else if quarters == 3 then step_down steps else steps

-- The pins last seen and last counted are the same two bits.
pub record IsSynced (e : Encoder) : Type 0 where
  pub same : e.last_pin_state ≡ e.last_state
  pub two_bits : e.last_state < 4

turn_lem :
    (before state : ℕ) (steps : ℤ)
    → before < 4
    → state < 4
    → turn before state steps ≡ moved ((quarter state + 4 - quarter before) % 4) steps
unfolding turn moved quarter
turn_lem before state steps h k = ground arith

pin_state-lt : (a b : Bool) → pin_state a b < 4
pin_state-lt true true = omega arith
pin_state-lt true false = omega arith
pin_state-lt false true = omega arith
pin_state-lt false false = omega arith

-- An update counts the quarter turns between the pins last seen and the pins now, unless it comes
-- within the debounce time, when it changes nothing; the decoder stays synced.
pub update_lem :
    (a b : Bool) (now : ℕ) (e : Encoder)
    → IsSynced e
    → let taken =
        not (pin_state a b == e.last_state)
        && not (ltb (sub32 now e.last_change_ts) e.debounce_us) in
      IsSynced (update a b now e)
      × ((update a b now e).steps ≡ (
          if taken
          then moved ((quarter (pin_state a b) + 4 - quarter e.last_state) % 4) e.steps
          else e.steps))
unfolding update
update_lem a b now e s = (
  record { same = ground (arith, s.same); two_bits = ground (arith, s.two_bits, pin_state-lt a b) },
  ground
      (arith, s.same, turn_lem e.last_state (pin_state a b) e.steps s.two_bits (pin_state-lt a b)),
)

-- One clockwise cycle of the pins, from both low: A rises, B rises, A falls, B falls.
unfoldable pub cycle : ℕ → Encoder → Encoder
cycle now e =
    update false false now (update false true now (update true true now (update true false now e)))

unfoldable pub cycles : ℕ → ℕ → Encoder → Encoder
cycles zero now e = e
cycles (suc n) now e = cycles n now (cycle now e)

cycle_lem :
    (now n : ℕ) (e : Encoder)
    → e.last_state ≡ 0
    → e.last_pin_state ≡ 0
    → e.debounce_us ≡ 0
    → e.steps ≡ pos n
    → ((cycle now e).last_state ≡ 0)
      × ((cycle now e).last_pin_state ≡ 0)
      × ((cycle now e).debounce_us ≡ 0)
      × ((cycle now e).steps ≡ pos (n + 4))
unfolding cycle update turn step_up step_down
cycle_lem now n e h k d s = ground (arith, h, k, d, s)

cycles_lem :
    (k now n : ℕ) (e : Encoder)
    → e.last_state ≡ 0
    → e.last_pin_state ≡ 0
    → e.debounce_us ≡ 0
    → e.steps ≡ pos n
    → (cycles k now e).steps ≡ pos (n + k * 4)
unfolding cycles
cycles_lem zero now n e h p d s = s ∙ ap pos (omega arith)
cycles_lem (suc k) now n e h p d s =
    let one = cycle_lem now n e h p d s in
    cycles_lem k now (n + 4) (cycle now e) one.0 one.1 one.2 one.3 ∙ ap pos (omega arith)

-- From rest with both pins low and no debounce time, `k` clockwise cycles are counted as `k`.
pub consume-cycles :
    (k now : ℕ) (e : Encoder)
    → e.last_state ≡ 0
    → e.last_pin_state ≡ 0
    → e.debounce_us ≡ 0
    → e.steps ≡ pos 0
    → (consume (cycles k now e)).0 ≡ pos k
unfolding consume count
consume-cycles k now e h p d s = ground (arith, cycles_lem k now 0 e h p d s)
