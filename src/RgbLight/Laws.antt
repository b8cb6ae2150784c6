-- ===== src/RgbLight/Laws.antt =====
-- The RGB light reads back what was set, and loads what it saved.
use via_arduino.Base.{ℕ, zero, suc, ◌≡◌, refl, arith, ap, List, [], ◌∷◌}
use via_arduino.Base.{◌+◌, ◌<◌, Bool, get_or, set, either}
use via_arduino.Protocol.Valid.{Below, IsPacket, IsPacket-set, get_or-lt}
use via_arduino.Protocol.Contract.{IsPersistent, IsByteWise}
use via_arduino.RgbLight.{
  RgbLight, Field, apply, save_value, foreign, set_value, get_value, set_field, get_field,
}
use via_arduino.RgbLight.{field_of, value_at, command, save_state, load_state}
use via_arduino.RgbLight.{validate_state, rgb_ops}

set-get_or : (xs : List ℕ) (i : ℕ) → set xs i (get_or xs i 0) ≡ xs
set-get_or [] i = refl
set-get_or (x ∷ xs) zero = refl
set-get_or (x ∷ xs) (suc i) = ap (λ t. x ∷ t) (set-get_or xs i)

get_field-set_field :
    (f : Field) (p : List ℕ) (l : RgbLight)
    → get_field f p (set_field f p l).1.state ≡ ((set_field f p l).0, p)
unfolding get_field set_field
get_field-set_field Field.brightness p l = ground (arith, set-get_or p (value_at p))
get_field-set_field Field.effect p l = ground (arith, set-get_or p (value_at p))
get_field-set_field Field.speed p l = ground (arith, set-get_or p (value_at p))
get_field-set_field Field.color p l =
    ground (arith, set-get_or p (value_at p), set-get_or p (value_at p + 1))
get_field-set_field Field.unknown p l = refl

-- A command that set a value, sent again as a read, is answered by the same packet; one that set
-- refuses, get refuses, and then neither changes the packet.
pub get_value-set_value :
    (l : RgbLight) (p : List ℕ)
    → let (done, p', l') = set_value l p in get_value l' p ≡ (done, p, l')
unfolding set_value get_value
get_value-set_value l p = ground (arith, get_field-set_field (field_of (command p)) p l)

-- The saved bytes have the announced size, are valid for every RGBLight, and loading them anywhere
-- succeeds and is saved as the same bytes.
pub rgb-IsPersistent : IsPersistent rgb_ops
unfolding save_state load_state validate_state
rgb-IsPersistent = record {
  saved_size = λ c e. ground arith;
  saved_valid = λ c d same e. refl;
  saved_loads = λ c d same e. (ground arith, ground arith);
  size_kept = λ c bytes n. refl;
}

-- The members are bytes.
abbrev pub IsByteState : RgbLight → Type 0
IsByteState l =
    (l.state.brightness < 256)
    × (l.state.effect < 256)
    × (l.state.speed < 256)
    × (l.state.hue < 256)
    × (l.state.saturation < 256)

set_field-IsByteState :
    (f : Field) (p : List ℕ) (l : RgbLight)
    → IsByteState l
    → IsPacket p
    → IsByteState (set_field f p l).1
unfolding set_field apply
set_field-IsByteState f p l h packet =
    let first = get_or-lt 256 p (value_at p) (omega arith) packet.bytes in
    let second = get_or-lt 256 p (value_at p + 1) (omega arith) packet.bytes in
    elim f as (λ k. IsByteState (set_field k p l).1) [
      | Field.brightness ↦ ground arith
      | Field.effect ↦ ground arith
      | Field.speed ↦ ground arith
      | Field.color ↦ ground arith
      | Field.unknown ↦ h
    ]

get_field-IsPacket :
    (f : Field) (p : List ℕ) (l : RgbLight)
    → IsByteState l
    → IsPacket p
    → IsPacket (get_field f p l.state).1
unfolding get_field
get_field-IsPacket Field.brightness p l h packet = IsPacket-set p _ _ packet h.0
get_field-IsPacket Field.effect p l h packet = IsPacket-set p _ _ packet h.1
get_field-IsPacket Field.speed p l h packet = IsPacket-set p _ _ packet h.2
get_field-IsPacket Field.color p l h packet = IsPacket-set _ _ _ (IsPacket-set p _ _ packet h.3) h.4
get_field-IsPacket Field.unknown p l h packet = packet

load_state-IsByteState :
    (l : RgbLight) (bytes : List ℕ) (n : ℕ)
    → IsByteState l
    → Below 256 bytes
    → IsByteState (load_state l bytes n).1
unfolding load_state apply
load_state-IsByteState l bytes n h b =
    let first = get_or-lt 256 bytes 0 (omega arith) b in
    let second = get_or-lt 256 bytes 1 (omega arith) b in
    let third = get_or-lt 256 bytes 2 (omega arith) b in
    let fourth = get_or-lt 256 bytes 3 (omega arith) b in
    let fifth = get_or-lt 256 bytes 4 (omega arith) b in ground arith

-- An RGBLight whose members are bytes keeps to bytes: its replies are packets, what it saves are
-- bytes, and set, get, save, reset and loadState leave its members bytes.
pub rgb-IsByteWise : IsByteWise rgb_ops IsByteState
unfolding set_value get_value save_value save_state
rgb-IsByteWise = record {
  set_lem = λ l p h packet. (
    either (λ (r : Bool × List ℕ × RgbLight). IsPacket r.1) (foreign p) packet packet,
    either (λ (r : Bool × List ℕ × RgbLight). IsByteState r.2) (foreign p) h
        (set_field-IsByteState (field_of (command p)) p l h packet),
  );
  get_lem = λ l p h packet. (
    either (λ (r : Bool × List ℕ × RgbLight). IsPacket r.1) (foreign p) packet
        (get_field-IsPacket (field_of (command p)) p l h packet),
    either (λ (r : Bool × List ℕ × RgbLight). IsByteState r.2) (foreign p) h h,
  );
  commit_lem = λ l p h packet. (packet, h);
  reset_lem = λ l h. h;
  load_lem = load_state-IsByteState;
  image_lem = λ l n h e. ground (arith, h);
}
