-- ===== src/RgbLight.antt =====
-- src/VIA_RGBLight.cpp and src/VIA_RGBLight.h: the custom value of VIA's RGB light channel.
pub mod Laws
use via_arduino.Base.{ℕ, ◌+◌, Bool, true, false, not, ◌&&◌, ◌||◌, Option, none, some, List, [], ◌∷◌}
use via_arduino.Base.{get_or, set, leb, ◌==◌, if◌then◌else◌}
use via_arduino.Protocol.Board.{CustomValue}

pub record RgbLightState : Type 0 where
  pub brightness : ℕ
  pub effect : ℕ
  pub speed : ℕ
  pub hue : ℕ
  pub saturation : ℕ

-- class RGBLight: the state it refers to, whether it has callbacks, and the states that it handed
-- to RGBLightCallbacks::apply, last first.
pub record RgbLight : Type 0 where
  pub state : RgbLightState
  pub listening : Bool
  pub applied : List RgbLightState

unfoldable pub apply : RgbLight → RgbLight
apply l = if l.listening then record l { applied = l.state ∷ l.applied } else l

-- packet[1] >= 0x80
abbrev pub v3_form : List ℕ → Bool
v3_form p = leb 0x80 (get_or p 1 0)

-- Not of this channel: !v3Form && packet[1] != 0x02.
abbrev pub foreign : List ℕ → Bool
foreign p = not (v3_form p) && not (get_or p 1 0 == 0x02)

abbrev pub command : List ℕ → ℕ
command p = if v3_form p then get_or p 1 0 else get_or p 2 0

-- Where the command's values begin: v3Form ? 2 : 3.
abbrev pub value_at : List ℕ → ℕ
value_at p = if v3_form p then 2 else 3

-- The case labels of the two switches; `color` is hue and saturation.
pub data Field : Type 0 where
  brightness effect speed color unknown : Field

unfoldable pub field_of : ℕ → Field
field_of code =
    if code == 0x80 || code == 0x01
    then Field.brightness
    else if code == 0x81 || code == 0x02
    then Field.effect
    else if code == 0x82 || code == 0x03
    then Field.speed
    else if code == 0x83 || code == 0x04
    then Field.color
    else unknown

unfoldable pub set_field : Field → List ℕ → RgbLight → Bool × RgbLight
unfolding apply
set_field brightness p l =
    (true, apply (record l { state = record (l.state) { brightness = get_or p (value_at p) 0 } }))
set_field effect p l =
    (true, apply (record l { state = record (l.state) { effect = get_or p (value_at p) 0 } }))
set_field speed p l =
    (true, apply (record l { state = record (l.state) { speed = get_or p (value_at p) 0 } }))
set_field color p l = (
  true,
  apply (record l {
    state = record (l.state) {
      hue = get_or p (value_at p) 0;
      saturation = get_or p (value_at p + 1) 0;
    };
  }),
)
set_field unknown p l = (false, l)

unfoldable pub set_value : RgbLight → List ℕ → Bool × List ℕ × RgbLight
unfolding field_of set_field
set_value l p =
    let (done, l') = set_field (field_of (command p)) p l in
    if foreign p then (false, p, l) else (done, p, l')

unfoldable pub get_field : Field → List ℕ → RgbLightState → Bool × List ℕ
get_field brightness p s = (true, set p (value_at p) s.brightness)
get_field effect p s = (true, set p (value_at p) s.effect)
get_field speed p s = (true, set p (value_at p) s.speed)
get_field color p s = (true, set (set p (value_at p) s.hue) (value_at p + 1) s.saturation)
get_field unknown p s = (false, p)

unfoldable pub get_value : RgbLight → List ℕ → Bool × List ℕ × RgbLight
unfolding field_of get_field
get_value l p =
    let (done, p') = get_field (field_of (command p)) p l.state in
    if foreign p then (false, p, l) else (done, p', l)

unfoldable pub save_value : RgbLight → List ℕ → Bool × List ℕ × RgbLight
save_value l p = (v3_form p || get_or p 1 0 == 0x02, p, l)

-- sizeof(RGBLightState), and its memory.
abbrev pub state_size : ℕ
state_size = 5

abbrev pub state_bytes : RgbLightState → List ℕ
state_bytes s = s.brightness ∷ s.effect ∷ s.speed ∷ s.hue ∷ s.saturation ∷ []

unfoldable pub save_state : RgbLight → ℕ → Option (List ℕ)
save_state l n = if n == state_size then some (state_bytes l.state) else none

unfoldable pub load_state : RgbLight → List ℕ → ℕ → Bool × RgbLight
unfolding apply
load_state l input n =
    if n == state_size
    then (
      true,
      apply (record l {
        state = record {
          brightness = get_or input 0 0;
          effect = get_or input 1 0;
          speed = get_or input 2 0;
          hue = get_or input 3 0;
          saturation = get_or input 4 0;
        };
      }),
    )
    else (false, l)

-- reset and validateState are those of class CustomValue.
unfoldable pub validate_state : RgbLight → List ℕ → ℕ → Bool
validate_state l input n = n == state_size

abbrev pub rgb_ops : CustomValue RgbLight
rgb_ops = record {
  set_value = set_value;
  get_value = get_value;
  save_value = save_value;
  reset_value = λ l. l;
  state_size = λ l. state_size;
  save_state = save_state;
  validate_state = validate_state;
  load_state = load_state;
}
