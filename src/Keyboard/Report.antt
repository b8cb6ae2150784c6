-- ===== src/Keyboard/Report.antt =====
-- KeyboardReport and Keyboard::buildReport.
use via_arduino.Base.{ℕ, ◌+◌, ◌-◌, Bool, true, false, not, ◌&&◌, ◌||◌, List, [], ◌∷◌, ◌++◌}
use via_arduino.Base.{length, replicate, ltb, ◌==◌, if◌then◌else◌, u8, bit_or}
use via_arduino.Keycodes.{KeycodeType, classify_keycode, extract_basic_usage, extract_modifier_mask}

-- `reserved` is always 0, and `keys` are six.
pub record KeyboardReport : Type 0 where
  pub modifiers : ℕ
  pub keys : List ℕ

abbrev pub is_basic : KeycodeType → Bool
is_basic KeycodeType.basic = true
is_basic _ = false

abbrev pub is_modifier : KeycodeType → Bool
is_modifier KeycodeType.modifier = true
is_modifier _ = false

abbrev pub basic_code : ℕ → Bool
basic_code code = not (code == 0x0000) && is_basic (classify_keycode code)

abbrev pub modifier_code : ℕ → Bool
modifier_code code = not (code == 0x0000) && is_modifier (classify_keycode code)

-- The first pass: basicCount, a uint8_t, and the modifiers.
unfoldable pub count_basic : List ℕ → ℕ → ℕ
count_basic [] n = n
count_basic (code ∷ codes) n = count_basic codes (if basic_code code then u8 (n + 1) else n)

unfoldable pub collect_modifiers : List ℕ → ℕ → ℕ
collect_modifiers [] mask = mask
collect_modifiers (code ∷ codes) mask =
    collect_modifiers codes
      (if modifier_code code then bit_or mask (extract_modifier_mask code) else mask)

abbrev pub contains : ℕ → List ℕ → Bool
contains usage [] = false
contains usage (key ∷ keys) = key == usage || contains usage keys

-- The second pass, with the keys filled in so far; it ends when there are six.
unfoldable pub fill_keys : List ℕ → List ℕ → List ℕ
fill_keys [] keys = keys
fill_keys (code ∷ codes) keys =
    let usage = extract_basic_usage code in
    fill_keys codes (
      if ltb (length keys) 6 && (basic_code code && not (contains usage keys))
      then keys ++ (usage ∷ [])
      else keys)

-- Of the codes of the first `total` keys; 0x01 is ErrorRollOver.
unfoldable pub build_report : List ℕ → KeyboardReport
unfolding count_basic collect_modifiers fill_keys
build_report codes =
    let modifiers = collect_modifiers codes 0 in
    let keys = fill_keys codes [] in
    if ltb 6 (count_basic codes 0)
    then record { modifiers = modifiers; keys = replicate 6 0x01 }
    else record { modifiers = modifiers; keys = keys ++ replicate (6 - length keys) 0 }

abbrev pub same_keys : List ℕ → List ℕ → Bool
same_keys [] [] = true
same_keys (x ∷ xs) (y ∷ ys) = x == y && same_keys xs ys
same_keys _ _ = false

-- memcmp of two reports.
unfoldable pub same_report : KeyboardReport → KeyboardReport → Bool
same_report a b = a.modifiers == b.modifiers && same_keys a.keys b.keys
