-- ===== src/Keyboard/Keys.antt =====
-- The report holds just the keys and modifiers that are down.
use via_arduino.Base.{
  ℕ, zero, suc, ◌+◌, ◌-◌, ◌≤◌, ◌<◌, ◌^◌, ◌≡◌, refl, arith, Bool, true, false, not, ◌&&◌, ◌||◌,
}
use via_arduino.Base.{
  u8, leb, bit_or, pow_lt, List, [], ◌∷◌, ◌++◌, length, replicate, ltb, ◌==◌, if◌then◌else◌, ◌∙◌,
  ap, bit, bit-bit_or, Bool-cases, inl, inr,
}
use via_arduino.Keycodes.{classify_keycode, extract_basic_usage, extract_modifier_mask}
use via_arduino.Keyboard.Report.{
  build_report, count_basic, collect_modifiers, fill_keys, basic_code, modifier_code, contains,
}

-- How many of the codes are basic, and whether one of them has this usage.
abbrev pub basics : List ℕ → ℕ
basics [] = 0
basics (code ∷ codes) = (if basic_code code then 1 else 0) + basics codes

abbrev pub holds : ℕ → List ℕ → Bool
holds usage [] = false
holds usage (code ∷ codes) =
    (basic_code code && extract_basic_usage code == usage) || holds usage codes

count_basic-eq :
    (codes : List ℕ) (n : ℕ) → n + basics codes < 256 → count_basic codes n ≡ n + basics codes
unfolding count_basic
count_basic-eq [] n h = omega arith
count_basic-eq (code ∷ codes) n h = elim (Bool-cases (basic_code code)) [
  | inl on ↦
      ap (λ c. count_basic codes (if c then u8 (n + 1) else n)) on
      ∙ ap (count_basic codes) (ground (arith, on, h))
      ∙ count_basic-eq codes (n + 1) (ground (arith, on, h))
      ∙ ground (arith, on)
  | inr other ↦
      ap (λ c. count_basic codes (if c then u8 (n + 1) else n)) other
      ∙ count_basic-eq codes n (ground (arith, other, h))
      ∙ ground (arith, other)
]

contains-append :
    (usage x : ℕ) (keys : List ℕ)
    → contains usage (keys ++ (x ∷ [])) ≡ contains usage keys || x == usage
contains-append usage x [] = ground arith
contains-append usage x (k ∷ keys) = ground (arith, contains-append usage x keys)

length-snoc : (keys : List ℕ) (x : ℕ) → length (keys ++ (x ∷ [])) ≡ length keys + 1
length-snoc [] x = refl
length-snoc (k ∷ keys) x = omega (arith, length-snoc keys x)

same_usage :
    (usage other : ℕ) (keys : List ℕ)
    → (other == usage) ≡ true
    → contains other keys ≡ contains usage keys
same_usage usage other keys e = ap (λ u. contains u keys) (ground arith)

contains-fill_keys :
    (usage : ℕ) (codes keys : List ℕ)
    → length keys + basics codes ≤ 6
    → contains usage (fill_keys codes keys) ≡ contains usage keys || holds usage codes
unfolding fill_keys
contains-fill_keys usage [] keys h = ground arith
contains-fill_keys usage (code ∷ codes) keys h =
    let usage' = extract_basic_usage code in
    let taken = basic_code code && not (contains usage' keys) in
    let room : (ltb (length keys) 6 && taken) ≡ taken = ground (arith, h) in
    elim (Bool-cases taken) [
      | inl on ↦
          ap (λ c. contains usage (fill_keys codes (if c then keys ++ (usage' ∷ []) else keys)))
            (room ∙ on)
          ∙ contains-fill_keys usage codes (keys ++ (usage' ∷ []))
              (ground (arith, h, on, length-snoc keys usage'))
          ∙ ground (arith, on, contains-append usage usage' keys)
      | inr off ↦
          ap (λ c. contains usage (fill_keys codes (if c then keys ++ (usage' ∷ []) else keys)))
            (room ∙ off)
          ∙ contains-fill_keys usage codes keys (ground (arith, h))
          ∙ ground (arith, off, λ (e : (usage' == usage) ≡ true). same_usage usage usage' keys e)
    ]

contains-padding :
    (usage n : ℕ) (keys : List ℕ)
    → (usage == 0) ≡ false
    → contains usage (keys ++ replicate n 0) ≡ contains usage keys
contains-padding usage zero [] h = refl
contains-padding usage (suc n) [] h = ground (arith, contains-padding usage n [] h)
contains-padding usage n (k ∷ keys) h = ground (arith, contains-padding usage n keys h)

-- With up to six basic key codes held, a usage other than 0 is in the report exactly if some held
-- basic code has that usage: no key is lost and none is made up.
pub build_report-keys :
    (usage : ℕ) (codes : List ℕ)
    → (usage == 0) ≡ false
    → basics codes ≤ 6
    → contains usage (build_report codes).keys ≡ holds usage codes
unfolding build_report
build_report-keys usage codes h few = ground (
  arith,
  count_basic-eq codes 0 (omega (arith, few)),
  contains-padding usage (6 - length (fill_keys codes [])) (fill_keys codes []) h,
  contains-fill_keys usage codes [] (omega (arith, few)),
)

-- With more than six basic keys down, and fewer than 256, all six keys of the report are 0x01.
pub build_report-rollover :
    (codes : List ℕ)
    → 6 < basics codes
    → basics codes < 256
    → (build_report codes).keys ≡ replicate 6 0x01
unfolding build_report
build_report-rollover codes many few =
    ground (arith, count_basic-eq codes 0 (omega (arith, few)), many)

-- Whether the modifier with this code is down.
abbrev pub modifier_down : ℕ → List ℕ → Bool
modifier_down m [] = false
modifier_down m (code ∷ codes) = code == m || modifier_down m codes

modifier_code_iff : (code : ℕ) → modifier_code code ≡ leb 0xE0 code && leb code 0xE7
unfolding classify_keycode
modifier_code_iff code = ground arith

mask_power : (code : ℕ) → 0xE0 ≤ code → code ≤ 0xE7 → extract_modifier_mask code ≡ 2 ^ (code - 0xE0)
unfolding extract_modifier_mask
mask_power code h k = omega (arith, pow_lt (code - 0xE0) 8 (omega arith))

bit-collect_modifiers :
    (codes : List ℕ) (mask i : ℕ)
    → i < 8
    → bit (collect_modifiers codes mask) i ≡ bit mask i || modifier_down (0xE0 + i) codes
unfolding collect_modifiers
bit-collect_modifiers [] mask i h = ground arith
bit-collect_modifiers (code ∷ codes) mask i h = elim (Bool-cases (modifier_code code)) [
  | inl on ↦
      let range : (0xE0 ≤ code) × (code ≤ 0xE7) = ground (arith, on, modifier_code_iff code) in
      let j = code - 0xE0 in
      ap
        (λ c.
          bit
            (collect_modifiers codes (if c then bit_or mask (extract_modifier_mask code) else mask))
            i)
        on
      ∙ ap (λ m. bit (collect_modifiers codes (bit_or mask m)) i) (mask_power code range.0 range.1)
      ∙ bit-collect_modifiers codes (bit_or mask (2 ^ j)) i h
      ∙ ap (λ c. c || modifier_down (0xE0 + i) codes) (bit-bit_or mask j i)
      ∙ ground (arith, range)
  | inr off ↦
      ap
        (λ c.
          bit
            (collect_modifiers codes (if c then bit_or mask (extract_modifier_mask code) else mask))
            i)
        off
      ∙ bit-collect_modifiers codes mask i h
      ∙ ground (arith, off, modifier_code_iff code, h)
]

-- Bit i of the report's modifiers is set exactly if the modifier 0xE0 + i is down.
pub build_report-modifiers :
    (codes : List ℕ) (i : ℕ)
    → i < 8
    → bit (build_report codes).modifiers i ≡ modifier_down (0xE0 + i) codes
unfolding build_report
build_report-modifiers codes i h = ground (arith, bit-collect_modifiers codes 0 i h, zero-bit i)
  where
    zero-bit : (i : ℕ) → bit 0 i ≡ false
    zero-bit zero = refl
    zero-bit (suc i) = zero-bit i
