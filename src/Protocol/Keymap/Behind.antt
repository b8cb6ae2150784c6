-- ===== src/Protocol/Keymap/Behind.antt =====
-- What the writes of the bulk buffers keep of the memory behind an array.
use via_arduino.Base.{
  ℕ, zero, suc, ◌+◌, ◌*◌, ◌/◌, ◌≤◌, ◌<◌, ◌≡◌, refl, arith, ◌∙◌, true, Bool, Bool-cases, inl, inr,
  List, [], ◌∷◌, length, set, splice, drop, ltb, leb,
}
use via_arduino.Protocol.Keymap.{}
use via_arduino.Protocol.Keymap.{write_macros, write_dynamic_keymap, put_keymap_byte}
use via_arduino.Protocol.Packet.{}
use via_arduino.Protocol.Process.{}
use via_arduino.Protocol.Reset.{}

pub drop-set : (n i v : ℕ) (xs : List ℕ) → i < n → drop n (set xs i v) ≡ drop n xs
drop-set zero i v xs h = absurd (omega (arith, h))
drop-set (suc n) i v [] h = refl
drop-set (suc n) zero v (x ∷ xs) h = refl
drop-set (suc n) (suc i) v (x ∷ xs) h = drop-set n i v xs (omega (arith, h))

pub drop-splice :
    (n off : ℕ) (xs ys : List ℕ) → off + length ys ≤ n → drop n (splice xs off ys) ≡ drop n xs
drop-splice n off [] ys h = refl
drop-splice n zero (x ∷ xs) [] h = refl
drop-splice zero zero (x ∷ xs) (y ∷ ys) h = absurd (omega (arith, h))
drop-splice (suc n) zero (x ∷ xs) (y ∷ ys) h = drop-splice n zero xs ys (omega (arith, h))
drop-splice zero (suc off) (x ∷ xs) ys h = absurd (omega (arith, h))
drop-splice (suc n) (suc off) (x ∷ xs) ys h = drop-splice n off xs ys (omega (arith, h))

pub drop-write_dynamic_keymap :
    (n off : ℕ) (xs keymap : List ℕ) (wrote : Bool)
    → drop n (write_dynamic_keymap (n * 2) off xs (keymap, wrote)).0 ≡ drop n keymap
unfolding write_dynamic_keymap put_keymap_byte
drop-write_dynamic_keymap n off [] keymap wrote = refl
drop-write_dynamic_keymap n off (x ∷ xs) keymap wrote = elim (Bool-cases (leb (n * 2) off)) [
  | inl past ↦
      rw (past, write_dynamic_keymap) (drop-write_dynamic_keymap n (off + 1) xs keymap wrote)
  | inr within ↦
      rw (within, write_dynamic_keymap)
        (drop-write_dynamic_keymap n (off + 1) xs (put_keymap_byte keymap off x) true
          ∙ drop-set n (off / 2) _ keymap (ground (arith, within)))
]

pub drop-write_macros :
    (n off : ℕ) (xs macros : List ℕ) (wrote : Bool)
    → drop n (write_macros n off xs (macros, wrote)).0 ≡ drop n macros
unfolding write_macros
drop-write_macros n off [] macros wrote = refl
drop-write_macros n off (x ∷ xs) macros wrote = elim (Bool-cases (ltb off n)) [
  | inl within ↦
      rw (within, write_macros)
        (drop-write_macros n (off + 1) xs (set macros off x) true
          ∙ drop-set n off x macros (ground (arith, within)))
  | inr past ↦ rw (past, write_macros) (drop-write_macros n (off + 1) xs macros wrote)
]
