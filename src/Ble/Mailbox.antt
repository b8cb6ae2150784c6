-- ===== src/Ble/Mailbox.antt =====
-- What the BLE transports promise of their request buffer: a mailbox for one packet, which drops and
-- counts what arrives while it is full.
pub mod Delivery
use mathlib.Core.List.{Sublistᴰ}
use mathlib.Core.List.Sublistᴰ
use mathlib.Core.Path.{subst}
use via_arduino.Base.{
  ℕ, ◌+◌, ◌<◌, ◌%◌, ◌^◌, ◌≡◌, refl, arith, Option, none, some, List, [], ◌∷◌, ◌++◌, length, u32,
  length-append, append-nil, Option-cases, inl, inr,
}
use via_arduino.Protocol.Packet.{Packet}

pub record Mailbox : Type 0 where
  pub held : Option Packet
  pub dropped : ℕ

pub data Event : Type 0 where
  put : Packet → Event
  get clear : Event

-- What is taken out, and the mailbox after it.
unfoldable pub step : Event → Mailbox → List Packet × Mailbox
step (put p) m = elim m.held [
  | none ↦ ([], record m { held = some p })
  | some _ ↦ ([], record m { dropped = u32 (m.dropped + 1) })
]
step get m = elim m.held [ none ↦ ([], m) | some p ↦ (p ∷ [], record m { held = none }) ]
step clear m = ([], record m { held = none })

unfoldable pub run : List Event → Mailbox → List Packet × Mailbox
run [] m = ([], m)
run (e ∷ es) m = let (out, m') = step e m in let (outs, m'') = run es m' in (out ++ outs, m'')

-- The packets that are put in.
abbrev pub offered : List Event → List Packet
offered [] = []
offered (put p ∷ es) = p ∷ offered es
offered (get ∷ es) = offered es
offered (clear ∷ es) = offered es

abbrev pub content : Option Packet → List Packet
content none = []
content (some p) = p ∷ []

-- What is cleared away on the way.
abbrev pub cleared : List Event → Mailbox → ℕ
cleared [] m = 0
cleared (put p ∷ es) m = cleared es (step (put p) m).1
cleared (get ∷ es) m = cleared es (step get m).1
cleared (clear ∷ es) m = length (content m.held) + cleared es (step clear m).1

Sublist-all {ℓ} : {A : Type ℓ} (xs : List A) → Sublistᴰ xs xs
Sublist-all [] = Sublistᴰ.slnil
Sublist-all (x ∷ xs) = Sublistᴰ.cons-cons refl (Sublist-all xs)

-- What is taken out, and then what is left, was in the mailbox or put in, each packet once and in
-- that order.
pub run-Sublist :
    (es : List Event) (m : Mailbox)
    → let (outs, m') = run es m in Sublistᴰ (outs ++ content m'.held) (content m.held ++ offered es)
unfolding run step
run-Sublist [] m = rw append-nil (Sublist-all (content m.held))
run-Sublist (put p ∷ es) m = elim (Option-cases m.held) [
  | inl z ↦ rw (z, step) (run-Sublist es (record m { held = some p }))
  | inr (q, z) ↦
      let rest = run-Sublist es (record m { dropped = u32 (m.dropped + 1) }) in
      let wide : Sublistᴰ (content m.held ++ offered es) (q ∷ p ∷ offered es) =
        rw z (Sublistᴰ.cons-cons refl (Sublistᴰ.cons (Sublist-all (offered es)))) in
      rw (z, step) (Sublistᴰ.trans rest wide)
]
run-Sublist (get ∷ es) m = elim (Option-cases m.held) [
  | inl z ↦
      let still =
        subst (λ o. Sublistᴰ ((run es m).0 ++ content (run es m).1.held) (content o ++ offered es))
          z (run-Sublist es m) in
      rw (z, step) still
  | inr (q, z) ↦ rw (z, step) (Sublistᴰ.cons-cons refl (run-Sublist es (record m { held = none })))
]
run-Sublist (clear ∷ es) m = elim (Option-cases m.held) [
  | inl z ↦ rw (z, step) (run-Sublist es (record m { held = none }))
  | inr (q, z) ↦ rw (z, step) (Sublistᴰ.cons (run-Sublist es (record m { held = none })))
]

-- Every packet is taken out, cleared, left or counted as dropped, up to the wrap of the counter.
pub run-accounts :
    (es : List Event) (m : Mailbox)
    → let (outs, m') = run es m in
      u32 (length outs + cleared es m + length (content m'.held) + m'.dropped)
      ≡ u32 (length (content m.held) + m.dropped + length (offered es))
unfolding run step
run-accounts [] m = omega arith
run-accounts (put p ∷ es) m = elim (Option-cases m.held) [
  | inl z ↦ ground (arith, run-accounts es (record m { held = some p }))
  | inr (q, z) ↦ ground (arith, run-accounts es (record m { dropped = u32 (m.dropped + 1) }))
]
run-accounts (get ∷ es) m = elim (Option-cases m.held) [
  | inl z ↦ ground (arith, run-accounts es m)
  | inr (q, z) ↦ ground (arith, run-accounts es (record m { held = none }))
]
run-accounts (clear ∷ es) m = elim (Option-cases m.held) [
  | inl z ↦ ground (arith, run-accounts es (record m { held = none }))
  | inr (q, z) ↦ ground (arith, run-accounts es (record m { held = none }))
]
