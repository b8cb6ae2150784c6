-- ===== src/InternalFs/Current.antt =====
-- What it means that the two files of InternalFSStorage hold a payload.
use via_arduino.Base.{
  ℕ, ◌+◌, ◌<◌, ◌^◌, ◌≡◌, refl, arith, ap, ◌∙◌, sym, ◌==◌, Bool-cases, inl, inr, true, false, Option,
  none, some, List, take, ◌⊎◌, u32, replicate,
}
use via_arduino.InternalFs.{FileName, file_a, file_b}
use via_arduino.InternalFs.{file_of, newer, choose_file}
use via_arduino.InternalFs.Files.{other, valid_generation}
use via_arduino.InternalFs.Start.{payload_of, newest, taken}

-- The files hold the payload `old` under the generation `g`: it is the newest valid record, in the
-- file that commit gives that generation, or there is no valid record and `old` is zeros.
pub record IsCurrent (size : ℕ) (files : FileName → Option (List ℕ)) (g : ℕ) (old : List ℕ)
    : Type 0 where
  pub is_newest : newest size files ≡ (old, g)
  pub place :
      ((valid_generation size (files (file_of g)) ≡ some g)
        × (take size (payload_of (files (file_of g))) ≡ old))
      ⊎ ((valid_generation size (files file_a) ≡ none)
          × (valid_generation size (files file_b) ≡ none)
          × (g ≡ 0))

pub file_of-next : (g : ℕ) → file_of (u32 (g + 1)) ≡ other (file_of g)
file_of-next g = ground arith

pub other_twice : (name : FileName) → other (other name) ≡ name
other_twice file_a = refl
other_twice file_b = refl

pub none_in :
    (size : ℕ) (files : FileName → Option (List ℕ))
    → valid_generation size (files file_a) ≡ none
    → valid_generation size (files file_b) ≡ none
    → (name : FileName) → valid_generation size (files name) ≡ none
none_in size files a b file_a = a
none_in size files a b file_b = b

pub none_both :
    (size : ℕ) (files : FileName → Option (List ℕ)) (name : FileName)
    → valid_generation size (files name) ≡ none
    → valid_generation size (files (other name)) ≡ none
    → (valid_generation size (files file_a) ≡ none) × (valid_generation size (files file_b) ≡ none)
none_both size files file_a e f = (e, f)
none_both size files file_b e f = (f, e)

pub newest-only :
    (size : ℕ) (files : FileName → Option (List ℕ)) (name : FileName) (g : ℕ)
    → valid_generation size (files name) ≡ some g
    → valid_generation size (files (other name)) ≡ none
    → newest size files ≡ (take size (payload_of (files name)), g)
unfolding newest choose_file
newest-only size files file_a g e f = rw (newest, e, f) refl
newest-only size files file_b g e f = rw (newest, e, f) refl

newer-next : (g : ℕ) → g < 2 ^ 32 → (newer (u32 (g + 1)) g ≡ true) × (newer g (u32 (g + 1)) ≡ false)
newer-next g h = (ground arith, ground arith)

pub newest-later :
    (size : ℕ) (files : FileName → Option (List ℕ)) (name : FileName) (g : ℕ)
    → g < 2 ^ 32
    → valid_generation size (files name) ≡ some (u32 (g + 1))
    → valid_generation size (files (other name)) ≡ some g
    → newest size files ≡ (take size (payload_of (files name)), u32 (g + 1))
unfolding newest choose_file
newest-later size files file_a g h e f = rw (newest, e, f, (newer-next g h).0) refl
newest-later size files file_b g h e f = rw (newest, e, f, (newer-next g h).1) refl

pub newest-none :
    (size : ℕ) (files : FileName → Option (List ℕ)) (name : FileName)
    → valid_generation size (files name) ≡ none
    → valid_generation size (files (other name)) ≡ none
    → newest size files ≡ (replicate size 0, 0)
unfolding newest choose_file
newest-none size files file_a e f = rw (newest, e, f) refl
newest-none size files file_b e f = rw (newest, e, f) refl

-- The record in a file is as it was: the same generation, or none, and the same payload.
pub record IsKept (size : ℕ) (before after : Option (List ℕ)) : Type 0 where
  pub same_generation : valid_generation size after ≡ valid_generation size before
  pub same_payload : take size (payload_of after) ≡ take size (payload_of before)

pub both_files :
    (P : FileName → Type 0) (name : FileName) → P name → P (other name) → (n : FileName) → P n
both_files P file_a p q file_a = p
both_files P file_a p q file_b = q
both_files P file_b p q file_a = q
both_files P file_b p q file_b = p

module _ (size : ℕ) (files files' : FileName → Option (List ℕ))
    (kept : (name : FileName) → IsKept size (files name) (files' name)) where
  taken-IsKept : (o : Option (FileName × ℕ)) → taken size files' o ≡ taken size files o
  taken-IsKept none = refl
  taken-IsKept (some (name, g)) = ap (λ xs. (xs, g)) (kept name).same_payload

  pub newest-IsKept : newest size files' ≡ newest size files
  unfolding newest
  newest-IsKept =
      rw ((kept file_a).same_generation, (kept file_b).same_generation)
        (taken-IsKept (
          choose_file (valid_generation size (files file_a))
            (valid_generation size (files file_b))))

  pub IsCurrent-IsKept :
      (g : ℕ) (old : List ℕ) → IsCurrent size files g old → IsCurrent size files' g old
  IsCurrent-IsKept g old now = record {
    is_newest = newest-IsKept ∙ now.is_newest;
    place = elim now.place [
      | inl (valid, holds) ↦
          inl ((kept (file_of g)).same_generation ∙ valid, (kept (file_of g)).same_payload ∙ holds)
      | inr (a, b, zeroed) ↦
          inr ((kept file_a).same_generation ∙ a, (kept file_b).same_generation ∙ b, zeroed)
    ];
  }

-- Where the files hold a payload, no record of the next generation is in its place.
pub IsCurrent-next :
    (size : ℕ) (files : FileName → Option (List ℕ)) (g g' : ℕ) (old : List ℕ)
    → g < 2 ^ 32
    → IsCurrent size files g old
    → valid_generation size (files (file_of (u32 (g + 1)))) ≡ some g'
    → (g' == u32 (g + 1)) ≡ false
IsCurrent-next size files g g' old small now found = elim now.place [
  | inr (a, b, zeroed) ↦
      absurd (ground (arith, none_in size files a b (file_of (u32 (g + 1))), found))
  | inl (valid, holds) ↦ elim (Bool-cases (g' == u32 (g + 1))) [
    | inr apart ↦ apart
    | inl same ↦
        let name = file_of (u32 (g + 1)) in
        let e : g' ≡ u32 (g + 1) = ground (arith, same) in
        let own : other name ≡ file_of g = ap other (file_of-next g) ∙ other_twice (file_of g) in
        let later =
          newest-later size files name g small (found ∙ ap some e)
            (ap (λ n. valid_generation size (files n)) own ∙ valid) in
        let clash : u32 (g + 1) ≡ g = ap (λ r. r.1) (sym later ∙ now.is_newest) in
        absurd (ground (arith, clash))
  ]
]
