-- ===== src/Base/Index.antt =====
-- Reads by index of arrays that were written, copied into or cut.
use Prim.Native.Nat.{ℕ, zero, suc, ◌+◌, ◌-◌, ◌≤◌, ◌<◌}
use mathlib.Core.Path.{◌≡◌, refl, ap, ◌∙◌}
use mathlib.Core.Bool.{◌&&◌}
use mathlib.Core.List.{List, [], ◌∷◌}
use native.Mathlib.Omega.{arith}
use via_arduino.Base.Tests.{ltb, leb, ◌==◌, if◌then◌else◌}
use via_arduino.Base.Lists.{length, get_or, set, take, drop, slice, splice}

pub get_or-set :
    (xs : List ℕ) (i j v : ℕ)
    → i < length xs
    → get_or (set xs i v) j 0 ≡ (if i == j then v else get_or xs j 0)
get_or-set [] i j v h = absurd (omega arith)
get_or-set (x ∷ xs) zero zero v h = refl
get_or-set (x ∷ xs) zero (suc j) v h = ground arith
get_or-set (x ∷ xs) (suc i) zero v h = ground arith
get_or-set (x ∷ xs) (suc i) (suc j) v h = ground (arith, get_or-set xs i j v)

pub get_or-cons :
    (x : ℕ) (xs : List ℕ) (k : ℕ)
    → get_or (x ∷ xs) k 0 ≡ (if k == 0 then x else get_or xs (k - 1) 0)
get_or-cons x xs zero = refl
get_or-cons x xs (suc k) = ground (arith, ap (λ t. get_or xs t 0) (back k))
  where
    back : (m : ℕ) → m ≡ suc m - 1
    back m = omega arith

-- Past the end a read gives the default.
pub get_or-past : (xs : List ℕ) (i : ℕ) → length xs ≤ i → get_or xs i 0 ≡ 0
get_or-past [] i h = refl
get_or-past (x ∷ xs) zero h = absurd (omega arith)
get_or-past (x ∷ xs) (suc i) h = get_or-past xs i (omega arith)

pub get_or-take : (n : ℕ) (xs : List ℕ) (k : ℕ) → k < n → get_or (take n xs) k 0 ≡ get_or xs k 0
get_or-take zero xs k h = absurd (omega arith)
get_or-take (suc n) [] k h = refl
get_or-take (suc n) (x ∷ xs) zero h = refl
get_or-take (suc n) (x ∷ xs) (suc k) h = get_or-take n xs k (omega arith)

pub get_or-drop : (n : ℕ) (xs : List ℕ) (k : ℕ) → get_or (drop n xs) k 0 ≡ get_or xs (n + k) 0
get_or-drop zero xs k = ap (λ t. get_or xs t 0) (omega arith)
get_or-drop (suc n) [] k = refl
get_or-drop (suc n) (x ∷ xs) k = get_or-drop n xs k ∙ ap (λ t. get_or (x ∷ xs) t 0) (step n k)
  where
    step : (a c : ℕ) → suc (a + c) ≡ suc a + c
    step a c = omega arith

pub get_or-slice :
    (xs : List ℕ) (off n k : ℕ) → k < n → get_or (slice xs off n) k 0 ≡ get_or xs (off + k) 0
get_or-slice xs off n k h = get_or-take n (drop off xs) k h ∙ get_or-drop off xs k

-- Inside a copy the new bytes are read, elsewhere the old ones.
pub get_or-splice :
    (xs : List ℕ) (off : ℕ) (ys : List ℕ) (j : ℕ)
    → off + length ys ≤ length xs
    → get_or (splice xs off ys) j 0
      ≡ (if leb off j && ltb j (off + length ys) then get_or ys (j - off) 0 else get_or xs j 0)
get_or-splice [] off ys j h = ground (arith, get_or-past ys (j - off))
get_or-splice (x ∷ xs) zero [] j h = ground arith
get_or-splice (x ∷ xs) zero (y ∷ ys) zero h = ground arith
get_or-splice (x ∷ xs) zero (y ∷ ys) (suc j) h = ground (arith, get_or-splice xs zero ys j)
get_or-splice (x ∷ xs) (suc off) ys zero h = ground arith
get_or-splice (x ∷ xs) (suc off) ys (suc j) h =
    ground (arith, get_or-splice xs off ys j, ap (λ (t : ℕ). get_or ys t 0) (down j off))
  where
    down : (a c : ℕ) → a - c ≡ suc a - suc c
    down a c = omega arith

pub get_or-splice_inside :
    (xs : List ℕ) (off : ℕ) (ys : List ℕ) (k : ℕ)
    → off + length ys ≤ length xs
    → k < length ys
    → get_or (splice xs off ys) (off + k) 0 ≡ get_or ys k 0
get_or-splice_inside xs off ys k h le =
    ground (arith, get_or-splice xs off ys (off + k) h, ap (λ (t : ℕ). get_or ys t 0) (back off k))
  where
    back : (a c : ℕ) → a + c - a ≡ c
    back a c = omega arith
