-- ===== src/Protocol/Keymap/Macros.antt =====
-- The macro buffer under the chunked reads and writes of the packet handler.
use via_arduino.Base.{ℕ, zero, suc, ◌+◌, ◌-◌, ◌<◌, ◌≡◌, refl, arith, ap, ◌∙◌}
use via_arduino.Base.{List, [], ◌∷◌, length, get_or, set, length-set, get_or-set, get_or-cons}
use via_arduino.Base.{ltb, if◌then◌else◌, Bool, true, Bool-cases, inl, inr}
use native.Mathlib.Nat.{add-zero}
use via_arduino.Protocol.Valid.{Below, Below-set, get_or-lt}
use via_arduino.Protocol.Keymap.{read_macros, write_macros}
use via_arduino.Protocol.Keymap.Bytes.{overlay}

pub write_macros_sound :
    (bytes off : ℕ) (xs macros : List ℕ) (wrote : Bool)
    → Below 256 macros
    → Below 256 xs
    → let (macros', _) = write_macros bytes off xs (macros, wrote) in
      (length macros' ≡ length macros) × Below 256 macros'
unfolding write_macros
write_macros_sound bytes off [] macros wrote h b = (refl, h)
write_macros_sound bytes off (x ∷ xs) macros wrote h b = elim (Bool-cases (ltb off bytes)) [
  | inl inside ↦
      let rest =
        write_macros_sound bytes (off + 1) xs (set macros off x) true
          (Below-set 256 macros off x h b.0) b.1 in
      rw (inside, write_macros) (rest.0 ∙ length-set macros off x, rest.1)
  | inr past ↦ rw (past, write_macros) (write_macros_sound bytes (off + 1) xs macros wrote h b.1)
]

-- After a chunk is written, each macro byte is the chunk's where the chunk lies and inside the
-- buffer, and the old one elsewhere.
pub get_or-write_macros :
    (bytes off : ℕ) (xs macros : List ℕ) (wrote : Bool) (j : ℕ)
    → length macros ≡ bytes
    → get_or (write_macros bytes off xs (macros, wrote)).0 j 0
      ≡ overlay bytes off xs j (get_or macros j 0)
unfolding write_macros
get_or-write_macros bytes off [] macros wrote j e = ground arith
get_or-write_macros bytes off (x ∷ xs) macros wrote j e = elim (Bool-cases (ltb off bytes)) [
  | inl inside ↦
      rw (inside, write_macros)
        (ground (
          arith,
          get_or-write_macros bytes (off + 1) xs (set macros off x) true j
              (omega (arith, e, length-set macros off x)),
          get_or-set macros off j x (ground arith),
          get_or-cons x xs (j - off),
          ap (λ (t : ℕ). get_or xs t 0) (shift j off),
        ))
  | inr past ↦
      rw (past, write_macros)
        (ground (arith, get_or-write_macros bytes (off + 1) xs macros wrote j e))
]
  where
    shift : (m n : ℕ) → m - n - 1 ≡ m - (n + 1)
    shift m n = omega arith

pub get_or-read_macros :
    (bytes : ℕ) (macros : List ℕ) (off n k : ℕ)
    → k < n
    → get_or (read_macros bytes macros off n) k 0
      ≡ (if ltb (off + k) bytes then get_or macros (off + k) 0 else 0)
unfolding read_macros
get_or-read_macros bytes macros off zero k h = absurd (omega arith)
get_or-read_macros bytes macros off (suc n) zero h = rw add-zero refl
get_or-read_macros bytes macros off (suc n) (suc k) h =
    get_or-read_macros bytes macros (off + 1) n k (omega arith)
    ∙ ap (λ (t : ℕ). if ltb t bytes then get_or macros t 0 else 0) (step off k)
  where
    step : (a c : ℕ) → a + 1 + c ≡ a + suc c
    step a c = omega arith

pub length-read_macros :
    (bytes : ℕ) (macros : List ℕ) (off n : ℕ) → length (read_macros bytes macros off n) ≡ n
unfolding read_macros
length-read_macros bytes macros off zero = refl
length-read_macros bytes macros off (suc n) = ap suc (length-read_macros bytes macros (off + 1) n)

pub Below-read_macros :
    (bytes : ℕ) (macros : List ℕ) (off n : ℕ)
    → Below 256 macros
    → Below 256 (read_macros bytes macros off n)
unfolding read_macros
Below-read_macros bytes macros off zero h = tt
Below-read_macros bytes macros off (suc n) h = (
  ground (arith, get_or-lt 256 macros off (omega arith) h),
  Below-read_macros bytes macros (off + 1) n h,
)
