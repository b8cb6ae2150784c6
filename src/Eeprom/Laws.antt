-- ===== src/Eeprom/Laws.antt =====
-- EEPROMStorage meets the contract of Storage over an EEPROM that keeps bytes.
use mathlib.Core.Path.{ap₂}
use via_arduino.Base.{
  ℕ, zero, suc, ◌+◌, ◌≤◌, ◌<◌, ◌≡◌, refl, arith, ap, ◌∙◌, sym, true, false, List, [], ◌∷◌, length,
  get_or, set, slice, splice, length-set, length-splice,
}
use via_arduino.Protocol.Contract.{IsStorage}
use via_arduino.Protocol.Persist.Record.{splice-nil}
use via_arduino.Eeprom.{Eeprom, EepromStorage, eeprom_ops, capacity, read, read_loop, write}
use via_arduino.Eeprom.{write_loop, outside, commit, erase, erase_loop}

-- An EEPROM that keeps bytes in the cells `cells`; a commit changes none.
pub record IsEeprom {E : Type 0} (ops : Eeprom E) (cells : E → List ℕ) : Type 0 where
  pub read_lem : (i : ℕ) (e : E) → i < length (cells e) → ops.read i e ≡ get_or (cells e) i 0
  pub write_lem :
      (i v : ℕ) (e : E) → i < length (cells e) → cells (ops.write i v e) ≡ set (cells e) i v
  pub commit_kept : (e : E) → cells (ops.commit e).1 ≡ cells e

slice-suc :
    (xs : List ℕ) (off n : ℕ)
    → off < length xs
    → slice xs off (suc n) ≡ get_or xs off 0 ∷ slice xs (suc off) n
slice-suc [] off n h = absurd (omega arith)
slice-suc (x ∷ xs) zero n h = refl
slice-suc (x ∷ xs) (suc off) n h = slice-suc xs off n (omega arith)

splice-set :
    (xs : List ℕ) (off y : ℕ) (ys : List ℕ)
    → off < length xs
    → splice (set xs off y) (suc off) ys ≡ splice xs off (y ∷ ys)
splice-set [] off y ys h = absurd (omega arith)
splice-set (x ∷ xs) zero y ys h = refl
splice-set (x ∷ xs) (suc off) y ys h = ap (λ t. x ∷ t) (splice-set xs off y ys (omega arith))

module _ {E : Type 0} (ops : Eeprom E) (cells : E → List ℕ) (law : IsEeprom ops cells) where
  read_loop_lem :
      (n offset : ℕ) (e : E)
      → offset + n ≤ length (cells e)
      → read_loop ops n offset e ≡ slice (cells e) offset n
  unfolding read_loop
  read_loop_lem zero offset e h = refl
  read_loop_lem (suc n) offset e h =
      ap₂ ◌∷◌ (law.read_lem offset e (omega arith)) (read_loop_lem n (offset + 1) e (omega arith))
      ∙ ap (λ k. get_or (cells e) offset 0 ∷ slice (cells e) k n) {y = suc offset} (omega arith)
      ∙ sym (slice-suc (cells e) offset n (omega arith))

  write_loop_lem :
      (offset : ℕ) (xs : List ℕ) (e : E)
      → offset + length xs ≤ length (cells e)
      → cells (write_loop ops offset xs e) ≡ splice (cells e) offset xs
  unfolding write_loop
  write_loop_lem offset [] e h = sym (splice-nil (cells e) offset)
  write_loop_lem offset (x ∷ xs) e h =
      let written = law.write_lem offset x e (omega arith) in
      write_loop_lem (offset + 1) xs (ops.write offset x e)
        (omega (arith, ap length written, length-set (cells e) offset x))
      ∙ ap (λ t. splice t (offset + 1) xs) written
      ∙ ap (λ k. splice (set (cells e) offset x) k xs) {y = suc offset} (omega arith)
      ∙ splice-set (cells e) offset x xs (omega arith)

  length-erase_loop :
      (n i : ℕ) (e : E)
      → i + n ≤ length (cells e)
      → length (cells (erase_loop ops n i e)) ≡ length (cells e)
  unfolding erase_loop
  length-erase_loop zero i e h = refl
  length-erase_loop (suc n) i e h =
      let written = law.write_lem i 0xFF e (omega arith) in
      let same : length (cells (ops.write i 0xFF e)) ≡ length (cells e) =
        ap length written ∙ length-set (cells e) i 0xFF in
      length-erase_loop n (i + 1) (ops.write i 0xFF e) (omega arith) ∙ same

  -- begin was called, and the EEPROM has the size that was given.
  pub record IsUsable (s : EepromStorage E) : Type 0 where
    pub begun : s.started ≡ true
    pub sized : length (cells s.eeprom) ≡ s.size

  write-IsUsable :
      (off : ℕ) (bytes : List ℕ) (s : EepromStorage E)
      → IsUsable s
      → (write ops off bytes s).0 ≡ true
      → IsUsable (write ops off bytes s).1
        × (cells (write ops off bytes s).1.eeprom ≡ splice (cells s.eeprom) off bytes)
        × ((write ops off bytes s).1.size ≡ s.size)
  unfolding write
  write-IsUsable off bytes s u h =
      let room : off + length bytes ≤ length (cells s.eeprom) =
        ground (arith, u.begun, u.sized, h) in
      let written = write_loop_lem off bytes s.eeprom room in
      let open_bounds : outside ops s off (length bytes) ≡ false = ground (arith, u.begun, h) in
      rw (write, u.begun, open_bounds)
        (
          record {
            begun = refl;
            sized = ap length written ∙ length-splice (cells s.eeprom) off bytes ∙ u.sized;
          },
          written,
          refl,
        )

  commit-IsUsable :
      (s : EepromStorage E)
      → IsUsable s
      → (commit ops s).0 ≡ true
      → IsUsable (commit ops s).1
        × (cells (commit ops s).1.eeprom ≡ cells s.eeprom)
        × ((commit ops s).1.size ≡ s.size)
  unfolding commit
  commit-IsUsable s u h =
      let kept = law.commit_kept s.eeprom in
      rw (commit, u.begun) (record { begun = refl; sized = ap length kept ∙ u.sized }, kept, refl)

  erase-IsUsable :
      (s : EepromStorage E)
      → IsUsable s
      → (erase ops s).0 ≡ true
      → IsUsable (erase ops s).1
        × (length (cells (erase ops s).1.eeprom) ≡ length (cells s.eeprom))
        × ((erase ops s).1.size ≡ s.size)
  unfolding erase
  erase-IsUsable s u h =
      let kept = law.commit_kept (erase_loop ops s.size 0 s.eeprom) in
      let same = ap length kept ∙ length-erase_loop s.size 0 s.eeprom (omega (arith, u.sized)) in
      rw (erase, u.begun) (record { begun = refl; sized = same ∙ u.sized }, same, refl)

  -- Over an EEPROM that keeps bytes, as many as the length that was given: after begin,
  -- EEPROMStorage keeps bytes as Storage documents.
  pub eeprom-IsStorage : IsStorage (eeprom_ops ops) IsUsable (λ s. cells s.eeprom)
  unfolding capacity read write commit erase
  eeprom-IsStorage = record {
    holds = λ s u. ground (arith, u.sized);
    read_back = λ s off n u le. ground (arith, u.begun, u.sized, read_loop_lem n off s.eeprom);
    write_lem = λ off bytes s u h. write-IsUsable off bytes s u h;
    commit_lem = λ s u h. commit-IsUsable s u h;
    erase_lem = λ s u h. erase-IsUsable s u h;
  }
