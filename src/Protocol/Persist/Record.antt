-- ===== src/Protocol/Persist/Record.antt =====
-- What writeState leaves in a storage that keeps bytes: the header, then the payload.
use via_arduino.Base.{ℕ, zero, suc, ◌+◌, ◌≤◌, ◌≡◌, refl, arith, ap, ◌∙◌, sym}
use via_arduino.Base.{List, [], ◌∷◌, ◌++◌, length, true, splice, drop}
use via_arduino.Base.{◌==◌, splice_zero, splice-append, append_assoc, length-append, Bool-cases}
use via_arduino.Base.{take-append, drop-append, append-nil}
use via_arduino.Base.{inl, inr, length-splice, slice, take}
use via_arduino.Protocol.Board.{Storage}
use via_arduino.Protocol.Contract.{IsStorage}
use via_arduino.Protocol.Persist.{Action, ◌>>◌, unless}

pub splice-nil : (xs : List ℕ) (off : ℕ) → splice xs off [] ≡ xs
splice-nil [] off = refl
splice-nil (x ∷ xs) zero = refl
splice-nil (x ∷ xs) (suc off) = ap (λ t. x ∷ t) (splice-nil xs off)

pub nil_of_length : (xs : List ℕ) → length xs ≡ 0 → xs ≡ []
nil_of_length [] e = refl
nil_of_length (x ∷ xs) e = absurd (omega arith)

-- Storage contents of `size` bytes that begin with `written`.
pub record Holds (size : ℕ) (contents written : List ℕ) : Type 0 where
  pub rest : List ℕ
  pub split : contents ≡ written ++ rest
  pub fits : length contents ≡ size

module _ {size : ℕ} {contents written : List ℕ} (h : Holds size contents written) where
  room : length written + length h.rest ≡ size
  room = omega (arith, length-append written h.rest, ap length h.split, h.fits)

  -- The next part goes just behind what is written.
  pub Holds-next :
      (off : ℕ) (ys : List ℕ)
      → off ≡ length written
      → off + length ys ≤ size
      → Holds size (splice contents off ys) (written ++ ys)
  Holds-next off ys e le = record {
    rest = drop (length ys) h.rest;
    split =
        ap (λ t. splice t off ys) h.split
        ∙ splice-append written h.rest ys off e
        ∙ ap (λ t. written ++ t) (splice_zero h.rest ys (omega (arith, room)))
        ∙ sym (append_assoc written ys (drop (length ys) h.rest));
    fits = length-splice contents off ys ∙ h.fits;
  }

  pub Holds-slice_front : slice contents 0 (length written) ≡ written
  Holds-slice_front =
      ap (λ t. take (length written) t) h.split ∙ take-append (length written) written h.rest refl

-- A header written over another of the same length leaves what follows.
pub Holds-over :
    {size : ℕ} {contents : List ℕ} (old new tail : List ℕ)
    → length new ≡ length old
    → Holds size contents (old ++ tail)
    → Holds size (splice contents 0 new) (new ++ tail)
Holds-over {size} {contents} old new tail e h = record {
  rest = h.rest;
  split =
      ap (λ t. splice t 0 new) (h.split ∙ append_assoc old tail h.rest)
      ∙ splice-over old new (tail ++ h.rest) e
      ∙ sym (append_assoc new tail h.rest);
  fits = length-splice contents 0 new ∙ h.fits;
}
  where
    splice-over : (xs ys zs : List ℕ) → length ys ≡ length xs → splice (xs ++ zs) 0 ys ≡ ys ++ zs
    splice-over [] [] zs e = splice-nil zs 0
    splice-over [] (y ∷ ys) zs e = absurd (omega arith)
    splice-over (x ∷ xs) [] zs e = absurd (omega arith)
    splice-over (x ∷ xs) (y ∷ ys) zs e = ap (λ t. y ∷ t) (splice-over xs ys zs (omega arith))

pub Holds-slice_back :
    {size : ℕ} {contents : List ℕ} (front back : List ℕ)
    → Holds size contents (front ++ back)
    → slice contents (length front) (length back) ≡ back
Holds-slice_back front back h =
    ap (λ t. slice t (length front) (length back)) (h.split ∙ append_assoc front back h.rest)
    ∙ ap (take (length back)) (drop-append (length front) front (back ++ h.rest) refl)
    ∙ take-append (length back) back h.rest refl

module _ {S : Type 0} (ops : Storage S) (Usable : S → Type 0) (contents : S → List ℕ)
    (law : IsStorage ops Usable contents) (n : ℕ) where
  -- An action that succeeds takes contents that begin with `p` to contents that begin with `q`, and
  -- keeps the capacity.
  abbrev pub Writes : Action S → List ℕ → List ℕ → Type 0
  Writes action p q =
      (s : S)
      → Usable s
      → (action s).0 ≡ true
      → Holds n (contents s) p
      → Usable (action s).1
        × Holds n (contents (action s).1) q
        × (ops.capacity (action s).1 ≡ ops.capacity s)

  pub Writes-next :
      (off : ℕ) (ys p : List ℕ)
      → off ≡ length p
      → off + length ys ≤ n
      → Writes (ops.write off ys) p (p ++ ys)
  Writes-next off ys p e le s u h holds =
      let w = law.write_lem off ys s u h in (w.0, rw w.1 (Holds-next holds off ys e le), w.2)

  pub Writes-over :
      (old new tail p : List ℕ)
      → length new ≡ length old
      → p ≡ old ++ tail
      → Writes (ops.write 0 new) p (new ++ tail)
  Writes-over old new tail p e split s u h holds =
      let w = law.write_lem 0 new s u h in
      (w.0, rw w.1 (Holds-over old new tail e (rw split at holds)), w.2)

  pub Writes-commit : (p : List ℕ) → Writes ops.commit p p
  Writes-commit p s u h holds = let w = law.commit_lem s u h in (w.0, rw w.1 holds, w.2)

  pub Writes-erase : (p : List ℕ) → Writes ops.erase p []
  Writes-erase p s u h holds =
      let w = law.erase_lem s u h in
      (w.0, record { rest = contents (ops.erase s).1; split = refl; fits = w.1 ∙ holds.fits }, w.2)

  pub Writes-then :
      (a c : Action S) (p q r : List ℕ) → Writes a p q → Writes c q r → Writes (a >> c) p r
  Writes-then a c p q r f g s u h holds = elim (Bool-cases (a s).0) [
    | inl e ↦
        let h' : (c (a s).1).0 ≡ true = rw e at h in
        let first = f s u e holds in
        let second = g (a s).1 first.0 h' first.1 in rw e (second.0, second.1, second.2 ∙ first.2)
    | inr e ↦ ground arith
  ]

  pub Writes-unless :
      (k off : ℕ) (ys p : List ℕ)
      → length ys ≡ k
      → off ≡ length p
      → off + length ys ≤ n
      → Writes (unless (k == 0) (ops.write off ys)) p (p ++ ys)
  Writes-unless k off ys p size e le s u h holds = elim (Bool-cases (k == 0)) [
    | inl z ↦ rw (z, nil_of_length ys (ground arith), append-nil) (u, holds, refl)
    | inr nz ↦ rw nz (Writes-next off ys p e le s u (rw nz at h) holds)
  ]

  -- Five parts written one behind the other, between a header and its final version.
  pub Writes-record :
      (old new a b c d e : List ℕ) (oa ob oc od oe nb nc ne : ℕ)
      → length new ≡ length old
      → oa ≡ length old
      → ob ≡ oa + length a
      → oc ≡ ob + length b
      → od ≡ oc + length c
      → oe ≡ od + length d
      → length b ≡ nb
      → length c ≡ nc
      → length e ≡ ne
      → oe + length e ≤ n
      → Writes
          (ops.write 0 old
            >> ops.write oa a
            >> unless (nb == 0) (ops.write ob b)
            >> unless (nc == 0) (ops.write oc c)
            >> ops.write od d
            >> unless (ne == 0) (ops.write oe e)
            >> ops.write 0 new
            >> ops.commit)
          []
          (new ++ (a ++ (b ++ (c ++ (d ++ e)))))
  Writes-record old new a b c d e oa ob oc od oe nb nc ne same pa pb pc pd pe sb sc se le =
      Writes-then _ _ _ _ _
        (Writes-then _ _ _ _ _
          (Writes-then _ _ _ _ _
            (Writes-then _ _ _ _ _
              (Writes-then _ _ _ _ _
                (Writes-then _ _ _ _ _
                  (Writes-then _ _ _ _ _ (Writes-next 0 old [] refl (omega arith))
                    (Writes-next oa a old pa (omega arith)))
                  (Writes-unless nb ob b (old ++ a) sb (omega (arith, la)) (omega arith)))
                (Writes-unless nc oc c ((old ++ a) ++ b) sc (omega (arith, la, lb)) (omega arith)))
              (Writes-next od d (((old ++ a) ++ b) ++ c) (omega (arith, la, lb, lc)) (omega arith)))
            (Writes-unless ne oe e ((((old ++ a) ++ b) ++ c) ++ d) se
              (omega (arith, la, lb, lc, ld)) le))
          (Writes-over old new (a ++ (b ++ (c ++ (d ++ e)))) _ same (simp append_assoc)))
        (Writes-commit _)
    where
      la : length (old ++ a) ≡ length old + length a
      la = length-append old a

      lb : length ((old ++ a) ++ b) ≡ length (old ++ a) + length b
      lb = length-append (old ++ a) b

      lc : length (((old ++ a) ++ b) ++ c) ≡ length ((old ++ a) ++ b) + length c
      lc = length-append ((old ++ a) ++ b) c

      ld : length ((((old ++ a) ++ b) ++ c) ++ d) ≡ length (((old ++ a) ++ b) ++ c) + length d
      ld = length-append (((old ++ a) ++ b) ++ c) d
