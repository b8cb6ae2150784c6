-- ===== src/InternalFs/Appended.antt =====
-- What the writes of InternalFSStorage::commit do to a file that holds a record already.
use mathlib.Core.Path.{subst}
use via_arduino.Base.{
  ℕ, zero, suc, ◌≤◌, ◌≡◌, refl, arith, ap, ◌∙◌, sym, false, Option, some, List, [], ◌∷◌, ◌++◌,
  append_assoc, length, take, drop, ◌==◌, Bool-cases, inl, inr, length-take,
}
use via_arduino.Protocol.Persist.{le32_at}
use via_arduino.InternalFs.{FileSystem, FileName, record_header_size}
use via_arduino.InternalFs.{verify_record, verify_file, write_file}
use via_arduino.InternalFs.Files.{IsFileSystem, other, valid_generation}
use via_arduino.InternalFs.Start.{payload_of}

take-front : (n : ℕ) (xs ys : List ℕ) → n ≤ length xs → take n (xs ++ ys) ≡ take n xs
take-front zero xs ys h = refl
take-front (suc n) [] ys h = absurd (omega (arith, h))
take-front (suc n) (x ∷ xs) ys h = ap (λ t. x ∷ t) (take-front n xs ys (omega (arith, h)))

drop-front : (n : ℕ) (xs ys : List ℕ) → n ≤ length xs → drop n (xs ++ ys) ≡ drop n xs ++ ys
drop-front zero xs ys h = refl
drop-front (suc n) [] ys h = absurd (omega (arith, h))
drop-front (suc n) (x ∷ xs) ys h = drop-front n xs ys (omega (arith, h))

-- A file with a valid record has its header and its payload.
valid_whole :
    (size g : ℕ) (xs : List ℕ)
    → valid_generation size (some xs) ≡ some g
    → (16 ≤ length xs) × (size ≤ length (drop 16 xs)) × (le32_at (take 16 xs) 4 ≡ g)
unfolding valid_generation
valid_whole size g xs h = ground (arith, h)

-- Bytes behind a record change neither its generation nor its payload.
pub valid_generation-append :
    (size g : ℕ) (xs ys : List ℕ)
    → valid_generation size (some xs) ≡ some g
    → (valid_generation size (some (xs ++ ys)) ≡ some g)
      × (take size (payload_of (some (xs ++ ys))) ≡ take size (payload_of (some xs)))
unfolding valid_generation
valid_generation-append size g xs ys h =
    let (headed, sized, _) = valid_whole size g xs h in
    let front = take-front 16 xs ys headed in
    let behind = drop-front 16 xs ys headed in
    let same : take size (drop 16 (xs ++ ys)) ≡ take size (drop 16 xs) =
      ap (take size) behind ∙ take-front size (drop 16 xs) ys sized in
    let longer : size ≤ length (drop 16 (xs ++ ys)) = ground (
      arith,
      ap length same,
      sized,
      length-take size (drop 16 (xs ++ ys)),
      length-take size (drop 16 xs),
    ) in
    (rw (front, same) (ground (arith, h, longer)), same)

module _ {F H : Type 0} (ops : FileSystem F H) (contents : F → FileName → Option (List ℕ))
    (rest : H → List ℕ) (target : H → FileName) (law : IsFileSystem ops contents rest target) where
  -- Whatever happens, the bytes written go behind those of the file; the other file stays.
  pub write_file-append :
      (name : FileName) (h : H) (f : F) (old front payload : List ℕ) (size : ℕ)
      → target h ≡ name
      → contents f name ≡ some old
      → let (done, f') = write_file ops front payload size h f in
        (contents f' (other name) ≡ contents f (other name))
        × ((xs : List ℕ) × (contents f' name ≡ some (old ++ xs)))
  unfolding write_file
  write_file-append name h f old front payload size aimed holds =
      let (headed, h', f') = ops.write front h f in
      let (written, h'', f'') = ops.write payload h' f' in
      let (aimed', front_in, _) = law.write_lem front h f old (ap (contents f) aimed ∙ holds) in
      let front_name : contents f' name ≡ some (old ++ take headed front) =
        ap (contents f') (sym aimed) ∙ front_in in
      let apart : contents f' (other name) ≡ contents f (other name) =
        subst (λ t. contents f' (other t) ≡ contents f (other t)) aimed
          (law.write_apart front h f) in
      let aimed'' : target h' ≡ name = aimed' ∙ aimed in
      let (_, back_in, _) =
        law.write_lem payload h' f' (old ++ take headed front)
          (ap (contents f') aimed'' ∙ front_name) in
      let back_name : contents f'' name
          ≡ some (old ++ (take headed front ++ take written payload)) =
        ap (contents f'') (sym aimed'')
        ∙ back_in
        ∙ ap some (append_assoc old (take headed front) (take written payload)) in
      let apart' : contents f'' (other name) ≡ contents f (other name) =
        subst (λ t. contents f'' (other t) ≡ contents f' (other t)) aimed''
          (law.write_apart payload h' f')
        ∙ apart in
      elim (Bool-cases (headed == record_header_size)) [
        | inr short ↦
            rw (write_file, short, law.close_kept h' f') (apart, (take headed front, front_name))
        | inl full ↦
            let end : contents (ops.close h'' f'') ≡ contents f'' = law.close_kept h'' f'' in
            let all : (contents (ops.close h'' f'') (other name) ≡ contents f (other name))
                × ((xs : List ℕ) × (contents (ops.close h'' f'') name ≡ some (old ++ xs))) =
              (
                ap (λ c. c (other name)) end ∙ apart',
                (take headed front ++ take written payload, ap (λ c. c name) end ∙ back_name),
              ) in
            elim (Bool-cases (written == size)) [
              | inr short ↦ rw (write_file, full, short) all
              | inl done ↦ rw (write_file, full, done) all
            ]
      ]

  verify_record-refuses :
      (f : F) (h : H) (size g next crc : ℕ)
      → le32_at (ops.read record_header_size f h).0 4 ≡ g
      → (g == next) ≡ false
      → (verify_record ops next size crc f h).0 ≡ false
  unfolding verify_record
  verify_record-refuses f h size g next crc found apart = ground (arith, found, apart)

  -- The check of a file whose record has another generation refuses it, and changes no file.
  pub verify_file-refuses :
      (name : FileName) (f : F) (xs : List ℕ) (size g next crc : ℕ)
      → contents f name ≡ some xs
      → valid_generation size (some xs) ≡ some g
      → (g == next) ≡ false
      → ((verify_file ops name next size crc f).0 ≡ false)
        × (contents (verify_file ops name next size crc f).1 ≡ contents f)
  unfolding verify_file
  verify_file-refuses name f xs size g next crc holds valid apart =
      let (h, opened, view, _) = law.open_found name f xs holds in
      let fs = (ops.open_read name f).1 in
      let found : le32_at (ops.read record_header_size fs h).0 4 ≡ g =
        ap (λ t. le32_at t 4) ((law.read_lem record_header_size fs h).0 ∙ ap (take 16) view)
        ∙ (valid_whole size g xs valid).2 in
      rw (opened, verify_file)
        (
          verify_record-refuses fs h size g next crc found apart,
          law.close_kept _ _ ∙ law.open_kept name f,
        )
