-- ===== src/InternalFs/Files.antt =====
-- The documented behaviour of the file system that InternalFSStorage relies on, and what its
-- readers find in a file.
use via_arduino.Base.{
  ℕ, zero, suc, ◌-◌, ◌≤◌, ◌<◌, ◌≡◌, refl, arith, ap, ◌∙◌, false, not, ◌&&◌, bit_xor, Option, none,
  some, List, [], ◌∷◌, ◌++◌, length, take, drop, leb, ltb, ◌==◌, if◌then◌else◌, Option-cases, inl,
  inr, length-take, length-drop, take-split,
}
use via_arduino.Protocol.Persist.{le32_at}
use via_arduino.InternalFs.{FileSystem, FileName, file_a, file_b, magic, record_header_size}
use via_arduino.InternalFs.{chunk_size, crc_rounds, crc32, read_crc, check_record, check_file}

abbrev pub other : FileName → FileName
other file_a = file_b
other file_b = file_a

-- What there is to read in a file, nothing where it is missing.
abbrev pub bytes_of : Option (List ℕ) → List ℕ
bytes_of none = []
bytes_of (some xs) = xs

-- A file system: `contents` are the bytes of each file there is, `rest` what an open file has still
-- to read, `target` the file that an open file writes to. FILE_O_WRITE makes a missing file, keeps the
-- bytes of one that is there, and writes behind them. A remove says whether it removed. A write that takes fewer bytes than it was
-- given took the first ones, as one that the power failed under did.
pub record IsFileSystem {F H : Type 0} (ops : FileSystem F H)
    (contents : F → FileName → Option (List ℕ)) (rest : H → List ℕ) (target : H → FileName)
    : Type 0 where
  pub mount_kept : (f : F) → contents (ops.mount f).1 ≡ contents f
  pub open_kept : (name : FileName) (f : F) → contents (ops.open_read name f).1 ≡ contents f
  pub open_missing :
      (name : FileName) (f : F) → contents f name ≡ none → (ops.open_read name f).0 ≡ none
  pub open_found :
      (name : FileName) (f : F) (xs : List ℕ)
      → contents f name ≡ some xs
      → (h : H) × ((ops.open_read name f).0 ≡ some h)
        × (rest h ≡ xs)
        × ((k : ℕ) → rest (ops.seek k h) ≡ drop k xs)
  pub read_lem :
      (n : ℕ) (f : F) (h : H)
      → ((ops.read n f h).0 ≡ take n (rest h)) × (rest (ops.read n f h).1 ≡ drop n (rest h))
  pub close_kept : (h : H) (f : F) → contents (ops.close h f) ≡ contents f
  pub open_write_lem :
      (name : FileName) (f : F) (h : H)
      → (ops.open_write name f).0 ≡ some h
      → (target h ≡ name)
        × (contents (ops.open_write name f).1 name ≡ some (bytes_of (contents f name)))
  pub open_write_apart :
      (name : FileName) (f : F)
      → contents (ops.open_write name f).1 (other name) ≡ contents f (other name)
  pub open_write_failed :
      (name : FileName) (f : F)
      → (ops.open_write name f).0 ≡ none
      → contents (ops.open_write name f).1 ≡ contents f
  pub write_lem :
      (xs : List ℕ) (h : H) (f : F) (old : List ℕ)
      → contents f (target h) ≡ some old
      → (target (ops.write xs h f).1 ≡ target h)
        × (contents (ops.write xs h f).2 (target h) ≡ some (old ++ take (ops.write xs h f).0 xs))
        × ((ops.write xs h f).0 ≤ length xs)
  pub write_apart :
      (xs : List ℕ) (h : H) (f : F)
      → contents (ops.write xs h f).2 (other (target h)) ≡ contents f (other (target h))
  pub remove_lem :
      (name : FileName) (f : F)
      → contents (ops.remove name f).1 name
        ≡ (if (ops.remove name f).0 then none else contents f name)
  pub remove_apart :
      (name : FileName) (f : F)
      → contents (ops.remove name f).1 (other name) ≡ contents f (other name)

-- The generation of the record in a file of these bytes, if it is one of `size` payload bytes: what
-- a reader that takes the file whole says of it.
unfoldable pub valid_generation : ℕ → Option (List ℕ) → Option ℕ
valid_generation size none = none
valid_generation size (some xs) =
    let header = take record_header_size xs in
    let payload = drop record_header_size xs in
    if not (length header == record_header_size)
    then none
    else if not (le32_at header 0 == magic && le32_at header 8 == size)
    then none
    else if leb size (length payload) && crc32 (take size payload) 0xFFFFFFFF == le32_at header 12
    then some (le32_at header 4)
    else none

pub crc32-append : (xs ys : List ℕ) (crc : ℕ) → crc32 (xs ++ ys) crc ≡ crc32 ys (crc32 xs crc)
unfolding crc32
crc32-append [] ys crc = refl
crc32-append (x ∷ xs) ys crc = crc32-append xs ys (crc_rounds 8 (bit_xor crc x))

module _ {F H : Type 0} (ops : FileSystem F H) (contents : F → FileName → Option (List ℕ))
    (rest : H → List ℕ) (target : H → FileName) (law : IsFileSystem ops contents rest target) where
  -- One round: a full chunk, and the rest of the loop.
  round_lem :
      (n remaining crc : ℕ) (f : F) (h : H) (found : Option ℕ × H)
      → n ≤ remaining
      → let (chunk, h') = ops.read n f h in
        found.0 ≡ (
          if leb (remaining - n) (length (rest h'))
          then some (crc32 (take (remaining - n) (rest h')) (crc32 chunk crc))
          else none)
        → (if not (length chunk == n) then (none, h') else found).0 ≡ (
            if leb remaining (length (rest h))
            then some (crc32 (take remaining (rest h)) crc)
            else none)
  round_lem n remaining crc f h found le ih =
      let (got, left) = law.read_lem n f h in
      let whole = crc32-append (take n (rest h)) (take (remaining - n) (drop n (rest h))) crc in
      rw got (
        ground (
          arith,
          rw (left, got) at ih,
          length-take n (rest h),
          length-drop n (rest h),
          rw (← take-split n remaining (rest h) le) at whole,
        ))

  -- On a file system that keeps its laws, the chunked loop ends within as many rounds as bytes
  -- remain, whatever fuel beyond that it is given, and its result is the CRC of the next
  -- `remaining` bytes in one piece, or `none` where the file has fewer.
  pub read_crc_lem :
      (fuel remaining crc : ℕ) (f : F) (h : H)
      → remaining ≤ fuel
      → (read_crc ops fuel remaining crc f h).0 ≡ (
          if leb remaining (length (rest h))
          then some (crc32 (take remaining (rest h)) crc)
          else none)
  unfolding read_crc crc32
  read_crc_lem zero zero crc f h le = ground arith
  read_crc_lem zero (suc r) crc f h le = absurd (omega arith)
  read_crc_lem (suc fuel) zero crc f h le = ground arith
  read_crc_lem (suc fuel) (suc r) crc f h le =
      let n = if ltb chunk_size (suc r) then chunk_size else (suc r) in
      let small : n ≤ suc r = ground arith in
      let some_bytes : 0 < n = ground arith in
      let (chunk, h') = ops.read n f h in
      let more : (suc r == 0) ≡ false = ground arith in
      rw more (
        round_lem n (suc r) crc f h (read_crc ops fuel (suc r - n) (crc32 chunk crc) f h') small
          (read_crc_lem fuel (suc r - n) (crc32 chunk crc) f h' (omega arith)))

  check_record_lem :
      (size : ℕ) (f : F) (h : H)
      → (check_record ops size f h).0 ≡ valid_generation size (some (rest h))
  unfolding check_record valid_generation
  check_record_lem size f h =
      let (got, left) = law.read_lem record_header_size f h in
      let n = le32_at (take record_header_size (rest h)) 8 in
      let crc = read_crc_lem n n 0xFFFFFFFF f (ops.read record_header_size f h).1 (omega arith) in
      rw got (ground (arith, rw left at crc))

  -- Whatever stands in a file, and also where there is none: over a file system that keeps its
  -- documented behaviour, the checks of begin, which take the file by a header and chunks of 256
  -- bytes, find the generation that a reader of the whole file finds, and change no file.
  pub check_file_lem :
      (size : ℕ) (name : FileName) (f : F)
      → ((check_file ops size name f).0 ≡ valid_generation size (contents f name))
        × (contents (check_file ops size name f).1 ≡ contents f)
  unfolding check_file valid_generation
  check_file_lem size name f = elim (Option-cases (contents f name)) [
    | inl missing ↦
        let closed = law.open_missing name f missing in
        let kept = law.open_kept name f in rw (missing, closed, check_file) (refl, kept)
    | inr (xs, found) ↦
        let (h, opened, view, _) = law.open_found name f xs found in
        let kept = law.open_kept name f in
        rw (found, opened, check_file)
          (
            check_record_lem size _ h ∙ ap (λ t. valid_generation size (some t)) view,
            law.close_kept _ _ ∙ kept,
          )
  ]
