-- ===== src/InternalFs/Start.antt =====
-- What InternalFSStorage::begin takes from the two files.
use mathlib.Core.Path.{subst}
use via_arduino.Base.{
  ℕ, ◌≤◌, ◌≡◌, refl, arith, ap, ◌∙◌, sym, true, Option, none, some, List, [], length, take, drop,
  ◌==◌, Bool-cases, Option-cases, inl, inr, replicate, splice-all, length-replicate, length-take,
}
use via_arduino.InternalFs.{FileSystem, FileName, file_a, file_b, record_header_size}
use via_arduino.InternalFs.{InternalFsStorage, begin, resume, choose_file, load_file}
use via_arduino.InternalFs.{start_empty, newer, check_file}
use via_arduino.InternalFs.Files.{IsFileSystem, valid_generation, check_file_lem}

-- The bytes behind the header of a file.
abbrev pub payload_of : Option (List ℕ) → List ℕ
payload_of none = []
payload_of (some xs) = drop record_header_size xs

-- The payload and the generation that begin takes from its choice among files of these bytes.
abbrev pub taken : ℕ → (FileName → Option (List ℕ)) → Option (FileName × ℕ) → List ℕ × ℕ
taken size files none = (replicate size 0, 0)
taken size files (some (name, generation)) = (take size (payload_of (files name)), generation)

-- That of the newest valid record, or zeros and generation 0.
unfoldable pub newest : ℕ → (FileName → Option (List ℕ)) → List ℕ × ℕ
unfolding valid_generation choose_file
newest size files =
    taken size files
      (choose_file (valid_generation size (files file_a)) (valid_generation size (files file_b)))

-- The file that is chosen, if any, has a whole payload.
abbrev IsWhole : ℕ → (FileName → Option (List ℕ)) → Option (FileName × ℕ) → Type 0
IsWhole size files none = Unit {0}
IsWhole size files (some (name, generation)) =
    (xs : List ℕ) × (files name ≡ some xs) × (size ≤ length (drop record_header_size xs))

valid_generation-IsWhole :
    (size : ℕ) (files : FileName → Option (List ℕ)) (name : FileName) (g : ℕ)
    → valid_generation size (files name) ≡ some g
    → IsWhole size files (some (name, g))
unfolding valid_generation
valid_generation-IsWhole size files name g h = elim (Option-cases (files name)) [
  | inl z ↦ ground arith
  | inr (xs, z) ↦ (xs, z, ground arith)
]

choose_file-IsWhole :
    (size : ℕ) (files : FileName → Option (List ℕ))
    → IsWhole size files
        (choose_file (valid_generation size (files file_a)) (valid_generation size (files file_b)))
unfolding choose_file
choose_file-IsWhole size files =
    go (valid_generation size (files file_a)) (valid_generation size (files file_b)) refl refl
  where
    go :
        (a b : Option ℕ)
        → valid_generation size (files file_a) ≡ a
        → valid_generation size (files file_b) ≡ b
        → IsWhole size files (choose_file a b)
    go none none e f = tt
    go (some a) none e f = valid_generation-IsWhole size files file_a a e
    go none (some b) e f = valid_generation-IsWhole size files file_b b f
    go (some a) (some b) e f = elim (Bool-cases (newer a b)) [
      | inl t ↦ rw t (valid_generation-IsWhole size files file_a a e)
      | inr t ↦ rw t (valid_generation-IsWhole size files file_b b f)
    ]

module _ {F H : Type 0} (ops : FileSystem F H) (contents : F → FileName → Option (List ℕ))
    (rest : H → List ℕ) (target : H → FileName) (law : IsFileSystem ops contents rest target) where
  load_file_lem :
      (name : FileName) (generation : ℕ) (s : InternalFsStorage F) (xs : List ℕ)
      → contents s.fs name ≡ some xs
      → s.size ≤ length (drop record_header_size xs)
      → length s.staging ≡ s.size
      → let t = load_file ops name generation s in
        (t.initialized ≡ true)
        × (t.staging ≡ take s.size (drop record_header_size xs))
        × (t.active_generation ≡ generation)
        × (contents t.fs ≡ contents s.fs)
  unfolding load_file
  load_file_lem name generation s xs found long sized =
      let (h, opened, _, sought) = law.open_found name s.fs xs found in
      let fs = (ops.open_read name s.fs).1 in
      let payload = take s.size (drop record_header_size xs) in
      let got : (ops.read s.size fs (ops.seek record_header_size h)).0 ≡ payload =
        (law.read_lem s.size fs (ops.seek record_header_size h)).0
        ∙ ap (take s.size) (sought record_header_size) in
      let full : length payload ≡ s.size =
        omega (arith, length-take s.size (drop record_header_size xs), long) in
      let whole : (length payload == s.size) ≡ true = ground (arith, full) in
      rw (opened, load_file, got, whole)
        (
          refl,
          splice-all s.staging payload (full ∙ sym sized),
          refl,
          law.close_kept _ _ ∙ law.open_kept name s.fs,
        )

  resume_lem :
      (o : Option (FileName × ℕ)) (s : InternalFsStorage F)
      → IsWhole s.size (contents s.fs) o
      → length s.staging ≡ s.size
      → let t = resume ops o s in
        (t.initialized ≡ true)
        × (t.staging ≡ (taken s.size (contents s.fs) o).0)
        × (t.active_generation ≡ (taken s.size (contents s.fs) o).1)
        × (contents t.fs ≡ contents s.fs)
  unfolding resume start_empty
  resume_lem none s whole sized =
      (refl, splice-all s.staging _ (length-replicate s.size 0 ∙ sym sized), refl, refl)
  resume_lem (some (name, generation)) s (xs, found, long) sized =
      let loaded = load_file_lem name generation s xs found long sized in
      (loaded.0, loaded.1 ∙ ap (λ o. take s.size (payload_of o)) (sym found), loaded.2, loaded.3)

  -- Over a file system that keeps its documented behaviour and mounts, with a staging memory of the
  -- size that was given, whatever the two files hold: begin succeeds, the staging memory gets the
  -- payload of the newest valid record with its generation, or zeros and generation 0 where there
  -- is none, and no file changes.
  pub begin_lem :
      (s : InternalFsStorage F)
      → (ops.mount s.fs).0 ≡ true
      → length s.staging ≡ s.size
      → ((begin ops s).0 ≡ true)
        × ((begin ops s).1.initialized ≡ true)
        × ((begin ops s).1.staging ≡ (newest s.size (contents s.fs)).0)
        × ((begin ops s).1.active_generation ≡ (newest s.size (contents s.fs)).1)
        × (contents (begin ops s).1.fs ≡ contents s.fs)
  unfolding begin newest
  begin_lem s mounted sized =
      let fs = (ops.mount s.fs).1 in
      let (a, kept_a) = check_file_lem ops contents rest target law s.size file_a fs in
      let fs' = (check_file ops s.size file_a fs).1 in
      let (b, kept_b) = check_file_lem ops contents rest target law s.size file_b fs' in
      let fs'' = (check_file ops s.size file_b fs').1 in
      let kept = law.mount_kept s.fs in
      let same' : contents fs' ≡ contents s.fs = kept_a ∙ kept in
      let same : contents fs'' ≡ contents s.fs = kept_b ∙ same' in
      let s' : InternalFsStorage F = record s { fs = fs'' } in
      let files = contents s.fs in
      let a' : (check_file ops s.size file_a fs).0 ≡ valid_generation s.size (files file_a) =
        a ∙ ap (λ c. valid_generation s.size (c file_a)) kept in
      let b' : (check_file ops s.size file_b fs').0 ≡ valid_generation s.size (files file_b) =
        b ∙ ap (λ c. valid_generation s.size (c file_b)) same' in
      let chosen =
        choose_file (valid_generation s.size (files file_a))
          (valid_generation s.size (files file_b)) in
      let done =
        resume_lem chosen s'
          (subst (λ c. IsWhole s.size c chosen) (sym same) (choose_file-IsWhole s.size files))
          sized in
      rw (begin, mounted, a', b')
        (
          refl,
          done.0,
          done.1 ∙ ap (λ c. (taken s.size c chosen).0) same,
          done.2 ∙ ap (λ c. (taken s.size c chosen).1) same,
          done.3 ∙ same,
        )
