-- ===== src/InternalFs/Erased.antt =====
-- What InternalFSStorage starts with after an erase, before any commit.
use via_arduino.Base.{
  Bool, Bool-cases, inl, inr, ◌&&◌, take, arith, if◌then◌else◌, ℕ, replicate, ◌≡◌, refl, ap, ◌∙◌,
  true, Option, none, List, length,
}
use via_arduino.InternalFs.{FileSystem, FileName, file_a, InternalFsStorage, begin}
use via_arduino.InternalFs.{erase, file_b}
use via_arduino.InternalFs.Files.{IsFileSystem, valid_generation}
use via_arduino.InternalFs.Start.{newest, begin_lem, payload_of}
use via_arduino.InternalFs.Current.{newest-none, newest-IsKept}

missing : (size : ℕ) → valid_generation size none ≡ none
unfolding valid_generation
missing size = refl

module _ {F H : Type 0} (ops : FileSystem F H) (contents : F → FileName → Option (List ℕ))
    (rest : H → List ℕ) (target : H → FileName) (law : IsFileSystem ops contents rest target) where
  -- What erase leaves of each file: nothing of one that was removed, the rest as it was.
  abbrev pub left : InternalFsStorage F → FileName → Option (List ℕ)
  left s file_a = if (ops.remove file_a s.fs).0 then none else contents s.fs file_a
  left s file_b =
      if (ops.remove file_b (ops.remove file_a s.fs).1).0 then none else contents s.fs file_b

  left_lem : (s : InternalFsStorage F) (n : FileName) → contents (erase ops s).1.fs n ≡ left s n
  unfolding erase
  left_lem s file_a =
      law.remove_apart file_b (ops.remove file_a s.fs).1 ∙ law.remove_lem file_a s.fs
  left_lem s file_b =
      law.remove_lem file_b (ops.remove file_a s.fs).1
      ∙ ap (λ o. if (ops.remove file_b (ops.remove file_a s.fs).1).0 then none else o)
          (law.remove_apart file_a s.fs)

  -- Both files are removed, as erase, which does not look, takes it.
  abbrev pub both_removed : InternalFsStorage F → Bool
  both_removed s = let (a, f) = ops.remove file_a s.fs in a && (ops.remove file_b f).0

  -- Nothing is left where both are removed.
  newest-removed :
      (s : InternalFsStorage F) (size : ℕ)
      → newest size (left s)
        ≡ (if both_removed s then (replicate size 0, 0) else newest size (left s))
  newest-removed s size = elim (Bool-cases (both_removed s)) [
    | inr kept ↦ rw kept refl
    | inl gone ↦
        let a : left s file_a ≡ none = ground (arith, gone) in
        let b : left s file_b ≡ none = ground (arith, gone) in
        let zeros =
          newest-none size (left s) file_a (ap (valid_generation size) a ∙ missing size)
            (ap (valid_generation size) b ∙ missing size) in
        zeros ∙ rw gone refl
  ]

  -- Over a file system that keeps its documented behaviour: a storage object that begins over the
  -- files as erase left them, if they mount, before any commit, gets zeros and generation 0,
  -- whatever record was there, if both removals succeeded, and otherwise the newest valid record of
  -- the files that are left.
  pub erase-begin :
      (s t : InternalFsStorage F)
      → t.fs ≡ (erase ops s).1.fs
      → length t.staging ≡ t.size
      → (ops.mount t.fs).0 ≡ true
      → let found = if both_removed s then (replicate t.size 0, 0) else newest t.size (left s) in
        ((begin ops t).0 ≡ true)
        × ((begin ops t).1.staging ≡ found.0)
        × ((begin ops t).1.active_generation ≡ found.1)
  erase-begin s t shared sized mounted =
      let started = begin_lem ops contents rest target law t mounted sized in
      let kept = λ (n : FileName). left_lem s n in
      let found =
        ap (λ f. newest t.size (contents f)) shared
        ∙ newest-IsKept t.size (left s) (contents (erase ops s).1.fs) (λ n. record {
          same_generation = ap (valid_generation t.size) (kept n);
          same_payload = ap (λ o. take t.size (payload_of o)) (kept n);
        })
        ∙ newest-removed s t.size in
      (started.0, started.2 ∙ ap (λ r. r.0) found, started.3 ∙ ap (λ r. r.1) found)
