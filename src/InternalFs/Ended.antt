-- ===== src/InternalFs/Ended.antt =====
-- How InternalFSStorage::commit ends, by what the file held that it writes to.
use mathlib.Core.Path.{subst}
use via_arduino.Base.{◌++◌, ◌==◌, Bool-cases}
use via_arduino.Base.{
  ℕ, ◌+◌, ◌<◌, ◌^◌, ◌≡◌, refl, arith, ap, ◌∙◌, sym, Bool, true, false, Option, none, some, List, [],
  length, take, ◌⊎◌, Option-cases, inl, inr, u32, take-all,
}
use via_arduino.Protocol.Valid.{Below}
use via_arduino.InternalFs.{FileSystem, FileName, InternalFsStorage, crc32}
use via_arduino.InternalFs.{commit, file_of, record_header, write_file}
use via_arduino.InternalFs.{verify_file}
use via_arduino.InternalFs.Laws.{IsUsable}
use via_arduino.InternalFs.Files.{IsFileSystem, other, valid_generation, bytes_of}
use via_arduino.InternalFs.Appended.{
  valid_generation-append, write_file-append, verify_file-refuses,
}
use via_arduino.InternalFs.Current.{IsKept}
use via_arduino.InternalFs.Start.{payload_of}
use via_arduino.InternalFs.Written.{record_bytes, payload_behind, valid_generation-record_bytes}
use via_arduino.InternalFs.Written.{verify_file_lem, write_file_lem}

module _ {F H : Type 0} (ops : FileSystem F H) (contents : F → FileName → Option (List ℕ))
    (rest : H → List ℕ) (target : H → FileName) (law : IsFileSystem ops contents rest target) where
  -- The other file stays, and the one written holds the record, or no valid one.
  abbrev Wrote : ℕ → ℕ → List ℕ → FileName → F → Bool × F → Type 0
  Wrote size g payload name f (done, f') =
      (contents f' (other name) ≡ contents f (other name))
      × (((done ≡ true) × (contents f' name ≡ some (record_bytes g payload)))
          ⊎ ((done ≡ false) × (valid_generation size (contents f' name) ≡ none)))

  -- How a commit ends: with the new record in one file, or with no valid record in it or the one
  -- that it held; the other file stays.
  abbrev pub Ended : InternalFsStorage F → Bool × InternalFsStorage F → Type 0
  Ended s (ok, s') =
      let g = u32 (s.active_generation + 1) in
      let name = file_of g in
      (contents s'.fs (other name) ≡ contents s.fs (other name))
      × (((ok ≡ true)
            × (s'.active_generation ≡ g)
            × (contents s'.fs name ≡ some (record_bytes g s.staging)))
          ⊎ ((ok ≡ false)
              × (s'.active_generation ≡ s.active_generation)
              × ((valid_generation s.size (contents s'.fs name) ≡ none)
                  ⊎ IsKept s.size (contents s.fs name) (contents s'.fs name))))

  module _ (s : InternalFsStorage F) (u : IsUsable s) (bytes : Below 256 s.staging)
      (g_fits : s.active_generation < 2 ^ 32) (fits : s.size < 2 ^ 32) where
    unfoldable pub next : ℕ
    next = u32 (s.active_generation + 1)

    crc : ℕ
    crc = crc32 s.staging 0xFFFFFFFF

    write_sized :
        (name : FileName) (h : H) (f : F)
        → target h ≡ name
        → contents f name ≡ some []
        → Wrote s.size next s.staging name f
            (write_file ops (record_header next s.size crc) s.staging s.size h f)
    unfolding next crc
    write_sized name h f aimed empty =
        subst
          (λ k.
            Wrote k next s.staging name f
              (write_file ops (record_header next k crc) s.staging k h f))
          u.sized
          (write_file_lem next s.staging bytes (omega arith) (omega (arith, u.sized)) ops contents
            rest target law name h f aimed empty)

    verify_sized :
        (name : FileName) (f : F)
        → contents f name ≡ some (record_bytes next s.staging)
        → ((verify_file ops name next s.size crc f).0 ≡ true)
          × (contents (verify_file ops name next s.size crc f).1 ≡ contents f)
    unfolding next crc
    verify_sized name f holds =
        subst
          (λ k.
            ((verify_file ops name next k crc f).0 ≡ true)
            × (contents (verify_file ops name next k crc f).1 ≡ contents f))
          u.sized
          (verify_file_lem next s.staging bytes (omega arith) (omega (arith, u.sized)) ops contents
            rest target law name f holds)

    IsKept-file :
        (name : FileName) {f : F}
        → contents f ≡ contents s.fs
        → IsKept s.size (contents s.fs name) (contents f name)
    IsKept-file name same = record {
      same_generation = ap (λ c. valid_generation s.size (c name)) same;
      same_payload = ap (λ c. take s.size (payload_of (c name))) same;
    }

    -- Into a file that is missing or empty.
    pub commit-Ended : bytes_of (contents s.fs (file_of next)) ≡ [] → Ended s (commit ops s)
    unfolding commit next crc
    commit-Ended blank =
        let name = file_of next in
        let whole = take-all s.size s.staging (sym u.sized) in
        elim (Option-cases (ops.open_write name s.fs).0) [
          | inl refused ↦
              let same = law.open_write_failed name s.fs refused in
              rw (commit, u.started, refused)
                (ap (λ c. c (other name)) same, inr (refl, refl, inr (IsKept-file name same)))
          | inr (h, opened) ↦
              let fs = (ops.open_write name s.fs).1 in
              let (aimed, appends) = law.open_write_lem name s.fs h opened in
              let empty : contents fs name ≡ some [] = appends ∙ ap some blank in
              let apart = law.open_write_apart name s.fs in
              let (kept, ended) = write_sized name h fs aimed empty in
              elim ended [
                | inr (failed, invalid) ↦
                    rw (commit, u.started, opened, whole, failed)
                      (kept ∙ apart, inr (refl, refl, inl invalid))
                | inl (done, holds) ↦
                    let (same, verified) = verify_sized name _ holds in
                    rw (commit, u.started, opened, whole, done, same)
                      (
                        ap (λ c. c (other name)) verified ∙ kept ∙ apart,
                        inl (refl, refl, ap (λ c. c name) verified ∙ holds),
                      )
              ]
        ]

    -- Bytes behind the record of a file leave it.
    IsKept-behind :
        (name : FileName) (g : ℕ) (f : F) (old xs : List ℕ)
        → contents s.fs name ≡ some old
        → valid_generation s.size (some old) ≡ some g
        → contents f name ≡ some (old ++ xs)
        → IsKept s.size (contents s.fs name) (contents f name)
          × (valid_generation s.size (some (old ++ xs)) ≡ some g)
    IsKept-behind name g f old xs before valid holds =
        let (valid', same) = valid_generation-append s.size g old xs valid in
        (
          record {
            same_generation =
                ap (valid_generation s.size) holds
                ∙ valid'
                ∙ sym valid
                ∙ ap (valid_generation s.size) (sym before);
            same_payload =
                ap (λ o. take s.size (payload_of o)) holds
                ∙ same
                ∙ ap (λ o. take s.size (payload_of o)) (sym before);
          },
          valid',
        )

    -- Into a file with a record of another generation: it fails, and leaves the record.
    pub commit-onto :
        (old : List ℕ) (g : ℕ)
        → contents s.fs (file_of next) ≡ some old
        → valid_generation s.size (some old) ≡ some g
        → (g == next) ≡ false
        → Ended s (commit ops s) × ((commit ops s).0 ≡ false)
    unfolding commit next crc
    commit-onto old g before valid apart_from =
        let name = file_of next in
        let whole = take-all s.size s.staging (sym u.sized) in
        elim (Option-cases (ops.open_write name s.fs).0) [
          | inl refused ↦
              let same = law.open_write_failed name s.fs refused in
              rw (commit, u.started, refused)
                (
                  (ap (λ c. c (other name)) same, inr (refl, refl, inr (IsKept-file name same))),
                  refl,
                )
          | inr (h, opened) ↦
              let fs = (ops.open_write name s.fs).1 in
              let front = record_header next s.size crc in
              let (aimed, appends) = law.open_write_lem name s.fs h opened in
              let (apart, (xs, holds)) =
                write_file-append ops contents rest target law name h fs old front s.staging s.size
                  aimed (appends ∙ ap (λ o. some (bytes_of o)) before) in
              let fs' = (write_file ops front s.staging s.size h fs).1 in
              let (kept, valid') = IsKept-behind name g fs' old xs before valid holds in
              let (refuses, same) =
                verify_file-refuses ops contents rest target law name fs' (old ++ xs) s.size g next
                  crc holds valid' apart_from in
              let others = apart ∙ law.open_write_apart name s.fs in
              elim (Bool-cases (write_file ops front s.staging s.size h fs).0) [
                | inr failed ↦
                    rw (commit, u.started, opened, whole, failed)
                      ((others, inr (refl, refl, inr kept)), refl)
                | inl done ↦
                    rw (commit, u.started, opened, whole, done, refuses)
                      (
                        (
                          ap (λ c. c (other name)) same ∙ others,
                          inr (
                            refl,
                            refl,
                            inr (record {
                              same_generation =
                                  ap (λ c. valid_generation s.size (c name)) same
                                  ∙ kept.same_generation;
                              same_payload =
                                  ap (λ c. take s.size (payload_of (c name))) same
                                  ∙ kept.same_payload;
                            }),
                          ),
                        ),
                        refl,
                      )
              ]
        ]

    pub record_valid :
        (o : Option (List ℕ))
        → o ≡ some (record_bytes next s.staging)
        → (valid_generation s.size o ≡ some next) × (take s.size (payload_of o) ≡ s.staging)
    unfolding next
    record_valid o e =
        let g_next : u32 (s.active_generation + 1) < 2 ^ 32 = omega arith in
        let small : length s.staging < 2 ^ 32 = omega (arith, u.sized) in
        (
          ap (valid_generation s.size) e
              ∙ subst (λ k. valid_generation k (some (record_bytes next s.staging)) ≡ some next)
                  u.sized (valid_generation-record_bytes next s.staging bytes g_next small),
          ap (λ o. take s.size (payload_of o)) e
              ∙ ap (take s.size) (payload_behind next s.staging bytes g_next small)
              ∙ take-all s.size s.staging (sym u.sized),
        )
