-- ===== src/InternalFs/Durable.antt =====
-- What InternalFSStorage starts with after a commit, whether it succeeded or stopped on the way.
use mathlib.Core.Path.{subst}
use via_arduino.Base.{
  ℕ, ◌+◌, ◌<◌, ◌^◌, ◌≡◌, refl, arith, ap, ◌∙◌, sym, true, false, Option, none, some, List, [],
  length, take, if◌then◌else◌, ◌⊎◌, Option-cases, inl, inr, u32,
}
use via_arduino.Protocol.Valid.{Below}
use via_arduino.InternalFs.{FileSystem, FileName, file_a, InternalFsStorage, begin}
use via_arduino.InternalFs.{commit, file_of}
use via_arduino.InternalFs.Laws.{IsUsable}
use via_arduino.InternalFs.Files.{IsFileSystem, other, valid_generation, bytes_of}
use via_arduino.InternalFs.Current.{IsKept, IsCurrent-IsKept, IsCurrent-next, both_files}
use via_arduino.InternalFs.Start.{payload_of, newest, begin_lem}
use via_arduino.InternalFs.Current.{IsCurrent, file_of-next, other_twice, none_in, none_both}
use via_arduino.InternalFs.Current.{newest-only, newest-later, newest-none}
use via_arduino.InternalFs.Ended.{Ended, next, commit-Ended, commit-onto, record_valid}

missing : (size : ℕ) → valid_generation size none ≡ none
unfolding valid_generation
missing size = refl

module _ {F H : Type 0} (ops : FileSystem F H) (contents : F → FileName → Option (List ℕ))
    (rest : H → List ℕ) (target : H → FileName) (law : IsFileSystem ops contents rest target) where
  module _ (s : InternalFsStorage F) (u : IsUsable s) (bytes : Below 256 s.staging)
      (g_fits : s.active_generation < 2 ^ 32) (fits : s.size < 2 ^ 32) where
    -- What the files hold after a commit: the staged payload if it succeeds, else the old one.
    commit-IsCurrent :
        (old : List ℕ)
        → Ended ops contents rest target law s (commit ops s)
        → IsCurrent s.size (contents s.fs) s.active_generation old
        → let (ok, s') = commit ops s in
          IsCurrent s.size (contents s'.fs) s'.active_generation (if ok then s.staging else old)
    unfolding next
    commit-IsCurrent old (apart, ended) now =
        let name = file_of (next ops contents rest target law s u bytes g_fits fits) in
        let files = contents s.fs in
        let files' = contents (commit ops s).1.fs in
        let own : other name ≡ file_of s.active_generation =
          ap other (file_of-next s.active_generation) ∙ other_twice (file_of s.active_generation) in
        let old_file : files' (file_of s.active_generation) ≡ files (file_of s.active_generation) =
          subst (λ n. files' n ≡ files n) own apart in
        elim ended [
          | inl (ok, numbered, holds) ↦
              let (valid, behind) =
                record_valid ops contents rest target law s u bytes g_fits fits (files' name)
                  holds in
              rw (ok, numbered)
                (record {
                  is_newest = elim now.place [
                    | inl (before, _) ↦
                        newest-later s.size files' name s.active_generation g_fits valid (
                          ap (valid_generation s.size) apart
                          ∙ ap (λ n. valid_generation s.size (files n)) own
                          ∙ before)
                        ∙ ap (λ xs. (xs, u32 (s.active_generation + 1))) behind
                    | inr (no_a, no_b, zeroed) ↦
                        newest-only s.size files' name (u32 (s.active_generation + 1)) valid (
                          ap (valid_generation s.size) apart
                          ∙ none_in s.size files no_a no_b (other name))
                        ∙ ap (λ xs. (xs, u32 (s.active_generation + 1))) behind
                  ];
                  place = inl (valid, behind);
                })
          | inr (failed, numbered, inr kept) ↦
              rw (failed, numbered)
                (IsCurrent-IsKept s.size files files'
                  (both_files (λ n. IsKept s.size (files n) (files' n)) name kept
                    (record {
                      same_generation = ap (valid_generation s.size) apart;
                      same_payload = ap (λ o. take s.size (payload_of o)) apart;
                    }))
                  s.active_generation old now)
          | inr (failed, numbered, inl invalid) ↦
              rw (failed, numbered)
                (elim now.place [
                  | inl (before, same) ↦
                      let valid = ap (valid_generation s.size) old_file ∙ before in
                      let behind = ap (λ o. take s.size (payload_of o)) old_file ∙ same in
                      record {
                        is_newest =
                            newest-only s.size files' (file_of s.active_generation)
                              s.active_generation valid
                              (ap (λ n. valid_generation s.size (files' n))
                                  (sym (file_of-next s.active_generation))
                                ∙ invalid)
                            ∙ ap (λ xs. (xs, s.active_generation)) behind;
                        place = inl (valid, behind);
                      }
                  | inr (no_a, no_b, zeroed) ↦
                      let others =
                        ap (valid_generation s.size) apart
                        ∙ none_in s.size files no_a no_b (other name) in
                      let nothing = none_both s.size files' name invalid others in
                      record {
                        is_newest =
                            newest-none s.size files' name invalid others
                            ∙ sym (newest-none s.size files file_a no_a no_b)
                            ∙ now.is_newest;
                        place = inr (nothing.0, nothing.1, zeroed);
                      }
                ])
        ]

    started_after :
        (old : List ℕ) (t : InternalFsStorage F)
        → let (ok, s') = commit ops s in
          IsCurrent s.size (contents s'.fs) s'.active_generation (if ok then s.staging else old)
          → t.fs ≡ s'.fs
          → t.size ≡ s.size
          → length t.staging ≡ t.size
          → (ops.mount t.fs).0 ≡ true
          → ((begin ops t).0 ≡ true)
            × ((begin ops t).1.staging ≡ (if ok then s.staging else old))
            × ((begin ops t).1.active_generation ≡ s'.active_generation)
    started_after old t after shared same sized mounted =
        let started = begin_lem ops contents rest target law t mounted sized in
        let found =
          ap (newest t.size) (ap contents shared)
          ∙ ap (λ k. newest k (contents (commit ops s).1.fs)) same
          ∙ after.is_newest in
        (started.0, started.2 ∙ ap (λ r. r.0) found, started.3 ∙ ap (λ r. r.1) found)

    -- A commit whose file holds a record.
    onto_record :
        (old : List ℕ) (g : ℕ)
        → IsCurrent s.size (contents s.fs) s.active_generation old
        → valid_generation s.size (contents s.fs (file_of (u32 (s.active_generation + 1)))) ≡ some g
        → Ended ops contents rest target law s (commit ops s) × ((commit ops s).0 ≡ false)
    unfolding next
    onto_record old g now found =
        let file = contents s.fs (file_of (u32 (s.active_generation + 1))) in
        let apart =
          IsCurrent-next s.size (contents s.fs) s.active_generation g old g_fits now found in
        elim (Option-cases file) [
          | inl gone ↦
              let nothing : valid_generation s.size file ≡ none =
                ap (valid_generation s.size) gone ∙ missing s.size in
              absurd (ground (arith, nothing, found))
          | inr (xs, holds) ↦
              commit-onto ops contents rest target law s u bytes g_fits fits xs g holds
                (ap (valid_generation s.size) (sym holds) ∙ found) apart
        ]

    -- Over a file system that keeps its documented behaviour, where a file opened for writing keeps
    -- its bytes and is written behind them, and a write may stop after any number of bytes; with a
    -- staging memory of bytes of the size that was given, below 2^32; with files that hold the
    -- payload `old` as the newest valid record, in the file of its generation, or no valid record
    -- and `old` zeros; and with the file that commit writes missing, empty, or holding a valid
    -- record: however a commit ends, a storage object of the same size that begins over these files,
    -- if they mount, gets the staged payload if the commit succeeded and `old` if it did not, with
    -- the generation that the commit left; and the files again hold that payload in that way.
    pub commit-begin :
        (old : List ℕ) (t : InternalFsStorage F)
        → IsCurrent s.size (contents s.fs) s.active_generation old
        → let file = contents s.fs (file_of (u32 (s.active_generation + 1))) in
          (bytes_of file ≡ []) ⊎ ((g : ℕ) × (valid_generation s.size file ≡ some g))
          → t.fs ≡ (commit ops s).1.fs
          → t.size ≡ s.size
          → length t.staging ≡ t.size
          → (ops.mount t.fs).0 ≡ true
          → let (ok, s') = commit ops s in
            ((begin ops t).0 ≡ true)
            × ((begin ops t).1.staging ≡ (if ok then s.staging else old))
            × ((begin ops t).1.active_generation ≡ s'.active_generation)
            × IsCurrent s.size (contents s'.fs) s'.active_generation (if ok then s.staging else old)
    unfolding next
    commit-begin old t now (inl blank) shared same sized mounted =
        let ended = commit-Ended ops contents rest target law s u bytes g_fits fits blank in
        let after = commit-IsCurrent old ended now in
        let begun = started_after old t after shared same sized mounted in
        (begun.0, begun.1, begun.2, after)
    commit-begin old t now (inr (g, found)) shared same sized mounted =
        let (ended, _) = onto_record old g now found in
        let after = commit-IsCurrent old ended now in
        let begun = started_after old t after shared same sized mounted in
        (begun.0, begun.1, begun.2, after)

    -- Over a file system that keeps its documented behaviour, where a file opened for writing keeps
    -- its bytes and is written behind them; with a staging memory of bytes of the size that was
    -- given, below 2^32; and with files that hold the payload `old` as the newest valid record, in
    -- the file of its generation, or no valid record and `old` zeros: if the file that commit
    -- writes holds a valid record already, the commit fails, and a storage object of the same size
    -- that begins over these files, if they mount, gets `old`.
    pub commit-refused :
        (old : List ℕ) (g : ℕ) (t : InternalFsStorage F)
        → IsCurrent s.size (contents s.fs) s.active_generation old
        → valid_generation s.size (contents s.fs (file_of (u32 (s.active_generation + 1)))) ≡ some g
        → t.fs ≡ (commit ops s).1.fs
        → t.size ≡ s.size
        → length t.staging ≡ t.size
        → (ops.mount t.fs).0 ≡ true
        → ((commit ops s).0 ≡ false) × ((begin ops t).0 ≡ true) × ((begin ops t).1.staging ≡ old)
    commit-refused old g t now found shared same sized mounted =
        let (ended, failed) = onto_record old g now found in
        let begun =
          started_after old t (commit-IsCurrent old ended now) shared same sized mounted in
        (failed, begun.0, begun.1 ∙ ap (λ ok. if ok then s.staging else old) failed)
