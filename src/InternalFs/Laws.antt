-- ===== src/InternalFs/Laws.antt =====
-- InternalFSStorage meets the contract of Storage, over any file system.
use via_arduino.Base.{ℕ, ◌≡◌, refl, arith, ◌∙◌, true, List, length, length-splice}
use via_arduino.Protocol.Contract.{IsStorage}
use via_arduino.InternalFs.{FileSystem, InternalFsStorage, internal_fs_ops, capacity, read, write}
use via_arduino.InternalFs.{commit, erase}

-- The staging memory has the size that was given with it, and begin or erase has run.
pub record IsUsable {F : Type 0} (s : InternalFsStorage F) : Type 0 where
  pub started : s.initialized ≡ true
  pub sized : length s.staging ≡ s.size

abbrev pub staged : {F : Type 0} → InternalFsStorage F → List ℕ
staged s = s.staging

-- Over any file system: once begin or erase has run, with a staging memory of the size that was
-- given, InternalFSStorage keeps bytes as Storage documents.
pub internal_fs-IsStorage :
    {F H : Type 0} (ops : FileSystem F H) → IsStorage (internal_fs_ops ops) IsUsable staged
unfolding capacity read write commit erase
internal_fs-IsStorage ops = record {
  holds = λ s u. ground (arith, u.sized);
  read_back = λ s off n u le. ground (arith, u.started);
  write_lem = λ off bytes s u h. (
    record {
      started = ground (arith, u.started);
      sized = ground (arith, u.sized, length-splice s.staging off bytes);
    },
    ground arith,
    ground arith,
  );
  commit_lem = λ s u h. (
    record { started = ground (arith, u.started); sized = ground (arith, u.sized) },
    ground arith,
    ground arith,
  );
  erase_lem = λ s u h. (
    record { started = refl; sized = length-splice s.staging 0 _ ∙ u.sized },
    length-splice s.staging 0 _,
    refl,
  );
}
