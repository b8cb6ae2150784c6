-- ===== src/Tests/InternalFs.antt =====
-- InternalFSStorage over a disk in memory that takes so many bytes and no more.
use mathlib.Core.Option
use via_arduino.Base.{
  ℕ, ◌-◌, ◌++◌, ◌≡◌, refl, arith, true, false, List, [], ◌∷◌, Option, none, some, take, drop,
  length, min, if◌then◌else◌, leb, inl, inr, ap, ◌∙◌,
}
use via_arduino.InternalFs.{
  FileSystem, FileName, file_a, file_b, InternalFsStorage, begin, commit, erase, read_crc,
}
use via_arduino.InternalFs.{new_storage, record_header}
use via_arduino.InternalFs.{crc32}
use via_arduino.InternalFs.Laws.{IsUsable}
use via_arduino.InternalFs.Files.{valid_generation, bytes_of, IsFileSystem, other, read_crc_lem}
use via_arduino.InternalFs.Current.{IsCurrent}
use via_arduino.InternalFs.Start.{newest, begin_lem}
use via_arduino.InternalFs.Durable.{commit-begin, commit-refused}
use via_arduino.InternalFs.Erased.{erase-begin}

record Disk : Type 0 where
  a : Option (List ℕ)
  b : Option (List ℕ)
  room : ℕ

record OpenFile : Type 0 where
  name : FileName
  whole : List ℕ
  unread : List ℕ

abbrev stored : Disk → FileName → Option (List ℕ)
stored d file_a = d.a
stored d file_b = d.b

abbrev put : FileName → Option (List ℕ) → Disk → Disk
put file_a xs d = record d { a = xs }
put file_b xs d = record d { b = xs }

abbrev disk_ops : FileSystem Disk OpenFile
disk_ops = record {
  mount = λ d. (true, d);
  open_read = λ name d.
      (Option.map (λ xs. record { name = name; whole = xs; unread = xs }) (stored d name), d);
  open_write = λ name d. (
    some (record { name = name; whole = []; unread = [] }),
    put name (some (bytes_of (stored d name))) d,
  );
  read = λ n d h. (take n h.unread, record h { unread = drop n h.unread });
  seek = λ k h. record h { unread = drop k h.whole };
  write = λ xs h d. (
    min d.room (length xs),
    h,
    put h.name (some (bytes_of (stored d h.name) ++ take (min d.room (length xs)) xs))
        (record d { room = d.room - min d.room (length xs) }),
  );
  close = λ h d. d;
  remove = λ name d. (true, put name none d);
}

stored-put : (name : FileName) (xs : Option (List ℕ)) (d : Disk) → stored (put name xs d) name ≡ xs
stored-put file_a xs d = refl
stored-put file_b xs d = refl

stored-put-other :
    (name : FileName) (xs : Option (List ℕ)) (d : Disk)
    → stored (put name xs d) (other name) ≡ stored d (other name)
stored-put-other file_a xs d = refl
stored-put-other file_b xs d = refl

stored-room :
    (name : FileName) (d : Disk) (n : ℕ) → stored (record d { room = n }) name ≡ stored d name
stored-room file_a d n = refl
stored-room file_b d n = refl

disk-IsFileSystem : IsFileSystem disk_ops stored (λ h. h.unread) (λ h. h.name)
disk-IsFileSystem = record {
  mount_kept = λ d. refl;
  open_kept = λ name d. refl;
  open_missing = λ name d e. ap (Option.map _) e;
  open_found = λ name d xs e.
      (record { name = name; whole = xs; unread = xs }, ap (Option.map _) e, refl, λ k. refl);
  read_lem = λ n d h. (refl, refl);
  close_kept = λ h d. refl;
  open_write_lem =
      λ name d h e. (ground (arith, e), stored-put name (some (bytes_of (stored d name))) d);
  open_write_apart = λ name d. stored-put-other name (some (bytes_of (stored d name))) d;
  open_write_failed = λ name d e. ground (arith, e);
  write_lem = λ xs h d old e. (
    refl,
    stored-put h.name _ _ ∙ ap (λ o. some (bytes_of o ++ take (min d.room (length xs)) xs)) e,
    omega arith,
  );
  remove_lem = λ name d. stored-put name none d;
  remove_apart = λ name d. stored-put-other name none d;
  write_apart = λ xs h d.
      stored-put-other h.name _ _ ∙ stored-room (other h.name) d (d.room - min d.room (length xs));
}

abbrev blank_disk : Disk
blank_disk = record { a = none; b = none; room = 100 }

abbrev opened : OpenFile
opened = record { name = file_a; whole = 7 ∷ 8 ∷ 9 ∷ []; unread = 7 ∷ 8 ∷ 9 ∷ [] }

read_crc_lem_example :
    (read_crc disk_ops 5 2 1 blank_disk opened).0
    ≡ (if leb 2 (length opened.unread) then some (crc32 (take 2 opened.unread) 1) else none)
read_crc_lem_example =
    read_crc_lem disk_ops stored (λ h. h.unread) (λ h. h.name) disk-IsFileSystem 5 2 1 blank_disk
      opened (omega arith)

abbrev staged_three : InternalFsStorage Disk
staged_three = record {
  fs = blank_disk;
  staging = 7 ∷ 8 ∷ 9 ∷ [];
  size = 3;
  active_generation = 0;
  initialized = true;
}

three_committed : (commit disk_ops staged_three).0 ≡ true
unfolding commit record_header
three_committed = refl

blank-IsCurrent : IsCurrent 3 (stored blank_disk) 0 (0 ∷ 0 ∷ 0 ∷ [])
unfolding newest
blank-IsCurrent = record { is_newest = refl; place = inr (refl, refl, refl) }

abbrev restarted : InternalFsStorage Disk
restarted = new_storage (commit disk_ops staged_three).1.fs (1 ∷ 2 ∷ 3 ∷ []) 3

three-IsUsable : IsUsable staged_three
three-IsUsable = record { started = refl; sized = refl }

commit-begin_example :
    let (ok, s') = commit disk_ops staged_three in
    ((begin disk_ops restarted).0 ≡ true)
    × ((begin disk_ops restarted).1.staging ≡ (if ok then 7 ∷ 8 ∷ 9 ∷ [] else 0 ∷ 0 ∷ 0 ∷ []))
    × ((begin disk_ops restarted).1.active_generation ≡ s'.active_generation)
    × IsCurrent 3
        (stored s'.fs)
        s'.active_generation
        (if ok then 7 ∷ 8 ∷ 9 ∷ [] else 0 ∷ 0 ∷ 0 ∷ [])
unfolding new_storage
commit-begin_example =
    commit-begin disk_ops stored (λ h. h.unread) (λ h. h.name) disk-IsFileSystem staged_three
      three-IsUsable (omega arith) (omega arith) (omega arith) (0 ∷ 0 ∷ 0 ∷ []) restarted
      blank-IsCurrent (inl refl) refl refl refl refl

-- The storage after two commits, which each made a file.
abbrev twice : InternalFsStorage Disk
twice = (commit disk_ops (record (commit disk_ops staged_three).1 { staging = 4 ∷ 5 ∷ 6 ∷ [] })).1

abbrev edited_again : InternalFsStorage Disk
edited_again = record twice { staging = 1 ∷ 1 ∷ 1 ∷ [] }

twice-IsUsable : IsUsable edited_again
unfolding commit record_header
twice-IsUsable = record { started = refl; sized = refl }

twice-IsCurrent :
    IsCurrent 3 (stored edited_again.fs) edited_again.active_generation (4 ∷ 5 ∷ 6 ∷ [])
unfolding commit record_header newest valid_generation
twice-IsCurrent = record { is_newest = refl; place = inl (refl, refl) }

abbrev restarted_again : InternalFsStorage Disk
restarted_again = new_storage (commit disk_ops edited_again).1.fs (1 ∷ 2 ∷ 3 ∷ []) 3

commit-refused_example :
    ((commit disk_ops edited_again).0 ≡ false)
    × ((begin disk_ops restarted_again).0 ≡ true)
    × ((begin disk_ops restarted_again).1.staging ≡ 4 ∷ 5 ∷ 6 ∷ [])
unfolding commit record_header new_storage valid_generation
commit-refused_example =
    commit-refused disk_ops stored (λ h. h.unread) (λ h. h.name) disk-IsFileSystem edited_again
      twice-IsUsable (ground arith) (omega arith) (omega arith) (4 ∷ 5 ∷ 6 ∷ []) 1 restarted_again
      twice-IsCurrent refl refl refl refl refl

begin_lem_example :
    ((begin disk_ops restarted).0 ≡ true)
    × ((begin disk_ops restarted).1.initialized ≡ true)
    × ((begin disk_ops restarted).1.staging ≡ (newest 3 (stored restarted.fs)).0)
    × ((begin disk_ops restarted).1.active_generation ≡ (newest 3 (stored restarted.fs)).1)
    × (stored (begin disk_ops restarted).1.fs ≡ stored restarted.fs)
unfolding new_storage
begin_lem_example =
    begin_lem disk_ops stored (λ h. h.unread) (λ h. h.name) disk-IsFileSystem restarted refl refl

abbrev erased : InternalFsStorage Disk
erased = new_storage (erase disk_ops (commit disk_ops staged_three).1).1.fs (1 ∷ 2 ∷ 3 ∷ []) 3

erase-begin_example :
    ((begin disk_ops erased).0 ≡ true)
    × ((begin disk_ops erased).1.staging ≡ 0 ∷ 0 ∷ 0 ∷ [])
    × ((begin disk_ops erased).1.active_generation ≡ 0)
unfolding new_storage
erase-begin_example =
    erase-begin disk_ops stored (λ h. h.unread) (λ h. h.name) disk-IsFileSystem
      (commit disk_ops staged_three).1 erased refl refl refl
