-- ===== src/InternalFs.antt =====
-- src/VIA_nRF52_InternalFS.h and src/VIA_nRF52_InternalFS.cpp: storage in a RAM copy that commit
-- writes to one of two files in turn.
pub mod Laws
pub mod Files
pub mod Start
pub mod Written
pub mod Current
pub mod Durable
pub mod Erased
pub mod Appended
pub mod Ended
use via_arduino.Base.{
  ℕ, zero, suc, ◌+◌, ◌-◌, ◌%◌, ◌^◌, Bool, true, false, not, ◌&&◌, ◌||◌, Option, none, some, List,
  [], ◌∷◌, ◌++◌,
}
use via_arduino.Base.{
  length, ltb, ◌==◌, if◌then◌else◌, u32, sub32, bit_and, bit_xor, ◌>>>◌, slice, splice, replicate,
  le32_bytes, min, take,
}
use via_arduino.Protocol.Board.{Storage}
use via_arduino.Protocol.Persist.{le32_at}

-- kFileA, kFileB
pub data FileName : Type 0 where
  file_a file_b : FileName

-- InternalFS and its File objects: `H` is an open file. A read gives the bytes that it got, a write
-- the number of bytes that it took.
pub record FileSystem (F H : Type 0) : Type 0 where
  pub mount : F → Bool × F
  pub open_read : FileName → F → Option H × F
  pub open_write : FileName → F → Option H × F
  pub read : ℕ → F → H → List ℕ × H
  pub seek : ℕ → H → H
  pub write : List ℕ → H → F → ℕ × H × F
  pub close : H → F → F
  pub remove : FileName → F → Bool × F

abbrev pub magic : ℕ
magic = 0x56494146

-- sizeof(RecordHeader)
abbrev pub record_header_size : ℕ
record_header_size = 16

-- sizeof(chunk)
abbrev pub chunk_size : ℕ
chunk_size = 256

pub record InternalFsStorage (F : Type 0) : Type 0 where
  pub fs : F
  pub staging : List ℕ
  pub size : ℕ
  pub active_generation : ℕ
  pub initialized : Bool

unfoldable pub new_storage : {F : Type 0} → F → List ℕ → ℕ → InternalFsStorage F
new_storage fs staging size = record {
  fs = fs;
  staging = staging;
  size = size;
  active_generation = 0;
  initialized = false;
}

-- `n` rounds of the inner loop of crc32.
unfoldable pub crc_rounds : ℕ → ℕ → ℕ
crc_rounds zero crc = crc
crc_rounds (suc n) crc =
    crc_rounds n (if not (bit_and crc 1 == 0) then bit_xor (crc >>> 1) 0xEDB88320 else crc >>> 1)

unfoldable pub crc32 : List ℕ → ℕ → ℕ
unfolding crc_rounds
crc32 [] crc = crc
crc32 (x ∷ xs) crc = crc32 xs (crc_rounds 8 (bit_xor crc x))

-- static_cast<int32_t>(a - b) > 0
abbrev pub newer : ℕ → ℕ → Bool
newer a b = ltb 0 (sub32 a b) && ltb (sub32 a b) (2 ^ 31)

-- The memory of a RecordHeader.
unfoldable pub record_header : ℕ → ℕ → ℕ → List ℕ
record_header generation size crc =
    le32_bytes magic ++ (le32_bytes generation ++ (le32_bytes size ++ le32_bytes crc))

-- nextGen % 2 == 1 ? kFileA : kFileB
abbrev pub file_of : ℕ → FileName
file_of generation = if generation % 2 == 1 then file_a else file_b

-- The file that begin loads, with its generation.
unfoldable pub choose_file : Option ℕ → Option ℕ → Option (FileName × ℕ)
choose_file (some a) (some b) = some (if newer a b then (file_a, a) else (file_b, b))
choose_file (some a) none = some (file_a, a)
choose_file none (some b) = some (file_b, b)
choose_file none none = none

-- memset(staging_, 0, capacity_), and generation 0.
unfoldable pub start_empty : {F : Type 0} → InternalFsStorage F → InternalFsStorage F
start_empty s = record s {
  staging = splice s.staging 0 (replicate s.size 0);
  active_generation = 0;
  initialized = true;
}

module _ {F H : Type 0} (ops : FileSystem F H) where
  -- The loop that reads the payload in chunks and takes its CRC; `none` where a chunk is short. Each
  -- round reads at least one byte, so `remaining` rounds are enough.
  unfoldable pub read_crc : ℕ → ℕ → ℕ → F → H → Option ℕ × H
  read_crc zero remaining crc fs h = (some crc, h)
  read_crc (suc fuel) remaining crc fs h =
      let n = if ltb chunk_size remaining then chunk_size else remaining in
      let (chunk, h') = ops.read n fs h in
      let rest = read_crc fuel (remaining - n) (crc32 chunk crc) fs h' in
      if remaining == 0 then (some crc, h) else if not (length chunk == n) then (none, h') else rest

  -- The checks of begin on an open file: the generation of a valid record.
  unfoldable pub check_record : ℕ → F → H → Option ℕ × H
  unfolding crc32 read_crc
  check_record size fs h =
      let (header, h') = ops.read record_header_size fs h in
      let length_read = le32_at header 8 in
      let (crc, h'') = read_crc length_read length_read 0xFFFFFFFF fs h' in
      if not (length header == record_header_size)
      then (none, h')
      else if not (le32_at header 0 == magic && length_read == size)
      then (none, h')
      else (elim crc [
        | none ↦ (none, h'')
        | some value ↦
            if value == le32_at header 12 then (some (le32_at header 4), h'') else (none, h'')
      ])

  unfoldable pub check_file : ℕ → FileName → F → Option ℕ × F
  unfolding check_record
  check_file size name fs =
      let (opened, fs') = ops.open_read name fs in
      elim opened [
        | none ↦ (none, fs')
        | some h ↦ let (generation, h') = check_record size fs' h in (generation, ops.close h' fs')
      ]

  -- The payload of the chosen file is read into the staging memory; a short read leaves what it
  -- read until the memset.
  unfoldable pub load_file : FileName → ℕ → InternalFsStorage F → InternalFsStorage F
  unfolding start_empty
  load_file name generation s =
      let (opened, fs) = ops.open_read name s.fs in
      elim opened [
        | none ↦ start_empty (record s { fs = fs })
        | some h ↦
            let (payload, h') = ops.read s.size fs (ops.seek record_header_size h) in
            let s' = record s { fs = ops.close h' fs; staging = splice s.staging 0 payload } in
            if length payload == s.size
            then record s' { active_generation = generation; initialized = true }
            else start_empty s'
      ]

  unfoldable pub resume : Option (FileName × ℕ) → InternalFsStorage F → InternalFsStorage F
  unfolding start_empty load_file
  resume none s = start_empty s
  resume (some (name, generation)) s = load_file name generation s

  unfoldable pub begin : InternalFsStorage F → Bool × InternalFsStorage F
  unfolding check_file choose_file resume
  begin s =
      let (mounted, fs) = ops.mount s.fs in
      let (a, fs') = check_file s.size file_a fs in
      let (b, fs'') = check_file s.size file_b fs' in
      if mounted
      then (true, resume (choose_file a b) (record s { fs = fs'' }))
      else (false, record s { fs = fs })

  unfoldable pub capacity : InternalFsStorage F → ℕ
  capacity s = s.size

  -- offset > capacity_ || length > capacity_ - offset
  abbrev pub outside : InternalFsStorage F → ℕ → ℕ → Bool
  outside s offset n = ltb s.size offset || ltb (s.size - offset) n

  unfoldable pub read : InternalFsStorage F → ℕ → ℕ → Option (List ℕ)
  read s offset n =
      if not s.initialized || outside s offset n then none else some (slice s.staging offset n)

  unfoldable pub write : ℕ → List ℕ → InternalFsStorage F → Bool × InternalFsStorage F
  write offset input s =
      if not s.initialized || outside s offset (length input)
      then (false, s)
      else (true, record s { staging = splice s.staging offset input })

  -- The header and the payload go to a file opened for writing.
  unfoldable pub write_file : List ℕ → List ℕ → ℕ → H → F → Bool × F
  write_file header payload size h fs =
      let (headed, h', fs') = ops.write header h fs in
      let (written, h'', fs'') = ops.write payload h' fs' in
      if not (headed == record_header_size)
      then (false, ops.close h' fs')
      else if not (written == size)
      then (false, ops.close h'' fs'')
      else (true, ops.close h'' fs'')

  -- What was written is read again and compared.
  unfoldable pub verify_record : ℕ → ℕ → ℕ → F → H → Bool × H
  unfolding read_crc
  verify_record generation size crc fs h =
      let (header, h') = ops.read record_header_size fs h in
      let length_read = le32_at header 8 in
      let (found, h'') = read_crc length_read length_read 0xFFFFFFFF fs h' in
      if not (length header == record_header_size)
      then (false, h')
      else if not (le32_at header 0 == magic)
          || (not (le32_at header 4 == generation)
              || (not (length_read == size) || not (le32_at header 12 == crc)))
      then (false, h')
      else (elim found [ none ↦ (false, h'') | some value ↦ (value == le32_at header 12, h'') ])

  unfoldable pub verify_file : FileName → ℕ → ℕ → ℕ → F → Bool × F
  unfolding verify_record
  verify_file name generation size crc fs =
      let (opened, fs') = ops.open_read name fs in
      elim opened [
        | none ↦ (false, fs')
        | some h ↦
            let (same, h') = verify_record generation size crc fs' h in (same, ops.close h' fs')
      ]

  unfoldable pub commit : InternalFsStorage F → Bool × InternalFsStorage F
  unfolding crc32 write_file verify_file
  commit s =
      let generation = u32 (s.active_generation + 1) in
      let name = file_of generation in
      let payload = take s.size s.staging in
      let crc = crc32 payload 0xFFFFFFFF in
      let (opened, fs) = ops.open_write name s.fs in
      if not s.initialized then (false, s) else (elim opened [
        | none ↦ (false, record s { fs = fs })
        | some h ↦
            let (written, fs') =
              write_file (record_header generation s.size crc) payload s.size h fs in
            let (same, fs'') = verify_file name generation s.size crc fs' in
            if not written
            then (false, record s { fs = fs' })
            else if not same
            then (false, record s { fs = fs'' })
            else (true, record s { fs = fs''; active_generation = generation })
      ])

  unfoldable pub erase : InternalFsStorage F → Bool × InternalFsStorage F
  erase s = (
    true,
    record s {
      fs = (ops.remove file_b (ops.remove file_a s.fs).1).1;
      staging = splice s.staging 0 (replicate s.size 0);
      active_generation = 0;
      initialized = true;
    },
  )

  abbrev pub internal_fs_ops : Storage (InternalFsStorage F)
  internal_fs_ops = record {
    capacity = capacity;
    read = read;
    write = write;
    commit = commit;
    erase = erase;
  }
