-- ===== src/InternalFs/Written.antt =====
-- What the writes of InternalFSStorage::commit leave in a file, and that the check of it agrees.
use mathlib.Core.Path.{subst}
use via_arduino.Base.{
  ℕ, zero, suc, ◌<◌, ◌/◌, ◌^◌, ◌≡◌, refl, arith, ap, ◌∙◌, sym, true, false, Option, none, some,
  List, [], ◌∷◌, ◌++◌, length, take, drop, leb, ◌==◌, if◌then◌else◌, Bool-cases, inl, inr, ◌⊎◌,
  bit_xor-lt, length-take, take-append, drop-append, take-all,
}
use via_arduino.Protocol.Valid.{Below}
use via_arduino.Protocol.Persist.{le32_at}
use via_arduino.InternalFs.{FileSystem, FileName, magic, record_header_size, crc_rounds, crc32}
use via_arduino.InternalFs.{record_header, read_crc, verify_record, verify_file, write_file}
use via_arduino.InternalFs.Files.{IsFileSystem, other, valid_generation, read_crc_lem}

crc_rounds-lt : (n crc : ℕ) → crc < 2 ^ 32 → crc_rounds n crc < 2 ^ 32
unfolding crc_rounds
crc_rounds-lt zero crc h = h
crc_rounds-lt (suc n) crc h =
    crc_rounds-lt n _ (ground (arith, h, bit_xor-lt 32 (crc / 2) 0xEDB88320))

pub crc32-lt : (xs : List ℕ) (crc : ℕ) → Below 256 xs → crc < 2 ^ 32 → crc32 xs crc < 2 ^ 32
unfolding crc32
crc32-lt [] crc b h = h
crc32-lt (x ∷ xs) crc b h =
    crc32-lt xs _ b.1 (crc_rounds-lt 8 _ (bit_xor-lt 32 crc x h (omega (arith, b.0))))

pub length-record_header : (g size crc : ℕ) → length (record_header g size crc) ≡ 16
unfolding record_header
length-record_header g size crc = refl

-- A file that ends in its header holds no valid record,
valid_generation-short :
    (size : ℕ) (xs : List ℕ) → length xs < 16 → valid_generation size (some xs) ≡ none
unfolding valid_generation
valid_generation-short size xs h = ground (arith, length-take 16 xs)

-- nor does one that ends in its payload.
valid_generation-part :
    (size : ℕ) (front part : List ℕ)
    → length front ≡ 16
    → length part < size
    → valid_generation size (some (front ++ part)) ≡ none
unfolding valid_generation
valid_generation-part size front part e h =
    rw (drop-append 16 front part (sym e)) (ground (arith, h))

-- The bytes of a record.
abbrev pub record_bytes : ℕ → List ℕ → List ℕ
record_bytes g payload = record_header g (length payload) (crc32 payload 0xFFFFFFFF) ++ payload

module _ (g : ℕ) (payload : List ℕ) (bytes : Below 256 payload) (g_fits : g < 2 ^ 32)
    (fits : length payload < 2 ^ 32) where
  header : List ℕ
  header = record_header g (length payload) (crc32 payload 0xFFFFFFFF)

  header_fields :
      (length header ≡ 16)
      × (le32_at header 0 ≡ magic)
      × (le32_at header 4 ≡ g)
      × (le32_at header 8 ≡ length payload)
      × (le32_at header 12 ≡ crc32 payload 0xFFFFFFFF)
  unfolding record_header header
  header_fields =
      let small = crc32-lt payload 0xFFFFFFFF bytes (omega arith) in
      (refl, refl, omega arith, omega arith, omega arith)

  header_front : take record_header_size (record_bytes g payload) ≡ header
  unfolding header
  header_front = take-append 16 _ payload (sym (length-record_header g _ _))

  pub payload_behind : drop record_header_size (record_bytes g payload) ≡ payload
  payload_behind = drop-append 16 _ payload (sym (length-record_header g _ _))

  -- A whole record is valid.
  pub valid_generation-record_bytes :
      valid_generation (length payload) (some (record_bytes g payload)) ≡ some g
  unfolding valid_generation
  valid_generation-record_bytes =
      rw (header_front, payload_behind, take-all (length payload) payload refl)
        (ground (arith, header_fields))

  module _ {F H : Type 0} (ops : FileSystem F H) (contents : F → FileName → Option (List ℕ))
      (rest : H → List ℕ) (target : H → FileName)
      (law : IsFileSystem ops contents rest target) where
    verify_record_lem :
        (f : F) (h : H)
        → rest h ≡ record_bytes g payload
        → (verify_record ops g (length payload) (crc32 payload 0xFFFFFFFF) f h).0 ≡ true
    unfolding verify_record
    verify_record_lem f h holds =
        let (got, left) = law.read_lem record_header_size f h in
        let front : (ops.read record_header_size f h).0 ≡ header =
          got ∙ ap (take record_header_size) holds ∙ header_front in
        let behind : rest (ops.read record_header_size f h).1 ≡ payload =
          left ∙ ap (drop record_header_size) holds ∙ payload_behind in
        let size = le32_at header 8 in
        let crc =
          read_crc_lem ops contents rest target law (length payload) (length payload) 0xFFFFFFFF f
            (ops.read record_header_size f h).1 (omega arith) in
        let whole = take-all (length payload) payload refl in
        let found : (read_crc ops (length payload) (length payload) 0xFFFFFFFF f
              (ops.read record_header_size f h).1).0
            ≡ some (crc32 payload 0xFFFFFFFF) =
          crc
          ∙ ap
              (λ t.
                if leb (length payload) (length t)
                then some (crc32 (take (length payload) t) 0xFFFFFFFF)
                else none)
              behind
          ∙ ground (arith, whole) in
        let fields = header_fields in
        rw (front, verify_record, fields.0, fields.1, fields.2, fields.3, fields.4, found)
          (ground arith)

    -- The check of a file that holds the record agrees, and changes no file.
    pub verify_file_lem :
        (name : FileName) (f : F)
        → contents f name ≡ some (record_bytes g payload)
        → ((verify_file ops name g (length payload) (crc32 payload 0xFFFFFFFF) f).0 ≡ true)
          × (contents (verify_file ops name g (length payload) (crc32 payload 0xFFFFFFFF) f).1
              ≡ contents f)
    unfolding verify_file
    verify_file_lem name f holds =
        let (h, opened, view, _) = law.open_found name f _ holds in
        rw (opened, verify_file)
          (verify_record_lem _ h view, law.close_kept _ _ ∙ law.open_kept name f)

    -- Into an empty file the whole record is written, or a part that is no valid record; the other
    -- file stays.
    pub write_file_lem :
        (name : FileName) (h : H) (f : F)
        → target h ≡ name
        → contents f name ≡ some []
        → let (done, f') =
            write_file ops
              (record_header g (length payload) (crc32 payload 0xFFFFFFFF))
              payload
              (length payload)
              h
              f in
          (contents f' (other name) ≡ contents f (other name))
          × (((done ≡ true) × (contents f' name ≡ some (record_bytes g payload)))
              ⊎ ((done ≡ false) × (valid_generation (length payload) (contents f' name) ≡ none)))
    unfolding write_file
    write_file_lem name h f aimed empty =
        let front = record_header g (length payload) (crc32 payload 0xFFFFFFFF) in
        let (headed, h', f') = ops.write front h f in
        let (written, h'', f'') = ops.write payload h' f' in
        let (aimed', front_in, front_le) =
          law.write_lem front h f [] (ap (contents f) aimed ∙ empty) in
        let front_name : contents f' name ≡ some (take headed front) =
          ap (contents f') (sym aimed) ∙ front_in in
        let apart : contents f' (other name) ≡ contents f (other name) =
          subst (λ t. contents f' (other t) ≡ contents f (other t)) aimed
            (law.write_apart front h f) in
        let sixteen = length-record_header g (length payload) (crc32 payload 0xFFFFFFFF) in
        elim (Bool-cases (headed == record_header_size)) [
          | inr short ↦
              let cut : length (take headed front) < 16 =
                ground (arith, short, front_le, sixteen, length-take headed front) in
              rw (write_file, short, law.close_kept h' f')
                (
                  apart,
                  inr (
                    refl,
                    ap (valid_generation (length payload)) front_name
                        ∙ valid_generation-short (length payload) (take headed front) cut,
                  ),
                )
          | inl full ↦
              let whole : take headed front ≡ front =
                take-all headed front (ground (arith, full, sixteen)) in
              let aimed'' : target h' ≡ name = aimed' ∙ aimed in
              let (_, back_in, back_le) =
                law.write_lem payload h' f' front
                  (ap (contents f') aimed'' ∙ front_name ∙ ap some whole) in
              let back_name : contents f'' name ≡ some (front ++ take written payload) =
                ap (contents f'') (sym aimed'') ∙ back_in in
              let apart' : contents f'' (other name) ≡ contents f (other name) =
                subst (λ t. contents f'' (other t) ≡ contents f' (other t)) aimed''
                  (law.write_apart payload h' f')
                ∙ apart in
              elim (Bool-cases (written == length payload)) [
                | inr short ↦
                    let cut : length (take written payload) < length payload =
                      ground (arith, short, back_le, length-take written payload) in
                    rw (write_file, full, short, law.close_kept h'' f'')
                      (
                        apart',
                        inr (
                          refl,
                          ap (valid_generation (length payload)) back_name
                              ∙ valid_generation-part (length payload) front (take written payload)
                                  sixteen cut,
                        ),
                      )
                | inl done ↦
                    rw (write_file, full, done, law.close_kept h'' f'')
                      (
                        apart',
                        inl (
                          refl,
                          back_name
                              ∙ ap (λ t. some (front ++ t))
                                  (take-all written payload (ground (arith, done))),
                        ),
                      )
              ]
        ]
