-- ===== src/Protocol/Keymap/Bytes.antt =====
-- The big-endian byte view of the key map, under single writes and whole chunks.
use via_arduino.Base.{ℕ, zero, suc, ◌+◌, ◌-◌, ◌*◌, ◌/◌, ◌%◌, ◌^◌, ◌<◌, ◌≡◌, refl, arith, ap}
use via_arduino.Base.{
  List, [], ◌∷◌, length, get_or, set, get_or-set_self, get_or-set_ne, length-set,
}
use native.Mathlib.Nat.{add-zero}
use via_arduino.Base.{
  get_or-cons, Bool-cases, inl, inr, ltb, leb, ◌==◌, if◌then◌else◌, Bool, true, ◌&&◌, ◌∙◌,
}
use via_arduino.Base.Bits.{bit_and-one, bit_and_low_byte, bit_and_high_byte, bit_or_disjoint}
use via_arduino.Base.Bits.{bit_or_fields}
use via_arduino.Protocol.Valid.{Below, Below-set, get_or-lt}
use via_arduino.Protocol.Keymap.{keymap_byte, put_keymap_byte, read_dynamic_keymap}
use via_arduino.Protocol.Keymap.{write_dynamic_keymap}

-- The word with its high or its low byte replaced.
new_word : ℕ → ℕ → ℕ → ℕ
new_word index code value =
    if index % 2 == 0 then value * 256 + code % 256 else code / 256 * 256 + value

put_keymap_byte-eq-set :
    (keymap : List ℕ) (index value : ℕ)
    → Below (2 ^ 16) keymap
    → value < 256
    → put_keymap_byte keymap index value
      ≡ set keymap (index / 2) (new_word index (get_or keymap (index / 2) 0) value)
unfolding put_keymap_byte new_word
put_keymap_byte-eq-set keymap index value h v =
    let code = get_or keymap (index / 2) 0 in
    let range : code < 2 ^ 16 = get_or-lt (2 ^ 16) keymap (index / 2) (omega arith) h in
    ground (
      arith,
      bit_and-one index,
      bit_and_low_byte code,
      bit_and_high_byte code range,
      bit_or_disjoint 8 value (code % 256),
      bit_or_fields 8 (code / 256) value,
    )

new_word-lt :
    (index code value : ℕ) → code < 2 ^ 16 → value < 256 → new_word index code value < 2 ^ 16
unfolding new_word
new_word-lt index code value h v = ground arith

pub Below-put_keymap_byte :
    (keymap : List ℕ) (index value : ℕ)
    → Below (2 ^ 16) keymap
    → value < 256
    → Below (2 ^ 16) (put_keymap_byte keymap index value)
Below-put_keymap_byte keymap index value h v = rw (put_keymap_byte-eq-set keymap index value h v) (
    Below-set (2 ^ 16) keymap (index / 2) _ h
      (new_word-lt index _ value (get_or-lt (2 ^ 16) keymap (index / 2) (omega arith) h) v))

pub length-put_keymap_byte :
    (keymap : List ℕ) (index value : ℕ)
    → length (put_keymap_byte keymap index value) ≡ length keymap
unfolding put_keymap_byte
length-put_keymap_byte keymap index value = length-set keymap (index / 2) _

keymap_byte-eq :
    (keymap : List ℕ) (j : ℕ)
    → keymap_byte keymap j
      ≡ (if j % 2 == 0 then get_or keymap (j / 2) 0 / 256 % 256 else get_or keymap (j / 2) 0 % 256)
unfolding keymap_byte
keymap_byte-eq keymap j = ground (arith, bit_and-one j)

-- A byte written is that byte, and every other byte stays.
pub keymap_byte-put_keymap_byte :
    (keymap : List ℕ) (i j value : ℕ)
    → Below (2 ^ 16) keymap
    → value < 256
    → i < length keymap * 2
    → keymap_byte (put_keymap_byte keymap i value) j
      ≡ (if i == j then value else keymap_byte keymap j)
unfolding new_word
keymap_byte-put_keymap_byte keymap i j value h v le =
    let code = get_or keymap (i / 2) 0 in
    let range : code < 2 ^ 16 = get_or-lt (2 ^ 16) keymap (i / 2) (omega arith) h in
    let word = new_word i code value in
    rw (put_keymap_byte-eq-set keymap i value h v) (
      ground (
        arith,
        keymap_byte-eq (set keymap (i / 2) word) j,
        keymap_byte-eq keymap j,
        get_or-set_self keymap (i / 2) word 0,
        get_or-set_ne keymap (i / 2) (j / 2) word 0,
      ))

-- What a chunk of bytes at `off`, cut at `bytes`, makes of the byte at `j`.
abbrev pub overlay : ℕ → ℕ → List ℕ → ℕ → ℕ → ℕ
overlay bytes off xs j old =
    if leb off j && (ltb j (off + length xs) && ltb j bytes) then get_or xs (j - off) 0 else old

-- Writing a chunk keeps the size and the range of the key map.
pub write_dynamic_keymap_sound :
    (bytes off : ℕ) (xs keymap : List ℕ) (wrote : Bool)
    → Below (2 ^ 16) keymap
    → Below 256 xs
    → let (keymap', _) = write_dynamic_keymap bytes off xs (keymap, wrote) in
      (length keymap' ≡ length keymap) × Below (2 ^ 16) keymap'
unfolding write_dynamic_keymap
write_dynamic_keymap_sound bytes off [] keymap wrote h b = (refl, h)
write_dynamic_keymap_sound bytes off (x ∷ xs) keymap wrote h b = elim (Bool-cases (leb bytes off)) [
  | inl past ↦
      rw (past, write_dynamic_keymap)
        (write_dynamic_keymap_sound bytes (off + 1) xs keymap wrote h b.1)
  | inr inside ↦
      let rest =
        write_dynamic_keymap_sound bytes (off + 1) xs (put_keymap_byte keymap off x) true
          (Below-put_keymap_byte keymap off x h b.0) b.1 in
      rw (inside, write_dynamic_keymap) (rest.0 ∙ length-put_keymap_byte keymap off x, rest.1)
]

-- After a chunk is written, each byte of the map is the chunk's where the chunk lies and inside the
-- map, and the old one elsewhere.
pub keymap_byte-write_dynamic_keymap :
    (bytes off : ℕ) (xs keymap : List ℕ) (wrote : Bool) (j : ℕ)
    → Below (2 ^ 16) keymap
    → Below 256 xs
    → length keymap * 2 ≡ bytes
    → keymap_byte (write_dynamic_keymap bytes off xs (keymap, wrote)).0 j
      ≡ overlay bytes off xs j (keymap_byte keymap j)
unfolding write_dynamic_keymap
keymap_byte-write_dynamic_keymap bytes off [] keymap wrote j h b e = ground arith
keymap_byte-write_dynamic_keymap bytes off (x ∷ xs) keymap wrote j h b e =
    elim (Bool-cases (leb bytes off)) [
      | inl past ↦
          rw (past, write_dynamic_keymap)
            (ground
              (arith, keymap_byte-write_dynamic_keymap bytes (off + 1) xs keymap wrote j h b.1 e))
      | inr inside ↦
          let keymap' = put_keymap_byte keymap off x in
          let size : length keymap' * 2 ≡ bytes =
            omega (arith, e, length-put_keymap_byte keymap off x) in
          rw (inside, write_dynamic_keymap)
            (ground (
              arith,
              keymap_byte-write_dynamic_keymap bytes (off + 1) xs keymap' true j
                  (Below-put_keymap_byte keymap off x h b.0) b.1 size,
              keymap_byte-put_keymap_byte keymap off j x h b.0 (ground arith),
              get_or-cons x xs (j - off),
              ap (λ (t : ℕ). get_or xs t 0) (shift j off),
            ))
    ]
  where
    shift : (m n : ℕ) → m - n - 1 ≡ m - (n + 1)
    shift m n = omega arith

-- Reading is byte by byte, zero past the end of the map.
pub get_or-read_dynamic_keymap :
    (bytes : ℕ) (keymap : List ℕ) (off n k : ℕ)
    → k < n
    → get_or (read_dynamic_keymap bytes keymap off n) k 0
      ≡ (if leb bytes (off + k) then 0 else keymap_byte keymap (off + k))
unfolding read_dynamic_keymap
get_or-read_dynamic_keymap bytes keymap off zero k h = absurd (omega arith)
get_or-read_dynamic_keymap bytes keymap off (suc n) zero h = rw add-zero refl
get_or-read_dynamic_keymap bytes keymap off (suc n) (suc k) h =
    get_or-read_dynamic_keymap bytes keymap (off + 1) n k (omega arith)
    ∙ ap (λ (t : ℕ). if leb bytes t then 0 else keymap_byte keymap t) (step off k)
  where
    step : (a c : ℕ) → a + 1 + c ≡ a + suc c
    step a c = omega arith

pub length-read_dynamic_keymap :
    (bytes : ℕ) (keymap : List ℕ) (off n : ℕ) → length (read_dynamic_keymap bytes keymap off n) ≡ n
unfolding read_dynamic_keymap
length-read_dynamic_keymap bytes keymap off zero = refl
length-read_dynamic_keymap bytes keymap off (suc n) =
    ap suc (length-read_dynamic_keymap bytes keymap (off + 1) n)

keymap_byte-lt : (keymap : List ℕ) (j : ℕ) → keymap_byte keymap j < 256
unfolding keymap_byte
keymap_byte-lt keymap j = ground arith

pub Below-read_dynamic_keymap :
    (bytes : ℕ) (keymap : List ℕ) (off n : ℕ) → Below 256 (read_dynamic_keymap bytes keymap off n)
unfolding read_dynamic_keymap
Below-read_dynamic_keymap bytes keymap off zero = tt
Below-read_dynamic_keymap bytes keymap off (suc n) =
    (ground (arith, keymap_byte-lt keymap off), Below-read_dynamic_keymap bytes keymap (off + 1) n)
