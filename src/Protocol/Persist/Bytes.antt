-- ===== src/Protocol/Persist/Bytes.antt =====
-- The bytes of the record: arrays of words, the header, and the CRC of a concatenation.
use via_arduino.Base.{ℕ, ◌*◌, ◌^◌, ◌<◌, ◌≡◌, refl, arith}
use via_arduino.Base.{List, [], ◌∷◌, ◌++◌, length, true}
use via_arduino.Crc.{crc32_loop, crc32_update}
use via_arduino.Protocol.Valid.{Below}
use via_arduino.Protocol.Persist.{words_bytes, bytes_words, header_bytes, header_matches}
use via_arduino.Protocol.Persist.{payload_crc, le32_at}

pub length-words_bytes : (ws : List ℕ) → length (words_bytes ws) ≡ length ws * 2
unfolding words_bytes
length-words_bytes [] = refl
length-words_bytes (w ∷ ws) = omega (arith, length-words_bytes ws)

-- Words in memory read back as themselves.
pub bytes_words-words_bytes : (ws : List ℕ) → Below (2 ^ 16) ws → bytes_words (words_bytes ws) ≡ ws
unfolding words_bytes bytes_words
bytes_words-words_bytes [] h = refl
bytes_words-words_bytes (w ∷ ws) h = ground (arith, bytes_words-words_bytes ws h.1)

pub Below-words_bytes : (ws : List ℕ) → Below 256 (words_bytes ws)
unfolding words_bytes
Below-words_bytes [] = tt
Below-words_bytes (w ∷ ws) = (omega arith, (omega arith, Below-words_bytes ws))

pub length-header_bytes : (bytes crc : ℕ) → length (header_bytes bytes crc) ≡ 12
unfolding header_bytes
length-header_bytes bytes crc = refl

-- A header that was written names its size and CRC.
pub header_matches-header_bytes :
    (bytes crc : ℕ) → bytes < 65536 → header_matches (header_bytes bytes crc) bytes ≡ true
unfolding header_matches header_bytes
header_matches-header_bytes bytes crc h = ground arith

pub le32_at-header_bytes : (bytes crc : ℕ) → crc < 2 ^ 32 → le32_at (header_bytes bytes crc) 8 ≡ crc
unfolding header_bytes
le32_at-header_bytes bytes crc h = omega arith

-- A CRC over two pieces is the CRC of the second, started at that of the first.
pub crc32_loop-append :
    (crc : ℕ) (xs ys : List ℕ) → crc32_loop crc (xs ++ ys) ≡ crc32_loop (crc32_loop crc xs) ys
unfolding crc32_loop
crc32_loop-append crc [] ys = refl
crc32_loop-append crc (x ∷ xs) ys = crc32_loop-append (crc32_update crc x) xs ys

pub payload_crc-lt : (xs : List ℕ) → payload_crc xs < 2 ^ 32
unfolding payload_crc
payload_crc-lt xs = omega arith
