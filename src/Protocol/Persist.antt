-- ===== src/Protocol/Persist.antt =====
-- The stored record: StateHeader, stateCrc, load, save, writeState and factoryReset of
-- src/VIA_Protocol.cpp.
pub mod Bytes
pub mod Record
pub mod Publish
pub mod Saved
pub mod Loaded
pub mod Roundtrip
pub mod Frame
pub mod Validity
pub mod Good
use via_arduino.Base.{ℕ, ◌+◌, ◌-◌, Bool, true, false, not, ◌&&◌, Option, none, some}
use via_arduino.Base.{List, [], ◌∷◌, ◌++◌, get_or, splice, slice, take}
use via_arduino.Base.{ltb, ◌==◌, if◌then◌else◌, u16, not32, le16, le32, le16_bytes, le32_bytes}
use via_arduino.Crc.{crc32_loop}
use via_arduino.Protocol.Config.{keymap_bytes, encoder_map_bytes, state_bytes}
use via_arduino.Protocol.Config.{load_buffer_valid, header_size}
use via_arduino.Protocol.Board.{Board, State, layout_options_changed}
use via_arduino.Protocol.Board.{notify, custom_size}

abbrev pub state_magic : ℕ
state_magic = 0x56494141

abbrev pub state_version : ℕ
state_version = 2

-- The memory of an array of uint16_t.
unfoldable pub words_bytes : List ℕ → List ℕ
words_bytes [] = []
words_bytes (w ∷ ws) = le16_bytes w ++ words_bytes ws

unfoldable pub bytes_words : List ℕ → List ℕ
bytes_words [] = []
bytes_words (x ∷ []) = []
bytes_words (x ∷ y ∷ bs) = le16 x y ∷ bytes_words bs

abbrev pub le16_at : List ℕ → ℕ → ℕ
le16_at xs i = le16 (get_or xs i 0) (get_or xs (i + 1) 0)

abbrev pub le32_at : List ℕ → ℕ → ℕ
le32_at xs i =
    le32 (get_or xs i 0) (get_or xs (i + 1) 0) (get_or xs (i + 2) 0) (get_or xs (i + 3) 0)

-- The memory of a StateHeader.
unfoldable pub header_bytes : ℕ → ℕ → List ℕ
header_bytes payload_size crc =
    le32_bytes state_magic
    ++ le16_bytes state_version
    ++ le16_bytes (u16 payload_size)
    ++ le32_bytes crc

-- header.magic == kStateMagic && header.version == kStateVersion && header.payloadSize == bytes
unfoldable pub header_matches : List ℕ → ℕ → Bool
header_matches header bytes =
    le32_at header 0 == state_magic
    && (le16_at header 4 == state_version && le16_at header 6 == bytes)

unfoldable pub payload_crc : List ℕ → ℕ
payload_crc bytes = not32 (crc32_loop 0xFFFFFFFF bytes)

-- Storage calls chained by && and early returns: the first failure ends the chain.
abbrev pub Action : Type 0 → Type 0
Action S = S → Bool × S

infixl 5 ◌>>◌
abbrev pub ◌>>◌ : {S : Type 0} → Action S → Action S → Action S
◌>>◌ first second s = let (done, s') = first s in if done then second s' else (false, s')

-- `n && !action` fails: with n = 0 nothing is done.
abbrev pub unless : {S : Type 0} → Bool → Action S → Action S
unless skipped action s = if skipped then (true, s) else action s

module _ {S C : Type 0} (b : Board S C) where
  -- What goes to storage of the key map, the encoder map and the macros.
  abbrev pub keymap_image : State S C → List ℕ
  keymap_image s = take (keymap_bytes b.config) (words_bytes s.keymap)

  abbrev pub encoder_image : State S C → List ℕ
  encoder_image s = take (encoder_map_bytes b.config) (words_bytes s.encoder_map)

  abbrev pub macro_image : State S C → List ℕ
  macro_image s = take b.config.macro_bytes s.macros

  -- The CRC over the active arrays, one loop for each.
  unfoldable pub state_crc : State S C → List ℕ → ℕ
  state_crc s custom_state =
      let keymap_crc = crc32_loop 0xFFFFFFFF (keymap_image s) in
      let encoder_crc = crc32_loop keymap_crc (encoder_image s) in
      let macro_crc = crc32_loop encoder_crc (macro_image s) in
      let options_crc = crc32_loop macro_crc (le32_bytes s.layout_options) in
      not32 (crc32_loop options_crc custom_state)

  -- The storage calls of writeState: the header with no CRC, the five parts, the whole header.
  unfoldable pub write_record : State S C → ℕ → List ℕ → Action S
  write_record s bytes custom_state =
      let c = b.config in
      let ops = b.storage_ops in
      let encoder_at = header_size + keymap_bytes c in
      let macro_at = encoder_at + encoder_map_bytes c in
      let options_at = macro_at + c.macro_bytes in
      ops.write 0 (header_bytes bytes 0)
      >> ops.write header_size (keymap_image s)
      >> unless (encoder_map_bytes c == 0) (ops.write encoder_at (encoder_image s))
      >> unless (c.macro_bytes == 0) (ops.write macro_at (macro_image s))
      >> ops.write options_at (le32_bytes s.layout_options)
      >> unless (custom_size b s == 0) (ops.write (options_at + 4) custom_state)
      >> ops.write 0 (header_bytes bytes (state_crc s custom_state))
      >> ops.commit

  -- The custom state to store: nothing where saveState fails, no bytes where there is none.
  unfoldable pub custom_image : State S C → Option (List ℕ)
  custom_image s = elim s.custom [
    | none ↦ some []
    | some c ↦
        if b.custom_ops.state_size c == 0
        then some []
        else b.custom_ops.save_state c (b.custom_ops.state_size c)
  ]

  unfoldable pub write_to : State S C → ℕ → List ℕ → S → Bool × State S C
  unfolding write_record
  write_to s bytes custom_state store =
      let (done, store') = write_record s bytes custom_state store in
      if done
      then (true, record s { storage = some store'; dirty = false })
      else (false, record s { storage = some store' })

  unfoldable pub write_state : State S C → S → Bool × State S C
  unfolding write_to custom_image
  write_state s store = elim (state_bytes b.config (custom_size b s)) [
    | none ↦ (false, s)
    | some bytes ↦
        if ltb (b.storage_ops.capacity store) (header_size + bytes)
        then (false, s)
        else (elim (custom_image s) [
          | none ↦ (false, s)
          | some custom_state ↦ write_to s bytes custom_state store
        ])
  ]

  unfoldable pub save : State S C → Bool × State S C
  unfolding write_state
  save s = elim s.storage [ none ↦ (false, s) | some store ↦ write_state s store ]

  -- The copies from the load buffer to the active arrays that end load and factoryReset.
  unfoldable pub publish : State S C → State S C
  publish s =
      let c = b.config in
      let macro_at = keymap_bytes c + encoder_map_bytes c in
      record s {
        keymap = splice s.keymap 0 (bytes_words (slice s.load_buffer 0 (keymap_bytes c)));
        encoder_map =
            if encoder_map_bytes c == 0
            then s.encoder_map
            else splice s.encoder_map 0
                (bytes_words (slice s.load_buffer (keymap_bytes c) (encoder_map_bytes c)));
        macros =
            if c.macro_bytes == 0
            then s.macros
            else splice s.macros 0 (slice s.load_buffer macro_at c.macro_bytes);
        layout_options = le32_at s.load_buffer (macro_at + c.macro_bytes);
        dirty = false;
      }

  -- validateState and then loadState of the staged custom bytes, and whether both accept.
  unfoldable pub load_custom : State S C → ℕ → Bool × State S C
  load_custom s bytes = elim s.custom [
    | none ↦ (true, s)
    | some c ↦
        let size = b.custom_ops.state_size c in
        let staged = slice s.load_buffer (bytes - size) size in
        if size == 0
        then (true, s)
        else if not (b.custom_ops.validate_state c staged size)
        then (false, s)
        else let (loaded, c') = b.custom_ops.load_state c staged size in
          (loaded, record s { custom = some c' })
  ]

  -- load() once the payload is in the load buffer.
  unfoldable pub accept_payload : State S C → ℕ → ℕ → Bool × State S C
  unfolding load_custom publish
  accept_payload s bytes expected_crc =
      if not (payload_crc (take bytes s.load_buffer) == expected_crc)
      then (false, s)
      else let (accepted, s') = load_custom s bytes in
        let s'' = publish s' in
        if accepted
        then (true, notify b (layout_options_changed s''.layout_options) s'')
        else (false, s')

  load_from : State S C → ℕ → S → Bool × State S C
  unfolding accept_payload
  load_from s bytes store = elim (b.storage_ops.read store 0 header_size) [
    | none ↦ (false, s)
    | some header ↦
        if not (header_matches header bytes)
        then (false, s)
        else (elim (b.storage_ops.read store header_size bytes) [
          | none ↦ (false, s)
          | some payload ↦
              accept_payload (record s { load_buffer = splice s.load_buffer 0 payload }) bytes
                (le32_at header 8)
        ])
  ]

  unfoldable pub load : State S C → Bool × State S C
  unfolding load_from
  load s = elim s.storage [
    | none ↦ (false, s)
    | some store ↦ elim (state_bytes b.config (custom_size b s)) [
      | none ↦ (false, s)
      | some bytes ↦
          if not (load_buffer_valid b.config bytes)
          then (false, s)
          else if ltb (b.storage_ops.capacity store) (header_size + bytes)
          then (false, s)
          else load_from s bytes store
    ]
  ]
