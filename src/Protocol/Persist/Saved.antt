-- ===== src/Protocol/Persist/Saved.antt =====
-- What a successful save leaves in storage, and what a load finds there.
use via_arduino.Base.{ℕ, ◌+◌, ◌≤◌, ◌≡◌, refl, arith, ◌∙◌, sym}
use via_arduino.Base.{List, [], ◌++◌, length, length-append, take-all}
use via_arduino.Base.{true, false, Bool-cases, Option-cases, inl, inr, some}
use via_arduino.Base.{le32_bytes}
use via_arduino.Protocol.Config.{Config, keymap_bytes, encoder_map_bytes, state_bytes, header_size}
use via_arduino.Protocol.Board.{Board, State, Storage, custom_size}
use via_arduino.Protocol.Contract.{IsStorage, IsPersistent}
use via_arduino.Protocol.Sizes.{IsConfig, state_bytes-eq-sum}
use via_arduino.Protocol.Valid.{IsValid}
use via_arduino.Protocol.Persist.{words_bytes, header_bytes, payload_crc}
use via_arduino.Protocol.Persist.{keymap_image, encoder_image, macro_image, state_crc}
use via_arduino.Protocol.Persist.{write_record, custom_image, write_to, write_state, save}
use via_arduino.Protocol.Persist.Bytes.{length-header_bytes, crc32_loop-append}
use via_arduino.Protocol.Persist.Record.{Holds, Writes, Writes-record}
use via_arduino.Protocol.Persist.Publish.{Image, Fits, image_bytes, length-words_keys}
use via_arduino.Protocol.Persist.Publish.{length-words_encoders}

-- The active arrays as an image.
abbrev pub active : {S C : Type 0} → State S C → Image
active s = record {
  keys = s.keymap;
  encoders = s.encoder_map;
  macro_text = s.macros;
  options = s.layout_options;
}

pub active-Fits : {S C : Type 0} (c : Config) (s : State S C) → IsValid c s → Fits c (active s)
active-Fits c s v = record {
  key_size = v.keymap_size;
  key_range = v.keymap_range;
  encoder_size = v.encoder_size;
  encoder_range = v.encoder_range;
  macro_size = v.macro_size;
  option_range = v.options_range;
}

module _ {S C : Type 0} (b : Board S C) (s : State S C) (valid : IsValid b.config s) where
  keys_whole : keymap_image b s ≡ words_bytes s.keymap
  keys_whole =
      take-all _ _ (sym (length-words_keys b.config (active s) (active-Fits b.config s valid)))

  encoders_whole : encoder_image b s ≡ words_bytes s.encoder_map
  encoders_whole =
      take-all _ _ (sym (length-words_encoders b.config (active s) (active-Fits b.config s valid)))

  macros_whole : macro_image b s ≡ s.macros
  macros_whole = take-all _ _ (sym valid.macro_size)

  -- The five CRC loops of stateCrc are one loop over the stored bytes.
  pub state_crc-eq-payload_crc :
      (tail : List ℕ) → state_crc b s tail ≡ payload_crc (image_bytes (active s) tail)
  unfolding state_crc payload_crc
  state_crc-eq-payload_crc tail =
      rw (keys_whole, encoders_whole, macros_whole) (simp crc32_loop-append)

  -- writeState's storage calls leave the header and the image of the active arrays.
  pub write_record-Writes :
      (Usable : S → Type 0) (contents : S → List ℕ) (law : IsStorage b.storage_ops Usable contents)
      (n bytes : ℕ) (tail : List ℕ)
      → length tail ≡ custom_size b s
      → bytes
        ≡ keymap_bytes b.config
          + encoder_map_bytes b.config
          + b.config.macro_bytes
          + 4
          + custom_size b s
      → header_size + bytes ≤ n
      → Writes b.storage_ops Usable contents law n (write_record b s bytes tail) [] (
          header_bytes bytes (payload_crc (image_bytes (active s) tail))
          ++ image_bytes (active s) tail)
  unfolding write_record
  write_record-Writes Usable contents law n bytes tail tail_size size le =
      rw (keys_whole, encoders_whole, macros_whole, state_crc-eq-payload_crc tail)
        (Writes-record b.storage_ops Usable contents law n (header_bytes bytes 0)
          (header_bytes bytes (payload_crc (image_bytes (active s) tail))) (words_bytes s.keymap)
          (words_bytes s.encoder_map) s.macros (le32_bytes s.layout_options) tail _ _ _ _ _ _ _ _
          (length-header_bytes bytes _ ∙ sym (length-header_bytes bytes 0))
          (sym (length-header_bytes bytes 0)) (omega (arith, keys_length))
          (omega (arith, encoders_length)) (omega (arith, valid.macro_size)) (omega arith)
          encoders_length valid.macro_size tail_size (omega arith))
    where
      keys_length : length (words_bytes s.keymap) ≡ keymap_bytes b.config
      keys_length = length-words_keys b.config (active s) (active-Fits b.config s valid)

      encoders_length : length (words_bytes s.encoder_map) ≡ encoder_map_bytes b.config
      encoders_length = length-words_encoders b.config (active s) (active-Fits b.config s valid)

-- Storage that holds a record of the image `i` with the custom bytes `tail`.
pub record IsRecord {S : Type 0} (ops : Storage S) (Usable : S → Type 0) (contents : S → List ℕ)
    (store : S) (bytes : ℕ) (i : Image) (tail : List ℕ) : Type 0 where
  pub size : length (image_bytes i tail) ≡ bytes
  pub small : bytes + header_size ≤ 65535
  pub room : header_size + bytes ≤ ops.capacity store
  pub usable : Usable store
  pub held :
      Holds
        (length (contents store))
        (contents store)
        (header_bytes bytes (payload_crc (image_bytes i tail)) ++ image_bytes i tail)

-- What a successful save did: the custom bytes, the payload size and the storage after it.
pub record Saved {S C : Type 0} (b : Board S C) (Usable : S → Type 0) (contents : S → List ℕ)
    (s t : State S C) : Type 0 where
  pub bytes : ℕ
  pub custom_bytes : List ℕ
  pub store : S
  pub sized : state_bytes b.config (custom_size b s) ≡ some bytes
  pub imaged : custom_image b s ≡ some custom_bytes
  pub result : t ≡ record s { storage = some store; dirty = false }
  pub recorded : IsRecord b.storage_ops Usable contents store bytes (active s) custom_bytes

pub length-image_bytes :
    (c : Config) (i : Image) (tail : List ℕ)
    → Fits c i
    → length (image_bytes i tail)
      ≡ keymap_bytes c + encoder_map_bytes c + c.macro_bytes + 4 + length tail
length-image_bytes c i tail f = omega (
  arith,
  length-append (words_bytes i.keys)
      (words_bytes i.encoders ++ (i.macro_text ++ (le32_bytes i.options ++ tail))),
  length-append (words_bytes i.encoders) (i.macro_text ++ (le32_bytes i.options ++ tail)),
  length-append i.macro_text (le32_bytes i.options ++ tail),
  length-words_keys c i f,
  length-words_encoders c i f,
  f.macro_size,
)

module _ {S C : Type 0} (b : Board S C) (Usable : S → Type 0) (contents : S → List ℕ)
    (law : IsStorage b.storage_ops Usable contents) (persistent : IsPersistent b.custom_ops)
    (fits : IsConfig b.config) where
  pub length-custom_image :
      (s : State S C) (tail : List ℕ) → custom_image b s ≡ some tail → length tail ≡ custom_size b s
  unfolding custom_image
  length-custom_image s tail e = elim (Option-cases s.custom) [
    | inl z ↦ ground arith
    | inr (c, z) ↦ ground (arith, persistent.saved_size c {bytes = tail})
  ]

  -- The record that a successful sequence of storage calls leaves.
  written-IsRecord :
      (s : State S C) (bytes : ℕ) (tail : List ℕ) (store : S)
      → IsValid b.config s
      → state_bytes b.config (custom_size b s) ≡ some bytes
      → custom_image b s ≡ some tail
      → header_size + bytes ≤ b.storage_ops.capacity store
      → Usable store
      → (write_record b s bytes tail store).0 ≡ true
      → IsRecord b.storage_ops Usable contents
          (write_record b s bytes tail store).1
          bytes
          (active s)
          tail
  written-IsRecord s bytes tail store v sized imaged room u ok = record {
    size = omega (
      arith,
      length-image_bytes b.config (active s) tail (active-Fits b.config s v),
      length-custom_image s tail imaged,
      state_bytes-eq-sum b.config (custom_size b s) fits sized,
    );
    small = (state_bytes-eq-sum b.config (custom_size b s) fits sized).1;
    room = rw effect.2 room;
    usable = effect.0;
    held = rw effect.1.fits effect.1;
  }
    where
      n : ℕ
      n = length (contents store)

      effect :
          Usable (write_record b s bytes tail store).1
          × Holds n (contents (write_record b s bytes tail store).1) (
              header_bytes bytes (payload_crc (image_bytes (active s) tail))
              ++ image_bytes (active s) tail)
          × (b.storage_ops.capacity (write_record b s bytes tail store).1
              ≡ b.storage_ops.capacity store)
      effect =
          write_record-Writes b s v Usable contents law n bytes tail
            (length-custom_image s tail imaged)
            (state_bytes-eq-sum b.config (custom_size b s) fits sized).0
            (omega (arith, law.holds store u)) store u ok
            (record { rest = contents store; split = refl; fits = refl })

  pub save-Saved :
      (s t : State S C)
      → IsValid b.config s
      → ((store : S) → s.storage ≡ some store → Usable store)
      → save b s ≡ (true, t)
      → Saved b Usable contents s t
  unfolding save write_state write_to
  save-Saved s t v usable h = elim (Option-cases s.storage) [
    | inl z ↦ ground arith
    | inr (store, z) ↦ elim (Option-cases (state_bytes b.config (custom_size b s))) [
      | inl w ↦ ground arith
      | inr (bytes, w) ↦ elim (Option-cases (custom_image b s)) [
        | inl u ↦ ground arith
        | inr (tail, u) ↦ elim (Bool-cases (write_record b s bytes tail store).0) [
          | inl ok ↦ record {
            bytes = bytes;
            custom_bytes = tail;
            store = (write_record b s bytes tail store).1;
            sized = w;
            imaged = u;
            result = ground arith;
            recorded = written-IsRecord s bytes tail store v w u (ground arith) (usable store z) ok;
          }
          | inr no_write ↦ ground arith
        ]
      ]
    ]
  ]
