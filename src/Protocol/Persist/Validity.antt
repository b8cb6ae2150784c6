-- ===== src/Protocol/Persist/Validity.antt =====
-- save, load and factoryReset keep the sizes and ranges of the protocol's arrays.
use via_arduino.Base.{ℕ, ◌+◌, ◌/◌, ◌^◌, ◌<◌, ◌≡◌, arith, ◌∙◌}
use via_arduino.Base.{List, [], ◌∷◌, length, slice, drop, length-splice}
use via_arduino.Base.{Bool-cases, inl, inr, ◌==◌}
use via_arduino.Protocol.Config.{key_count, encoder_map_bytes}
use via_arduino.Protocol.Board.{Board, State, Event, notify}
use via_arduino.Protocol.Valid.{Below, Below-splice, Below-take, Below-drop, get_or-lt}
use via_arduino.Protocol.Valid.{IsValid, Same}
use via_arduino.Protocol.Persist.{bytes_words, publish, le32_at}

pub Below-slice : (xs : List ℕ) (off n : ℕ) → Below 256 xs → Below 256 (slice xs off n)
Below-slice xs off n h = Below-take 256 n (drop off xs) (Below-drop 256 off xs h)

pub Below-bytes_words : (bs : List ℕ) → Below 256 bs → Below (2 ^ 16) (bytes_words bs)
unfolding bytes_words
Below-bytes_words [] h = tt
Below-bytes_words (x ∷ []) h = tt
Below-bytes_words (x ∷ y ∷ bs) h = (omega (arith, h.0, h.1.0), Below-bytes_words bs h.1.1)

le32_at-lt : (xs : List ℕ) (i : ℕ) → Below 256 xs → le32_at xs i < 2 ^ 32
le32_at-lt xs i h = omega (
  arith,
  get_or-lt 256 xs i (omega arith) h,
  get_or-lt 256 xs (i + 1) (omega arith) h,
  get_or-lt 256 xs (i + 2) (omega arith) h,
  get_or-lt 256 xs (i + 3) (omega arith) h,
)

module _ {S C : Type 0} (b : Board S C) where
  pub notify-Same : (e : Event) (s : State S C) → Same (notify b e s) s
  notify-Same e s = ground arith

  publish-keys :
      (s : State S C)
      → IsValid b.config s
      → (length (publish b s).keymap ≡ key_count b.config) × Below (2 ^ 16) (publish b s).keymap
  unfolding publish
  publish-keys s v = (
    length-splice s.keymap 0 _ ∙ v.keymap_size,
    Below-splice (2 ^ 16) s.keymap 0 _ v.keymap_range
        (Below-bytes_words _ (Below-slice s.load_buffer 0 _ v.load_range)),
  )

  publish-encoders :
      (s : State S C)
      → IsValid b.config s
      → (length (publish b s).encoder_map ≡ encoder_map_bytes b.config / 2)
        × Below (2 ^ 16) (publish b s).encoder_map
  unfolding publish
  publish-encoders s v = elim (Bool-cases (encoder_map_bytes b.config == 0)) [
    | inl e ↦ rw e (v.encoder_size, v.encoder_range)
    | inr e ↦ rw e (
      length-splice s.encoder_map 0 _ ∙ v.encoder_size,
      Below-splice (2 ^ 16) s.encoder_map 0 _ v.encoder_range
          (Below-bytes_words _ (Below-slice s.load_buffer _ _ v.load_range)),
    )
  ]

  publish-macros :
      (s : State S C)
      → IsValid b.config s
      → (length (publish b s).macros ≡ b.config.macro_bytes) × Below 256 (publish b s).macros
  unfolding publish
  publish-macros s v = elim (Bool-cases (b.config.macro_bytes == 0)) [
    | inl e ↦ rw e (v.macro_size, v.macro_range)
    | inr e ↦ rw e (
      length-splice s.macros 0 _ ∙ v.macro_size,
      Below-splice 256 s.macros 0 _ v.macro_range (Below-slice s.load_buffer _ _ v.load_range),
    )
  ]

  pub publish-IsValid : (s : State S C) → IsValid b.config s → IsValid b.config (publish b s)
  unfolding publish
  publish-IsValid s v = record {
    keymap_size = (publish-keys s v).0;
    keymap_range = (publish-keys s v).1;
    encoder_size = (publish-encoders s v).0;
    encoder_range = (publish-encoders s v).1;
    macro_size = (publish-macros s v).0;
    macro_range = (publish-macros s v).1;
    load_size = v.load_size;
    load_range = v.load_range;
    options_range = le32_at-lt s.load_buffer _ v.load_range;
  }
