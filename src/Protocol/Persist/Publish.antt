-- ===== src/Protocol/Persist/Publish.antt =====
-- The copies that end load and factoryReset give the arrays whose bytes are staged.
use via_arduino.Base.{ℕ, zero, suc, ◌+◌, ◌/◌, ◌^◌, ◌<◌, ◌≡◌, refl, arith, ap, ◌∙◌, sym}
use via_arduino.Base.{List, [], ◌∷◌, ◌++◌, length, get_or, slice, splice, take, length-append}
use via_arduino.Base.{append_assoc, take-append, drop-append, splice-all, if◌then◌else◌, ◌==◌}
use via_arduino.Base.{Bool-cases, inl, inr, le32_bytes, false}
use via_arduino.Protocol.Config.{Config, key_count, keymap_bytes, encoder_map_bytes}
use via_arduino.Protocol.Board.{Board, State}
use via_arduino.Protocol.Valid.{Below}
use via_arduino.Protocol.Persist.{words_bytes, bytes_words, publish, le32_at}
use via_arduino.Protocol.Persist.Bytes.{bytes_words-words_bytes, length-words_bytes}
use via_arduino.Protocol.Persist.Record.{nil_of_length}

-- A key map, an encoder map, macros and layout options of the sizes of a configuration.
pub record Image : Type 0 where
  pub keys : List ℕ
  pub encoders : List ℕ
  pub macro_text : List ℕ
  pub options : ℕ

pub record Fits (c : Config) (i : Image) : Type 0 where
  pub key_size : length i.keys ≡ key_count c
  pub key_range : Below (2 ^ 16) i.keys
  pub encoder_size : length i.encoders ≡ encoder_map_bytes c / 2
  pub encoder_range : Below (2 ^ 16) i.encoders
  pub macro_size : length i.macro_text ≡ c.macro_bytes
  pub option_range : i.options < 2 ^ 32

-- The stored bytes of an image, with those of the custom value behind them.
abbrev pub image_bytes : Image → List ℕ → List ℕ
image_bytes i tail =
    words_bytes i.keys
    ++ (words_bytes i.encoders ++ (i.macro_text ++ (le32_bytes i.options ++ tail)))

pub slice-part :
    (p q z : List ℕ) (off n : ℕ) → off ≡ length p → n ≡ length q → slice (p ++ (q ++ z)) off n ≡ q
slice-part p q z off n e f = ap (take n) (drop-append off p (q ++ z) e) ∙ take-append n q z f

get_or-append : (p z : List ℕ) (i j : ℕ) → j ≡ length p + i → get_or (p ++ z) j 0 ≡ get_or z i 0
get_or-append [] z i j e = ap (λ t. get_or z t 0) (omega arith)
get_or-append (x ∷ p) z i zero e = absurd (omega arith)
get_or-append (x ∷ p) z i (suc j) e = get_or-append p z i j (omega arith)

le32_at-part :
    (p z : List ℕ) (v off : ℕ)
    → v < 2 ^ 32
    → off ≡ length p
    → le32_at (p ++ (le32_bytes v ++ z)) off ≡ v
le32_at-part p z v off h e = ground (
  arith,
  get_or-append p (le32_bytes v ++ z) 0 off,
  get_or-append p (le32_bytes v ++ z) 1 (off + 1),
  get_or-append p (le32_bytes v ++ z) 2 (off + 2),
  get_or-append p (le32_bytes v ++ z) 3 (off + 3),
)

pub length-words_keys :
    (c : Config) (i : Image) → Fits c i → length (words_bytes i.keys) ≡ keymap_bytes c
unfolding keymap_bytes
length-words_keys c i f = omega (arith, length-words_bytes i.keys, f.key_size)

pub length-words_encoders :
    (c : Config) (i : Image) → Fits c i → length (words_bytes i.encoders) ≡ encoder_map_bytes c
unfolding encoder_map_bytes
length-words_encoders c i f = omega (arith, length-words_bytes i.encoders, f.encoder_size)

-- Skipping an empty copy is the copy.
pub copy_unless :
    (n : ℕ) (old new : List ℕ)
    → length old ≡ length new
    → (n ≡ 0 → length new ≡ 0)
    → (if n == 0 then old else splice old 0 new) ≡ new
copy_unless n old new e z = elim (Bool-cases (n == 0)) [
  | inl t ↦
      let n0 : n ≡ 0 = ground arith in
      rw t (nil_of_length old (e ∙ z n0) ∙ sym (nil_of_length new (z n0)))
  | inr t ↦ rw t (splice-all old new (sym e))
]

module _ {S C : Type 0} (b : Board S C) (i : Image) (fits : Fits b.config i) (tail : List ℕ) where
  module _ (s : State S C) (staged : s.load_buffer ≡ image_bytes i tail) where
    keys_staged : slice s.load_buffer 0 (keymap_bytes b.config) ≡ words_bytes i.keys
    keys_staged =
        ap (λ t. slice t 0 (keymap_bytes b.config)) staged
        ∙ slice-part [] (words_bytes i.keys) _ 0 _ refl (sym (length-words_keys b.config i fits))

    encoders_staged :
        slice s.load_buffer (keymap_bytes b.config) (encoder_map_bytes b.config)
        ≡ words_bytes i.encoders
    encoders_staged =
        ap (λ t. slice t (keymap_bytes b.config) (encoder_map_bytes b.config)) staged
        ∙ slice-part (words_bytes i.keys) (words_bytes i.encoders) _ _ _
            (sym (length-words_keys b.config i fits)) (sym (length-words_encoders b.config i fits))

    macro_at : ℕ
    macro_at = keymap_bytes b.config + encoder_map_bytes b.config

    front : List ℕ
    front = words_bytes i.keys ++ words_bytes i.encoders

    length-front : macro_at ≡ length front
    unfolding macro_at front
    length-front = omega (
      arith,
      length-append (words_bytes i.keys) (words_bytes i.encoders),
      length-words_keys b.config i fits,
      length-words_encoders b.config i fits,
    )

    macros_staged : slice s.load_buffer macro_at b.config.macro_bytes ≡ i.macro_text
    unfolding front
    macros_staged =
        ap (λ t. slice t macro_at b.config.macro_bytes)
          (staged ∙ sym (append_assoc (words_bytes i.keys) (words_bytes i.encoders) _))
        ∙ slice-part front i.macro_text _ macro_at _ length-front (sym fits.macro_size)

    options_staged : le32_at s.load_buffer (macro_at + b.config.macro_bytes) ≡ i.options
    unfolding front
    options_staged =
        ap (λ t. le32_at t (macro_at + b.config.macro_bytes))
          (staged
            ∙ sym (append_assoc (words_bytes i.keys) (words_bytes i.encoders) _)
            ∙ sym (append_assoc front i.macro_text (le32_bytes i.options ++ tail)))
        ∙ le32_at-part (front ++ i.macro_text) tail i.options (macro_at + b.config.macro_bytes)
            fits.option_range
            (omega (arith, length-append front i.macro_text, length-front, fits.macro_size))

    -- With an image staged in the load buffer, publishing it makes it the active one.
    pub publish_lem :
        length s.keymap ≡ length i.keys
        → length s.encoder_map ≡ length i.encoders
        → length s.macros ≡ length i.macro_text
        → publish b s ≡ record s {
          keymap = i.keys;
          encoder_map = i.encoders;
          macros = i.macro_text;
          layout_options = i.options;
          dirty = false;
        }
    unfolding publish macro_at
    publish_lem ek ee em = λ j. record s {
      keymap = (keymap_new ∙ refl) j;
      encoder_map = encoder_new j;
      macros = macro_new j;
      layout_options = options_staged j;
      dirty = false;
    }
      where
        keymap_new :
            splice s.keymap 0 (bytes_words (slice s.load_buffer 0 (keymap_bytes b.config))) ≡ i.keys
        keymap_new =
            ap (λ t. splice s.keymap 0 (bytes_words t)) keys_staged
            ∙ ap (splice s.keymap 0) (bytes_words-words_bytes i.keys fits.key_range)
            ∙ splice-all s.keymap i.keys (sym ek)

        encoder_new : (publish b s).encoder_map ≡ i.encoders
        encoder_new =
            ap
              (λ t.
                if encoder_map_bytes b.config == 0
                then s.encoder_map
                else splice s.encoder_map 0 (bytes_words t))
              encoders_staged
            ∙ ap
                (λ t.
                  if encoder_map_bytes b.config == 0
                  then s.encoder_map
                  else splice s.encoder_map 0 t)
                (bytes_words-words_bytes i.encoders fits.encoder_range)
            ∙ copy_unless (encoder_map_bytes b.config) s.encoder_map i.encoders ee
                (λ z. omega (arith, fits.encoder_size))

        macro_new : (publish b s).macros ≡ i.macro_text
        macro_new =
            ap (λ t. if b.config.macro_bytes == 0 then s.macros else splice s.macros 0 t)
              macros_staged
            ∙ copy_unless b.config.macro_bytes s.macros i.macro_text em
                (λ z. omega (arith, fits.macro_size))
