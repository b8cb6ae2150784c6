-- ===== src/Protocol/Reset/Finish.antt =====
-- The end of factoryReset: its storage calls leave a record, and its copies make it active.
use mathlib.Core.Path.{subst}
use mathlib.Core.Option
use via_arduino.Base.{ℕ, ◌+◌, ◌-◌, ◌/◌, ◌≤◌, ◌≡◌, refl, arith, ap, ◌∙◌, sym}
use via_arduino.Base.{List, [], ◌++◌, length, slice}
use via_arduino.Base.{true, Bool-cases, Option-cases, inl, inr, Option, some, none}
use via_arduino.Base.{◌==◌}
use via_arduino.Protocol.Config.{
  Config, key_count, encoder_map_bytes, load_buffer_valid, header_size,
}
use via_arduino.Protocol.Board.{Board, State, custom_size, changed}
use via_arduino.Protocol.Contract.{IsStorage, IsPersistent}
use via_arduino.Protocol.Sizes.{IsConfig}
use via_arduino.Protocol.Valid.{IsDefaults}
use via_arduino.Protocol.Persist.{custom_image, header_bytes, payload_crc, publish}
use via_arduino.Protocol.Persist.Bytes.{length-header_bytes}
use via_arduino.Protocol.Persist.Record.{Writes, Writes-then, Writes-erase, Writes-next}
use via_arduino.Protocol.Persist.Record.{Writes-over, Writes-commit}
use via_arduino.Protocol.Persist.Publish.{image_bytes, publish_lem}
use via_arduino.Protocol.Persist.Loaded.{Takes, Restored, notify-Restored}
use via_arduino.Protocol.Reset.{reload_custom, finish_reset}
use via_arduino.Protocol.Reset.{write_defaults}
use via_arduino.Protocol.Reset.Staged.{defaults, defaults-Fits}
use via_arduino.Protocol.Reset.Staged.{KeepsSize}

-- The storage calls of factoryReset leave the header and the payload, whatever was there.
write_defaults-Writes :
    {S C : Type 0} (b : Board S C) (Usable : S → Type 0) (contents : S → List ℕ)
    (law : IsStorage b.storage_ops Usable contents) (n : ℕ) (payload p : List ℕ)
    → header_size + length payload ≤ n
    → Writes b.storage_ops Usable contents law n
        (write_defaults b payload)
        p
        (header_bytes (length payload) (payload_crc payload) ++ payload)
unfolding write_defaults
write_defaults-Writes b Usable contents law n payload p le =
    let ops = b.storage_ops in
    let old = header_bytes (length payload) 0 in
    let new = header_bytes (length payload) (payload_crc payload) in
    let size = length-header_bytes (length payload) 0 in
    let size' = length-header_bytes (length payload) (payload_crc payload) in
    Writes-then ops Usable contents law n _ _ _ _ _
      (Writes-then ops Usable contents law n _ _ _ _ _
        (Writes-then ops Usable contents law n _ _ _ _ _
          (Writes-then ops Usable contents law n _ _ _ _ _
            (Writes-erase ops Usable contents law n p)
            (Writes-next ops Usable contents law n 0 old [] refl (omega (arith, size))))
          (Writes-next ops Usable contents law n header_size payload old (sym size) le))
        (Writes-over ops Usable contents law n old new payload (old ++ payload) (size' ∙ sym size)
          refl))
      (Writes-commit ops Usable contents law n _)

pub write_payload-Writes :
    {S C : Type 0} (b : Board S C) (Usable : S → Type 0) (contents : S → List ℕ)
    (law : IsStorage b.storage_ops Usable contents) (n bytes : ℕ) (payload p : List ℕ)
    → length payload ≡ bytes
    → header_size + bytes ≤ n
    → Writes b.storage_ops Usable contents law n
        (write_defaults b payload)
        p
        (header_bytes bytes (payload_crc payload) ++ payload)
write_payload-Writes b Usable contents law n bytes payload p size le =
    subst
      (λ k.
        Writes b.storage_ops Usable contents law n (write_defaults b payload) p
          (header_bytes k (payload_crc payload) ++ payload))
      size (write_defaults-Writes b Usable contents law n payload p (omega (arith, size)))

pub load_buffer_valid-le :
    (c : Config) (bytes : ℕ) → load_buffer_valid c bytes ≡ true → bytes ≤ c.load_buffer_bytes
unfolding load_buffer_valid
load_buffer_valid-le c bytes h = ground arith

module _ {S C : Type 0} (b : Board S C) (Usable : S → Type 0) (contents : S → List ℕ)
    (law : IsStorage b.storage_ops Usable contents) (persistent : IsPersistent b.custom_ops)
    (fits : IsConfig b.config) (d : IsDefaults b.config) where
  -- The active arrays have the sizes of the configuration.
  abbrev pub Sized : State S C → Type 0
  Sized s =
      (length s.keymap ≡ key_count b.config)
      × (length s.encoder_map ≡ encoder_map_bytes b.config / 2)
      × (length s.macros ≡ b.config.macro_bytes)

  pub custom_size-reset :
      (s : State S C)
      → KeepsSize b fits d
      → custom_size b (record s { custom = Option.map b.custom_ops.reset_value s.custom })
        ≡ custom_size b s
  custom_size-reset s keeps = elim (Option-cases s.custom) [
    | inl z ↦ rw z refl
    | inr (c, z) ↦ rw z (keeps c)
  ]

  -- The custom value takes back the bytes that were staged for it.
  reload_custom_lem :
      (bytes : ℕ) (tail : List ℕ) (s : State S C)
      → slice s.load_buffer (bytes - custom_size b s) (custom_size b s) ≡ tail
      → Takes b s.custom tail
      → custom_image b s ≡ some tail
      → (o : Option C) × (reload_custom b bytes s ≡ record s { custom = o })
        × (custom_image b (record s { custom = o }) ≡ some tail)
  unfolding reload_custom custom_image
  reload_custom_lem bytes tail s staged takes imaged = elim (Option-cases s.custom) [
    | inl z ↦ (s.custom, ground arith, imaged)
    | inr (c, z) ↦
        let known : Takes b (some c) tail = rw z at takes in
        elim (Bool-cases (b.custom_ops.state_size c == 0)) [
          | inl none_kept ↦ (s.custom, ground arith, imaged)
          | inr kept ↦
              let taken = known.1 kept in
              (
                some (b.custom_ops.load_state c tail (b.custom_ops.state_size c)).1,
                ground (arith, staged),
                ground (arith, taken, persistent.size_kept c tail (b.custom_ops.state_size c)),
              )
        ]
  ]

  -- With the defaults staged, the copies that end a reset make them active.
  pub finish_reset-Restored :
      (bytes : ℕ) (tail rest : List ℕ) (s : State S C)
      → Sized s
      → s.load_buffer ≡ image_bytes (defaults b.config) (tail ++ rest)
      → slice s.load_buffer (bytes - custom_size b s) (custom_size b s) ≡ tail
      → Takes b s.custom tail
      → custom_image b s ≡ some tail
      → Restored b (defaults b.config) tail (finish_reset b bytes s).1
  unfolding finish_reset custom_image
  finish_reset-Restored bytes tail rest s v laid staged takes imaged =
      let image_fits = defaults-Fits b.config fits d in
      let (o, reloaded, saved) = reload_custom_lem bytes tail s staged takes imaged in
      let published =
        publish_lem b (defaults b.config) image_fits (tail ++ rest) (record s { custom = o }) laid
          (v.0 ∙ sym image_fits.key_size) (v.1 ∙ sym image_fits.encoder_size)
          (v.2 ∙ sym image_fits.macro_size) in
      rw (reloaded, published)
        (notify-Restored b (defaults b.config) tail _ changed (
          notify-Restored b (defaults b.config) tail _ _ (record {
            keys_back = refl;
            encoders_back = refl;
            macros_back = refl;
            options_back = refl;
            clean = refl;
            custom_back = saved;
          })))

  pub custom_image-custom :
      (s t : State S C) → s.custom ≡ t.custom → custom_image b s ≡ custom_image b t
  unfolding custom_image
  custom_image-custom s t e = ground (arith, e)

  pub Takes-size :
      (o : Option C) (tail : List ℕ)
      → Takes b o tail
      → length tail ≡ (elim o [ none ↦ 0 | some c ↦ b.custom_ops.state_size c ])
  Takes-size none tail h = ap length h
  Takes-size (some c) tail h = h.0

  pub finish_reset-storage :
      (bytes : ℕ) (s : State S C) → (finish_reset b bytes s).1.storage ≡ s.storage
  unfolding finish_reset reload_custom publish
  finish_reset-storage bytes s = ground arith
