-- ===== src/Protocol/Persist/Loaded.antt =====
-- A load from storage that holds a record makes the record's image the active one.
use via_arduino.Base.{ℕ, ◌-◌, ◌/◌, ◌≡◌, refl, arith, ap, ◌∙◌, sym}
use via_arduino.Base.{List, [], ◌++◌, length, length-append, slice, splice, take, take-append, drop}
use via_arduino.Base.{append_assoc, true, false, Bool-cases, Option-cases, inl, inr}
use via_arduino.Base.{Option, some, none, splice_zero, le32_bytes, ◌==◌, ==_iff}
use via_arduino.Protocol.Config.{key_count, encoder_map_bytes, state_bytes, header_size}
use via_arduino.Protocol.Config.{load_buffer_valid}
use via_arduino.Protocol.Board.{Event, Board, State, custom_size, notify}
use via_arduino.Protocol.Contract.{IsStorage, IsPersistent}
use via_arduino.Protocol.Valid.{IsValid}
use via_arduino.Protocol.Persist.{words_bytes, header_bytes, payload_crc}
use via_arduino.Protocol.Persist.{load_custom, accept_payload, load_from, load, custom_image}
use via_arduino.Protocol.Persist.Bytes.{length-header_bytes, header_matches-header_bytes}
use via_arduino.Protocol.Persist.Bytes.{le32_at-header_bytes, payload_crc-lt}
use via_arduino.Protocol.Persist.Record.{nil_of_length}
use via_arduino.Protocol.Persist.Publish.{Image, Fits, image_bytes, slice-part, publish_lem}
use via_arduino.Protocol.Persist.Saved.{IsRecord}

-- The protocol runs on the image `i`, with nothing unsaved, and its custom value saves `tail`.
pub record Restored {S C : Type 0} (b : Board S C) (i : Image) (tail : List ℕ) (s : State S C)
    : Type 0 where
  pub keys_back : s.keymap ≡ i.keys
  pub encoders_back : s.encoder_map ≡ i.encoders
  pub macros_back : s.macros ≡ i.macro_text
  pub options_back : s.layout_options ≡ i.options
  pub clean : s.dirty ≡ false
  pub custom_back : custom_image b s ≡ some tail

-- The custom value takes the bytes `tail`: they have its size, they are valid, they load, and what
-- is loaded is saved as the same bytes. With a state of size 0 it is not asked.
abbrev pub Takes : {S C : Type 0} → Board S C → Option C → List ℕ → Type 0
Takes b none tail = tail ≡ []
Takes b (some c) tail =
    (length tail ≡ b.custom_ops.state_size c)
    × ((b.custom_ops.state_size c == 0) ≡ false
        → (b.custom_ops.validate_state c tail (b.custom_ops.state_size c) ≡ true)
          × ((b.custom_ops.load_state c tail (b.custom_ops.state_size c)).0 ≡ true)
          × (b.custom_ops.save_state (b.custom_ops.load_state c tail (b.custom_ops.state_size c)).1
                (b.custom_ops.state_size c)
              ≡ some tail))

-- A callback changes nothing that the protocol keeps.
pub notify-Restored :
    {S C : Type 0} (b : Board S C) (i : Image) (tail : List ℕ) (s : State S C) (e : Event)
    → Restored b i tail s
    → Restored b i tail (notify b e s)
unfolding custom_image
notify-Restored b i tail s e r = record {
  keys_back = ground (arith, r.keys_back);
  encoders_back = ground (arith, r.encoders_back);
  macros_back = ground (arith, r.macros_back);
  options_back = ground (arith, r.options_back);
  clean = ground (arith, r.clean);
  custom_back = ground (arith, r.custom_back);
}

module _ {S C : Type 0} (b : Board S C) (persistent : IsPersistent b.custom_ops) (i : Image)
    (fits : Fits b.config i) (tail : List ℕ) (bytes : ℕ)
    (size : length (image_bytes i tail) ≡ bytes) where
  front : List ℕ
  front = words_bytes i.keys ++ (words_bytes i.encoders ++ (i.macro_text ++ le32_bytes i.options))

  front-append : (z : List ℕ) → image_bytes i z ≡ front ++ z
  unfolding front
  front-append z = simp append_assoc

  custom_staged :
      (rest : List ℕ) (k : ℕ)
      → length tail ≡ k
      → slice (image_bytes i (tail ++ rest)) (bytes - k) k ≡ tail
  custom_staged rest k e = rw (front-append (tail ++ rest)) (
      slice-part front tail rest (bytes - k) k
        (omega (arith, size, ap length (front-append tail), length-append front tail)) (sym e))

  -- The custom value after the load, and that it saves what was loaded.
  load_custom_lem :
      (s : State S C) (rest : List ℕ)
      → s.load_buffer ≡ image_bytes i (tail ++ rest)
      → Takes b s.custom tail
      → (o : Option C) × (load_custom b s bytes ≡ (true, record s { custom = o }))
        × (custom_image b (record s { custom = o }) ≡ some tail)
  unfolding load_custom custom_image
  load_custom_lem s rest staged takes = elim (Option-cases s.custom) [
    | inl z ↦ (s.custom, ground arith, ground (arith, rw z at takes))
    | inr (c, z) ↦
        let known : Takes b (some c) tail = rw z at takes in
        elim (Bool-cases (b.custom_ops.state_size c == 0)) [
          | inl none_kept ↦
              let empty : tail ≡ [] = nil_of_length tail (ground (arith, known.0)) in
              (s.custom, ground arith, ground (arith, empty))
          | inr kept ↦
              let bytes_are = custom_staged rest (b.custom_ops.state_size c) known.0 in
              let taken = known.1 kept in
              (
                some (b.custom_ops.load_state c tail (b.custom_ops.state_size c)).1,
                ground (arith, bytes_are, taken, staged),
                ground (arith, taken, persistent.size_kept c tail (b.custom_ops.state_size c)),
              )
        ]
  ]

  -- The payload in the load buffer is accepted and published.
  accept_payload_lem :
      (s : State S C) (rest : List ℕ)
      → length s.keymap ≡ key_count b.config
      → length s.encoder_map ≡ encoder_map_bytes b.config / 2
      → length s.macros ≡ b.config.macro_bytes
      → s.load_buffer ≡ image_bytes i (tail ++ rest)
      → Takes b s.custom tail
      → ((accept_payload b s bytes (payload_crc (image_bytes i tail))).0 ≡ true)
        × Restored b i tail (accept_payload b s bytes (payload_crc (image_bytes i tail))).1
  unfolding accept_payload custom_image
  accept_payload_lem s rest ks es ms staged takes =
      let (o, loaded, imaged) = load_custom_lem s rest staged takes in
      let published =
        publish_lem b i fits (tail ++ rest) (record s { custom = o }) staged
          (ks ∙ sym fits.key_size) (es ∙ sym fits.encoder_size) (ms ∙ sym fits.macro_size) in
      let whole : take bytes s.load_buffer ≡ image_bytes i tail =
        ap (take bytes) (staged ∙ regroup)
        ∙ take-append bytes (image_bytes i tail) rest (sym size) in
      let same =
        (==_iff (payload_crc (image_bytes i tail)) (payload_crc (image_bytes i tail))).1 refl in
      rw (whole, same, loaded, published)
        (
          refl,
          notify-Restored b i tail _ _ (record {
            keys_back = refl;
            encoders_back = refl;
            macros_back = refl;
            options_back = refl;
            clean = refl;
            custom_back = imaged;
          }),
        )
    where
      regroup : image_bytes i (tail ++ rest) ≡ image_bytes i tail ++ rest
      regroup = simp append_assoc

  -- A load from storage that holds a record of the image succeeds and restores it.
  pub load-Restored :
      (Usable : S → Type 0) (contents : S → List ℕ) (law : IsStorage b.storage_ops Usable contents)
      (s : State S C) (store : S)
      → IsValid b.config s
      → IsRecord b.storage_ops Usable contents store bytes i tail
      → s.storage ≡ some store
      → state_bytes b.config (custom_size b s) ≡ some bytes
      → load_buffer_valid b.config bytes ≡ true
      → Takes b s.custom tail
      → ((load b s).0 ≡ true) × Restored b i tail (load b s).1
  unfolding load load_from load_buffer_valid
  load-Restored Usable contents law s store v r here sized room takes = rw reach (
      accept_payload_lem staged (drop bytes s.load_buffer) v.keymap_size v.encoder_size v.macro_size
        laid takes)
    where
      payload : List ℕ
      payload = image_bytes i tail

      header : List ℕ
      header = header_bytes bytes (payload_crc payload)

      apart : contents store ≡ header ++ (payload ++ r.held.rest)
      apart = r.held.split ∙ append_assoc header payload r.held.rest

      staged : State S C
      staged = record s { load_buffer = splice s.load_buffer 0 payload }

      header_read :
          b.storage_ops.read store 0 header_size ≡ some (header_bytes bytes (payload_crc payload))
      header_read =
          law.read_back store 0 header_size r.usable (omega (arith, r.room))
          ∙ ap (λ t. some (slice t 0 header_size)) apart
          ∙ ap some (
              slice-part [] header (payload ++ r.held.rest) 0 header_size refl
                (sym (length-header_bytes bytes (payload_crc payload))))

      payload_read : b.storage_ops.read store header_size bytes ≡ some payload
      payload_read =
          law.read_back store header_size bytes r.usable r.room
          ∙ ap (λ t. some (slice t header_size bytes)) apart
          ∙ ap some (
              slice-part header payload r.held.rest header_size bytes
                (sym (length-header_bytes bytes (payload_crc payload))) (sym size))

      laid : staged.load_buffer ≡ image_bytes i (tail ++ drop bytes s.load_buffer)
      laid =
          splice_zero s.load_buffer payload (ground (arith, size, v.load_size))
          ∙ ap (λ n. payload ++ drop n s.load_buffer) size
          ∙ simp append_assoc

      reach : load b s ≡ accept_payload b staged bytes (payload_crc payload)
      reach = ground (
        arith,
        header_read,
        payload_read,
        header_matches-header_bytes bytes (payload_crc payload),
        le32_at-header_bytes bytes (payload_crc payload) (payload_crc-lt payload),
        r.room,
        r.small,
      )
