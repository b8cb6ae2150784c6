-- ===== src/Protocol/Persist/Good.antt =====
-- save and load keep a good state: the arrays in size and range, the custom value sound.
use via_arduino.Base.{ℕ, ◌+◌, ◌-◌, ◌≡◌, refl, arith, ◌∙◌}
use via_arduino.Base.{List, slice, splice, take, length-splice}
use via_arduino.Base.{true, false, some, ◌==◌, either, optionally}
use via_arduino.Base.{not, ltb}
use via_arduino.Protocol.Config.{load_buffer_valid, header_size, state_bytes}
use via_arduino.Protocol.Board.{Board, State, Event, notify, layout_options_changed, custom_size}
use via_arduino.Protocol.Contract.{IsByteWise, Within}
use via_arduino.Protocol.Valid.{Below, Below-splice}
use via_arduino.Protocol.Valid.{IsValid, Same, IsValid-Same}
use via_arduino.Protocol.Persist.{publish, save, load, load_custom}
use via_arduino.Protocol.Persist.{accept_payload, load_from, payload_crc, header_matches}
use via_arduino.Protocol.Persist.Validity.{Below-slice, notify-Same, publish-IsValid}

module _ {S C : Type 0} (b : Board S C) where
  -- What this storage reads are bytes.
  unfoldable pub Bytewise : S → Type 0
  Bytewise store =
      (off n : ℕ) (bytes : List ℕ) → b.storage_ops.read store off n ≡ some bytes → Below 256 bytes

module _ {S C : Type 0} (b : Board S C) (Sound : C → Type 0) where
  -- A valid state whose custom value is sound.
  pub record IsGood (s : State S C) : Type 0 where
    pub valid : IsValid b.config s
    pub sound : Within Sound s.custom

  -- The state that a call ends in is good.
  pub record Ends {A : Type 0} (r : A × State S C) : Type 0 where
    pub good : IsGood r.1

  pub IsGood-Same : (s s' : State S C) → Same s' s → s'.custom ≡ s.custom → IsGood s → IsGood s'
  IsGood-Same s s' e custom g = record {
    valid = IsValid-Same b.config s s' e g.valid;
    sound = rw custom g.sound;
  }

  pub IsGood-publish : (s : State S C) → IsGood s → IsGood (publish b s)
  unfolding publish
  IsGood-publish s g = record { valid = publish-IsValid b s g.valid; sound = g.sound }

  pub IsGood-stage :
      (s : State S C) (off : ℕ) (bytes : List ℕ)
      → IsGood s
      → Below 256 bytes
      → IsGood (record s { load_buffer = splice s.load_buffer off bytes })
  IsGood-stage s off bytes g h = record {
    valid = record {
      keymap_size = g.valid.keymap_size;
      keymap_range = g.valid.keymap_range;
      encoder_size = g.valid.encoder_size;
      encoder_range = g.valid.encoder_range;
      macro_size = g.valid.macro_size;
      macro_range = g.valid.macro_range;
      load_size = length-splice s.load_buffer off bytes ∙ g.valid.load_size;
      load_range = Below-splice 256 s.load_buffer off bytes g.valid.load_range h;
      options_range = g.valid.options_range;
    };
    sound = g.sound;
  }

  pub IsGood-custom :
      (s : State S C) (c : C) → IsGood s → Sound c → IsGood (record s { custom = some c })
  IsGood-custom s c g h = record {
    valid = IsValid-Same b.config s _ (refl, refl, refl, refl, refl) g.valid;
    sound = h;
  }

  pub IsGood-notify : (e : Event) (s : State S C) → IsGood s → IsGood (notify b e s)
  IsGood-notify e s = IsGood-Same s (notify b e s) (notify-Same b e s) (ground arith)

  pub save-IsGood : (s : State S C) → IsGood s → IsGood (save b s).1
  unfolding save
  save-IsGood s = IsGood-Same s (save b s).1 (ground arith) (ground arith)

  module _ (law : IsByteWise b.custom_ops Sound) where
    load_custom-Ends : (s : State S C) (n : ℕ) → IsGood s → Ends (load_custom b s n)
    unfolding load_custom
    load_custom-Ends s n g =
        optionally Ends s.custom {z = (true, s)} (record { good = g })
          (λ c e.
            let size = b.custom_ops.state_size c in
            let staged = slice s.load_buffer (n - size) size in
            let loaded = b.custom_ops.load_state c staged size in
            let h : Sound c = rw e at g.sound in
            let bytes = Below-slice s.load_buffer (n - size) size g.valid.load_range in
            either Ends (size == 0) {x = (true, s)} (record { good = g })
              (either Ends (not (b.custom_ops.validate_state c staged size)) {x = (false, s)}
                {y = (loaded.0, record s { custom = some loaded.1 })} (record { good = g })
                (record {
                  good = IsGood-custom s loaded.1 g (law.load_lem c staged size h bytes);
                })))

    accept_payload-Ends : (s : State S C) (n crc : ℕ) → IsGood s → Ends (accept_payload b s n crc)
    unfolding accept_payload
    accept_payload-Ends s n crc g =
        let custom = (load_custom-Ends s n g).good in
        let published = IsGood-publish (load_custom b s n).1 custom in
        let s'' = publish b (load_custom b s n).1 in
        let told = layout_options_changed s''.layout_options in
        either Ends (not (payload_crc (take n s.load_buffer) == crc)) {x = (false, s)}
          (record { good = g })
          (either Ends (load_custom b s n).0 {x = (true, notify b told s'')}
            {y = (false, (load_custom b s n).1)}
            (record { good = IsGood-notify told s'' published }) (record { good = custom }))

    load_from-Ends :
        (s : State S C) (n : ℕ) (store : S)
        → Bytewise b store
        → IsGood s
        → Ends (load_from b s n store)
    unfolding load_from Bytewise
    load_from-Ends s n store bytes g =
        let failed : Ends (false, s) = record { good = g } in
        optionally Ends (b.storage_ops.read store 0 header_size) {z = (false, s)} failed
          (λ header _. either Ends (not (header_matches header n)) {x = (false, s)} failed (
            optionally Ends (b.storage_ops.read store header_size n) {z = (false, s)} failed
              (λ payload e.
                accept_payload-Ends _ n _
                  (IsGood-stage s 0 payload g (bytes header_size n payload e)))))

    -- Over a custom value that keeps to bytes and a storage that reads bytes: whether load succeeds
    -- or fails, and wherever it stops, the arrays keep their sizes, their elements stay in range
    -- and the custom value stays sound.
    pub load-IsGood :
        (s : State S C)
        → IsGood s
        → ((store : S) → s.storage ≡ some store → Bytewise b store)
        → IsGood (load b s).1
    unfolding load
    load-IsGood s g bytes =
        let failed : Ends (false, s) = record { good = g } in
        let ends : Ends (load b s) = optionally Ends s.storage {z = (false, s)} failed (λ store e.
          optionally Ends (state_bytes b.config (custom_size b s)) {z = (false, s)} failed (λ n _.
            either Ends (not (load_buffer_valid b.config n)) {x = (false, s)} failed (
              either Ends (ltb (b.storage_ops.capacity store) (header_size + n)) {x = (false, s)}
                failed (load_from-Ends s n store (bytes store e) g)))) in
        ends.good
