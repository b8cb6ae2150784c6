-- ===== src/Protocol/Process/Keys.antt =====
-- The key code and encoder commands of Protocol::process.
use via_arduino.Base.{ℕ, ◌≡◌, arith, ap, ◌∙◌}
use via_arduino.Base.{get_or-set, be16, ◌==◌, if◌then◌else◌}
use via_arduino.Base.{Bool, not, ◌&&◌}
use via_arduino.Protocol.Board.{Board, State}
use via_arduino.Protocol.Sizes.{IsConfig}
use via_arduino.Protocol.Valid.{IsValid, IsPacket}
use via_arduino.Protocol.Keymap.{keycode, set_keycode, encoder_keycode, set_encoder_keycode}
use via_arduino.Protocol.Keymap.{mark_dirty, key_index, encoder_index, out_of_map, out_of_encoders}
use via_arduino.Protocol.Keymap.Index.{key_index-lt, key_index-inj, encoder_index-lt}
use via_arduino.Protocol.Keymap.Index.{encoder_index-inj}
use via_arduino.Protocol.Packet.{Packet, at, command_of}
use via_arduino.Protocol.Process.{process, run_command, settle}
use via_arduino.Protocol.Process.Buffers.{process-run_command}

-- Whether the packet's bytes 1 to 3 name this place.
abbrev pub names : Packet → ℕ → ℕ → ℕ → Bool
names p x y z = at p 1 == x && (at p 2 == y && at p 3 == z)

module _ {S C : Type 0} (b : Board S C) where
  keycode-settle :
      (now : ℕ) (p : Packet) (r : Bool × State S C) (layer row column : ℕ)
      → keycode b (settle b now p r).1 layer row column ≡ keycode b r.1 layer row column
  unfolding settle mark_dirty keycode
  keycode-settle now p r layer row column = ground arith

  keycode-set_keycode :
      (p : Packet) (s : State S C) (value layer row column : ℕ)
      → IsConfig b.config
      → IsValid b.config s
      → keycode b (set_keycode b (at p 1) (at p 2) (at p 3) value s).1 layer row column ≡ (
          if names p layer row column && not (out_of_map b.config layer row column)
          then value
          else keycode b s layer row column)
  unfolding set_keycode keycode
  keycode-set_keycode p s value layer row column c v = ground (
    arith,
    v.keymap_size,
    key_index-lt b.config (at p 1) (at p 2) (at p 3) c,
    key_index-inj b.config (at p 1) (at p 2) (at p 3) layer row column,
    get_or-set s.keymap (key_index b.config (at p 1) (at p 2) (at p 3))
        (key_index b.config layer row column) value,
  )

  -- For a configuration in range, a valid state and a packet of 32 bytes: "set keycode" stores the
  -- code at the key that the packet names, if that key is in the map, and changes the code of no
  -- other key; it is refused exactly when the key is outside the map.
  pub keycode-process :
      (now : ℕ) (p : Packet) (s : State S C) (layer row column : ℕ)
      → IsConfig b.config
      → IsValid b.config s
      → IsPacket p
      → at p 0 ≡ 0x05
      → ((process b now p s).0 ≡ not (out_of_map b.config (at p 1) (at p 2) (at p 3)))
        × (keycode b (process b now p s).2 layer row column ≡ (
            if names p layer row column && not (out_of_map b.config layer row column)
            then be16 (at p 4) (at p 5)
            else keycode b s layer row column))
  unfolding command_of run_command
  keycode-process now p s layer row column c v full e =
      let ran = process-run_command b now p s (ap command_of e) in
      let value = be16 (at p 4) (at p 5) in
      (
        ap (λ t. t.0) ran ∙ accepted,
        ap (λ t. keycode b t.2 layer row column) ran
            ∙ keycode-settle now p (set_keycode b (at p 1) (at p 2) (at p 3) value s) layer row
                column
            ∙ keycode-set_keycode p s value layer row column c v,
      )
    where
      accepted :
          not (
            at
              (settle b now p
                (set_keycode b (at p 1) (at p 2) (at p 3) (be16 (at p 4) (at p 5)) s)).0
              0
            == 0xFF)
          ≡ not (out_of_map b.config (at p 1) (at p 2) (at p 3))
      accepted = unfold settle set_keycode in ground (arith, full.full, get_or-set p 0 0 0xFF)

  encoder_keycode-settle :
      (now : ℕ) (p : Packet) (r : Bool × State S C) (layer encoder clockwise : ℕ)
      → encoder_keycode b (settle b now p r).1 layer encoder clockwise
        ≡ encoder_keycode b r.1 layer encoder clockwise
  unfolding settle mark_dirty encoder_keycode
  encoder_keycode-settle now p r layer encoder clockwise = ground arith

  encoder_keycode-set_encoder_keycode :
      (p : Packet) (s : State S C) (value layer encoder clockwise : ℕ)
      → IsConfig b.config
      → IsValid b.config s
      → encoder_keycode b
          (set_encoder_keycode b (at p 1) (at p 2) (at p 3) value s).1
          layer
          encoder
          clockwise
        ≡ (if names p layer encoder clockwise
              && not (out_of_encoders b.config layer encoder clockwise)
            then value
            else encoder_keycode b s layer encoder clockwise)
  unfolding set_encoder_keycode encoder_keycode
  encoder_keycode-set_encoder_keycode p s value layer encoder clockwise c v = ground (
    arith,
    v.encoder_size,
    encoder_index-lt b.config (at p 1) (at p 2) (at p 3) c,
    encoder_index-inj b.config (at p 1) (at p 2) (at p 3) layer encoder clockwise,
    get_or-set s.encoder_map (encoder_index b.config (at p 1) (at p 2) (at p 3))
        (encoder_index b.config layer encoder clockwise) value,
  )

  -- For a configuration in range, a valid state and a packet of 32 bytes: "set encoder" stores the
  -- code at the layer, encoder and direction that the packet names, if they exist, and changes no
  -- other code; it is refused exactly when they do not exist.
  pub encoder_keycode-process :
      (now : ℕ) (p : Packet) (s : State S C) (layer encoder clockwise : ℕ)
      → IsConfig b.config
      → IsValid b.config s
      → IsPacket p
      → at p 0 ≡ 0x15
      → ((process b now p s).0 ≡ not (out_of_encoders b.config (at p 1) (at p 2) (at p 3)))
        × (encoder_keycode b (process b now p s).2 layer encoder clockwise ≡ (
            if names p layer encoder clockwise
              && not (out_of_encoders b.config layer encoder clockwise)
            then be16 (at p 4) (at p 5)
            else encoder_keycode b s layer encoder clockwise))
  unfolding command_of run_command
  encoder_keycode-process now p s layer encoder clockwise c v full e =
      let ran = process-run_command b now p s (ap command_of e) in
      let value = be16 (at p 4) (at p 5) in
      (
        ap (λ t. t.0) ran ∙ accepted,
        ap (λ t. encoder_keycode b t.2 layer encoder clockwise) ran
            ∙ encoder_keycode-settle now p
                (set_encoder_keycode b (at p 1) (at p 2) (at p 3) value s) layer encoder clockwise
            ∙ encoder_keycode-set_encoder_keycode p s value layer encoder clockwise c v,
      )
    where
      accepted :
          not (
            at
              (settle b now p
                (set_encoder_keycode b (at p 1) (at p 2) (at p 3) (be16 (at p 4) (at p 5)) s)).0
              0
            == 0xFF)
          ≡ not (out_of_encoders b.config (at p 1) (at p 2) (at p 3))
      accepted =
          unfold settle set_encoder_keycode in ground (arith, full.full, get_or-set p 0 0 0xFF)
