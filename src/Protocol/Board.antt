-- ===== src/Protocol/Board.antt =====
-- What the protocol core is given and what it keeps: the interfaces Storage, CustomValue and
-- Callbacks of src/VIA_Protocol.h, and the members of class Protocol with the arrays that its
-- Config points to.
use via_arduino.Base.{ℕ, Bool, Option, none, some, List, [], ◌∷◌, false}
use via_arduino.Protocol.Config.{Config}

-- class Storage. A write, a commit or an erase returns its success and the storage after it; a
-- read returns the bytes, or none where the C++ returns false, and leaves the storage as it is.
pub record Storage (S : Type 0) : Type 0 where
  pub capacity : S → ℕ
  pub read : S → ℕ → ℕ → Option (List ℕ)
  pub write : ℕ → List ℕ → S → Bool × S
  pub commit : S → Bool × S
  pub erase : S → Bool × S

-- class CustomValue. set, get and save may change the packet and the value's own state.
pub record CustomValue (C : Type 0) : Type 0 where
  pub set_value : C → List ℕ → Bool × List ℕ × C
  pub get_value : C → List ℕ → Bool × List ℕ × C
  pub save_value : C → List ℕ → Bool × List ℕ × C
  pub reset_value : C → C
  pub state_size : C → ℕ
  pub save_state : C → ℕ → Option (List ℕ)
  pub validate_state : C → List ℕ → ℕ → Bool
  pub load_state : C → List ℕ → ℕ → Bool × C

-- A call of a method of class Callbacks, in the order made.
pub data Event : Type 0 where
  device_indication : ℕ → Event
  layout_options_changed : ℕ → Event
  changed : Event
  bootloader_jump : Event

-- The constant part of a Protocol. Without callbacks `matrix_row` is none; with them it is what
-- Callbacks::matrixRow answers.
pub record Board (S C : Type 0) : Type 0 where
  pub config : Config
  pub storage_ops : Storage S
  pub custom_ops : CustomValue C
  pub matrix_row : Option (ℕ → ℕ)

-- The members of Protocol that change, with the arrays behind the pointers of its Config, the
-- storage and the custom value (none for nullptr), and the callbacks made so far, last first.
pub record State (S C : Type 0) : Type 0 where
  pub keymap : List ℕ
  pub encoder_map : List ℕ
  pub macros : List ℕ
  pub load_buffer : List ℕ
  pub layout_options : ℕ
  pub dirty : Bool
  pub save_at : ℕ
  pub pending_response : List ℕ
  pub response_pending : Bool
  pub bootloader_pending : Bool
  pub storage : Option S
  pub custom : Option C
  pub events : List Event

-- The constructor, over what the arrays of Config and the pending response, which it does not
-- initialise, happen to hold.
abbrev pub new_protocol :
    {S C : Type 0}
    → Config
    → (keymap encoder_map macros load_buffer pending_response : List ℕ) → Option S
    → Option C
    → State S C
new_protocol config keymap encoder_map macros load_buffer pending_response storage custom = record {
  keymap = keymap;
  encoder_map = encoder_map;
  macros = macros;
  load_buffer = load_buffer;
  layout_options = config.default_layout_options;
  dirty = false;
  save_at = 0;
  pending_response = pending_response;
  response_pending = false;
  bootloader_pending = false;
  storage = storage;
  custom = custom;
  events = [];
}

module _ {S C : Type 0} (b : Board S C) where
  -- `if (callbacks_) callbacks_->…`
  abbrev pub notify : Event → State S C → State S C
  notify e s = elim b.matrix_row [ none ↦ s | some _ ↦ record s { events = e ∷ s.events } ]

  -- customValue_ ? customValue_->stateSize() : 0
  abbrev pub custom_size : State S C → ℕ
  custom_size s = elim s.custom [ none ↦ 0 | some c ↦ b.custom_ops.state_size c ]
