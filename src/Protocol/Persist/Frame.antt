-- ===== src/Protocol/Persist/Frame.antt =====
-- What save and load leave alone, on every path.
use via_arduino.Base.{ℕ, ◌≡◌, arith, false, if◌then◌else◌}
use via_arduino.Protocol.Board.{Board, State}
use via_arduino.Protocol.Persist.{save, load, load_custom}

module _ {S C : Type 0} (b : Board S C) where
  -- Whatever happens to the storage calls, save changes nothing but the storage, and the dirty flag:
  -- that is cleared by a save that succeeds and kept by one that fails.
  pub save-frame :
      (s : State S C)
      → let (saved, s') = save b s in
        s' ≡ record s { storage = s'.storage; dirty = if saved then false else s.dirty }
  unfolding save
  save-frame s = ground arith

  load_custom-frame :
      (s : State S C) (bytes : ℕ)
      → (load_custom b s bytes).1 ≡ record s { custom = (load_custom b s bytes).1.custom }
  unfolding load_custom
  load_custom-frame s bytes = ground arith

  -- A load that fails keeps the active arrays, the options, the storage, the flags and the log of
  -- callbacks; only the staging buffer and the custom value may differ.
  pub failed_load-frame :
      (s s' : State S C)
      → load b s ≡ (false, s')
      → s' ≡ record s { load_buffer = s'.load_buffer; custom = s'.custom }
  unfolding load
  failed_load-frame s s' h = ground arith
