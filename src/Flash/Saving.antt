-- ===== src/Flash/Saving.antt =====
-- Protocol::save over FlashStorage: it never erases, so only a provisional slot left by erase() can
-- take its record.
use via_arduino.Base.{ℕ, ◌≡◌, ap, ◌∙◌, arith, false, some, Option-cases, inl, inr, List}
use via_arduino.Protocol.Board.{Board, Storage, State, custom_size}
use via_arduino.Protocol.Config.{state_bytes}
use via_arduino.Protocol.Persist.{
  save, write_state, write_to, write_record, custom_image, header_bytes,
}
use via_arduino.Flash.{FlashMemory, FlashStorage, flash_ops, write}

module _ {F C : Type 0} (ops : FlashMemory F) (b : Board (FlashStorage F) C)
    (over : b.storage_ops ≡ flash_ops ops) where
  write_record-not_ready :
      (s : State (FlashStorage F) C) (bytes : ℕ) (custom : List ℕ) (store : FlashStorage F)
      → store.provisional_ready ≡ false
      → (write_record b s bytes custom store).0 ≡ false
  unfolding write_record write
  write_record-not_ready s bytes custom store h =
      let refused : b.storage_ops.write 0 (header_bytes bytes 0) store ≡ (false, store) =
        ap (λ (o : Storage (FlashStorage F)). o.write 0 (header_bytes bytes 0) store) over
        ∙ ground (arith, h) in
      ground (arith, refused)

  -- Over a FlashStorage that has no provisional slot, save always fails.
  pub save-not_ready :
      (s : State (FlashStorage F) C) (store : FlashStorage F)
      → s.storage ≡ some store
      → store.provisional_ready ≡ false
      → (save b s).0 ≡ false
  unfolding save write_state write_to
  save-not_ready s store here h = elim (Option-cases (state_bytes b.config (custom_size b s))) [
    | inl none_sized ↦ ground (arith, here, none_sized)
    | inr (bytes, sized) ↦ elim (Option-cases (custom_image b s)) [
      | inl no_image ↦ ground (arith, here, sized, no_image)
      | inr (image, imaged) ↦
          ground (arith, here, sized, imaged, write_record-not_ready s bytes image store h)
    ]
  ]
