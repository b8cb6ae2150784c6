-- ===== src/Protocol/Task/Saving.antt =====
-- The automatic save of Protocol::task: when it is due, and what it does.
use via_arduino.Base.{ℕ, ◌∙◌, ◌+◌, ◌<◌, ◌^◌, ◌≡◌, arith, ap, true, ◌&&◌, leb}
use via_arduino.Base.{if◌then◌else◌, u32}
use via_arduino.Protocol.Board.{Board, State}
use via_arduino.Protocol.Keymap.{mark_dirty}
use via_arduino.Protocol.Persist.{save}
use via_arduino.Protocol.Task.{save_is_due, auto_save}

module _ {S C : Type 0} (b : Board S C) where
  -- After a change at time `t` a save is due exactly when autoSaveMs have passed, up to 2^31 ms
  -- later and over any wrap of the 32-bit clock, if autoSaveMs is below 2^31.
  pub save_is_due-mark_dirty :
      (t passed : ℕ) (s : State S C)
      → b.config.auto_save_ms < 2 ^ 31
      → passed < 2 ^ 31
      → save_is_due b (u32 (t + passed)) (mark_dirty b (u32 t) s) ≡ leb b.config.auto_save_ms passed
  unfolding mark_dirty
  save_is_due-mark_dirty t passed s h p = ground arith

  -- With autoSaveMs below 2^31: after a change made at time `t`, the automatic save of the task
  -- that runs `passed` ms later, fewer than 2^31, saves exactly when autoSaveMs have passed, over
  -- any wrap of the 32-bit clock; earlier the state stays as it is, and then it is what save
  -- leaves.
  pub auto_save-mark_dirty :
      (t passed : ℕ) (s : State S C)
      → b.config.auto_save_ms < 2 ^ 31
      → passed < 2 ^ 31
      → let changed = mark_dirty b (u32 t) s in
        auto_save b (u32 (t + passed)) changed
        ≡ (if leb b.config.auto_save_ms passed then (save b changed).1 else changed)
  unfolding auto_save mark_dirty
  auto_save-mark_dirty t passed s h p =
      let changed = mark_dirty b (u32 t) s in
      let marked : changed.dirty ≡ true = ground arith in
      ap (λ c. if c then (save b changed).1 else changed)
        (ap (λ c. c && save_is_due b (u32 (t + passed)) changed) marked
          ∙ save_is_due-mark_dirty t passed s h p)
