-- ===== src/Protocol/Task/Start.antt =====
-- Protocol::begin leaves a good state, whether it loads what is stored or falls back on the
-- defaults.
use via_arduino.Base.{ℕ, ◌^◌, ◌<◌, ◌≡◌, refl, false, not, ◌&&◌, Option, none, some}
use via_arduino.Base.{either, optionally}
use via_arduino.Protocol.Config.{load_buffer_valid, state_bytes}
use via_arduino.Protocol.Board.{Board, State, custom_size, layout_options_changed}
use via_arduino.Protocol.Contract.{IsByteWise, Within}
use via_arduino.Protocol.Valid.{IsDefaults, IsValid-Same}
use via_arduino.Protocol.Keymap.{reset_keymaps, reset_macros, reset_buffers}
use via_arduino.Protocol.Persist.{load}
use via_arduino.Protocol.Persist.Good.{
  IsGood, IsGood-Same, IsGood-notify, Bytewise, load-IsGood, Ends,
}
use via_arduino.Protocol.Process.Parts.{reset_keymaps-IsGood, reset_macros-IsGood, IsGood-options}
use via_arduino.Protocol.Task.{begin, start, has_storage, config_complete}

Within-map :
    {C : Type 0} (P : C → Type 0) (f : C → C) (o : Option C)
    → ((c : C) → P c → P (f c))
    → Within P o
    → Within P (elim o [ none ↦ none | some c ↦ some (f c) ])
Within-map P f none h p = tt
Within-map P f (some c) h p = h c p

module _ {S C : Type 0} (b : Board S C) (Sound : C → Type 0) (law : IsByteWise b.custom_ops Sound)
    (defaults : IsDefaults b.config) (options : b.config.default_layout_options < 2 ^ 32) where
  reset_buffers-IsGood : (s : State S C) → IsGood b Sound s → IsGood b Sound (reset_buffers b s)
  unfolding reset_buffers
  reset_buffers-IsGood s g =
      let s' = reset_macros b (reset_keymaps b s) in
      let g' : IsGood b Sound s' =
        reset_macros-IsGood b Sound (reset_keymaps b s)
          (reset_keymaps-IsGood b Sound s defaults g) in
      let g'' = IsGood-options b Sound s' b.config.default_layout_options g' options in
      record {
        valid =
            IsValid-Same b.config (record s' { layout_options = _ }) _
              (refl, refl, refl, refl, refl) g''.valid;
        sound = Within-map Sound b.custom_ops.reset_value s'.custom law.reset_lem g'.sound;
      }

  start-IsGood :
      (now : ℕ) (s : State S C) → IsGood b Sound (load b s).1 → IsGood b Sound (start b now s)
  unfolding start
  start-IsGood now s loaded =
      let fresh = reset_buffers-IsGood (load b s).1 loaded in
      let options_told = layout_options_changed (reset_buffers b (load b s).1).layout_options in
      let ready =
        either (IsGood b Sound) (load b s).0 loaded (IsGood-notify b Sound options_told _ fresh) in
      IsGood-Same b Sound _ _ (refl, refl, refl, refl, refl) refl ready

  -- Over a custom value that keeps to bytes, a storage that reads bytes and default arrays of the
  -- right sizes: however begin ends, with the stored state loaded, the defaults or a refusal, the
  -- arrays keep their sizes, their elements stay in range and the custom value stays sound.
  pub begin-IsGood :
      (now : ℕ) (s : State S C)
      → IsGood b Sound s
      → ((store : S) → s.storage ≡ some store → Bytewise b store)
      → IsGood b Sound (begin b now s).1
  unfolding begin
  begin-IsGood now s g bytes =
      let refused : Ends b Sound (false, s) = record { good = g } in
      let loaded = load-IsGood b Sound law s g bytes in
      let ends : Ends b Sound (begin b now s) =
        either (Ends b Sound) (not (config_complete b.config)) {x = (false, s)} refused (
          optionally (Ends b Sound) (state_bytes b.config (custom_size b s)) {z = (false, s)}
            refused
            (λ n _.
              either (Ends b Sound) (has_storage b s && not (load_buffer_valid b.config n))
                {x = (false, s)} refused (record { good = start-IsGood now s loaded }))) in
      ends.good
