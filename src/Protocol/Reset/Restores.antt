-- ===== src/Protocol/Reset/Restores.antt =====
-- A successful factoryReset makes the defaults active and leaves them in storage, where load finds
-- them.
use mathlib.Core.Path.{subst}
use via_arduino.Base.{ℕ, ◌+◌, ◌-◌, ◌≤◌, ◌≡◌, refl, arith, ap, ◌∙◌, sym}
use via_arduino.Base.{
  List, [], ◌++◌, Bool, length, length-append, slice, take, take-append, append_assoc,
}
use via_arduino.Base.{true, Bool-cases, Option-cases, inl, inr, some}
use via_arduino.Protocol.Config.{state_bytes, header_size}
use via_arduino.Protocol.Board.{Board, State, custom_size}
use via_arduino.Protocol.Contract.{IsStorage, IsPersistent}
use via_arduino.Protocol.Sizes.{IsConfig, state_bytes-eq-sum}
use via_arduino.Protocol.Valid.{IsValid, IsDefaults}
use via_arduino.Protocol.Persist.{custom_image}
use via_arduino.Protocol.Persist.Record.{Holds}
use via_arduino.Protocol.Persist.Record.{Holds-slice_back}
use via_arduino.Protocol.Persist.Publish.{image_bytes}
use via_arduino.Protocol.Persist.Saved.{IsRecord, length-custom_image}
use via_arduino.Protocol.Persist.Loaded.{Takes, Restored}
use via_arduino.Protocol.Reset.{stage_defaults, stage_custom, finish_reset}
use via_arduino.Protocol.Reset.{reset_storage, factory_reset, write_defaults}
use via_arduino.Protocol.Reset.Staged.{defaults, front, front-append, length-front}
use via_arduino.Protocol.Reset.Staged.{stage_defaults-Holds, Saves, KeepsSize}
use via_arduino.Protocol.Reset.Staged.{stage_custom-Staged}
use via_arduino.Protocol.Reset.Finish.{write_payload-Writes, load_buffer_valid-le, Sized}
use via_arduino.Protocol.Reset.Finish.{custom_size-reset, custom_image-custom, Takes-size}
use via_arduino.Protocol.Reset.Finish.{finish_reset-Restored, finish_reset-storage}

module _ {S C : Type 0} (b : Board S C) (Usable : S → Type 0) (contents : S → List ℕ)
    (law : IsStorage b.storage_ops Usable contents) (persistent : IsPersistent b.custom_ops)
    (fits : IsConfig b.config) (d : IsDefaults b.config) where
  -- What a successful reset leaves: the defaults active, and a record of them in storage.
  pub record Fresh (bytes : ℕ) (tail : List ℕ) (s : State S C) : Type 0 where
    pub store : S
    pub stored : s.storage ≡ some store
    pub recorded : IsRecord b.storage_ops Usable contents store bytes (defaults b.config) tail
    pub restored : Restored b (defaults b.config) tail s

  reset_storage-Fresh :
      (bytes n : ℕ) (tail : List ℕ) (store : S) (s : State S C)
      → Sized b Usable contents law persistent fits d s
      → Usable store
      → header_size + bytes ≤ b.storage_ops.capacity store
      → bytes + header_size ≤ 65535
      → length (image_bytes (defaults b.config) tail) ≡ bytes
      → Holds n s.load_buffer (front b fits d ++ tail)
      → slice s.load_buffer (bytes - custom_size b s) (custom_size b s) ≡ tail
      → Takes b s.custom tail
      → custom_image b s ≡ some tail
      → (reset_storage b bytes store s).0 ≡ true
      → Fresh bytes tail (reset_storage b bytes store s).1
  unfolding reset_storage
  reset_storage-Fresh bytes n tail store s v u room small size held staged takes imaged ok =
      elim (Bool-cases (write_defaults b (take bytes s.load_buffer) store).0) [
        | inr no_write ↦ ground arith
        | inl written ↦
            let payload = image_bytes (defaults b.config) tail in
            let joined : payload ≡ front b fits d ++ tail = front-append b fits d tail in
            let laid : s.load_buffer ≡ payload ++ held.rest =
              held.split ∙ ap (λ t. t ++ held.rest) (sym joined) in
            let taken : take bytes s.load_buffer ≡ payload =
              ap (take bytes) laid ∙ take-append bytes payload held.rest (sym size) in
            let effect =
              write_payload-Writes b Usable contents law (length (contents store)) bytes payload []
                size (omega (arith, law.holds store u)) store u
                (ap (λ t. (write_defaults b t store).0) (sym taken) ∙ written)
                (record { rest = contents store; split = refl; fits = refl }) in
            let store' : S = (write_defaults b payload store).1 in
            let s' : State S C = record s { storage = some store' } in
            let same : write_defaults b (take bytes s.load_buffer) store
                ≡ write_defaults b payload store =
              ap (λ t. write_defaults b t store) taken in
            let reach : reset_storage b bytes store s ≡ finish_reset b bytes s' = rw written (
              ap (λ (r : Bool × S). finish_reset b bytes (record s { storage = some r.1 })) same) in
            rw reach (record {
              store = store';
              stored = finish_reset-storage b Usable contents law persistent fits d bytes s';
              recorded = record {
                size = size;
                small = small;
                room = rw effect.2 room;
                usable = effect.0;
                held = rw effect.1.fits effect.1;
              };
              restored =
                  finish_reset-Restored b Usable contents law persistent fits d bytes tail held.rest
                    s' v (laid ∙ simp append_assoc) staged takes
                    (custom_image-custom b Usable contents law persistent fits d s' s refl
                      ∙ imaged);
            })
      ]

  -- The reset of a protocol whose load buffer, storage and sizes were found usable.
  staged-Fresh :
      (bytes : ℕ) (tail : List ℕ) (store : S) (s : State S C)
      → Sized b Usable contents law persistent fits d s
      → Usable store
      → KeepsSize b fits d
      → Saves b fits d s tail
      → state_bytes b.config (custom_size b s) ≡ some bytes
      → bytes ≤ length s.load_buffer
      → header_size + bytes ≤ b.storage_ops.capacity store
      → let staged = record s { load_buffer = stage_defaults b s.load_buffer } in
        (reset_storage b bytes store (stage_custom b bytes staged).1).0 ≡ true
        → Fresh bytes tail (reset_storage b bytes store (stage_custom b bytes staged).1).1
  staged-Fresh bytes tail store s v u keeps saves sized le room ok =
      let buffer = stage_defaults b s.load_buffer in
      let s' : State S C = record s { load_buffer = buffer } in
      let (sum, small, _) = state_bytes-eq-sum b.config (custom_size b s) fits sized in
      let long = length-front b fits d in
      let held = stage_defaults-Holds b fits d s.load_buffer (omega arith) in
      let (_, staged) =
        stage_custom-Staged b fits d persistent keeps bytes (length s.load_buffer) (front b fits d)
          tail s' held (omega arith) le
          (custom_image-custom b Usable contents law persistent fits d _ _ refl ∙ saves) in
      let s'' : State S C = record s' { custom = staged.value; load_buffer = staged.buffer } in
      let size : length tail ≡ custom_size b s'' =
        Takes-size b Usable contents law persistent fits d staged.value tail staged.takes in
      let before : length tail ≡ custom_size b s =
        length-custom_image b Usable contents law persistent fits _ tail saves
        ∙ custom_size-reset b Usable contents law persistent fits d s keeps in
      let last : slice staged.buffer (bytes - custom_size b s'') (custom_size b s'') ≡ tail =
        ap (λ k. slice staged.buffer (bytes - k) k) (sym size)
        ∙ ap (λ k. slice staged.buffer k (length tail)) (omega (arith, before))
        ∙ Holds-slice_back (front b fits d) tail staged.held in
      let ok' : (reset_storage b bytes store s'').0 ≡ true =
        ap (λ t. (reset_storage b bytes store t).0) (sym staged.result) ∙ ok in
      rw staged.result (
        reset_storage-Fresh bytes (length s.load_buffer) tail store s'' v u room small
          (ap length (front-append b fits d tail)
            ∙ omega (arith, length-append (front b fits d) tail, before))
          staged.held last staged.takes
          (custom_image-custom b Usable contents law persistent fits d _ _ refl ∙ staged.saves) ok')

  pub factory_reset-Fresh :
      (tail : List ℕ) (s s' : State S C)
      → IsValid b.config s
      → ((store : S) → s.storage ≡ some store → Usable store)
      → KeepsSize b fits d
      → Saves b fits d s tail
      → factory_reset b s ≡ (true, s')
      → (bytes : ℕ) × (state_bytes b.config (custom_size b s) ≡ some bytes) × Fresh bytes tail s'
  unfolding factory_reset
  factory_reset-Fresh tail s s' v usable keeps saves h = elim (Option-cases s.storage) [
    | inl z ↦ ground arith
    | inr (store, z) ↦ elim (Option-cases (state_bytes b.config (custom_size b s))) [
      | inl w ↦ ground arith
      | inr (bytes, w) ↦
          let staged : State S C = record s { load_buffer = stage_defaults b s.load_buffer } in
          elim (Bool-cases (stage_custom b bytes staged).0) [
            | inr refused ↦ ground arith
            | inl valid ↦
                let reach : reset_storage b bytes store (stage_custom b bytes staged).1
                    ≡ (true, s') =
                  ground arith in
                let room : header_size + bytes ≤ b.storage_ops.capacity store = ground arith in
                let big : bytes ≤ b.config.load_buffer_bytes =
                  load_buffer_valid-le b.config bytes (ground arith) in
                (
                  bytes,
                  w,
                  subst (λ (r : Bool × State S C). Fresh bytes tail r.1) reach
                      (staged-Fresh bytes tail store s (v.keymap_size, v.encoder_size, v.macro_size)
                        (usable store z) keeps saves w (omega (arith, v.load_size)) room
                        (ap (λ r. r.0) reach)),
                )
          ]
    ]
  ]
