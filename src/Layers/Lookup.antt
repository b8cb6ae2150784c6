-- ===== src/Layers/Lookup.antt =====
-- The lookup of a key is the top active layer's code that is not transparent.
use via_arduino.Base.{ℕ, zero, suc, ◌≤◌, ◌<◌, ◌≡◌, ◌≢◌, refl, arith, true}
use via_arduino.Base.{ltb, ◌==◌, if◌then◌else◌, bit_and-single, List, Bool-cases, inl, inr}
use via_arduino.Layers.{LayerState, resolve, resolve_from, code_at}
use via_arduino.Layers.Active.{active}

module _ (s : LayerState) (default_layer : ℕ) (keymap : List ℕ) (row col rows cols : ℕ) where
  abbrev at_layer : ℕ → ℕ
  at_layer i = code_at keymap rows cols row col i

  -- Layers from `i` up to `n` that are active and in use have a transparent code.
  abbrev pub Clear : ℕ → ℕ → Type 0
  Clear i n = (j : ℕ) → i ≤ j → j < n → active s j ≡ true → j < s.layer_count → at_layer j ≡ 0x0001

  resolve_from-skip :
      (n : ℕ)
      → Clear 0 n
      → resolve_from s default_layer keymap row col rows cols n
        ≡ (if ltb default_layer s.layer_count then at_layer default_layer else 0)
  unfolding resolve_from
  resolve_from-skip zero clear = refl
  resolve_from-skip (suc n) clear = ground (
    arith,
    resolve_from-skip n (λ j from below. clear j from (omega arith)),
    bit_and-single s.transient_mask n,
    clear n,
  )

  resolve_from-highest :
      (n i : ℕ)
      → i < n
      → active s i ≡ true
      → i < s.layer_count
      → at_layer i ≢ 0x0001
      → Clear (suc i) n
      → resolve_from s default_layer keymap row col rows cols n ≡ at_layer i
  unfolding resolve_from
  resolve_from-highest zero i h on used solid clear = absurd (omega arith)
  resolve_from-highest (suc n) i h on used solid clear = elim (Bool-cases (i == n)) [
    | inl here ↦
        let same : i ≡ n = ground (arith, here) in
        ground (arith, solid, bit_and-single s.transient_mask n, same)
    | inr above ↦ ground (
      arith,
      bit_and-single s.transient_mask n,
      clear n,
      resolve_from-highest n i (ground (arith, above)) on used solid
          (λ j from below. clear j from (omega arith)),
    )
  ]

  -- The code of a key is that of the highest layer that is active, in use and not transparent at
  -- the key.
  pub resolve-highest :
      (i : ℕ)
      → i < 32
      → active s i ≡ true
      → i < s.layer_count
      → at_layer i ≢ 0x0001
      → Clear (suc i) 32
      → resolve s default_layer keymap row col rows cols ≡ at_layer i
  unfolding resolve
  resolve-highest = resolve_from-highest 32

  -- Where each active layer in use is transparent, a key has the default layer's code, or none if the
  -- default layer is not in use.
  pub resolve-default :
      Clear 0 32
      → resolve s default_layer keymap row col rows cols
        ≡ (if ltb default_layer s.layer_count then at_layer default_layer else 0)
  unfolding resolve
  resolve-default = resolve_from-skip 32
