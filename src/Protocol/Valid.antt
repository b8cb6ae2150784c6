-- ===== src/Protocol/Valid.antt =====
-- What holds of a Protocol between calls: its arrays have the sizes that the configuration names,
-- and every element is in the range of its C++ type.
use via_arduino.Base.{length-set, length-splice, ◌∙◌, ℕ, zero, suc, ◌/◌, ◌^◌, ◌<◌, ◌≡◌, length}
use via_arduino.Base.{List, [], ◌∷◌, ◌++◌, set, splice, take, drop, replicate, get_or}
use via_arduino.Protocol.Config.{Config, key_count, encoder_map_bytes}
use via_arduino.Protocol.Board.{State}

-- Every element lies below the bound.
abbrev pub Below : ℕ → List ℕ → Type 0
Below n [] = Unit {0}
Below n (x ∷ xs) = (x < n) × Below n xs

pub Below-set : (n : ℕ) (xs : List ℕ) (i v : ℕ) → Below n xs → v < n → Below n (set xs i v)
Below-set n [] i v h p = tt
Below-set n (x ∷ xs) zero v h p = (p, h.1)
Below-set n (x ∷ xs) (suc i) v h p = (h.0, Below-set n xs i v h.1 p)

pub Below-splice :
    (n : ℕ) (xs : List ℕ) (off : ℕ) (ys : List ℕ)
    → Below n xs
    → Below n ys
    → Below n (splice xs off ys)
Below-splice n [] off ys h p = tt
Below-splice n (x ∷ xs) zero [] h p = h
Below-splice n (x ∷ xs) zero (y ∷ ys) h p = (p.0, Below-splice n xs zero ys h.1 p.1)
Below-splice n (x ∷ xs) (suc off) ys h p = (h.0, Below-splice n xs off ys h.1 p)

pub Below-take : (n k : ℕ) (xs : List ℕ) → Below n xs → Below n (take k xs)
Below-take n zero xs h = tt
Below-take n (suc k) [] h = tt
Below-take n (suc k) (x ∷ xs) h = (h.0, Below-take n k xs h.1)

pub Below-drop : (n k : ℕ) (xs : List ℕ) → Below n xs → Below n (drop k xs)
Below-drop n zero xs h = h
Below-drop n (suc k) [] h = tt
Below-drop n (suc k) (x ∷ xs) h = Below-drop n k xs h.1

pub Below-append : (n : ℕ) (xs ys : List ℕ) → Below n xs → Below n ys → Below n (xs ++ ys)
Below-append n [] ys h p = p
Below-append n (x ∷ xs) ys h p = (h.0, Below-append n xs ys h.1 p)

pub Below-replicate : (n k v : ℕ) → v < n → Below n (replicate k v)
Below-replicate n zero v h = tt
Below-replicate n (suc k) v h = (h, Below-replicate n k v h)

pub get_or-lt : (n : ℕ) (xs : List ℕ) (i : ℕ) → 0 < n → Below n xs → get_or xs i 0 < n
get_or-lt n [] i p h = p
get_or-lt n (x ∷ xs) zero p h = h.0
get_or-lt n (x ∷ xs) (suc i) p h = get_or-lt n xs i p h.1

-- The default arrays are as long as the maps they reset.
pub record IsDefaults (c : Config) : Type 0 where
  pub default_keys : length c.default_keymap ≡ key_count c
  pub default_key_range : Below (2 ^ 16) c.default_keymap
  pub default_encoders : length c.default_encoder_map ≡ encoder_map_bytes c / 2
  pub default_encoder_range : Below (2 ^ 16) c.default_encoder_map

pub record IsValid {S C : Type 0} (c : Config) (s : State S C) : Type 0 where
  pub keymap_size : length s.keymap ≡ key_count c
  pub keymap_range : Below (2 ^ 16) s.keymap
  pub encoder_size : length s.encoder_map ≡ encoder_map_bytes c / 2
  pub encoder_range : Below (2 ^ 16) s.encoder_map
  pub macro_size : length s.macros ≡ c.macro_bytes
  pub macro_range : Below 256 s.macros
  pub load_size : length s.load_buffer ≡ c.load_buffer_bytes
  pub load_range : Below 256 s.load_buffer
  pub options_range : s.layout_options < 2 ^ 32

-- A packet is 32 bytes.
pub record IsPacket (p : List ℕ) : Type 0 where
  pub full : length p ≡ 32
  pub bytes : Below 256 p

pub IsPacket-set : (p : List ℕ) (i v : ℕ) → IsPacket p → v < 256 → IsPacket (set p i v)
IsPacket-set p i v h le = record {
  full = length-set p i v ∙ h.full;
  bytes = Below-set 256 p i v h.bytes le;
}

pub IsPacket-splice :
    (p : List ℕ) (off : ℕ) (ys : List ℕ) → IsPacket p → Below 256 ys → IsPacket (splice p off ys)
IsPacket-splice p off ys h le = record {
  full = length-splice p off ys ∙ h.full;
  bytes = Below-splice 256 p off ys h.bytes le;
}

-- The same active arrays, staging buffer and options.
abbrev pub Same : {S C : Type 0} → State S C → State S C → Type 0
Same s' s =
    (s'.keymap ≡ s.keymap)
    × (s'.encoder_map ≡ s.encoder_map)
    × (s'.macros ≡ s.macros)
    × (s'.load_buffer ≡ s.load_buffer)
    × (s'.layout_options ≡ s.layout_options)

pub IsValid-Same :
    {S C : Type 0} (c : Config) (s s' : State S C) → Same s' s → IsValid c s → IsValid c s'
IsValid-Same c s s' e v = record {
  keymap_size = rw e.0 v.keymap_size;
  keymap_range = rw e.0 v.keymap_range;
  encoder_size = rw e.1 v.encoder_size;
  encoder_range = rw e.1 v.encoder_range;
  macro_size = rw e.2 v.macro_size;
  macro_range = rw e.2 v.macro_range;
  load_size = rw e.3 v.load_size;
  load_range = rw e.3 v.load_range;
  options_range = rw e.4 v.options_range;
}
