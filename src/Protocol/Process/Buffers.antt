-- ===== src/Protocol/Process/Buffers.antt =====
-- The buffer commands of Protocol::process: what a "set" wrote, a "get" of the same chunk answers.
use via_arduino.Base.{ℕ, ◌+◌, ◌-◌, ◌*◌, ◌≤◌, ◌<◌, ◌≡◌, arith, ap, ◌∙◌}
use via_arduino.Base.{List, length, get_or, drop, slice, get_or-splice_inside, get_or-slice}
use via_arduino.Base.{length-take, length-drop}
use via_arduino.Base.{ltb, leb, ◌==◌, if◌then◌else◌, false, not}
use via_arduino.Protocol.Config.{keymap_bytes}
use via_arduino.Protocol.Board.{Board, State}
use via_arduino.Protocol.Sizes.{IsConfig}
use via_arduino.Protocol.Valid.{Below-take, Below-drop, IsValid, IsPacket}
use via_arduino.Protocol.Keymap.{keymap_byte, write_dynamic_keymap, read_dynamic_keymap, mark_dirty}
use via_arduino.Protocol.Keymap.{read_macros, write_macros}
use via_arduino.Protocol.Keymap.Bytes.{overlay, keymap_byte-write_dynamic_keymap}
use via_arduino.Protocol.Keymap.Bytes.{get_or-read_dynamic_keymap, length-read_dynamic_keymap}
use via_arduino.Protocol.Keymap.Macros.{get_or-write_macros, get_or-read_macros, length-read_macros}
use via_arduino.Protocol.Packet.{Packet, Command, at, command_of}
use via_arduino.Protocol.Process.{process, run_command, store_keymap}
use via_arduino.Protocol.Packet.{chunk_offset, chunk_size}
use via_arduino.Protocol.Process.{store_macros}

pub length-slice : (xs : List ℕ) (off n : ℕ) → off + n ≤ length xs → length (slice xs off n) ≡ n
length-slice xs off n h = omega (arith, length-take n (drop off xs), length-drop off xs)

-- A chunk is at most 28 bytes, so that it lies in the packet behind its four command bytes.
chunk_size-le : (p : Packet) → chunk_size p ≤ 28
chunk_size-le p = ground arith

module _ {S C : Type 0} (b : Board S C) where
  -- markDirty leaves the arrays alone.
  keymap-mark_dirty : (now : ℕ) (s : State S C) → (mark_dirty b now s).keymap ≡ s.keymap
  unfolding mark_dirty
  keymap-mark_dirty now s = ground arith

  macros-mark_dirty : (now : ℕ) (s : State S C) → (mark_dirty b now s).macros ≡ s.macros
  unfolding mark_dirty
  macros-mark_dirty now s = ground arith

  keymap-store_keymap :
      (now : ℕ) (p : Packet) (s : State S C)
      → (store_keymap b now p s).1.keymap
        ≡ (write_dynamic_keymap
            (keymap_bytes b.config)
            (chunk_offset p)
            (slice p 4 (chunk_size p))
            (s.keymap, false)).0
  unfolding store_keymap mark_dirty
  keymap-store_keymap now p s = ground arith

  macros-store_macros :
      (now : ℕ) (p : Packet) (s : State S C)
      → (store_macros b now p s).1.macros
        ≡ (write_macros b.config.macro_bytes
            (chunk_offset p)
            (slice p 4 (chunk_size p))
            (s.macros, false)).0
  unfolding store_macros mark_dirty
  macros-store_macros now p s = ground arith

  -- The handler runs the command that the first byte names.
  pub process-run_command :
      (now : ℕ) (p : Packet) (s : State S C) {c : Command}
      → command_of (at p 0) ≡ c
      → process b now p s
        ≡ (let (p', s') = run_command b c now p s in (not (at p' 0 == 0xFF), p', s'))
  unfolding process
  process-run_command now p s e =
      ap (λ c. let (p', s') = run_command b c now p s in (not (at p' 0 == 0xFF), p', s')) e

  chunk_kept :
      (p : Packet) (k : ℕ)
      → IsPacket p
      → k < chunk_size p
      → (length (slice p 4 (chunk_size p)) ≡ chunk_size p)
        × (get_or (slice p 4 (chunk_size p)) k 0 ≡ at p (4 + k))
  chunk_kept p k v h = (
    length-slice p 4 (chunk_size p) (ground (arith, v.full)),
    get_or-slice p 4 (chunk_size p) k h,
  )

  -- The state after "set dynamic keymap buffer".
  pub keymap_byte-process :
      (now : ℕ) (p : Packet) (s : State S C) (j : ℕ)
      → IsConfig b.config
      → IsValid b.config s
      → IsPacket p
      → at p 0 ≡ 0x13
      → keymap_byte (process b now p s).2.keymap j
        ≡ overlay
            (keymap_bytes b.config)
            (chunk_offset p)
            (slice p 4 (chunk_size p))
            j
            (keymap_byte s.keymap j)
  unfolding command_of run_command keymap_bytes
  keymap_byte-process now p s j c v full e =
      ap (λ t. keymap_byte t.2.keymap j) (process-run_command now p s (ap command_of e))
      ∙ ap (λ t. keymap_byte t j) (keymap-store_keymap now p s)
      ∙ keymap_byte-write_dynamic_keymap (keymap_bytes b.config) (chunk_offset p)
          (slice p 4 (chunk_size p)) s.keymap false j v.keymap_range
          (Below-take 256 (chunk_size p) (drop 4 p) (Below-drop 256 4 p full.bytes))
          (ap (λ (t : ℕ). t * 2) v.keymap_size)

  -- The answer to "get dynamic keymap buffer".
  at-get_keymap_buffer :
      (now : ℕ) (q : Packet) (s : State S C) (k : ℕ)
      → IsPacket q
      → at q 0 ≡ 0x12
      → k < chunk_size q
      → at (process b now q s).1 (4 + k) ≡ (
          if leb (keymap_bytes b.config) (chunk_offset q + k)
          then 0
          else keymap_byte s.keymap (chunk_offset q + k))
  unfolding command_of run_command
  at-get_keymap_buffer now q s k full e h =
      let bytes = keymap_bytes b.config in
      let answer = read_dynamic_keymap bytes s.keymap (chunk_offset q) (chunk_size q) in
      let size : length answer ≡ chunk_size q =
        length-read_dynamic_keymap bytes s.keymap (chunk_offset q) (chunk_size q) in
      let inside : 4 + length answer ≤ length q = omega (arith, size, full.full, chunk_size-le q) in
      ap (λ t. at t.1 (4 + k)) (process-run_command now q s (ap command_of e))
      ∙ get_or-splice_inside q 4 answer k inside (rw size h)
      ∙ get_or-read_dynamic_keymap bytes s.keymap (chunk_offset q) (chunk_size q) k h

  -- For a configuration in range and a valid state: setting a chunk of the key map by a packet of
  -- 32 bytes and getting the same chunk back answers the bytes that were set where they lie inside
  -- the map, and zeros past its end.
  pub keymap_buffer_roundtrip :
      (now later : ℕ) (p q : Packet) (s : State S C) (k : ℕ)
      → IsConfig b.config
      → IsValid b.config s
      → IsPacket p
      → IsPacket q
      → at p 0 ≡ 0x13
      → at q 0 ≡ 0x12
      → at q 1 ≡ at p 1
      → at q 2 ≡ at p 2
      → at q 3 ≡ at p 3
      → k < chunk_size p
      → at (process b later q (process b now p s).2).1 (4 + k)
        ≡ (if ltb (chunk_offset p + k) (keymap_bytes b.config) then at p (4 + k) else 0)
  keymap_buffer_roundtrip now later p q s k c v pf qf pe qe e1 e2 e3 h =
      let off = chunk_offset p + k in
      let answered = at-get_keymap_buffer later q (process b now p s).2 k qf qe (rw e3 h) in
      let answer = rw (e1, e2) at answered in
      answer
      ∙ ground (
        arith,
        keymap_byte-process now p s off c v pf pe,
        chunk_kept p k pf h,
        ap (λ (t : ℕ). get_or (slice p 4 (chunk_size p)) t 0) (back (chunk_offset p) k),
      )
    where
      back : (m n : ℕ) → m + n - m ≡ n
      back m n = omega arith

  at-get_macro_buffer :
      (now : ℕ) (q : Packet) (s : State S C) (k : ℕ)
      → IsPacket q
      → at q 0 ≡ 0x0E
      → k < chunk_size q
      → at (process b now q s).1 (4 + k) ≡ (
          if ltb (chunk_offset q + k) b.config.macro_bytes
          then get_or s.macros (chunk_offset q + k) 0
          else 0)
  unfolding command_of run_command
  at-get_macro_buffer now q s k full e h =
      let bytes = b.config.macro_bytes in
      let answer = read_macros bytes s.macros (chunk_offset q) (chunk_size q) in
      let size : length answer ≡ chunk_size q =
        length-read_macros bytes s.macros (chunk_offset q) (chunk_size q) in
      let inside : 4 + length answer ≤ length q = omega (arith, size, full.full, chunk_size-le q) in
      ap (λ t. at t.1 (4 + k)) (process-run_command now q s (ap command_of e))
      ∙ get_or-splice_inside q 4 answer k inside (rw size h)
      ∙ get_or-read_macros bytes s.macros (chunk_offset q) (chunk_size q) k h

  -- Each macro byte after "set macro buffer".
  pub get_or-macros-process :
      (now : ℕ) (p : Packet) (s : State S C) (j : ℕ)
      → IsValid b.config s
      → at p 0 ≡ 0x0F
      → get_or (process b now p s).2.macros j 0
        ≡ overlay b.config.macro_bytes
            (chunk_offset p)
            (slice p 4 (chunk_size p))
            j
            (get_or s.macros j 0)
  unfolding command_of run_command
  get_or-macros-process now p s j v e =
      ap (λ t. get_or t.2.macros j 0) (process-run_command now p s (ap command_of e))
      ∙ ap (λ t. get_or t j 0) (macros-store_macros now p s)
      ∙ get_or-write_macros b.config.macro_bytes (chunk_offset p) (slice p 4 (chunk_size p))
          s.macros false j v.macro_size

  -- For a valid state and packets of 32 bytes: setting a chunk of the macro buffer and getting the
  -- same chunk back answers the bytes that were set where they lie inside the buffer, and zeros
  -- past its end.
  pub macro_buffer_roundtrip :
      (now later : ℕ) (p q : Packet) (s : State S C) (k : ℕ)
      → IsValid b.config s
      → IsPacket p
      → IsPacket q
      → at p 0 ≡ 0x0F
      → at q 0 ≡ 0x0E
      → at q 1 ≡ at p 1
      → at q 2 ≡ at p 2
      → at q 3 ≡ at p 3
      → k < chunk_size p
      → at (process b later q (process b now p s).2).1 (4 + k)
        ≡ (if ltb (chunk_offset p + k) b.config.macro_bytes then at p (4 + k) else 0)
  macro_buffer_roundtrip now later p q s k v pf qf pe qe e1 e2 e3 h =
      let off = chunk_offset p + k in
      let answered = at-get_macro_buffer later q (process b now p s).2 k qf qe (rw e3 h) in
      let answer = rw (e1, e2) at answered in
      answer
      ∙ ground (
        arith,
        get_or-macros-process now p s off v pe,
        chunk_kept p k pf h,
        ap (λ (t : ℕ). get_or (slice p 4 (chunk_size p)) t 0) (back (chunk_offset p) k),
      )
    where
      back : (m n : ℕ) → m + n - m ≡ n
      back m n = omega arith
