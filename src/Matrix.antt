-- ===== src/Matrix.antt =====
-- src/VIA_Matrix.h and src/VIA_Matrix.cpp: the scan and the debouncing of the switch matrix.
pub mod Debounce
use via_arduino.Base.{ℕ, zero, suc, ◌+◌, ◌-◌, Bool, true, false, not, ◌&&◌, ◌||◌, List, [], ◌∷◌}
use via_arduino.Base.{get_or, set, replicate, leb, ltb, ◌==◌, if◌then◌else◌, sub32, length}
use via_arduino.Base.{bit_or, bit_xor, ◌<<<◌}

abbrev pub Pin : Type 0
Pin = ℕ

-- class MatrixIO: every call may change the hardware, and a read answers the level.
pub record MatrixIo (M : Type 0) : Type 0 where
  pub input_pullup : Pin → M → M
  pub drive_low : Pin → M → M
  pub release : Pin → M → M
  pub read : Pin → M → Bool × M
  pub delay_microseconds : ℕ → M → M

pub data DiodeDirection : Type 0 where
  col_to_row row_to_col : DiodeDirection

-- The constant part of MatrixConfig; `rows` and `columns` are the numbers of the pins.
pub record MatrixConfig : Type 0 where
  pub row_pins : List Pin
  pub column_pins : List Pin
  pub direction : DiodeDirection
  pub settle_us : ℕ
  pub debounce_ms : ℕ

-- The members of Matrix with the arrays behind the pointers of its config, `rows` words each. The
-- source keeps prevRaw_ in 8 words, so it has at most 8 rows.
pub record Matrix : Type 0 where
  pub raw_rows : List ℕ
  pub candidate_rows : List ℕ
  pub stable_rows : List ℕ
  pub changed_rows : List ℕ
  pub prev_raw : List ℕ
  pub last_raw_change_ts : ℕ
  pub debounce_pending : Bool

module _ {M : Type 0} (io : MatrixIo M) (config : MatrixConfig) where
  -- The reads of one driven row, from column c on; a low level is a closed switch.
  unfoldable pub read_columns : List Pin → ℕ → ℕ × M → ℕ × M
  read_columns [] c acc = acc
  read_columns (pin ∷ pins) c (row_val, m) =
      let (level, m') = io.read pin m in
      read_columns pins (c + 1) (if not level then bit_or row_val (1 <<< c) else row_val, m')

  -- The loop over the rows for kColToRow: the words of the rows.
  unfoldable pub scan_rows : List Pin → M → List ℕ × M
  unfolding read_columns
  scan_rows [] m = ([], m)
  scan_rows (pin ∷ pins) m =
      let driven = io.delay_microseconds config.settle_us (io.drive_low pin m) in
      let (row_val, m') = read_columns config.column_pins 0 (0, driven) in
      let (rest, m'') = scan_rows pins (io.release pin m') in (row_val ∷ rest, m'')

  -- The reads of the rows while column c is driven.
  unfoldable pub read_rows : List Pin → ℕ → List ℕ → M → List ℕ × M
  read_rows [] c raw m = (raw, m)
  read_rows (pin ∷ pins) c [] m = ([], m)
  read_rows (pin ∷ pins) c (word ∷ raw) m =
      let (level, m') = io.read pin m in
      let (rest, m'') = read_rows pins c raw m' in
      ((if not level then bit_or word (1 <<< c) else word) ∷ rest, m'')

  -- The loop over the columns for kRowToCol, from column c on.
  unfoldable pub scan_columns : List Pin → ℕ → List ℕ → M → List ℕ × M
  unfolding read_rows
  scan_columns [] c raw m = (raw, m)
  scan_columns (pin ∷ pins) c raw m =
      let driven = io.delay_microseconds config.settle_us (io.drive_low pin m) in
      let (raw', m') = read_rows config.row_pins c raw driven in
      scan_columns pins (c + 1) raw' (io.release pin m')

  abbrev pull_up : List Pin → M → M
  pull_up [] m = m
  pull_up (pin ∷ pins) m = pull_up pins (io.input_pullup pin m)

  abbrev release_all : List Pin → M → M
  release_all [] m = m
  release_all (pin ∷ pins) m = release_all pins (io.release pin m)

  unfoldable pub scan : M → List ℕ × M
  unfolding scan_rows scan_columns
  scan m = elim config.direction [
    | col_to_row ↦ scan_rows config.row_pins m
    | row_to_col ↦
        scan_columns config.column_pins 0 (replicate (length config.row_pins) 0)
          (release_all config.column_pins (pull_up config.row_pins m))
  ]

-- Whether some word differs.
abbrev pub rows_differ : List ℕ → List ℕ → Bool
rows_differ [] ys = false
rows_differ (x ∷ xs) [] = false
rows_differ (x ∷ xs) (y ∷ ys) = not (x == y) || rows_differ xs ys

abbrev pub xor_rows : List ℕ → List ℕ → List ℕ
xor_rows [] ys = []
xor_rows (x ∷ xs) [] = []
xor_rows (x ∷ xs) (y ∷ ys) = bit_xor x y ∷ xor_rows xs ys

-- The loop that makes the candidate rows the stable ones.
unfoldable pub accept_candidate : Matrix → Matrix
accept_candidate s = record s {
  stable_rows = s.candidate_rows;
  changed_rows = xor_rows s.stable_rows s.candidate_rows;
  debounce_pending = false;
}

-- task() after the scan.
unfoldable pub debounce : MatrixConfig → ℕ → List ℕ → Matrix → Matrix
unfolding accept_candidate
debounce config ms raw s =
    let moved = record s {
      raw_rows = raw;
      candidate_rows = raw;
      prev_raw = raw;
      last_raw_change_ts = ms;
      debounce_pending = true;
    } in
    let scanned = record s { raw_rows = raw } in
    if rows_differ raw s.prev_raw
    then (if config.debounce_ms == 0 then accept_candidate moved else moved)
    else if s.debounce_pending && leb config.debounce_ms (sub32 ms s.last_raw_change_ts)
    then accept_candidate scanned
    else scanned

unfoldable pub task : {M : Type 0} → MatrixIo M → MatrixConfig → ℕ → Matrix × M → Matrix × M
unfolding scan debounce
task io config ms (s, m) = let (raw, m') = scan io config m in (debounce config ms raw s, m')

-- The bit r of the result is set if word r is not 0.
unfoldable pub nonzero_rows : ℕ → List ℕ → ℕ
nonzero_rows r [] = 0
nonzero_rows r (x ∷ xs) =
    let rest = nonzero_rows (r + 1) xs in if x == 0 then rest else bit_or rest (1 <<< r)

abbrev pub some_changed : List ℕ → Bool
some_changed [] = false
some_changed (x ∷ xs) = not (x == 0) || some_changed xs

unfoldable pub has_changed : Matrix → Bool × Matrix
has_changed s =
    if some_changed s.changed_rows
    then (true, record s { changed_rows = replicate (length s.changed_rows) 0 })
    else (false, s)

unfoldable pub next_scan : MatrixConfig → ℕ → Matrix → ℕ
next_scan config now s =
    let elapsed = sub32 now s.last_raw_change_ts in
    if not s.debounce_pending
    then 0
    else if ltb elapsed config.debounce_ms
    then config.debounce_ms - elapsed
    else 0
