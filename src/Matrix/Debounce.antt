-- ===== src/Matrix/Debounce.antt =====
-- A change of the switches is reported once it has lasted for the debounce time, and not before.
use via_arduino.Base.{ℕ, ◌+◌, ◌<◌, ◌^◌, ◌≡◌, refl, arith, ap, ◌∙◌, Bool, true, false, ◌||◌, ◌&&◌}
use via_arduino.Base.{List, [], ◌∷◌, leb, ◌==◌, if◌then◌else◌, u32, sub32, Bool-cases, inl, inr}
use via_arduino.Matrix.{Matrix, MatrixConfig, debounce, accept_candidate, rows_differ}

rows_differ_self : (xs : List ℕ) → rows_differ xs xs ≡ false
rows_differ_self [] = refl
rows_differ_self (x ∷ xs) = ground (arith, rows_differ_self xs)

-- The switches read `raw` at time `t` for the first time; the scans at these delays after it read the same.
unfoldable pub hold : MatrixConfig → List ℕ → ℕ → List ℕ → Matrix → Matrix
hold config raw t [] s = s
hold config raw t (passed ∷ delays) s =
    hold config raw t delays (debounce config (u32 (t + passed)) raw s)

-- Whether one of the delays reaches the debounce time.
abbrev pub reaches : ℕ → List ℕ → Bool
reaches n [] = false
reaches n (d ∷ delays) = leb n d || reaches n delays

abbrev pub AllBelow : ℕ → List ℕ → Type 0
AllBelow n [] = Unit {0}
AllBelow n (d ∷ delays) = (d < n) × AllBelow n delays

debounce-quiet :
    (config : MatrixConfig) (raw : List ℕ) (ms : ℕ) (s : Matrix)
    → s.prev_raw ≡ raw
    → debounce config ms raw s ≡ (
        if s.debounce_pending && leb config.debounce_ms (sub32 ms s.last_raw_change_ts)
        then accept_candidate (record s { raw_rows = raw })
        else record s { raw_rows = raw })
unfolding debounce
debounce-quiet config raw ms s same =
    ground (arith, ap (rows_differ raw) same ∙ rows_differ_self raw)

settled_lem :
    (config : MatrixConfig) (raw : List ℕ) (t : ℕ) (delays : List ℕ) (s : Matrix)
    → s.prev_raw ≡ raw
    → s.debounce_pending ≡ false
    → (hold config raw t delays s).stable_rows ≡ s.stable_rows
unfolding hold
settled_lem config raw t [] s same clear = refl
settled_lem config raw t (d ∷ delays) s same clear =
    let step : debounce config (u32 (t + d)) raw s ≡ record s { raw_rows = raw } =
      ground (arith, debounce-quiet config raw (u32 (t + d)) s same, clear) in
    ap (λ x. (hold config raw t delays x).stable_rows) step
    ∙ settled_lem config raw t delays (record s { raw_rows = raw }) same clear

waiting_lem :
    (config : MatrixConfig) (raw : List ℕ) (t : ℕ) (delays : List ℕ) (s : Matrix)
    → s.prev_raw ≡ raw
    → s.candidate_rows ≡ raw
    → s.debounce_pending ≡ true
    → s.last_raw_change_ts ≡ u32 t
    → AllBelow (2 ^ 32) delays
    → (hold config raw t delays s).stable_rows
      ≡ (if reaches config.debounce_ms delays then raw else s.stable_rows)
unfolding hold accept_candidate
waiting_lem config raw t [] s same candidate pending since bounds = refl
waiting_lem config raw t (d ∷ delays) s same candidate pending since bounds =
    let quiet = record s { raw_rows = raw } in
    let elapsed : sub32 (u32 (t + d)) s.last_raw_change_ts ≡ d = omega (arith, since, bounds.0) in
    let step : debounce config (u32 (t + d)) raw s
        ≡ (if leb config.debounce_ms d then accept_candidate quiet else quiet) =
      debounce-quiet config raw (u32 (t + d)) s same
      ∙ ap (λ c. if c then accept_candidate quiet else quiet)
          (ap (λ c. c && leb config.debounce_ms (sub32 (u32 (t + d)) s.last_raw_change_ts)) pending
            ∙ ap (leb config.debounce_ms) elapsed) in
    elim (Bool-cases (leb config.debounce_ms d)) [
      | inl due ↦
          ap (λ x. (hold config raw t delays x).stable_rows)
            (step ∙ ap (λ c. if c then accept_candidate quiet else quiet) due)
          ∙ settled_lem config raw t delays (accept_candidate quiet) same refl
          ∙ ground (arith, candidate, due)
      | inr early ↦
          ap (λ x. (hold config raw t delays x).stable_rows)
            (step ∙ ap (λ c. if c then accept_candidate quiet else quiet) early)
          ∙ waiting_lem config raw t delays quiet same candidate pending since bounds.1
          ∙ ground (arith, early)
    ]

-- With debounceMs not 0: when the switches change to `raw` at time `t` and every later scan reads
-- `raw`, the stable rows become `raw` with the first scan that comes debounceMs or more after the
-- change, and are the rows from before it until then; the scans come within 2^32 ms, over any wrap
-- of the clock.
pub debounce-hold :
    (config : MatrixConfig) (raw : List ℕ) (t : ℕ) (delays : List ℕ) (s : Matrix)
    → rows_differ raw s.prev_raw ≡ true
    → (config.debounce_ms == 0) ≡ false
    → AllBelow (2 ^ 32) delays
    → (hold config raw t delays (debounce config (u32 t) raw s)).stable_rows
      ≡ (if reaches config.debounce_ms delays then raw else s.stable_rows)
unfolding debounce
debounce-hold config raw t delays s moved slow bounds =
    let after = record s {
      raw_rows = raw;
      candidate_rows = raw;
      prev_raw = raw;
      last_raw_change_ts = u32 t;
      debounce_pending = true;
    } in
    let step : debounce config (u32 t) raw s ≡ after = ground (arith, moved, slow) in
    ap (λ x. (hold config raw t delays x).stable_rows) step
    ∙ waiting_lem config raw t delays after refl refl refl refl bounds
