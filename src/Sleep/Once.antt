-- ===== src/Sleep/Once.antt =====
-- The sleep timer asks for sleep when the timeout is reached, and once for each rest.
use via_arduino.Base.{ℕ, ◌+◌, ◌≤◌, ◌<◌, ◌^◌, ◌≡◌, refl, ap, ◌∙◌, arith, true, false, List, [], ◌∷◌}
use via_arduino.Base.{leb, if◌then◌else◌, u32, Bool-cases, inl, inr}
use via_arduino.Sleep.{SleepMgr, update}

-- How often the timer asks for sleep in a run of updates without activity at these times, and the
-- timer after it.
unfoldable pub rest : List ℕ → SleepMgr → ℕ × SleepMgr
rest [] s = (0, s)
rest (now ∷ times) s =
    let (asked, s') = update false now s in
    let (more, s'') = rest times s' in ((if asked then 1 else 0) + more, s'')

-- Once asked for, sleep is not asked for again.
asked-idle : (now : ℕ) (s : SleepMgr) → s.sleep_requested ≡ true → update false now s ≡ (false, s)
unfolding update
asked-idle now s h = ground (arith, h)

asks-requested :
    (now : ℕ) (s : SleepMgr)
    → (update false now s).0 ≡ true
    → (update false now s).1.sleep_requested ≡ true
unfolding update
asks-requested now s h = ground arith

asked_once : (times : List ℕ) (s : SleepMgr) → s.sleep_requested ≡ true → (rest times s).0 ≡ 0
unfolding rest
asked_once [] s h = refl
asked_once (now ∷ times) s h =
    ap (λ u. (if u.0 then 1 else 0) + (rest times u.1).0) (asked-idle now s h)
    ∙ omega (arith, asked_once times s h)

-- Over any run of updates without activity, at any times, sleep is asked for at most once.
pub rest-at_most_once : (times : List ℕ) (s : SleepMgr) → (rest times s).0 ≤ 1
unfolding rest
rest-at_most_once [] s = omega arith
rest-at_most_once (now ∷ times) s =
    let after = (update false now s).1 in
    elim (Bool-cases (update false now s).0) [
      | inl asked ↦ ground (arith, asked, asked_once times after (asks-requested now s asked))
      | inr not_asked ↦ ground (arith, not_asked, rest-at_most_once times after)
    ]

-- The first update without activity, `passed` ms after the last activity, asks for sleep exactly if
-- the timeout has been reached, over any wrap of the 32-bit clock.
pub update-timeout :
    (t passed : ℕ) (s : SleepMgr)
    → passed < 2 ^ 32
    → (update false (u32 (t + passed)) (update true (u32 t) s).1).0 ≡ leb s.timeout_ms passed
unfolding update
update-timeout t passed s h = ground arith
