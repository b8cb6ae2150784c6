-- ===== src/RawHid/Delivery.antt =====
-- A report that arrives is delivered once, whole, and is not overwritten before that.
use via_arduino.Base.{
  ℕ, ◌≡◌, refl, arith, ap, ◌∙◌, true, false, ◌||◌, some, none, List, [], ◌∷◌, length,
}
use via_arduino.RawHid.{UsbHid, RawHid, any_active, receive, set_report, begin}

module _ {U : Type 0} (ops : UsbHid U) where
  -- Reports that arrive one after the other, by their bytes, each an output report without an ID.
  unfoldable pub arrive : List (List ℕ) → RawHid U → RawHid U
  arrive [] s = s
  arrive (report ∷ reports) s = arrive reports (set_report ops 0 0 report s)

  arrive-full : (reports : List (List ℕ)) (s : RawHid U) → s.rx_ready ≡ true → arrive reports s ≡ s
  unfolding arrive set_report
  arrive-full [] s h = refl
  arrive-full (report ∷ reports) s h =
      let same : set_report ops 0 0 report s ≡ s = ground (arith, h) in
      ap (arrive reports) same ∙ arrive-full reports s h

  -- With an active instance and the buffer free: of output reports that arrive one after the other,
  -- the first being of 32 bytes, the instance receives the first, whatever arrives after it, and
  -- receives it once.
  pub receive-arrive :
      (me : ℕ) (report : List ℕ) (reports : List (List ℕ)) (s : RawHid U)
      → s.active ≡ some me
      → s.rx_ready ≡ false
      → length report ≡ 32
      → let (packet, s') = receive ops me (arrive (report ∷ reports) s) in
        (packet ≡ some report) × ((receive ops me s').0 ≡ none)
  unfolding arrive set_report receive
  receive-arrive me report reports s mine free whole =
      let full = record s { rx = report; rx_ready = true } in
      let first : set_report ops 0 0 report s ≡ full = ground (arith, mine, free, whole) in
      let all : arrive (report ∷ reports) s ≡ full =
        ap (arrive reports) first ∙ arrive-full reports full refl in
      (
        ap (λ x. (receive ops me x).0) all ∙ ground (arith, mine),
        ap (λ x. (receive ops me (receive ops me x).1).0) all ∙ ground (arith, mine),
      )

  -- Only one attempt at begin() can succeed: once it was made, by any instance, begin() fails and
  -- changes nothing.
  pub begin-once :
      (me other : ℕ) (s : RawHid U)
      → let s' = (begin ops me s).1 in
        ((begin ops other s').0 ≡ false) × ((begin ops other s').1 ≡ s')
  unfolding begin
  begin-once me other s =
      let tried : (begin ops me s).1.begin_attempted || any_active (begin ops me s).1 ≡ true =
        ground arith in
      (ground (arith, tried), ground (arith, tried))
