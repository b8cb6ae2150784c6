-- ===== src/Usb/Flow.antt =====
-- What the flags of UsbDevice keep to: one transfer in flight on each endpoint, and the last packet
-- that arrived.
use via_arduino.Base.{
  ℕ, ◌+◌, ◌≤◌, ◌≡◌, refl, arith, ap, ◌∙◌, Bool, some, none, List, [], ◌∷◌, ◌++◌, true,
  if◌then◌else◌, ◌==◌,
}
use via_arduino.Protocol.Packet.{Packet}
use via_arduino.Keyboard.Report.{KeyboardReport}
use via_arduino.Usb.{UsbDriver, UsbDevice, class_init, class_de_init, class_setup, ep0_rx_ready}
use via_arduino.Usb.{data_in, data_out, send_report, send_packet, receive, take_host_leds}
use via_arduino.Usb.{SetupRequest, via_ep_out}

-- What happens to the device `me`: calls of its methods and of the callbacks.
pub data Event : Type 0 where
  init de_init control_done poll leds : Event
  setup : SetupRequest → Event
  complete arrived : ℕ → Event
  report : KeyboardReport → Event
  packet : Packet → Event

-- How many of the transfers were accepted, and how many completed, on the two IN endpoints.
pub record Counts : Type 0 where
  pub reports : ℕ
  pub packets : ℕ
  pub reports_done : ℕ
  pub packets_done : ℕ

abbrev pub no_transfers : Counts
no_transfers = record { reports = 0; packets = 0; reports_done = 0; packets_done = 0 }

abbrev pub tally : Bool → ℕ → ℕ
tally counted n = if counted then n + 1 else n

module _ {U : Type 0} (ops : UsbDriver U) (me : ℕ) where
  abbrev pub apply : Event → Counts × UsbDevice U → Counts × UsbDevice U
  apply init (c, s) = (c, (class_init ops s).1)
  apply de_init (c, s) = (c, (class_de_init ops s).1)
  apply control_done (c, s) = (c, (ep0_rx_ready ops s).1)
  apply poll (c, s) = (c, (receive ops me s).1)
  apply leds (c, s) = (c, (take_host_leds ops me s).1)
  apply (setup r) (c, s) = (c, (class_setup ops r s).1)
  apply (arrived endpoint) (c, s) = (c, (data_out ops endpoint s).1)
  apply (complete endpoint) (c, s) = (
    record c {
      reports_done = tally (endpoint == 1) c.reports_done;
      packets_done = tally (endpoint == 2) c.packets_done;
    },
    (data_in ops endpoint s).1,
  )
  apply (report r) (c, s) =
      let (sent, s') = send_report ops me r s in (record c { reports = tally sent c.reports }, s')
  apply (packet p) (c, s) =
      let (sent, s') = send_packet ops me p s in (record c { packets = tally sent c.packets }, s')

  abbrev pub run : List Event → Counts × UsbDevice U → Counts × UsbDevice U
  run [] x = x
  run (e ∷ es) x = run es (apply e x)

  -- The transfers that an endpoint has room for.
  abbrev pub free : Bool → ℕ
  free busy = if busy then 0 else 1

  pub record Bounded (x : Counts × UsbDevice U) : Type 0 where
    pub reports_bounded : x.0.reports + free x.1.kb_tx_busy ≤ x.0.reports_done + 1
    pub packets_bounded : x.0.packets + free x.1.via_tx_busy ≤ x.0.packets_done + 1

  apply-Bounded : (e : Event) (x : Counts × UsbDevice U) → Bounded x → Bounded (apply e x)
  unfolding class_init class_de_init class_setup ep0_rx_ready data_in data_out send_report
      send_packet receive take_host_leds
  apply-Bounded init (c, s) h = ground arith
  apply-Bounded de_init (c, s) h = ground arith
  apply-Bounded control_done (c, s) h = ground arith
  apply-Bounded poll (c, s) h = ground arith
  apply-Bounded leds (c, s) h = ground arith
  apply-Bounded (setup r) (c, s) h = ground arith
  apply-Bounded (arrived endpoint) (c, s) h = ground arith
  apply-Bounded (complete endpoint) (c, s) h = ground arith
  apply-Bounded (report r) (c, s) h = ground arith
  apply-Bounded (packet p) (c, s) h = ground arith

  run-Bounded : (es : List Event) (x : Counts × UsbDevice U) → Bounded x → Bounded (run es x)
  run-Bounded [] x h = h
  run-Bounded (e ∷ es) x h = run-Bounded es (apply e x) (apply-Bounded e x h)

  -- Whatever calls and callbacks follow one another, from any state of the device: on each of the
  -- two IN endpoints, send has accepted at most one transfer more than the host has completed since,
  -- and no more than it has completed where the endpoint is not busy.
  pub run-one_in_flight :
      (es : List Event) (s : UsbDevice U)
      → let (c, s') = run es (no_transfers, s) in
        (c.reports + free s'.kb_tx_busy ≤ c.reports_done + 1)
        × (c.packets + free s'.via_tx_busy ≤ c.packets_done + 1)
  run-one_in_flight es s =
      let h =
        run-Bounded es (no_transfers, s)
          (record { reports_bounded = ground arith; packets_bounded = ground arith }) in
      (h.reports_bounded, h.packets_bounded)

-- The VIA OUT endpoint: `armed` says whether it is prepared to receive, `consume` is what the
-- hardware does to it when a packet comes in. USBD_LL_PrepareReceive prepares it.
module _ {U : Type 0} (ops : UsbDriver U) (me : ℕ) (armed : U → Bool) (consume : U → U)
    (prepares : (u : U) → armed (ops.prepare_receive u) ≡ true) where
  -- The host sends a packet. An endpoint that is prepared stores it in the buffer and calls
  -- dataOut; one that is not refuses it.
  unfoldable pub arrive : Packet → UsbDevice U → UsbDevice U
  arrive p s =
      if armed s.usb
      then (data_out ops via_ep_out (record s { via_out_buf = p; usb = consume s.usb })).1
      else s

  unfoldable pub arrive_all : List Packet → UsbDevice U → UsbDevice U
  arrive_all [] s = s
  arrive_all (p ∷ ps) s = arrive_all ps (arrive p s)

  -- On the active device, dataOut leaves the endpoint prepared.
  arrive-Open :
      (p : Packet) (s : UsbDevice U)
      → s.active ≡ some me
      → armed s.usb ≡ true
      → ((arrive p s).active ≡ some me) × (armed (arrive p s).usb ≡ true)
  unfolding arrive data_out
  arrive-Open p s mine prepared = ground (arith, mine, prepared, prepares (consume s.usb))

  arrive_all-Open :
      (ps : List Packet) (s : UsbDevice U)
      → s.active ≡ some me
      → armed s.usb ≡ true
      → ((arrive_all ps s).active ≡ some me) × (armed (arrive_all ps s).usb ≡ true)
  unfolding arrive_all
  arrive_all-Open [] s mine prepared = (mine, prepared)
  arrive_all-Open (p ∷ ps) s mine prepared =
      let (mine', prepared') = arrive-Open p s mine prepared in
      arrive_all-Open ps (arrive p s) mine' prepared'

  arrive_all-last :
      (ps : List Packet) (p : Packet) (s : UsbDevice U)
      → arrive_all (ps ++ p ∷ []) s ≡ arrive p (arrive_all ps s)
  unfolding arrive_all
  arrive_all-last [] p s = refl
  arrive_all-last (q ∷ ps) p s = arrive_all-last ps p (arrive q s)

  -- On the active device, with the OUT endpoint prepared, where an endpoint takes a packet only if
  -- it is prepared and USBD_LL_PrepareReceive prepares it: of the packets that the host sends
  -- between two calls of receive, the next call gives the last one, and gives it once; those before
  -- it are lost.
  pub receive-arrive_all :
      (ps : List Packet) (p : Packet) (s : UsbDevice U)
      → s.active ≡ some me
      → armed s.usb ≡ true
      → let (got, s') = receive ops me (arrive_all (ps ++ p ∷ []) s) in
        (got ≡ some p) × ((receive ops me s').0 ≡ none)
  unfolding receive data_out arrive
  receive-arrive_all ps p s mine prepared =
      let (still, ready) = arrive_all-Open ps s mine prepared in
      let last = arrive_all-last ps p s in
      (
        ap (λ x. (receive ops me x).0) last ∙ ground (arith, still, ready),
        ap (λ x. (receive ops me (receive ops me x).1).0) last ∙ ground (arith, still, ready),
      )
