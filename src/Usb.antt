-- ===== src/Usb.antt =====
-- src/VIA_STM32F1_USB.h and src/VIA_STM32F1_USB.cpp: the composite USB device of the STM32F1, a
-- keyboard and a VIA interface.
pub mod Flow
pub mod Descriptors
use via_arduino.Base.{
  ℕ, Bool, true, false, not, ◌&&◌, ◌||◌, Option, none, some, List, [], ◌∷◌, ◌++◌,
}
use via_arduino.Base.{length, ◌==◌, if◌then◌else◌, bit_and, replicate, splice, take, get_or}
use via_arduino.Protocol.Packet.{Packet, packet_size}
use via_arduino.Keyboard.Report.{KeyboardReport}

-- kKeyboardEpIn, kViaEpIn, kViaEpOut
abbrev pub keyboard_ep_in : ℕ
keyboard_ep_in = 0x81

abbrev pub via_ep_in : ℕ
via_ep_in = 0x82

abbrev pub via_ep_out : ℕ
via_ep_out = 0x02

-- The USB device library: USBD_Init and USBD_Start, USBD_LL_Transmit to an endpoint,
-- USBD_LL_PrepareReceive of the VIA endpoint, USBD_CtlSendData, and USBD_CtlReceiveData of the LED
-- byte.
pub record UsbDriver (U : Type 0) : Type 0 where
  pub init : U → Bool × U
  pub start : U → Bool × U
  pub transmit : ℕ → List ℕ → U → Bool × U
  pub prepare_receive : U → U
  pub send_control : List ℕ → U → U
  pub receive_control : U → U

-- The members of one UsbDevice, named by a number, and the static active_, none for nullptr.
pub record UsbDevice (U : Type 0) : Type 0 where
  pub usb : U
  pub active : Option ℕ
  pub configured : Bool
  pub suspended : Bool
  pub kb_buf : List ℕ
  pub kb_tx_busy : Bool
  pub via_in_buf : Packet
  pub via_tx_busy : Bool
  pub via_out_buf : Packet
  pub via_rx_ready : Bool
  pub led_buf : ℕ
  pub led_ready : Bool

-- USBD_SetupReqTypedef
pub record SetupRequest : Type 0 where
  pub bm_request : ℕ
  pub b_request : ℕ
  pub w_value : ℕ
  pub w_length : ℕ

unfoldable pub new_device : {U : Type 0} → U → Option ℕ → UsbDevice U
new_device usb active = record {
  usb = usb;
  active = active;
  configured = false;
  suspended = false;
  kb_buf = replicate 8 0;
  kb_tx_busy = false;
  via_in_buf = replicate packet_size 0;
  via_tx_busy = false;
  via_out_buf = replicate packet_size 0;
  via_rx_ready = false;
  led_buf = 0;
  led_ready = false;
}

abbrev pub any_active : {U : Type 0} → UsbDevice U → Bool
any_active s = elim s.active [ none ↦ false | some _ ↦ true ]

abbrev pub is_active : {U : Type 0} → ℕ → UsbDevice U → Bool
is_active me s = elim s.active [ none ↦ false | some other ↦ other == me ]

module _ {U : Type 0} (ops : UsbDriver U) where
  -- ~UsbDevice
  unfoldable pub destroy : ℕ → UsbDevice U → UsbDevice U
  destroy me s = if is_active me s then record s { active = none } else s

  -- The callbacks of the class, which act on the active device; the flag is USBD_OK.
  unfoldable pub class_init : UsbDevice U → Bool × UsbDevice U
  class_init s =
      if any_active s
      then (
        true,
        record s { usb = ops.prepare_receive s.usb; configured = true; suspended = false },
      )
      else (false, s)

  unfoldable pub class_de_init : UsbDevice U → Bool × UsbDevice U
  class_de_init s = if any_active s then (true, record s { configured = false }) else (false, s)

  -- (req->bmRequest & 0x7F) == 0x21 && req->bRequest == code
  abbrev pub is_request : ℕ → SetupRequest → Bool
  is_request code r = bit_and r.bm_request 0x7F == 0x21 && r.b_request == code

  unfoldable pub class_setup : SetupRequest → UsbDevice U → Bool × UsbDevice U
  class_setup r s =
      if not (any_active s)
      then (false, s)
      else if is_request 0x09 r && (r.w_value == 0x0200 && r.w_length == 1)
      then (true, record s { usb = ops.receive_control s.usb })
      else if is_request 0x0A r
      then (true, record s { usb = ops.send_control [] s.usb })
      else if is_request 0x0B r
      then (true, record s { usb = ops.send_control (1 ∷ []) s.usb })
      else (true, s)

  unfoldable pub ep0_rx_ready : UsbDevice U → Bool × UsbDevice U
  ep0_rx_ready s = if any_active s then (true, record s { led_ready = true }) else (false, s)

  unfoldable pub data_in : ℕ → UsbDevice U → Bool × UsbDevice U
  data_in endpoint s =
      if not (any_active s)
      then (false, s)
      else if endpoint == bit_and keyboard_ep_in 0x7F
      then (true, record s { kb_tx_busy = false })
      else if endpoint == bit_and via_ep_in 0x7F
      then (true, record s { via_tx_busy = false })
      else (true, s)

  unfoldable pub data_out : ℕ → UsbDevice U → Bool × UsbDevice U
  data_out endpoint s =
      let s' =
        if endpoint == bit_and via_ep_out 0x7F then record s { via_rx_ready = true } else s in
      if not (any_active s)
      then (false, s)
      else (true, record s' { usb = ops.prepare_receive s'.usb })

  unfoldable pub begin : ℕ → UsbDevice U → Bool × UsbDevice U
  begin me s =
      let (inited, usb) = ops.init s.usb in
      let (started, usb') = ops.start usb in
      if any_active s
      then (false, s)
      else if not inited
      then (false, record s { usb = usb })
      else if not started
      then (false, record s { usb = usb' })
      else (true, record s { usb = usb'; active = some me })

  -- send of a KeyboardReport, whose reserved byte is always 0
  unfoldable pub send_report : ℕ → KeyboardReport → UsbDevice U → Bool × UsbDevice U
  send_report me r s =
      let bytes = r.modifiers ∷ 0 ∷ take 6 r.keys in
      let (sent, usb) = ops.transmit keyboard_ep_in bytes s.usb in
      let s' = record s { kb_buf = bytes; usb = usb } in
      if not (is_active me s) || (not s.configured || s.kb_tx_busy)
      then (false, s)
      else if not sent
      then (false, s')
      else (true, record s' { kb_tx_busy = true })

  unfoldable pub send_complete : ℕ → UsbDevice U → Bool
  send_complete me s = is_active me s && (not s.kb_tx_busy && not s.via_tx_busy)

  unfoldable pub take_host_leds : ℕ → UsbDevice U → Option ℕ × UsbDevice U
  take_host_leds me s =
      if not (is_active me s) || not s.led_ready
      then (none, s)
      else (some s.led_buf, record s { led_ready = false })

  unfoldable pub remote_wakeup : UsbDevice U → Bool
  remote_wakeup s = false

  unfoldable pub receive : ℕ → UsbDevice U → Option Packet × UsbDevice U
  receive me s =
      if not (is_active me s) || not s.via_rx_ready
      then (none, s)
      else (some s.via_out_buf, record s { via_rx_ready = false })

  -- send of a packet
  unfoldable pub send_packet : ℕ → Packet → UsbDevice U → Bool × UsbDevice U
  send_packet me packet s =
      let (sent, usb) = ops.transmit via_ep_in packet s.usb in
      let s' = record s { via_in_buf = packet; usb = usb } in
      if not (is_active me s) || (not s.configured || s.via_tx_busy)
      then (false, s)
      else if not sent
      then (false, s')
      else (true, record s' { via_tx_busy = true })
