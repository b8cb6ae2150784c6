-- ===== src/Tests/Descriptors.antt =====
-- The descriptor tables of the STM32F1 agree with each other and with the reports of the device, and
-- that of the TinyUSB Raw HID interface with its packets.
use via_arduino.Base.{ℕ, none, ◌≡◌, refl, true, length, get_or, ◌*◌}
use via_arduino.Usb.Descriptors.{
  device_descriptor, config_descriptor, boot_keyboard_report_descriptor,
  via_raw_hid_report_descriptor, is_chain, total_length, report_bits,
}
use via_arduino.RawHid.{via_raw_hid_descriptor}
use via_arduino.Protocol.Packet.{packet_size}
use via_arduino.Usb.{new_device, keyboard_ep_in, via_ep_in, via_ep_out}

device_is_chain : is_chain 18 device_descriptor ≡ true
unfolding is_chain
device_is_chain = refl

config_is_chain : is_chain 66 config_descriptor ≡ true
unfolding is_chain
config_is_chain = refl

config_length : total_length config_descriptor ≡ length config_descriptor
config_length = refl

-- The lengths that the two HID descriptors name.
keyboard_length : get_or config_descriptor 25 0 ≡ length boot_keyboard_report_descriptor
keyboard_length = refl

raw_hid_length : get_or config_descriptor 50 0 ≡ length via_raw_hid_report_descriptor
raw_hid_length = refl

endpoints :
    (get_or config_descriptor 29 0 ≡ keyboard_ep_in)
    × (get_or config_descriptor 54 0 ≡ via_ep_in)
    × (get_or config_descriptor 61 0 ≡ via_ep_out)
endpoints = (refl, refl, refl)

-- A keyboard report is the buffer of the device, and the LEDs one byte.
keyboard_report :
    ((report_bits boot_keyboard_report_descriptor).input_bits
      ≡ 8 * length (new_device {U = ℕ} 0 none).kb_buf)
    × ((report_bits boot_keyboard_report_descriptor).output_bits ≡ 8)
unfolding report_bits new_device
keyboard_report = (refl, refl)

raw_hid_report :
    ((report_bits via_raw_hid_report_descriptor).input_bits
      ≡ 8 * length (new_device {U = ℕ} 0 none).via_in_buf)
    × ((report_bits via_raw_hid_report_descriptor).output_bits
        ≡ 8 * length (new_device {U = ℕ} 0 none).via_out_buf)
unfolding report_bits new_device
raw_hid_report = (refl, refl)

tiny_usb_report :
    ((report_bits via_raw_hid_descriptor).input_bits ≡ 8 * packet_size)
    × ((report_bits via_raw_hid_descriptor).output_bits ≡ 8 * packet_size)
unfolding report_bits
tiny_usb_report = (refl, refl)
