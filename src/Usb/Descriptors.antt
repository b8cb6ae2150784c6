-- ===== src/Usb/Descriptors.antt =====
-- src/VIA_STM32F1_USBDescriptor.h: the tables that the USB device shows the host, and what a host
-- reads in them.
use via_arduino.Base.{ℕ, suc, zero, ◌+◌, ◌*◌, ◌/◌, ◌%◌, List, [], ◌∷◌, ◌==◌, Bool, true, false}
use via_arduino.Base.{drop, length, get_or, if◌then◌else◌, leb, ◌&&◌, not}

-- kDeviceDescriptor
abbrev pub device_descriptor : List ℕ
device_descriptor =
    0x12 ∷ 0x01 ∷ 0x00 ∷ 0x02 ∷ 0x00 ∷ 0x00 ∷ 0x00 ∷ 0x08 ∷ 0xFE ∷ 0xCA ∷ 0x03 ∷ 0x40 ∷ 0x01 ∷ 0x00
    ∷ 0x00 ∷ 0x00 ∷ 0x00 ∷ 0x01 ∷ []

-- kConfigDescriptor
abbrev pub config_descriptor : List ℕ
config_descriptor =
    0x09 ∷ 0x02 ∷ 0x42 ∷ 0x00 ∷ 0x02 ∷ 0x01 ∷ 0x00 ∷ 0x80 ∷ 0x32 ∷ 0x09 ∷ 0x04 ∷ 0x00 ∷ 0x00 ∷ 0x01
    ∷ 0x03 ∷ 0x01 ∷ 0x01 ∷ 0x00 ∷ 0x09 ∷ 0x21 ∷ 0x10 ∷ 0x01 ∷ 0x00 ∷ 0x01 ∷ 0x22 ∷ 0x40 ∷ 0x00
    ∷ 0x07 ∷ 0x05 ∷ 0x81 ∷ 0x03 ∷ 0x08 ∷ 0x00 ∷ 0x01 ∷ 0x09 ∷ 0x04 ∷ 0x01 ∷ 0x00 ∷ 0x02 ∷ 0x03
    ∷ 0x00 ∷ 0x00 ∷ 0x00 ∷ 0x09 ∷ 0x21 ∷ 0x10 ∷ 0x01 ∷ 0x00 ∷ 0x01 ∷ 0x22 ∷ 0x1E ∷ 0x00 ∷ 0x07
    ∷ 0x05 ∷ 0x82 ∷ 0x03 ∷ 0x20 ∷ 0x00 ∷ 0x01 ∷ 0x07 ∷ 0x05 ∷ 0x02 ∷ 0x03 ∷ 0x20 ∷ 0x00 ∷ 0x01 ∷ []

-- kBootKeyboardReportDescriptor
abbrev pub boot_keyboard_report_descriptor : List ℕ
boot_keyboard_report_descriptor =
    0x05 ∷ 0x01 ∷ 0x09 ∷ 0x06 ∷ 0xA1 ∷ 0x01 ∷ 0x05 ∷ 0x07 ∷ 0x19 ∷ 0xE0 ∷ 0x29 ∷ 0xE7 ∷ 0x15 ∷ 0x00
    ∷ 0x25 ∷ 0x01 ∷ 0x95 ∷ 0x08 ∷ 0x75 ∷ 0x01 ∷ 0x81 ∷ 0x02 ∷ 0x95 ∷ 0x01 ∷ 0x75 ∷ 0x08 ∷ 0x81
    ∷ 0x01 ∷ 0x95 ∷ 0x06 ∷ 0x75 ∷ 0x08 ∷ 0x15 ∷ 0x00 ∷ 0x26 ∷ 0xA4 ∷ 0x00 ∷ 0x05 ∷ 0x07 ∷ 0x19
    ∷ 0x00 ∷ 0x29 ∷ 0xA4 ∷ 0x81 ∷ 0x00 ∷ 0x05 ∷ 0x08 ∷ 0x19 ∷ 0x01 ∷ 0x29 ∷ 0x05 ∷ 0x95 ∷ 0x05
    ∷ 0x75 ∷ 0x01 ∷ 0x91 ∷ 0x02 ∷ 0x95 ∷ 0x01 ∷ 0x75 ∷ 0x03 ∷ 0x91 ∷ 0x01 ∷ 0xC0 ∷ []

-- kViaRawHidReportDescriptor
abbrev pub via_raw_hid_report_descriptor : List ℕ
via_raw_hid_report_descriptor =
    0x06 ∷ 0x60 ∷ 0xFF ∷ 0x09 ∷ 0x61 ∷ 0xA1 ∷ 0x01 ∷ 0x15 ∷ 0x00 ∷ 0x26 ∷ 0xFF ∷ 0x00 ∷ 0x75 ∷ 0x08
    ∷ 0x95 ∷ 0x20 ∷ 0x81 ∷ 0x02 ∷ 0x15 ∷ 0x00 ∷ 0x26 ∷ 0xFF ∷ 0x00 ∷ 0x75 ∷ 0x08 ∷ 0x95 ∷ 0x20
    ∷ 0x91 ∷ 0x02 ∷ 0xC0 ∷ []

-- The length bytes of a chain of descriptors, each its own length first, lead exactly to its end.
-- Each round takes at least one byte, so as many rounds as bytes are enough.
unfoldable pub is_chain : ℕ → List ℕ → Bool
is_chain fuel [] = true
is_chain zero (size ∷ xs) = false
is_chain (suc fuel) (size ∷ xs) =
    let rest = is_chain fuel (drop size (size ∷ xs)) in
    not (size == 0) && (leb size (suc (length xs)) && rest)

-- wTotalLength of a configuration descriptor.
abbrev pub total_length : List ℕ → ℕ
total_length xs = get_or xs 2 0 + 256 * get_or xs 3 0

-- What is known after some items of a report descriptor: the size and the count that hold, and the
-- bits of the input and output reports so far.
pub record ReportBits : Type 0 where
  pub report_size : ℕ
  pub report_count : ℕ
  pub input_bits : ℕ
  pub output_bits : ℕ

-- The effect of a short item, with its tag and type in the upper six bits of its prefix: Report
-- Size, Report Count, Input, Output.
unfoldable pub read_item : ℕ → ℕ → ReportBits → ReportBits
read_item prefix value r =
    let tag = prefix / 4 in
    if tag == 0x74 / 4
    then record r { report_size = value }
    else if tag == 0x94 / 4
    then record r { report_count = value }
    else if tag == 0x80 / 4
    then record r { input_bits = r.input_bits + r.report_size * r.report_count }
    else if tag == 0x90 / 4
    then record r { output_bits = r.output_bits + r.report_size * r.report_count }
    else r

-- The items of a report descriptor. The lower two bits of a prefix say how many bytes of data
-- follow; the tables have no item of four.
unfoldable pub read_items : ℕ → List ℕ → ReportBits → ReportBits
unfolding read_item
read_items fuel [] r = r
read_items zero (prefix ∷ xs) r = r
read_items (suc fuel) (prefix ∷ xs) r =
    let data_bytes = prefix % 4 in
    let value = if data_bytes == 2 then get_or xs 0 0 + 256 * get_or xs 1 0 else get_or xs 0 0 in
    read_items fuel (drop data_bytes xs) (read_item prefix (if data_bytes == 0 then 0 else value) r)

-- The bits of the reports that a report descriptor describes.
unfoldable pub report_bits : List ℕ → ReportBits
unfolding read_items
report_bits xs =
    read_items (length xs) xs
      (record { report_size = 0; report_count = 0; input_bits = 0; output_bits = 0 })
