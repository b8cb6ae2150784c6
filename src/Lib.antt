-- ===== src/Lib.antt =====
-- VIA for Arduino: the firmware core that lets the VIA configurator edit a keyboard, with its
-- keyboard scanner, storages and transports.
--
-- The parts and how they interact. Protocol (src/VIA_Protocol.h, src/VIA_Protocol.cpp) answers
-- 32-byte packets that a Transport delivers, edits the key map, the encoder map and the macros that
-- its Config points to, saves them through a Storage with the state of a CustomValue, and tells a
-- Callbacks object. Keyboard (src/VIA_Keyboard.cpp) reads the debounced Matrix, looks the keys up
-- in the Protocol's key map through LayerState, and sends reports through a KeyboardHID.
--
-- Base holds the shared helpers: C arrays as lists, the casts and shifts of fixed-width words, and
-- the laws of bit operations. A method that changes an object is a function from the state before it
-- to its result and the state after it; a C++ interface is a record of such functions; a callback is
-- an entry of a log; nullptr is none, or the address 0 in Config.
--   Crc: crc32Update.
--   Protocol.Config, Protocol.Sizes: Config, stateBytes, loadBufferValid and rangesOverlap.
--   Protocol.Board: Storage, CustomValue, Callbacks and the members of Protocol.
--   Protocol.Valid, Protocol.Contract: the sizes and ranges of those members, and the documented
--     contracts of Storage and CustomValue (docs/PORTING.md). Protocol.Inside: the memory behind the
--     arrays, which makes a write past their end visible.
--   Protocol.Keymap: the accessors, the bulk buffers, markDirty and resetBuffers.
--   Protocol.Persist: save, load, writeState and stateCrc. Protocol.Reset: factoryReset.
--   Protocol.Packet, Protocol.Process: the packets and their commands, and process, one function
--     for each command. Protocol.Task: begin and task, with
--     runs of task in Protocol.Task.Delivery.
--   Memory: src/VIA_Memory.h. RgbLight: src/VIA_RGBLight.cpp.
--   Keycodes: src/VIA_Keycodes.h. Layers: LayerState of src/VIA_Keyboard.h.
--   Matrix: src/VIA_Matrix.cpp. Keyboard: src/VIA_Keyboard.cpp, with its report in Keyboard.Report
--     and the passes over the changed keys in Keyboard.Pass.
--   Encoder, Sleep, Battery: src/VIA_Encoder.h, src/VIA_SleepMgr.h, src/VIA_Battery.h.
--   Flash: src/VIA_STM32F1_Flash.cpp. Nvs: src/VIA_ESP32_NVS.h. Eeprom: src/VIA_EEPROMStorage.h.
--   InternalFs: src/VIA_nRF52_InternalFS.cpp, with the contract of the file system in
--     InternalFs.Files (FILE_O_WRITE keeps a file and writes behind it) and what it means that the
--     files hold a payload in InternalFs.Current.
--   RawHid, UsbKeyboard: src/VIA_TinyUSB_RawHID.cpp and src/VIA_TinyUSB_Keyboard.cpp.
--   Usb: src/VIA_STM32F1_USB.cpp, with the tables of src/VIA_STM32F1_USBDescriptor.h in
--     Usb.Descriptors. Boot: src/VIA_STM32F1_Boot.cpp.
--   Ble.Nrf52, Ble.Esp32: src/VIA_nRF52_BLE_ViaTransport.cpp and src/VIA_ESP32_BLE_ViaTransport.cpp,
--     whose request buffers are the mailbox of Ble.Mailbox, with the keyboards of src/VIA_nRF52_BLE.h
--     and src/VIA_ESP32_BLE.h in their children Hid.
--   Gpio: src/VIA_nRF52_GPIO.h, src/VIA_ESP32_GPIO.h, src/VIA_ESP32S3_GPIO.h and
--     src/VIA_STM32F1_GPIO.h.
--   Tests: a small keyboard and the theorems at concrete inputs.
--
-- Bounds. Arithmetic on uint8_t, uint16_t and uint32_t is written with its wrap; memory is that of
-- a little-endian processor, which all supported boards have. Loops are recursions on a list or on
-- the number of their rounds. Three things run on fuel: InternalFs.read_crc on the number of bytes
-- that remain, which is enough since each round reads at least one; the two delays of Gpio, which
-- no fuel is enough for; and the readers of Usb.Descriptors, on the number of bytes. The loop of
-- Keyboard::task over takeHostLeds is a recursion on the values handed out. The matrix has at most
-- 8 rows and 32 columns, since the source keeps 8 words of 32 bits. A write past the end of a list
-- changes nothing, so a property that the C++ would break by such a write is stated over longer
-- lists, whose rest stands for the memory behind the array.
--
-- Preferences, the EEPROM and the file system objects, the TinyUSB, STM32 USB, Bluefruit and NimBLE
-- stacks, the pin functions and the flash driver are parameters, with what is relied on of them as
-- named hypotheses. What xSemaphoreTake returns is an argument. Callbacks that run in another task
-- are steps of their own between those of the protocol: each is short and holds the mutex.
--
-- Not modelled: the descriptor table of the TinyUSB keyboard, which a macro of that library builds;
-- the pin calls of the ESP32-S3 and STM32F1 adapters, which have no delay that returns; the
-- examples and the tests.
pub mod Base
pub mod Crc
pub mod Protocol
pub mod Memory
pub mod RgbLight
pub mod Keycodes
pub mod Layers
pub mod Sleep
pub mod Encoder
pub mod Battery
pub mod Matrix
pub mod Gpio
pub mod Keyboard
pub mod Flash
pub mod InternalFs
pub mod Nvs
pub mod RawHid
pub mod Ble
pub mod Usb
pub mod UsbKeyboard
pub mod Eeprom
pub mod Boot
pub mod Tests
