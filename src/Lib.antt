-- ===== src/Lib.antt =====
-- A verification library for Tock on Titan: the flash driver, its multiplexer and the non-volatile
-- counter of the H1 kernel, the system calls that reach them, and the byte formats that its SPI
-- processor and the host exchange. Paths are from the repository's root.
--
-- The program. kernel/h1 is the kernel of the H1 chip: drivers, and capsules such as the counter,
-- which keeps its value in two pages of flash. kernel/h1_syscalls offers them to processes.
-- userspace/otpilot is such a process: it parses SPI packets, answers the payloads that a host
-- sends it, and forwards flash operations. shared-lib/spiutils has the formats of those packets.
--
-- NvCounter: kernel/h1/src/nvcounter.
--   NvCounter/Device is the flash under the counter: trait `Flash` of hil/flash/flash.rs, with the
--     argument checks of `FlashImpl` (hil/flash/driver.rs) and the read of hil/flash/h1_hw.rs. The
--     state is the words of memory and the ongoing operation.
--   NvCounter/Page is internal.rs: `read_page_count`, `start_increment`, `page_empty`,
--     `low_page_full`, `counter_value`. `Stores words page c` says that a page stores the count c,
--     with the words of a count given byte by byte, apart from the write patterns.
--   NvCounter/Capsule is capsule.rs: `FlashCounter` with `new`, `set_client`, `initialize` (here
--     `begin_initialize`, as `initialize` is a `Task`), `read_and_increment`, `erase_done` and
--     `write_done`, each with a function for every step that capsule.rs names. `complete` lets the
--     ongoing operation succeed and makes the callback; `complete_failed` lets it fail and leave
--     any words behind. `Counts v` is the abstract state: no client waits and the value is v.
-- Flash: kernel/h1/src/hil/flash.
--   Flash/SmartProgram is smart_program.rs. `step` answers with the next state and the calls it
--     makes to the hardware and the alarm, given what these answer; `run` is a step at each alarm.
--   Flash/Driver is driver.rs: `FlashImpl`, which splits a write into transfers of 32 words, starts
--     a smart program for each and answers its client. Driver/Hardware has the registers that
--     h1_hw.rs sets, the alarm, and the silicon behind them as the parameter `FlashModule`; a
--     `World` is the driver with its hardware, and it goes on by alarms. Hardware/Progress says
--     what silicon that does its work answers. Driver/CarriesOut has an operation from its start to
--     its callback, Driver/Write and Driver/Erase what it leaves in memory, Driver/Answers the
--     driver beside the device that NvCounter/Device assumes.
--   Flash/VirtualFlash is virtual_flash.rs: `MuxFlash` and its `FlashUser`s, over any driver with
--     the interface `Flash`. VirtualFlash/Serves is the invariant of the multiplexer, kept by the
--     steps of its users and of the driver; VirtualFlash/OverDriver puts it above `FlashImpl`.
-- Spiutils: shared-lib/spiutils/src.
--   Spiutils/Io is io.rs: reading from a slice and writing to a `Cursor`, as functions that answer
--     with a `Result`; a writer that fails leaves the cursor behind what it has written.
--     `RoundTrip` says that what is written reads back whatever follows it.
--   Spiutils/BitBuf is `BitBuf` of io.rs, and BitBuf/Queue the queue of bits that it stands for.
--   Spiutils/Wire is protocol/wire.rs, with the code that `wire_enum!` generates.
--   Spiutils/Payload is protocol/payload.rs, Spiutils/Firmware protocol/firmware.rs, Spiutils/Flash
--     protocol/flash.rs, Spiutils/Segment driver/firmware.rs and compat/firmware.rs, and
--     Spiutils/ErrorMessage protocol/error.rs. Spiutils/NetworkOrder is a byte order to test with.
-- Otpilot: userspace/otpilot/src.
--   Otpilot/Drivers has the process as a state (its firmware controller, its two static buffers and
--     the calls it has made), the drivers as a record `Drivers` of answers, each a function of the
--     calls so far, and methods as functions that return, fail, panic or do not end (`Outcome`).
--   Otpilot/FirmwareController is firmware_controller.rs, Otpilot/SpiProcessor spi_processor.rs,
--     with a module for each part: Response (`send_data`, `send_error`, `send_firmware_response`,
--     `process_manticore`), Firmware (`process_firmware` and the requests), Payload
--     (`process_spi_payload`), Host (`spi_host_send` and what uses it) and Packet
--     (`process_spi_header`, `process_spi_packet`).
--   Otpilot/Sfdp is sfdp.rs, and Otpilot/Sfdp/Reader a reader of such a table after JESD216.
--   Otpilot/Keeps and Otpilot/Ends are the rules for a method that keeps a predicate of the state,
--     and for one that comes to an end; Otpilot/OnlyInactive is such a predicate. The modules
--     `Inactive` and `Ends` below each part apply them to it.
-- H1Syscalls: kernel/h1_syscalls/src. A driver has the data of each process; the kernel's grant is
--   the parameter `Grant`, which finds the data of a process among those of all, with what it keeps
--   as the laws of H1Syscalls/Grant. H1Syscalls/ListGrant is a grant to test with.
--   H1Syscalls/NvCounterSyscall is nvcounter_syscall.rs, with its calls of the counter as answers
--     that depend on how often it has been asked; NvCounterSyscall/Events has the calls of the
--     driver as a type, one after the other.
--   H1Syscalls/FlashSyscalls is flash.rs, over a flash with the interface of Flash/VirtualFlash;
--     Read, Write and CurrentUser below it have what its commands and callbacks do to the data.
-- Usb: kernel/h1/src/usb. Usb/Types is types.rs: the configuration, interface and string
--   descriptors and how they are written into the words of a FIFO buffer and into bytes, the lowest
--   byte of a word first. Types/Endpoint has those of endpoints and of the HID device.
-- Common has the tests on numbers, lists and bits that the other parts use. ReturnCode has the
-- variants of the Tock kernel's type, a submodule, that this code names, and one for all others.
--
-- Bounds. Numbers are unbounded; u32 and usize arithmetic whose result could wrap keeps its
-- `% 2 ^ 32`, as in a release build for the 32-bit chip, the checksum register its `% 2 ^ 16`, the
-- attempts of a smart program their width of 8 bits, and a message has a predicate for the ranges
-- of its fields. Loops run over a list or over a number of rounds that the code gives. Two loops of
-- otpilot have fuel: erasing a segment has the number of its last page and one, as the page rises
-- to that number from at least 0, and sending to the SPI host the length of the data and one, as
-- every round but the last sends a byte at least. A panic is `none`, or `panicked` in otpilot:
-- taking a buffer that is with the driver, or slicing past the end.
--
-- Choices. The byteorder crate is the parameter `ByteOrder`, with what it documents: a number takes
-- its width in bytes and reads back. A client that calls back into the counter does so after the
-- callback, as the counter calls it last; a client of the multiplexer makes its requests in the
-- callback, and they are arguments of the step. A user is linked to the multiplexer once. The
-- driver is idle when it makes a callback. In the device of the counter a write replaces the words
-- that it covers, as in hil/flash/fake.rs, though the hardware can only clear bits; in Flash/Driver
-- the silicon decides. While an operation is ongoing, reads of the device give the words before it.
-- In otpilot nothing is assumed of a driver's answers, and printing is left out.
--
-- Not modelled: the other system calls, the device descriptor and the requests of USB, otpilot's
-- main loop and its wrappers of system calls, the host's tools, and the drivers whose work is to
-- access registers (USB, SPI, the crypto engines and the other peripherals).
pub mod Common
pub mod Flash
pub mod ReturnCode
pub mod NvCounter
pub mod Spiutils
pub mod Otpilot
pub mod H1Syscalls
pub mod Usb
