-- ===== src/Lib.antt =====
-- libnfc: near field communication over the chips of the PN53x family.
--
-- A program calls the library, the library calls the driver of a device, and the drivers share the
-- chip's protocol in libnfc/chips/pn53x.c: a function that sets a property or exchanges data with a
-- target writes registers and sends commands; `pn53x_transceive` first writes the cached registers
-- back, sends the command by the driver, and turns the status byte of the answer into a result; the
-- driver puts a command into a frame, waits for the acknowledgement, and takes the answer out of its
-- frame.
--
-- Which file models what:
--   Mirror              libnfc/mirror-subr.c
--   Iso14443/Crc        iso14443a_crc and iso14443a_crc_append of libnfc/iso14443-subr.c
--   Iso14443/Ats        iso14443a_locate_historical_bytes of the same file
--   Iso14443/Cascade    iso14443_cascade_uid of the same file
--   Types               the records and enumerations of include/nfc/nfc-types.h
--   Pn53x/Device        struct nfc_device (libnfc/nfc-internal.h) with struct pn53x_data
--                       (libnfc/chips/pn53x.h), and the error codes of include/nfc/nfc.h
--   Pn53x/Monad         how an operation runs: a device in; a result and a device out, or abort()
--   Pn53x/Framing       pn53x_wrap_frame and pn53x_unwrap_frame of libnfc/chips/pn53x.c
--   Pn53x/Frame         pn53x_build_frame and the checks of ACK and error frames
--   Pn53x/Registers     register access and the write-back cache, over the command exchange
--   Pn53x/Transceive    pn53x_transceive; the driver's functions are the record `Io`
--   Pn53x/Commands      the functions that send one command: RFConfiguration, SetParameters,
--                       SAMConfiguration, PowerDown, InDeselect, InRelease, Diagnose
--   Pn53x/Properties    pn53x_set_property_int, pn53x_set_property_bool, pn53x_reset_settings,
--                       pn53x_idle and pn53x_initiator_init
--   Pn53x/Initiator     pn53x_initiator_transceive_bytes and pn53x_initiator_transceive_bits
--   Pn53x/Modulation    the conversions between modulations, chip codes and target types, and
--                       prepare_initiator_data of libnfc/nfc-internal.c
--   Pn53x/Decode        pn53x_decode_target_data
--   Pn53x/Init          pn53x_decode_firmware_version and pn53x_init
--   Pn53x/Select        pn53x_InListPassiveTarget, pn53x_initiator_select_passive_target and its
--                       extended form, pn53x_initiator_deselect_target, and
--                       pn53x_initiator_target_is_present
--   Pn53x/Dep           pn53x_InJumpForDEP and pn53x_initiator_select_dep_target
--   Pn53x/Target        pn53x_TgInitAsTarget, pn53x_target_init, and the exchanges of an emulated
--                       target (Exchange)
--   Pn53x/Poll          pn53x_InAutoPoll and pn53x_initiator_poll_target
--   Pn53x/Timed         the exchanges that are measured by the chip's timer
--   Drivers/Uart        the functions of libnfc/buses/uart.h, as a record that drivers take
--   Drivers/Answer      the body of an answer behind its frame's length, which the drivers of
--                       pn532_uart.c and arygon.c both hold
--   Drivers/Connstring  the connection strings of pn532_uart.c, arygon.c and acr122s.c, with strtok and
--                       sscanf as these use them
--   Drivers/Line        a port that holds a row of bytes, for the runs at concrete inputs
--   Drivers/Pn532Uart   libnfc/drivers/pn532_uart.c: wake-up, send, receive, ACK; in Table, the
--                       driver's table of functions under libnfc/nfc.c
--   Drivers/Arygon      libnfc/drivers/arygon.c: send, receive, abort, reset
--   Drivers/Acr122s     libnfc/drivers/acr122s.c: its frames (Frame), their exchange, the power
--                       commands, send and receive
--   Drivers/Usb         the transfers of libusb, as a record that drivers take, and the passes of a
--                       read; what pn53x_usb.c and acr122_usb.c share
--   Drivers/Pn53xUsb    libnfc/drivers/pn53x_usb.c: send and receive, its tables and transfers (Data),
--                       the set-up and the properties (Setup)
--   Drivers/Acr122Usb   libnfc/drivers/acr122_usb.c: send, receive and set-up, its frames and
--                       transfers (Data)
--   Drivers/Acr122Pcsc  libnfc/drivers/acr122_pcsc.c: send, receive and the firmware request, over the
--                       calls of the PC/SC service, the record `Pcsc`
--   Api                 the functions of libnfc/nfc.c that are more than a call of the driver, over the
--                       record `Driver`, and nfc_emulate_target of libnfc/nfc-emulation.c;
--                       in Polling, the wait for a D.E.P. target and some that only call the driver
--   Utils/Mifare        nfc_initiator_mifare_cmd of utils/mifare.c, over the record `Reader` of the
--                       functions of the library that it calls
--   Utils/Mfclassic     the blocks of a MIFARE Classic card, from utils/nfc-mfclassic.c; its global
--                       variables (State), and its functions that read and write a card (Card)
--   Utils/Mfultralight  the reading and the writing of a card, from utils/nfc-mfultralight.c
--   Prelude             lists, Booleans, integers and bit operations; the laws of the latter
-- The modules below a component hold its theorems, the modules Tests its runs at concrete inputs.
-- Below Utils/Mfclassic/Card, Memory is an ideal card.
--
-- Bytes and sizes are natural numbers, with the wrap-around of a C type written out where a value
-- can leave it. A buffer is a list; an access outside of it is `none`, or `aborted` in an operation
-- of the device. The records of a target are packed, and a copy over the end of one of their arrays
-- goes on in the fields behind it. What a stack buffer holds before it is filled is an argument. The functions of
-- pn53x.c that call `pn53x_transceive` take it as an argument; the recursion of `pn53x_transceive`
-- through the write-back of the cache takes fuel, of which two are enough. The loops of the framing
-- take as much fuel as there are bits, of which a round uses eight or nine. A polling without end
-- and the wait for an activation take fuel for their loops: one is enough for a polling that has an
-- end, and the others go on for as long as the chip gives no wanted answer. The emulation loop takes fuel for
-- the commands that it answers. A read by USB takes fuel for its passes: one more than one for every 200 milliseconds of
-- the timeout is enough, and a read without a timeout goes on for as long as nothing comes. The loops of a
-- timed exchange take fuel for their rounds, and the polling for a D.E.P. target one for every 300
-- milliseconds of its timeout.
--
-- Not modelled: operating-system calls (serial ports, libusb), the opening and the scan of devices,
-- configuration, printing and logging, and the other command-line tools.
pub mod Prelude
pub mod Types
pub mod Mirror
pub mod Iso14443
pub mod Pn53x
pub mod Drivers
pub mod Api
pub mod Utils
