-- ===== src/Lib.antt =====
-- The AMT configuration tool: a UEFI application (and Windows and Linux command line) that reads
-- the state of Intel AMT over HECI and activates or deactivates it.
--
-- Parts. HECI (heci/) moves messages to and from the management engine. Over it, amt.rs speaks
-- PTHI, and lme/ runs an APF session, through which http.rs and wsman.rs post SOAP requests with
-- digest authentication (md5.rs, str_util.rs). main.rs and ui.rs are the menu. All paths are
-- under the crate's src/.
--
-- Files.
-- Prelude: tests on numbers, byte buffers, bits as arithmetic. Outcome: error.rs, and the form of
-- every call.
-- Lme: lme/. Apf and Frames hold the constants and the messages; Transport is what the session
-- uses of HeciContext; Session sends and receives one message; Process is process_apf, one
-- function for each arm; Channel has the handshake, channel_open, send, receive and close.
-- Script is a transport for tests.
-- Heci: heci/ and pci.rs. Regs has the register fields and the message header; Device the
-- context and its registers; Write and Read have write_msg and read_msg; Startup has PCI, init
-- and reset; Hbm has the messages of heci/hbm.rs, Client flow control, send, receive and the
-- connection by UUID; Instance makes the context the transport of a session of Lme, which takes
-- HECI as a parameter. Linux and Windows are the contexts of heci/linux.rs and heci/windows.rs,
-- over the calls of their system as a parameter.
-- StrUtil: str_util.rs; Append and Find have its theorems. Md5: md5.rs; Transform has the 64 steps,
-- Stream and Hash the theorems.
-- Amt: amt.rs. Mei is the header and pthi_call, over the two HECI operations as a record; Getters
-- has the commands, Versions the version table; Instance makes the HECI context such a record.
-- Http: http.rs. Message has the response and the credentials; Chunked and Parse parse_response;
-- Digest build_auth_header; Post post_wsman. Wsman: wsman.rs. Xml is xml_extract, Soap the two
-- messages, Call one call with its retries, Activate activate_ccm.
-- Ui: the UEFI console of ui.rs. Font has the glyphs of font.rs, Screen the cells they are drawn
-- in, Box the rows of a screen; Text, Layout, Rows and Inside have the theorems.
-- App: main.rs. Log is the log buffer, Format the formatting helpers, Utf8 the text of bytes, Input
-- read_line of ui.rs; Machine is what the screens run on: the HECI calls as a record, the keys
-- that are pressed, the console. Screens has a file for each screen and Menu with app_main and
-- uefi_main; Asks, Calm and Keys have the theorems.
--
-- Choices. A buffer is the list of its bytes. A method is a function from the state to an
-- outcome and the state it leaves. Machine arithmetic wraps, as in the release profile; the dev
-- profile stops at the same places. The hardware is the list of values that register reads
-- yield, and the list of the writes. An index or range out of bounds is the outcome `panics`.
-- Where targets differ it is the UEFI target that is modelled, but for the HECI contexts of the
-- others. A loop that only the hardware ends runs on fuel, and `waits` is the outcome when it is
-- used up; the theorems hold for every fuel, or for enough of it as they say. Loops with a fixed
-- count have that count.
--
-- Not modelled: what is logged and the file write of flush_log, the flags against re-entry (one
-- thread, and no call leads back), the stalls between polls, how the firmware finds the graphics
-- protocol and reads a key, the echo of read_line, and what the Windows and Linux targets have
-- apart from their HECI contexts.
pub mod Prelude
pub mod Outcome
pub mod Amt
pub mod App
pub mod Heci
pub mod Http
pub mod Lme
pub mod Md5
pub mod StrUtil
pub mod Ui
pub mod Wsman
