-- ===== src/Lib.antt =====
-- The host side of HID-Fi: the Rust crates under companion/crates.
--
-- HID-Fi is a board that plugs into a computer, and a companion app on that computer. The app finds
-- its board (hidfi-core/src/discovery.rs), pairs with it and keeps a heartbeat going over plain HTTP
-- (hidfi-agent/src/session.rs, with the formats of hidfi-core/src/proto.rs and the proofs of
-- hidfi-core/src/pairing.rs), decides which release fits it (hidfi-core/src/ota.rs), and can write
-- that release over a cable (hidfi-flash: slip.rs frames the bytes of a serial line, proto.rs the
-- commands of the chip's loader, image.rs reads the flash layout and chooses the slot to boot).
--
-- Files and code:
--   Common and its children: helpers; bytes as numbers below 256, text as lists of code points.
--   Flash/Slip: companion/crates/hidfi-flash/src/slip.rs. The decoder is a state that `push` takes
--     one byte further; `feed` is the loop over received bytes.
--   Flash/Proto: companion/crates/hidfi-flash/src/proto.rs. Operations, frames, checksum.
--   Flash/Image: companion/crates/hidfi-flash/src/image.rs. Table.antt is parse_table and app_slots,
--     Otadata.antt the otadata functions, App.antt identify and image_is_valid.
--   Flash/Hex: hexadecimal digits as from_str_radix reads them.
--   Flash/Flasher: companion/crates/hidfi-flash/src/flasher.rs over the trait of port.rs. The file
--     itself is the framing and `command`, Chip.antt the resets, identity and stub, Transfer.antt
--     md5, read_flash and write (`flash_md5` for `md5`). Memory.antt is the
--     flash behind the port.
--   Flash/Update: companion/crates/hidfi-flash/src/update.rs. Update.antt is layout_of, Journal.antt
--     the journal and its texts, Board.antt what an update asks of the flasher and of its caller
--     (`flasher_board` is the flasher there), Preflight.antt the first step, Run.antt the plan, `save` and
--     `cancel`, Run/Steps.antt the later steps and `run`; Cells.antt what keeps a
--     cell of the flash, Loader.antt the update over the flasher.
--   Core/Crates: the third-party crates as interfaces.
--   Core/Pairing: companion/crates/hidfi-core/src/pairing.rs, both sides of the pairing.
--   Core/Proto: companion/crates/hidfi-core/src/proto.rs, requests, replies and refusals.
--   Core/Discovery: companion/crates/hidfi-core/src/discovery.rs.
--   Core/Ota and Core/Ota/Versions, Core/Ota/Offer: companion/crates/hidfi-core/src/ota.rs.
--   App/Health: companion/crates/hidfi-companion/src/health.rs, the samples of each
--     board.
--   App/Updates: companion/crates/hidfi-companion/src/updates.rs, its decisions, and those of
--     updates/center.rs; jobs, downloads and threads are not in it.
--   Agent/Env: companion/crates/hidfi-agent/src/env.rs; the world is a state that HTTP and the random
--     source change, and that tells the time.
--   Common/Exec: methods with `?` as actions of a state; what an action changed before it fails stays.
--   Agent/Locate: companion/crates/hidfi-agent/src/locate.rs; `ask` is the loop over the addresses.
--   Agent/Nonces and Agent/Session: companion/crates/hidfi-agent/src/session.rs. Session/Defs holds
--     the state and what needs no conversation, Session/Steps holds `step` and what it calls. `match`
--     on a reply is one function for each arm (`on_confirm`, `on_paired`, `on_gone`, ...).
--
-- Parameters: MD5, SHA-256, HMAC, HKDF, X25519, P-256, hex, serde_json, HTTP,
-- the clock, the random source, the serial port, the loader's stub and the file of the journal. Of the
-- flash behind the port, `ChipLaws` says which frames may change a cell, and `CallerLaws` that the
-- caller changes none; that the flasher keeps to this (`Laws`) is proved from its frames. What a
-- firmware that has been started then writes is not counted. Two more facts are assumed of them, each a named hypothesis of the
-- theorem that needs it: the two sides of a key exchange compute the same secret (`ExchangeLaw`), and
-- a text of hex has two digits for each byte that it decodes to (`DecodesPairs`).
--
-- Numbers: machine words keep their wrap-around, written out as a remainder. Durations are
-- milliseconds, in App/Updates seconds. Loops are by structural recursion, except those that count fuel: the search for the
-- next sequence number has as much as there are slots, and some sequence number among that many in a
-- row suits the slot; decimal digits have one more than the number; the segments of an image are
-- counted by its header. The loops of the flasher wait for a chip, so they count fuel too: `no_fuel` is a
-- fault of its own that no handler catches, and a wait for a frame ends with enough of it on a port that
-- brings finitely many bytes.
--
-- Not modelled: locks (each method of the nonces is one step), logging, the text of requests (it is
-- serde_json's), the rest of the app (hidfi-companion: windows, services, the jobs and downloads of
-- updates, and the probe's thread), screen streaming (hidfi-stream), and everything that is not Rust.
mod Common
pub mod Flash
pub mod Core
pub mod Agent
pub mod App
