-- ===== src/Lib.antt =====
-- Agent Seat: a protocol by which an agent observes and operates an X11 desktop through a local
-- provider, with an operator's gate that can revoke every session at once and a separate broker
-- that watches for physical activity.
--
-- The parts, and the files that model them:
-- - Prelude: shared lists, tests, results, byte strings (`to_be_bytes` and the like) and text with
--   its UTF-8 bytes, and what the code uses of `str` and `std::path`: `from_utf8`, decimal numbers,
--   splitting and joining, and the components of a path.
-- - Proto: crates/agent-seat-proto. Bounded is bounded.rs, Identity is ids.rs, Limits the published
--   constants, Codec is codec.rs, Advertisement is advertisement.rs; the other files divide
--   message.rs: Hello (handshake), Requests, Input, Keyboard, Text, Region and Call (what an agent
--   asks), Replies, Captures, Image, Desktop, Page and Failure (what it gets), Messages (the two
--   envelopes), Order and Capability (the orders that Rust derives, and the checks by them). A
--   struct is a record, an enum a data type with the source's variants, `impl Validate for T` a
--   function into `Result`, and `validate_each` the loop over a slice.
-- - Seat: crates/agent-seat-x11/src/seat.rs. Gate is `SeatGate`, one atomic word; a permit is the
--   word at which it was issued. Control is the control plane: `handle_pending`, `request` and the
--   two frames. The handler calls the gate; sessions hold permits of it.
-- - Session: crates/agent-seat-x11/src/session.rs. Grants is the configured grant (`Config::granted`
--   of config.rs), `authorized` and the feature list; Handshake is `run` up to the welcome; Requests
--   is its loop and `handle`; Run joins the two. A session reads frames of Proto, holds a permit of
--   Seat, and calls the provider.
-- - Broker: crates/agent-seat-activity-broker. Protocol is src/lib.rs, the frames between the broker,
--   its guard and the provider. Runtime is src/main.rs, the broker's process: `round` is one turn of
--   the poll loop on the record `Broker` of its variables, and Startup is all that comes before the
--   loop, from `Arguments::parse` to the broker that the loop begins with. The broker answers with
--   frames of Protocol, and reads the records of Devices.
-- - Devices: the same crate's records. DeviceSet is src/device_set.rs with the capability bitmaps,
--   InputSet is src/initial_input_set.rs, Inherited is src/inherited_files.rs.
-- - Launch: crates/agent-seat-x11/src/launch.rs. Catalog is the session's catalog and its pages, with
--   `LaunchPolicy` of config.rs; Entry parses a desktop entry and Exec its command line, of which
--   Expand makes the program and its arguments; Supervisor starts them and reaps the children. A
--   provider session calls the catalog and the supervisor.
-- - Marker: crates/agent-seat-x11/src/active.rs, the marker of a running provider's policy.
-- - Tests: the theorems at concrete inputs.
--
-- How the code is modelled. Integers are natural numbers, with their width where the code depends
-- on it: `u64::MAX` in the gate, checked sums of 16 bits and products of 64 bits in a region, length
-- prefixes of 32 bits. A stream to read is the list of what its reads meet (a chunk, an interruption,
-- a failure), a stream to write what it has taken and what its writes will meet. The read loop is
-- structural in the events, so it needs no fuel. The gate is one word and a state for each caller:
-- `turn` is one round of the loop in `set_enabled`, with one access to the word at most, and `Step`
-- interleaves the rounds of any number of callers; `set_enabled` is the method when nobody
-- intervenes, which a round whose word has not moved is. A connection of the control plane is given
-- by what the operating system does with it.
--
-- An early return of `run` is an `Exit` in the place of an error. What a session meets (the peer's
-- credentials, each frame read, the word of the gate at each look, each write) is an `Opening` and a
-- list of `Arrival`s; the request loop is structural in its bound, `max_requests`. A write is a
-- `Delivery`: what JSON makes of the message, which `write_frame` bounds, and what the stream does with
-- the frame. `handle` returns the calls that it has made of the provider beside its response.
--
-- In Broker.Runtime a `Round` is one poll, which may fail, and what it finds: the flags of each
-- descriptor, the bytes and the events that can be read, the time, and what becomes of a write.
-- `World` is the same for the start. Time is in nanoseconds. The loops are structural in the
-- rounds, the pieces that arrive, the devices and the events; the loop over a word's bits and the
-- digits of a number have the number as fuel, which is enough because each turn makes it smaller. A
-- wait that has not ended is `waiting`. Texts and paths of Devices are their bytes.
--
-- In Launch the file system and the environment answer through arguments (`Environment`, `System`, the
-- entries that `discover_all` finds). A loop that takes a second character after a backslash or a
-- percent sign is a recursion on the text that looks one character ahead. The loop that reaps the
-- children has their number as rounds, which is enough because each round drops a child or moves on.
--
-- Parameters: `provider_call` of session.rs, an arbitrary function on an arbitrary state; and JSON
-- (`serde_json`), of which the frames' round trip assumes only that decoding undoes encoding at the
-- message.
--
-- Not modelled: sockets and their set-up, X11, the search for desktop entries, configuration files,
-- the broker's enrolment tool and eligibility guard, the MCP companion and the settings window.
-- Memory order of the atomic word: its accesses are to one location, on which all orders agree.
pub mod Prelude
pub mod Proto
pub mod Seat
pub mod Broker
pub mod Devices
pub mod Launch
pub mod Session
pub mod Marker
pub mod Tests
