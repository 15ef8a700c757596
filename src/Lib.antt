-- ===== src/Lib.antt =====
-- ReVault keeps files in one encrypted container, a `.rvlt` file, and shares it with granted peers over
-- an encrypted channel. This library models its core (`src/core`), its network layer (`src/net`), the
-- serving session of its command line (`src/cli`) and the state of its terminal interface (`src/tui`).
--
-- The parts, from the bottom up:
--   * Prelude: lists, bytes and words over the native numbers, passed on from its parts.
--   * Error: `src/core/error.rs`.
--   * Utf8: what Rust's `String` demands of bytes, for the fields that hold names.
--   * Crypto: the crates for SHA-256, Argon2id, AES-GCM, X25519 and Ed25519 are a parameter
--     (`Primitives`) with what they document (`Documented`). Keys has what `src/core/crypto.rs` builds
--     on them, Envelope and Nonce its theorems.
--   * Identity: `src/core/identity.rs`.
--   * Allocator: `src/core/allocator.rs`, the bitmap of data blocks.
--   * Format: `src/core/format.rs`. Cursor is its Reader and Writer, with the rules by which a parser
--     reads what was written; a module each for the header and the three kinds of slot.
--   * Vault: `src/core/vault.rs`. State has the vault, its file as bytes, and the monad of its methods:
--     what a method changed before an error stays changed. Storage, Blocks, Content, Files, Peers,
--     Lifecycle and Verify hold the methods, under their names in the source (`open` is `open_vault`).
--     Mutation joins the five methods that change an open vault.
--   * Text: a Rust `String` while it is edited, and what the source calls of `str`.
--   * Session: `src/core/session.rs`.
--   * Net: `src/net`. Journal, Protocol, Handshake, Sync and Invite, each under its name. A stream is the
--     bytes still to come, and what is written is a result.
--   * Cli: `src/cli/commands/network.rs`, the serving session.
--   * Tui: `src/tui`. Bridge is `network_bridge.rs`; Poll and Network are `widgets/network_tab.rs`;
--     Unlocked, Create, Unlock and Vaults are the files of `widgets/vaults`; Settings is `settings.rs` with
--     its widget; Tab and App are `tab.rs`, `app.rs` and `event.rs`.
--   * Tests: the theorems at concrete inputs, over a small vault and a toy cryptography.
--
-- How they interact: the vault's methods read and write the file through Format, draw blocks from the
-- Allocator, seal them by Crypto, and log each write. The network layer takes that log into the
-- journal, and serves a peer a patch from it or the whole file. The serving session and the terminal
-- interface each hold one vault and one journal, and are steps: a connection, a line, a key press or a
-- tick makes a new state of the old one and of what the system then shows (clock, files, ports). A line
-- of input comes with what the files hold while its command runs.
--
-- Conventions. A byte is a number below 256. An unsigned integer of w bits is a number, with `% 2 ^ w`
-- written out where the source's arithmetic can wrap in a release build; `i64` times are their 64 bits.
-- Random bytes, the clock and fresh UUIDs come from the parameter `Platform`, drawn in the order of the
-- source. A path of the file system is whether a file is there, or the file's bytes.
--
-- Bounds and fuel. The loop over a file's overflow chain has no bound in the source, and a chain that
-- closes on itself runs forever. The model walks it on fuel, one more round than the file has bytes,
-- and ends with the outcome `loops` where the fuel runs out; each round reads a block inside the file,
-- so a chain of blocks at different places has fewer. The theorems on the change log hold on that outcome too.
--
-- The search for a new vault's path has no bound in the source either; the model gives it one round
-- more than the directory has files. Where a call of a handler would not return, the handler's result
-- says so (`hangs`, `stuck`), and no further key is taken.
--
-- Not modelled: drawing, the log file and the places of files; the parsing of command-line arguments and
-- the commands that make one call of the vault and print; opening sockets and the network thread's loop,
-- which never touches the vault; the texts of errors (a form keeps the error itself); floating-point
-- numbers, Unicode lower case and socket addresses, which are parameters; zeroization of key memory;
-- I/O errors of the disk besides a read past the end and a file that cannot be read.
pub mod Prelude
pub mod Allocator
pub mod Error
pub mod Utf8
pub mod Crypto
pub mod Format
pub mod Identity
pub mod Vault
pub mod Text
pub mod Session
pub mod Net
pub mod Tui
pub mod Cli
pub mod Tests
