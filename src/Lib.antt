-- ===== src/Lib.antt =====
-- A model of embuer, the service that installs system updates as btrfs subvolumes, and theorems on it.
--
-- The program. `embuer-service` takes requests for updates, each from a URL or a file, one after the
-- other (src/service.rs). A request names a tar archive with a CHANGELOG, a signature and a compressed
-- btrfs stream. The changelog is shown to the clients, who accept or reject the update over D-Bus
-- (src/dbus.rs), unless updates are installed automatically. An accepted stream goes through a reader
-- that reports its progress (src/progress_stream.rs) and one that hashes it (src/hash_stream.rs) into
-- `xz -d | btrfs receive` (src/core.rs). The received subvolume is inspected, the signature is
-- verified for the hash, the update's script is run and the subvolume becomes the default one. Old
-- deployments are cleared behind that.
--
-- The files.
--   Base, Text: what the other files share of lists, options, tests, texts and printed numbers.
--   Error, Status: `ServiceError` of src/lib.rs, and src/status.rs.
--   Host: the world that the program runs on. A `Host` answers each command, question to the file
--     system and pipeline, by any function; an `Env` is its state with the trace of what was run.
--     Actions return an error, or a panic, as a value. Trace and Yields are rules on actions.
--   Btrfs: src/btrfs.rs. Query has the calls that parse an answer, Change those that change
--     a subvolume, Laws the commands that each call runs, Numbers the numbers that are read back.
--   Manifest, Config: src/manifest.rs and src/config.rs.
--   Crypto: the crates for hashing and RSA, a record of functions with the documented laws.
--   Stream: a reader as a state with its `poll_read`, and `tokio::io::copy`. Hashing and Progress are
--     src/hash_stream.rs and src/progress_stream.rs.
--   Signature, Receive, Install: `verify_signature`, `receive_btrfs_stream` and `install_update` of
--     src/core.rs. The functions have the names of the source; the parts of a long one have names of
--     their own.
--   Service: src/service.rs. State has the records, Start `Service::new`, Version the version in a
--     changelog, Clear `clear_old_deployments`, Confirm `confirm_update`, Process
--     `process_update_entry`, Requests `update_request_loop`, Periodic `periodic_url_checker`.
--     Stop is `terminate_update_check`, as steps of the method, of its tasks and of the senders.
--     Live has the loop, the calls of `confirm_update` and the spawned status updates as steps on
--     the state that they share; the other files do each part from its start to its end.
--   Dbus: the handlers of src/dbus.rs, and in Monitor `start_status_monitor`. Proxy: the calls of its
--     clients, over a bus that may not carry a call, or lose its reply.
--   Ffi: the functions of src/ffi.rs, over a memory of values; `embuer_watch_status` is in Watch,
--     and the types of the exported functions in Exports.
--   Build: build.rs. Header has the C header, Declarations reads it as a compiler does.
--   Installer: src/bin/embuer-installer.rs. Options has the command line, Disk the partitions and the
--     mounts, Refind the bootloader, Layout the subvolumes, Kernel the build of a kernel, Package the
--     source of an update, Changelog the box around a changelog, Manual the manual installation, and
--     Main puts them together.
--   Programs: the other programs of src/bin: embuer-genkeys in Keys, embuer-genupdate in Bundle,
--     embuer-service in Daemon, embuer-client in Client, test-signature in Probe.
--   Tests: a small host in World, and an instance of each theorem.
--
-- Conventions. Numbers are natural numbers, bytes and characters too; the counter of the progress
-- reader wraps around at 2 ^ 64, and a parsed `u64` that is too large is an error. The requests, the
-- polls of a stream, the polls of the status and the ticks of a timer are finite lists, and the loops
-- over them are recursive on them. Fuel is used in `copy`, which is given the number of polls after
-- which the other side takes no more, by the host: any number; and in `trim_matches` of the installer,
-- which is given as much as the text has characters, since each round takes one at least. The confirmation channel is
-- the list of the decisions that `recv` will give in turn, a sender that waits for room included.
-- Status updates that a progress reader spawns are listed in the order of their start. In Service/Live
-- the channel and the senders that wait for its room are apart, and a status update runs at any step.
--
-- What `main` of the installer pushes to its queue of mounts is a scope: what follows, to the end of
-- `main`, runs inside it, and the mount is undone behind it.
--
-- What the programs print is taken to be written: a closed stdout or stderr is not modelled. A
-- panic in the `drop` of a mount while another one unwinds ends the program at once (`abort`).
--
-- What is left to parameters: `serde_json`, `rsa`, `sha2`, `hex`, `tokio_tar`, HTTP, `zip`, floating
-- point, the clock, colours, Unicode's tables, and whether the bus carries a call. Not modelled:
-- logging, the parser of command lines, the functions of src/ffi.rs that free memory, when the
-- installer prints the box of a changelog, and what build.rs prints for cargo.
pub mod Base
pub mod Text
pub mod Error
pub mod Status
pub mod Host
pub mod Btrfs
pub mod Manifest
pub mod Config
pub mod Crypto
pub mod Stream
pub mod Signature
pub mod Receive
pub mod Install
pub mod Service
pub mod Dbus
pub mod Installer
pub mod Programs
pub mod Proxy
pub mod Ffi
pub mod Build
pub mod Tests
