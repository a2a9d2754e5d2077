-- ===== src/Error.antt =====
-- src/lib.rs: `ServiceError`, and the text that `thiserror` displays for it.
-- An error of another crate is kept as the text that it displays; an `io::Error` made by the
-- program keeps its kind too.
use embuer.Base.{◌++◌}
use embuer.Text.{Text, text}

pub data ErrorKind : Type 0 where
  invalid_input not_found other : ErrorKind
  -- an error of the operating system, or of a library
  os : ErrorKind
  -- no `io::Error`, but a text that a program makes a `Box<dyn Error>` of
  boxed : ErrorKind

pub record IoError : Type 0 where
  pub kind : ErrorKind
  pub message : Text

pub data ServiceError : Type 0 where
  missing_privileges_error : ServiceError
  missing_configuration_error : Text → ServiceError
  zbus_error : Text → ServiceError
  io_error : IoError → ServiceError
  btrfs_error : Text → ServiceError
  missing_rootfs_dir missing_deployments_dir : ServiceError
  pkcs1_error json_error join_error : Text → ServiceError
  pub_key_import_error no_update_available missing_update_size : ServiceError

-- `ServiceError::IOError(std::io::Error::other(message))`
abbrev pub io_other : Text → ServiceError
io_other message = io_error (record { kind = other; message = message })

-- A `Box<dyn Error>` of the programs in src/bin, by the text that it displays.
abbrev pub boxed_error : Text → ServiceError
boxed_error message = io_error (record { kind = boxed; message = message })

-- `std::io::Error::new(ErrorKind::NotFound, message)`
abbrev pub io_not_found : Text → ServiceError
io_not_found message = io_error (record { kind = not_found; message = message })

-- `std::io::Error::new(ErrorKind::InvalidInput, message)`
abbrev pub io_invalid_input : Text → ServiceError
io_invalid_input message = io_error (record { kind = invalid_input; message = message })

-- `ServiceError::IOError(e)` for an error of the system, by `?`
abbrev pub io_os : Text → ServiceError
io_os message = io_error (record { kind = os; message = message })

-- `to_string()`
unfoldable pub display : ServiceError → Text
display missing_privileges_error = text "Permission error: not running as the root user"
display (missing_configuration_error path) =
    text "Missing configuration: couldn't find the required file or directory"
display (zbus_error e) = text "DBus error: " ++ e
display (io_error e) = text "I/O error: " ++ e.message
display (btrfs_error e) = text "btrfs error: " ++ e
display missing_rootfs_dir = text "Missing rootfs directory in configuration"
display missing_deployments_dir = text "Missing deployments directory in configuration"
display (pkcs1_error e) = text "pkcs1 error: " ++ e
display (json_error e) = text "Failed to deserialize JSON: " ++ e
display (join_error e) = text "Join error: " ++ e
display pub_key_import_error = text "Public key import error"
display no_update_available = text "No update available"
display missing_update_size = text "Missing update size"
