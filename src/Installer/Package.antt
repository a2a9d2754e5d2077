-- ===== src/Installer/Package.antt =====
-- src/bin/embuer-installer.rs: `extract_update_stream_from_package`, and the sources of a package.
-- What is printed of the CHANGELOG is left out.
use embuer.Base.{Bool, List, [], ◌∷◌, Result, ok, err, map_err, if◌then◌else◌, ◌||◌}
use embuer.Text.{Text, text, text_eq, starts_with}
use embuer.Error.{ServiceError, io_os, io_other, io_not_found, io_invalid_input}
use embuer.Host.{Host, M, error, asks}
use embuer.Stream.{Poll}
use embuer.Service.Requests.{Entry, Archive, Response, Sources}

-- The error of an entry that cannot be read, and otherwise what is behind it.
unfoldable pub after_read :
    Result Text Text → Result ServiceError (List Poll) → Result ServiceError (List Poll)
after_read (err e) rest = err (io_os e)
after_read (ok content) rest = rest

-- `rest` is what the entries behind this one give.
unfoldable pub package_entry :
    Result Text Text → Entry → Result ServiceError (List Poll) → Result ServiceError (List Poll)
unfolding after_read
package_entry (err e) entry rest = err (io_os e)
package_entry (ok path) entry rest =
    if text_eq path (text "CHANGELOG")
    then after_read entry.read_to_string rest
    else if text_eq path (text "update.btrfs.xz")
    then ok entry.stream
    else rest

unfoldable pub find_update : List (Result Text Entry) → Result ServiceError (List Poll)
unfolding package_entry
find_update [] = err (io_not_found (text "update.btrfs.xz not found in update package"))
find_update (err e ∷ rest) = err (io_os e)
find_update (ok entry ∷ rest) = package_entry entry.path entry (find_update rest)

unfoldable pub extract_update_stream_from_package : Archive → Result ServiceError (List Poll)
unfolding find_update
extract_update_stream_from_package (err e) = err (io_os e)
extract_update_stream_from_package (ok entries) = find_update entries

module _ {H : Host} (Q : Sources H) where
  unfoldable pub from_file : Result Text Archive → Result ServiceError (List Poll)
  from_file (err e) = err (io_os e)
  from_file (ok archive) = extract_update_stream_from_package archive

  unfoldable pub from_response : Result Text Response → Result ServiceError (List Poll)
  from_response (err e) = err (io_os e)
  from_response (ok resp) =
      if resp.is_success
      then extract_update_stream_from_package resp.body
      else err (io_other (text "Failed to download update"))

  unfoldable pub is_url : Text → Bool
  is_url src = starts_with (text "https://") src || starts_with (text "http://") src

  -- A file that exists comes before a URL.
  unfoldable pub package_from : Text → H.State → Result ServiceError (List Poll)
  unfolding from_file from_response is_url
  package_from src s =
      if H.exists s src
      then from_file (Q.open_file s src)
      else if is_url src
      then from_response (Q.get s src)
      else err (io_invalid_input (text "Deployment source not found or unsupported"))

  unfoldable pub wrapped_reader : Text → M H (List Poll)
  unfolding package_from
  wrapped_reader src = asks (λ s. map_err error (package_from src s))
