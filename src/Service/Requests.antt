-- ===== src/Service/Requests.antt =====
-- src/service.rs, `update_request_loop`, with `extract_url_update_contents` and
-- `extract_file_update_contents`. HTTP, the file and the tar archive are read by crates: `Sources`
-- gives what they give.
pub mod Holds
pub mod Keeps
pub mod Ends
pub mod Leave
pub mod Fifo
pub mod Authentic
use embuer.Base.{
  ℕ, List, [], ◌∷◌, ◌++◌, Bool, true, false, Option, none, some, Result, ok, err, map_err,
  if◌then◌else◌,
}
use embuer.Text.{Text, text, text_eq}
use embuer.Error.{ServiceError, io_os, io_other, no_update_available, display}
use embuer.Host.{Host, Failure, error, panic, abort}
use embuer.Status.{UpdateStatus, idle, checking, failed}
use embuer.Stream.{Poll}
use embuer.Service.State.{UpdateSource, url, file, ServiceInner, ServiceState, set_status}
use embuer.Service.Process.{External, Outcome, process_update_entry}

-- An entry of a tar archive: its path, and what each way to read it gives.
pub record Entry : Type 0 where
  pub path : Result Text Text
  pub read_to_string : Result Text Text
  pub read_to_end : Result Text (List ℕ)
  pub entry_size : Result Text ℕ
  pub stream : List Poll

-- `archive.entries()`, and each step of the iteration.
abbrev pub Archive : Type 0
Archive = Result Text (List (Result Text Entry))

pub record Response : Type 0 where
  pub is_success : Bool
  pub body : Archive

pub record Sources (H : Host) : Type 0 where
  -- `Client::get(url).send()`, `File::open(path)`
  pub get : H.State → Text → Result Text Response
  pub open_file : H.State → Text → Result Text Archive

module _ {H : Host} (Q : Sources H) where
  downloaded : Response → Result ServiceError Archive
  downloaded resp = if resp.is_success then ok resp.body else err no_update_available

  unfoldable pub extract_url_update_contents : H.State → Text → Result ServiceError Archive
  unfolding downloaded
  extract_url_update_contents s u = elim (Q.get s u) [
    | err e ↦ err (io_other e)
    | ok resp ↦ downloaded resp
  ]

  unfoldable pub extract_file_update_contents : H.State → Text → Result ServiceError Archive
  extract_file_update_contents s path = map_err io_os (Q.open_file s path)

-- `source_desc`
unfoldable pub describe : UpdateSource → Text
describe (url u) = u
describe (file path) = path

-- The task is at its next request, or a panic has ended it.
pub data Flow (H : Host) : Type 0 where
  next : ServiceState H → Flow H
  dead : ServiceState H → Flow H

-- The loop over an archive has ended, or goes on with the contents that it has collected.
pub data Step (H : Host) : Type 0 where
  leave : Flow H → Step H
  go : Option Text → Option (List ℕ) → ServiceState H → Step H

module _ {H : Host} where
  -- `break`, `continue 'check_req`, or the next entry
  unfoldable pub resume :
      Step H → (Option Text → Option (List ℕ) → ServiceState H → Flow H) → Flow H
  resume (leave f) more = f
  resume (go changelog signature s) more = more changelog signature s

  -- The next request, unless the task is dead.
  unfoldable pub and_then : Flow H → (ServiceState H → Flow H) → Flow H
  and_then (dead s) more = dead s
  and_then (next s) more = more s

module _ (X : External) {H : Host} (inner : ServiceInner) (auto : Bool) (source_desc : Text) where
  unfoldable pub fail_with : Text → ServiceState H → Step H
  fail_with message s = leave (next (set_status (failed source_desc message) s))

  unfoldable pub on_changelog : Result Text Text → Option (List ℕ) → ServiceState H → Step H
  on_changelog (err e) signature s = fail_with (text "Failed to read CHANGELOG: " ++ e) s
  on_changelog (ok content) signature s = go (some content) signature s

  unfoldable pub on_content : Option Text → List ℕ → ServiceState H → Step H
  on_content changelog [] s = fail_with (text "update.signature file is empty") s
  on_content changelog (b ∷ content) s = go changelog (some (b ∷ content)) s

  unfoldable pub on_signature : Result Text (List ℕ) → Option Text → ServiceState H → Step H
  on_signature (err e) changelog s = fail_with (text "Failed to read update.signature: " ++ e) s
  on_signature (ok content) changelog s = on_content changelog content s

  -- What follows `process_update_entry`: an error leaves the status as it is.
  unfoldable pub processed : Option Text → Option (List ℕ) → Outcome H → Step H
  processed changelog signature (ok true, s) = go changelog signature s
  processed changelog signature (ok false, s) = leave (next s)
  processed changelog signature (err (error e), s) = leave (next s)
  processed changelog signature (err panic, s) = leave (dead s)
  processed changelog signature (err abort, s) = leave (dead s)

  unfoldable pub on_update :
      Result Text ℕ → List Poll → Option Text → Option (List ℕ) → ServiceState H → Step H
  on_update (err e) stream changelog signature s =
      fail_with (text "Failed to get update.btrfs.xz size: " ++ e) s
  on_update (ok size) stream changelog signature s =
      processed changelog signature
        (process_update_entry X inner source_desc auto changelog signature stream size s)

  -- An entry without a readable path is passed over, and so is an unknown one.
  unfoldable pub on_path :
      Result Text Text → Entry → Option Text → Option (List ℕ) → ServiceState H → Step H
  on_path (err e) entry changelog signature s = go changelog signature s
  on_path (ok path_str) entry changelog signature s =
      if text_eq path_str (text "CHANGELOG")
      then on_changelog entry.read_to_string signature s
      else if text_eq path_str (text "update.signature")
      then on_signature entry.read_to_end changelog s
      else if text_eq path_str (text "update.btrfs.xz")
      then on_update entry.entry_size entry.stream changelog signature s
      else go changelog signature s

  -- One round of the loop over the entries.
  unfoldable pub on_entry :
      Result Text Entry → Option Text → Option (List ℕ) → ServiceState H → Step H
  on_entry (err e) changelog signature s = fail_with (text "Corrupted tar archive: " ++ e) s
  on_entry (ok entry) changelog signature s = on_path entry.path entry changelog signature s

  -- The loop `'update`. An archive that ends leaves the status as it is.
  unfoldable pub entries_loop :
      List (Result Text Entry) → Option Text → Option (List ℕ) → ServiceState H → Flow H
  entries_loop [] changelog signature s = next s
  entries_loop (entry ∷ rest) changelog signature s =
      resume (on_entry entry changelog signature s)
        (λ changelog' signature' s'. entries_loop rest changelog' signature' s')

  unfoldable pub refused : ServiceError → ServiceState H → Flow H
  refused no_update_available s = next (set_status idle s)
  refused e s = next (set_status (failed source_desc (display e)) s)

  unfoldable pub read_archive : Result ServiceError Archive → ServiceState H → Flow H
  read_archive (err e) s = refused e s
  read_archive (ok (err e)) s =
      next (set_status (failed source_desc (text "Failed to read archive entries")) s)
  read_archive (ok (ok entries)) s = entries_loop entries none none s

module _ (X : External) {H : Host} (Q : Sources H) (inner : ServiceInner)
    (auto_install : Bool) where
  -- For a file, `NoUpdateAvailable` does not come up.
  unfoldable pub contents : UpdateSource → H.State → Result ServiceError Archive
  unfolding extract_url_update_contents extract_file_update_contents
  contents (url u) s = extract_url_update_contents Q s u
  contents (file path) s = extract_file_update_contents Q s path

  -- One request, from `Checking` on.
  unfoldable pub handle_request : UpdateSource → ServiceState H → Flow H
  handle_request source s =
      read_archive X inner auto_install (describe source) (contents source s.env.host)
        (set_status checking s)

  -- The loop `'check_req`, over the requests that come before the channel is closed.
  unfoldable pub update_request_loop : List UpdateSource → ServiceState H → Flow H
  update_request_loop [] s = next s
  update_request_loop (request ∷ rest) s =
      and_then (handle_request request s) (λ s'. update_request_loop rest s')
