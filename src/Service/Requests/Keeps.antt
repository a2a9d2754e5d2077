-- ===== src/Service/Requests/Keeps.antt =====
-- src/service.rs, `update_request_loop`: an induction over everything that the loop does.
use embuer.Base.{
  ℕ, List, [], ◌∷◌, Bool, true, false, Option, none, Result, ok, err, if◌then◌else◌, All,
}
use embuer.Text.{Text, text, text_eq}
use embuer.Error.{
  ServiceError, missing_privileges_error, missing_configuration_error, zbus_error, io_error,
  btrfs_error, missing_rootfs_dir, missing_deployments_dir, pkcs1_error, json_error, join_error,
  pub_key_import_error, no_update_available, missing_update_size,
}
use embuer.Host.{Host, error, panic, abort}
use embuer.Status.{UpdateStatus}
use embuer.Stream.{Poll}
use embuer.Service.State.{UpdateSource, ServiceInner, ServiceState, set_status}
use embuer.Service.Process.{External, Outcome, process_update_entry}
use embuer.Service.Requests.{
  Entry, Archive, Sources, Flow, next, dead, Step, leave, go, fail_with, on_changelog, on_content,
  on_signature, processed, on_update, on_path, on_entry, entries_loop, resume, and_then, refused,
  read_archive, contents, describe, handle_request, update_request_loop,
}
use embuer.Service.Requests.Holds.{
  AtRest, OutcomeHolds, FlowHolds, StepHolds, SignatureHolds, ContentHolds, EntryHolds,
  ArchiveHolds,
}

-- What each status at rest keeps, and each update entry with a signature of `G` and a stream of `S`,
-- from every source, the loop keeps when the sources serve no other signatures and streams.
module _ (X : External) {H : Host} (inner : ServiceInner) (auto : Bool) (G : List ℕ → Type 0)
    (S : List Poll → Type 0) (P D : ServiceState H → Type 0)
    (by_status : (status : UpdateStatus)
      → AtRest status
      → (s : ServiceState H) → P s
      → P (set_status status s))
    (by_process : (source : Text) (changelog signature : Option Text) (stream : List Poll)
        (size : ℕ) (s : ServiceState H)
      → SignatureHolds G signature
      → S stream
      → P s
      → OutcomeHolds P D
          (process_update_entry X inner source auto changelog signature stream size s)) where
  module _ (source : Text) where
    on_changelog-keeps :
        (content : Result Text Text) (signature : Option Text) (s : ServiceState H)
        → SignatureHolds G signature
        → P s
        → StepHolds P D G (on_changelog X inner auto source content signature s)
    unfolding on_changelog fail_with
    on_changelog-keeps (err e) signature s g h = by_status _ tt s h
    on_changelog-keeps (ok content) signature s g h = (h, g)

    on_content-keeps :
        (changelog : Option Text) (content : Text) (s : ServiceState H)
        → G content
        → P s
        → StepHolds P D G (on_content X inner auto source changelog content s)
    unfolding on_content fail_with
    on_content-keeps changelog [] s g h = by_status _ tt s h
    on_content-keeps changelog (b ∷ content) s g h = (h, g)

    on_signature-keeps :
        (content : Result Text Text) (changelog : Option Text) (s : ServiceState H)
        → ContentHolds G S content
        → P s
        → StepHolds P D G (on_signature X inner auto source content changelog s)
    unfolding on_signature fail_with
    on_signature-keeps (err e) changelog s g h = by_status _ tt s h
    on_signature-keeps (ok content) changelog s g h = on_content-keeps changelog content s g h

    processed-keeps :
        (changelog signature : Option Text) (r : Outcome H)
        → SignatureHolds G signature
        → OutcomeHolds P D r
        → StepHolds P D G (processed X inner auto source changelog signature r)
    unfolding processed
    processed-keeps changelog signature (ok true, s) g h = (h, g)
    processed-keeps changelog signature (ok false, s) g h = h
    processed-keeps changelog signature (err (error e), s) g h = h
    processed-keeps changelog signature (err panic, s) g h = h
    processed-keeps changelog signature (err abort, s) g h = h

    on_update-keeps :
        (size : Result Text ℕ) (stream : List Poll) (changelog signature : Option Text)
        (s : ServiceState H)
        → SignatureHolds G signature
        → S stream
        → P s
        → StepHolds P D G (on_update X inner auto source size stream changelog signature s)
    unfolding on_update fail_with
    on_update-keeps (err e) stream changelog signature s g k h = by_status _ tt s h
    on_update-keeps (ok size) stream changelog signature s g k h =
        processed-keeps changelog signature
          (process_update_entry X inner source auto changelog signature stream size s) g
          (by_process source changelog signature stream size s g k h)

    if-keeps :
        (b : Bool) (m n : Step H)
        → StepHolds P D G m
        → StepHolds P D G n
        → StepHolds P D G (if b then m else n)
    if-keeps true m n h k = h
    if-keeps false m n h k = k

    on_path-keeps :
        (path : Result Text Text) (entry : Entry) (changelog signature : Option Text)
        (s : ServiceState H)
        → SignatureHolds G signature
        → EntryHolds G S (ok entry)
        → P s
        → StepHolds P D G (on_path X inner auto source path entry changelog signature s)
    unfolding on_path
    on_path-keeps (err e) entry changelog signature s g k h = (h, g)
    on_path-keeps (ok path) entry changelog signature s g (c, k) h =
        if-keeps (text_eq path (text "CHANGELOG")) _ _
          (on_changelog-keeps entry.read_to_string signature s g h)
          (if-keeps (text_eq path (text "update.signature")) _ _
            (on_signature-keeps entry.read_to_end changelog s c h)
            (if-keeps (text_eq path (text "update.btrfs.xz")) _ _
              (on_update-keeps entry.entry_size entry.stream changelog signature s g k h) (h, g)))

    on_entry-keeps :
        (entry : Result Text Entry) (changelog signature : Option Text) (s : ServiceState H)
        → SignatureHolds G signature
        → EntryHolds G S entry
        → P s
        → StepHolds P D G (on_entry X inner auto source entry changelog signature s)
    unfolding on_entry fail_with
    on_entry-keeps (err e) changelog signature s g k h = by_status _ tt s h
    on_entry-keeps (ok entry) changelog signature s g k h =
        on_path-keeps entry.path entry changelog signature s g k h

    resume-keeps :
        (step : Step H) (more : Option Text → Option Text → ServiceState H → Flow H)
        → StepHolds P D G step
        → ((c g : Option Text) (s : ServiceState H)
            → SignatureHolds G g
            → P s
            → FlowHolds P D (more c g s))
        → FlowHolds P D (resume step more)
    unfolding resume
    resume-keeps (leave f) more h k = h
    resume-keeps (go c g s) more (h, j) k = k c g s j h

    entries_loop-keeps :
        (entries : List (Result Text Entry)) (changelog signature : Option Text)
        (s : ServiceState H)
        → SignatureHolds G signature
        → All (EntryHolds G S) entries
        → P s
        → FlowHolds P D (entries_loop X inner auto source entries changelog signature s)
    unfolding entries_loop
    entries_loop-keeps [] changelog signature s g k h = h
    entries_loop-keeps (entry ∷ rest) changelog signature s g (k, ks) h =
        resume-keeps (on_entry X inner auto source entry changelog signature s) _
          (on_entry-keeps entry changelog signature s g k h)
          (λ c g' t i j. entries_loop-keeps rest c g' t i ks j)

    refused-keeps :
        (e : ServiceError) (s : ServiceState H)
        → P s
        → FlowHolds P D (refused X inner auto source e s)
    unfolding refused
    refused-keeps missing_privileges_error s h = by_status _ tt s h
    refused-keeps (missing_configuration_error x) s h = by_status _ tt s h
    refused-keeps (zbus_error x) s h = by_status _ tt s h
    refused-keeps (io_error x) s h = by_status _ tt s h
    refused-keeps (btrfs_error x) s h = by_status _ tt s h
    refused-keeps missing_rootfs_dir s h = by_status _ tt s h
    refused-keeps missing_deployments_dir s h = by_status _ tt s h
    refused-keeps (pkcs1_error x) s h = by_status _ tt s h
    refused-keeps (json_error x) s h = by_status _ tt s h
    refused-keeps (join_error x) s h = by_status _ tt s h
    refused-keeps pub_key_import_error s h = by_status _ tt s h
    refused-keeps no_update_available s h = by_status _ tt s h
    refused-keeps missing_update_size s h = by_status _ tt s h

    read_archive-keeps :
        (archive : Result ServiceError Archive) (s : ServiceState H)
        → ArchiveHolds G S archive
        → P s
        → FlowHolds P D (read_archive X inner auto source archive s)
    unfolding read_archive
    read_archive-keeps (err e) s k h = refused-keeps e s h
    read_archive-keeps (ok (err e)) s k h = by_status _ tt s h
    read_archive-keeps (ok (ok entries)) s k h = entries_loop-keeps entries none none s tt k h

  module _ (Q : Sources H)
      (served : (source : UpdateSource) (at : H.State)
        → ArchiveHolds G S (contents X Q inner auto source at)) where
    handle_request-keeps :
        (source : UpdateSource) (s : ServiceState H)
        → P s
        → FlowHolds P D (handle_request X Q inner auto source s)
    unfolding handle_request
    handle_request-keeps source s h =
        read_archive-keeps (describe source) (contents X Q inner auto source s.env.host) _
          (served source s.env.host) (by_status _ tt s h)

    and_then-keeps :
        (flow : Flow H) (more : ServiceState H → Flow H)
        → FlowHolds P D flow
        → ((s : ServiceState H) → P s → FlowHolds P D (more s))
        → FlowHolds P D (and_then flow more)
    unfolding and_then
    and_then-keeps (dead s) more h k = h
    and_then-keeps (next s) more h k = k s h

    pub update_request_loop-keeps :
        (requests : List UpdateSource) (s : ServiceState H)
        → P s
        → FlowHolds P D (update_request_loop X Q inner auto requests s)
    unfolding update_request_loop
    update_request_loop-keeps [] s h = h
    update_request_loop-keeps (request ∷ rest) s h =
        and_then-keeps (handle_request X Q inner auto request s) _
          (handle_request-keeps request s h) (λ t k. update_request_loop-keeps rest t k)
