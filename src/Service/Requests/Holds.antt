-- ===== src/Service/Requests/Holds.antt =====
-- src/service.rs, `update_request_loop`: predicates on what the loop comes to, and on what the
-- sources serve.
use embuer.Base.{ℕ, List, [], ◌∷◌, Option, none, some, Result, ok, err, All}
use embuer.Text.{Text}
use embuer.Error.{ServiceError}
use embuer.Host.{Host, error, panic, abort}
use embuer.Status.{
  UpdateStatus, idle, checking, clearing, installing, awaiting_confirmation, completed, failed,
}
use embuer.Stream.{Poll}
use embuer.Service.State.{ServiceState}
use embuer.Service.Process.{Outcome}
use embuer.Service.Requests.{Entry, Archive, Flow, next, dead, Step, leave, go}

-- A status that the loop may set outside of an update entry.
abbrev pub AtRest : UpdateStatus → Type 0
AtRest idle = Unit
AtRest checking = Unit
AtRest (completed source deployment) = Unit
AtRest (failed source message) = Unit
AtRest clearing = ⊥
AtRest (installing source p) = ⊥
AtRest (awaiting_confirmation version source) = ⊥

-- `G` of the contents of a signature that was collected.
abbrev pub SignatureHolds : (List ℕ → Type 0) → Option (List ℕ) → Type 0
SignatureHolds G none = Unit
SignatureHolds G (some content) = G content

-- `P` of a state that the task goes on from, and `D` of one in which a panic has ended it.
module _ {H : Host} (P D : ServiceState H → Type 0) where
  abbrev pub OutcomeHolds : Outcome H → Type 0
  OutcomeHolds (ok b, s) = P s
  OutcomeHolds (err (error e), s) = P s
  OutcomeHolds (err panic, s) = D s
  OutcomeHolds (err abort, s) = D s

  abbrev pub FlowHolds : Flow H → Type 0
  FlowHolds (next s) = P s
  FlowHolds (dead s) = D s

  module _ (G : List ℕ → Type 0) where
    abbrev pub StepHolds : Step H → Type 0
    StepHolds (leave f) = FlowHolds f
    StepHolds (go changelog signature s) = P s × SignatureHolds G signature

-- In an archive, what can be read to its end satisfies `G`, and the streams satisfy `S`.
module _ (G : List ℕ → Type 0) (S : List Poll → Type 0) where
  abbrev pub ContentHolds : Result Text (List ℕ) → Type 0
  ContentHolds (err e) = Unit
  ContentHolds (ok content) = G content

  abbrev pub EntryHolds : Result Text Entry → Type 0
  EntryHolds (err e) = Unit
  EntryHolds (ok entry) = ContentHolds entry.read_to_end × S entry.stream

  abbrev pub ArchiveHolds : Result ServiceError Archive → Type 0
  ArchiveHolds (err e) = Unit
  ArchiveHolds (ok (err e)) = Unit
  ArchiveHolds (ok (ok entries)) = All EntryHolds entries

abbrev pub Any : {A : Type 0} → A → Type 0
Any a = Unit

every_content : (content : Result Text (List ℕ)) → ContentHolds Any Any content
every_content (err e) = tt
every_content (ok bytes) = tt

every_entry : (entries : List (Result Text Entry)) → All (EntryHolds Any Any) entries
every_entry [] = tt
every_entry (err e ∷ rest) = (tt, every_entry rest)
every_entry (ok entry ∷ rest) = ((every_content entry.read_to_end, tt), every_entry rest)

pub Any-Archive : (archive : Result ServiceError Archive) → ArchiveHolds Any Any archive
Any-Archive (err e) = tt
Any-Archive (ok (err e)) = tt
Any-Archive (ok (ok entries)) = every_entry entries
