-- ===== src/Service/Requests/Ends.antt =====
-- src/service.rs, `update_request_loop`: what a request without an update leaves.
use embuer.Base.{ℕ, List, [], ◌∷◌, ◌≡◌, refl, Bool, false, Option, none, some, Result, ok}
use embuer.Text.{Text, text, text_eq}
use embuer.Text.Laws.{text_eq_refl}
use embuer.Host.{Host}
use embuer.Status.{checking}
use embuer.Service.State.{UpdateSource, ServiceInner, ServiceState, set_status}
use embuer.Service.Process.{External}
use embuer.Service.Requests.{
  Entry, Sources, next, go, resume, on_changelog, on_content, on_signature, on_path, on_entry,
  entries_loop, read_archive, contents, describe, handle_request,
}

-- An entry that can be read and is not the update.
pub data NoUpdate : Result Text Entry → Type 0 where
  changelog :
      (entry : Entry) (content : Text)
      → entry.path ≡ ok (text "CHANGELOG")
      → entry.read_to_string ≡ ok content
      → NoUpdate (ok entry)
  signature :
      (entry : Entry) (b : ℕ) (content : List ℕ)
      → entry.path ≡ ok (text "update.signature")
      → entry.read_to_end ≡ ok (b ∷ content)
      → NoUpdate (ok entry)
  other :
      (entry : Entry) (path : Text)
      → entry.path ≡ ok path
      → text_eq path (text "CHANGELOG") ≡ false
      → text_eq path (text "update.signature") ≡ false
      → text_eq path (text "update.btrfs.xz") ≡ false
      → NoUpdate (ok entry)

pub data NoUpdates : List (Result Text Entry) → Type 0 where
  nothing : NoUpdates []
  one_more :
      (entry : Result Text Entry) (rest : List (Result Text Entry))
      → NoUpdate entry
      → NoUpdates rest
      → NoUpdates (entry ∷ rest)

signature_is_no_changelog : text_eq (text "update.signature") (text "CHANGELOG") ≡ false
unfolding text_eq text
signature_is_no_changelog = refl

module _ (X : External) {H : Host} (inner : ServiceInner) (auto : Bool) where
  on_entry-NoUpdate :
      (source : Text) (entry : Result Text Entry) (c g : Option (List ℕ)) (s : ServiceState H)
      → NoUpdate entry
      → (c' : Option (List ℕ)) × (g' : Option (List ℕ)) × (on_entry X inner auto source entry c g s
          ≡ go c' g' s)
  unfolding on_entry on_path on_changelog on_signature on_content
  on_entry-NoUpdate source _ c g s (changelog entry content p r) =
      (some content, g, rw (p, text_eq_refl (text "CHANGELOG"), r) refl)
  on_entry-NoUpdate source _ c g s (signature entry b content p r) = (
    c,
    some (b ∷ content),
    rw (p, signature_is_no_changelog, text_eq_refl (text "update.signature"), r) refl,
  )
  on_entry-NoUpdate source _ c g s (other entry path p f₁ f₂ f₃) = (c, g, rw (p, f₁, f₂, f₃) refl)

  entries_loop-NoUpdates :
      (source : Text) (entries : List (Result Text Entry)) (c g : Option (List ℕ))
      (s : ServiceState H)
      → NoUpdates entries
      → entries_loop X inner auto source entries c g s ≡ next s
  unfolding entries_loop resume
  entries_loop-NoUpdates source _ c g s nothing = refl
  entries_loop-NoUpdates source _ c g s (one_more entry rest one more) =
      let (c', g', e) = on_entry-NoUpdate source entry c g s one in
      rw e (entries_loop-NoUpdates source rest c' g' s more)

  -- A request whose archive opens, and whose entries can all be read and are not the update, comes
  -- to an end with the status `Checking`, and with nothing else changed: no client is told that the
  -- request failed.
  pub handle_request-NoUpdates :
      (Q : Sources H) (source : UpdateSource) (entries : List (Result Text Entry))
      (s : ServiceState H)
      → contents X Q inner auto source s.env.host ≡ ok (ok entries)
      → NoUpdates entries
      → handle_request X Q inner auto source s ≡ next (set_status checking s)
  unfolding handle_request read_archive
  handle_request-NoUpdates Q source entries s opened none_is =
      rw opened (entries_loop-NoUpdates (describe source) entries none none _ none_is)
