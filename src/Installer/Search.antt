-- ===== src/Installer/Search.antt =====
-- src/bin/embuer-installer.rs, `extract_update_stream_from_package`: which entry it returns.
use embuer.Base.{
  ◌≡◌, ◌↔◌, refl, sym, ap, ◌∙◌, false, List, [], ◌∷◌, Result, ok, err, Bool-cases, inl, inr,
}
use embuer.Error.{ServiceError}
use embuer.Text.{Text, text, text_eq}
use embuer.Text.Laws.{text_eq→eq}
use embuer.Stream.{Poll}
use embuer.Service.Requests.{Entry}
use embuer.Installer.Package.{after_read, package_entry, find_update}

abbrev changelog_path : Text
changelog_path = text "CHANGELOG"

abbrev update_path : Text
update_path = text "update.btrfs.xz"

-- An entry that the search reads past: a CHANGELOG that can be read, or a file of another name.
pub data Passed (entry : Entry) : Type 0 where
  changelog :
      (content : Text)
      → entry.path ≡ ok changelog_path
      → entry.read_to_string ≡ ok content
      → Passed entry
  other :
      (path : Text)
      → entry.path ≡ ok path
      → text_eq path changelog_path ≡ false
      → text_eq path update_path ≡ false
      → Passed entry

-- `stream` is that of the first update of the package, behind entries that are passed.
pub data Selects (stream : List Poll) : List (Result Text Entry) → Type 0 where
  at_update :
      (entry : Entry) (rest : List (Result Text Entry))
      → entry.path ≡ ok update_path
      → entry.stream ≡ stream
      → Selects stream (ok entry ∷ rest)
  behind :
      (entry : Entry) (rest : List (Result Text Entry))
      → Passed entry
      → Selects stream rest
      → Selects stream (ok entry ∷ rest)

module _ (stream : List Poll) where
  read-ok :
      (content : Result Text Text) (rest : Result ServiceError (List Poll))
      → after_read content rest ≡ ok stream
      → (t : Text) × (content ≡ ok t) × (rest ≡ ok stream)
  unfolding after_read
  read-ok (err e) rest h = cc
  read-ok (ok t) rest h = (t, refl, h)

  entry-Selects :
      (entry : Entry) (rest : List (Result Text Entry)) (path : Result Text Text)
      → entry.path ≡ path
      → (find_update rest ≡ ok stream → Selects stream rest)
      → package_entry path entry (find_update rest) ≡ ok stream
      → Selects stream (ok entry ∷ rest)
  unfolding package_entry
  entry-Selects entry rest (err e) p next h = cc
  entry-Selects entry rest (ok path) p next h = elim (Bool-cases (text_eq path changelog_path)) [
    | inl is_log ↦
        let (content, q, r) =
          read-ok entry.read_to_string (find_update rest) (sym (rw is_log refl) ∙ h) in
        behind entry rest (changelog content (p ∙ ap ok (text_eq→eq path changelog_path is_log)) q)
          (next r)
    | inr not_log ↦ elim (Bool-cases (text_eq path update_path)) [
      | inl is_update ↦
          let q : ok entry.stream ≡ ok stream = sym (rw (not_log, is_update) refl) ∙ h in
          at_update entry rest (p ∙ ap ok (text_eq→eq path update_path is_update)) cc
      | inr not_update ↦
          behind entry rest (other path p not_log not_update)
            (next (sym (rw (not_log, not_update) refl) ∙ h))
    ]
  ]

  find_update_sound :
      (entries : List (Result Text Entry))
      → find_update entries ≡ ok stream
      → Selects stream entries
  unfolding find_update
  find_update_sound [] h = cc
  find_update_sound (err e ∷ rest) h = cc
  find_update_sound (ok entry ∷ rest) h =
      entry-Selects entry rest entry.path refl (find_update_sound rest) h

  find_update_complete :
      (entries : List (Result Text Entry))
      → Selects stream entries
      → find_update entries ≡ ok stream
  unfolding find_update package_entry after_read text_eq text
  find_update_complete _ (at_update entry rest p q) = rw (p, q) refl
  find_update_complete _ (behind entry rest (changelog content p q) s) =
      rw (p, q) (find_update_complete rest s)
  find_update_complete _ (behind entry rest (other path p q r) s) =
      rw (p, q, r) (find_update_complete rest s)

  -- The search returns a stream exactly when it is that of the first update.btrfs.xz of the package
  -- and each entry in front of it is a readable CHANGELOG or has another readable name.
  pub find_update-Selects :
      (entries : List (Result Text Entry))
      → find_update entries ≡ ok stream ↔ Selects stream entries
  find_update-Selects entries = (find_update_sound entries, find_update_complete entries)
