-- ===== src/Ffi.antt =====
-- src/ffi.rs: the functions for C. A pointer is null or an address, and the memory of the caller is
-- a function on addresses. `client` says whether the handle is not null.
pub mod Watch
pub mod Writes
pub mod Answers
pub mod Delivers
pub mod Exports
use embuer.Base.{
  ℕ, Bool, true, false, Option, none, some, Result, ok, err, List, [], ◌∷◌, if◌then◌else◌, ◌==◌,
  ◌||◌, not,
}
use embuer.Text.{Text}
use embuer.Host.{Host}
use embuer.Status.{Progress, unknown, percent}
use embuer.Dbus.{Shown}
use embuer.Proxy.{Link, System}
use embuer.Proxy as proxy

pub data ℤ : Type 0 where
  pos : ℕ → ℤ
  negsuc : ℕ → ℤ

-- The error codes
pub data Code : Type 0 where
  embuer_ok embuer_err_null_ptr embuer_err_connection embuer_err_dbus : Code
  embuer_err_invalid_string embuer_err_runtime embuer_err_no_pending_update : Code

unfoldable pub value : Code → ℤ
value embuer_ok = pos 0
value embuer_err_null_ptr = negsuc 0
value embuer_err_connection = negsuc 1
value embuer_err_dbus = negsuc 2
value embuer_err_invalid_string = negsuc 3
value embuer_err_runtime = negsuc 4
value embuer_err_no_pending_update = negsuc 5

pub data Value : Type 0 where
  unset : Value
  string : Text → Value
  u64 : ℕ → Value
  int : ℤ → Value

abbrev pub Pointer : Type 0
Pointer = Option ℕ

abbrev pub Memory : Type 0
Memory = ℕ → Value

-- A C string that the caller gives: null, not UTF-8, or a text.
abbrev pub CText : Type 0
CText = Option (Option Text)

-- Whether `embuer_client_new` gives a handle: the runtime and the connection may fail.
unfoldable pub embuer_client_new : Option Text → Option Text → Bool
embuer_client_new none none = true
embuer_client_new runtime connection = false

-- `CString::new` refuses a text with a NUL character.
unfoldable pub has_nul : Text → Bool
has_nul [] = false
has_nul (c ∷ s) = c == 0 || has_nul s

unfoldable pub write_all : List (ℕ × Value) → Memory → Memory
write_all [] mem = mem
write_all ((address, v) ∷ rest) mem = write_all rest (λ a. if a == address then v else mem a)

unfoldable pub c_int : Progress → ℤ
c_int unknown = negsuc 0
c_int (percent n) = pos n

unfoldable pub nonzero : ℤ → Bool
nonzero (pos n) = not (n == 0)
nonzero (negsuc n) = true

-- The code, the memory and the service behind a call.
abbrev pub Called : Host → Type 0
Called H = Code × Memory × System H

module _ {H : Host} where
  -- The end of a call whose strings are made first and written together.
  unfoldable pub finish : Bool → List (ℕ × Value) → Memory → System H → Called H
  unfolding write_all
  finish true writes mem s = (embuer_err_invalid_string, mem, s)
  finish false writes mem s = (embuer_ok, write_all writes mem, s)

  unfoldable pub message : ℕ → Memory → Result Text Text × System H → Called H
  unfolding finish has_nul
  message out mem (ok msg, s) = finish (has_nul msg) ((out, string msg) ∷ []) mem s
  message out mem (err e, s) = (embuer_err_dbus, mem, s)

  boot_info : ℕ → ℕ → Memory → Result Text (ℕ × Text) × System H → Called H
  unfolding finish has_nul
  boot_info id_out name_out mem (ok (id, name), s) =
      finish (has_nul name) ((id_out, u64 id) ∷ (name_out, string name) ∷ []) mem s
  boot_info id_out name_out mem (err e, s) = (embuer_err_dbus, mem, s)

  unfoldable pub embuer_get_boot_info :
      Bool → Pointer → Pointer → Link → Memory → System H → Called H
  unfolding boot_info
  embuer_get_boot_info true (some id_out) (some name_out) link mem s =
      boot_info id_out name_out mem (proxy.get_boot_info link s)
  embuer_get_boot_info client id_out name_out link mem s = (embuer_err_null_ptr, mem, s)

  status : ℕ → ℕ → ℕ → Memory → Result Text Shown × System H → Called H
  unfolding finish has_nul c_int
  status status_out details_out progress_out mem (ok (name, details, progress), s) =
      finish (has_nul name || has_nul details)
        ((status_out, string name)
          ∷ (details_out, string details)
          ∷ (progress_out, int (c_int progress))
          ∷ [])
        mem s
  status status_out details_out progress_out mem (err e, s) = (embuer_err_dbus, mem, s)

  unfoldable pub embuer_get_status :
      Bool → Pointer → Pointer → Pointer → Link → Memory → System H → Called H
  unfolding status
  embuer_get_status true (some status_out) (some details_out) (some progress_out) link mem s =
      status status_out details_out progress_out mem (proxy.get_update_status link s)
  embuer_get_status client status_out details_out progress_out link mem s =
      (embuer_err_null_ptr, mem, s)

  unfoldable pub embuer_install_from_file :
      Bool → CText → Pointer → Link → Memory → System H → Called H
  unfolding message
  embuer_install_from_file true (some (some path)) (some out) link mem s =
      message out mem (proxy.install_update_from_file path link s)
  embuer_install_from_file true (some none) (some out) link mem s =
      (embuer_err_invalid_string, mem, s)
  embuer_install_from_file client path out link mem s = (embuer_err_null_ptr, mem, s)

  unfoldable pub embuer_install_from_url :
      Bool → CText → Pointer → Link → Memory → System H → Called H
  unfolding message
  embuer_install_from_url true (some (some u)) (some out) link mem s =
      message out mem (proxy.install_update_from_url u link s)
  embuer_install_from_url true (some none) (some out) link mem s =
      (embuer_err_invalid_string, mem, s)
  embuer_install_from_url client u out link mem s = (embuer_err_null_ptr, mem, s)

  -- Each error of the call is taken for a service without a pending update.
  unfoldable pub pending :
      ℕ → ℕ → ℕ → Memory → Result Text (Text × Text × Text) × System H → Called H
  unfolding finish has_nul
  pending version_out changelog_out source_out mem (ok (version, changelog, source), s) =
      finish (has_nul version || has_nul changelog || has_nul source)
        ((version_out, string version)
          ∷ (changelog_out, string changelog)
          ∷ (source_out, string source)
          ∷ [])
        mem s
  pending version_out changelog_out source_out mem (err e, s) =
      (embuer_err_no_pending_update, mem, s)

  unfoldable pub embuer_get_pending_update :
      Bool → Pointer → Pointer → Pointer → Link → Memory → System H → Called H
  unfolding pending
  embuer_get_pending_update true (some version_out) (some changelog_out) (some source_out) link mem
        s =
      pending version_out changelog_out source_out mem (proxy.get_pending_update link s)
  embuer_get_pending_update client version_out changelog_out source_out link mem s =
      (embuer_err_null_ptr, mem, s)

  unfoldable pub embuer_confirm_update : Bool → ℤ → Pointer → Link → Memory → System H → Called H
  unfolding message nonzero
  embuer_confirm_update true accepted (some out) link mem s =
      message out mem (proxy.confirm_update (nonzero accepted) link s)
  embuer_confirm_update client accepted out link mem s = (embuer_err_null_ptr, mem, s)
