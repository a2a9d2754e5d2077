-- ===== src/Build/Agrees.antt =====
-- build.rs and src/ffi.rs: the C header says what the library exports.
use embuer.Base.{
  List, [], ◌∷◌, ◌≡◌, refl, ap, Option, none, some, Bool, true, false, ◌||◌, if◌then◌else◌,
}
use embuer.Text.{Text, text, text_eq}
use embuer.Status.{
  UpdateStatus, idle, checking, clearing, installing, awaiting_confirmation, completed, failed,
  as_str,
}
use embuer.Ffi.{
  ℤ, Code, value, embuer_ok, embuer_err_null_ptr, embuer_err_connection, embuer_err_dbus,
  embuer_err_invalid_string, embuer_err_runtime, embuer_err_no_pending_update,
}
use embuer.Ffi.Exports.{
  RustType, c_int, c_char, c_void, u64, unit, client, mut_pointer, const_pointer, Export,
  status_callback, embuer_client_new, embuer_client_free, embuer_get_boot_info, embuer_get_status,
  embuer_install_from_file, embuer_install_from_url, embuer_free_string, embuer_get_pending_update,
  embuer_confirm_update, embuer_watch_status, name, fn_type, code_name,
}
use embuer.Build.Header.{generate_header}
use embuer.Build.Declarations.{
  CType, named, constant, pointer, Signature, prototypes, defines, statuses,
}

-- The C type with the representation of a Rust type.
abbrev pub c_abi : RustType → CType
c_abi c_int = named (text "int")
c_abi c_char = named (text "char")
c_abi c_void = named (text "void")
c_abi u64 = named (text "uint64_t")
c_abi unit = named (text "void")
c_abi client = named (text "embuer_client_t")
c_abi RustType.status_callback = named (text "StatusCallback")
c_abi (mut_pointer t) = pointer (c_abi t)
c_abi (const_pointer t) = pointer (constant (c_abi t))

abbrev pub c_abis : List RustType → List CType
c_abis [] = []
c_abis (t ∷ ts) = c_abi t ∷ c_abis ts

abbrev pub signature : Export → Signature
signature f = record { result = c_abi (fn_type f).result; params = c_abis (fn_type f).params }

-- All that is exported, in the order of the header.
abbrev pub exports : List Export
exports =
    status_callback ∷ embuer_client_new ∷ embuer_client_free ∷ embuer_get_boot_info
    ∷ embuer_get_status ∷ embuer_install_from_file ∷ embuer_install_from_url ∷ embuer_free_string
    ∷ embuer_get_pending_update ∷ embuer_confirm_update ∷ embuer_watch_status ∷ []

abbrev pub signatures : List Export → List (Text × Signature)
signatures [] = []
signatures (f ∷ fs) = (name f, signature f) ∷ signatures fs

header_prototypes : prototypes generate_header ≡ signatures exports
unfolding prototypes generate_header text name fn_type text_eq
header_prototypes = refl

abbrev pub codes : List Code
codes =
    embuer_ok ∷ embuer_err_null_ptr ∷ embuer_err_connection ∷ embuer_err_dbus
    ∷ embuer_err_invalid_string ∷ embuer_err_runtime ∷ embuer_err_no_pending_update ∷ []

abbrev pub values : List Code → List (Text × ℤ)
values [] = []
values (c ∷ cs) = (code_name c, value c) ∷ values cs

header_defines : defines generate_header ≡ values codes
unfolding defines generate_header text code_name value text_eq
header_defines = refl

abbrev pub find : {A : Type 0} → Text → List (Text × A) → Option A
find n [] = none
find n ((m, a) ∷ rest) = if text_eq m n then some a else find n rest

abbrev pub mem : Text → List Text → Bool
mem n [] = false
mem n (m ∷ ms) = text_eq m n || mem n ms

declared : (f : Export) → find (name f) (prototypes generate_header) ≡ some (signature f)
unfolding name fn_type text text_eq
declared status_callback = rw header_prototypes refl
declared _ = rw header_prototypes refl

defined : (c : Code) → find (code_name c) (defines generate_header) ≡ some (value c)
unfolding code_name value text text_eq
defined embuer_ok = rw header_defines refl
defined _ = rw header_defines refl

listed : (s : UpdateStatus) → mem (as_str s) (statuses generate_header) ≡ true
unfolding as_str statuses generate_header text text_eq
listed idle = refl
listed checking = refl
listed clearing = refl
listed (installing source p) = refl
listed (awaiting_confirmation version source) = refl
listed (completed source deployment) = refl
listed (failed source error) = refl

-- The C header agrees with the library. It declares each exported function, and the callback, with
-- the C types that have the representation of its Rust types, and declares nothing else with
-- parameters; it defines each error code with its value; and it lists each name of a status that
-- `embuer_get_status` can give.
pub generate_header-Agrees :
    (f : Export) (c : Code) (s : UpdateStatus) (n : Text)
    → (find (name f) (prototypes generate_header) ≡ some (signature f))
      × (find n (prototypes generate_header) ≡ find n (signatures exports))
      × (find (code_name c) (defines generate_header) ≡ some (value c))
      × (mem (as_str s) (statuses generate_header) ≡ true)
generate_header-Agrees f c s n = (declared f, ap (find n) header_prototypes, defined c, listed s)
