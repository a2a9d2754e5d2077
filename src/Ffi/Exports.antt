-- ===== src/Ffi/Exports.antt =====
-- src/ffi.rs: the types of the exported functions.
use embuer.Base.{List, [], ◌∷◌}
use embuer.Text.{Text, text}
use embuer.Ffi.{
  Code, embuer_ok, embuer_err_null_ptr, embuer_err_connection, embuer_err_dbus,
  embuer_err_invalid_string, embuer_err_runtime, embuer_err_no_pending_update,
}

pub data RustType : Type 0 where
  c_int c_char c_void u64 unit client status_callback : RustType
  mut_pointer const_pointer : RustType → RustType

-- The functions, and the type of the callback.
pub data Export : Type 0 where
  status_callback embuer_client_new embuer_client_free embuer_get_boot_info : Export
  embuer_get_status embuer_install_from_file embuer_install_from_url embuer_free_string : Export
  embuer_get_pending_update embuer_confirm_update embuer_watch_status : Export

unfoldable pub name : Export → Text
name status_callback = text "StatusCallback"
name embuer_client_new = text "embuer_client_new"
name embuer_client_free = text "embuer_client_free"
name embuer_get_boot_info = text "embuer_get_boot_info"
name embuer_get_status = text "embuer_get_status"
name embuer_install_from_file = text "embuer_install_from_file"
name embuer_install_from_url = text "embuer_install_from_url"
name embuer_free_string = text "embuer_free_string"
name embuer_get_pending_update = text "embuer_get_pending_update"
name embuer_confirm_update = text "embuer_confirm_update"
name embuer_watch_status = text "embuer_watch_status"

-- `*mut *mut c_char`
abbrev string_out : RustType
string_out = mut_pointer (mut_pointer c_char)

pub record FnType : Type 0 where
  pub params : List RustType
  pub result : RustType

unfoldable pub status_callback_type : FnType
status_callback_type = record {
  params = const_pointer c_char ∷ const_pointer c_char ∷ c_int ∷ mut_pointer c_void ∷ [];
  result = unit;
}

unfoldable pub embuer_client_new_type : FnType
embuer_client_new_type = record { params = []; result = mut_pointer client }

unfoldable pub embuer_client_free_type : FnType
embuer_client_free_type = record { params = mut_pointer client ∷ []; result = unit }

unfoldable pub embuer_get_boot_info_type : FnType
embuer_get_boot_info_type = record {
  params = mut_pointer client ∷ mut_pointer u64 ∷ string_out ∷ [];
  result = c_int;
}

unfoldable pub embuer_get_status_type : FnType
embuer_get_status_type = record {
  params = mut_pointer client ∷ string_out ∷ string_out ∷ mut_pointer c_int ∷ [];
  result = c_int;
}

unfoldable pub embuer_install_from_file_type : FnType
embuer_install_from_file_type = record {
  params = mut_pointer client ∷ const_pointer c_char ∷ string_out ∷ [];
  result = c_int;
}

unfoldable pub embuer_install_from_url_type : FnType
embuer_install_from_url_type = record {
  params = mut_pointer client ∷ const_pointer c_char ∷ string_out ∷ [];
  result = c_int;
}

unfoldable pub embuer_free_string_type : FnType
embuer_free_string_type = record { params = mut_pointer c_char ∷ []; result = unit }

unfoldable pub embuer_get_pending_update_type : FnType
embuer_get_pending_update_type = record {
  params = mut_pointer client ∷ string_out ∷ string_out ∷ string_out ∷ [];
  result = c_int;
}

unfoldable pub embuer_confirm_update_type : FnType
embuer_confirm_update_type = record {
  params = mut_pointer client ∷ c_int ∷ string_out ∷ [];
  result = c_int;
}

unfoldable pub embuer_watch_status_type : FnType
embuer_watch_status_type = record {
  params = mut_pointer client ∷ RustType.status_callback ∷ mut_pointer c_void ∷ [];
  result = c_int;
}

unfoldable pub fn_type : Export → FnType
unfolding status_callback_type embuer_client_new_type embuer_client_free_type
    embuer_get_boot_info_type embuer_get_status_type embuer_install_from_file_type
    embuer_install_from_url_type embuer_free_string_type embuer_get_pending_update_type
    embuer_confirm_update_type embuer_watch_status_type
fn_type status_callback = status_callback_type
fn_type embuer_client_new = embuer_client_new_type
fn_type embuer_client_free = embuer_client_free_type
fn_type embuer_get_boot_info = embuer_get_boot_info_type
fn_type embuer_get_status = embuer_get_status_type
fn_type embuer_install_from_file = embuer_install_from_file_type
fn_type embuer_install_from_url = embuer_install_from_url_type
fn_type embuer_free_string = embuer_free_string_type
fn_type embuer_get_pending_update = embuer_get_pending_update_type
fn_type embuer_confirm_update = embuer_confirm_update_type
fn_type embuer_watch_status = embuer_watch_status_type

unfoldable pub code_name : Code → Text
code_name embuer_ok = text "EMBUER_OK"
code_name embuer_err_null_ptr = text "EMBUER_ERR_NULL_PTR"
code_name embuer_err_connection = text "EMBUER_ERR_CONNECTION"
code_name embuer_err_dbus = text "EMBUER_ERR_DBUS"
code_name embuer_err_invalid_string = text "EMBUER_ERR_INVALID_STRING"
code_name embuer_err_runtime = text "EMBUER_ERR_RUNTIME"
code_name embuer_err_no_pending_update = text "EMBUER_ERR_NO_PENDING_UPDATE"
