-- ===== src/Manifest.antt =====
-- src/manifest.rs: the manifest that a deployment carries. The JSON parser is `serde_json`, a
-- parameter: a manifest, or the text of its error.
pub mod Laws
use embuer.Base.{Bool, Option, Result, map_err}
use embuer.Text.{Text}
use embuer.Error.{ServiceError, json_error}
use embuer.Host.{os, Host, M, lift, ◌>>=◌, asks}

pub record Manifest : Type 0 where
  pub version : Text
  pub readonly : Bool
  pub install_script : Option Text
  pub uninstall_script : Option Text

module _ (from_str : Text → Result Text Manifest) where
  unfoldable pub new : Text → Result ServiceError Manifest
  new json_str = map_err json_error (from_str json_str)

  unfoldable pub from_file : (H : Host) → Text → M H Manifest
  unfolding new
  from_file H path = do s ← asks (λ s. map_err os (H.read_to_string s path)); lift (new s)
