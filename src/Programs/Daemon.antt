-- ===== src/Programs/Daemon.antt =====
-- src/bin/embuer-service.rs: the start of the service, up to the wait for the signal. What happens
-- behind it is in Service.Stop. The bus and the listener for signals are parameters.
pub mod Start
use embuer.Base.{
  ℕ, [], ◌∷◌, Bool, true, false, Option, none, some, Result, ok, err, if◌then◌else◌, ◌==◌,
}
use embuer.Text.{Text, text}
use embuer.Error.{
  ServiceError, missing_privileges_error, missing_configuration_error, zbus_error, io_os,
}
use embuer.Host.{Host, M, pure, throw, ensure, asks, lift, handle, ◌>>=◌, ◌>>◌}
use embuer.Signature.{PublicKey}
use embuer.Config.{Config, default, load_from}
use embuer.Btrfs as btrfs
use embuer.Service.State.{ServiceInner}
use embuer.Service.Start as service

-- `connection::Builder` to `build`, `interface`, and `signal`: what fails of them.
pub record System : Type 0 where
  pub uid : ℕ
  pub config : Text → Result Text Config
  pub from_pkcs1_pem : Text → Option PublicKey
  pub bus : Option Text
  pub interface : Option Text
  pub listener : Option Text

abbrev pub unless : {H : Host} → (Text → ServiceError) → Option Text → M H (Unit {0})
unless failed none = pure tt
unless failed (some e) = throw (failed e)

module _ (X : System) (H : Host) where
  unfoldable pub cfg_path : Bool → Text
  cfg_path true = text "/usr/share/embuer/config.json"
  cfg_path false = text "/etc/embuer/config.json"

  -- A configuration that is missing is the default one.
  unfoldable pub or_default : ServiceError → M H Config
  or_default (missing_configuration_error path) = pure default
  or_default x = throw x

  unfoldable pub load : M H Config
  unfolding cfg_path or_default
  load = do
    found ← asks (λ s. ok (H.exists s (text "/usr/share/embuer/config.json")))
    handle (load_from X.config H (cfg_path found)) pure or_default

  -- With the configuration
  unfoldable pub serve : Config → M H ServiceInner
  serve config = do
    btrfs.new H
    inner ← service.new X.from_pkcs1_pem H config
    unless zbus_error X.bus
    unless zbus_error X.interface
    unless io_os X.listener
    pure inner

  unfoldable pub main : M H ServiceInner
  unfolding load serve
  main = do ensure (X.uid == 0) missing_privileges_error; config ← load; serve config
