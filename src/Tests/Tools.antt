-- ===== src/Tests/Tools.antt =====
-- The smaller programs of src/bin but the client: their theorems, at small hosts.
use embuer.Base.{◌+◌, true, false, [], ◌∷◌, ◌≡◌, refl, none, some, Result, ok}
use embuer.Text.{text, join, split_whitespace, contains, trim, trim_start, lines, strip_prefix}
use embuer.Text.Number.{parse_u64}
use embuer.Host.{Host, Env, Failure, ◌>>=◌, run_program, run_command, run_btrfs, change, handle}
use embuer.Signature.{PublicKey}
use embuer.Signature as core
use embuer.Service.State.{ServiceInner}
use embuer.Service.Start.{initial}
use embuer.Service.Start as service
use embuer.Config.{load_from, rootfs_dir, deployments_dir}
use embuer.Btrfs as btrfs
use embuer.Btrfs.{run_and_get_stdout, is_btrfs_subvolume}
use embuer.Btrfs.Query.{
  subvolume_get_default, list_deployment_subvolumes, btrfs_subvol_get_id, find_id, first_number,
  listed, is_deployment,
}
use embuer.Programs.Bundle as bundle
use embuer.Programs.Bundle.Verified.{Verified, main-Verified}
use embuer.Programs.Daemon as daemon
use embuer.Programs.Daemon.Start.{Started, main-Started}
use embuer.Programs.Probe as probe
use embuer.Programs.Probe.Accepts.{main-verify_signature, stops, goes_on}
use embuer.Tests.World.{crypto, hashes, key, host, env, booted, booted_env, keyed}

abbrev to_bundle : bundle.Cli
to_bundle = record {
  path = text "out";
  private_key_pem = text "private.pem";
  public_key_pem = some (text "public.pem");
  clean = true;
}

abbrev bundled : Result Failure (Unit {0}) × Env host
bundled = bundle.main host to_bundle env

bundles : bundled ≡ (ok tt, bundled.1)
unfolding bundle.main ◌>>=◌ run_program run_command change
bundles = refl

main-Verified_example : Verified host to_bundle (text "public.pem") bundled.1
main-Verified_example = main-Verified host to_bundle (text "public.pem") env bundled.1 refl bundles

-- Here every command ends with a failure.
abbrev failing : Host
failing = record host {
  command = λ c s. (ok (record { success = false; stdout = []; stderr = [] }), s + 1);
}

abbrev failing_env : Env failing
failing_env = record { host = 0; trace = [] }

abbrev unchecked : bundle.Cli
unchecked = record to_bundle { public_key_pem = none }

abbrev lost_bundle : Result Failure (Unit {0}) × Env failing
lost_bundle = bundle.main failing unchecked failing_env

loses : lost_bundle ≡ (ok tt, lost_bundle.1)
unfolding bundle.main ◌>>=◌ run_program run_command change
loses = refl

abbrev daemon_system : daemon.System
daemon_system = record {
  uid = 0;
  config = λ t. ok keyed;
  from_pkcs1_pem = λ pem. some key;
  bus = none;
  interface = none;
  listener = none;
}

abbrev daemon_start : Result Failure ServiceInner × Env booted
daemon_start = daemon.main daemon_system booted booted_env

abbrev daemon_inner : ServiceInner
daemon_inner = record {
  pubkey = key;
  rootfs_dir = text "/r";
  deployments_dir = join (text "/r") (text "deployments");
  boot_id = 9;
  boot_name = text "old";
}

daemon_starts : daemon_start ≡ (ok daemon_inner, daemon_start.1)
unfolding daemon.main ◌>>=◌ load_from handle btrfs.new btrfs_subvol_get_id is_btrfs_subvolume
    run_and_get_stdout run_btrfs find_id parse_u64 text trim trim_start lines strip_prefix
    service.new service.name_of split_whitespace first_number subvolume_get_default
    list_deployment_subvolumes listed is_deployment rootfs_dir deployments_dir contains
daemon_starts = refl

main-Started_example : Started daemon_system booted booted_env
main-Started_example =
    main-Started daemon_system booted booted_env daemon_start.1 daemon_inner daemon_starts

abbrev files : probe.Files
files = record {
  read_to_string = λ p. ok [];
  open_file = λ p. ok (ok (1 ∷ 2 ∷ []) ∷ ok (3 ∷ []) ∷ ok [] ∷ []);
  read = λ p. ok (5 ∷ []);
  from_pkcs1_pem = λ t. ok key;
}

main-verify_signature_example :
    probe.main crypto files (text "p" ∷ text "k" ∷ text "f" ∷ text "s" ∷ [])
    ≡ core.verify_signature crypto key (5 ∷ []) (1 ∷ 2 ∷ 3 ∷ [])
main-verify_signature_example =
    main-verify_signature crypto (λ bytes. bytes) hashes files (text "k") (text "f") (text "s") []
      key (text "p") (ok (1 ∷ 2 ∷ []) ∷ ok (3 ∷ []) ∷ ok [] ∷ []) (1 ∷ 2 ∷ 3 ∷ []) (5 ∷ []) refl
      refl refl (goes_on 1 (2 ∷ []) _ _ (goes_on 3 [] _ _ (stops []))) refl
