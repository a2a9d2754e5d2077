-- ===== src/Tests/Reading.antt =====
-- The theorems on the start, the clearing, the configuration, the checker and the monitor, at a
-- small host.
use embuer.Base.{ℕ, List, [], ◌∷◌, ◌≡◌, refl, some, Result, ok, arith}
use embuer.Text.{join, text, trim, trim_start, lines, strip_prefix, split_whitespace}
use embuer.Error.{missing_rootfs_dir}
use embuer.Host.{Env, Failure, ◌>>=◌, run_btrfs, run_pipeline}
use embuer.Host.Trace.{Adds}
use embuer.Status.{idle, checking}
use embuer.Config.{rootfs_dir, deployments_dir}
use embuer.Text.Number.{invalid_digit, parse_u64, show}
use embuer.Btrfs.{run_and_get_stdout, is_btrfs_subvolume}
use embuer.Btrfs.Query.{
  find_id, listed, is_deployment, btrfs_subvol_get_id, Deployment, first_number,
  subvolume_get_default, list_deployment_subvolumes,
}
use embuer.Btrfs.Numbers.{NoNumbers, nothing, word, first_number-show}
use embuer.Stream.{copy}
use embuer.Stream.Hashing
use embuer.Stream.Hashing.{HashingReader}
use embuer.Receive.{subvol_name, started, receive_btrfs_stream}
use embuer.Install.{
  install_update, conclude, deploy, inspect, authenticate, activate, subvol_id, check_manifest,
  read_manifest, set_writable, take_hash, run_declared, has_manifest, manifest_path,
}
use embuer.Manifest.{from_file}
use embuer.Btrfs.Change.{subvolume_set_default}
use embuer.Service.State.{ServiceInner}
use embuer.Service.Start
use embuer.Service.Start.{initial, name_of}
use embuer.Service.Start.Boots.{Boots, new-Boots}
use embuer.Service.Clear.{clear_old_deployments}
use embuer.Service.Clear.Protects.{Clears, clear_old_deployments-Clears}
use embuer.Dbus.Monitor.{start_status_monitor}
use embuer.Dbus.Monitor.Changes.{Follows, start_status_monitor-Follows}
use embuer.Tests.World.{key, parse, host, env, inner, booted, booted_env, keyed}

start_status_monitor-Follows_example :
    Follows idle
      (checking ∷ checking ∷ idle ∷ [])
      (start_status_monitor (checking ∷ checking ∷ idle ∷ []))
start_status_monitor-Follows_example =
    start_status_monitor-Follows (checking ∷ checking ∷ idle ∷ [])

words : NoNumbers (text "ID" ∷ [])
unfolding parse_u64 text
words = word _ [] invalid_digit refl nothing

first_number-show_example :
    first_number missing_rootfs_dir (text "ID" ∷ show 256 ∷ text "gen" ∷ []) ≡ ok 256
first_number-show_example =
    first_number-show missing_rootfs_dir (text "ID" ∷ []) 256 (text "gen" ∷ []) words (omega arith)

abbrev default_of : Result Failure ℕ × Env host
default_of = subvolume_get_default host (text "/r") env

abbrev listing : Result Failure (List Deployment) × Env host
listing = list_deployment_subvolumes host (text "/d") default_of.1

default_is : default_of ≡ (ok 5, default_of.1)
unfolding subvolume_get_default ◌>>=◌ run_and_get_stdout run_btrfs first_number parse_u64
    split_whitespace text trim lines
default_is = refl

listing_is : listing ≡ (ok ((text "old", 9, text "/d/old") ∷ []), listing.1)
unfolding list_deployment_subvolumes ◌>>=◌ btrfs_subvol_get_id is_btrfs_subvolume is_deployment
    listed run_and_get_stdout run_btrfs find_id parse_u64 text trim trim_start lines strip_prefix
listing_is = refl

clear_old_deployments-Clears_example :
    Adds
      (Clears parse host inner 5 ((text "old", 9, text "/d/old") ∷ []))
      listing.1.trace
      (clear_old_deployments parse host inner env).1.trace
clear_old_deployments-Clears_example =
    clear_old_deployments-Clears parse host inner env default_of.1 listing.1 5
      ((text "old", 9, text "/d/old") ∷ []) default_is listing_is

abbrev started_with : ServiceInner
started_with = record {
  pubkey = key;
  rootfs_dir = text "/r";
  deployments_dir = join (text "/r") (text "deployments");
  boot_id = 9;
  boot_name = text "old";
}

abbrev start : Result Failure ServiceInner × Env booted
start = Start.new (λ pem. some key) booted keyed booted_env

starts : start ≡ (ok started_with, start.1)
unfolding install_update conclude deploy inspect authenticate activate receive_btrfs_stream
    subvol_id check_manifest read_manifest set_writable take_hash run_declared has_manifest started
    Hashing.poll_read Hashing.new copy run_pipeline subvolume_set_default btrfs_subvol_get_id
    is_btrfs_subvolume run_and_get_stdout run_btrfs find_id parse_u64 text trim trim_start lines
    strip_prefix ◌>>=◌ subvol_name manifest_path from_file Start.new name_of split_whitespace
    first_number subvolume_get_default list_deployment_subvolumes listed is_deployment rootfs_dir
    deployments_dir
starts = refl

new-Boots_example : Boots booted started_with
new-Boots_example = new-Boots (λ pem. some key) booted keyed booted_env start.1 started_with starts
