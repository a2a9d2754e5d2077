-- ===== src/Tests/Late.antt =====
-- src/service.rs with src/progress_stream.rs: an update whose reader has spawned a report.
use embuer.Base.{[], ◌∷◌, ◌≡◌, refl, true, some, Result, ok, replicate}
use embuer.Text.{text, trim, trim_start, lines, strip_prefix}
use embuer.Host.{Failure, ◌>>=◌, run_btrfs, run_pipeline}
use embuer.Text.Number.{parse_u64}
use embuer.Btrfs.{run_and_get_stdout, is_btrfs_subvolume}
use embuer.Btrfs.Query.{find_id, btrfs_subvol_get_id}
use embuer.Stream.{copy}
use embuer.Stream.Hashing
use embuer.Stream.Hashing.{HashingReader}
use embuer.Stream.Progress
use embuer.Stream.Progress.{Float, ProgressReader}
use embuer.Signature.{key_size, verify_decoded, verify_signature}
use embuer.Receive.{subvol_name, started, receive_btrfs_stream}
use embuer.Install.{
  install_update, conclude, deploy, inspect, authenticate, activate, subvol_id, check_manifest,
  read_manifest, set_writable, take_hash, run_declared, has_manifest, manifest_path,
}
use embuer.Manifest.{from_file}
use embuer.Btrfs.Change.{subvolume_set_default}
use embuer.Text.{text_eq}
use embuer.Base.{Bool, true}
use embuer.Status.{installing, percent}
use embuer.Signature.{
  full_padded, check_block, check_hash, skip_padding, index, differs, slice, compare_hash,
}
use embuer.Stream.Progress.Reports.{IsReport}
use embuer.Service.State.{ServiceState, run_spawned}
use embuer.Service.Start.{initial}
use embuer.Service.Process.{
  process_update_entry, with_contents, consent, install_if, install, after_install, after_clearing,
}
use embuer.Service.Process.Final.{IsFinal}
use embuer.Service.Process.Late.{process_update_entry-late}
use embuer.Tests.World.{external, inner, host, env, polls}
use embuer.Install.{lift_run}
use embuer.Service.Clear.{clear_old_deployments}
use embuer.Btrfs.Query.{subvolume_get_default, list_deployment_subvolumes, is_deployment}
use embuer.Btrfs.Change.{subvolume_delete}
use embuer.Text.{split_whitespace}

abbrev at_first : ServiceState host
at_first = initial env

abbrev processed : Result Failure Bool × ServiceState host
processed =
    process_update_entry external inner (text "u") true (some (text "2")) (some (replicate 24 1))
      polls 9 at_first

processes : processed ≡ (ok true, processed.1)
unfolding install_update conclude deploy inspect authenticate activate receive_btrfs_stream
    subvol_id check_manifest read_manifest set_writable take_hash run_declared has_manifest started
    Hashing.poll_read Hashing.new copy run_pipeline subvolume_set_default btrfs_subvol_get_id
    is_btrfs_subvolume run_and_get_stdout run_btrfs find_id parse_u64 text trim trim_start lines
    strip_prefix ◌>>=◌ subvol_name manifest_path from_file verify_signature verify_decoded key_size
    full_padded check_block check_hash skip_padding index differs slice compare_hash text_eq
    process_update_entry with_contents consent install_if install after_install after_clearing
    lift_run clear_old_deployments subvolume_get_default split_whitespace list_deployment_subvolumes
    is_deployment subvolume_delete Progress.new Progress.poll_read
processes = refl

still_waits : processed.1.spawned ≡ installing (text "u") (percent 0) ∷ []
unfolding install_update conclude deploy inspect authenticate activate receive_btrfs_stream
    subvol_id check_manifest read_manifest set_writable take_hash run_declared has_manifest started
    Hashing.poll_read Hashing.new copy run_pipeline subvolume_set_default btrfs_subvol_get_id
    is_btrfs_subvolume run_and_get_stdout run_btrfs find_id parse_u64 text trim trim_start lines
    strip_prefix ◌>>=◌ subvol_name manifest_path from_file verify_signature verify_decoded key_size
    full_padded check_block check_hash skip_padding index differs slice compare_hash text_eq
    process_update_entry with_contents consent install_if install after_install after_clearing
    Progress.new Progress.poll_read lift_run clear_old_deployments subvolume_get_default
    split_whitespace list_deployment_subvolumes is_deployment subvolume_delete
still_waits = refl

process_update_entry-late_example :
    IsFinal (text "u") processed.1.update_status
    × IsReport (text "u") (run_spawned processed.1.spawned processed.1).update_status
process_update_entry-late_example =
    process_update_entry-late external inner (text "u") true true (some (text "2"))
      (some (replicate 24 1)) polls 9 at_first processed.1 (installing (text "u") (percent 0)) []
      refl processes still_waits
