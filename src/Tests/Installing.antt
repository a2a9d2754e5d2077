-- ===== src/Tests/Installing.antt =====
-- src/core.rs and the readers: the theorems on installations and streams, at a small host.
use embuer.Base.{
  ◌^◌, ◌<◌, List, [], ◌∷◌, ◌≡◌, ◌≢◌, ◌↔◌, ◌⊎◌, refl, none, Option, some, Result, ok, replicate,
  arith,
}
use embuer.Text.{Text, text, trim, trim_start, lines, strip_prefix}
use embuer.Error.{ServiceError}
use embuer.Host.{Env, Failure, ◌>>=◌, run_btrfs, run_pipeline}
use embuer.Text.Number.{parse_u64}
use embuer.Btrfs.{run_and_get_stdout, is_btrfs_subvolume}
use embuer.Btrfs.Query.{find_id, btrfs_subvol_get_id}
use embuer.Stream.{Poll, scripted, copy}
use embuer.Stream.Hashing
use embuer.Stream.Hashing.{HashingReader}
use embuer.Stream.Hashing.Laws.{HashOf, copy-HashOf}
use embuer.Stream.Progress
use embuer.Stream.Progress.{Float, ProgressReader}
use embuer.Stream.Progress.Laws.{Passes, copy-Passes}
use embuer.Signature.{returned, panicked, key_size, verify_signature}
use embuer.Signature.Exact.{
  IsBlock, decrypted, verify_signature-exact, verify_signature-ne-panicked,
}
use embuer.Receive.{subvol_name, started, receive_btrfs_stream}
use embuer.Receive.Laws.{Complete, started-Complete}
use embuer.Install.{
  install_update, conclude, deploy, inspect, authenticate, activate, subvol_id, check_manifest,
  read_manifest, set_writable, take_hash, run_declared, has_manifest, manifest_path,
}
use embuer.Manifest.{from_file}
use embuer.Btrfs.Change.{subvolume_set_default}
use embuer.Install.Activates.{Activated, install_update-Activated}
use embuer.Install.Authentic.{Verifies, OnlyPrepares, install_update-authentic}
use embuer.Tests.World.{crypto, hashes, fits, key, parse, pipeline, host, env, float, polls}

abbrev attempt : Result Failure (Option Text) × List Poll × Env host
attempt =
    install_update crypto parse host scripted (some (key, [])) (text "/r") (text "/d") (text "b")
      polls env

install_update-authentic_example :
    OnlyPrepares (text "/d") env attempt.0 attempt.2
    ⊎ Verifies crypto key []
        (copy (Hashing.poll_read crypto scripted) 8 (Hashing.new crypto polls)).0
install_update-authentic_example =
    install_update-authentic crypto key [] parse host (text "/r") (text "/d") (text "b")
      (λ bytes. bytes) hashes scripted polls env

verify_signature-exact_example :
    (verify_signature crypto key (replicate 24 1) (7 ∷ []) ≡ returned (ok tt))
    ↔ ((24 ≡ key_size crypto key) × IsBlock (7 ∷ []) (decrypted crypto key (replicate 24 1)))
verify_signature-exact_example =
    verify_signature-exact crypto fits key (replicate 24 1) (omega arith) (7 ∷ []) (7 ∷ []) refl

verify_signature-ne-panicked_example :
    verify_signature crypto key (replicate 24 1) (7 ∷ []) ≢ panicked
verify_signature-ne-panicked_example =
    verify_signature-ne-panicked crypto fits key (replicate 24 1) (omega arith) (7 ∷ [])

copy-HashOf_example :
    HashOf crypto
      (λ bytes. bytes)
      (copy (Hashing.poll_read crypto scripted) 8 (Hashing.new crypto polls)).0
      (copy (Hashing.poll_read crypto scripted) 8 (Hashing.new crypto polls)).1.hash_result
copy-HashOf_example = copy-HashOf crypto (λ bytes. bytes) hashes scripted 8 polls

abbrev reader : ProgressReader (List Poll)
reader = Progress.new 0 polls (some 9) (text "u")

fresh_reader : reader.bytes_read < 2 ^ 64
unfolding Progress.new
fresh_reader = omega arith

copy-Passes_example :
    Passes reader
      (copy (Progress.poll_read float (λ n. n) scripted) 8 reader)
      (copy scripted 8 reader.inner)
copy-Passes_example = copy-Passes float (λ n. n) scripted 8 reader fresh_reader

started-Complete_example :
    (started pipeline ≡ ok (some (text "new")))
    ↔ (Complete pipeline × (some (text "new") ≡ subvol_name none (text "At subvol new" ∷ [])))
started-Complete_example = started-Complete pipeline (some (text "new"))

abbrev installed : Result Failure (Option Text) × List Poll × Env host
installed =
    install_update crypto parse host scripted none (text "/r") (text "/d") (text "b") polls env

installs : installed.0 ≡ ok (some (text "new"))
unfolding install_update conclude deploy inspect authenticate activate receive_btrfs_stream
    subvol_id check_manifest read_manifest set_writable take_hash run_declared has_manifest started
    Hashing.poll_read Hashing.new copy run_pipeline subvolume_set_default btrfs_subvol_get_id
    is_btrfs_subvolume run_and_get_stdout run_btrfs find_id parse_u64 text trim trim_start lines
    strip_prefix ◌>>=◌ subvol_name manifest_path from_file
installs = refl

abbrev received : Result ServiceError (Option Text) × HashingReader crypto (List Poll) × Env host
received =
    receive_btrfs_stream host (Hashing.poll_read crypto scripted) (text "/d")
      (Hashing.new crypto polls) env

install_update-Activated_example :
    (name : Text) × (received.0 ≡ ok (some name))
    × (some (text "new") ≡ some name)
    × Activated host (text "/r") (text "/d") name received.2 installed.2
install_update-Activated_example =
    install_update-Activated crypto parse host none (text "/r") (text "/d") (text "b") scripted
      polls env (some (text "new")) installs
