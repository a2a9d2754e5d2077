-- ===== src/Tests/World.antt =====
-- The parameters at which the theorems are applied. The host answers every command, the hash is
-- the bytes themselves, and every block that is decrypted is the same one.
use embuer.Base.{
  ℕ, ◌+◌, ◌-◌, ◌*◌, ◌/◌, List, [], ◌∷◌, ◌++◌, refl, true, false, none, some, Result, ok, replicate,
  arith,
}
use embuer.Text.{Text, text}
use embuer.Host.{Host, Env, ExitStatus, Pipeline}
use embuer.Service.Process.{External}
use embuer.Crypto.{Crypto, HashesByParts, FitsModulus}
use embuer.Manifest.{Manifest}
use embuer.Config.{Config}
use embuer.Stream.{Poll, ready, pending, failed}
use embuer.Stream.Progress.{Float}
use embuer.Signature.{PublicKey}
use embuer.Service.State.{ServiceInner}

abbrev block : List ℕ
block = 0 ∷ 1 ∷ 0xff ∷ 0 ∷ (replicate 19 5 ++ 7 ∷ [])

abbrev pub crypto : Crypto
crypto = record {
  Hasher = List ℕ;
  fresh = [];
  update = λ h bytes. h ++ bytes;
  finalize = λ h. h;
  encode = λ bytes. bytes;
  decode = λ t. ok t;
  bits = λ n. 192;
  from_bytes_be = λ bytes. 3;
  modpow = λ b e n. n - 1;
  to_bytes_be = λ x. block;
}

abbrev pub hashes : HashesByParts crypto (λ bytes. bytes)
hashes = record {
  absorbed = λ h. h;
  absorbed-fresh = refl;
  absorbed-update = λ h bytes. refl;
  finalize_lem = λ h. refl;
}

abbrev pub fits : FitsModulus crypto
fits = record { modpow-lt = λ b e n h. omega arith; length-to_bytes_be = λ x n h. omega arith }

abbrev pub key : PublicKey
key = record { n = 5; e = 3 }

abbrev pub parse : Text → Result Text Manifest
parse t =
    ok (record { version = t; readonly = true; install_script = none; uninstall_script = none })

abbrev exited : ExitStatus
exited = record { success = true; shown = [] }

abbrev pub pipeline : Pipeline
pipeline = record {
  xz_spawn = none;
  xz_stdin = true;
  xz_stdout = true;
  btrfs_spawn = none;
  btrfs_stdin = true;
  btrfs_stderr = true;
  input_join = none;
  xz_wait = ok exited;
  btrfs_join = none;
  stderr_join = none;
  stderr_lines = text "At subvol new" ∷ [];
  btrfs_wait = ok exited;
}

-- It counts the commands. The default subvolume is 5, every other one is 9.
abbrev pub host : Host
host = record {
  State = ℕ;
  btrfs = λ args s.
      (ok (record { success = true; stdout = text "ID 5\nSubvolume ID: 9"; stderr = [] }), s + 1);
  script = λ path args s. (ok exited, s + 1);
  reads = λ s. 8;
  pipeline = λ command bytes s. (pipeline, s + 1);
  command = λ c s. (ok (record { success = true; stdout = []; stderr = [] }), s + 1);
  files = λ a s. (ok tt, s + 1);
  read_line = λ s. (ok [], s);
  debug = λ path. path;
  exists = λ s path. true;
  is_file = λ s path. true;
  is_dir = λ s path. true;
  mode = λ s path. ok 493;
  statfs = λ s path. ok 0x9123683E;
  inode = λ s path. ok 256;
  read_to_string = λ s path. ok (text "1.0");
  read_dir = λ s path. ok (ok (record { path = text "/d/old"; file_name = text "old" }) ∷ []);
}

abbrev pub env : Env host
env = record { host = 0; trace = [] }

abbrev pub inner : ServiceInner
inner = record {
  pubkey = key;
  rootfs_dir = text "/r";
  deployments_dir = text "/d";
  boot_id = 7;
  boot_name = text "running";
}

abbrev pub float : Float
float = record {
  F = ℕ;
  of_u64 = λ n. n;
  div = λ m n. m / n;
  mul = λ m n. m * n;
  hundred = 100;
  to_i32 = λ n. n;
}

abbrev pub polls : List Poll
polls = ready (7 ∷ []) ∷ pending ∷ failed (text "reset") ∷ []

abbrev pub config : Config
config = record {
  update_url = none;
  auto_install_updates = false;
  public_key_pem = none;
  rootfs_dir = some (text "/r");
}

abbrev pub external : External
external = record {
  crypto = crypto;
  float = float;
  manifest = parse;
  is_alphanumeric = λ c. true;
  clock = λ n. n * 200;
}

-- Here the default subvolume is the one that every path has.
abbrev pub booted : Host
booted = record host {
  btrfs = λ args s.
      (ok (record { success = true; stdout = text "Subvolume ID: 9"; stderr = [] }), s + 1);
}

abbrev pub booted_env : Env booted
booted_env = record { host = 0; trace = [] }

abbrev pub keyed : Config
keyed = record config { public_key_pem = some (text "/k") }
