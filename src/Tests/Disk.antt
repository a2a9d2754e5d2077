-- ===== src/Tests/Disk.antt =====
-- src/bin/embuer-installer.rs: its theorems, at a manual installation on a disk image.
use embuer.Base.{true, [], ◌∷◌, ◌≡◌, ◌↔◌, refl, none, some, Result, ok, err}
use embuer.Text.{text, text_eq, strip_prefix, lines, trim, trim_start, contains}
use embuer.Text.Number.{parse_u64}
use embuer.Host.{Env, Failure, ◌>>=◌, run_btrfs, run_program, run_command, run_script, change}
use embuer.Btrfs.{run_and_get_stdout, is_btrfs_subvolume}
use embuer.Btrfs as btrfs
use embuer.Btrfs.Query.{btrfs_subvol_get_id, find_id}
use embuer.Btrfs.Change.{
  subvolume_create, subvolume_set_ro, subvolume_set_rw, subvolume_set_default,
}
use embuer.Manifest.{from_file}
use embuer.Install.{manifest_path}
use embuer.Service.Requests.{Entry}
use embuer.Installer.Options.{Cli, parse_bootloader, is_gpt}
use embuer.Installer.Disk.{
  scoped, release, with_device, with_image, ensure_image, setup_loop, create_partitions,
  create_esp_if, create_esp, parted, parted_checked, format_rootfs, mount_rootfs, partuuid,
  partition,
}
use embuer.Installer.Layout.{
  prepare_rootfs_partition, prepare_deployment_directories, create_overlay, create_dirs,
}
use embuer.Installer.Manual.{install_manual, install_kernel, fill, finish_manual, set_access}
use embuer.Installer.Package.{find_update}
use embuer.Installer.Main.{
  Platform, main, on_device, with_rootfs, with_bootloader, install_system, install_deployment,
  generate,
}
use embuer.Installer.Supported.{Supported, main-Supported}
use embuer.Installer.Checked.{Checked}
use embuer.Installer.Search.{Selects, find_update-Selects}
use embuer.Tests.World.{crypto, parse, host, env}

abbrev pub cli : Cli
cli = record {
  device = none;
  image = some (text "disk.img");
  image_size = none;
  deployment_source = text "manual";
  deployment_name = text "new";
  manual_script = some (text "fill.sh");
  manual_kernel = none;
  manual_kernel_defconfig = none;
  arch = none;
  bootloader = none;
  cmdline = none;
  name = none;
  wait = none;
  generate_deployment = none;
}

abbrev pub platform : Platform host
platform = record {
  crypto = crypto;
  manifest = parse;
  is_numeric = λ c. true;
  sources = record { get = λ s u. err []; open_file = λ s p. err [] };
  carried = record {
    temp_dir = text "/tmp";
    zip_data = ok [];
    refind_config = [];
    shim_bootx64 = [];
    shim_mmx64 = [];
  };
}

abbrev installed : Result Failure (Unit {0}) × Env host
installed = main platform cli env

main-ok : installed ≡ (ok tt, installed.1)
unfolding main with_device with_image ensure_image setup_loop scoped release on_device
    parse_bootloader create_partitions create_esp_if create_esp parted parted_checked format_rootfs
    mount_rootfs partuuid partition with_rootfs with_bootloader install_system install_deployment
    generate btrfs.new prepare_rootfs_partition prepare_deployment_directories create_overlay
    create_dirs install_manual install_kernel fill finish_manual set_access subvolume_create
    subvolume_set_ro subvolume_set_rw subvolume_set_default btrfs_subvol_get_id is_btrfs_subvolume
    find_id run_and_get_stdout run_btrfs run_program run_command change ◌>>=◌ parse_u64 text trim
    trim_start lines strip_prefix text_eq from_file manifest_path is_gpt contains run_script
main-ok = refl

main-Supported_example : Supported host cli
main-Supported_example = main-Supported platform cli env installed.1 main-ok

abbrev finished : Result Failure (Unit {0}) × Env host
finished = finish_manual parse host (text "/r/deployments/new") (text "/r") env

abbrev entry : Entry
entry = record {
  path = ok (text "CHANGELOG");
  read_to_string = ok (text "v2");
  read_to_end = ok [];
  entry_size = ok 2;
  stream = [];
}

find_update-Selects_example :
    find_update (ok entry ∷ err (text "cut") ∷ []) ≡ ok []
    ↔ Selects [] (ok entry ∷ err (text "cut") ∷ [])
find_update-Selects_example = find_update-Selects [] (ok entry ∷ err (text "cut") ∷ [])
