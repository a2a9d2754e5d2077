-- ===== src/Installer/Disk.antt =====
-- src/bin/embuer-installer.rs, `main`: the device, its partitions, and what is mounted.
use embuer.Base.{
  ℕ, Bool, false, List, [], ◌∷◌, ◌++◌, Option, none, some, Result, ok, err, if◌then◌else◌, ◌==◌,
  not,
}
use embuer.Text.{Text, text, trim}
use embuer.Text.Number.{show}
use embuer.Error.{ServiceError, boxed_error, io_other, io_os, io_invalid_input}
use embuer.Host.{
  Host, Env, M, Output, Failure, panic, abort, error, pure, throw, ensure, asks, ◌>>=◌, ◌>>◌,
  run_program, change, create_dir_all,
}
use embuer.Installer.Options.{
  Bootloader, refind, rootfs_part_number, is_gpt, label, rootfs_partition_offset,
}

-- `MountType`: what `main` has to undo at its end.
pub data MountType : Type 0 where
  image device : Text → MountType

unfoldable pub ends_with : (ℕ → Bool) → Text → Bool
ends_with p [] = false
ends_with p (c ∷ []) = p c
ends_with p (c ∷ d ∷ s) = ends_with p (d ∷ s)

-- The path of a partition, "/dev/nvme0n1p2" or "/dev/sda2". `char::is_numeric` is a parameter.
unfoldable pub partition : (ℕ → Bool) → Text → ℕ → Text
unfolding ends_with
partition is_numeric dev n =
    if ends_with is_numeric dev then dev ++ text "p" ++ show n else dev ++ show n

-- A panic in `drop`, which ends the program at once when another one unwinds already.
abbrev pub drop_panics : {A : Type 0} → Result Failure A → Result Failure A
drop_panics (err panic) = err abort
drop_panics (err abort) = err abort
drop_panics (err (error x)) = err panic
drop_panics (ok a) = err panic

module _ (H : Host) where
  -- The command of `MountType::drop`.
  unfoldable pub release : MountType → M H Output
  release (image loopdev) = run_program H io_os (text "losetup") (text "-d" ∷ loopdev ∷ [])
  release (device path) = run_program H io_os (text "umount") (path ∷ [])

  -- `.status().unwrap()`: a command that cannot be started is a panic.
  abbrev pub after_release :
      {A : Type 0} → Result Failure A → Result Failure Output × Env H → Result Failure A × Env H
  after_release r (ok o, e) = (r, e)
  after_release r (err x, e) = (drop_panics r, e)

  abbrev pub released :
      {A : Type 0} → MountType → Result Failure A × Env H → Result Failure A × Env H
  released m (err abort, e) = (err abort, e)
  released m (err panic, e) = after_release (err panic) (release m e)
  released m (err (error x), e) = after_release (err (error x)) (release m e)
  released m (ok a, e) = after_release (ok a) (release m e)

  -- `mounts.push_front(m)`, and what follows to the end of `main`. The queue is dropped from its
  -- front, the last one first, however `main` ends, unless the program is aborted.
  unfoldable pub scoped : {A : Type 0} → MountType → M H A → M H A
  unfolding release
  scoped m body e = released m (body e)

  -- `parted -s device …`
  unfoldable pub parted : (Text → ServiceError) → Text → List Text → M H Output
  parted failed dev args = run_program H failed (text "parted") (text "-s" ∷ dev ∷ args)

  -- The same, where `main` looks at the status.
  unfoldable pub parted_checked : Text → Text → List Text → M H (Unit {0})
  unfolding parted
  parted_checked what dev args = do
    status ← parted boxed_error dev args
    ensure status.success (io_other (text "parted " ++ what ++ text " command failed for " ++ dev))

  -- The EFI partition, for rEFInd only.
  unfoldable pub create_esp : Text → Text → M H (Unit {0})
  unfolding parted_checked
  create_esp dev offset = do
    parted boxed_error dev
        (text "mkpart" ∷ text "primary" ∷ text "fat32" ∷ text "1MiB" ∷ offset ∷ [])
    parted_checked (text "type") dev
        (text "type" ∷ text "1" ∷ text "c12a7328-f81f-11d2-ba4b-00a0c93ec93b" ∷ [])
    parted_checked (text "set") dev (text "set" ∷ text "1" ∷ text "esp" ∷ text "on" ∷ [])

  unfoldable pub create_esp_if : Option Bootloader → Text → Text → M H (Unit {0})
  create_esp_if (some refind) dev offset = create_esp dev offset
  create_esp_if _ dev offset = pure tt

  -- The partition table. Of `mklabel` and `mkpart` the status is not looked at.
  unfoldable pub create_partitions : Text → Option Bootloader → M H (Unit {0})
  unfolding create_esp_if
  create_partitions dev bootloader = do
    parted io_os dev (text "mklabel" ∷ label bootloader ∷ [])
    create_esp_if bootloader dev (rootfs_partition_offset bootloader)
    parted boxed_error dev (
        text "mkpart"
        ∷ text "primary"
        ∷ text "btrfs"
        ∷ rootfs_partition_offset bootloader
        ∷ text "100%"
        ∷ [])
    if is_gpt bootloader
        then parted_checked (text "type") dev (
            text "type"
            ∷ show (rootfs_part_number bootloader)
            ∷ text "4F68BCE3-E8CD-4DB1-96E7-FBCAF984B709"
            ∷ [])
        else pure tt

  unfoldable pub format_rootfs : Text → M H Output
  format_rootfs part =
      run_program H io_os (text "mkfs.btrfs") (text "-f" ∷ part ∷ text "-L" ∷ text "rootfs" ∷ [])

  unfoldable pub mount_rootfs : Text → Text → M H Output
  mount_rootfs part mount_point = do
    change H (create_dir_all mount_point)
    run_program H boxed_error (text "mount") (
        text "-t"
        ∷ text "btrfs"
        ∷ text "-o"
        ∷ text "subvolid=5,compress-force=zstd:15,noatime,rw"
        ∷ part
        ∷ mount_point
        ∷ [])

  unfoldable pub partuuid : Text → M H Text
  partuuid part = do
    found ←
        run_program H io_os (text "blkid")
          (text "-s" ∷ text "PARTUUID" ∷ text "-o" ∷ text "value" ∷ part ∷ [])
    pure (trim found.stdout)

  unfoldable pub format_esp : Text → M H Output
  format_esp part = run_program H io_os (text "mkfs.fat") (text "-F32" ∷ part ∷ [])

  unfoldable pub mount_esp : Text → Text → M H Output
  mount_esp part mount_point = do
    change H (create_dir_all mount_point)
    run_program H boxed_error (text "mount") (part ∷ mount_point ∷ [])

  -- A new image file, of 2 GiB unless a size is given.
  unfoldable pub allocate : Text → ℕ → M H Output
  allocate img size = do
    ensure (not (size == 0)) (io_invalid_input (text "Image size must be greater than 0"))
    run_program H io_os (text "fallocate") (text "-l" ∷ (show size ++ text "G") ∷ img ∷ [])

  abbrev or_2 : Option ℕ → ℕ
  or_2 none = 2
  or_2 (some n) = n

  unfoldable pub ensure_image : Text → Option ℕ → M H (Unit {0})
  unfolding allocate
  ensure_image img image_size = do
    found ← asks (λ s. ok (H.exists s img))
    if found then pure tt else allocate img (or_2 image_size) >>= λ o. pure tt

  unfoldable pub setup_loop : Text → M H Text
  setup_loop img = do
    output ← run_program H io_os (text "losetup") (text "-P" ∷ text "-f" ∷ text "--show" ∷ img ∷ [])
    pure (trim output.stdout)

  unfoldable pub with_image : {A : Type 0} → Text → Option ℕ → (Text → M H A) → M H A
  unfolding ensure_image setup_loop
  with_image img image_size use_device = do
    ensure_image img image_size
    loopdev ← setup_loop img
    scoped (image loopdev) (use_device loopdev)

  -- `device_partition`, and what `main` does with it. `exit(1)` is as an error, since nothing is
  -- mounted yet.
  unfoldable pub with_device :
      {A : Type 0} → Option Text → Option Text → Option ℕ → (Text → M H A) → M H A
  unfolding with_image
  with_device (some dev) none image_size use_device = use_device dev
  with_device none (some img) image_size use_device = with_image img image_size use_device
  with_device (some dev) (some img) image_size use_device =
      throw (boxed_error (text "Error: only one of --device or --image can be specified"))
  with_device none none image_size use_device =
      throw (boxed_error (text "Error: either --device or --image must be specified"))
