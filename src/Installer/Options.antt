-- ===== src/Installer/Options.antt =====
-- src/bin/embuer-installer.rs: the options, and what `main` makes of them.
use embuer.Base.{ℕ, zero, suc, Bool, true, false, Option, none, some, length, if◌then◌else◌, ◌||◌}
use embuer.Text.{Text, text, text_eq, strip_prefix, starts_with}
use embuer.Error.{io_not_found}
use embuer.Host.{Host, M, pure, ensure, asks, ◌>>=◌, ◌>>◌}
use embuer.Base.{ok}

-- `EmbuerInstallCli`
pub record Cli : Type 0 where
  pub device : Option Text
  pub image : Option Text
  pub image_size : Option ℕ
  pub deployment_source : Text
  pub deployment_name : Text
  pub manual_script : Option Text
  pub manual_kernel : Option Text
  pub manual_kernel_defconfig : Option Text
  pub arch : Option Text
  pub bootloader : Option Text
  pub cmdline : Option Text
  pub name : Option Text
  pub wait : Option Bool
  pub generate_deployment : Option Text

pub data Architecture : Type 0 where
  generic_amd64 generic_aarch64 imx8 : Architecture

pub data Bootloader : Type 0 where
  refind : Bootloader
  imx8_file : Text → Bootloader

-- An unknown name is taken for x86_64, with a warning.
unfoldable pub architecture_of : Text → Architecture
architecture_of a =
    if text_eq a (text "x86_64") || text_eq a (text "amd64")
    then generic_amd64
    else if text_eq a (text "arm64") || text_eq a (text "aarch64")
    then generic_aarch64
    else if text_eq a (text "imx8")
    then imx8
    else generic_amd64

unfoldable pub architecture : Option Text → Architecture
architecture none = generic_amd64
architecture (some a) = architecture_of a

-- `s.trim_start_matches(p)` for a `p` that is not empty, on as much fuel as `s` has characters.
unfoldable pub trim_matches : Text → ℕ → Text → Text
trim_matches p zero s = s
trim_matches p (suc n) s = elim (strip_prefix p s) [ none ↦ s | some rest ↦ trim_matches p n rest ]

unfoldable pub imx8_path : Text → Text
imx8_path s = trim_matches (text "imx8://") (length s) s

module _ (H : Host) where
  unfoldable pub imx8_bootloader : Text → M H (Option Bootloader)
  imx8_bootloader path = do
    found ← asks (λ s. ok (H.exists s path))
    ensure found (io_not_found (text "Specified IMX8 bootloader file does not exist"))
    pure (some (imx8_file path))

  -- An unsupported name is no bootloader, with a warning.
  unfoldable pub bootloader_of : Text → M H (Option Bootloader)
  bootloader_of s =
      if starts_with (text "imx8://") s
      then imx8_bootloader (imx8_path s)
      else if text_eq s (text "refind")
      then pure (some refind)
      else pure none

  unfoldable pub parse_bootloader : Option Text → M H (Option Bootloader)
  parse_bootloader none = pure none
  parse_bootloader (some s) = bootloader_of s

unfoldable pub rootfs_part_number : Option Bootloader → ℕ
rootfs_part_number (some refind) = 2
rootfs_part_number _ = 1

unfoldable pub is_gpt : Option Bootloader → Bool
is_gpt (some (imx8_file path)) = false
is_gpt _ = true

-- `label`
unfoldable pub label : Option Bootloader → Text
label b = if is_gpt b then text "gpt" else text "msdos"

unfoldable pub rootfs_partition_offset : Option Bootloader → Text
rootfs_partition_offset (some (imx8_file path)) = text "8MiB"
rootfs_partition_offset _ = text "64MiB"
