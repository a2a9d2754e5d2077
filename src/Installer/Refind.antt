-- ===== src/Installer/Refind.antt =====
-- src/bin/embuer-installer.rs: `decompress_refind` and `install_bootloader_refind`. What the program
-- carries by `include_bytes!`, and the members of the zip file among it, are parameters.
use embuer.Base.{
  ℕ, zero, suc, ◌-◌, Bool, true, false, List, [], ◌∷◌, ◌++◌, Option, none, some, Result, ok,
  map_err, ok_or, length, if◌then◌else◌,
}
use embuer.Text.{Text, text, trim, lines, join, starts_with}
use embuer.Error.{boxed_error, io_not_found, io_os}
use embuer.Host.{
  Host, M, pure, throw, lift, ensure, asks, ◌>>=◌, ◌>>◌, run_program, change, create_dir_all,
  remove_dir_all, remove_file, write,
}
use embuer.Installer.Options.{Architecture, generic_amd64, generic_aarch64, imx8}

-- A member of the zip file. What its data gives is in the answer to `write`.
pub record ZipFile : Type 0 where
  pub name : Text
  pub is_dir : Bool
  pub content : Text

pub record Carried : Type 0 where
  pub temp_dir : Text
  -- `ZipArchive::new`, and `by_index` for each index
  pub zip_data : Result Text (List (Result Text ZipFile))
  pub refind_config : Text
  pub shim_bootx64 : Text
  pub shim_mmx64 : Text

-- `s.replace(from, to)` for a `from` that is not empty. The number counts the characters that
-- still belong to the last match.
unfoldable pub replace_from : ℕ → Text → Text → Text → Text
replace_from skip from to [] = []
replace_from (suc skip) from to (c ∷ s) = replace_from skip from to s
replace_from zero from to (c ∷ s) = elim (starts_with from (c ∷ s)) [
  | true ↦ to ++ replace_from (length from - 1) from to s
  | false ↦ c ∷ replace_from zero from to s
]

unfoldable pub replace : Text → Text → Text → Text
replace from to s = replace_from zero from to s

unfoldable pub refind_conf : Text → Text → Text → Text → Text
unfolding replace
refind_conf template rootfs_partuuid name cmdline = replace (text "{KERNEL_CMDLINE}") cmdline (
    replace (text "{INSTALL_NAME}") name
      (replace (text "{ROOTFS_PARTUUID}") rootfs_partuuid template))

-- `s.lines().next()`
unfoldable pub first_line : List Text → Option Text
first_line [] = none
first_line (line ∷ rest) = some line

module _ (K : Carried) (H : Host) where
  unfoldable pub extract_file : Text → ZipFile → M H (Unit {0})
  extract_file destination file =
      if file.is_dir
      then change H (create_dir_all (join destination file.name))
      else change H (write (join destination file.name) file.content)

  unfoldable pub extract_all : Text → List (Result Text ZipFile) → M H (Unit {0})
  unfolding extract_file
  extract_all destination [] = pure tt
  extract_all destination (file ∷ rest) = do
    f ← lift (map_err io_os file)
    extract_file destination f
    extract_all destination rest

  -- The archive is opened before the destination is looked at.
  unfoldable pub decompress_refind : Text → M H (Unit {0})
  unfolding extract_all
  decompress_refind destination = do
    archive ← lift (map_err io_os K.zip_data)
    found ← asks (λ s. ok (H.exists s destination))
    ensure found (io_not_found (text "Destination folder doesn't exists"))
    extract_all destination archive

  unfoldable pub remove_file_if : Text → M H (Unit {0})
  remove_file_if path = do
    found ← asks (λ s. ok (H.exists s path))
    if found then change H (remove_file path) else pure tt

  -- An empty directory for the files of rEFInd.
  unfoldable pub fresh_dir : Text → M H (Unit {0})
  fresh_dir dir = do
    found ← asks (λ s. ok (H.exists s dir))
    if found then change H (remove_dir_all dir) else pure tt
    change H (create_dir_all dir)

  unfoldable pub find_refind : Text → M H Text
  unfolding first_line
  find_refind tmp_dir = do
    found ←
        run_program H boxed_error (text "find") (tmp_dir ∷ text "-name" ∷ text "refind-bin-*" ∷ [])
    lift (
        ok_or (boxed_error (text "rEFInd binary path not found"))
          (first_line (lines (trim found.stdout))))

  unfoldable pub replace_file : Text → Text → M H (Unit {0})
  unfolding remove_file_if
  replace_file path content = do remove_file_if path; change H (write path content)

  -- The last part, by architecture.
  unfoldable pub install_shim : Architecture → Text → M H (Unit {0})
  unfolding replace_file
  install_shim generic_amd64 efi_dir = do
    replace_file (join (join efi_dir (text "BOOT")) (text "BOOTX64.EFI")) K.shim_bootx64
    replace_file (join (join efi_dir (text "BOOT")) (text "mmx64.efi")) K.shim_mmx64
  install_shim generic_aarch64 efi_dir = throw (boxed_error (text "Not yet implemented"))
  install_shim imx8 efi_dir = throw (boxed_error (text "Unsupported bootloader"))

  unfoldable pub install_bootloader_refind :
      Text → Architecture → Text → Text → Text → M H (Unit {0})
  unfolding fresh_dir decompress_refind find_refind remove_file_if refind_conf
  install_bootloader_refind mount_point arch rootfs_partuuid cmdline name =
      let tmp_dir = join K.temp_dir (text "refind_install") in
      let efi_dir = join mount_point (text "EFI") in
      let refind_dir = join efi_dir (text "refind") in
      do
        fresh_dir tmp_dir
        decompress_refind tmp_dir
        refind_path ← find_refind tmp_dir
        change H (create_dir_all efi_dir)
        change H (create_dir_all (join efi_dir (text "BOOT")))
        run_program H boxed_error (text "cp")
            (text "-a" ∷ join refind_path (text "refind") ∷ efi_dir ∷ [])
        remove_file_if (join refind_dir (text "refind.conf-sample"))
        change H (
            write (join refind_dir (text "refind.conf"))
              (refind_conf K.refind_config rootfs_partuuid name cmdline))
        install_shim arch efi_dir
