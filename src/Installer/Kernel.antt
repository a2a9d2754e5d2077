-- ===== src/Installer/Kernel.antt =====
-- src/bin/embuer-installer.rs: `manual_kernel`, which builds a kernel with `make` and copies it.
use embuer.Base.{Bool, List, [], ◌∷◌, ◌++◌, Option, none, some, ok, if◌then◌else◌}
use embuer.Text.{Text, text, join, trim}
use embuer.Error.{io_os}
use embuer.Host.{
  Host, M, Output, pure, asks, ◌>>=◌, ◌>>◌, run_command, run_program, change, create_dir_all, copy,
}

-- `arch.map_or(String::new(), …)`: without an architecture, an empty argument.
unfoldable pub arch_arg : Option Text → Text
arch_arg none = []
arch_arg (some a) = text "ARCH=" ++ a

-- What the kernel's build may have left, by its path and its file name.
unfoldable pub candidates : Text → List (Text × Text)
candidates build_dir =
    let boot = λ (a : Text). join (join (join build_dir (text "arch")) a) (text "boot") in
    (join (boot (text "x86")) (text "bzImage"), text "bzImage")
    ∷ (join (boot (text "x86")) (text "vmlinuz"), text "vmlinuz")
    ∷ (join (boot (text "x86")) (text "Image"), text "Image")
    ∷ (join (boot (text "arm64")) (text "Image"), text "Image")
    ∷ (join build_dir (text "vmlinux"), text "vmlinux")
    ∷ []

-- `into_iter().find(|p| p.exists())`
unfoldable pub find_existing : (Text → Bool) → List (Text × Text) → Option (Text × Text)
find_existing exists [] = none
find_existing exists ((path, name) ∷ rest) =
    if exists path then some (path, name) else find_existing exists rest

module _ (H : Host) (source_dir : Text) (arch : Option Text) where
  -- Of `make` the status is not looked at.
  unfoldable pub kernel_cmd : List Text → M H Output
  unfolding arch_arg
  kernel_cmd args = run_command H io_os (record {
    program = text "make";
    current_dir = some source_dir;
    args = text "LLVM=1" ∷ text "LLVM_IAS=1" ∷ arch_arg arch ∷ args;
  })

  unfoldable pub default_config : M H (Unit {0})
  unfolding kernel_cmd
  default_config = do
    found ← asks (λ s. ok (H.exists s (join source_dir (text ".config"))))
    if found then pure tt else kernel_cmd (text "defconfig" ∷ []) >>= λ o. pure tt

  unfoldable pub configure : Option Text → M H (Unit {0})
  unfolding default_config
  configure none = default_config
  configure (some defconfig) = kernel_cmd (defconfig ∷ []) >>= λ o. pure tt

  unfoldable pub build_kernel_manual : Option Text → M H (Unit {0})
  unfolding configure
  build_kernel_manual defconfig = do
    kernel_cmd (text "mrproper" ∷ [])
    configure defconfig
    nproc ← run_program H io_os (text "nproc") []
    kernel_cmd (text "-j" ∷ trim nproc.stdout ∷ text "bzImage" ∷ text "modules" ∷ [])
    pure tt

  unfoldable pub copy_image : Text → Option (Text × Text) → M H (Unit {0})
  copy_image boot_dir none = pure tt
  copy_image boot_dir (some (img, file_name)) = change H (copy img (join boot_dir file_name))

  unfoldable pub copy_if : Text → Text → M H (Unit {0})
  copy_if path dest = do
    found ← asks (λ s. ok (H.exists s path))
    if found then change H (copy path dest) else pure tt

  unfoldable pub install_kernel_manual : Text → M H (Unit {0})
  unfolding kernel_cmd candidates find_existing copy_image copy_if
  install_kernel_manual deployment_rootfs_dir =
      let boot_dir = join deployment_rootfs_dir (text "boot") in
      do
        change H (create_dir_all boot_dir)
        kernel_cmd (
            text "DEPMOD=/doesnt/exist"
            ∷ (text "INSTALL_MOD_PATH=" ++ deployment_rootfs_dir ++ text "/usr")
            ∷ text "modules_install"
            ∷ [])
        image_path ← asks (λ s. ok (find_existing (H.exists s) (candidates source_dir)))
        copy_image boot_dir image_path
        copy_if (join source_dir (text "System.map")) (join boot_dir (text "System.map"))
        copy_if (join source_dir (text ".config")) (join boot_dir (text "config"))

  unfoldable pub manual_kernel : Option Text → Text → M H (Unit {0})
  unfolding build_kernel_manual install_kernel_manual
  manual_kernel defconfig deployment_rootfs_dir = do
    build_kernel_manual defconfig
    install_kernel_manual deployment_rootfs_dir
