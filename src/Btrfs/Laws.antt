-- ===== src/Btrfs/Laws.antt =====
-- src/btrfs.rs: which commands each call of the wrapper runs.
use embuer.Base.{ℕ, List, [], ◌∷◌}
use embuer.Text.{Text, text}
use embuer.Host.{Host, Event, btrfs}
use embuer.Host.Trace.{Emits, emit_rules}
use embuer.Btrfs.{run_and_get_stdout, is_btrfs_subvolume}
use embuer.Btrfs.Query.{btrfs_subvol_get_id, subvolume_get_default}
use embuer.Btrfs.Change.{
  get_property, set_property, subvolume_set_rw, set_default_args, subvolume_set_default,
  delete_args, subvolume_delete,
}

abbrev pub show_args : Text → List Text
show_args path = text "subvolume" ∷ text "show" ∷ path ∷ []

abbrev pub get_default_args : Text → List Text
get_default_args rootfs = text "subvolume" ∷ text "get-default" ∷ rootfs ∷ []

abbrev pub get_property_args : Text → List Text
get_property_args path = text "property" ∷ text "get" ∷ text "-fts" ∷ path ∷ []

abbrev pub set_property_args : Text → Text → List Text
set_property_args path value =
    text "property" ∷ text "set" ∷ text "-fts" ∷ path ∷ text "ro" ∷ value ∷ []

module _ (H : Host) {P : Event → Type 0} where
  pub Emits-run_and_get_stdout :
      (args : List Text) → P (btrfs args) → Emits {H = H} P (run_and_get_stdout H args)
  unfolding run_and_get_stdout
  Emits-run_and_get_stdout args h = search emit_rules

  pub Emits-is_btrfs_subvolume : (path : Text) → Emits {H = H} P (is_btrfs_subvolume H path)
  unfolding is_btrfs_subvolume
  Emits-is_btrfs_subvolume path = search emit_rules

  pub Emits-btrfs_subvol_get_id :
      (path : Text) → P (btrfs (show_args path)) → Emits {H = H} P (btrfs_subvol_get_id H path)
  unfolding btrfs_subvol_get_id
  Emits-btrfs_subvol_get_id path h =
      search (emit_rules, Emits-is_btrfs_subvolume, Emits-run_and_get_stdout)

  pub Emits-subvolume_get_default :
      (rootfs : Text)
      → P (btrfs (get_default_args rootfs))
      → Emits {H = H} P (subvolume_get_default H rootfs)
  unfolding subvolume_get_default
  Emits-subvolume_get_default rootfs h = search (emit_rules, Emits-run_and_get_stdout)

  pub Emits-subvolume_delete :
      (path : Text) → P (btrfs (delete_args path)) → Emits {H = H} P (subvolume_delete H path)
  unfolding subvolume_delete
  Emits-subvolume_delete path h = search Emits-run_and_get_stdout

  pub Emits-subvolume_set_default :
      (id : ℕ) (rootfs : Text)
      → P (btrfs (set_default_args id rootfs))
      → Emits {H = H} P (subvolume_set_default H id rootfs)
  unfolding subvolume_set_default
  Emits-subvolume_set_default id rootfs h = search (emit_rules, Emits-run_and_get_stdout)

  pub Emits-subvolume_set_rw :
      (path : Text)
      → P (btrfs (get_property_args path))
      → P (btrfs (set_property_args path (text "false")))
      → Emits {H = H} P (subvolume_set_rw H path)
  unfolding subvolume_set_rw get_property set_property
  Emits-subvolume_set_rw path g s =
      search (emit_rules, Emits-is_btrfs_subvolume, Emits-run_and_get_stdout) depth 9
