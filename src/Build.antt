-- ===== src/Build.antt =====
-- build.rs: the program that writes the C header when the library is built. `out_dir` is the
-- variable OUT_DIR of cargo.
pub mod Header
pub mod Declarations
pub mod Agrees
use embuer.Base.{Option, none, some}
use embuer.Text.{Text, text, join}
use embuer.Host.{Host, M, create_dir_all, write, change, handle, panics, pure, ◌>>=◌, ◌>>◌}
use Header.{generate_header}

unfoldable pub dest_path : Text → Text
dest_path out_dir = join out_dir (text "../embuer.h")

-- `dest_path.parent()`
unfoldable pub parent : Text → Text
parent out_dir = join out_dir (text "..")

module _ (H : Host) where
  -- `let _ = …`
  unfoldable pub ignored : M H (Unit {0}) → M H (Unit {0})
  ignored m = handle m pure (λ _. pure tt)

  -- `.unwrap()`
  unfoldable pub unwrap : M H (Unit {0}) → M H (Unit {0})
  unwrap m = handle m pure (λ _. panics)

  unfoldable pub main : Option Text → M H (Unit {0})
  unfolding dest_path parent ignored unwrap
  main none = panics
  main (some out_dir) = do
    ignored (change H (create_dir_all (parent out_dir)))
    unwrap (change H (write (dest_path out_dir) generate_header))
