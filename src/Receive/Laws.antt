-- ===== src/Receive/Laws.antt =====
-- src/core.rs, `receive_btrfs_stream`: when it succeeds.
use embuer.Base.{◌≡◌, ◌↔◌, refl, true, Option, none, ok, arith}
use embuer.Text.{Text}
use embuer.Host.{ExitStatus, Pipeline}
use embuer.Receive.{subvol_name, started, joined}

-- Every process started, every pipe end was there, every task and process came to a good end.
pub record Complete (p : Pipeline) : Type 0 where
  pub xz : p.xz_spawn ≡ none
  pub xz_in : p.xz_stdin ≡ true
  pub xz_out : p.xz_stdout ≡ true
  pub btrfs : p.btrfs_spawn ≡ none
  pub btrfs_in : p.btrfs_stdin ≡ true
  pub btrfs_err : p.btrfs_stderr ≡ true
  pub input_task : p.input_join ≡ none
  pub btrfs_joined : p.btrfs_join ≡ none
  pub stderr_task : p.stderr_join ≡ none
  pub xz_status : ExitStatus
  pub xz_done : p.xz_wait ≡ ok xz_status
  pub xz_good : xz_status.success ≡ true
  pub btrfs_status : ExitStatus
  pub btrfs_done : p.btrfs_wait ≡ ok btrfs_status
  pub btrfs_good : btrfs_status.success ≡ true

module _ (p : Pipeline) (name : Option Text) where
  joined-Complete :
      joined p ≡ ok name
      → (x : ExitStatus) × (b : ExitStatus) × (p.xz_wait ≡ ok x)
        × (x.success ≡ true)
        × (p.btrfs_wait ≡ ok b)
        × (b.success ≡ true)
        × (p.input_join ≡ none)
        × (p.btrfs_join ≡ none)
        × (p.stderr_join ≡ none)
        × (name ≡ subvol_name none p.stderr_lines)
  unfolding joined
  joined-Complete h = ground arith

  started-joined :
      started p ≡ ok name
      → (p.xz_spawn ≡ none)
        × (p.xz_stdin ≡ true)
        × (p.xz_stdout ≡ true)
        × (p.btrfs_spawn ≡ none)
        × (p.btrfs_stdin ≡ true)
        × (p.btrfs_stderr ≡ true)
        × (joined p ≡ ok name)
  unfolding started
  started-joined h = ground arith

  complete : started p ≡ ok name → Complete p × (name ≡ subvol_name none p.stderr_lines)
  complete h =
      let (xz, xz_in, xz_out, btrfs, btrfs_in, btrfs_err, rest) = started-joined h in
      let (x, b, xz_done, xz_good, btrfs_done, btrfs_good, i, j, k, found) = joined-Complete rest in
      (
        record {
          xz = xz;
          xz_in = xz_in;
          xz_out = xz_out;
          btrfs = btrfs;
          btrfs_in = btrfs_in;
          btrfs_err = btrfs_err;
          input_task = i;
          btrfs_joined = j;
          stderr_task = k;
          xz_status = x;
          xz_done = xz_done;
          xz_good = xz_good;
          btrfs_status = b;
          btrfs_done = btrfs_done;
          btrfs_good = btrfs_good;
        },
        found,
      )

  succeeds : Complete p → name ≡ subvol_name none p.stderr_lines → started p ≡ ok name
  unfolding started joined
  succeeds c e =
      rw
        (
          c.xz, c.xz_in, c.xz_out, c.btrfs, c.btrfs_in, c.btrfs_err, c.input_task, c.xz_done,
          c.btrfs_joined, c.stderr_task, c.btrfs_done, c.xz_good, c.btrfs_good, e,
        )
        refl

  -- Receiving succeeds exactly when all of the pipeline came to a good end: both processes started
  -- with their pipe ends, the three tasks were joined, and `xz` and `btrfs receive` both exited
  -- with success. The name that it gives is the one that btrfs printed.
  pub started-Complete :
      (started p ≡ ok name) ↔ (Complete p × (name ≡ subvol_name none p.stderr_lines))
  started-Complete = (complete, λ h. succeeds h.0 h.1)
