-- ===== src/Host/Trace.antt =====
-- What an action adds to the trace: `Emits P m` says that `m` runs only commands that satisfy `P`,
-- on every path. One rule for each way to build an action.
use embuer.Base.{
  List, [], ◌∷◌, ◌++◌, ◌≡◌, refl, sym, ap, ◌∙◌, append_assoc, append-nil, Bool, true, false, Result,
  ok, err, none, if◌then◌else◌, All, All-append,
}
use embuer.Text.{Text}
use embuer.Error.{ServiceError}
use embuer.Host.{
  Host, Env, Event, btrfs, script, Failure, error, panic, abort, M, pure, throw, panics, lift, asks,
  branch, ensure, continue, ◌>>=◌, handle_end, handle, run_btrfs, run_script, Invocation,
  FileAction, ran, changed, run_command, run_program, change, read_input,
}

-- `after` is `before` with events that satisfy `P`.
abbrev pub Adds : (Event → Type 0) → List Event → List Event → Type 0
Adds P before after = (added : List Event) × (after ≡ before ++ added) × All P added

module _ {P : Event → Type 0} where
  pub Adds-refl : (t : List Event) → Adds P t t
  Adds-refl t = ([], sym (append-nil t), tt)

  pub Adds-one : (t : List Event) (x : Event) → P x → Adds P t (t ++ x ∷ [])
  Adds-one t x h = (x ∷ [], refl, (h, tt))

  pub Adds-trans : (t : List Event) {u v : List Event} → Adds P t u → Adds P u v → Adds P t v
  Adds-trans t (xs, e, hx) (ys, f, hy) =
      (xs ++ ys, f ∙ ap (λ w. w ++ ys) e ∙ append_assoc t xs ys, All-append P xs ys hx hy)

pub record Emits {H : Host} (P : Event → Type 0) {A : Type 0} (m : M H A) : Type 0 where
  pub at : (e : Env H) → Adds P e.trace (m e).1.trace

module _ {H : Host} {P : Event → Type 0} {A : Type 0} where
  -- Actions that change nothing.
  pub Emits-pure : (a : A) → Emits {H = H} P (pure a)
  unfolding pure
  Emits-pure a = record { at = λ e. Adds-refl e.trace }

  pub Emits-throw : (x : ServiceError) → Emits {H = H} P {A = A} (throw x)
  unfolding throw
  Emits-throw x = record { at = λ e. Adds-refl e.trace }

  pub Emits-panics : Emits {H = H} P {A = A} panics
  unfolding panics
  Emits-panics = record { at = λ e. Adds-refl e.trace }

  pub Emits-lift : (r : Result ServiceError A) → Emits {H = H} P (lift r)
  unfolding lift
  Emits-lift r = record { at = λ e. Adds-refl e.trace }

  pub Emits-asks : (f : H.State → Result Failure A) → Emits {H = H} P (asks {H = H} f)
  unfolding asks
  Emits-asks f = record { at = λ e. Adds-refl e.trace }

  pub Emits-if :
      (b : Bool) (m n : M H A)
      → Emits {H = H} P m
      → Emits {H = H} P n
      → Emits {H = H} P (if b then m else n)
  Emits-if true m n hm hn = hm
  Emits-if false m n hm hn = hn

  Adds-branch :
      (b : Bool) (m n : M H A) (e : Env H)
      → Emits {H = H} P m
      → Emits {H = H} P n
      → Adds P e.trace (if b then m e else n e).1.trace
  Adds-branch true m n e hm hn = hm.at e
  Adds-branch false m n e hm hn = hn.at e

  pub Emits-branch :
      (b : H.State → Bool) (m n : M H A)
      → Emits {H = H} P m
      → Emits {H = H} P n
      → Emits {H = H} P (branch {H = H} b m n)
  unfolding branch
  Emits-branch b m n hm hn = record { at = λ e. Adds-branch (b e.host) m n e hm hn }

pub Emits-ensure :
    {H : Host} {P : Event → Type 0} (b : Bool) (x : ServiceError) → Emits {H = H} P (ensure b x)
unfolding ensure
Emits-ensure true x = record { at = λ e. Adds-refl e.trace }
Emits-ensure false x = record { at = λ e. Adds-refl e.trace }

module _ {H : Host} {P : Event → Type 0} {A B : Type 0} where
  Adds-continue :
      (t : List Event) (f : A → M H B) (r : Result Failure A × Env H)
      → ((a : A) → Emits {H = H} P (f a))
      → Adds P t r.1.trace
      → Adds P t (continue f r).1.trace
  Adds-continue t f (ok a, e) hf h = Adds-trans t h ((hf a).at e)
  Adds-continue t f (err x, e) hf h = h

  pub Emits-bind :
      (m : M H A) (f : A → M H B)
      → Emits {H = H} P m
      → ((a : A) → Emits {H = H} P (f a))
      → Emits {H = H} P (m >>= f)
  unfolding ◌>>=◌
  Emits-bind m f hm hf = record { at = λ e. Adds-continue e.trace f (m e) hf (hm.at e) }

  Adds-handle :
      (t : List Event) (f : A → M H B) (g : ServiceError → M H B) (r : Result Failure A × Env H)
      → ((a : A) → Emits {H = H} P (f a))
      → ((x : ServiceError) → Emits {H = H} P (g x))
      → Adds P t r.1.trace
      → Adds P t (handle_end f g r).1.trace
  Adds-handle t f g (ok a, e) hf hg h = Adds-trans t h ((hf a).at e)
  Adds-handle t f g (err (error x), e) hf hg h = Adds-trans t h ((hg x).at e)
  Adds-handle t f g (err panic, e) hf hg h = h
  Adds-handle t f g (err abort, e) hf hg h = h

  pub Emits-handle :
      (m : M H A) (f : A → M H B) (g : ServiceError → M H B)
      → Emits {H = H} P m
      → ((a : A) → Emits {H = H} P (f a))
      → ((x : ServiceError) → Emits {H = H} P (g x))
      → Emits {H = H} P (handle m f g)
  unfolding handle
  Emits-handle m f g hm hf hg = record { at = λ e. Adds-handle e.trace f g (m e) hf hg (hm.at e) }

module _ (H : Host) {P : Event → Type 0} where
  pub Emits-run_btrfs : (args : List Text) → P (btrfs args) → Emits {H = H} P (run_btrfs H args)
  unfolding run_btrfs
  Emits-run_btrfs args h = record { at = λ e. Adds-one e.trace (btrfs args) h }

  pub Emits-run_script :
      (failed : Text → ServiceError) (path : Text) (args : List Text)
      → P (script path args)
      → Emits {H = H} P (run_script H failed path args)
  unfolding run_script
  Emits-run_script failed path args h = record { at = λ e. Adds-one e.trace (script path args) h }

  pub Emits-run_command :
      (failed : Text → ServiceError) (c : Invocation)
      → P (ran c)
      → Emits {H = H} P (run_command H failed c)
  unfolding run_command
  Emits-run_command failed c h = record { at = λ e. Adds-one e.trace (ran c) h }

  pub Emits-run_program :
      (failed : Text → ServiceError) (program : Text) (args : List Text)
      → P (ran (record { program = program; current_dir = none; args = args }))
      → Emits {H = H} P (run_program H failed program args)
  unfolding run_program
  Emits-run_program failed program args h = Emits-run_command failed _ h

  pub Emits-change : (a : FileAction) → P (changed a) → Emits {H = H} P (change H a)
  unfolding change
  Emits-change a h = record { at = λ e. Adds-one e.trace (changed a) h }

  pub Emits-read_input : Emits {H = H} P (read_input H)
  unfolding read_input
  Emits-read_input = record { at = λ e. Adds-refl e.trace }

pub ruleset emit_rules = (
  Emits-run_command, Emits-run_program, Emits-change, Emits-read_input, Emits-pure, Emits-throw,
  Emits-lift, Emits-asks, Emits-if, Emits-branch, Emits-ensure, Emits-bind, Emits-handle,
  Emits-run_btrfs, Emits-run_script,
)
