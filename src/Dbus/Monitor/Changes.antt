-- ===== src/Dbus/Monitor/Changes.antt =====
-- src/dbus.rs, `start_status_monitor`: what a client knows that follows the signals.
use embuer.Base.{
  if◌then◌else◌, List, [], ◌∷◌, ◌≡◌, ◌≢◌, refl, sym, ap, ◌∙◌, Bool, true, false, ==_refl, ==→eq,
  not, ◌||◌,
}
use embuer.Text.{Text}
use embuer.Text.Laws.{text_eq→eq, text_eq_refl}
use embuer.Status.{UpdateStatus, Progress, unknown, percent, idle, as_str, details, progress}
use embuer.Dbus.{Shown, shown}
use embuer.Dbus.Monitor.{progress_eq, should_emit, monitor, start_status_monitor}

-- What the client holds after the signals, with `known` before them.
unfoldable pub latest : Shown → List Shown → Shown
latest known [] = known
latest known (signal ∷ rest) = latest signal rest

-- The status that the last poll read.
unfoldable pub newest : UpdateStatus → List UpdateStatus → UpdateStatus
newest s [] = s
newest s (t ∷ rest) = newest t rest

-- Each signal differs from the one before it.
unfoldable pub Changing : Shown → List Shown → Type 0
Changing known [] = Unit
Changing known (signal ∷ rest) = (known ≢ signal) × Changing signal rest

progress_eq→eq : (p q : Progress) → progress_eq p q ≡ true → p ≡ q
unfolding progress_eq
progress_eq→eq unknown unknown h = refl
progress_eq→eq (percent m) (percent n) h = ap percent (==→eq m n h)
progress_eq→eq unknown (percent n) h = cc
progress_eq→eq (percent m) unknown h = cc

progress_eq_refl : (p : Progress) → progress_eq p p ≡ true
unfolding progress_eq
progress_eq_refl unknown = refl
progress_eq_refl (percent n) = ==_refl n

none_differs :
    (a b c : Bool) → (not a || not b || not c) ≡ false → (a ≡ true) × (b ≡ true) × (c ≡ true)
none_differs true true true h = (refl, refl, refl)
none_differs true true false h = cc
none_differs true false c h = cc
none_differs false b c h = cc

same_shown :
    {a b c d : Text} {p q : Progress} → a ≡ b → c ≡ d → p ≡ q → ◌≡◌ {A = Shown} (a, c, p) (b, d, q)
same_shown x y z = cc

newest-same :
    (s t : UpdateStatus) (rest : List UpdateStatus)
    → shown s ≡ shown t
    → shown (newest s rest) ≡ shown (newest t rest)
unfolding newest
newest-same s t [] h = h
newest-same s t (u ∷ rest) h = refl

should_emit-false :
    (current last : UpdateStatus)
    → should_emit current last (progress last) ≡ false
    → shown current ≡ shown last
unfolding should_emit shown
should_emit-false current last h =
    let (status, text, value) = none_differs _ _ _ h in
    same_shown (text_eq→eq _ _ status) (text_eq→eq _ _ text) (progress_eq→eq _ _ value)

should_emit-same :
    (current last : UpdateStatus)
    → shown last ≡ shown current
    → should_emit current last (progress last) ≡ false
unfolding should_emit shown
should_emit-same current last k = rw (
  ap (λ x. x.0) k,
  ap (λ x. x.1) k,
  ap (λ x. x.2) k,
  text_eq_refl (as_str current),
  text_eq_refl (details current),
  progress_eq_refl (progress current),
)

false≢true : false ≢ true
false≢true h = cc

unfoldable pub Follows : UpdateStatus → List UpdateStatus → List Shown → Type 0
unfolding Changing latest newest
Follows last statuses signals =
    Changing (shown last) signals × (latest (shown last) signals ≡ shown (newest last statuses))

follow_one :
    (last current : UpdateStatus) (rest : List UpdateStatus) (b : Bool)
    (changed unchanged : List Shown)
    → should_emit current last (progress last) ≡ b
    → Follows current rest changed
    → Follows last rest unchanged
    → Follows last (current ∷ rest) (if b then shown current ∷ changed else unchanged)
unfolding Follows Changing latest newest
follow_one last current rest true changed unchanged e h k =
    ((λ same. false≢true (sym (should_emit-same current last same) ∙ e), h.0), h.1)
follow_one last current rest false changed unchanged e h k =
    (k.0, k.1 ∙ newest-same last current rest (sym (should_emit-false current last e)))

nothing-Follows : (s : UpdateStatus) → Follows s [] []
unfolding Follows Changing latest newest
nothing-Follows s = (tt, refl)

monitor-Follows :
    (last : UpdateStatus) (statuses : List UpdateStatus)
    → Follows last statuses (monitor last (progress last) statuses)
unfolding monitor
monitor-Follows last [] = nothing-Follows last
monitor-Follows last (current ∷ rest) =
    follow_one last current rest (should_emit current last (progress last)) _ _ refl
      (monitor-Follows current rest) (monitor-Follows last rest)

-- From `Idle`, no signal repeats what the one before it showed, and after all the polls a client
-- that follows the signals holds what the last status read would show: its name, its details and
-- its progress.
pub start_status_monitor-Follows :
    (statuses : List UpdateStatus) → Follows idle statuses (start_status_monitor statuses)
unfolding start_status_monitor progress
start_status_monitor-Follows statuses = monitor-Follows idle statuses
