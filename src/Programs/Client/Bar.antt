-- ===== src/Programs/Client/Bar.antt =====
-- src/bin/embuer-client.rs, `create_progress_bar`.
use embuer.Base.{
  ℕ, ◌+◌, ◌-◌, ◌*◌, ◌/◌, ◌≤◌, ◌<◌, ◌≡◌, ◌⊎◌, refl, Option, none, some, if◌then◌else◌, ltb, arith,
  Bool-cases, inl, inr, ltb→lt, ltb-false→le,
}

-- How many cells are filled and empty. `20 - filled` on `usize` panics below 0, or wraps around to a
-- length with which `repeat` panics.
unfoldable pub cells : ℕ → Option (ℕ × ℕ)
cells progress =
    let filled = progress / 5 in if ltb 20 filled then none else some (filled, 20 - filled)

-- A bar has twenty cells, of which one is filled for each full five percent. Without a bar, which is
-- a panic, the progress is 105 or more.
pub cells-Bar :
    (progress : ℕ)
    → ((105 ≤ progress) × (cells progress ≡ none))
      ⊎ ((filled empty : ℕ) × (cells progress ≡ some (filled, empty))
          × (filled + empty ≡ 20)
          × (filled * 5 ≤ progress)
          × (progress < filled * 5 + 5))
unfolding cells
cells-Bar progress = elim (Bool-cases (ltb 20 (progress / 5))) [
  | inl wide ↦ let h = ltb→lt 20 (progress / 5) wide in inl (omega arith, rw wide refl)
  | inr fits ↦
      let h = ltb-false→le 20 (progress / 5) fits in
      inr (progress / 5, 20 - progress / 5, rw fits refl, omega arith, omega arith, omega arith)
]
