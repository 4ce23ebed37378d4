-- ===== src/Analyze/Windows.antt =====
-- analyze.go: windows, the marks' windows merged where they overlap.
pub mod Cover
use a2kit.Common.{ℕ, ◌+◌, List, [], ◌∷◌, leb, if◌then◌else◌}
use a2kit.Common.Sort.{sort_by}

-- The loop, with the last window of `out` apart
windows_loop : ℕ → ℕ × ℕ → List ℕ → List (ℕ × ℕ)
windows_loop window iv [] = iv ∷ []
windows_loop window (lo, hi) (m ∷ ms) =
    let joined = windows_loop window (lo, m + window) ms in
    let apart = windows_loop window (m, m + window) ms in
    if leb m hi then joined else (lo, hi) ∷ apart

windows_of : ℕ → List ℕ → List (ℕ × ℕ)
unfolding windows_loop
windows_of window [] = []
windows_of window (m ∷ ms) = windows_loop window (m, m + window) ms

unfoldable pub windows : List ℕ → ℕ → List (ℕ × ℕ)
unfolding windows_of sort_by
windows marks window = windows_of window (sort_by (λ m. m) marks)
