-- ===== src/SingleInstancePlugin/Windows.antt =====
-- windowIdForBinary and activateExistingInstance of src/single-instance/main.cpp.
use touch_applauncherd.Common.{ℕ, ◌≡◌, Bool, true, false, List, ◌∷◌, ◌++◌, Text, text_eq, All}
use touch_applauncherd.SingleInstancePlugin.{Desktop, binary_name_for_pid, window_pid}

-- Whether a window is one of the binary.
abbrev pub is_of : Desktop → Text → ℕ → Bool
is_of x binary_name w = text_eq (binary_name_for_pid x (window_pid x w)) binary_name

-- The window is the first of the binary's in the list.
abbrev pub IsFirst : Desktop → Text → List ℕ → ℕ → Type 0
IsFirst x binary_name clients w =
    (before : List ℕ) × (after : List ℕ) × (clients ≡ before ++ w ∷ after)
    × (is_of x binary_name w ≡ true)
    × All (λ v. is_of x binary_name v ≡ false) before
