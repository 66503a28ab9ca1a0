-- ===== src/Paths/Tests.antt =====
-- Paths at concrete values.
use neux_os.Prelude.{ℕ, ◌≡◌, ◌⊎◌, List, [], ◌∷◌, ◌++◌}
use neux_os.Strings.Span.{AllOutside}
use neux_os.Paths.{dirname, basename}
use neux_os.Paths.Split.{dirname-basename}

-- "/dev/tty"
abbrev device : List ℕ
device = 47 ∷ 100 ∷ 101 ∷ 118 ∷ 47 ∷ 116 ∷ 116 ∷ 121 ∷ []

dirname-basename_example :
    (AllOutside (47 ∷ []) device × (dirname device ≡ 46 ∷ []) × (basename device ≡ device))
    ⊎ ((dirname device ++ 47 ∷ basename device ≡ device) × AllOutside (47 ∷ []) (basename device))
dirname-basename_example = dirname-basename device
