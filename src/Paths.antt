-- ===== src/Paths.antt =====
-- lib/c/basename.c and lib/c/dirname.c; a path is the list of its characters.
pub mod Split
mod Tests
use neux_os.Prelude.{
  take, drop, Bool, true, false, ℕ, zero, suc, ◌+◌, ◌-◌, List, [], ◌∷◌, ◌++◌, Option, none, some,
  get_or, length, ◌==◌, if◌then◌else◌,
}

-- The character at a place; the NUL behind the last.
abbrev pub char_at : List ℕ → ℕ → ℕ
char_at path i = get_or path i 0

-- The loops that step back from the place before `n`; `none` is -1.
unfoldable pub last_sep : (n : ℕ) → List ℕ → Option ℕ
last_sep zero path = none
last_sep (suc i) path =
    let before = last_sep i path in if char_at path i == 47 then some i else before

-- The part behind the last separator before `from`.
unfoldable pub behind_sep : (from : ℕ) → List ℕ → List ℕ
unfolding last_sep
behind_sep from path = elim (last_sep from path) [ none ↦ path | some i ↦ drop (suc i) path ]

-- Whether there is a separator at `i`, which is then cut off.
abbrev pub base_of : Bool → ℕ → List ℕ → List ℕ
base_of true i path = behind_sep i (take i path)
base_of false i path = behind_sep (suc i) path

-- The test is at the NUL.
unfoldable pub basename : List ℕ → List ℕ
basename path = let i = length path in base_of (char_at path i == 47) i path

unfoldable pub dirname : List ℕ → List ℕ
unfolding last_sep
dirname path = elim (last_sep (suc (length path)) path) [ none ↦ 46 ∷ [] | some i ↦ take i path ]
