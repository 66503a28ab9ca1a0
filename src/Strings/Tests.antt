-- ===== src/Strings/Tests.antt =====
-- Strings at concrete values.
use neux_os.Prelude.{ℕ, ◌≡◌, List, [], ◌∷◌, length, ◌⊎◌, some, none, arith}
use neux_os.Strings.{strsep, strcspn}
use neux_os.Strings.Compare.{IsString}
use neux_os.Strings.Span.{AllOutside, IsSplit, strsep-IsSplit}

-- "/ab" and "/a"
abbrev path : List ℕ
path = 47 ∷ 97 ∷ 98 ∷ []

abbrev short : List ℕ
short = 47 ∷ 97 ∷ []

path-IsString : IsString path
path-IsString = ground arith

short-IsString : IsString short
short-IsString = ground arith

strsep-IsSplit_example :
    ((strsep (some path) short ≡ (some path, none))
      × (strcspn path short ≡ length path)
      × AllOutside short path)
    ⊎ ((before : List ℕ) × (c : ℕ) × (after : List ℕ) × (strsep (some path) short
          ≡ (some before, some after))
        × (strcspn path short ≡ length before)
        × IsSplit short path before c after)
strsep-IsSplit_example = strsep-IsSplit path short
