-- ===== src/Shell/Tests.antt =====
-- The theorems about the shell at concrete inputs.
use neux_os.Prelude.{ℕ, ◌≡◌, refl, List, [], ◌∷◌, ◌++◌, some, arith}
use neux_os.Shell.{hist_ni, history_append, history_lines, tokens, in_mode, feed, start}
use neux_os.Strings.{strcmp}
use neux_os.Shell.Recall.{Remembers, history_append-recent, history_lines-all}
use neux_os.Shell.Words.{tokens-words}
use neux_os.Shell.Bounds.{IsBounded, feed-IsBounded}
use neux_os.Shell.Line.{feed-edit}

-- "ls" and "  ls -l"
abbrev ls_line : List ℕ
ls_line = 108 ∷ 115 ∷ []

abbrev long_line : List ℕ
long_line = 32 ∷ 32 ∷ 108 ∷ 115 ∷ 32 ∷ 45 ∷ 108 ∷ []

nothing-Remembers : Remembers start.history []
nothing-Remembers = record {
  along = refl;
  fits = omega arith;
  head_in = omega arith;
  tail_in = omega arith;
}

history_lines-all_example :
    history_lines 32 (hist_ni 31) (history_append ls_line start.history) ≡ some (ls_line ∷ [])
unfolding history_append
history_lines-all_example =
    history_lines-all (history_append ls_line start.history) (ls_line ∷ [])
      (history_append-recent start.history [] ls_line nothing-Remembers)

tokens-words_example : tokens 8 (some long_line) ≡ ls_line ∷ (45 ∷ 108 ∷ []) ∷ []
tokens-words_example = tokens-words 8 long_line (omega arith)

-- A newline behind "  ls -l".
feed-IsBounded_example : IsBounded (feed (long_line ++ 10 ∷ []) start)
unfolding in_mode strcmp
feed-IsBounded_example = feed-IsBounded (long_line ++ 10 ∷ []) refl

-- "lx", a backspace, and "s".
feed-edit_example :
    ((feed (108 ∷ 120 ∷ 8 ∷ 115 ∷ 10 ∷ []) start).ran ≡ (ls_line ∷ []) ∷ [])
    × ((feed (108 ∷ 120 ∷ 8 ∷ 115 ∷ 10 ∷ []) start).history.cmdlines
        ≡ (history_append ls_line start.history).cmdlines)
    × ((feed (108 ∷ 120 ∷ 8 ∷ 115 ∷ 10 ∷ []) start).cursor ≡ 0)
feed-edit_example =
    feed-edit start (108 ∷ 120 ∷ 8 ∷ 115 ∷ []) ls_line [] refl refl
      (
        (omega arith, omega arith, λ e. omega arith, λ e. omega arith),
        (
          (omega arith, omega arith, λ e. omega arith, λ e. omega arith),
          (
            (omega arith, omega arith, λ e. omega arith, λ e. omega arith),
            ((omega arith, omega arith, λ e. omega arith, λ e. omega arith), tt),
          ),
        ),
      )
      refl
