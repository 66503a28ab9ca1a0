-- ===== src/Shell/Bounds.antt =====
-- The shell writes its buffers within their bounds.
use neux_os.Prelude.{
  ℕ, zero, suc, ◌+◌, ◌*◌, ◌≤◌, ◌≡◌, refl, ap, sym, subst, ◌∙◌, ltb→lt, List, [], ◌∷◌, ◌++◌, length,
  true, false, Option, none, some, Bool-cases, inl, inr, ◌==◌, ltb, if◌then◌else◌, arith,
}
use native.Mathlib.Nat.{add-zero}
use neux_os.Links.{update}
use neux_os.Strings.{strlen, strcmp}
use neux_os.Shell.Words.{tokens-words, words-count}
use neux_os.Shell.{
  History, Shell, Mode, reading, escape, bracket, quit, undefined, hist_ni, hist_pi, history_append,
  history_prev, history_next, history_clear, Command, find_command, cmdlist, run_command,
  print_format, is_undefined, cmd_history, cmd_proc, tokens, input_proc, c_string, show_line, enter,
  main_char, ctrl_char, in_mode, shell_char, feed, start,
}

-- These argument vectors fit into the array of ARGC_MAX tokens.
abbrev pub AllFit : List (List (List ℕ)) → Type 0
AllFit [] = Unit
AllFit (args ∷ ran) = (length args ≤ 32) × AllFit ran

-- Every line fits into 64 bytes with its NUL, the cursor is inside the buffer with room for one, and
-- the words of each line fit into their array.
pub record IsBounded (s : Shell) : Type 0 where
  pub cursor : s.cursor ≤ 63
  pub lines : (i : ℕ) → length (s.history.cmdlines i) ≤ 63
  pub tokens : AllFit s.ran

c_string_le :
    (left : ℕ) (cells : ℕ → ℕ) (i k : ℕ) → cells (i + k) ≡ 0 → length (c_string left cells i) ≤ k
unfolding c_string
c_string_le zero cells i k e = omega arith
c_string_le (suc left) cells i zero e =
    let here : (cells i == 0) ≡ true = ground (arith, e, ap cells (add-zero i)) in
    rw here (omega arith)
c_string_le (suc left) cells i (suc k) e = elim (Bool-cases (cells i == 0)) [
  | inl stop ↦ rw stop (omega arith)
  | inr go ↦
      let place : i + 1 + k ≡ i + suc k = omega arith in
      rw go (omega (arith, c_string_le left cells (i + 1) k (ap cells place ∙ e)))
]

history_append-IsBounded :
    (h : History) (line : List ℕ)
    → ((i : ℕ) → length (h.cmdlines i) ≤ 63)
    → length line ≤ 63
    → (i : ℕ) → length ((history_append line h).cmdlines i) ≤ 63
unfolding history_append
history_append-IsBounded h line all fit i = elim (Bool-cases (i == hist_ni h.head)) [
  | inl here ↦ rw here fit
  | inr away ↦ rw away (all i)
]

-- A command changes only where the history's lines start and end.
pub run_command-cmdlines :
    (o : Option Command) (cmd : List ℕ) (args : List (List ℕ)) (s : Shell)
    → (run_command o cmd args s).history.cmdlines ≡ s.history.cmdlines
unfolding cmd_history history_clear print_format
run_command-cmdlines none cmd args s = refl
run_command-cmdlines (some Command.ls) cmd args s = refl
run_command-cmdlines (some Command.exit) cmd args s = refl
run_command-cmdlines (some Command.pwd) cmd args s = refl
run_command-cmdlines (some Command.cd) cmd [] s = refl
run_command-cmdlines (some Command.cd) cmd (path ∷ args) s = refl
run_command-cmdlines (some Command.realpath) cmd [] s = refl
run_command-cmdlines (some Command.realpath) cmd (path ∷ args) s = refl
run_command-cmdlines (some Command.history) cmd [] s = refl
run_command-cmdlines (some Command.history) cmd (arg ∷ args) s =
    elim (Bool-cases (strcmp arg (45 ∷ 99 ∷ []) == 0)) [ inl e ↦ rw e refl | inr e ↦ rw e refl ]
run_command-cmdlines (some Command.fork) cmd args s = refl

pub input_proc-cmdlines :
    (line : List ℕ) (s : Shell) → (input_proc line s).history.cmdlines ≡ s.history.cmdlines
unfolding input_proc cmd_proc
input_proc-cmdlines line s =
    elim (tokens (suc (strlen line)) (some line))
      as (λ ts.
        (elim ts as (λ _. Shell) [
          | [] ↦ record s { mode = undefined }
          | cmd ∷ args ↦ cmd_proc cmd args s
        ]).history.cmdlines
        ≡ s.history.cmdlines) [
          | [] ↦ refl
          | cmd ∷ args ↦ run_command-cmdlines (find_command cmdlist cmd) cmd args _
        ]

pub run_command-ran :
    (o : Option Command) (cmd : List ℕ) (args : List (List ℕ)) (s : Shell)
    → (run_command o cmd args s).ran ≡ s.ran
unfolding cmd_history history_clear print_format
run_command-ran none cmd args s = refl
run_command-ran (some Command.ls) cmd args s = refl
run_command-ran (some Command.exit) cmd args s = refl
run_command-ran (some Command.pwd) cmd args s = refl
run_command-ran (some Command.cd) cmd [] s = refl
run_command-ran (some Command.cd) cmd (path ∷ args) s = refl
run_command-ran (some Command.realpath) cmd [] s = refl
run_command-ran (some Command.realpath) cmd (path ∷ args) s = refl
run_command-ran (some Command.history) cmd [] s = refl
run_command-ran (some Command.history) cmd (arg ∷ args) s =
    elim (Bool-cases (strcmp arg (45 ∷ 99 ∷ []) == 0)) [ inl e ↦ rw e refl | inr e ↦ rw e refl ]
run_command-ran (some Command.fork) cmd args s = refl

AllFit-append : (xs ys : List (List (List ℕ))) → AllFit xs → AllFit ys → AllFit (xs ++ ys)
AllFit-append [] ys h k = k
AllFit-append (x ∷ xs) ys h k = (h.0, AllFit-append xs ys h.1 k)

input_proc-AllFit :
    (line : List ℕ) (s : Shell) → length line ≤ 63 → AllFit s.ran → AllFit (input_proc line s).ran
unfolding input_proc cmd_proc
input_proc-AllFit line s short h =
    let few : 2 * length (tokens (suc (strlen line)) (some line)) ≤ 64 = omega (
      arith,
      ap (λ (ws : List (List ℕ)). length ws) (tokens-words (suc (strlen line)) line (omega arith)),
      words-count line,
    ) in
    go (tokens (suc (strlen line)) (some line)) few
  where
    go :
        (ts : List (List ℕ))
        → 2 * length ts ≤ 64
        → AllFit
            (elim ts as (λ _. Shell) [
              | [] ↦ record s { mode = undefined }
              | cmd ∷ args ↦ cmd_proc cmd args s
            ]).ran
    go [] few = h
    go (cmd ∷ args) few =
        subst AllFit (sym (run_command-ran (find_command cmdlist cmd) cmd args _))
          (AllFit-append s.ran ((cmd ∷ args) ∷ []) h (omega arith, tt))

enter-IsBounded : (s : Shell) → IsBounded s → IsBounded (enter s)
unfolding enter
enter-IsBounded s b =
    let cells = update s.cmdline s.cursor 0 in
    let line = c_string 64 cells 0 in
    let short : length line ≤ 63 =
      omega (arith, b.cursor, c_string_le 64 cells 0 s.cursor (ground arith)) in
    elim (Bool-cases (strlen line == 0)) [
      | inl empty ↦ rw empty (record { cursor = omega arith; lines = b.lines; tokens = b.tokens })
      | inr full ↦ rw full (record {
        cursor = omega arith;
        lines = λ i.
            subst (λ f. length (f i) ≤ 63)
              (sym (
                input_proc-cmdlines line
                  (record s { cmdline = cells; history = history_append line s.history })))
              (history_append-IsBounded s.history line b.lines short i);
        tokens =
            input_proc-AllFit line
              (record s { cmdline = cells; history = history_append line s.history }) short
              b.tokens;
      })
    ]

main_char-IsBounded : (c : ℕ) (s : Shell) → IsBounded s → IsBounded (main_char c s)
unfolding main_char
main_char-IsBounded c s b = elim (Bool-cases (c == 27)) [
  | inl esc ↦ rw esc (record { cursor = b.cursor; lines = b.lines; tokens = b.tokens })
  | inr c1 ↦ elim (Bool-cases (c == 10)) [
    | inl newline ↦ rw (c1, newline) (enter-IsBounded s b)
    | inr c2 ↦ elim (Bool-cases (c == 8)) [
      | inl back ↦ elim (Bool-cases (s.cursor == 0)) [
        | inl first ↦ rw (c1, c2, back, first) b
        | inr later ↦
            rw (c1, c2, back, later)
              (record { cursor = omega (arith, b.cursor); lines = b.lines; tokens = b.tokens })
      ]
      | inr c3 ↦ elim (Bool-cases (ltb s.cursor 63)) [
        | inl room ↦
            rw (c1, c2, c3, room)
              (record {
                cursor = omega (arith, ltb→lt _ _ room);
                lines = b.lines;
                tokens = b.tokens;
              })
        | inr full ↦ rw (c1, c2, c3, full) b
      ]
    ]
  ]
]

show_line-IsBounded :
    (r : List ℕ × History) (s : Shell)
    → length r.0 ≤ 63
    → r.1.cmdlines ≡ s.history.cmdlines
    → IsBounded s
    → IsBounded (show_line r s)
unfolding show_line print_format
show_line-IsBounded (line, h) s short same b = record {
  cursor = short;
  lines = λ i. subst (λ f. length (f i) ≤ 63) (sym same) (b.lines i);
  tokens = b.tokens;
}

history_prev-IsBounded :
    (h : History)
    → ((i : ℕ) → length (h.cmdlines i) ≤ 63)
    → (length (history_prev h).0 ≤ 63) × ((history_prev h).1.cmdlines ≡ h.cmdlines)
unfolding history_prev
history_prev-IsBounded h all = elim (Bool-cases (hist_pi h.cursor == h.tail)) [
  | inl last ↦ rw last (all h.cursor, refl)
  | inr more ↦ rw more (all (hist_pi h.cursor), refl)
]

history_next-IsBounded :
    (h : History)
    → ((i : ℕ) → length (h.cmdlines i) ≤ 63)
    → (length (history_next h).0 ≤ 63) × ((history_next h).1.cmdlines ≡ h.cmdlines)
unfolding history_next
history_next-IsBounded h all = elim (Bool-cases (h.cursor == hist_ni h.head)) [
  | inl last ↦ rw last (omega arith, refl)
  | inr more ↦ rw more (all (hist_ni h.cursor), refl)
]

ctrl_char-IsBounded : (c : ℕ) (s : Shell) → IsBounded s → IsBounded (ctrl_char c s)
unfolding ctrl_char
ctrl_char-IsBounded c s b =
    let s' = record s { mode = if ltb c 128 then reading else quit } in
    let b' : IsBounded s' = record { cursor = b.cursor; lines = b.lines; tokens = b.tokens } in
    elim (Bool-cases (c == 65)) [
      | inl up ↦
          let (short, same) = history_prev-IsBounded s.history b.lines in
          rw up (show_line-IsBounded (history_prev s.history) s' short same b')
      | inr c1 ↦ elim (Bool-cases (c == 66)) [
        | inl down ↦
            let (short, same) = history_next-IsBounded s.history b.lines in
            rw (c1, down) (show_line-IsBounded (history_next s.history) s' short same b')
        | inr c2 ↦ rw (c1, c2) b'
      ]
    ]

in_mode-IsBounded : (m : Mode) (c : ℕ) (s : Shell) → IsBounded s → IsBounded (in_mode m c s)
unfolding in_mode
in_mode-IsBounded reading c s b = elim (Bool-cases (c == 255)) [
  | inl end ↦ rw end (record { cursor = b.cursor; lines = b.lines; tokens = b.tokens })
  | inr more ↦ rw more (main_char-IsBounded c s b)
]
in_mode-IsBounded escape c s b = record { cursor = b.cursor; lines = b.lines; tokens = b.tokens }
in_mode-IsBounded bracket c s b = ctrl_char-IsBounded c s b
in_mode-IsBounded quit c s b = b
in_mode-IsBounded undefined c s b = b

feed_from-IsBounded : (cs : List ℕ) (s : Shell) → IsBounded s → IsBounded (feed cs s)
feed_from-IsBounded [] s b = b
feed_from-IsBounded (c ∷ cs) s b =
    feed_from-IsBounded cs (shell_char c s) (in_mode-IsBounded s.mode c s b)

-- From its start, the shell reads bytes that bring it to no use of an unset token and to no '%' in the
-- format of a printf: the cursor stays in its buffer of 64 bytes with room for a NUL, every line of
-- the history fits into its 64 bytes with its NUL, and the words of every line that it has run fit
-- into their array of 32.
pub feed-IsBounded :
    (cs : List ℕ) → is_undefined (feed cs start).mode ≡ false → IsBounded (feed cs start)
feed-IsBounded cs defined =
    feed_from-IsBounded cs start
      (record { cursor = omega arith; lines = λ i. omega arith; tokens = tt })
