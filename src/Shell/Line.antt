-- ===== src/Shell/Line.antt =====
-- The shell's line editor against lists of characters.
use native.Mathlib.Nat.{add-zero}
use neux_os.Prelude.{
  ℕ, zero, suc, ◌+◌, ◌-◌, ◌<◌, ◌≤◌, ◌≡◌, ◌≢◌, refl, ap, sym, subst, ◌∙◌, ltb→lt, List, [], ◌∷◌,
  ◌++◌, length, length-append, true, false, Bool-cases, inl, inr, ◌==◌, ==_ne, ltb, if◌then◌else◌,
  arith,
}
use neux_os.Links.{update}
use neux_os.Strings.{strlen}
use neux_os.Shell.{
  cmdline_max, History, Shell, reading, history_append, find_command, cmdlist, cmd_proc, input_proc,
  c_string, enter, main_char, in_mode, shell_char, feed,
}
use neux_os.Shell.Words.{words, tokens-words}
use neux_os.Shell.Bounds.{run_command-ran, input_proc-cmdlines}

-- The cells from `i` on hold these characters.
abbrev pub Text : (ℕ → ℕ) → ℕ → List ℕ → Type 0
Text cells i [] = Unit
Text cells i (c ∷ xs) = (cells i ≡ c) × Text cells (i + 1) xs

abbrev pub drop_last : List ℕ → List ℕ
drop_last [] = []
drop_last (c ∷ []) = []
drop_last (c ∷ d ∷ xs) = c ∷ drop_last (d ∷ xs)

-- A typed character: a backspace takes the last one away, and a line has 63 at most.
abbrev pub edit_char : List ℕ → ℕ → List ℕ
edit_char xs c = if c == 8 then drop_last xs else if ltb (length xs) 63 then xs ++ c ∷ [] else xs

abbrev pub edit : List ℕ → List ℕ → List ℕ
edit xs [] = xs
edit xs (c ∷ cs) = edit (edit_char xs c) cs

-- Characters other than NUL, newline and escape, in ASCII.
abbrev pub AllTyped : List ℕ → Type 0
AllTyped [] = Unit
AllTyped (c ∷ cs) = ((0 < c) × (c < 128) × (c ≢ 10) × (c ≢ 27)) × AllTyped cs

abbrev AllSet : List ℕ → Type 0
AllSet [] = Unit
AllSet (c ∷ xs) = (0 < c) × AllSet xs

length-drop_last : (xs : List ℕ) → length (drop_last xs) ≡ length xs - 1
length-drop_last [] = omega arith
length-drop_last (c ∷ []) = omega arith
length-drop_last (c ∷ d ∷ xs) = omega (arith, length-drop_last (d ∷ xs))

drop_last_nothing : (xs : List ℕ) → length xs ≡ 0 → xs ≡ drop_last xs
drop_last_nothing [] h = refl
drop_last_nothing (c ∷ xs) h = absurd (omega arith)

AllSet-drop_last : (xs : List ℕ) → AllSet xs → AllSet (drop_last xs)
AllSet-drop_last [] h = tt
AllSet-drop_last (c ∷ []) h = tt
AllSet-drop_last (c ∷ d ∷ xs) h = (h.0, AllSet-drop_last (d ∷ xs) h.1)

AllSet-append : (xs : List ℕ) (c : ℕ) → AllSet xs → 0 < c → AllSet (xs ++ c ∷ [])
AllSet-append [] c h pos = (pos, tt)
AllSet-append (x ∷ xs) c h pos = (h.0, AllSet-append xs c h.1 pos)

Text-update :
    (cells : ℕ → ℕ) (i : ℕ) (xs : List ℕ) (p v : ℕ)
    → i + length xs ≤ p
    → Text cells i xs
    → Text (update cells p v) i xs
Text-update cells i [] p v h t = tt
Text-update cells i (x ∷ xs) p v h t =
    (ground (arith, t.0), Text-update cells (i + 1) xs p v (omega arith) t.1)

Text-append :
    (cells : ℕ → ℕ) (i : ℕ) (xs : List ℕ) (c : ℕ)
    → cells (i + length xs) ≡ c
    → Text cells i xs
    → Text cells i (xs ++ c ∷ [])
Text-append cells i [] c e t = (ap cells (sym (add-zero i)) ∙ e, tt)
Text-append cells i (x ∷ xs) c e t =
    let place : i + 1 + length xs ≡ i + suc (length xs) = omega arith in
    (t.0, Text-append cells (i + 1) xs c (ap cells place ∙ e) t.1)

Text-drop_last :
    (cells : ℕ → ℕ) (i : ℕ) (xs : List ℕ) → Text cells i xs → Text cells i (drop_last xs)
Text-drop_last cells i [] t = tt
Text-drop_last cells i (c ∷ []) t = tt
Text-drop_last cells i (c ∷ d ∷ xs) t = (t.0, Text-drop_last cells (i + 1) (d ∷ xs) t.1)

c_string-Text :
    (left : ℕ) (cells : ℕ → ℕ) (i : ℕ) (xs : List ℕ)
    → length xs < left
    → Text cells i xs
    → cells (i + length xs) ≡ 0
    → AllSet xs
    → c_string left cells i ≡ xs
unfolding c_string
c_string-Text zero cells i xs h t e s = absurd (omega arith)
c_string-Text (suc left) cells i [] h t e s =
    let here : (cells i == 0) ≡ true = ground (arith, e, ap cells (add-zero i)) in rw here
c_string-Text (suc left) cells i (x ∷ xs) h t e s =
    let here : (x == 0) ≡ false = ground arith in
    let place : i + 1 + length xs ≡ i + suc (length xs) = omega arith in
    let later = c_string-Text left cells (i + 1) xs (omega arith) t.1 (ap cells place ∙ e) s.1 in
    rw (t.0, here, later)

-- The shell has been typed these characters since the state `from`.
record Editing (from s : Shell) (xs : List ℕ) : Type 0 where
  mode : s.mode ≡ reading
  cursor : s.cursor ≡ length xs
  text : Text s.cmdline 0 xs
  set : AllSet xs
  fits : length xs ≤ 63
  history : s.history ≡ from.history
  ran : s.ran ≡ from.ran

Editing-char :
    (from s : Shell) (xs : List ℕ) (c : ℕ)
    → Editing from s xs
    → (0 < c) × (c < 128) × (c ≢ 10) × (c ≢ 27)
    → Editing from (main_char c s) (edit_char xs c)
unfolding main_char
Editing-char from s xs c e typed =
    let esc = ==_ne c 27 typed.3 in
    let newline = ==_ne c 10 typed.2 in
    elim (Bool-cases (c == 8)) [
      | inl back ↦ elim (Bool-cases (s.cursor == 0)) [
        | inl first ↦
            rw (esc, newline, back, first)
              (subst (Editing from s) (drop_last_nothing xs (ground (arith, e.cursor))) e)
        | inr later ↦
            rw (esc, newline, back, later)
              (record {
                mode = e.mode;
                cursor = omega (arith, e.cursor, length-drop_last xs);
                text =
                    Text-update s.cmdline 0 (drop_last xs) (s.cursor - 1) 0
                      (omega (arith, e.cursor, length-drop_last xs))
                      (Text-drop_last s.cmdline 0 xs e.text);
                set = AllSet-drop_last xs e.set;
                fits = omega (arith, length-drop_last xs, e.fits);
                history = e.history;
                ran = e.ran;
              })
      ]
      | inr plain ↦
          let same : ltb s.cursor 63 ≡ ltb (length xs) 63 = ap (λ n. ltb n 63) e.cursor in
          elim (Bool-cases (ltb (length xs) 63)) [
            | inl room ↦
                rw (esc, newline, plain, same, room)
                  (record {
                    mode = e.mode;
                    cursor = omega (arith, e.cursor, length-append xs (c ∷ []));
                    text =
                        Text-append (update s.cmdline s.cursor c) 0 xs c (ground (arith, e.cursor))
                          (Text-update s.cmdline 0 xs s.cursor c (omega (arith, e.cursor)) e.text);
                    set = AllSet-append xs c e.set typed.0;
                    fits = omega (arith, length-append xs (c ∷ []), ltb→lt _ _ room);
                    history = e.history;
                    ran = e.ran;
                  })
            | inr full ↦ rw (esc, newline, plain, same, full) e
          ]
    ]

Editing-feed :
    (from s : Shell) (xs cs : List ℕ)
    → Editing from s xs
    → AllTyped cs
    → Editing from (feed cs s) (edit xs cs)
unfolding in_mode
Editing-feed from s xs [] e typed = e
Editing-feed from s xs (c ∷ cs) e typed =
    let more : (c == 255) ≡ false = ground (arith, typed.0.1) in
    let step : shell_char c s ≡ main_char c s = rw (e.mode, in_mode, more) refl in
    Editing-feed from (shell_char c s) (edit_char xs c) cs
      (subst (λ t. Editing from t (edit_char xs c)) (sym step) (Editing-char from s xs c e typed.0))
      typed.1

feed-append : (cs ds : List ℕ) (s : Shell) → feed (cs ++ ds) s ≡ feed ds (feed cs s)
feed-append [] ds s = refl
feed-append (c ∷ cs) ds s = feed-append cs ds (shell_char c s)

input_proc-ran :
    (line cmd : List ℕ) (args : List (List ℕ)) (s : Shell)
    → words line ≡ cmd ∷ args
    → (input_proc line s).ran ≡ s.ran ++ (cmd ∷ args) ∷ []
unfolding input_proc cmd_proc
input_proc-ran line cmd args s e =
    let found = tokens-words (suc (strlen line)) line (omega arith) ∙ e in
    rw (input_proc, found) (run_command-ran (find_command cmdlist cmd) cmd args _)

shell_char-newline : (t : Shell) → t.mode ≡ reading → shell_char 10 t ≡ enter t
unfolding in_mode main_char
shell_char-newline t e = rw e refl

words-length :
    (line cmd : List ℕ) (args : List (List ℕ))
    → words line ≡ cmd ∷ args
    → (strlen line == 0) ≡ false
words-length [] cmd args e = let none : 0 ≡ suc (length args) = ap length e in absurd (omega arith)
words-length (c ∷ line) cmd args e = ground arith

enter-line :
    (t : Shell) (line cmd : List ℕ) (args : List (List ℕ))
    → c_string cmdline_max (update t.cmdline t.cursor 0) 0 ≡ line
    → words line ≡ cmd ∷ args
    → ((enter t).ran ≡ t.ran ++ (cmd ∷ args) ∷ [])
      × ((enter t).history.cmdlines ≡ (history_append line t.history).cmdlines)
      × ((enter t).cursor ≡ 0)
unfolding enter
enter-line t line cmd args read some_word =
    let full = words-length line cmd args some_word in
    rw (read, full) (input_proc-ran line cmd args _ some_word, input_proc-cmdlines line _, refl)

-- Characters typed into an empty line, backspaces among them, and then a newline: the shell splits
-- the edited line into its words, of which there is at least one, hands them to its commands, and
-- appends the edited line to its history.
pub feed-edit :
    (s : Shell) (cs cmd : List ℕ) (args : List (List ℕ))
    → s.mode ≡ reading
    → s.cursor ≡ 0
    → AllTyped cs
    → words (edit [] cs) ≡ cmd ∷ args
    → ((feed (cs ++ 10 ∷ []) s).ran ≡ s.ran ++ (cmd ∷ args) ∷ [])
      × ((feed (cs ++ 10 ∷ []) s).history.cmdlines
          ≡ (history_append (edit [] cs) s.history).cmdlines)
      × ((feed (cs ++ 10 ∷ []) s).cursor ≡ 0)
feed-edit s cs cmd args reads empty typed some_word =
    let line = edit [] cs in
    let t = feed cs s in
    let e =
      Editing-feed s s [] cs
        (record {
          mode = reads;
          cursor = empty;
          text = tt;
          set = tt;
          fits = omega arith;
          history = refl;
          ran = refl;
        })
        typed in
    let cells = update t.cmdline t.cursor 0 in
    let read : c_string 64 cells 0 ≡ line =
      c_string-Text 64 cells 0 line (omega (arith, e.fits))
        (Text-update t.cmdline 0 line t.cursor 0 (omega (arith, e.cursor)) e.text)
        (ground (arith, e.cursor)) e.set in
    let step : feed (cs ++ 10 ∷ []) s ≡ enter t =
      feed-append cs (10 ∷ []) s ∙ shell_char-newline t e.mode in
    let done = enter-line t line cmd args read some_word in
    rw step (
      done.0 ∙ ap (λ r. r ++ (cmd ∷ args) ∷ []) e.ran,
      done.1 ∙ ap (λ (h : History). (history_append line h).cmdlines) e.history,
      done.2,
    )
