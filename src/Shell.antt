-- ===== src/Shell.antt =====
-- app/nxsh.c: the shell. It reads bytes, edits a line, keeps the last lines, and runs commands.
pub mod Recall
pub mod Words
pub mod Bounds
pub mod Line
mod Tests
use neux_os.Prelude.{
  ℕ, zero, suc, ◌+◌, ◌-◌, ◌%◌, List, [], ◌∷◌, ◌++◌, Bool, true, false, not, ◌&&◌, ◌||◌, Option,
  none, some, ◌==◌, ltb, if◌then◌else◌,
}
use neux_os.Links.{update}
use neux_os.Strings.{strlen, strcmp, strsep, strcpy}

-- CMDLINE_MAX and HISTORY_MAX
abbrev pub cmdline_max : ℕ
cmdline_max = 64

abbrev pub history_max : ℕ
history_max = 32

-- `struct nxsh_history`; `cmdlines` holds strings.
pub record History : Type 0 where
  pub cmdlines : ℕ → List ℕ
  pub head : ℕ
  pub tail : ℕ
  pub cursor : ℕ

-- HIST_NI and HIST_PI
abbrev pub hist_ni : ℕ → ℕ
hist_ni i = (i + 1) % history_max

abbrev pub hist_pi : ℕ → ℕ
hist_pi i = (i + history_max - 1) % history_max

unfoldable pub history_append : List ℕ → History → History
history_append cmdline h =
    let head = hist_ni h.head in
    record {
      cmdlines = update h.cmdlines head cmdline;
      head = head;
      tail = if head == h.tail then hist_ni h.tail else h.tail;
      cursor = hist_ni head;
    }

unfoldable pub history_prev : History → List ℕ × History
history_prev h =
    if hist_pi h.cursor == h.tail
    then (h.cmdlines h.cursor, h)
    else (h.cmdlines (hist_pi h.cursor), record h { cursor = hist_pi h.cursor })

unfoldable pub history_next : History → List ℕ × History
history_next h =
    if h.cursor == hist_ni h.head
    then ([], h)
    else (h.cmdlines (hist_ni h.cursor), record h { cursor = hist_ni h.cursor })

unfoldable pub history_clear : History → History
history_clear h = record h { head = history_max - 1; tail = history_max - 1; cursor = 0 }

-- The lines that cmd_history prints, in its order; `none` is a loop that has not ended.
unfoldable pub history_lines : (rounds i : ℕ) → History → Option (List (List ℕ))
history_lines zero i h = none
history_lines (suc rounds) i h =
    let rest : Option (List (List ℕ)) = elim (history_lines rounds (hist_ni i) h) [
      | none ↦ none
      | some lines ↦ some (h.cmdlines i ∷ lines)
    ] in
    if i == hist_ni h.head then some [] else rest

-- What `getchar` is waiting for; `quit` is the end of the program. `undefined` is behind a use of a
-- token that is not set, or of an argument of printf that is not given: what the program does from
-- there on is not defined, and the model ends. A theorem about a run says that it does not get there.
pub data Mode : Type 0 where
  reading escape bracket quit undefined : Mode

-- `history`, the buffer of `main`, and the argument vectors that cmd_proc has got.
pub record Shell : Type 0 where
  pub history : History
  pub cmdline : ℕ → ℕ
  pub cursor : ℕ
  pub mode : Mode
  pub ran : List (List (List ℕ))

-- The commands of `cmdlist`.
pub data Command : Type 0 where
  ls exit pwd cd realpath history fork : Command

abbrev pub cmdlist : List (List ℕ × Command)
cmdlist =
    (108 ∷ 115 ∷ [], Command.ls)
    ∷ (101 ∷ 120 ∷ 105 ∷ 116 ∷ [], Command.exit)
    ∷ (112 ∷ 119 ∷ 100 ∷ [], Command.pwd)
    ∷ (99 ∷ 100 ∷ [], Command.cd)
    ∷ (114 ∷ 101 ∷ 97 ∷ 108 ∷ 112 ∷ 97 ∷ 116 ∷ 104 ∷ [], Command.realpath)
    ∷ (104 ∷ 105 ∷ 115 ∷ 116 ∷ 111 ∷ 114 ∷ 121 ∷ [], Command.history)
    ∷ (102 ∷ 111 ∷ 114 ∷ 107 ∷ [], Command.fork)
    ∷ []

-- The loop of cmd_proc; `none` is "command not found".
unfoldable pub find_command : List (List ℕ × Command) → List ℕ → Option Command
find_command [] cmd = none
find_command ((name, c) ∷ cs) cmd =
    let rest = find_command cs cmd in if not (strcmp name cmd == 0) then rest else some c

-- cmd_history's "-c"
unfoldable pub cmd_history : List (List ℕ) → Shell → Shell
unfolding history_clear
cmd_history [] s = s
cmd_history (arg ∷ args) s =
    if strcmp arg (45 ∷ 99 ∷ []) == 0 then record s { history = history_clear s.history } else s

abbrev pub is_undefined : Mode → Bool
is_undefined undefined = true
is_undefined _ = false

-- printf with a text in its format: for a '%' in it, printf looks for an argument that is not given,
-- and converts without a bound. A second '%' behind it, which would print one, makes no difference
-- here.
abbrev pub has_percent : List ℕ → Bool
has_percent [] = false
has_percent (c ∷ text) = let more = has_percent text in c == 37 || more

unfoldable pub print_format : List ℕ → Shell → Shell
print_format text s = record s { mode = if has_percent text then undefined else s.mode }

-- nxsh_perror of cmd_chdir and cmd_realpath, which has the first argument in its format. Whether the
-- system finds the path is not known here, and is taken not to be.
abbrev pub print_path : List (List ℕ) → Shell → Shell
unfolding print_format
print_path [] s = s
print_path (path ∷ args) s = print_format path s

-- The call of a command, or nxsh_perror with the name that is not found in its format. The other
-- commands only call the system and print.
abbrev pub run_command : Option Command → (cmd : List ℕ) → List (List ℕ) → Shell → Shell
run_command none cmd args s = print_format cmd s
run_command (some Command.history) cmd args s = cmd_history args s
run_command (some Command.exit) cmd args s = record s { mode = quit }
run_command (some Command.cd) cmd args s = print_path args s
run_command (some Command.realpath) cmd args s = print_path args s
run_command _ cmd args s = s

unfoldable pub cmd_proc : List ℕ → List (List ℕ) → Shell → Shell
unfolding find_command cmd_history print_format
cmd_proc cmd args s =
    run_command (find_command cmdlist cmd) cmd args (record s { ran = s.ran ++ (cmd ∷ args) ∷ [] })

-- The loop of input_proc: the tokens that are not empty.
unfoldable pub tokens : ℕ → Option (List ℕ) → List (List ℕ)
unfolding strsep
tokens zero input = []
tokens (suc rounds) input =
    let (s, rest) = strsep input (32 ∷ []) in
    let more = tokens rounds rest in
    elim s [ none ↦ [] | some t ↦ if strlen t == 0 then more else t ∷ more ]

-- cmd_proc gets token[0], which is not set in a line without a word.
unfoldable pub input_proc : List ℕ → Shell → Shell
unfolding tokens cmd_proc
input_proc line s = elim (tokens (suc (strlen line)) (some line)) [
  | [] ↦ record s { mode = undefined }
  | cmd ∷ args ↦ cmd_proc cmd args s
]

-- The string at `i` in an array of which `left` bytes are left.
unfoldable pub c_string : (left : ℕ) → (ℕ → ℕ) → ℕ → List ℕ
c_string zero cells i = []
c_string (suc left) cells i = if cells i == 0 then [] else cells i ∷ c_string left cells (i + 1)

abbrev pub store : (ℕ → ℕ) → ℕ → List ℕ → ℕ → ℕ
store cells i [] = cells
store cells i (b ∷ bs) = store (update cells i b) (i + 1) bs

-- nxsh_ctrl_up and nxsh_ctrl_down, with the line from the history, which is printed as a format
unfoldable pub show_line : List ℕ × History → Shell → Shell
unfolding print_format
show_line (line, h) s =
    print_format line
      (record s { history = h; cmdline = store s.cmdline 0 (strcpy line); cursor = strlen line })

-- case '\n'; strsep puts a NUL over each separator.
unfoldable pub enter : Shell → Shell
unfolding c_string history_append input_proc
enter s =
    let cells = update s.cmdline s.cursor 0 in
    let line = c_string cmdline_max cells 0 in
    let s = record s { cmdline = cells } in
    if strlen line == 0
    then record s { cursor = 0 }
    else let cut = λ (i : ℕ). if ltb i (strlen line) && cells i == 32 then 0 else cells i in
      let s = input_proc line (record s { history = history_append line s.history }) in
      record s { cmdline = cut; cursor = 0 }

-- The byte `c` in the switch of `main`.
unfoldable pub main_char : ℕ → Shell → Shell
unfolding enter
main_char c s =
    if c == 27
    then record s { mode = escape }
    else if c == 10
    then enter s
    else if c == 8
    then if s.cursor == 0
      then s
      else record s { cursor = s.cursor - 1; cmdline = update s.cmdline (s.cursor - 1) 0 }
    else if ltb s.cursor (cmdline_max - 1)
    then record s { cmdline = update s.cmdline s.cursor c; cursor = s.cursor + 1 }
    else s

-- `ctrl` behind '[': A, B, C and D; a negative `char` ends the program.
unfoldable pub ctrl_char : ℕ → Shell → Shell
unfolding show_line history_prev history_next
ctrl_char c s =
    let s = record s { mode = if ltb c 128 then reading else quit } in
    if c == 65
    then show_line (history_prev s.history) s
    else if c == 66
    then show_line (history_next s.history) s
    else s

-- `getchar` gives this byte; 0xff is taken for EOF. Behind `quit` nothing is read, and behind
-- `undefined` nothing is said.
unfoldable pub in_mode : Mode → ℕ → Shell → Shell
unfolding main_char ctrl_char
in_mode reading c s = if c == 255 then record s { mode = quit } else main_char c s
in_mode escape c s = record s {
  mode = if c == 91 then bracket else if ltb c 128 then reading else quit;
}
in_mode bracket c s = ctrl_char c s
in_mode quit c s = s
in_mode undefined c s = s

abbrev pub shell_char : ℕ → Shell → Shell
shell_char c s = in_mode s.mode c s

abbrev pub feed : List ℕ → Shell → Shell
feed [] s = s
feed (c ∷ cs) s = feed cs (shell_char c s)

-- `main` before the first byte.
abbrev pub start : Shell
start = record {
  history = record { cmdlines = λ i. []; head = 31; tail = 31; cursor = 0 };
  cmdline = λ i. 0;
  cursor = 0;
  mode = reading;
  ran = [];
}
