-- ===== src/Shell/Recall.antt =====
-- The shell's history as a list of lines.
use neux_os.Prelude.{
  ℕ, zero, suc, ◌+◌, ◌<◌, ◌≤◌, ◌≡◌, refl, sym, subst, ltb→lt, List, [], ◌∷◌, ◌++◌, length,
  length-append, true, false, some, Bool-cases, inl, inr, ◌==◌, ltb, if◌then◌else◌, arith,
}
use neux_os.Links.{update}
use neux_os.Links.Refine.{rest}
use neux_os.Buffer.{wrap, Along, Along-end, Along-update, Along-append}
use neux_os.Shell.{History, hist_ni, history_append, history_lines}

-- The history holds these lines, the oldest first.
pub record Remembers (h : History) (lines : List (List ℕ)) : Type 0 where
  pub along : Along 32 h.cmdlines (wrap 32 (h.tail + 1)) lines (wrap 32 (h.head + 1))
  pub fits : length lines ≤ 31
  pub head_in : h.head < 32
  pub tail_in : h.tail < 32

-- The last 31 lines, once a line is added to these.
abbrev pub recent : List (List ℕ) → List ℕ → List (List ℕ)
recent lines line = if ltb (length lines) 31 then lines ++ line ∷ [] else rest (lines ++ line ∷ [])

hist_ni-wrap : (i : ℕ) → i < 32 → hist_ni i ≡ wrap 32 (i + 1)
hist_ni-wrap i h = ground arith

Along-rest :
    (cells : ℕ → List ℕ) (p q : ℕ) (lines : List (List ℕ)) (line : List ℕ)
    → Along 32 cells p (lines ++ line ∷ []) q
    → Along 32 cells (wrap 32 (p + 1)) (rest (lines ++ line ∷ [])) q
Along-rest cells p q [] line a = a.1
Along-rest cells p q (x ∷ lines) line a = a.1

length-rest :
    (lines : List (List ℕ)) (line : List ℕ) → length (rest (lines ++ line ∷ [])) ≡ length lines
length-rest [] line = refl
length-rest (x ∷ lines) line = omega (arith, length-append lines (line ∷ []))

-- A line appended to the history is its last one; the oldest is forgotten once there are 31.
pub history_append-recent :
    (h : History) (lines : List (List ℕ)) (line : List ℕ)
    → Remembers h lines
    → Remembers (history_append line h) (recent lines line)
unfolding history_append
history_append-recent h lines line r =
    let head = hist_ni h.head in
    let first = wrap 32 (h.tail + 1) in
    let place : head ≡ wrap 32 (h.head + 1) = hist_ni-wrap h.head r.head_in in
    let end =
      Along-end 32 h.cmdlines first lines (wrap 32 (h.head + 1)) (ground (arith, r.tail_in))
        (omega (arith, r.fits)) r.along in
    let kept =
      Along-update 32 h.cmdlines first lines (wrap 32 (h.head + 1)) line (ground (arith, r.tail_in))
        (omega (arith, r.fits)) r.along in
    let added =
      Along-append 32 (update h.cmdlines (wrap 32 (h.head + 1)) line) first lines
        (wrap 32 (h.head + 1)) line (ground arith) kept in
    elim (Bool-cases (ltb (length lines) 31)) [
      | inl room ↦
          let other : (head == h.tail) ≡ false = ground (arith, place, end, r.tail_in, r.head_in) in
          rw (room, other)
            (record {
              along =
                  subst
                    (λ p.
                      Along 32 (update h.cmdlines p line) first (lines ++ line ∷ [])
                        (wrap 32 (p + 1)))
                    (sym place) added;
              fits = omega (arith, length-append lines (line ∷ []), ltb→lt _ _ room);
              head_in = omega arith;
              tail_in = r.tail_in;
            })
      | inr full ↦
          let same : (head == h.tail) ≡ true =
            ground (arith, place, end, r.tail_in, r.head_in, r.fits) in
          rw (full, same)
            (record {
              along =
                  subst
                    (λ p.
                      Along 32 (update h.cmdlines p line) (wrap 32 (hist_ni h.tail + 1))
                        (rest (lines ++ line ∷ [])) (wrap 32 (p + 1)))
                    (sym place)
                    (rw (hist_ni-wrap h.tail r.tail_in) (Along-rest _ first _ lines line added));
              fits = omega (arith, length-rest lines line, r.fits);
              head_in = omega arith;
              tail_in = omega arith;
            })
    ]

history_lines_from :
    (h : History) (rounds p : ℕ) (lines : List (List ℕ))
    → Along 32 h.cmdlines p lines (hist_ni h.head)
    → p < 32
    → length lines < 32
    → length lines < rounds
    → history_lines rounds p h ≡ some lines
unfolding history_lines
history_lines_from h zero p lines a hp few fit = absurd (omega arith)
history_lines_from h (suc rounds) p [] a hp few fit =
    let done : (p == hist_ni h.head) ≡ true = ground (arith, a) in rw done
history_lines_from h (suc rounds) p (line ∷ lines) a hp few fit =
    let end = Along-end 32 h.cmdlines p (line ∷ lines) (hist_ni h.head) hp (omega arith) a in
    let more : (p == hist_ni h.head) ≡ false = ground (arith, end) in
    let step = hist_ni-wrap p hp in
    let later =
      history_lines_from h rounds (wrap 32 (p + 1)) lines a.1 (ground arith) (omega arith)
        (omega arith) in
    rw (more, step, later, a.0)

-- The command "history" prints the lines that the history holds, the oldest first.
pub history_lines-all :
    (h : History) (lines : List (List ℕ))
    → Remembers h lines
    → history_lines 32 (hist_ni h.tail) h ≡ some lines
history_lines-all h lines r = rw (hist_ni-wrap h.tail r.tail_in) (
    history_lines_from h 32 (wrap 32 (h.tail + 1)) lines
      (rw (hist_ni-wrap h.head r.head_in) r.along) (ground (arith, r.tail_in))
      (omega (arith, r.fits)) (omega (arith, r.fits)))
