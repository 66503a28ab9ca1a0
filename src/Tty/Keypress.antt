-- ===== src/Tty/Keypress.antt =====
-- What a key puts into the input of its terminal.
use neux_os.Prelude.{
  ℕ, ◌+◌, ◌-◌, ◌/◌, ◌%◌, ◌≤◌, ◌≡◌, ◌≢◌, refl, sym, subst, ◌∙◌, ap, length-append, false, ==_refl,
  List, not, ◌&&◌, ltb, Bool-cases, inl, inr, [], ◌∷◌, ◌++◌, length, Option, some, ◌==◌,
  if◌then◌else◌, arith,
}
use mathlib.Core.List.{append-nil, append_assoc}
use neux_os.Monitor.Bounds.{IsPlaced, monitor_switch_ends}
use neux_os.Keyboard.Key
use neux_os.Tty.{
  tty_switch, putctrl, extended_key, tty_in_proc, Iobuf, Terminals, set_input, set_mon, iobuf_put,
}
use neux_os.Tty.Input.{Queued, iobuf_put-Queued}

-- What the keyboard's keys put into the input of their terminal.
abbrev pub bytes_of : ℕ → List ℕ
bytes_of key =
    if key / Key.flag_ext % 2 == 0
    then key % 256 ∷ []
    else if key == Key.enter
    then 10 ∷ []
    else if key == Key.backspace
    then 8 ∷ []
    else if not (ltb key Key.up) && not (ltb Key.right key)
    then 0x1b ∷ 0x5b ∷ (65 + (key - Key.up)) ∷ []
    else []

-- The state in which one terminal's buffer holds these bytes, and the others' are as they were.
abbrev pub Received : Terminals → ℕ → List ℕ → Terminals → Type 0
Received t fd xs t' = Queued (t'.input fd) xs × ((i : ℕ) → i ≢ fd → t'.input i ≡ t.input i)

Received-set_input :
    (t : Terminals) (fd : ℕ) (b : Iobuf) (xs : List ℕ)
    → Queued b xs
    → Received t fd xs (set_input t fd b)
Received-set_input t fd b xs h = (rw (==_refl fd) h, λ i ne. ground (arith, ne))

module _ (fuel : ℕ) (t : Terminals) (fd : ℕ) (xs : List ℕ) (h : Queued (t.input fd) xs)
    (placed : (i : ℕ) → IsPlaced (t.mon i)) (enough : 40 ≤ fuel) where
  -- The code ends, and has put these bytes into the terminal's buffer.
  abbrev Gives : Option Terminals → List ℕ → Type 0
  Gives o ys = (t' : Terminals) × (o ≡ some t') × Received t fd (xs ++ ys) t'

  Gives-none : (t' : Terminals) → ((i : ℕ) → t'.input i ≡ t.input i) → Gives (some t') []
  Gives-none t' same = (t', refl, (rw (append-nil xs, same fd) h, λ i ne. same i))

  Gives-switch : (to : ℕ) → Gives (tty_switch fuel t to) []
  unfolding tty_switch
  Gives-switch to =
      let (r, e) =
        monitor_switch_ends fuel (t.mon t.current) (t.mon to) t.video (placed to) enough in
      let t' = record (set_mon (set_mon t t.current (r.0, r.2)) to (r.1, r.2)) { current = to } in
      (t', rw (tty_switch, e), (rw (append-nil xs) h, λ i ne. refl))

  Gives-one :
      (ch : ℕ)
      → length xs + 1 ≤ 1024
      → Gives (some (set_input t fd (iobuf_put (t.input fd) ch))) (ch ∷ [])
  Gives-one ch room = (
    set_input t fd (iobuf_put (t.input fd) ch),
    refl,
    Received-set_input t fd _ _ (iobuf_put-Queued (t.input fd) xs ch h (omega arith)),
  )

  Gives-control :
      (ch : ℕ)
      → length xs + 3 ≤ 1024
      → Gives (some (set_input t fd (iobuf_put (putctrl (t.input fd)) ch))) (0x1b ∷ 0x5b ∷ ch ∷ [])
  unfolding putctrl
  Gives-control ch room =
      let b = t.input fd in
      let one = iobuf_put-Queued b xs 0x1b h (omega arith) in
      let two =
        iobuf_put-Queued (iobuf_put b 0x1b) (xs ++ 0x1b ∷ []) 0x5b one
          (omega (arith, length-append xs (0x1b ∷ []))) in
      let three = iobuf_put-Queued (putctrl b) ((xs ++ 0x1b ∷ []) ++ 0x5b ∷ []) ch two (
        omega (arith, length-append xs (0x1b ∷ []), length-append (xs ++ 0x1b ∷ []) (0x5b ∷ []))) in
      let joined : ((xs ++ 0x1b ∷ []) ++ 0x5b ∷ []) ++ ch ∷ [] ≡ xs ++ 0x1b ∷ 0x5b ∷ ch ∷ [] =
        append_assoc (xs ++ 0x1b ∷ []) (0x5b ∷ []) (ch ∷ [])
        ∙ append_assoc xs (0x1b ∷ []) (0x5b ∷ ch ∷ []) in
      (
        set_input t fd (iobuf_put (putctrl b) ch),
        refl,
        Received-set_input t fd _ _ (subst (Queued (iobuf_put (putctrl b) ch)) joined three),
      )

  Gives-subst : (o : Option Terminals) {zs ys : List ℕ} → zs ≡ ys → Gives o ys → Gives o zs
  Gives-subst o e g = subst (Gives o) (sym e) g

  extended_key-Gives :
      (key : ℕ)
      → (key / Key.flag_ext % 2 == 0) ≡ false
      → length xs + length (bytes_of key) ≤ 1024
      → Gives (extended_key fuel t fd key) (bytes_of key)
  unfolding extended_key
  extended_key-Gives key ext room = elim (Bool-cases (key == Key.enter)) [
    | inl enter ↦
        let out : bytes_of key ≡ 10 ∷ [] = ground arith in
        Gives-subst _ out (rw (extended_key, enter) (Gives-one 10 (omega (arith, ap length out))))
    | inr enter ↦ elim (Bool-cases (key == Key.backspace)) [
      | inl backspace ↦
          let out : bytes_of key ≡ 8 ∷ [] = ground arith in
          Gives-subst _ out
            (rw (extended_key, enter, backspace) (Gives-one 8 (omega (arith, ap length out))))
      | inr backspace ↦ elim (Bool-cases (key == Key.flag_shift_l + Key.pageup)) [
        | inl pageup ↦
            let out : bytes_of key ≡ [] = ground arith in
            Gives-subst _ out
              (rw (extended_key, enter, backspace, pageup) (Gives-none _ (λ i. refl)))
        | inr pageup ↦ elim (Bool-cases (key == Key.flag_shift_l + Key.pagedown)) [
          | inl pagedown ↦
              let out : bytes_of key ≡ [] = ground arith in
              Gives-subst _ out
                (rw (extended_key, enter, backspace, pageup, pagedown) (Gives-none _ (λ i. refl)))
          | inr pagedown ↦ elim (Bool-cases (key == Key.flag_shift_l + Key.f1)) [
            | inl f1 ↦
                let out : bytes_of key ≡ [] = ground arith in
                Gives-subst _ out
                  (rw (extended_key, enter, backspace, pageup, pagedown, f1) (Gives-switch 0))
            | inr f1 ↦ elim (Bool-cases (key == Key.flag_shift_l + Key.f2)) [
              | inl f2 ↦
                  let out : bytes_of key ≡ [] = ground arith in
                  Gives-subst _ out
                    (rw (extended_key, enter, backspace, pageup, pagedown, f1, f2) (Gives-switch 1))
              | inr f2 ↦ elim (Bool-cases (key == Key.flag_shift_l + Key.f3)) [
                | inl f3 ↦
                    let out : bytes_of key ≡ [] = ground arith in
                    Gives-subst _ out (
                      rw (extended_key, enter, backspace, pageup, pagedown, f1, f2, f3)
                        (Gives-switch 2))
                | inr f3 ↦ elim (Bool-cases (not (ltb key Key.up) && not (ltb Key.right key))) [
                  | inl arrow ↦
                      let out : bytes_of key ≡ 0x1b ∷ 0x5b ∷ (65 + (key - Key.up)) ∷ [] =
                        ground arith in
                      Gives-subst _ out (
                        rw (extended_key, enter, backspace, pageup, pagedown, f1, f2, f3, arrow)
                          (Gives-control (65 + (key - Key.up)) (omega (arith, ap length out))))
                  | inr other ↦
                      let out : bytes_of key ≡ [] = ground arith in
                      Gives-subst _ out (
                        rw (extended_key, enter, backspace, pageup, pagedown, f1, f2, f3, other)
                          (Gives-none t (λ i. refl)))
                ]
              ]
            ]
          ]
        ]
      ]
    ]
  ]

-- A key that comes to a terminal with room in its buffer for the key's bytes ends, where each
-- monitor is in its part of the video memory, within 40 rounds of scrolling. The bytes come after
-- the others in that terminal's buffer, and the other terminals' buffers are as they were.
pub tty_in_proc-bytes_of :
    (fuel : ℕ) (t : Terminals) (fd key : ℕ) (xs : List ℕ)
    → Queued (t.input fd) xs
    → ((i : ℕ) → IsPlaced (t.mon i))
    → 40 ≤ fuel
    → fd ≤ 2
    → length xs + length (bytes_of key) ≤ 1024
    → (t' : Terminals) × (tty_in_proc fuel t fd key ≡ some t')
      × Received t fd (xs ++ bytes_of key) t'
unfolding tty_in_proc
tty_in_proc-bytes_of fuel t fd key xs h placed enough valid room =
    let in_range : ltb 2 fd ≡ false = ground arith in
    elim (Bool-cases (key / Key.flag_ext % 2 == 0)) [
      | inl plain ↦
          let out : bytes_of key ≡ (key % 256) ∷ [] = ground arith in
          Gives-subst fuel t fd xs h placed enough _ out (
            rw (tty_in_proc, in_range, plain)
              (Gives-one fuel t fd xs h placed enough (key % 256) (omega (arith, ap length out))))
      | inr ext ↦
          let step : tty_in_proc fuel t fd key ≡ extended_key fuel t fd key =
            rw (tty_in_proc, in_range, ext) refl in
          let (t', e, got) = extended_key-Gives fuel t fd xs h placed enough key ext room in
          (t', step ∙ e, got)
    ]
