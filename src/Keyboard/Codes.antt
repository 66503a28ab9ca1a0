-- ===== src/Keyboard/Codes.antt =====
-- The keyboard's buffer as a bounded queue of scan codes.
use neux_os.Prelude.{
  ℕ, suc, ◌+◌, ◌-◌, ◌%◌, ◌≡◌, refl, ap, sym, subst, ◌∙◌, ltb→lt, false, List, [], ◌∷◌, ◌++◌, length,
  none, some, Bool-cases, inl, inr, ◌==◌, ltb, if◌then◌else◌, arith,
}
use neux_os.Buffer.{Holds, Holds-put, Holds-take}
use neux_os.Buffer.{wrap}
use neux_os.Keyboard.{KeyboardBuf, keyboard_handler, handle_all, get_byte_from_kbuf, keyboard_setup}

abbrev pub Waiting : KeyboardBuf → List ℕ → Type 0
Waiting b codes = Holds 32 b.cells b.count b.head b.tail codes

-- What happens to the buffer: an interrupt with a code, or a reader that takes one, with the codes of
-- the interrupts in the middle of the read.
pub data KeyEvent : Type 0 where
  interrupt : ℕ → KeyEvent
  reads : (before during within : List ℕ) → KeyEvent

-- No interrupt comes between a load of the count and the store of the smaller one.
abbrev pub Undisturbed : List KeyEvent → Type 0
Undisturbed [] = Unit
Undisturbed (interrupt code ∷ es) = Undisturbed es
Undisturbed (reads before during within ∷ es) = (within ≡ []) × Undisturbed es

-- The codes that the readers got, the oldest first, and the buffer after the events; a reader of an
-- empty buffer yields.
unfoldable pub handle : List KeyEvent → KeyboardBuf → List ℕ × KeyboardBuf
unfolding get_byte_from_kbuf keyboard_handler
handle [] b = ([], b)
handle (interrupt code ∷ es) b = handle es (keyboard_handler code b)
handle (reads before during within ∷ es) b = elim (get_byte_from_kbuf before during within b) [
  | none ↦ handle es b
  | some (code, b') ↦ let rest = handle es b' in (code ∷ rest.0, rest.1)
]

-- The same on a queue: a code comes last, or is lost if 32 wait already. A code that is being read
-- waits until the read is over.
abbrev pub spec_interrupt : ℕ → List ℕ → List ℕ
spec_interrupt code codes = if ltb (length codes) 32 then codes ++ code ∷ [] else codes

abbrev pub spec_interrupts : List ℕ → List ℕ → List ℕ
spec_interrupts [] codes = codes
spec_interrupts (new ∷ more) codes = spec_interrupts more (spec_interrupt new codes)

abbrev pub behind_first : List ℕ → List ℕ
behind_first [] = []
behind_first (code ∷ codes) = codes

abbrev pub spec_handle : List KeyEvent → List ℕ → List ℕ × List ℕ
spec_handle [] codes = ([], codes)
spec_handle (interrupt code ∷ es) codes = spec_handle es (spec_interrupt code codes)
spec_handle (reads before during within ∷ es) [] = spec_handle es []
spec_handle (reads before during within ∷ es) (code ∷ codes) =
    let rest =
      spec_handle es
        (behind_first (spec_interrupts during (spec_interrupts before (code ∷ codes)))) in
    (code % 256 ∷ rest.0, rest.1)

keyboard_handler-Waiting :
    (code : ℕ) (b : KeyboardBuf) (codes : List ℕ)
    → Waiting b codes
    → Waiting (keyboard_handler code b) (spec_interrupt code codes)
unfolding keyboard_handler
keyboard_handler-Waiting code b codes h =
    let same : ltb b.count 32 ≡ ltb (length codes) 32 = ap (λ n. ltb n 32) h.counted in
    elim (Bool-cases (ltb (length codes) 32)) [
      | inl room ↦ rw (same, room) (Holds-put code h (ltb→lt _ _ room))
      | inr full ↦ rw (same, full) h
    ]

handle_all-Waiting :
    (new : List ℕ) (b : KeyboardBuf) (codes : List ℕ)
    → Waiting b codes
    → Waiting (handle_all new b) (spec_interrupts new codes)
unfolding handle_all
handle_all-Waiting [] b codes h = h
handle_all-Waiting (code ∷ new) b codes h =
    handle_all-Waiting new (keyboard_handler code b) (spec_interrupt code codes)
      (keyboard_handler-Waiting code b codes h)

-- An interrupt neither looks at the tail nor moves it.
keyboard_handler-tail :
    (code t : ℕ) (b : KeyboardBuf)
    → keyboard_handler code (record b { tail = t }) ≡ record (keyboard_handler code b) { tail = t }
unfolding keyboard_handler
keyboard_handler-tail code t b = elim (Bool-cases (ltb b.count 32)) [
  | inl room ↦ rw room refl
  | inr full ↦ rw full refl
]

handle_all-tail :
    (new : List ℕ) (t : ℕ) (b : KeyboardBuf)
    → handle_all new (record b { tail = t }) ≡ record (handle_all new b) { tail = t }
unfolding handle_all
handle_all-tail [] t b = refl
handle_all-tail (code ∷ new) t b =
    ap (handle_all new) (keyboard_handler-tail code t b)
    ∙ handle_all-tail new t (keyboard_handler code b)

handle_all-tail_same : (new : List ℕ) (b : KeyboardBuf) → (handle_all new b).tail ≡ b.tail
unfolding handle_all keyboard_handler
handle_all-tail_same [] b = refl
handle_all-tail_same (code ∷ new) b =
    handle_all-tail_same new (keyboard_handler code b)
    ∙ elim (Bool-cases (ltb b.count 32)) [ inl room ↦ rw room refl | inr full ↦ rw full refl ]

-- Interrupts leave the first code first.
spec_interrupts-first :
    (new : List ℕ) (code : ℕ) (codes : List ℕ)
    → (codes' : List ℕ) × (spec_interrupts new (code ∷ codes) ≡ code ∷ codes')
spec_interrupts-first [] code codes = (codes, refl)
spec_interrupts-first (c ∷ new) code codes = elim (Bool-cases (ltb (suc (length codes)) 32)) [
  | inl room ↦
      let (codes', e) = spec_interrupts-first new code (codes ++ c ∷ []) in (codes', rw room e)
  | inr full ↦ let (codes', e) = spec_interrupts-first new code codes in (codes', rw full e)
]

get_byte_nothing :
    (before during within : List ℕ) (b : KeyboardBuf)
    → Waiting b []
    → get_byte_from_kbuf before during within b ≡ none
unfolding get_byte_from_kbuf
get_byte_nothing before during within b h = rw h.counted

-- The buffer without its first code.
abbrev taken_from : KeyboardBuf → KeyboardBuf
taken_from b = record b { tail = wrap 32 (b.tail + 1); count = b.count - 1 }

get_byte-first :
    (before during : List ℕ) (b : KeyboardBuf) (code : ℕ) (codes : List ℕ)
    → Waiting b (code ∷ codes)
    → (b' : KeyboardBuf) × (get_byte_from_kbuf before during [] b ≡ some (code % 256, b'))
      × Waiting b' (behind_first (spec_interrupts during (spec_interrupts before (code ∷ codes))))
unfolding get_byte_from_kbuf handle_all
get_byte-first before during b code codes h =
    let b1 = handle_all before b in
    let (codes1, e1) = spec_interrupts-first before code codes in
    let h1 : Waiting b1 (code ∷ codes1) =
      subst (Waiting b1) e1 (handle_all-Waiting before b (code ∷ codes) h) in
    let (codes2, e2) = spec_interrupts-first during code codes1 in
    let b2 = handle_all during b1 in
    let h2 : Waiting b2 (code ∷ codes2) =
      subst (Waiting b2) e2 (handle_all-Waiting during b1 (code ∷ codes1) h1) in
    let some_code : (b.count == 0) ≡ false = ground (arith, h.counted) in
    let moved = handle_all-tail during (wrap 32 (b1.tail + 1)) b1 in
    let left : behind_first (spec_interrupts during (spec_interrupts before (code ∷ codes)))
        ≡ codes2 =
      ap (λ xs. behind_first (spec_interrupts during xs)) e1 ∙ ap behind_first e2 in
    (
      taken_from b2,
      rw (get_byte_from_kbuf, some_code)
          (ap (λ (r : KeyboardBuf). some (b1.cells b1.tail % 256, record r { count = r.count - 1 }))
              moved
            ∙ ap
                (λ (t : ℕ). some (
                  b1.cells b1.tail % 256,
                  record b2 { tail = wrap 32 (t + 1); count = b2.count - 1 },
                ))
                (sym (handle_all-tail_same during b1))
            ∙ ap (λ (c : ℕ). some (c % 256, taken_from b2)) h1.along.0),
      subst (Waiting (taken_from b2)) (sym left) (Holds-take h2).1,
    )

handle_from :
    (es : List KeyEvent) (b : KeyboardBuf) (codes : List ℕ)
    → Undisturbed es
    → Waiting b codes
    → (b' : KeyboardBuf) × (handle es b ≡ ((spec_handle es codes).0, b'))
      × Waiting b' (spec_handle es codes).1
unfolding handle
handle_from [] b codes calm h = (b, refl, h)
handle_from (interrupt code ∷ es) b codes calm h =
    handle_from es (keyboard_handler code b) (spec_interrupt code codes) calm
      (keyboard_handler-Waiting code b codes h)
handle_from (reads before during within ∷ es) b [] calm h =
    let (b', e, h') = handle_from es b [] calm.1 h in
    (b', rw (handle, get_byte_nothing before during within b h) e, h')
handle_from (reads before during within ∷ es) b (code ∷ codes) calm h =
    let (b1, e1, h1) = get_byte-first before during b code codes h in
    let (b', e, h') = handle_from es b1 _ calm.1 h1 in
    (b', rw (handle, ap (λ w. get_byte_from_kbuf before during w b) calm.0 ∙ e1, e), h')

-- From a set-up buffer, any sequence of interrupts and reads, with interrupts also in the middle of a
-- read but not between its load of the count and the store of the smaller one, gives the readers the
-- codes in the order in which they came, but for those that came while 32 were waiting, and leaves
-- the others waiting.
pub handle_refines :
    (events : List KeyEvent) (b : KeyboardBuf)
    → Undisturbed events
    → (b' : KeyboardBuf) × (handle events (keyboard_setup b) ≡ ((spec_handle events []).0, b'))
      × Waiting b' (spec_handle events []).1
unfolding keyboard_setup
handle_refines events b calm = handle_from events (keyboard_setup b) [] calm empty
  where
    empty : Waiting (keyboard_setup b) []
    empty = record { along = refl; counted = refl; fits = omega arith; tail_in = omega arith }
