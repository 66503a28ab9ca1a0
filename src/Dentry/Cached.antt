-- ===== src/Dentry/Cached.antt =====
-- Paths whose entries are all in the tree.
use neux_os.Prelude.{
  ℕ, zero, suc, ◌+◌, ◌%◌, ◌^◌, ◌<◌, ◌≡◌, ◌≢◌, refl, ap, sym, subst, ◌∙◌, Bool, true, false,
  Bool-cases, inl, inr, List, [], ◌∷◌, ◌++◌, length, Option, none, some, ◌==◌, ==_ne, if◌then◌else◌,
  arith,
}
use neux_os.Strings.{strlen, strcmp, strpbrk, strsep}
use neux_os.Strings.Span.{AllOutside, cut-append}
use neux_os.Dentry.{
  Dentry, Entries, c_name, dentry_obtain, find_name, get_entry, go, next_entry, dentry_lookup,
}

-- A name between slashes, other than "", "." and "..", that fits with its NUL into the array of an
-- entry.
pub record IsPlain (d : List ℕ) : Type 0 where
  pub short : strlen d < 16
  pub outside : AllOutside (47 ∷ []) d
  pub some_char : (strlen d == 0) ≡ false
  pub not_dot : (strcmp d (46 ∷ []) == 0) ≡ false
  pub not_dots : (strcmp d (46 ∷ 46 ∷ []) == 0) ≡ false

abbrev pub AllPlain : List (List ℕ) → Type 0
AllPlain [] = Unit
AllPlain (d ∷ ds) = IsPlain d × AllPlain ds

-- The names with slashes between them; without any, what strsep leaves behind the last one.
abbrev pub path_of : List (List ℕ) → Option (List ℕ)
path_of [] = none
path_of (d ∷ ds) = elim (path_of ds) [ none ↦ some d | some p ↦ some (d ++ 47 ∷ p) ]

-- From `dir`, the names lead through these entries.
abbrev pub Leads : Entries → ℕ → List (List ℕ) → List ℕ → Type 0
Leads s dir [] [] = Unit
Leads s dir [] (e ∷ es) = ⊥
Leads s dir (d ∷ ds) [] = ⊥
Leads s dir (d ∷ ds) (e ∷ es) =
    (find_name (s.at dir).subdirs d s ≡ some e) × (e ≢ 0) × Leads s e ds es

abbrev pub last_of : ℕ → List ℕ → ℕ
last_of dir [] = dir
last_of dir (e ∷ es) = last_of e es

strpbrk-outside :
    (d p : List ℕ) → AllOutside (47 ∷ []) d → strpbrk (d ++ 47 ∷ p) (47 ∷ []) ≡ some (47 ∷ p)
unfolding strpbrk
strpbrk-outside [] p h = refl
strpbrk-outside (c ∷ d) p h = rw (h.0) (strpbrk-outside d p h.1)

strpbrk-none : (d : List ℕ) → AllOutside (47 ∷ []) d → strpbrk d (47 ∷ []) ≡ none
unfolding strpbrk
strpbrk-none [] h = refl
strpbrk-none (c ∷ d) h = rw (h.0) (strpbrk-none d h.1)

strsep-path_of :
    (d : List ℕ) (ds : List (List ℕ))
    → AllOutside (47 ∷ []) d
    → strsep (path_of (d ∷ ds)) (47 ∷ []) ≡ (some d, path_of ds)
unfolding strsep
strsep-path_of d ds h = with_rest (path_of ds)
  where
    with_rest :
        (o : Option (List ℕ))
        → strsep (elim o [ none ↦ some d | some p ↦ some (d ++ 47 ∷ p) ]) (47 ∷ []) ≡ (some d, o)
    with_rest none = rw (strsep, strpbrk-none d h) refl
    with_rest (some p) =
        rw (strsep, strpbrk-outside d p h) (ap (λ t. (some t, some p)) (cut-append d p 47))

pub same_number : (x a : ℕ) → (x == a) ≡ true → a ≡ x
same_number x a e = ground arith

-- Whatever does not look at the count is as before.
obtain_keeps :
    {B : Type 0} (f : Dentry → B)
    → ((entry : Dentry) (rc : ℕ) → f (record entry { rc = rc }) ≡ f entry)
    → (a x : ℕ) (s : Entries) → f ((dentry_obtain a s).at x) ≡ f (s.at x)
unfolding dentry_obtain
obtain_keeps f h a x s = elim (Bool-cases (x == a)) [
  | inl e ↦
      rw e (h (s.at a) (((s.at a).rc + 1) % 2 ^ 16) ∙ ap (λ b. f (s.at b)) (same_number x a e))
  | inr ne ↦ rw ne refl
]

obtain-name : (a x : ℕ) (s : Entries) → ((dentry_obtain a s).at x).name ≡ (s.at x).name
obtain-name a x s = obtain_keeps (λ (e : Dentry). e.name) (λ e rc. refl) a x s

obtain-subdirs : (a x : ℕ) (s : Entries) → ((dentry_obtain a s).at x).subdirs ≡ (s.at x).subdirs
obtain-subdirs a x s = obtain_keeps (λ (e : Dentry). e.subdirs) (λ e rc. refl) a x s

pub obtain-rc :
    (a x : ℕ) (s : Entries)
    → ((dentry_obtain a s).at x).rc ≡ (if x == a then ((s.at x).rc + 1) % 2 ^ 16 else (s.at x).rc)
unfolding dentry_obtain
obtain-rc a x s = elim (Bool-cases (x == a)) [
  | inl e ↦ rw e (ap (λ b. ((s.at b).rc + 1) % 2 ^ 16) (same_number x a e))
  | inr ne ↦ rw ne refl
]

-- A name of fewer characters than its array is not compared with the count behind it.
strcmp-c_name :
    (left : ℕ) (name d : List ℕ) (rc rc' : ℕ)
    → strlen d < left
    → strcmp (c_name left name rc) d ≡ strcmp (c_name left name rc') d
unfolding strcmp
strcmp-c_name zero name d rc rc' h = absurd (omega arith)
strcmp-c_name (suc left) [] d rc rc' h = refl
strcmp-c_name (suc left) (zero ∷ name) d rc rc' h = refl
strcmp-c_name (suc left) (suc c ∷ name) [] rc rc' h = refl
strcmp-c_name (suc left) (suc c ∷ name) (e ∷ d) rc rc' h =
    rw (strcmp-c_name left name d rc rc' (omega arith)) refl

find_name-obtain :
    (a : ℕ) (subs d : List ℕ) (s : Entries)
    → strlen d < 16
    → find_name subs d (dentry_obtain a s) ≡ find_name subs d s
unfolding find_name
find_name-obtain a [] d s short = refl
find_name-obtain a (sub ∷ subs) d s short =
    let same : strcmp (c_name 16 ((dentry_obtain a s).at sub).name ((dentry_obtain a s).at sub).rc)
          d
        ≡ strcmp (c_name 16 (s.at sub).name (s.at sub).rc) d =
      ap (λ n. strcmp (c_name 16 n ((dentry_obtain a s).at sub).rc) d) (obtain-name a sub s)
      ∙ strcmp-c_name 16 (s.at sub).name d _ _ short in
    rw (same, find_name-obtain a subs d s short) refl

pub Leads-obtain :
    (a : ℕ) (s : Entries) (dir : ℕ) (ds : List (List ℕ)) (es : List ℕ)
    → AllPlain ds
    → Leads s dir ds es
    → Leads (dentry_obtain a s) dir ds es
Leads-obtain a s dir [] [] plain h = tt
Leads-obtain a s dir [] (e ∷ es) plain h = absurd h
Leads-obtain a s dir (d ∷ ds) [] plain h = absurd h
Leads-obtain a s dir (d ∷ ds) (e ∷ es) plain (found, ne, h) = (
  rw (obtain-subdirs a dir s, find_name-obtain a (s.at dir).subdirs d s plain.0.short) found,
  ne,
  Leads-obtain a s e ds es plain.1 h,
)

-- The entry of the first name is found and counted.
next_entry-found :
    (lookup : ℕ → List ℕ → ℕ) (dir : ℕ) (d : List ℕ) (e : ℕ) (s : Entries)
    → IsPlain d
    → find_name (s.at dir).subdirs d s ≡ some e
    → e ≢ 0
    → next_entry lookup dir (some d) s ≡ go e (dentry_obtain e s)
unfolding next_entry get_entry
next_entry-found lookup dir d e s plain found ne =
    let some_entry = ==_ne e 0 ne in
    rw (next_entry, plain.some_char, plain.not_dot, plain.not_dots, get_entry, found, some_entry)
      refl

dentry_lookup_end :
    (lookup : ℕ → List ℕ → ℕ) (rounds dir : ℕ) (s : Entries)
    → dentry_lookup lookup (suc rounds) dir none s ≡ some (dir, dentry_obtain dir s)
unfolding dentry_lookup strsep next_entry
dentry_lookup_end lookup rounds dir s = refl

dentry_lookup_go :
    (lookup : ℕ → List ℕ → ℕ) (rounds dir e : ℕ) (d : List ℕ) (token rest : Option (List ℕ))
    (s s' : Entries)
    → strsep token (47 ∷ []) ≡ (some d, rest)
    → next_entry lookup dir (some d) s ≡ go e s'
    → dentry_lookup lookup (suc rounds) dir token s ≡ dentry_lookup lookup rounds e rest s'
unfolding dentry_lookup
dentry_lookup_go lookup rounds dir e d token rest s s' split first =
    let name = ap (λ r. r.0) split in
    let left = ap (λ r. r.1) split in rw (dentry_lookup, name, first, left) refl

counted-lt : (b : Bool) (rc : ℕ) → rc < 2 ^ 16 → (if b then (rc + 1) % 2 ^ 16 else rc) < 2 ^ 16
counted-lt true rc h = omega arith
counted-lt false rc h = h

counted_last :
    (b : Bool) (rc : ℕ)
    → rc < 2 ^ 16
    → (if b then (rc + 1) % 2 ^ 16 else rc) ≡ (rc + (if b then 1 else 0)) % 2 ^ 16
counted_last true rc h = refl
counted_last false rc h = omega arith

counted-add :
    (b : Bool) (rc t : ℕ)
    → ((if b then (rc + 1) % 2 ^ 16 else rc) + t) % 2 ^ 16
      ≡ (rc + ((if b then 1 else 0) + t)) % 2 ^ 16
counted-add true rc t = omega arith
counted-add false rc t = omega arith

-- What is added to the count of `x`.
abbrev pub extra : (x last : ℕ) → List ℕ → ℕ
extra x last [] = if x == last then 1 else 0
extra x last (e ∷ es) = (if x == e then 1 else 0) + extra x last es

-- A path of plain names, whose entries are all in the tree, leads to the last of them, and adds one to
-- the count of each entry as often as the path goes through it, and one more to the count of the last.
-- One round more than there are names is enough.
pub dentry_lookup-extra :
    (lookup : ℕ → List ℕ → ℕ) (rounds dir : ℕ) (ds : List (List ℕ)) (es : List ℕ) (s : Entries)
    → AllPlain ds
    → Leads s dir ds es
    → length ds < rounds
    → ((x : ℕ) → (s.at x).rc < 2 ^ 16)
    → (s' : Entries) × (dentry_lookup lookup rounds dir (path_of ds) s ≡ some (last_of dir es, s'))
      × ((x : ℕ) → (s'.at x).rc ≡ ((s.at x).rc + extra x (last_of dir es) es) % 2 ^ 16)
dentry_lookup-extra lookup zero dir ds es s plain leads enough bounded = absurd (omega arith)
dentry_lookup-extra lookup (suc rounds) dir [] [] s plain leads enough bounded = (
  dentry_obtain dir s,
  dentry_lookup_end lookup rounds dir s,
  λ x. obtain-rc dir x s ∙ counted_last (x == dir) (s.at x).rc (bounded x),
)
dentry_lookup-extra lookup (suc rounds) dir [] (e ∷ es) s plain leads enough bounded = absurd leads
dentry_lookup-extra lookup (suc rounds) dir (d ∷ ds) [] s plain leads enough bounded = absurd leads
dentry_lookup-extra lookup (suc rounds) dir (d ∷ ds) (e ∷ es) s plain (found, ne, leads) enough
      bounded =
    let token = strsep-path_of d ds plain.0.outside in
    let first = next_entry-found lookup dir d e s plain.0 found ne in
    let (s', done, counts) =
      dentry_lookup-extra lookup rounds e ds es (dentry_obtain e s) plain.1
        (Leads-obtain e s e ds es plain.1 leads) (omega arith)
        (λ x.
          subst (λ n. n < 2 ^ 16) (sym (obtain-rc e x s))
            (counted-lt (x == e) (s.at x).rc (bounded x))) in
    (
      s',
      dentry_lookup_go lookup rounds dir e d (path_of (d ∷ ds)) (path_of ds) s (dentry_obtain e s)
            token first
          ∙ done,
      λ x.
          counts x
          ∙ ap (λ n. (n + extra x (last_of e es) es) % 2 ^ 16) (obtain-rc e x s)
          ∙ counted-add (x == e) (s.at x).rc (extra x (last_of e es) es),
    )
