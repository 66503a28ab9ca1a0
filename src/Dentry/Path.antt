-- ===== src/Dentry/Path.antt =====
-- Absolute paths whose entries are all in the tree.
use neux_os.Prelude.{
  ℕ, zero, suc, ◌+◌, ◌-◌, ◌%◌, ◌^◌, ◌<◌, ◌≡◌, ◌≢◌, refl, ap, sym, ◌∙◌, Bool, true, false,
  Bool-cases, inl, inr, List, [], ◌∷◌, length, some, ◌==◌, ==_ne, ==_refl, ltb, if◌then◌else◌,
  arith,
}
use neux_os.Links.{update}
use neux_os.Strings.{strlen, startswith, strsep}
use neux_os.Dentry.{Entries, dentry_obtain, dentry_lookup, dentry_release, and_release, vfs_lookup}
use neux_os.Dentry.Cached.{
  AllPlain, path_of, Leads, last_of, extra, same_number, obtain-rc, Leads-obtain,
  dentry_lookup-extra,
}

-- A release that leaves references takes one away.
dentry_release-counted :
    (rounds dent : ℕ) (s : Entries)
    → dent ≢ 0
    → 1 < (s.at dent).rc
    → (s.at dent).rc < 2 ^ 16
    → (s' : Entries) × (dentry_release (suc rounds) dent s ≡ some s')
      × ((x : ℕ) → (s'.at x).rc ≡ (if x == dent then (s.at x).rc - 1 else (s.at x).rc))
unfolding dentry_release
dentry_release-counted rounds dent s ne more bounded =
    let entry = s.at dent in
    let rc = (entry.rc + (2 ^ 16 - 1)) % 2 ^ 16 in
    let some_entry = ==_ne dent 0 ne in
    let left : (rc == 0) ≡ false = ground arith in
    (
      record s { at = update s.at dent (record entry { rc = rc }) },
      rw (dentry_release, some_entry, left) refl,
      λ x. elim (Bool-cases (x == dent)) [
        | inl e ↦
            rw e (less entry.rc more bounded ∙ ap (λ b. (s.at b).rc - 1) (same_number x dent e))
        | inr other ↦ rw other refl
      ],
    )
  where
    less : (rc : ℕ) → 1 < rc → rc < 2 ^ 16 → (rc + (2 ^ 16 - 1)) % 2 ^ 16 ≡ rc - 1
    less rc more bounded = omega arith

starts_with_sep : (p : List ℕ) → startswith (47 ∷ p) (47 ∷ []) ≡ true
unfolding startswith
starts_with_sep p = refl

behind_sep : (p : List ℕ) → (strsep (some (47 ∷ p)) (47 ∷ [])).1 ≡ some p
unfolding strsep
behind_sep p = refl

one_more :
    (b : Bool) (rc : ℕ)
    → rc + 1 < 2 ^ 16
    → (if b then (rc + 1) % 2 ^ 16 else rc) ≡ rc + (if b then 1 else 0)
one_more true rc h = omega arith
one_more false rc h = omega arith

sum_fits :
    (b : Bool) (rc t : ℕ)
    → rc + t + 1 < 2 ^ 16
    → (rc + (if b then 1 else 0) + t) % 2 ^ 16 ≡ rc + t + (if b then 1 else 0)
sum_fits true rc t h = omega arith
sum_fits false rc t h = omega arith

one_less : (b : Bool) (m n : ℕ) → m ≡ n + (if b then 1 else 0) → (if b then m - 1 else m) ≡ n
one_less true m n e = omega arith
one_less false m n e = omega arith

-- An absolute path of plain names of fewer than 16 characters, of which the entries are all in the
-- tree, leads to the last of them, if the path has less than 255 characters and fewer names than
-- there are rounds. Unless a count overflows, vfs_lookup then has added one to the count of each
-- entry as often as the path goes through it, and one more to the count of the last; what it takes of
-- the root meanwhile it gives back.
pub vfs_lookup-extra :
    (lookup : ℕ → List ℕ → ℕ) (rounds root cwd : ℕ) (d p : List ℕ) (ds : List (List ℕ))
    (es : List ℕ) (s : Entries)
    → AllPlain (d ∷ ds)
    → path_of (d ∷ ds) ≡ some p
    → length (47 ∷ p) < 255
    → Leads s root (d ∷ ds) es
    → length (d ∷ ds) < rounds
    → root ≢ 0
    → 0 < (s.at root).rc
    → ((x : ℕ) → (s.at x).rc + extra x (last_of root es) es + 1 < 2 ^ 16)
    → (s' : Entries) × (vfs_lookup lookup rounds root cwd (some (47 ∷ p)) s
        ≡ some (last_of root es, s'))
      × ((x : ℕ) → (s'.at x).rc ≡ (s.at x).rc + extra x (last_of root es) es)
unfolding vfs_lookup and_release
vfs_lookup-extra lookup zero root cwd d p ds es s plain whole short leads enough ne held bounded =
    absurd (omega arith)
vfs_lookup-extra lookup (suc rounds) root cwd d p ds es s plain whole short leads enough ne held
      bounded =
    let s1 = dentry_obtain root s in
    let last = last_of root es in
    let rc1 : (x : ℕ) → (s1.at x).rc ≡ (s.at x).rc + (if x == root then 1 else 0) =
      λ (x : ℕ). obtain-rc root x s ∙ one_more (x == root) (s.at x).rc (omega (arith, bounded x)) in
    let (s2, found, counts) =
      dentry_lookup-extra lookup (suc rounds) root (d ∷ ds) es s1 plain
        (Leads-obtain root s root (d ∷ ds) es plain leads) enough
        (λ x. ground (arith, rc1 x, bounded x)) in
    let rc2 : (x : ℕ)
        → (s2.at x).rc ≡ (s.at x).rc + extra x last es + (if x == root then 1 else 0) =
      λ (x : ℕ).
        counts x
        ∙ ap (λ n. (n + extra x last es) % 2 ^ 16) (rc1 x)
        ∙ sum_fits (x == root) (s.at x).rc (extra x last es) (bounded x) in
    let at_root : (s2.at root).rc ≡ (s.at root).rc + extra root last es + 1 =
      rc2 root
      ∙ ap (λ b. (s.at root).rc + extra root last es + (if b then 1 else 0)) (==_refl root) in
    let (s3, gone, final) =
      dentry_release-counted rounds root s2 ne (omega (arith, at_root, held))
        (omega (arith, at_root, bounded root)) in
    let fits : ltb (strlen (47 ∷ p)) 255 ≡ true = ground arith in
    let walked : dentry_lookup lookup (suc rounds) root (some p) s1 ≡ some (last, s2) =
      ap (λ o. dentry_lookup lookup (suc rounds) root o s1) (sym whole) ∙ found in
    (
      s3,
      rw
          (
            vfs_lookup,
            starts_with_sep p,
            behind_sep p,
            fits,
            walked,
            and_release,
            starts_with_sep p,
            gone,
          )
          refl,
      λ x. final x ∙ one_less (x == root) (s2.at x).rc ((s.at x).rc + extra x last es) (rc2 x),
    )
