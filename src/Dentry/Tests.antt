-- ===== src/Dentry/Tests.antt =====
-- A tree of three entries: "a" in the root, and "b" in it.
use neux_os.Prelude.{ℕ, ◌+◌, ◌^◌, ◌<◌, ◌≡◌, refl, List, [], ◌∷◌, some, ◌==◌, if◌then◌else◌, arith}
use neux_os.Strings.{strcmp}
use neux_os.Dentry.{Dentry, Entries, find_name, get_entry, vfs_lookup}
use neux_os.Dentry.Cached.{IsPlain, extra}
use neux_os.Dentry.Path.{vfs_lookup-extra}

abbrev entry : (name parent sub : ℕ) → Dentry
entry name parent sub = record {
  name = name ∷ 0 ∷ [];
  rc = 2;
  inode = name;
  parent = parent;
  mnt = 4096;
  subdirs = sub ∷ [];
}

abbrev tree : Entries
tree = record {
  at = λ p.
      if p == 100 then entry 47 0 200 else if p == 200 then entry 97 100 300 else entry 98 200 400;
  supply = [];
  released = [];
  freed = [];
}

abbrev no_file : ℕ → List ℕ → ℕ
no_file dir name = 0

a-IsPlain : IsPlain (97 ∷ [])
unfolding strcmp
a-IsPlain = record {
  short = omega arith;
  outside = (refl, tt);
  some_char = refl;
  not_dot = refl;
  not_dots = refl;
}

b-IsPlain : IsPlain (98 ∷ [])
unfolding strcmp
b-IsPlain = record {
  short = omega arith;
  outside = (refl, tt);
  some_char = refl;
  not_dot = refl;
  not_dots = refl;
}

tree_bounded : (x : ℕ) → (tree.at x).rc + extra x 300 (200 ∷ 300 ∷ []) + 1 < 2 ^ 16
tree_bounded x = ground arith

-- A new entry "x" of the root has five references.
x_references :
    ((get_entry (λ dir name. 7) 100 (120 ∷ []) (record tree { supply = 500 ∷ [] })).1.at 500).rc ≡ 5
unfolding get_entry strcmp
x_references = refl

-- "/a/b"
vfs_lookup-extra_example :
    (s' : Entries) × (vfs_lookup no_file 3 100 200 (some (47 ∷ 97 ∷ 47 ∷ 98 ∷ [])) tree
      ≡ some (300, s'))
    × ((x : ℕ) → (s'.at x).rc ≡ (tree.at x).rc + extra x 300 (200 ∷ 300 ∷ []))
unfolding find_name strcmp
vfs_lookup-extra_example =
    vfs_lookup-extra no_file 3 100 200 (97 ∷ []) (97 ∷ 47 ∷ 98 ∷ []) ((98 ∷ []) ∷ [])
      (200 ∷ 300 ∷ []) tree (a-IsPlain, (b-IsPlain, tt)) refl (omega arith)
      (refl, (λ e. omega arith), (refl, (λ e. omega arith), tt)) (omega arith) (omega arith)
      (omega arith) tree_bounded
