-- ===== src/Dentry.antt =====
-- fs/dentry.c: the tree of directory entries with their reference counts.
pub mod Cached
pub mod Path
mod Tests
use neux_os.Prelude.{
  ℕ, zero, suc, ◌+◌, ◌-◌, ◌/◌, ◌%◌, ◌^◌, Bool, not, ◌||◌, List, [], ◌∷◌, ◌++◌, Option, none, some,
  ◌==◌, ltb, if◌then◌else◌,
}
use neux_os.Links.{null, update}
use neux_os.Strings.{strlen, strcmp, strsep, strncpy, startswith}

-- DNAME_MAX_LEN
abbrev pub dname_max_len : ℕ
dname_max_len = 16

-- `struct dentry`; `subdirs` are the entries on its list, and `name` the bytes of its array.
pub record Dentry : Type 0 where
  pub name : List ℕ
  pub rc : ℕ
  pub inode : ℕ
  pub parent : ℕ
  pub mnt : ℕ
  pub subdirs : List ℕ

-- The entries by address; what kmalloc will return, until it returns NULL; and the inodes that were
-- given to the operation release, and the entries that were given to kfree.
pub record Entries : Type 0 where
  pub at : ℕ → Dentry
  pub supply : List ℕ
  pub released : List ℕ
  pub freed : List ℕ

unfoldable pub dentry_obtain : ℕ → Entries → Entries
dentry_obtain dent s = record s {
  at = update s.at dent (record (s.at dent) { rc = ((s.at dent).rc + 1) % 2 ^ 16 });
}

-- The string that starts with a name: the bytes of its array, of which `left` are left, up to a NUL.
-- An array without a NUL, as strncpy leaves it for 16 characters, goes on with the bytes of the count
-- behind it; the model ends there.
abbrev pub rc_bytes : (rc : ℕ) → List ℕ
rc_bytes rc =
    if rc % 2 ^ 8 == 0
    then []
    else if rc / 2 ^ 8 % 2 ^ 8 == 0
    then rc % 2 ^ 8 ∷ []
    else rc % 2 ^ 8 ∷ rc / 2 ^ 8 % 2 ^ 8 ∷ []

abbrev pub c_name : (left : ℕ) → List ℕ → (rc : ℕ) → List ℕ
c_name zero name rc = rc_bytes rc
c_name (suc left) [] rc = []
c_name (suc left) (zero ∷ name) rc = []
c_name (suc left) (suc c ∷ name) rc = suc c ∷ c_name left name rc

-- The loop over the entries of a directory.
unfoldable pub find_name : List ℕ → List ℕ → Entries → Option ℕ
find_name [] dname s = none
find_name (sub ∷ subs) dname s =
    let rest = find_name subs dname s in
    if strcmp (c_name dname_max_len (s.at sub).name (s.at sub).rc) dname == 0
    then some sub
    else rest

-- A new entry of a directory. dentry_init gives it one reference, and LIST_ADD four, since it
-- evaluates its argument, a call of dentry_obtain, four times.
abbrev pub add_entry : (dent inode dir : ℕ) (dname : List ℕ) → Entries → Entries
add_entry dent inode dir dname s =
    let parent = s.at dir in
    let fresh : Dentry = record {
      name = strncpy dname dname_max_len;
      rc = 1 + 4;
      inode = inode;
      parent = dir;
      mnt = parent.mnt;
      subdirs = [];
    } in
    let dir_entry : Dentry = record parent {
      rc = (parent.rc + 1) % 2 ^ 16;
      subdirs = parent.subdirs ++ dent ∷ [];
    } in
    record s { at = update (update s.at dent fresh) dir dir_entry }

-- The entry of a name in a directory, or NULL. `lookup` is the operation of the file system: the inode
-- of a name in a directory, 0 if there is none.
unfoldable pub get_entry :
    (lookup : ℕ → List ℕ → ℕ) (dir : ℕ) (dname : List ℕ) → Entries → ℕ × Entries
unfolding find_name dentry_obtain
get_entry lookup dir dname s = elim (find_name (s.at dir).subdirs dname s) [
  | some sub ↦ (sub, dentry_obtain sub s)
  | none ↦ elim s.supply [
    | [] ↦ (null, s)
    | dent ∷ supply ↦
        let inode =
          lookup (s.at dir).inode (c_name dname_max_len (strncpy dname dname_max_len) 1) in
        let s : Entries = record s { supply = supply } in
        if inode == 0
        then (null, record s { freed = s.freed ++ dent ∷ [] })
        else (dent, add_entry dent inode dir dname s)
  ]
]

-- A round of dentry_lookup: it is over, or goes on from a directory.
pub data Next : Type 0 where
  stop : ℕ → Entries → Next
  go : ℕ → Entries → Next

abbrev pub enter_entry : ℕ × Entries → Next
enter_entry (dent, s) = if dent == null then stop null s else go dent s

unfoldable pub next_entry : (lookup : ℕ → List ℕ → ℕ) (dir : ℕ) → Option (List ℕ) → Entries → Next
unfolding dentry_obtain
next_entry lookup dir none s = stop dir (dentry_obtain dir s)
next_entry lookup dir (some d) s =
    let parent = (s.at dir).parent in
    if strlen d == 0 || strcmp d (46 ∷ []) == 0
    then go dir s
    else if strcmp d (46 ∷ 46 ∷ []) == 0
    then if parent == null then stop dir (dentry_obtain dir s) else go parent s
    else enter_entry (get_entry lookup dir d s)

-- The entry that the path leads to from `dir`, or NULL; `none` is a path that has not ended.
unfoldable pub dentry_lookup :
    (lookup : ℕ → List ℕ → ℕ) (rounds dir : ℕ) (token : Option (List ℕ))
    → Entries
    → Option (ℕ × Entries)
dentry_lookup lookup zero dir token s = none
dentry_lookup lookup (suc rounds) dir token s =
    let (dname, rest) = strsep token (47 ∷ []) in
    elim (next_entry lookup dir dname s) [
      | stop dent s' ↦ some (dent, s')
      | go dir' s' ↦ dentry_lookup lookup rounds dir' rest s'
    ]

abbrev remove : ℕ → List ℕ → List ℕ
remove dent [] = []
remove dent (sub ∷ subs) = if sub == dent then subs else sub ∷ remove dent subs

-- A path to the root that has not ended is `none`.
unfoldable pub dentry_release : (rounds dent : ℕ) → Entries → Option Entries
dentry_release zero dent s = none
dentry_release (suc rounds) dent s =
    let entry = s.at dent in
    let rc = (entry.rc + (2 ^ 16 - 1)) % 2 ^ 16 in
    let counted : Entries = record s { at = update s.at dent (record entry { rc = rc }) } in
    let parent = s.at entry.parent in
    let gone : Entries = record counted { released = s.released ++ entry.inode ∷ [] } in
    let unlinked : Entries = record gone {
      at =
          update gone.at entry.parent (record (gone.at entry.parent) {
            subdirs = remove dent (gone.at entry.parent).subdirs;
          });
    } in
    let above = dentry_release rounds entry.parent unlinked in
    if dent == null
    then some s
    else if not (rc == 0)
    then some counted
    else if entry.parent == null
    then some (record gone { freed = s.freed ++ dent ∷ [] })
    else elim above [
      | none ↦ none
      | some s ↦ some (record s {
        at = update s.at dent (record (s.at dent) { parent = null });
        freed = s.freed ++ dent ∷ [];
      })
    ]

-- The end of vfs_lookup, which releases where it began.
unfoldable pub and_release : (rounds from : ℕ) → Option (ℕ × Entries) → Option (ℕ × Entries)
and_release rounds from none = none
and_release rounds from (some (dent, s)) = elim (dentry_release rounds from s) [
  | none ↦ none
  | some s' ↦ some (dent, s')
]

-- MAX_PATH_LEN
abbrev pub max_path_len : ℕ
max_path_len = 255

-- vfs_lookup of fs/fs.c: from `root` or the working directory `cwd`; `path` is a string or NULL.
unfoldable pub vfs_lookup :
    (lookup : ℕ → List ℕ → ℕ) (rounds root cwd : ℕ) (path : Option (List ℕ))
    → Entries
    → Option (ℕ × Entries)
vfs_lookup lookup rounds root cwd none s = some (null, s)
vfs_lookup lookup rounds root cwd (some path) s =
    let absolute = startswith path (47 ∷ []) in
    let from = if absolute then root else cwd in
    let token = if absolute then (strsep (some path) (47 ∷ [])).1 else some path in
    if not (ltb (strlen path) max_path_len)
    then some (null, s)
    else and_release rounds from (dentry_lookup lookup rounds from token (dentry_obtain from s))
