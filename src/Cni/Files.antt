-- ===== src/Cni/Files.antt =====
-- What cni/store/filesystem uses of the operating system: a table of files, symbolic links and
-- mounts. A call may fail for a reason of the system's own, but `os.Stat` and `os.Lstat` are supposed to
-- fail only where a path leads nowhere: the code takes any error of theirs for absence.
use barrel.Prelude.{
  ℕ, zero, suc, String, Bool, true, false, Option, none, some, List, [], ◌∷◌, ◌≡◌, ◌==◌, string_eq,
  if◌then◌else◌, beq_iff, arith,
}
use barrel.Types.{Result, ok, err, Error, other, ◌>>=◌}
use barrel.Method.{M}
use barrel.Cni.Endpoint.{FilePath, path_eq}

-- A file with its content, a link with its target, or a file that a namespace is mounted on, the
-- ones that were mounted before it, and the content beneath.
pub data Entry : Type 0 where
  file : String → Entry
  link : FilePath → Entry
  bound : String → List String → String → Entry

-- The entries by path, and which of the next calls fail for a reason of the system's own.
pub record Disk : Type 0 where
  pub entries : List (FilePath × Entry)
  pub faults : List Bool

abbrev pub find : List (FilePath × Entry) → FilePath → Option Entry
find [] p = none
find ((q, e) ∷ es) p = if q == p then some e else find es p

abbrev pub drop_at : List (FilePath × Entry) → FilePath → List (FilePath × Entry)
drop_at [] p = []
drop_at ((q, e) ∷ es) p = let rest = drop_at es p in if q == p then rest else (q, e) ∷ rest

abbrev pub put : List (FilePath × Entry) → FilePath → Entry → List (FilePath × Entry)
put es p e = (p, e) ∷ drop_at es p

pub find-drop_at :
    (es : List (FilePath × Entry)) (p q : FilePath)
    → find (drop_at es p) q ≡ (if p == q then none else find es q)
find-drop_at [] p q = ground arith
find-drop_at ((r, e) ∷ es) p q =
    ground (arith, find-drop_at es p q, beq_iff r p, beq_iff r q, beq_iff p q)

pub find-put :
    (es : List (FilePath × Entry)) (p q : FilePath) (e : Entry)
    → find (put es p e) q ≡ (if p == q then some e else find es q)
find-put es p q e = ground (arith, find-drop_at es p q)

abbrev pub eexist : Error
eexist = other "file exists"

abbrev pub enoent : Error
enoent = other "no such file or directory"

abbrev pub einval : Error
einval = other "invalid argument"

abbrev pub ebusy : Error
ebusy = other "device or resource busy"

abbrev pub eloop : Error
eloop = other "too many levels of symbolic links"

abbrev pub eio : Error
eio = other "input/output error"

-- `os.IsExist` and `os.IsNotExist`
abbrev pub is_exist : Error → Bool
is_exist (other t) = t == "file exists"
is_exist _ = false

abbrev pub is_not_exist : Error → Bool
is_not_exist (other t) = t == "no such file or directory"
is_not_exist _ = false

-- A call on the table, after the system has had its chance to fail.
abbrev pub answered : {A : Type 0} → Result (A × List (FilePath × Entry)) → Disk → Result A × Disk
answered (ok (a, es)) d = (ok a, record d { entries = es })
answered (err e) d = (err e, d)

abbrev pub chance : {A : Type 0} → List Bool → Disk → Result A × Disk → Result A × Disk
chance [] d r = r
chance (false ∷ later) d (r, d') = (r, record d' { faults = later })
chance (true ∷ later) d r = (err eio, record d { faults = later })

abbrev pub Table : Type 0
Table = List (FilePath × Entry)

abbrev pub call : {A : Type 0} → (Table → Result (A × Table)) → M Disk A
call f d = chance d.faults d (answered (f d.entries) d)

-- The path that a path leads to through links, of which the system follows forty.
unfoldable pub resolve_at : ℕ → Table → FilePath → Option Entry → Result FilePath
resolve_at n es p none = ok p
resolve_at n es p (some (file x)) = ok p
resolve_at n es p (some (bound x ms e)) = ok p
resolve_at zero es p (some (link q)) = err eloop
resolve_at (suc n) es p (some (link q)) = resolve_at n es q (find es q)

abbrev pub resolve : Table → FilePath → Result FilePath
resolve es p = resolve_at 40 es p (find es p)

abbrev pub made : Table → FilePath → Entry → Option Entry → Result (Unit {0} × Table)
made es p e none = ok (tt, put es p e)
made es p e (some _) = err eexist

-- `os.OpenFile` with `O_CREATE|O_EXCL`
abbrev pub open_excl : FilePath → M Disk (Unit {0})
open_excl p = call (λ es. made es p (file "") (find es p))

-- `os.Symlink`
abbrev pub symlink : FilePath → FilePath → M Disk (Unit {0})
symlink target p = call (λ es. made es p (link target) (find es p))

abbrev pub removed : Table → FilePath → Option Entry → Result (Unit {0} × Table)
removed es p none = err enoent
removed es p (some (bound x ms e)) = err ebusy
removed es p (some (file x)) = ok (tt, drop_at es p)
removed es p (some (link q)) = ok (tt, drop_at es p)

-- `os.Remove`
abbrev pub remove : FilePath → M Disk (Unit {0})
remove p = call (λ es. removed es p (find es p))

abbrev pub link_target : Table → Option Entry → Result (FilePath × Table)
link_target es none = err enoent
link_target es (some (link q)) = ok (q, es)
link_target es (some (file x)) = err einval
link_target es (some (bound x ms e)) = err einval

-- `os.Readlink`
abbrev pub readlink : FilePath → M Disk FilePath
readlink p = call (λ es. link_target es (find es p))

abbrev pub content : Table → Option Entry → Result (String × Table)
content es none = err enoent
content es (some (file x)) = ok (x, es)
content es (some (link q)) = err eloop
content es (some (bound x ms e)) = err einval

-- `ioutil.ReadFile`
abbrev pub read_file : FilePath → M Disk String
read_file p = call (λ es. resolve es p >>= λ q. content es (find es q))

-- `Write` on a file that was just opened: what it holds, if it is still there.
abbrev pub written : Table → FilePath → String → Option Entry → Result (Unit {0} × Table)
written es p x none = ok (tt, es)
written es p x (some (file y)) = ok (tt, put es p (file x))
written es p x (some (link q)) = ok (tt, es)
written es p x (some (bound y ms e)) = ok (tt, es)

abbrev pub write : FilePath → String → M Disk (Unit {0})
write p x = call (λ es. written es p x (find es p))

abbrev pub truncated : Table → FilePath → Option Entry → Result (Unit {0} × Table)
truncated es p none = ok (tt, put es p (file ""))
truncated es p (some (file y)) = ok (tt, put es p (file ""))
truncated es p (some (link q)) = err eloop
truncated es p (some (bound y ms e)) = ok (tt, es)

-- `os.Create`
abbrev pub create : FilePath → M Disk (Unit {0})
create p = call (λ es. resolve es p >>= λ q. truncated es q (find es q))

abbrev pub covered : Table → String → FilePath → Option Entry → Result (Unit {0} × Table)
covered es source p none = err enoent
covered es source p (some (file x)) = ok (tt, put es p (bound source [] x))
covered es source p (some (link q)) = err eloop
covered es source p (some (bound m ms x)) = ok (tt, put es p (bound source (m ∷ ms) x))

-- `syscall.Mount` with `MS_BIND`
abbrev pub mount : String → FilePath → M Disk (Unit {0})
mount source p = call (λ es. resolve es p >>= λ q. covered es source q (find es q))

abbrev pub uncovered : Table → FilePath → Option Entry → Result (Unit {0} × Table)
uncovered es p none = err enoent
uncovered es p (some (bound m [] x)) = ok (tt, put es p (file x))
uncovered es p (some (bound m (n ∷ ms) x)) = ok (tt, put es p (bound n ms x))
uncovered es p (some (file x)) = err einval
uncovered es p (some (link q)) = err einval

-- `syscall.Unmount`
abbrev pub unmount : FilePath → M Disk (Unit {0})
unmount p = call (λ es. resolve es p >>= λ q. uncovered es q (find es q))

-- `os.Stat` and `os.Lstat`, which fail here for no other reason than the path. The second says
-- whether there is a link.
abbrev pub status : Option Entry → Result (Unit {0})
status none = err enoent
status (some e) = ok tt

abbrev pub stat : FilePath → M Disk (Unit {0})
stat p d = (resolve d.entries p >>= λ q. status (find d.entries q), d)

abbrev pub is_link : Option Entry → Bool
is_link (some (link q)) = true
is_link _ = false

abbrev pub lstat : FilePath → M Disk Bool
lstat p d = (status (find d.entries p) >>= λ _. ok (is_link (find d.entries p)), d)

-- The paths in a directory, each with whether it is a link.
abbrev pub listed : String → Table → List (FilePath × Bool)
listed dir [] = []
listed dir ((p, e) ∷ es) =
    let rest = listed dir es in if p.dir == dir then (p, is_link (some e)) ∷ rest else rest

-- `ioutil.ReadDir`, in the order of the table.
abbrev pub read_dir : String → M Disk (List (FilePath × Bool))
read_dir dir = call (λ es. ok (listed dir es, es))

-- `os.Open`
abbrev pub open_file : FilePath → M Disk (Unit {0})
open_file p = call (λ es. resolve es p >>= λ q. status (find es q) >>= λ _. ok (tt, es))

-- `syscall.Flock` on an open file, once no other process holds the lock.
abbrev pub flock : M Disk (Unit {0})
flock = call (λ es. ok (tt, es))
