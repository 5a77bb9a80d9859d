-- ===== src/Cni/Filesystem/Calls.antt =====
-- What the system's calls on the directory of cni/store/filesystem do.
use barrel.Prelude.{
  String, Bool, true, false, Option, none, some, subst, ◌≡◌, ◌≢◌, refl, ap, List, [], ◌∷◌, arith,
}
use barrel.Types.{Result, ok, err, Error, IsForeign, ◌>>=◌}
use barrel.Method.{Ends, returns, fails}
use barrel.Cni.Endpoint.{FilePath, path_eq, path_beq_iff}
use barrel.Cni.Files.{
  Entry, file, link, bound, Table, Disk, find, chance, answered, eio, is_exist, resolve, resolve_at,
  made, open_excl, symlink, removed, remove, link_target, readlink, content, read_file, written,
  write, truncated, create, covered, mount, uncovered, unmount, open_file, flock, status, stat,
  read_dir, listed,
}
use barrel.Cni.Filesystem.View.{Changed, put-Changed, drop_at-Changed, target_of, is_endpoint}

-- What a call on a table answers.
pub data Outcome {A : Type 0} (Q : A → Table → Type 0) (E : Error → Type 0)
    : Result (A × Table) → Type 0 where
  gives : {a : A} {es : Table} → Q a es → Outcome Q E (ok (a, es))
  refuses : {e : Error} → E e → Outcome Q E (err e)

-- A call that fails leaves the directory as it is.
abbrev pub Spoils : (Error → Type 0) → Disk → Error → Disk → Type 0
Spoils E d e d' = E e × (d'.entries ≡ d.entries)

module _ {A : Type 0} {Q : A → Table → Type 0} {E : Error → Type 0} (bad : E eio) (d : Disk) where
  call-Ends :
      (faults : List Bool) {r : Result (A × Table)}
      → Outcome Q E r
      → Ends (λ a d'. Q a d'.entries) (Spoils E d) (chance faults d (answered r d))
  call-Ends [] (gives h) = returns h
  call-Ends [] (refuses h) = fails (h, refl)
  call-Ends (false ∷ later) (gives h) = returns h
  call-Ends (false ∷ later) (refuses h) = fails (h, refl)
  call-Ends (true ∷ later) (gives h) = fails (bad, refl)
  call-Ends (true ∷ later) (refuses h) = fails (bad, refl)

-- A path that is no link is where it leads.
pub resolve-direct :
    (es : Table) (p : FilePath) (o : Option Entry)
    → find es p ≡ o
    → target_of o ≡ none
    → resolve es p ≡ ok p
unfolding resolve_at
resolve-direct es p none e n = rw e
resolve-direct es p (some (file x)) e n = rw e
resolve-direct es p (some (bound x ms y)) e n = rw e
resolve-direct es p (some (link q)) e n = cc

abbrev Taken : Table → FilePath → Error → Type 0
Taken es p e = IsForeign e × (is_exist e ≡ true → find es p ≢ none)

-- What it takes to make an entry where there is none.
abbrev Made : Table → FilePath → Entry → Unit {0} → Table → Type 0
Made es p x _ es' = (find es p ≡ none) × Changed p (some x) es es'

made-Outcome :
    (es : Table) (p : FilePath) (x : Entry) (o : Option Entry)
    → find es p ≡ o
    → Outcome (Made es p x) (Taken es p) (made es p x o)
made-Outcome es p x none e = gives (e, put-Changed es p x)
made-Outcome es p x (some y) e = refuses (tt, λ t n. cc)

module _ (d : Disk) (p : FilePath) where
  pub open_excl-Ends :
      Ends
        (λ u d'. Made d.entries p (file "") u d'.entries)
        (Spoils (Taken d.entries p) d)
        (open_excl p d)
  open_excl-Ends =
      call-Ends (tt, λ t. absurd (cc)) d d.faults
        (made-Outcome d.entries p (file "") (find d.entries p) refl)

  pub symlink-Ends :
      (target : FilePath)
      → Ends
          (λ u d'. Made d.entries p (link target) u d'.entries)
          (Spoils (Taken d.entries p) d)
          (symlink target p d)
  symlink-Ends target =
      call-Ends (tt, λ t. absurd (cc)) d d.faults
        (made-Outcome d.entries p (link target) (find d.entries p) refl)

removed-Outcome :
    (es : Table) (p : FilePath) (o : Option Entry)
    → Outcome (λ (_ : Unit {0}) es'. Changed p none es es') IsForeign (removed es p o)
removed-Outcome es p none = refuses tt
removed-Outcome es p (some (file x)) = gives (drop_at-Changed es p)
removed-Outcome es p (some (link q)) = gives (drop_at-Changed es p)
removed-Outcome es p (some (bound x ms y)) = refuses tt

pub remove-Ends :
    (d : Disk) (p : FilePath)
    → Ends (λ _ d'. Changed p none d.entries d'.entries) (Spoils IsForeign d) (remove p d)
remove-Ends d p = call-Ends tt d d.faults (removed-Outcome d.entries p (find d.entries p))

link_target-Outcome :
    (es : Table) (o : Option Entry)
    → Outcome (λ q es'. (o ≡ some (link q)) × (es' ≡ es)) IsForeign (link_target es o)
link_target-Outcome es none = refuses tt
link_target-Outcome es (some (file x)) = refuses tt
link_target-Outcome es (some (link q)) = gives (refl, refl)
link_target-Outcome es (some (bound x ms y)) = refuses tt

pub readlink-Ends :
    (d : Disk) (p : FilePath)
    → Ends
        (λ q d'. (find d.entries p ≡ some (link q)) × (d'.entries ≡ d.entries))
        (Spoils IsForeign d)
        (readlink p d)
readlink-Ends d p = call-Ends tt d d.faults (link_target-Outcome d.entries (find d.entries p))

content-Outcome :
    (es : Table) (o : Option Entry)
    → Outcome (λ x es'. (o ≡ some (file x)) × (es' ≡ es)) IsForeign (content es o)
content-Outcome es none = refuses tt
content-Outcome es (some (file x)) = gives (refl, refl)
content-Outcome es (some (link q)) = refuses tt
content-Outcome es (some (bound x ms y)) = refuses tt

written-Outcome :
    (es : Table) (p : FilePath) (x y : String) (o : Option Entry)
    → o ≡ some (file y)
    → Outcome (λ (_ : Unit {0}) es'. Changed p (some (file x)) es es') IsForeign (written es p x o)
written-Outcome es p x y none e = absurd (cc)
written-Outcome es p x y (some (file z)) e = gives (put-Changed es p (file x))
written-Outcome es p x y (some (link q)) e = absurd (cc)
written-Outcome es p x y (some (bound z ms w)) e = absurd (cc)

pub write-Ends :
    (d : Disk) (p : FilePath) (x y : String)
    → find d.entries p ≡ some (file y)
    → Ends
        (λ _ d'. Changed p (some (file x)) d.entries d'.entries)
        (Spoils IsForeign d)
        (write p x d)
write-Ends d p x y e =
    call-Ends tt d d.faults (written-Outcome d.entries p x y (find d.entries p) e)

-- A path has an entry that is no link.
abbrev pub Sets : FilePath → Table → Table → Type 0
Sets p es es' = (o : Option Entry) × (is_endpoint o ≡ true) × Changed p o es es'

pub endpoint_direct : (o : Option Entry) → is_endpoint o ≡ true → target_of o ≡ none
endpoint_direct none e = refl
endpoint_direct (some (file x)) e = refl
endpoint_direct (some (link q)) e = cc
endpoint_direct (some (bound x ms y)) e = refl

same-Changed : (es : Table) (p : FilePath) → Changed p (find es p) es es
same-Changed es p = record { reads = λ q. ground (arith, path_beq_iff p q, ap (find es)) }

truncated-Outcome :
    (es : Table) (p : FilePath) (o : Option Entry)
    → find es p ≡ o
    → Outcome (λ (_ : Unit {0}) es'. Sets p es es') IsForeign (truncated es p o)
truncated-Outcome es p none e = gives (some (file ""), refl, put-Changed es p (file ""))
truncated-Outcome es p (some (file x)) e = gives (some (file ""), refl, put-Changed es p (file ""))
truncated-Outcome es p (some (link q)) e = refuses tt
truncated-Outcome es p (some (bound x ms y)) e =
    gives (some (bound x ms y), refl, subst (λ o. Changed p o es es) e (same-Changed es p))

covered-Outcome :
    (es : Table) (source : String) (p : FilePath) (o : Option Entry)
    → Outcome (λ (_ : Unit {0}) es'. Sets p es es') IsForeign (covered es source p o)
covered-Outcome es source p none = refuses tt
covered-Outcome es source p (some (file x)) =
    gives (some (bound source [] x), refl, put-Changed es p (bound source [] x))
covered-Outcome es source p (some (link q)) = refuses tt
covered-Outcome es source p (some (bound m ms x)) =
    gives (some (bound source (m ∷ ms) x), refl, put-Changed es p (bound source (m ∷ ms) x))

uncovered-Outcome :
    (es : Table) (p : FilePath) (o : Option Entry)
    → Outcome (λ (_ : Unit {0}) es'. Sets p es es') IsForeign (uncovered es p o)
uncovered-Outcome es p none = refuses tt
uncovered-Outcome es p (some (file x)) = refuses tt
uncovered-Outcome es p (some (link q)) = refuses tt
uncovered-Outcome es p (some (bound m [] x)) =
    gives (some (file x), refl, put-Changed es p (file x))
uncovered-Outcome es p (some (bound m (n ∷ ms) x)) =
    gives (some (bound n ms x), refl, put-Changed es p (bound n ms x))

status-Ends :
    (d : Disk) {o : Option Entry} (r : Option Entry)
    → o ≡ r
    → Ends
        (λ _ d'. (o ≢ none) × (d' ≡ d))
        (λ e d'. IsForeign e × (o ≡ none) × (d' ≡ d))
        (status r, d)
status-Ends d none e = fails (tt, e, refl)
status-Ends d (some x) e = returns ((λ n. cc), refl)

module _ (d : Disk) (p : FilePath) (direct : target_of (find d.entries p) ≡ none) where
  here : resolve d.entries p ≡ ok p
  here = resolve-direct d.entries p (find d.entries p) refl direct

  pub read_file-Ends :
      Ends
        (λ x d'. (find d.entries p ≡ some (file x)) × (d'.entries ≡ d.entries))
        (Spoils IsForeign d)
        (read_file p d)
  read_file-Ends = call-Ends tt d d.faults (rw here (content-Outcome d.entries (find d.entries p)))

  pub create-Ends : Ends (λ _ d'. Sets p d.entries d'.entries) (Spoils IsForeign d) (create p d)
  create-Ends =
      call-Ends tt d d.faults (rw here (truncated-Outcome d.entries p (find d.entries p) refl))

  pub mount-Ends :
      (source : String)
      → Ends (λ _ d'. Sets p d.entries d'.entries) (Spoils IsForeign d) (mount source p d)
  mount-Ends source =
      call-Ends tt d d.faults (rw here (covered-Outcome d.entries source p (find d.entries p)))

  pub unmount-Ends : Ends (λ _ d'. Sets p d.entries d'.entries) (Spoils IsForeign d) (unmount p d)
  unmount-Ends =
      call-Ends tt d d.faults (rw here (uncovered-Outcome d.entries p (find d.entries p)))

  -- `Stat` tells whether there is an entry.
  pub stat-Ends :
      Ends
        (λ _ d'. (find d.entries p ≢ none) × (d' ≡ d))
        (λ e d'. IsForeign e × (find d.entries p ≡ none) × (d' ≡ d))
        (stat p d)
  stat-Ends = rw here (status-Ends d (find d.entries p) refl)

pub read_dir-Ends :
    (dir : String) (d : Disk)
    → Ends
        (λ l d'. (l ≡ listed dir d.entries) × (d'.entries ≡ d.entries))
        (Spoils IsForeign d)
        (read_dir dir d)
read_dir-Ends dir d = call-Ends tt d d.faults (gives (refl, refl))

pub flock-Ends : (d : Disk) → Ends (λ _ d'. d'.entries ≡ d.entries) (Spoils IsForeign d) (flock d)
flock-Ends d = call-Ends tt d d.faults (gives refl)

status-Outcome :
    (es : Table) (o : Option Entry)
    → Outcome (λ (_ : Unit {0}) es'. es' ≡ es) IsForeign (status o >>= λ _. ok (tt, es))
status-Outcome es none = refuses tt
status-Outcome es (some e) = gives refl

pub open_file-Ends :
    (d : Disk) (p : FilePath)
    → target_of (find d.entries p) ≡ none
    → Ends (λ _ d'. d'.entries ≡ d.entries) (Spoils IsForeign d) (open_file p d)
open_file-Ends d p direct = call-Ends tt d d.faults (
    rw (resolve-direct d.entries p (find d.entries p) refl direct)
      (status-Outcome d.entries (find d.entries p)))
