-- ===== src/Cni/Filesystem/Count.antt =====
-- `GetNetEndpointRefcount` of cni/store/filesystem.
use mathlib.Core.Path.{subst}
use barrel.Prelude.{
  ℕ, zero, suc, ◌<◌, String, Bool, true, false, Option, none, some, List, [], ◌∷◌, ◌≡◌, ◌≢◌, refl,
  sym, ap, ◌∙◌, ◌⊎◌, inl, inr, string_eq, ◌==◌, beq_iff, Bool-cases, if◌then◌else◌, arith,
}
use barrel.Types.{ok, Error, IsForeign}
use barrel.Method.{M, pure, catch, Ends, returns, >>=-Ends, catch-Ends, Ends-mono, ◌>>=◌}
use barrel.Cni.Endpoint.{FilePath, path_eq, NetEndpoint, netns_path, tenant_path}
use barrel.Cni.Files.{
  Entry, Disk, Table, file, link, bound, find, listed, is_link, readlink, read_dir, stat,
}
use barrel.Cni.Store.{Book, Meets, refines, Counts, Answers, Fails}
use barrel.Cni.Filesystem.{count_links, get_net_endpoint_refcount}
use barrel.Cni.Filesystem.View.{Stands, target_of, text_of}
use barrel.Cni.Filesystem.Calls.{readlink-Ends, read_dir-Ends, stat-Ends}
use barrel.Cni.Filesystem.Moves.{tidy_direct, unmoved}
use barrel.Cni.Filesystem.Lookup.{linked_of, target_is}

-- The path is listed as a link.
abbrev Lists : FilePath → List (FilePath × Bool) → Type 0
Lists p [] = ⊥
Lists p ((q, l) ∷ ps) = ((q ≡ p) × (l ≡ true)) ⊎ Lists p ps

module _ (dir : String) (p q : FilePath) (l : Bool) (rest : List (FilePath × Bool)) where
  abbrev next : Bool → List (FilePath × Bool)
  next b = if b then (q, l) ∷ rest else rest

  next-dir :
      (b : Bool)
      → (q.dir == dir) ≡ b
      → (Lists p rest → p.dir ≡ dir)
      → Lists p (next b)
      → p.dir ≡ dir
  next-dir true e k (inl (same, t)) = ap (λ r. r.dir) (sym same) ∙ (beq_iff q.dir dir).0 e
  next-dir true e k (inr h) = k h
  next-dir false e k h = k h

  next-later : (b : Bool) → Lists p rest → Lists p (next b)
  next-later true h = inr h
  next-later false h = h

  next-here : (b : Bool) → b ≡ true → q ≡ p → l ≡ true → Lists p (next b)
  next-here true e s t = inl (s, t)
  next-here false e s t = absurd (cc)

Lists-dir : (dir : String) (es : Table) (p : FilePath) → Lists p (listed dir es) → p.dir ≡ dir
Lists-dir dir [] p h = absurd h
Lists-dir dir ((q, x) ∷ es) p h =
    next-dir dir p q (is_link (some x)) (listed dir es) (q.dir == dir) refl (Lists-dir dir es p) h

-- Every link that a path of the directory has is listed.
listed-Lists :
    (dir : String) (es : Table) (p q : FilePath)
    → p.dir ≡ dir
    → find es p ≡ some (link q)
    → Lists p (listed dir es)
listed-Lists dir [] p q s e = absurd (cc)
listed-Lists dir ((r, x) ∷ es) p q s e = elim (Bool-cases (r == p)) [
  | inl same ↦
      next-here dir p r (is_link (some x)) (listed dir es) (r.dir == dir)
        ((beq_iff r.dir dir).1 (ap (λ t. t.dir) ((beq_iff r p).0 same) ∙ s)) ((beq_iff r p).0 same)
        (ap is_link (rw same at e))
  | inr other_path ↦
      next-later dir p r (is_link (some x)) (listed dir es) (r.dir == dir)
        (listed-Lists dir es p q s (rw other_path at e))
]

link_injective : {p q : FilePath} → some (link p) ≡ some (link q) → p ≡ q
link_injective e = cc

not_same : {b : Bool} → b ≡ false → b ≡ true → ⊥
not_same e f = cc

module _ (nep : NetEndpoint) (es : Table) where
  abbrev IsLink : FilePath → Type 0
  IsLink p = find es p ≡ some (link nep.netns)

  -- How the count came about: no path of the list links to the endpoint, or one does.
  abbrev Found : ℕ → List (FilePath × Bool) → ℕ → Type 0
  Found rc ps n =
      ((rc ≡ n) × ((p : FilePath) → Lists p ps → ¬ IsLink p))
      ⊎ ((rc < n) × ((p : FilePath) × Lists p ps × IsLink p))

  skip :
      (rc n : ℕ) (q : FilePath) (l : Bool) (ps : List (FilePath × Bool))
      → ((l ≡ true) → ¬ IsLink q)
      → Found rc ps n
      → Found rc ((q, l) ∷ ps) n
  skip rc n q l ps nolink (inl (e, none_there)) = inl (
    e,
    λ p h. elim h [
      | inl (same, t) ↦ subst (λ r. ¬ IsLink r) same (nolink t)
      | inr later ↦ none_there p later
    ],
  )
  skip rc n q l ps nolink (inr (lt, (p, h, k))) = inr (lt, (p, inr h, k))

  count :
      (rc n : ℕ) (q : FilePath) (ps : List (FilePath × Bool))
      → IsLink q
      → Found (suc rc) ps n
      → Found rc ((q, true) ∷ ps) n
  count rc n q ps k (inl (e, h)) = inr (omega arith, (q, inl (refl, refl), k))
  count rc n q ps k (inr (lt, h)) = inr (omega arith, (q, inl (refl, refl), k))

  abbrev Counted : ℕ → List (FilePath × Bool) → ℕ → Disk → Type 0
  Counted rc ps n d = Found rc ps n × (d.entries ≡ es)

  abbrev Broken : Error → Disk → Type 0
  Broken e d = IsForeign e × (d.entries ≡ es)

  target :
      (rc : ℕ) (q : FilePath) (ps : List (FilePath × Bool))
      → ((d : Disk)
          → d.entries ≡ es
          → Ends (Counted (suc rc) ps) Broken (count_links nep (suc rc) ps d))
      → ((d : Disk) → d.entries ≡ es → Ends (Counted rc ps) Broken (count_links nep rc ps d))
      → (d' : Disk) (t : FilePath) → find es q ≡ some (link t)
      → d'.entries ≡ es
      → Ends
          (Counted rc ((q, true) ∷ ps))
          Broken
          (count_links nep (if t == nep.netns then suc rc else rc) ps d')
  target rc q ps later_up later d' t e s' = elim (Bool-cases (t == nep.netns)) [
    | inl same ↦ rw same (
        Ends-mono (later_up d' s')
          (λ n d'' (f, s'').
            (count rc n q ps (e ∙ ap (λ r. some (link r)) ((beq_iff t nep.netns).0 same)) f, s''))
          (λ e d'' h. h))
    | inr other_target ↦ rw other_target (
        Ends-mono (later d' s')
          (λ n d'' (f, s''). (
            skip rc n q true ps
                (λ _ k.
                  not_same other_target ((beq_iff t nep.netns).1 (link_injective (sym e ∙ k))))
                f,
            s'',
          ))
          (λ e d'' h. h))
  ]

  count_links-Ends :
      (ps : List (FilePath × Bool)) (rc : ℕ) (d : Disk)
      → d.entries ≡ es
      → Ends (Counted rc ps) Broken (count_links nep rc ps d)
  unfolding count_links
  count_links-Ends [] rc d s = returns (inl (refl, λ p h. absurd h), s)
  count_links-Ends ((q, false) ∷ ps) rc d s =
      Ends-mono (count_links-Ends ps rc d s)
        (λ n d' (f, s'). (skip rc n q false ps (λ t. absurd (cc)) f, s')) (λ e d' h. h)
  count_links-Ends ((q, true) ∷ ps) rc d s =
      >>=-Ends (readlink q) _ d (readlink-Ends d q)
        (λ t d' (e, same).
          target rc q ps (count_links-Ends ps (suc rc)) (count_links-Ends ps rc) d' t
            (sym (ap (λ x. find x q) s) ∙ e) (same ∙ s))
        (λ e d' (f, same). (f, same ∙ s))

module _ (root : String) (nep : NetEndpoint) (b : Book) where
  abbrev Links : Table → ℕ → Type 0
  Links es n = Found nep es 0 (listed root es) n

  plain_link :
      (d : Disk) (p : FilePath)
      → Stands root b d
      → Lists p (listed root d.entries)
      → IsLink nep d.entries p
      → b.linked p.ident ≡ some nep.netns
  plain_link d p st h k =
      let at_root : p ≡ netns_path root p.ident =
        ground (arith, Lists-dir root d.entries p h, st.tidy.plain p nep.netns k) in
      linked_of root b d p.ident st ∙ ap target_of (subst (IsLink nep d.entries) at_root k)

  unlinked :
      (d : Disk)
      → Stands root b d
      → ((p : FilePath) → Lists p (listed root d.entries) → ¬ IsLink nep d.entries p)
      → (id : String) → b.linked id ≢ some nep.netns
  unlinked d st nolink id e =
      let k = target_is _ nep.netns (sym (linked_of root b d id st) ∙ e) in
      nolink (netns_path root id)
        (listed-Lists root d.entries (netns_path root id) nep.netns refl k) k

  abbrev t : FilePath
  t = tenant_path root nep.ipv4

  tenant_of : (d : Disk) → Stands root b d → b.tenant nep.ipv4 ≡ text_of (find d.entries t)
  tenant_of d st = sym (ap (λ a. a.tenant nep.ipv4) st.stands)

  no_tenant :
      (d : Disk) (n : ℕ)
      → Stands root b d
      → find d.entries t ≡ none
      → Links d.entries n
      → Counts nep b (ok n) b
  no_tenant d zero st e (inl (z, h)) = (refl, (unlinked d st h, tenant_of d st ∙ ap text_of e))
  no_tenant d zero st e (inr (lt, h)) = absurd (omega arith)
  no_tenant d (suc n) st e (inl (z, h)) = absurd (omega arith)
  no_tenant d (suc n) st e (inr (lt, (p, h, k))) = (refl, inl (p.ident, plain_link d p st h k))

  some_text : (o : Option Entry) → o ≢ none → target_of o ≡ none → text_of o ≢ none
  some_text none n e = absurd (n refl)
  some_text (some (file x)) n e = λ q. cc
  some_text (some (bound m ms x)) n e = λ q. cc
  some_text (some (link q)) n e = absurd (cc)

  counted :
      (d : Disk) (n : ℕ)
      → Stands root b d
      → Links d.entries n
      → Ends
          (Answers (Stands root) (Counts nep) b)
          (Fails (Stands root) (Counts nep) b)
          (catch (stat t) (λ _. pure (suc n)) (λ e. pure n) d)
  counted d n st h =
      catch-Ends (stat t) (λ _. pure (suc n)) (λ e. pure n) d
        (stat-Ends d t (tidy_direct t st.tidy refl))
        (λ u d' (there, same). returns {a = suc n} {w = d'} (
          b,
          (
            refl,
            inr (λ e.
                some_text (find d.entries t) there (tidy_direct t st.tidy refl)
                  (sym (tenant_of d st) ∙ e)),
          ),
          subst (Stands root b) (sym same) st,
        ))
        (λ e d' (f, missing, same).
          returns {a = n} {w = d'}
            (b, no_tenant d n st missing h, subst (Stands root b) (sym same) st))

  abbrev count_files : List (FilePath × Bool) → M Disk ℕ
  count_files files =
      count_links nep 0 files >>= λ rc. catch (stat t) (λ _. pure (suc rc)) (λ e. pure rc)

  summed :
      (d : Disk)
      → Stands root b d
      → Ends
          (Answers (Stands root) (Counts nep) b)
          (Fails (Stands root) (Counts nep) b)
          (count_files (listed root d.entries) d)
  summed d st =
      >>=-Ends (count_links nep 0 (listed root d.entries)) _ d
        (count_links-Ends nep d.entries (listed root d.entries) 0 d refl)
        (λ n d' (h, same).
          counted d' n (unmoved root same st) (subst (λ es. Links es n) (sym same) h))
        (λ e d' (f, same). (b, (f, refl), unmoved root same st))

  pub get_net_endpoint_refcount_lem :
      Meets (Stands root) (Counts nep) b (get_net_endpoint_refcount root nep)
  unfolding get_net_endpoint_refcount
  get_net_endpoint_refcount_lem = refines (Stands root) (Counts nep) b (λ d st.
      >>=-Ends (read_dir root) count_files d (read_dir-Ends root d)
        (λ l d' (e, same).
          subst
            (λ files.
              Ends (Answers (Stands root) (Counts nep) b) (Fails (Stands root) (Counts nep) b)
                (count_files files d'))
            (ap (listed root) same ∙ sym e) (summed d' (unmoved root same st)))
        (λ e d' (f, same). (b, (f, refl), unmoved root same st)))
