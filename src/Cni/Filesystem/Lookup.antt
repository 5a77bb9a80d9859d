-- ===== src/Cni/Filesystem/Lookup.antt =====
-- `GetNetEndpointByID` and `GetNetEndpointByIP` of cni/store/filesystem.
use barrel.Prelude.{
  String, Bool, true, false, not, Option, none, some, ◌≡◌, refl, sym, ap, ◌∙◌, inl, inr, zero, suc,
  ℕ, subst, string_eq, Bool-cases,
}
use barrel.Types.{Result, ok, err, Error, IsForeign, other, ◌>>=◌ as result_bind}
use barrel.Method.{
  M, pure, Ends, returns, fails, >>=-Ends, catch-Ends, Ends-mono, fail_if, ◌>>◌, ◌>>=◌,
}
use barrel.Cni.Endpoint.{FilePath, path_eq, NetEndpoint, netns_path, owner_path, base}
use barrel.Cni.Files.{
  Entry, Disk, Table, file, link, bound, find, resolve_at, resolve, status, stat, lstat, is_link,
  readlink, read_file, is_not_exist,
}
use barrel.Cni.Store.{Book, Meets, refines, Contract, GetsById, GetsByIp, Answers, Fails}
use barrel.Cni.Filesystem.{
  none_if_missing, linked_endpoint, endpoint_at, own_endpoint, get_net_endpoint_by_id,
  get_net_endpoint_by_ip,
}
use barrel.Cni.Filesystem.View.{Stands, target_of, text_of, is_endpoint}
use barrel.Cni.Filesystem.Calls.{read_file-Ends, readlink-Ends, resolve-direct, endpoint_direct}
use barrel.Cni.Filesystem.Moves.{tidy_direct, unmoved}

abbrev ErrsForeign : {A : Type 0} → Result A → Type 0
ErrsForeign (ok a) = Unit {0}
ErrsForeign (err e) = IsForeign e

resolve_at-ErrsForeign :
    (n : ℕ) (es : Table) (p : FilePath) (o : Option Entry) → ErrsForeign (resolve_at n es p o)
unfolding resolve_at
resolve_at-ErrsForeign n es p none = tt
resolve_at-ErrsForeign n es p (some (file x)) = tt
resolve_at-ErrsForeign n es p (some (bound x ms y)) = tt
resolve_at-ErrsForeign zero es p (some (link q)) = tt
resolve_at-ErrsForeign (suc n) es p (some (link q)) = resolve_at-ErrsForeign n es q (find es q)

status-ErrsForeign : (o : Option Entry) → ErrsForeign (status o)
status-ErrsForeign none = tt
status-ErrsForeign (some e) = tt

bind-ErrsForeign :
    (r : Result FilePath) (es : Table)
    → ErrsForeign r
    → ErrsForeign (result_bind r (λ q. status (find es q)))
bind-ErrsForeign (ok q) es h = status-ErrsForeign (find es q)
bind-ErrsForeign (err e) es h = h

abbrev sought : Table → FilePath → Result (Unit {0})
sought es p = result_bind (resolve es p) (λ q. status (find es q))

endpoint_found : (o : Option Entry) → is_endpoint o ≡ true → status o ≡ ok tt
endpoint_found none e = absurd (cc)
endpoint_found (some x) e = refl

sought-endpoint : (es : Table) (p : FilePath) → is_endpoint (find es p) ≡ true → sought es p ≡ ok tt
sought-endpoint es p e =
    rw (resolve-direct es p (find es p) refl (endpoint_direct (find es p) e))
      (endpoint_found (find es p) e)

followed :
    (es : Table) (q : FilePath) (o : Option Entry)
    → is_endpoint o ≡ true
    → resolve_at 39 es q o ≡ ok q
unfolding resolve_at
followed es q none e = refl
followed es q (some (file x)) e = refl
followed es q (some (bound x ms y)) e = refl
followed es q (some (link r)) e = absurd (cc)

one_link :
    (es : Table) (p q : FilePath)
    → find es p ≡ some (link q)
    → resolve es p ≡ resolve_at 39 es q (find es q)
unfolding resolve_at
one_link es p q e = rw e

sought-linked :
    (es : Table) (p q : FilePath)
    → find es p ≡ some (link q)
    → is_endpoint (find es q) ≡ true
    → sought es p ≡ ok tt
sought-linked es p q l e =
    rw (one_link es p q l ∙ followed es q (find es q) e) (endpoint_found (find es q) e)

-- What is not found is no endpoint, and links to none.
abbrev Lost : Table → FilePath → Type 0
Lost es p =
    (is_endpoint (find es p) ≡ false)
    × ((q : FilePath) → find es p ≡ some (link q) → is_endpoint (find es q) ≡ false)

lost : (es : Table) (p : FilePath) (e : Error) → sought es p ≡ err e → Lost es p
lost es p e h = (
  elim (Bool-cases (is_endpoint (find es p))) [
    | inl t ↦ absurd (cc (sought-endpoint es p t))
    | inr f ↦ f
  ],
  λ q l. elim (Bool-cases (is_endpoint (find es q))) [
    | inl t ↦ absurd (cc (sought-linked es p q l t))
    | inr f ↦ f
  ],
)

searched :
    (d : Disk) (p : FilePath) (r : Result (Unit {0}))
    → ErrsForeign r
    → sought d.entries p ≡ r
    → Ends (λ _ d'. d' ≡ d) (λ e d'. IsForeign e × Lost d.entries p × (d' ≡ d)) (r, d)
searched d p (ok u) f h = returns refl
searched d p (err e) f h = fails (f, lost d.entries p e h, refl)

pub search-Ends :
    (d : Disk) (p : FilePath)
    → Ends (λ _ d'. d' ≡ d) (λ e d'. IsForeign e × Lost d.entries p × (d' ≡ d)) (stat p d)
search-Ends d p =
    searched d p (sought d.entries p)
      (bind-ErrsForeign (resolve d.entries p) d.entries
        (resolve_at-ErrsForeign 40 d.entries p (find d.entries p)))
      refl

missing-Ends :
    (d : Disk) (e : Error)
    → IsForeign e
    → Ends (λ a d'. (a ≡ none) × (d' ≡ d)) (λ e d'. IsForeign e × (d' ≡ d)) (none_if_missing e d)
missing-Ends d e f = elim (Bool-cases (is_not_exist e)) [
  | inl m ↦ rw m (returns (refl, refl))
  | inr m ↦ rw m (fails (f, refl))
]

pub target_is : (o : Option Entry) (q : FilePath) → target_of o ≡ some q → o ≡ some (link q)
target_is none q e = absurd (cc)
target_is (some (file x)) q e = absurd (cc)
target_is (some (bound x ms y)) q e = absurd (cc)
target_is (some (link r)) q e = cc

lstat_of :
    (d : Disk) (o : Option Entry)
    → Ends
        (λ l d'. d' ≡ d)
        (λ e d'. IsForeign e × (d' ≡ d))
        (result_bind (status o) (λ _. ok (is_link o)), d)
lstat_of d none = fails (tt, refl)
lstat_of d (some e) = returns refl

module _ (root : String) (b : Book) where
  owner_of :
      (d : Disk) (ip x : String)
      → Stands root b d
      → find d.entries (owner_path root ip) ≡ some (file x)
      → b.owner ip ≡ some x
  owner_of d ip x st e = sym (ap (λ a. a.owner ip) st.stands) ∙ ap text_of e

  pub linked_of :
      (d : Disk) (id : String)
      → Stands root b d
      → b.linked id ≡ target_of (find d.entries (netns_path root id))
  linked_of d id st = sym (ap (λ a. a.linked id) st.stands)

  pub present_of :
      (d : Disk) (ip : String)
      → Stands root b d
      → b.present ip ≡ is_endpoint (find d.entries (netns_path root ip))
  present_of d ip st = sym (ap (λ a. a.present ip) st.stands)

  module _ (ip : String) where
    abbrev ByIp : Contract (Option NetEndpoint)
    ByIp = GetsByIp (netns_path root) ip

    owned :
        (d : Disk)
        → Stands root b d
        → Ends
            (Answers (Stands root) ByIp b)
            (Fails (Stands root) ByIp b)
            ((read_file (owner_path root ip) >>= λ text. pure (some (own_endpoint root ip text))) d)
    owned d st =
        >>=-Ends (read_file (owner_path root ip)) _ d
          (read_file-Ends d (owner_path root ip) (tidy_direct _ st.tidy refl))
          (λ x d' (e, same).
            returns {a = some (own_endpoint root ip x)} {w = d'}
              (b, (refl, refl, refl, owner_of d ip x st e), unmoved root same st))
          (λ e d' (f, same). (b, (f, refl), unmoved root same st))

    pub get_net_endpoint_by_ip_lem : Meets (Stands root) ByIp b (get_net_endpoint_by_ip root ip)
    unfolding get_net_endpoint_by_ip
    get_net_endpoint_by_ip_lem = refines (Stands root) ByIp b (λ d st.
        catch-Ends (stat (netns_path root ip))
          (λ _. read_file (owner_path root ip) >>= λ text. pure (some (own_endpoint root ip text)))
          none_if_missing d (search-Ends d (netns_path root ip))
          (λ u d' same. owned d' (subst (Stands root b) (sym same) st))
          (λ e d' (f, l, same).
            Ends-mono (missing-Ends d' e f)
              (λ a d'' (n, s). (
                b,
                subst (λ o. ByIp b (ok o) b) (sym n) (refl, present_of d ip st ∙ l.0),
                subst (Stands root b) (sym (s ∙ same)) st,
              ))
              (λ e d'' (g, s). (b, (g, refl), subst (Stands root b) (sym (s ∙ same)) st))))

  module _ (id : String) where
    abbrev ById : Contract (Option NetEndpoint)
    ById = GetsById (netns_path root) id

    abbrev Looks : Disk → M Disk (Option NetEndpoint) → Type 0
    Looks d m = Ends (Answers (Stands root) ById b) (Fails (Stands root) ById b) (m d)

    abbrev read_owner : FilePath → M Disk (Option NetEndpoint)
    read_owner q = read_file (owner_path root (base q)) >>= λ text. pure (some (endpoint_at q text))

    with_owner :
        (d : Disk) (q : FilePath) → b.linked id ≡ some q → Stands root b d → Looks d (read_owner q)
    with_owner d q l st =
        >>=-Ends (read_file (owner_path root (base q))) _ d
          (read_file-Ends d (owner_path root (base q)) (tidy_direct _ st.tidy refl))
          (λ x d' (e, same).
            returns {a = some (endpoint_at q x)} {w = d'}
              (b, (refl, l, refl, owner_of d (base q) x st e), unmoved root same st))
          (λ e d' (f, same). (b, (f, refl), unmoved root same st))

    read_link :
        (d : Disk) → Stands root b d → Looks d (readlink (netns_path root id) >>= read_owner)
    read_link d st =
        >>=-Ends (readlink (netns_path root id)) read_owner d (readlink-Ends d (netns_path root id))
          (λ q d' (e, same).
            with_owner d' q (linked_of d id st ∙ ap target_of e) (unmoved root same st))
          (λ e d' (f, same). (b, (f, refl), unmoved root same st))

    checked :
        (d : Disk) (l : Bool)
        → Stands root b d
        → Looks d (
            fail_if (not l) (other "invalid data, should've been a symlink")
            >> (readlink (netns_path root id) >>= read_owner))
    checked d true st = read_link d st
    checked d false st = fails (b, (tt, refl), st)

    linked_endpoint-Looks : (d : Disk) → Stands root b d → Looks d (linked_endpoint root id)
    unfolding linked_endpoint
    linked_endpoint-Looks d st =
        >>=-Ends (lstat (netns_path root id)) _ d (lstat_of d (find d.entries (netns_path root id)))
          (λ l d' same. checked d' l (subst (Stands root b) (sym same) st))
          (λ e d' (f, same). (b, (f, refl), subst (Stands root b) (sym same) st))

    pub get_net_endpoint_by_id_lem : Meets (Stands root) ById b (get_net_endpoint_by_id root id)
    unfolding get_net_endpoint_by_id
    get_net_endpoint_by_id_lem = refines (Stands root) ById b (λ d st.
        catch-Ends (stat (netns_path root id)) (λ _. linked_endpoint root id) none_if_missing d
          (search-Ends d (netns_path root id))
          (λ u d' same. linked_endpoint-Looks d' (subst (Stands root b) (sym same) st))
          (λ e d' (f, l, same).
            Ends-mono (missing-Ends d' e f)
              (λ a d'' (n, s). (
                b,
                subst (λ o. ById b (ok o) b) (sym n)
                    (
                      refl,
                      λ ip k.
                          present_of d ip st
                          ∙ l.1 (netns_path root ip) (target_is _ _ (sym (linked_of d id st) ∙ k)),
                    ),
                subst (Stands root b) (sym (s ∙ same)) st,
              ))
              (λ e d'' (g, s). (b, (g, refl), subst (Stands root b) (sym (s ∙ same)) st))))
