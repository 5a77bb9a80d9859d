-- ===== src/Cni/Filesystem/Moves.antt =====
-- How a change of one file of cni/store/filesystem shows in what the directory stands for.
use barrel.Prelude.{
  String, true, false, Option, none, some, ◌≡◌, refl, sym, ap, ◌∙◌, subst, string_eq, ◌==◌, beq_iff,
  arith,
}
use barrel.Cni.Endpoint.{FilePath, netns_path, tenant_path, owner_path, flock_path}
use barrel.Cni.Files.{Entry, file, link, bound, Table, Disk, find}
use barrel.Cni.Store.{Book, update}
use barrel.Cni.Filesystem.View.{
  view, Stands, IsTidy, Changed, Changed-IsTidy, linked-IsTidy, target_of, text_of, is_endpoint,
  view-tenant, view-owner, view-flock, view-netns, update_same,
}
use barrel.Cni.Filesystem.Calls.{Sets, endpoint_direct}

suffixed :
    {es : Table} (p : FilePath) (o : Option Entry)
    → IsTidy es
    → find es p ≡ o
    → (p.suffix == "") ≡ false
    → target_of o ≡ none
suffixed p none t e s = refl
suffixed p (some (file x)) t e s = refl
suffixed p (some (bound x ms y)) t e s = refl
suffixed p (some (link q)) t e s = ground (arith, t.plain p q e, beq_iff p.suffix "")

-- Files with a suffix are no links.
pub tidy_direct :
    {es : Table} (p : FilePath)
    → IsTidy es
    → (p.suffix == "") ≡ false
    → target_of (find es p) ≡ none
tidy_direct {es} p t s = suffixed p (find es p) t refl s

module _ (root : String) {d d' : Disk} {b : Book} where
  pub unmoved : d'.entries ≡ d.entries → Stands root b d → Stands root b d'
  unmoved same st = record {
    stands = ap (view root) same ∙ st.stands;
    tidy = subst IsTidy (sym same) st.tidy;
  }

  module _ (ip : String) {o : Option Entry} where
    pub moved_tenant :
        Changed (tenant_path root ip) o d.entries d'.entries
        → target_of o ≡ none
        → Stands root b d
        → Stands root (record b { tenant = update b.tenant ip (text_of o) }) d'
    moved_tenant c n st = record {
      stands =
          view-tenant root ip c
          ∙ ap (λ (a : Book). record a { tenant = update a.tenant ip (text_of o) }) st.stands;
      tidy = Changed-IsTidy c n st.tidy;
    }

    pub moved_owner :
        Changed (owner_path root ip) o d.entries d'.entries
        → target_of o ≡ none
        → Stands root b d
        → Stands root (record b { owner = update b.owner ip (text_of o) }) d'
    moved_owner c n st = record {
      stands =
          view-owner root ip c
          ∙ ap (λ (a : Book). record a { owner = update a.owner ip (text_of o) }) st.stands;
      tidy = Changed-IsTidy c n st.tidy;
    }

    pub moved_flock :
        Changed (flock_path root ip) o d.entries d'.entries
        → target_of o ≡ none
        → Stands root b d
        → Stands root b d'
    moved_flock c n st = record {
      stands = view-flock root ip c ∙ st.stands;
      tidy = Changed-IsTidy c n st.tidy;
    }

    pub moved_netns :
        Changed (netns_path root ip) o d.entries d'.entries
        → Stands root b d
        → Stands root
            (record b {
              linked = update b.linked ip (target_of o);
              present = update b.present ip (is_endpoint o);
            })
            d'
    moved_netns c st = record {
      stands =
          view-netns root ip c
          ∙ ap
              (λ (a : Book). record a {
                linked = update a.linked ip (target_of o);
                present = update a.present ip (is_endpoint o);
              })
              st.stands;
      tidy = linked-IsTidy c refl st.tidy;
    }

  -- The namespace of an address that names no container.
  pub bound_netns :
      (ip : String)
      → Sets (netns_path root ip) d.entries d'.entries
      → b.linked ip ≡ none
      → Stands root b d
      → Stands root (record b { present = update b.present ip true }) d'
  bound_netns ip (o, endpoint, c) free st =
      subst (λ a. Stands root a d')
        (λ i. record b {
          linked =
              (ap (update b.linked ip) (endpoint_direct o endpoint)
                  ∙ update_same b.linked ip none free)
                i;
          present = update b.present ip (endpoint i);
        })
        (moved_netns ip c st)
