-- ===== src/Cni/Filesystem/Deletion.antt =====
-- `DeleteNetEndpoint` of cni/store/filesystem.
use mathlib.Core.Path.{subst, subst₂}
use barrel.Prelude.{
  String, true, false, none, [], ◌∷◌, ◌≡◌, refl, sym, ap, ◌∙◌, string_eq, ◌==◌, beq_iff, Bool-cases,
  inl, inr,
}
use barrel.Method.{Ends, Ends-mono}
use barrel.Cni.Endpoint.{
  FilePath, path_eq, NetEndpoint, netns_path, owner_path, tenant_path, flock_path,
}
use barrel.Cni.Files.{Disk, find, remove, unmount}
use barrel.Cni.Store.{Book, update, Meets, refines, Contract, Deletes, erased, Answers, Fails}
use barrel.Cni.Filesystem.{delete_net_endpoint, assert_file_not_exists}
use barrel.Cni.Filesystem.View.{Stands, Book_path, text_of, is_endpoint, update_same}
use barrel.Cni.Filesystem.Calls.{remove-Ends, unmount-Ends}
use barrel.Cni.Filesystem.Moves.{
  tidy_direct, unmoved, moved_netns, moved_flock, moved_owner, moved_tenant, bound_netns,
}
use barrel.Cni.Filesystem.Lookup.{linked_of, present_of}
use barrel.Cni.Filesystem.Tenants.{logged-Ends, assert_file_not_exists-Ends}

module _ {A : Type 0} (f g : String → A) (v : A) {k : String} where
  at_or_else :
      f k ≡ v → ((j : String) → (k == j) ≡ false → f j ≡ g j) → (j : String) → f j ≡ update g k v j
  at_or_else e h j = elim (Bool-cases (k == j)) [
    | inl same ↦ rw same (subst (λ i. f i ≡ v) ((beq_iff k j).0 same) e)
    | inr other_key ↦ rw other_key (h j other_key)
  ]

module _ (root : String) (nep : NetEndpoint) (b : Book) where
  abbrev Deleting : Contract (Unit {0})
  Deleting = Deletes nep

  abbrev ip' : String
  ip' = nep.ipv4

  -- What is known of the other addresses while one is being deleted.
  record Spares (b' : Book) : Type 0 where
    links : b'.linked ≡ b.linked
    owners : (j : String) → (ip' == j) ≡ false → b'.owner j ≡ b.owner j
    tenants : (j : String) → (ip' == j) ≡ false → b'.tenant j ≡ b.tenant j
    presents : (j : String) → (ip' == j) ≡ false → b'.present j ≡ b.present j

  abbrev Partly : Disk → Type 0
  Partly d = (b' : Book) × Spares b' × Stands root b' d

  module _ (unnamed : b.linked ip' ≡ none) where
    less_tenant : (d : Disk) → Partly d → Partly (remove (tenant_path root ip') d).1
    less_tenant d (b', s, st) =
        logged-Ends Partly (remove-Ends d (tenant_path root ip'))
          (λ u d' c. (
            record b' { tenant = update b'.tenant ip' none },
            record {
              links = s.links;
              owners = s.owners;
              tenants = λ j e. rw e (s.tenants j e);
              presents = s.presents;
            },
            moved_tenant root ip' c refl st,
          ))
          (λ e d' (f, same). (b', s, unmoved root same st))

    less_owner : (d : Disk) → Partly d → Partly (remove (owner_path root ip') d).1
    less_owner d (b', s, st) =
        logged-Ends Partly (remove-Ends d (owner_path root ip'))
          (λ u d' c. (
            record b' { owner = update b'.owner ip' none },
            record {
              links = s.links;
              owners = λ j e. rw e (s.owners j e);
              tenants = s.tenants;
              presents = s.presents;
            },
            moved_owner root ip' c refl st,
          ))
          (λ e d' (f, same). (b', s, unmoved root same st))

    less_flock : (d : Disk) → Partly d → Partly (remove (flock_path root ip') d).1
    less_flock d (b', s, st) =
        logged-Ends Partly (remove-Ends d (flock_path root ip'))
          (λ u d' c. (b', s, moved_flock root ip' c refl st))
          (λ e d' (f, same). (b', s, unmoved root same st))

    abbrev n' : FilePath
    n' = netns_path root ip'

    free_link : (b' : Book) → Spares b' → b'.linked ip' ≡ none
    free_link b' s = ap (λ f. f ip') s.links ∙ unnamed

    less_mount : (d : Disk) → Partly d → Partly (unmount n' d).1
    less_mount d (b', s, st) =
        logged-Ends Partly (unmount-Ends d n' (sym (linked_of root b' d ip' st) ∙ free_link b' s))
          (λ u d' sets. (
            record b' { present = update b'.present ip' true },
            record {
              links = s.links;
              owners = s.owners;
              tenants = s.tenants;
              presents = λ j e. rw e (s.presents j e);
            },
            bound_netns root ip' sets (free_link b' s) st,
          ))
          (λ e d' (f, same). (b', s, unmoved root same st))

    less_netns : (d : Disk) → Partly d → Partly (remove n' d).1
    less_netns d (b', s, st) =
        logged-Ends Partly (remove-Ends d n')
          (λ u d' c. (
            record b' { linked = update b'.linked ip' none; present = update b'.present ip' false },
            record {
              links = update_same b'.linked ip' none (free_link b' s) ∙ s.links;
              owners = s.owners;
              tenants = s.tenants;
              presents = λ j e. rw e (s.presents j e);
            },
            moved_netns root ip' c st,
          ))
          (λ e d' (f, same). (b', s, unmoved root same st))

    all_gone :
        (d : Disk) (b' : Book)
        → Spares b'
        → Stands root b' d
        → find d.entries (tenant_path root ip') ≡ none
        → find d.entries (owner_path root ip') ≡ none
        → find d.entries n' ≡ none
        → b' ≡ erased b ip'
    all_gone d b' s st t o e =
        Book_path (λ j. ap (λ f. f j) s.links)
          (λ j.
            at_or_else b'.owner b.owner none (sym (ap (λ a. a.owner ip') st.stands) ∙ ap text_of o)
              s.owners j)
          (λ j.
            at_or_else b'.tenant b.tenant none
              (sym (ap (λ a. a.tenant ip') st.stands) ∙ ap text_of t) s.tenants j)
          (λ j.
            at_or_else b'.present b.present false (present_of root b' d ip' st ∙ ap is_endpoint e)
              s.presents j)

    cleared :
        (d : Disk)
        → Partly d
        → Ends (Answers (Stands root) Deleting b) (Fails (Stands root) Deleting b) (
            assert_file_not_exists
              (tenant_path root ip' ∷ owner_path root ip' ∷ n' ∷ flock_path root ip' ∷ [])
              d)
    cleared d (b', s, st) =
        Ends-mono
          (assert_file_not_exists-Ends _ d (
            tidy_direct _ st.tidy refl,
            (
              tidy_direct _ st.tidy refl,
              (sym (linked_of root b' d ip' st) ∙ free_link b' s, (tidy_direct _ st.tidy refl, tt)),
            ),
          ))
          (λ u d' ((t, (o, (e, _))), same).
            (erased b ip', refl, subst₂ (Stands root) (all_gone d b' s st t o e) (sym same) st))
          (λ e d' (f, left, same).
            (b', (f, (s.links, s.tenants)), subst (Stands root b') (sym same) st))

    pub delete_net_endpoint_lem : Meets (Stands root) Deleting b (delete_net_endpoint root nep)
    unfolding delete_net_endpoint
    delete_net_endpoint_lem = refines (Stands root) Deleting b (λ d st. cleared _ (
        less_netns _ (
          less_mount _ (
            less_flock _ (
              less_owner _ (
                less_tenant d (
                  b,
                  record {
                    links = refl;
                    owners = λ j e. refl;
                    tenants = λ j e. refl;
                    presents = λ j e. refl;
                  },
                  st,
                )))))))
