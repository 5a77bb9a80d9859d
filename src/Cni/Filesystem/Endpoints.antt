-- ===== src/Cni/Filesystem/Endpoints.antt =====
-- `CreateNetEndpoint` of cni/store/filesystem.
use mathlib.Core.Path.{subst}
use barrel.Prelude.{String, true, none, some, ◌≡◌, refl, sym, ap, ◌∙◌, string_eq, beq_refl}
use barrel.Types.{ok, err, Error, IsForeign}
use barrel.Method.{
  on_error, fail, pure, Ends, returns, fails, >>-Ends, catch-Ends, Ends-mono, log_error, ◌>>◌,
}
use barrel.Cni.Endpoint.{FilePath, path_eq, NetEndpoint, netns_path, owner_path}
use barrel.Cni.Files.{Disk, file, find, open_excl, write, create, mount, remove}
use barrel.Cni.Store.{Book, update, Meets, refines, Contract, Creates, created, Answers, Fails}
use barrel.Cni.Filesystem.{
  create_net_endpoint, fill_endpoint, mount_endpoint, own_endpoint, nil_dereference,
}
use barrel.Cni.Filesystem.View.{Stands, target_of, text_of, update_twice}
use barrel.Cni.Filesystem.Calls.{open_excl-Ends, write-Ends, create-Ends, mount-Ends, remove-Ends}
use barrel.Cni.Filesystem.Moves.{unmoved, moved_owner, bound_netns}
use barrel.Cni.Filesystem.Lookup.{linked_of}
use barrel.Cni.Filesystem.Tenants.{logged-Ends}

module _ (root netns id ip : String) (b : Book) (unnamed : b.linked ip ≡ none) where
  abbrev o : FilePath
  o = owner_path root ip

  abbrev n : FilePath
  n = netns_path root ip

  abbrev Creating : Contract NetEndpoint
  Creating = Creates (netns_path root) id ip

  -- No link and no tenant has changed.
  abbrev Near : Disk → Type 0
  Near d = (b' : Book) × (b'.linked ≡ b.linked) × (b'.tenant ≡ b.tenant) × Stands root b' d

  abbrev Made : NetEndpoint → Disk → Type 0
  Made nep d = (nep ≡ own_endpoint root ip id) × Stands root (created b id ip) d

  abbrev Failed : Error → Disk → Type 0
  Failed e d = IsForeign e × Near d

  abbrev owned : String → Book
  owned x = record b { owner = update b.owner ip (some x) }

  direct :
      (d : Disk) (b' : Book)
      → Stands root b' d
      → b'.linked ip ≡ none
      → target_of (find d.entries n) ≡ none
  direct d b' st e = sym (linked_of root b' d ip st) ∙ e

  mounted :
      (d : Disk)
      → Stands root (created b id ip) d
      → Ends Made Failed (mount_endpoint root netns id ip d)
  mounted d st =
      catch-Ends (mount netns n) (λ _. pure (own_endpoint root ip id)) (λ e. fail nil_dereference) d
        (mount-Ends d n (direct d (created b id ip) st unnamed) netns)
        (λ u d' sets. returns (
          refl,
          subst (λ f. Stands root (record (created b id ip) { present = f }) d')
              (update_twice b.present ip true true) (bound_netns root ip sets unnamed st),
        ))
        (λ e d' (f, same). fails (tt, (created b id ip, refl, refl, unmoved root same st)))

  written :
      (d : Disk)
      → Stands root (owned "") d
      → find d.entries o ≡ some (file "")
      → Ends (λ _ d'. Stands root (owned id) d') Failed (write o id d)
  written d st e =
      Ends-mono (write-Ends d o id "" e)
        (λ u d' c.
          subst (λ f. Stands root (record b { owner = f }) d')
            (update_twice b.owner ip (some "") (some id)) (moved_owner root ip c refl st))
        (λ e d' (f, same). (f, (owned "", refl, refl, unmoved root same st)))

  filled :
      (d : Disk)
      → Stands root (owned "") d
      → find d.entries o ≡ some (file "")
      → Ends Made Failed (fill_endpoint root netns id ip d)
  filled d st e =
      >>-Ends (write o id >> create n) (mount_endpoint root netns id ip) d
        (>>-Ends {R = λ _ d'. Stands root (created b id ip) d'} {F = Failed} (write o id) (create n)
          d (written d st e)
          (λ d' st'.
            Ends-mono (create-Ends d' n (direct d' (owned id) st' unnamed))
              (λ u d'' sets. bound_netns root ip sets unnamed st')
              (λ e d'' (f, same). (f, (owned id, refl, refl, unmoved root same st'))))
          (λ e d' q. q))
        (λ d' st'. mounted d' st') (λ e d' q. q)

  -- The owner's file is removed again.
  undone :
      (d : Disk) (e : Error)
      → b.owner ip ≡ none
      → Failed e d
      → Ends
          (Answers (Stands root) Creating b)
          (Fails (Stands root) Creating b)
          (err e, (remove o d).1)
  undone d e free (f, (b', l, t, st)) =
      logged-Ends
        (λ d'. Ends (Answers (Stands root) Creating b) (Fails (Stands root) Creating b) (err e, d'))
        (remove-Ends d o)
        (λ u d' c.
          fails (
            record b' { owner = update b'.owner ip none },
            (f, l, t),
            moved_owner root ip c refl st,
          ))
        (λ x d' (g, same). fails (b', (f, l, t), unmoved root same st))

  pub create_net_endpoint_lem :
      Meets (Stands root) Creating b (create_net_endpoint root netns id ip)
  unfolding create_net_endpoint
  create_net_endpoint_lem = refines (Stands root) Creating b (λ d st.
      >>-Ends (open_excl o) (on_error (fill_endpoint root netns id ip) (remove o)) d
        (open_excl-Ends d o)
        (λ d' (free, c).
          let nobody : b.owner ip ≡ none = sym (ap (λ a. a.owner ip) st.stands) ∙ ap text_of free in
          catch-Ends (fill_endpoint root netns id ip) pure (λ e. log_error (remove o) >> fail e) d'
            (filled d' (moved_owner root ip c refl st) (c.reads o ∙ rw (beq_refl o) refl))
            (λ nep d'' (same, st'). returns {a = nep} {w = d''} (
              created b id ip,
              subst (λ x. Creating b (ok x) (created b id ip)) (sym same)
                  (refl, refl, refl, nobody, refl),
              st',
            ))
            (λ e d'' h. undone d'' e nobody h))
        (λ e d' ((f, t), same). (b, (f, refl, refl), unmoved root same st)))
