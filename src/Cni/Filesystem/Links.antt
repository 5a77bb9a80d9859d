-- ===== src/Cni/Filesystem/Links.antt =====
-- `ConnectNetEndpoint`, `DisconnectNetEndpoint` and `GetFlock` of cni/store/filesystem.
use mathlib.Core.Bool.{cond}
use mathlib.Core.Path.{subst}
use barrel.Prelude.{
  String, true, false, Option, none, some, [], ◌∷◌, ◌≡◌, ◌≢◌, refl, sym, ap, ◌∙◌, inl, inr, ◌⊎◌,
  string_eq, beq_refl, Bool-cases,
}
use barrel.Types.{Error, IsForeign}
use barrel.Method.{fail, pure, Ends, returns, fails, >>-Ends, catch-Ends, Ends-mono}
use barrel.Cni.Endpoint.{FilePath, path_eq, NetEndpoint, netns_path, flock_path}
use barrel.Cni.Files.{
  Entry, Disk, file, link, bound, find, is_exist, open_excl, symlink, open_file, stat,
}
use barrel.Cni.Store.{
  Book, update, Meets, refines, Contract, Connects, Disconnects, Untouched, Answers, Fails,
}
use barrel.Cni.Filesystem.{
  connect_net_endpoint, disconnect_net_endpoint, get_flock, flock_of, assert_file_not_exists,
  remains,
}
use barrel.Cni.Filesystem.View.{Stands, Changed, target_of, is_endpoint, update_same}
use barrel.Cni.Filesystem.Calls.{symlink-Ends, open_excl-Ends, remove-Ends, open_file-Ends}
use barrel.Cni.Filesystem.Moves.{tidy_direct, unmoved, moved_netns, moved_flock}
use barrel.Cni.Filesystem.Lookup.{linked_of, present_of, search-Ends, target_is}
use barrel.Cni.Filesystem.Tenants.{logged-Ends, assert_file_not_exists-Ends}

-- An entry is a link or an endpoint.
entry_cases : (o : Option Entry) → o ≢ none → (target_of o ≢ none) ⊎ (is_endpoint o ≡ true)
entry_cases none n = absurd (n refl)
entry_cases (some (file x)) n = inr refl
entry_cases (some (link q)) n = inl (λ e. cc)
entry_cases (some (bound x ms y)) n = inr refl

module _ (root id : String) (nep : NetEndpoint) (b : Book) where
  abbrev p : FilePath
  p = netns_path root id

  abbrev Connecting : Contract (Unit {0})
  Connecting = Connects (netns_path root) id nep

  taken :
      (d : Disk) (e : Error)
      → Stands root b d
      → IsForeign e
      → (is_exist e ≡ true → find d.entries p ≢ none)
      → Ends
          (Answers (Stands root) Connecting b)
          (Fails (Stands root) Connecting b)
          (cond (is_exist e) (pure tt) (fail e) d)
  taken d e st f t = elim (Bool-cases (is_exist e)) [
    | inl there ↦
        rw there
          (returns (b, (inr (there_already (entry_cases (find d.entries p) (t there)), refl)), st))
    | inr other_cause ↦ rw other_cause (fails (b, (f, refl), st))
  ]
    where
      there_already :
          (target_of (find d.entries p) ≢ none) ⊎ (is_endpoint (find d.entries p) ≡ true)
          → (b.linked id ≢ none) ⊎ (b.present id ≡ true)
      there_already (inl n) = inl (λ e. n (sym (linked_of root b d id st) ∙ e))
      there_already (inr e) = inr (present_of root b d id st ∙ e)

  pub connect_net_endpoint_lem : Meets (Stands root) Connecting b (connect_net_endpoint root id nep)
  unfolding connect_net_endpoint
  connect_net_endpoint_lem = refines (Stands root) Connecting b (λ d st.
      catch-Ends (symlink nep.netns p) pure (λ e. cond (is_exist e) (pure tt) (fail e)) d
        (symlink-Ends d p nep.netns)
        (λ u d' (n, c). returns (
          record b { linked = update b.linked id (some nep.netns) },
          inl (linked_of root b d id st ∙ ap target_of n, refl),
          subst
              (λ f.
                Stands root (record b { linked = update b.linked id (some nep.netns); present = f })
                  d')
              (update_same b.present id false (present_of root b d id st ∙ ap is_endpoint n))
              (moved_netns root id c st),
        ))
        (λ e d' ((f, t), same).
          taken d' e (unmoved root same st) f (λ x y. t x (sym (ap (λ es. find es p) same) ∙ y))))

  abbrev Disconnecting : Contract (Unit {0})
  Disconnecting = Disconnects (netns_path root) id

  abbrev Unlinking : Disk → Type 0
  Unlinking d =
      Ends (Answers (Stands root) Disconnecting b) (Fails (Stands root) Disconnecting b)
        (assert_file_not_exists (p ∷ []) d)

  gone : (d d' : Disk) → Changed p none d.entries d'.entries → Stands root b d → Unlinking d'
  gone d d' c st =
      let free : find d'.entries p ≡ none = c.reads p ∙ rw (beq_refl p) refl in
      Ends-mono (assert_file_not_exists-Ends (p ∷ []) d' (ap target_of free, tt))
        (λ u d'' (n, same). (
          record b { linked = update b.linked id none; present = update b.present id false },
          inl refl,
          subst
              (Stands root (record b {
                linked = update b.linked id none;
                present = update b.present id false;
              }))
              (sym same) (moved_netns root id c st),
        ))
        (λ e d'' (f, left, same). absurd (left (free, tt)))

  kept : (d : Disk) → Stands root b d → Unlinking d
  unfolding assert_file_not_exists
  kept d st =
      catch-Ends (stat p) (λ _. fail remains) (λ e. assert_file_not_exists []) d (search-Ends d p)
        (λ u d' same. fails (b, (tt, refl), subst (Stands root b) (sym same) st))
        (λ e d' (f, l, same). returns (
          b,
          inr (
            λ ip k.
                present_of root b d ip st
                ∙ l.1 (netns_path root ip) (
                    target_is (find d.entries p) (netns_path root ip)
                      (sym (linked_of root b d id st) ∙ k)),
            refl,
          ),
          subst (Stands root b) (sym same) st,
        ))

  pub disconnect_net_endpoint_lem :
      Meets (Stands root) Disconnecting b (disconnect_net_endpoint root id nep)
  unfolding disconnect_net_endpoint
  disconnect_net_endpoint_lem = refines (Stands root) Disconnecting b (λ d st.
      logged-Ends Unlinking (remove-Ends d p) (λ u d' c. gone d d' c st)
        (λ e d' (f, same). kept d' (unmoved root same st)))

module _ (root ip : String) (b : Book) where
  abbrev q : FilePath
  q = flock_path root ip

  opened :
      (d : Disk) (e : Error)
      → IsForeign e
      → Stands root b d
      → Ends
          (Answers (Stands root) Untouched b)
          (Fails (Stands root) (Untouched {A = FilePath}) b)
          (flock_of q e d)
  opened d e f st = elim (Bool-cases (is_exist e)) [
    | inl there ↦ rw there (
        >>-Ends (open_file q) (pure q) d (open_file-Ends d q (tidy_direct q st.tidy refl))
          (λ d' same. returns {a = q} {w = d'} (b, refl, unmoved root same st))
          (λ e d' (g, same). (b, (g, refl), unmoved root same st)))
    | inr other_cause ↦ rw other_cause (fails (b, (f, refl), st))
  ]

  pub get_flock_lem : Meets (Stands root) Untouched b (get_flock root ip)
  unfolding get_flock
  get_flock_lem = refines (Stands root) Untouched b (λ d st.
      catch-Ends (open_excl q) (λ _. pure q) (flock_of q) d (open_excl-Ends d q)
        (λ u d' (n, c). returns {a = q} {w = d'} (b, refl, moved_flock root ip c refl st))
        (λ e d' ((f, t), same). opened d' e f (unmoved root same st)))
