-- ===== src/Proxy/Removal/Laws.antt =====
-- When removal and disconnection release what a container held.
use barrel.Prelude.{
  ℕ, String, Bool, true, false, ◌&&◌, Option, none, some, ◌≡◌, ◌⊎◌, refl, inl, inr, Bool-cases,
  nat_eq, string_eq, ◌==◌, if◌then◌else◌,
}
use barrel.Types.{ok, err, Error, container_not_exists}
use barrel.Method.{M, Ends, returns, catch-Ends, Ends-own, catch}
use barrel.Vessel.World.{Clients, ClientLaws}
use barrel.Proxy.Daemon.{Daemon, Site, Request, Response, ContainerInspect, on_daemon, inspect}
use barrel.Proxy.Daemon.Calm.{Calm, Calm-refl, Calm-trans, daemon-Calm, inspect-Calm}
use barrel.Proxy.Connect.{passed_on, forwarded}
use barrel.Proxy.Removal.{
  Task, release_resources, Reply, answered, refused, should_remove_volumes, done, is_gone,
  after_delete, not_inspected, delete_matched, handle_delete_container,
}

module _ (net : Clients) (laws : ClientLaws net) {D : Type 0} (docker : Daemon D) where
  module _ (find : String → Option (String × String)) (volumes : Bool) (req : Request)
      (w : Site net D) where
    abbrev pub sought : Option (String × String)
    sought = if req.method == "DELETE" then find req.path else none

    -- The container of the path, as the daemon describes it.
    pub record Seen (info : ContainerInspect) (u : Site net D) : Type 0 where
      pub version : String
      pub identifier : String
      pub of_path : sought ≡ some (version, identifier)
      pub of_container : inspect net docker identifier version w ≡ (ok info, u)

    -- The resources of a container are released exactly where the daemon answers that it is gone.
    pub data Deleted : Reply → Option Task → Type 0 where
      passed : sought ≡ none → Deleted (answered passed_on) none
      unseen :
          {status : ℕ}
          → (version identifier : String) (e : Error) (u : Site net D)
          → sought ≡ some (version, identifier)
          → inspect net docker identifier version w ≡ (err e, u)
          → ((e ≡ container_not_exists) × (status ≡ 404)) ⊎ (status ≡ 500)
          → Deleted (refused status) none
      unsent :
          (info : ContainerInspect) (u x : Site net D) (e : Error)
          → Seen info u
          → on_daemon (docker.request req) u ≡ (err e, x)
          → Deleted (refused 502) none
      stays :
          {resp : Response}
          → (info : ContainerInspect) (u x : Site net D) → Seen info u
          → on_daemon (docker.request req) u ≡ (ok resp, x)
          → is_gone net docker resp.status ≡ false
          → Deleted (answered (forwarded resp)) none
      gone :
          {resp : Response}
          → (info : ContainerInspect) (u x : Site net D) → Seen info u
          → on_daemon (docker.request req) u ≡ (ok resp, x)
          → is_gone net docker resp.status ≡ true
          → Deleted
              (answered (forwarded resp))
              (some (release_resources info (volumes && should_remove_volumes info.labels true)))

    abbrev pub Deletes : M (Site net D) (Reply × Option Task) → Site net D → Type 0
    Deletes m u =
        Ends {A = Reply × Option Task} (λ p x. Deleted p.0 p.1 × Calm net laws w x) (λ e x. ⊥) (m u)

    asked :
        (info : ContainerInspect) (resp : Response) (u x : Site net D)
        → Seen info u
        → on_daemon (docker.request req) u ≡ (ok resp, x)
        → Calm net laws w x
        → Deletes (after_delete net docker info volumes resp) x
    asked info resp u x h d q = elim (Bool-cases (is_gone net docker resp.status)) [
      | inl t ↦ rw t (returns (gone info u x h d t, q))
      | inr f ↦ rw f (returns (stays info u x h d f, q))
    ]

    missing :
        (version identifier : String) (e : Error) (u : Site net D)
        → sought ≡ some (version, identifier)
        → inspect net docker identifier version w ≡ (err e, u)
        → Calm net laws w u
        → Deletes (not_inspected net docker e) u
    missing v i container_not_exists u at h q =
        returns (unseen v i container_not_exists u at h (inl (refl, refl)), q)
    missing v i e u at h q = returns (unseen v i e u at h (inr refl), q)

    deleted :
        (m : Option (String × String))
        → sought ≡ m
        → Deletes (delete_matched net docker req m volumes) w
    deleted none at = returns (passed at, Calm-refl net laws w)
    deleted (some (version, identifier)) at =
        catch-Ends (inspect net docker identifier version)
          (λ info.
            catch (on_daemon (docker.request req)) (after_delete net docker info volumes)
              (λ e. done net docker (refused 502)))
          (not_inspected net docker) w
          (Ends-own (inspect-Calm net laws docker identifier version w))
          (λ info u (q, i).
            let h : Seen info u = record {
              version = version;
              identifier = identifier;
              of_path = at;
              of_container = i;
            } in
            catch-Ends (on_daemon (docker.request req)) (after_delete net docker info volumes)
              (λ e. done net docker (refused 502)) u
              (Ends-own (daemon-Calm net laws (docker.request req) u))
              (λ resp x (p, d). asked info resp u x h d (Calm-trans net laws w u x q p))
              (λ e x (p, d). returns (unsent info u x e h d, Calm-trans net laws w u x q p)))
          (λ e u (q, i). missing version identifier e u at i q)

  pub handle_delete_container-Ends :
      (find : String → Option (String × String)) (volumes : Bool) (req : Request) (w : Site net D)
      → Deletes find volumes req w (handle_delete_container net docker find volumes req) w
  unfolding handle_delete_container
  handle_delete_container-Ends find volumes req w = deleted find volumes req w _ refl
