-- ===== src/Vessel/Agent/Loop/Laws.antt =====
-- What the calls of `networkAgent` keep, and how a poll may end.
use barrel.Prelude.{
  ℕ, Bool, true, false, List, [], ◌∷◌, String, nat_eq, ◌==◌, ◌≡◌, refl, inl, inr, Bool-cases,
  if◌then◌else◌, subst, sym,
}
use barrel.Prelude.Int.{pos}
use barrel.Types.{Result, ok, err, Error, ContainerInfo}
use barrel.Method.{M, Ends, returns, fails, pure, ◌>>=◌, ◌>>◌}
use barrel.Vessel.Agent.Pollers.{Pollers}
use barrel.Vessel.Agent.Pollers.Laws.{IsCounted, new_poller-IsCounted, match-IsCounted}
use barrel.Vessel.Agent.MatchEvent.{
  DockerContainer, PollResult, new_match_event, match_event, results,
}
use barrel.Vessel.Agent.Notifier.{Notifier, wait, cancel}
use barrel.Vessel.Agent.Notifier.Laws.{
  Moves, waits, cancels, IsReachable, starts, moves, sends, IsSettled, IsReachable-IsSettled,
}
use barrel.Vessel.Agent.Loop.{
  AgentConfig, Agent, new_agent, update_at, notify, notify_endpoint_created,
  notify_endpoint_removed, dispose, Peers, commit, matched, poll_listed, settle, poll,
}

module _ {O : Type 0} (peers : Peers O) where
  open peers use {pools_of, belongs}

  commit_ok : (rs : List PollResult) (o : O) → (commit peers rs o).0 ≡ ok tt
  unfolding commit
  commit_ok [] o = refl
  commit_ok (r ∷ rs) o =
      commit_ok rs
        ((if r.add then peers.update_container r.info else peers.delete_container r.info) o).1

  then_pure :
      {A : Type 0} (a : A) (r : Result (Unit {0})) (x o : O)
      → r ≡ ok tt
      → ((λ _. (r, x)) >> pure a) o ≡ (ok a, x)
  then_pure a (ok _) x o e = refl
  then_pure a (err d) x o e = absurd (cc)

  -- What a poll has asked and committed.
  pub data Asked (now : ℕ) (a : Agent) (o : O) (ps : Pollers) (o' : O) : Type 0 where
    asked :
        (containers : List DockerContainer) (infos : List ContainerInfo) (u v : O)
        → peers.container_list o ≡ (ok containers, u)
        → peers.list_containers u ≡ (ok infos, v)
        → ps ≡ (matched peers now a containers infos).0
        → o' ≡ (commit peers (results (matched peers now a containers infos).1.matched) v).1
        → Asked now a o ps o'

  pub data NotAsked (o : O) (e : Error) (o' : O) : Type 0 where
    no_daemon : peers.container_list o ≡ (err e, o') → NotAsked o e o'
    no_records :
        (containers : List DockerContainer) (u : O)
        → peers.container_list o ≡ (ok containers, u)
        → peers.list_containers u ≡ (err e, o')
        → NotAsked o e o'

  module _ (now : ℕ) (a : Agent) (o : O) where
    abbrev Asks : M O Pollers → O → Type 0
    Asks m u = Ends (Asked now a o) (NotAsked o) (m u)

    recorded :
        (containers : List DockerContainer) (u : O) (r : Result (List ContainerInfo) × O)
        → peers.container_list o ≡ (ok containers, u)
        → peers.list_containers u ≡ r
        → Asks ((λ _. r) >>= λ infos. poll_listed peers now a containers infos) u
    recorded containers u (err e, v) d h = fails (no_records containers u d h)
    recorded containers u (ok infos, v) d h =
        let t = matched peers now a containers infos in
        let c = commit peers (results t.1.matched) v in
        rw (then_pure t.0 c.0 c.1 v (commit_ok (results t.1.matched) v))
          (returns (asked containers infos u v d h refl refl))

    listed :
        (r : Result (List DockerContainer) × O)
        → peers.container_list o ≡ r
        → Asks
            ((λ _. r) >>= λ containers.
              peers.list_containers >>= λ infos. poll_listed peers now a containers infos)
            o
    listed (err e, u) d = fails (no_daemon d)
    listed (ok containers, u) d = recorded containers u (peers.list_containers u) d refl

    -- A poll with nothing pending asks nobody. Otherwise the updates that are decided or late are gone
    -- and the results are committed.
    pub data Polled : Agent → O → Type 0 where
      idle : (a.pollers.size == 0) ≡ true → Polled a o
      polled : {ps : Pollers} {o' : O} → Asked now a o ps o' → Polled (record a { pollers = ps }) o'

    settled :
        {r : Result Pollers × O}
        → Ends (Asked now a o) (NotAsked o) r
        → Ends
            (λ _ (w : Agent × O). Polled w.0 w.1)
            (λ e w. (w.0 ≡ a) × NotAsked o e w.1)
            (settle peers a r)
    settled (returns h) = returns (polled h)
    settled (fails h) = fails (refl, h)

    pub poll-Ends :
        Ends
          (λ _ (w : Agent × O). Polled w.0 w.1)
          (λ e w. (w.0 ≡ a) × NotAsked o e w.1)
          (poll peers now (a, o))
    unfolding poll
    poll-Ends = elim (Bool-cases (a.pollers.size == 0)) [
      | inl none ↦ rw none (returns (idle none))
      | inr some ↦ rw some (settled (listed (peers.container_list o) refl))
    ]

  -- The calls of the daemon, of the driver and of the loop, in any order.
  pub data Runs : Agent → O → Type 0 where
    begin : (config : AgentConfig) (o : O) → Runs (new_agent config) o
    created :
        {a : Agent} {o : O}
        → (network endpoint : String) (now : ℕ) → Runs a o
        → Runs (notify_endpoint_created network endpoint now a).0 o
    removed :
        {a : Agent} {o : O}
        → (network endpoint : String) (now : ℕ) → Runs a o
        → Runs (notify_endpoint_removed network endpoint now a).0 o
    polls :
        {a : Agent} {o : O}
        → (now : ℕ) → Runs a o
        → Runs (poll peers now (a, o)).1.0 (poll peers now (a, o)).1.1
    waits_for :
        {a : Agent} {o : O}
        → (ch : ℕ) → Runs a o
        → Runs (record a { notifier = (wait a.notifier ch).0 }) o
    cancels_wait :
        {a : Agent} {o : O}
        → (ch : ℕ) → Runs a o
        → Runs (record a { notifier = cancel a.notifier ch }) o
    elsewhere : {a : Agent} {o : O} → (o' : O) → Runs a o → Runs a o'
    disposed : {a : Agent} {o : O} → Runs a o → Runs (dispose a) o

  -- How the agent stands after any calls: the size that it keeps is right, no endpoint has two pending
  -- updates, a signal is kept only while nobody waits, and its host has no name.
  pub record Stands (a : Agent) : Type 0 where
    pub counted : IsCounted a.pollers
    pub notifies : IsReachable a.notifier
    pub settled : IsSettled a.notifier
    pub unnamed : a.hostname ≡ ""

  Stands-Polled : (now : ℕ) (a b : Agent) (o o' : O) → Stands a → Polled now a o b o' → Stands b
  Stands-Polled now a b o o' h (idle e) = h
  Stands-Polled now a b o o' h (polled (asked containers infos u v d r gone c)) = record {
    counted = subst IsCounted (sym gone) (
        match-IsCounted (match_event pools_of belongs) now a.pollers
          (new_match_event a.hostname containers infos) h.counted);
    notifies = h.notifies;
    settled = h.settled;
    unnamed = h.unnamed;
  }

  Stands-Ends :
      (now : ℕ) (a : Agent) (o : O) {r : Result (Unit {0}) × (Agent × O)}
      → Stands a
      → Ends (λ _ (w : Agent × O). Polled now a o w.0 w.1) (λ e w. (w.0 ≡ a) × NotAsked o e w.1) r
      → Stands r.1.0
  Stands-Ends now a o h (returns {w} q) = Stands-Polled now a w.0 o w.1 h q
  Stands-Ends now a o h (fails q) = subst Stands (sym q.0) h

  Stands-moved :
      (a : Agent) (n : Notifier)
      → Stands a
      → Moves a.notifier n
      → Stands (record a { notifier = n })
  Stands-moved a n h m = record {
    counted = h.counted;
    notifies = moves h.notifies m;
    settled = IsReachable-IsSettled (moves h.notifies m);
    unnamed = h.unnamed;
  }

  Stands-notify :
      (a : Agent) (network endpoint : String) (add : Bool) (now : ℕ)
      → Stands a
      → Stands (notify network endpoint add now a).0
  Stands-notify a network endpoint add now h = record {
    counted = new_poller-IsCounted a.pollers (update_at network endpoint add now a) h.counted;
    notifies = moves h.notifies (sends a.notifier (pos 0));
    settled = IsReachable-IsSettled (moves h.notifies (sends a.notifier (pos 0)));
    unnamed = h.unnamed;
  }

  -- After `NewAgent` and any sequence of notifications, polls, waits, cancellations and disposals,
  -- whatever the daemon and the vessel do meanwhile, the recorded number of pending updates is
  -- their number, no two of them are of one endpoint, the notifier keeps a signal only while
  -- nobody waits, and the agent's host has no name, which `NewAgent` does not set.
  pub Runs-Stands : {a : Agent} {o : O} → Runs a o → Stands a
  unfolding notify_endpoint_created notify_endpoint_removed
  Runs-Stands (begin config o) = record {
    counted = record { counted = refl; distinct = tt };
    notifies = starts;
    settled = IsReachable-IsSettled starts;
    unnamed = refl;
  }
  Runs-Stands (created network endpoint now r) =
      Stands-notify _ network endpoint true now (Runs-Stands r)
  Runs-Stands (removed network endpoint now r) =
      Stands-notify _ network endpoint false now (Runs-Stands r)
  Runs-Stands (polls {a} {o} now r) = Stands-Ends now a o (Runs-Stands r) (poll-Ends now a o)
  Runs-Stands (waits_for {a} ch r) = Stands-moved a _ (Runs-Stands r) (waits a.notifier ch)
  Runs-Stands (cancels_wait {a} ch r) = Stands-moved a _ (Runs-Stands r) (cancels a.notifier ch)
  Runs-Stands (elsewhere o' r) = Runs-Stands r
  Runs-Stands (disposed r) =
      let h = Runs-Stands r in
      record {
        counted = h.counted;
        notifies = h.notifies;
        settled = h.settled;
        unnamed = h.unnamed;
      }
