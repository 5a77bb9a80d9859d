-- ===== src/Cni/Base/Calls.antt =====
-- What the calls of cni/subhandler on the store and on other programs do to the endpoints' book.
use barrel.Prelude.{String, ◌≡◌, subst, some}
use barrel.Types.{Result, ok, err, Error}
use barrel.Method.{M, Ends, returns, fails}
use barrel.Cni.Endpoint.{FilePath, ContainerMeta}
use barrel.Cni.Store.{
  EndpointStore, EndpointStoreLaws, Book, Contract, Meets, Meets-Ends, Answers, Fails, Untouched,
}
use barrel.Cni.Machine.{Machine, Runtime, RuntimeLaws, Saves, Probes, on_disk, on_host}

module _ {S H : Type 0} {store : EndpointStore S} {Stands : Book → S → Type 0}
    {at : String → FilePath} (laws : EndpointStoreLaws S store Stands at) where
  abbrev pub At : Book → Machine S H → Type 0
  At b w = Stands b w.disk

  on_disk_ended :
      {A : Type 0} {Q : A → S → Type 0} {E : Error → S → Type 0} {r : Result A × S}
      (w : Machine S H)
      → Ends Q E r
      → Ends
          (λ a (w' : Machine S H). Q a w'.disk)
          (λ e w'. E e w'.disk)
          (r.0, record w { disk = r.1 })
  on_disk_ended w (returns q) = returns q
  on_disk_ended w (fails q) = fails q

  -- A call on the store meets its contract.
  pub called :
      {A : Type 0} (C : Contract A) {b : Book} {m : M S A}
      → Meets Stands C b m
      → (w : Machine S H) → At b w
      → Ends (Answers At C b) (Fails At C b) (on_disk m w)
  called C {b} {m} h w st = on_disk_ended w (Meets-Ends Stands C b h w.disk st)

  hosted_ended :
      {A : Type 0} {b : Book} (w : Machine S H) (r : Result A × H)
      → At b w
      → Ends (λ a w'. At b w') (λ e w'. At b w') (r.0, record w { host = r.1 })
  hosted_ended w (ok a, h) st = returns st
  hosted_ended w (err e, h) st = fails st

  -- Another program leaves the endpoints alone.
  pub hosted :
      {A : Type 0} {b : Book} (m : M H A) (w : Machine S H)
      → At b w
      → Ends (λ a w'. At b w') (λ e w'. At b w') (on_host m w)
  hosted m w st = hosted_ended w (m w.host) st

  saved_ended :
      {b : Book} (rt : Runtime H) (c : ContainerMeta) (w : Machine S H) (r : Result (Unit {0}) × H)
      → Saves rt c r
      → At b w
      → Ends
          (λ a w'. (rt.saved w'.host c.id ≡ some c) × At b w')
          (λ e w'. At b w')
          (r.0, record w { host = r.1 })
  saved_ended rt c w (ok a, h) s st = returns (s, st)
  saved_ended rt c w (err e, h) s st = fails st

  pub save-Ends :
      {b : Book} {rt : Runtime H} (rt_laws : RuntimeLaws H rt) (c : ContainerMeta) (w : Machine S H)
      → At b w
      → Ends
          (λ a w'. (rt.saved w'.host c.id ≡ some c) × At b w')
          (λ e w'. At b w')
          (on_host (rt.save c) w)
  save-Ends {rt} rt_laws c w st = saved_ended rt c w (rt.save c w.host) (rt_laws.saves c w.host) st

  -- What an untouched book answers.
  pub still : {b : Book} (w : Machine S H) → (b' : Book) × (b' ≡ b) × At b' w → At b w
  still w (b', same, st) = subst (λ x. At x w) same st

  pub untouched_state :
      {A : Type 0} {b : Book} {r : Result A × Machine S H}
      → Ends (Answers At (Untouched {A = A}) b) (Fails At (Untouched {A = A}) b) r
      → At b r.1
  untouched_state (returns {w} q) = still w q
  untouched_state (fails {w} (b', (f, same), st)) = still w (b', same, st)

  -- What is given back leaves the book as it is.
  pub unlock_untouched :
      (flock : store.Flock) (b : Book) (w : Machine S H)
      → At b w
      → At b (on_disk (store.unlock flock) w).1
  unlock_untouched flock b w st =
      untouched_state (called (Untouched {A = Unit {0}}) (laws.unlocks flock b) w st)

  probed_ended :
      {b : Book} (IsAddress : String → Type 0) (w : Machine S H) (r : Result String × H)
      → Probes IsAddress r
      → At b w
      → Ends (λ ip w'. IsAddress ip × At b w') (λ e w'. At b w') (r.0, record w { host = r.1 })
  probed_ended IsAddress w (ok ip, h) a st = returns (a, st)
  probed_ended IsAddress w (err e, h) a st = fails st

  pub probe_ipv4-Ends :
      {b : Book} {rt : Runtime H} (rt_laws : RuntimeLaws H rt) (netns : String) (w : Machine S H)
      → At b w
      → Ends
          (λ ip w'. rt_laws.IsAddress ip × At b w')
          (λ e w'. At b w')
          (on_host (rt.probe_ipv4 netns) w)
  probe_ipv4-Ends {rt} rt_laws netns w st =
      probed_ended rt_laws.IsAddress w (rt.probe_ipv4 netns w.host) (rt_laws.probes netns w.host) st
