-- ===== src/Vessel/CalicoPool/Subnets.antt =====
-- What `GetPoolsByCIDRS` leaves alone.
use barrel.Prelude.{String, List, [], ◌∷◌, ◌≡◌, refl, ◌∙◌}
use barrel.Types.{Result, ok, err, Pool}
use barrel.Method.Keeps.{Keeps, Keeps-result, Keeps-pure, Keeps->>=}
use barrel.Vessel.World.{Clients, ClientLaws, WorldOf, Ends, returns, fails, on_ipam}
use barrel.Vessel.CalicoClient.{IpPool}
use barrel.Vessel.CalicoPool.{parsed, parse_all, matching, nonempty, get_pools_by_cidrs}
use barrel.Vessel.CalicoPool.Alloc.{Quiet}

module _ (net : Clients) (laws : ClientLaws net) where
  open net use {cal}

  pub Quiet-refl : (w : WorldOf net) → Quiet net laws w w
  Quiet-refl w = (refl, refl)

  pub Quiet-trans :
      (u v w : WorldOf net) → Quiet net laws u v → Quiet net laws v w → Quiet net laws u w
  Quiet-trans u v w p q = (q.0 ∙ p.0, q.1 ∙ p.1)

  parsed-Keeps : (cidr : String) → Keeps (Quiet net laws) (parsed net cidr)
  parsed-Keeps cidr w = Keeps-result (Quiet net laws) Quiet-refl (cal.parse_cidr cidr) w

  parse_all-Keeps : (cidrs : List String) → Keeps (Quiet net laws) (parse_all net cidrs)
  parse_all-Keeps [] = Keeps-pure (Quiet net laws) Quiet-refl []
  parse_all-Keeps (c ∷ cs) =
      Keeps->>= (Quiet net laws) Quiet-trans (parsed net c) _ (parsed-Keeps c) (λ n.
        Keeps->>= (Quiet net laws) Quiet-trans (parse_all net cs) _ (parse_all-Keeps cs)
          (λ nets. Keeps-pure (Quiet net laws) Quiet-refl (n ∷ nets)))

  nonempty-Keeps : (pools : List Pool) → Keeps (Quiet net laws) (nonempty net pools)
  nonempty-Keeps [] w = fails (Quiet-refl w)
  nonempty-Keeps (p ∷ ps) w = returns (Quiet-refl w)

  listed :
      (w : WorldOf net) (r : Result (List IpPool)) (s : cal.State)
      → cal.assigned s ≡ cal.assigned w.ipam
      → Ends (λ _ u. Quiet net laws w u) (λ _ u. Quiet net laws w u) (r, record w { ipam = s })
  listed w (ok p) s h = returns (h, refl)
  listed w (err e) s h = fails (h, refl)

  list_pools-Keeps : Keeps (Quiet net laws) (on_ipam cal.list_pools)
  list_pools-Keeps w =
      let t = cal.list_pools w.ipam in listed w t.0 t.1 (laws.cal_laws.list_pools_reads w.ipam)

  pub get_pools_by_cidrs-Keeps :
      (cidrs : List String) → Keeps (Quiet net laws) (get_pools_by_cidrs net cidrs)
  unfolding get_pools_by_cidrs
  get_pools_by_cidrs-Keeps cidrs =
      Keeps->>= (Quiet net laws) Quiet-trans (parse_all net cidrs) _ (parse_all-Keeps cidrs)
        (λ nets.
          Keeps->>= (Quiet net laws) Quiet-trans (on_ipam cal.list_pools) _ list_pools-Keeps
            (λ pools. nonempty-Keeps (matching net nets pools)))
