-- ===== src/Cni/Handler/Safe.antt =====
-- What it means that another container keeps its link and its tenancies, contract by contract.
use barrel.Prelude.{
  String, false, Option, none, some, ◌≡◌, refl, ◌∙◌, ◌⊎◌, inl, inr, ap, string_eq, ◌==◌, beq_iff,
  Bool-cases, arith,
}
use barrel.Types.{Result, ok, err}
use barrel.Cni.Endpoint.{FilePath, NetEndpoint}
use barrel.Cni.Store.{Book, update, Connects, Frees, created}
use barrel.Cni.Base.{free}
use barrel.Cni.Base.Borrow.{Borrows}
use barrel.Cni.Base.Make.{Aside, Makes}
use barrel.Cni.Base.Dangling.{Cleans}

-- Another container keeps its link, and the endpoints that it is the tenant of.
pub record Safe (id : String) (b b' : Book) : Type 0 where
  pub links : (j : String) → (id == j) ≡ false → b'.linked j ≡ b.linked j
  pub tenancies : (ip x : String) → b.tenant ip ≡ some x → (x == id) ≡ false → b'.tenant ip ≡ some x

module _ {id : String} {b b' : Book} where
  pub Safe-trans : (mid : Book) → Safe id b mid → Safe id mid b' → Safe id b b'
  Safe-trans mid p q = record {
    links = λ j other. q.links j other ∙ p.links j other;
    tenancies = λ ip x e other. q.tenancies ip x (p.tenancies ip x e other) other;
  }

  pub same-Safe : b' ≡ b → Safe id b b'
  same-Safe e = record {
    links = λ j other. ap (λ x. x.linked j) e;
    tenancies = λ ip x h other. ap (λ y. y.tenant ip) e ∙ h;
  }

  link-Safe :
      ((j : String) → (id == j) ≡ false → b'.linked j ≡ b.linked j)
      → b'.tenant ≡ b.tenant
      → Safe id b b'
  link-Safe l t = record { links = l; tenancies = λ ip x h other. ap (λ f. f ip) t ∙ h }

  -- A change at one address, which nobody else is the tenant of.
  Aside-Safe :
      (ip : String)
      → Aside id ip b b'
      → (b.tenant ip ≡ none) ⊎ (b.tenant ip ≡ some id)
      → Safe id b b'
  Aside-Safe ip a own = record {
    links = a.links;
    tenancies = λ j x h other. elim (Bool-cases (ip == j)) [
      | inl here ↦ absurd (nobody_else own (ap b.tenant ((beq_iff ip j).0 here) ∙ h) other)
      | inr elsewhere ↦ a.tenants j elsewhere ∙ h
    ];
  }
    where
      nobody_else :
          {x : String}
          → (b.tenant ip ≡ none) ⊎ (b.tenant ip ≡ some id)
          → b.tenant ip ≡ some x
          → (x == id) ≡ false
          → ⊥
      nobody_else {x} (inl n) h other = cc
      nobody_else {x} (inr s) h other = ground (arith, beq_iff x id)

at-Aside :
    {id : String} (b b' : Book) (ip : String) (v : Option String)
    → b' ≡ record b { tenant = update b.tenant ip v }
    → Aside id ip b b'
at-Aside b b' ip v e = record {
  links = λ j other. ap (λ x. x.linked j) e;
  tenants = λ j other. ap (λ x. x.tenant j) e ∙ rw other refl;
}

module _ (at : String → FilePath) (id : String) (b : Book) where
  pub Borrows-Safe :
      (nep : NetEndpoint) (r : Result (Unit {0})) (b' : Book) → Borrows id nep b r b' → Safe id b b'
  Borrows-Safe nep (ok u) b' (free, same) =
      Aside-Safe nep.ipv4 (at-Aside b b' nep.ipv4 (some id) same) (inl free)
  Borrows-Safe nep (err e) b' (inl same) = same-Safe same
  Borrows-Safe nep (err e) b' (inr (free, inl same)) =
      Aside-Safe nep.ipv4 (at-Aside b b' nep.ipv4 (some id) same) (inl free)
  Borrows-Safe nep (err e) b' (inr (free, inr same)) =
      Aside-Safe nep.ipv4 (at-Aside b b' nep.ipv4 (some "") same) (inl free)

  pub Frees-Safe :
      (nep : NetEndpoint) (r : Result (Unit {0})) (b' : Book) → Frees id nep b r b' → Safe id b b'
  Frees-Safe nep (ok u) b' (own, same) =
      Aside-Safe nep.ipv4 (at-Aside b b' nep.ipv4 none same) (inr own)
  Frees-Safe nep (err e) b' (f, same) = same-Safe same

  pub Connects-Safe :
      (nep : NetEndpoint) (r : Result (Unit {0})) (b' : Book)
      → Connects at id nep b r b'
      → Safe id b b'
  Connects-Safe nep (ok u) b' (inl (free, same)) =
      link-Safe (λ j other. ap (λ x. x.linked j) same ∙ rw other refl) (ap (λ x. x.tenant) same)
  Connects-Safe nep (ok u) b' (inr (there, same)) = same-Safe same
  Connects-Safe nep (err e) b' (f, same) = same-Safe same

  pub Cleans-Safe :
      (nep : NetEndpoint) (r : Result (Unit {0})) (b' : Book) → Cleans nep b r b' → Safe id b b'
  Cleans-Safe nep (ok u) b' (inl (used, same)) = same-Safe same
  Cleans-Safe nep (ok u) b' (inr ((no_link, free), same)) =
      Aside-Safe nep.ipv4
        (record {
          links = λ j other. ap (λ x. x.linked j) same;
          tenants = λ j other. ap (λ x. x.tenant j) same ∙ rw other refl;
        })
        (inl free)
  Cleans-Safe nep (err e) b' (inl same) = same-Safe same
  Cleans-Safe nep (err e) b' (inr ((no_link, free), (l, t))) =
      Aside-Safe nep.ipv4 (record { links = λ j other. ap (λ f. f j) l; tenants = t }) (inl free)

module _ (at : String → FilePath) (id : String) where
  Connects-tenant :
      (nep : NetEndpoint) (b mid : Book) → Connects at id nep b (ok tt) mid → mid.tenant ≡ b.tenant
  Connects-tenant nep b mid (inl (nobody, same)) = ap (λ x. x.tenant) same
  Connects-tenant nep b mid (inr (there, same)) = ap (λ x. x.tenant) same

  pub Makes-Safe :
      (b : Book)
      → ((ip : String) → b.owner ip ≡ none → b.tenant ip ≡ none)
      → (r : Result (Unit {0})) (b' : Book) → Makes at id b r b'
      → Safe id b b'
  Makes-Safe b owned (ok u) b' (nep, mid, owner, free, k, same) =
      let s = Connects-Safe at id (created b id nep.ipv4) nep (ok tt) mid k in
      let kept : mid.tenant ≡ b.tenant = Connects-tenant nep (created b id nep.ipv4) mid k in
      Safe-trans mid (record { links = s.links; tenancies = s.tenancies })
        (Aside-Safe nep.ipv4 (at-Aside mid b' nep.ipv4 (some id) same)
          (inl (ap (λ f. f nep.ipv4) kept ∙ free)))
  Makes-Safe b owned (err e) b' (inl (l, t)) = link-Safe (λ j other. ap (λ f. f j) l) t
  Makes-Safe b owned (err e) b' (inr (ip, free, a)) = Aside-Safe ip a (inl (owned ip free))
