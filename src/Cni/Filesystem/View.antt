-- ===== src/Cni/Filesystem/View.antt =====
-- What the directory of cni/store/filesystem says of links, owners, tenants and namespaces.
use mathlib.Core.Path.{fun_ext}
use barrel.Prelude.{
  String, Bool, true, false, Option, none, some, ◌≡◌, ap, string_eq, ◌==◌, if◌then◌else◌, beq_iff,
  beq_refl, arith,
}
use barrel.Cni.Endpoint.{
  FilePath, path_eq, netns_path, tenant_path, owner_path, flock_path, path_beq_iff,
}
use barrel.Cni.Files.{
  Entry, file, link, bound, Table, Disk, find, put, drop_at, find-put, find-drop_at,
}
use barrel.Cni.Store.{Book, update}

abbrev pub target_of : Option Entry → Option FilePath
target_of (some (link q)) = some q
target_of _ = none

abbrev pub text_of : Option Entry → Option String
text_of (some (file x)) = some x
text_of (some (bound m ms x)) = some x
text_of _ = none

abbrev pub is_endpoint : Option Entry → Bool
is_endpoint none = false
is_endpoint (some (file x)) = true
is_endpoint (some (link q)) = false
is_endpoint (some (bound x ms e)) = true

abbrev pub view : String → Table → Book
view root es = record {
  linked = λ id. target_of (find es (netns_path root id));
  owner = λ ip. text_of (find es (owner_path root ip));
  tenant = λ ip. text_of (find es (tenant_path root ip));
  present = λ ip. is_endpoint (find es (netns_path root ip));
}

-- Only the paths of namespaces are links.
pub record IsTidy (es : Table) : Type 0 where
  pub plain : (p q : FilePath) → find es p ≡ some (link q) → p.suffix ≡ ""

pub record Stands (root : String) (b : Book) (d : Disk) : Type 0 where
  pub stands : view root d.entries ≡ b
  pub tidy : IsTidy d.entries

-- One path has another entry.
pub record Changed (p : FilePath) (o : Option Entry) (es es' : Table) : Type 0 where
  pub reads : (q : FilePath) → find es' q ≡ (if p == q then o else find es q)

pub put-Changed : (es : Table) (p : FilePath) (e : Entry) → Changed p (some e) es (put es p e)
put-Changed es p e = record { reads = λ q. find-put es p q e }

pub drop_at-Changed : (es : Table) (p : FilePath) → Changed p none es (drop_at es p)
drop_at-Changed es p = record { reads = λ q. find-drop_at es p q }

pub Book_path :
    {a b : Book}
    → ((k : String) → a.linked k ≡ b.linked k)
    → ((k : String) → a.owner k ≡ b.owner k)
    → ((k : String) → a.tenant k ≡ b.tenant k)
    → ((k : String) → a.present k ≡ b.present k)
    → a ≡ b
Book_path l o t p = λ i. record {
  linked = λ k. l k i;
  owner = λ k. o k i;
  tenant = λ k. t k i;
  present = λ k. p k i;
}

module _ (root : String) {es es' : Table} (ip : String) {o : Option Entry} where
  pub view-tenant :
      Changed (tenant_path root ip) o es es'
      → view root es'
        ≡ record (view root es) { tenant = update (view root es).tenant ip (text_of o) }
  view-tenant c =
      Book_path (λ k. ground (arith, c.reads (netns_path root k)))
        (λ k. ground (arith, c.reads (owner_path root k)))
        (λ k. ground (arith, beq_refl root, c.reads (tenant_path root k)))
        (λ k. ground (arith, c.reads (netns_path root k)))

  pub view-owner :
      Changed (owner_path root ip) o es es'
      → view root es' ≡ record (view root es) { owner = update (view root es).owner ip (text_of o) }
  view-owner c =
      Book_path (λ k. ground (arith, c.reads (netns_path root k)))
        (λ k. ground (arith, beq_refl root, c.reads (owner_path root k)))
        (λ k. ground (arith, c.reads (tenant_path root k)))
        (λ k. ground (arith, c.reads (netns_path root k)))

  pub view-flock : Changed (flock_path root ip) o es es' → view root es' ≡ view root es
  view-flock c =
      Book_path (λ k. ground (arith, c.reads (netns_path root k)))
        (λ k. ground (arith, c.reads (owner_path root k)))
        (λ k. ground (arith, c.reads (tenant_path root k)))
        (λ k. ground (arith, c.reads (netns_path root k)))

  pub view-netns :
      Changed (netns_path root ip) o es es'
      → view root es' ≡ record (view root es) {
        linked = update (view root es).linked ip (target_of o);
        present = update (view root es).present ip (is_endpoint o);
      }
  view-netns c =
      Book_path (λ k. ground (arith, beq_refl root, c.reads (netns_path root k)))
        (λ k. ground (arith, c.reads (owner_path root k)))
        (λ k. ground (arith, c.reads (tenant_path root k)))
        (λ k. ground (arith, beq_refl root, c.reads (netns_path root k)))

module _ {es es' : Table} {p : FilePath} where
  pub Changed-IsTidy :
      {o : Option Entry} → Changed p o es es' → target_of o ≡ none → IsTidy es → IsTidy es'
  Changed-IsTidy {o} c n t = record { plain = λ q r e. ground (arith, c.reads q, t.plain q r) }

  pub linked-IsTidy :
      {o : Option Entry} → Changed p o es es' → p.suffix ≡ "" → IsTidy es → IsTidy es'
  linked-IsTidy {o} c s t = record {
    plain = λ q r e. ground (arith, c.reads q, t.plain q r, path_beq_iff p q);
  }

module _ {A : Type 0} (f : String → A) (k : String) where
  pub update_twice : (u v : A) → update (update f k u) k v ≡ update f k v
  update_twice u v = fun_ext (λ j. ground arith)

  pub update_same : (v : A) → f k ≡ v → update f k v ≡ f
  update_same v e = fun_ext (λ j. ground (arith, beq_iff k j, ap f))
