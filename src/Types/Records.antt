-- ===== src/Types/Records.antt =====
-- types/pool.go and the records of types/meta.go.
use barrel.Prelude.{
  ℕ, String, Bool, true, Option, List, Eq, string_eq, ◌==◌, ◌&&◌, ◌≡◌, ◌↔◌, beq_iff, arith,
}

pub record Pool : Type 0 where
  pub cidr : String
  pub name : String
  pub gateway : String

pub record Ip : Type 0 where
  pub pool_id : String
  pub address : String

pub record IpAddress : Type 0 where
  pub ip : Ip
  pub open ip use *
  pub version : ℕ

pub record Container : Type 0 where
  pub id : String
  pub host_name : String

-- A nil slice and an empty one are one list: the code only ranges over them and takes their length.
pub record IpAttributes : Type 0 where
  pub borrowers : List Container

-- `none` is the nil pointer.
pub record IpInfo : Type 0 where
  pub container_id : String
  pub pool_id : String
  pub address : String
  pub status : ℕ
  pub attrs : Option IpAttributes

pub record Network : Type 0 where
  pub network_id : String
  pub endpoint_id : String
  pub address : Ip

pub record ContainerInfo : Type 0 where
  pub container : Container
  pub open container use *
  pub networks : List Network
  pub addresses : List Ip

-- Go's `==` on two values of type `Container`.
abbrev container_beq : Container → Container → Bool
container_beq a b = (a.id == b.id) && (a.host_name == b.host_name)

pub container_beq_iff : (a b : Container) → (container_beq a b ≡ true) ↔ (a ≡ b)
container_beq_iff a b = ground (arith, beq_iff a.id b.id, beq_iff a.host_name b.host_name)

instance abbrev pub container_eq : Eq Container
container_eq = record { same = container_beq; same_reflects = container_beq_iff }
