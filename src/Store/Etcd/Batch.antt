-- ===== src/Store/Etcd/Batch.antt =====
-- `PutMulti`, `batchPut` without limits, and the transactions that `doBatchOp` makes of its
-- operations. What the transactions do to the cluster, in goroutines, is not modelled.
pub mod Laws
use barrel.Prelude.{
  ℕ, zero, suc, ◌+◌, ◌*◌, ◌/◌, ◌%◌, String, Bool, true, false, List, [], ◌∷◌, ◌++◌, nat_eq,
  string_eq, ◌==◌, if◌then◌else◌, take, drop, length,
}
use barrel.Types.{Result, ok, err, ◌>>=◌, key_is_blank, no_ops}
use barrel.Json.{Any}
use barrel.Store.Client.{Op, op_put}
use barrel.Store.Codec.{Codec}

-- The map `data`: one document for each key, the last that was put.
abbrev pub Data : Type 0
Data = List (String × Any)

abbrev pub put_data : String → Any → Data → Data
put_data k x [] = (k, x) ∷ []
put_data k x ((j, y) ∷ d) = if j == k then (j, x) ∷ d else (j, y) ∷ put_data k x d

module _ {C : Type 0} ⦃codec : Codec C⦄ where
  open codec use {key, encode}

  -- The loop of `PutMulti`, which puts each codec's document in the map.
  unfoldable pub collect : List C → Data → Result Data
  collect [] d = ok d
  collect (c ∷ cs) d =
      if key c == ""
      then err key_is_blank
      else (encode c >>= λ x. collect cs (put_data (key c) x d))

-- The operations of `batchPut`, in the order of the list; Go's order is not specified.
abbrev pub put_ops : Data → List Op
put_ops [] = []
put_ops ((k, x) ∷ d) = op_put k x ∷ put_ops d

abbrev pub txn_limit : ℕ
txn_limit = 125

module _ {A : Type 0} where
  -- So many full slices, from the slice `i` on.
  abbrev pub slices : ℕ → ℕ → List A → List (List A)
  slices zero i ops = []
  slices (suc n) i ops = take txn_limit (drop (i * txn_limit) ops) ∷ slices n (suc i) ops

  abbrev tail_of : ℕ → ℕ → List A → List (List A)
  tail_of zero count ops = []
  tail_of (suc n) count ops = drop (count * txn_limit) ops ∷ []

  -- The operations of each transaction, by its index in `resps`.
  unfoldable pub batches : List A → List (List A)
  batches ops =
      slices (length ops / txn_limit) 0 ops
      ++ tail_of (length ops % txn_limit) (length ops / txn_limit) ops

-- `PutMulti`, up to the transactions that it commits.
unfoldable pub put_multi : {C : Type 0} ⦃codec : Codec C⦄ → List C → Result (List (List Op))
unfolding collect batches
put_multi cs =
    collect cs [] >>= λ d. elim (put_ops d) [ [] ↦ err no_ops | op ∷ ops ↦ ok (batches (op ∷ ops)) ]
