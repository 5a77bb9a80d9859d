-- ===== src/Store/Etcd/Batch/Laws.antt =====
-- The operations and the sizes of the transactions that a batch is split into.
use barrel.Prelude.{
  ℕ, zero, suc, ◌+◌, ◌*◌, ◌/◌, ◌%◌, ◌≤◌, ◌<◌, List, [], ◌∷◌, ◌++◌, ◌≡◌, refl, sym, ap, ◌∙◌, take,
  drop, length, length-take, length-drop, take-append-drop, All, arith,
}
use barrel.Store.Etcd.Batch.{txn_limit, slices, tail_of, batches}

module _ {A : Type 0} where
  abbrev pub join : List (List A) → List A
  join [] = []
  join (xs ∷ xss) = xs ++ join xss

  drop_none : (n : ℕ) → (let none_left : List A = [] in drop n none_left) ≡ []
  drop_none zero = refl
  drop_none (suc n) = refl

  drop-drop : (m n : ℕ) (xs : List A) → drop n (drop m xs) ≡ drop (m + n) xs
  drop-drop zero n xs = ap (λ (k : ℕ). drop k xs) (omega arith)
  drop-drop (suc m) n [] = drop_none n ∙ sym (drop_none (suc m + n))
  drop-drop (suc m) n (x ∷ xs) =
      drop-drop m n xs
      ∙ ap (λ (k : ℕ). drop k (x ∷ xs)) (let moved : suc (m + n) ≡ suc m + n = omega arith in moved)

  append_assoc : (xs ys zs : List A) → (xs ++ ys) ++ zs ≡ xs ++ (ys ++ zs)
  append_assoc [] ys zs = refl
  append_assoc (x ∷ xs) ys zs = ap (◌∷◌ x) (append_assoc xs ys zs)

  -- The slices and what comes after them are what comes after the first.
  join-slices :
      (n i : ℕ) (ops : List A)
      → join (slices n i ops) ++ drop ((i + n) * txn_limit) ops ≡ drop (i * txn_limit) ops
  join-slices zero i ops = ap (λ (k : ℕ). drop k ops) (omega arith)
  join-slices (suc n) i ops =
      append_assoc (take txn_limit (drop (i * txn_limit) ops)) (join (slices n (suc i) ops)) _
      ∙ ap (λ ys. take txn_limit (drop (i * txn_limit) ops) ++ ys)
          (ap (λ (k : ℕ). join (slices n (suc i) ops) ++ drop k ops) (omega arith)
            ∙ join-slices n (suc i) ops
            ∙ ap (λ (k : ℕ). drop k ops) (omega arith)
            ∙ sym (drop-drop (i * txn_limit) txn_limit ops))
      ∙ take-append-drop txn_limit (drop (i * txn_limit) ops)

  empty_of_length : (xs : List A) → length xs ≡ 0 → xs ≡ []
  empty_of_length [] e = refl
  empty_of_length (x ∷ xs) e = absurd (omega arith)

  join-tail :
      (t count : ℕ) (ops : List A)
      → length ops ≡ count * txn_limit + t
      → join (tail_of t count ops) ≡ drop (count * txn_limit) ops
  join-tail zero count ops e =
      sym (empty_of_length _ (omega (arith, length-drop (count * txn_limit) ops)))
  join-tail (suc t) count ops e = append_nil _
    where
      append_nil : (xs : List A) → xs ++ [] ≡ xs
      append_nil [] = refl
      append_nil (x ∷ xs) = ap (◌∷◌ x) (append_nil xs)

  join-append : (xss yss : List (List A)) → join (xss ++ yss) ≡ join xss ++ join yss
  join-append [] yss = refl
  join-append (xs ∷ xss) yss =
      ap (λ zs. xs ++ zs) (join-append xss yss) ∙ sym (append_assoc xs (join xss) (join yss))

  -- The transactions of `doBatchOp` hold every operation once, in order.
  pub join-batches : (ops : List A) → join (batches ops) ≡ ops
  unfolding batches
  join-batches ops =
      let count = length ops / txn_limit in
      let t = length ops % txn_limit in
      join-append (slices count 0 ops) (tail_of t count ops)
      ∙ ap (λ ys. join (slices count 0 ops) ++ ys) (join-tail t count ops (omega arith))
      ∙ ap (λ (k : ℕ). join (slices count 0 ops) ++ drop k ops) (omega arith)
      ∙ join-slices count 0 ops

  -- No transaction is empty or exceeds the limit.
  abbrev pub IsFit : List A → Type 0
  IsFit xs = (1 ≤ length xs) × (length xs ≤ txn_limit)

  slices-IsFit :
      (n i : ℕ) (ops : List A) → (i + n) * txn_limit ≤ length ops → All IsFit (slices n i ops)
  slices-IsFit zero i ops h = tt
  slices-IsFit (suc n) i ops h =
      let l = length-take txn_limit (drop (i * txn_limit) ops) in
      let d = length-drop (i * txn_limit) ops in
      ((omega (arith, l, d), omega (arith, l, d)), slices-IsFit n (suc i) ops (omega arith))

  All-append :
      (P : List A → Type 0) (xss yss : List (List A)) → All P xss → All P yss → All P (xss ++ yss)
  All-append P [] yss h g = g
  All-append P (xs ∷ xss) yss h g = (h.0, All-append P xss yss h.1 g)

  tail-IsFit :
      (t count : ℕ) (ops : List A)
      → length ops ≡ count * txn_limit + t
      → t < txn_limit
      → All IsFit (tail_of t count ops)
  tail-IsFit zero count ops e h = tt
  tail-IsFit (suc t) count ops e h =
      let d = length-drop (count * txn_limit) ops in ((omega (arith, d), omega (arith, d)), tt)

  -- Each transaction of `doBatchOp` has at least one and at most 125 operations.
  pub batches-IsFit : (ops : List A) → All IsFit (batches ops)
  unfolding batches
  batches-IsFit ops =
      let count = length ops / txn_limit in
      let t = length ops % txn_limit in
      All-append IsFit (slices count 0 ops) (tail_of t count ops)
        (slices-IsFit count 0 ops (omega arith))
        (tail-IsFit t count ops (omega arith) (omega arith))
