-- ===== src/Vessel/FixedPool/Lend.antt =====
-- `BorrowFixedIP` and `ReturnFixedIP`: the borrowers of a fixed address.
use barrel.Prelude.{
  ℕ, suc, zero, List, [], ◌∷◌, ◌++◌, true, ◌≡◌, refl, ◌⊎◌, inl, inr, length, ◌==◌, nat_eq, arith,
  Bool-cases, some, none,
}
use barrel.Types.{Ip, IpInfo, Container}
use barrel.Store.Client.{KvLaws}
use barrel.Codecs.{IpInfoCodec}
use barrel.Vessel.World.{Clients, WorldOf, M, Ends, returns, fails, >>=-Ends}
use barrel.Vessel.FixedPool.{
  retry_max_count, borrowers_of, get_fixed_ip, borrow_got, borrow_loop, borrow_fixed_ip, without,
  return_got, return_loop, return_fixed_ip,
}
use barrel.Vessel.FixedPool.Steps.{V as view_of, Stored, GotRecord, get_fixed_ip-Ends}
use barrel.Vessel.FixedPool.Assign.{Wrote}
use barrel.Vessel.FixedPool.Rounds.{
  IsReady, IsOwn-ready, IsReady-read, Within, Stopped, exhausted, none_lost, swap-Within,
  NotFound-Stopped,
}

abbrev pub set_borrowers : IpInfo → List Container → IpInfo
set_borrowers i bs = record i { attrs = some (record { borrowers = bs }) }

-- The record as `BorrowFixedIP` writes it.
abbrev pub lent_to : Container → IpInfo → IpInfo
lent_to container i = set_borrowers i (borrowers_of i.attrs ++ container ∷ [])

-- The record as `ReturnFixedIP` writes it.
abbrev pub returned_by : Container → IpInfo → IpInfo
returned_by container i = set_borrowers i (without container (borrowers_of i.attrs))

module _ (net : Clients) (laws : KvLaws net.kv) (ip : Ip) (container : Container) where
  open net use {kv}

  abbrev pub Borrows : WorldOf net → WorldOf net → Type 0
  Borrows w w' = (i : IpInfo) × Wrote net laws ip i (lent_to container i) w w'

  -- The container is taken off, or the record had no borrower and nothing is written.
  abbrev pub Returns : WorldOf net → WorldOf net → Type 0
  Returns w w' =
      (i : IpInfo) × (Wrote net laws ip i (returned_by container i) w w'
        ⊎ ((n : ℕ) × Stored (view_of net laws w) ip i n
            × (borrowers_of i.attrs ≡ [])
            × (kv.view w'.shared.store ≡ view_of net laws w)))

  abbrev Runs : (WorldOf net → WorldOf net → Type 0) → ℕ → M (WorldOf net) (Unit {0}) → Type 0
  Runs P n m =
      (w : WorldOf net)
      → IsReady net laws ip w
      → Ends (λ _ w'. Within net laws ip P n w w') (Stopped net laws ip n w) (m w)

  borrow_got-Ends :
      (n : ℕ) (again : M (WorldOf net) (Unit {0})) (w u : WorldOf net) (c : IpInfoCodec)
      → Runs Borrows n again
      → IsReady net laws ip w
      → GotRecord net laws ip w c u
      → Ends
          (λ _ w'. Within net laws ip Borrows (suc n) w w')
          (Stopped net laws ip (suc n) w)
          (borrow_got net again container c u)
  borrow_got-Ends n again w u c ih ready ((i, m, st, same), h) = rw same (
      swap-Within net laws ip Borrows n again w u i (lent_to container i) m
        (IsReady-read net laws ip w u ready h) st h refl refl (λ w' d. (i, d)) ih)

  borrow_loop-Ends : (n : ℕ) → Runs Borrows n (borrow_loop net n ip container)
  unfolding borrow_loop
  borrow_loop-Ends zero w ready = fails (exhausted refl (none_lost w))
  borrow_loop-Ends (suc n) w ready =
      >>=-Ends (get_fixed_ip net ip none)
        (borrow_got net (borrow_loop net n ip container) container) w
        (get_fixed_ip-Ends net laws ip w (IsOwn-ready net laws ip w ready))
        (λ c u g. borrow_got-Ends n _ w u c (borrow_loop-Ends n) ready g)
        (λ e u g. NotFound-Stopped net laws ip (suc n) w u e g)

  -- Where the record of an address is its own and the other clients keep it so, `BorrowFixedIP`
  -- loses fewer than three rounds to them and then adds the container to the borrowers that it
  -- read, by a swap; or it says why not, and that the retries are exhausted only after it has lost
  -- three rounds.
  pub borrow_fixed_ip-Ends :
      (w : WorldOf net)
      → IsReady net laws ip w
      → Ends
          (λ _ w'. Within net laws ip Borrows retry_max_count w w')
          (Stopped net laws ip retry_max_count w)
          (borrow_fixed_ip net ip container w)
  unfolding borrow_fixed_ip
  borrow_fixed_ip-Ends w ready = borrow_loop-Ends retry_max_count w ready

  no_borrower : (bs : List Container) → (length bs == 0) ≡ true → bs ≡ []
  no_borrower [] e = refl
  no_borrower (b ∷ bs) e = absurd (ground arith)

  return_got-Ends :
      (n : ℕ) (again : M (WorldOf net) (Unit {0})) (w u : WorldOf net) (c : IpInfoCodec)
      → Runs Returns n again
      → IsReady net laws ip w
      → GotRecord net laws ip w c u
      → Ends
          (λ _ w'. Within net laws ip Returns (suc n) w w')
          (Stopped net laws ip (suc n) w)
          (return_got net again container c u)
  return_got-Ends n again w u c ih ready ((i, m, st, same), h) =
      rw same (elim (Bool-cases (length (borrowers_of i.attrs) == 0)) [
        | inl unlent ↦ rw unlent (
            returns {w = u}
              (0, w, none_lost w, omega arith, (i, inr (m, st, no_borrower _ unlent, h.same_view))))
        | inr lent ↦ rw lent (
            swap-Within net laws ip Returns n again w u i (returned_by container i) m
              (IsReady-read net laws ip w u ready h) st h refl refl (λ w' d. (i, inl d)) ih)
      ])

  return_loop-Ends : (n : ℕ) → Runs Returns n (return_loop net n ip container)
  unfolding return_loop
  return_loop-Ends zero w ready = fails (exhausted refl (none_lost w))
  return_loop-Ends (suc n) w ready =
      >>=-Ends (get_fixed_ip net ip none)
        (return_got net (return_loop net n ip container) container) w
        (get_fixed_ip-Ends net laws ip w (IsOwn-ready net laws ip w ready))
        (λ c u g. return_got-Ends n _ w u c (return_loop-Ends n) ready g)
        (λ e u g. NotFound-Stopped net laws ip (suc n) w u e g)

  -- Where the record of an address is its own and the other clients keep it so, `ReturnFixedIP`
  -- loses fewer than three rounds and then takes the container off the borrowers that it read, by
  -- a swap, or reads that there is none; or it says why not, and that the retries are exhausted
  -- only after it has lost three rounds.
  pub return_fixed_ip-Ends :
      (w : WorldOf net)
      → IsReady net laws ip w
      → Ends
          (λ _ w'. Within net laws ip Returns retry_max_count w w')
          (Stopped net laws ip retry_max_count w)
          (return_fixed_ip net ip container w)
  unfolding return_fixed_ip
  return_fixed_ip-Ends w ready = return_loop-Ends retry_max_count w ready
