-- ===== src/Vessel/Agent/Pollers.antt =====
-- `pollers`: the pending endpoint updates, at most one for each endpoint.
pub mod Laws
use barrel.Prelude.{
  ℕ, suc, ◌-◌, ◌+◌, Bool, true, false, not, ◌&&◌, ◌||◌, List, [], ◌∷◌, Option, none, some, String,
  string_eq, ◌==◌, if◌then◌else◌, keep, ltb,
}
use barrel.Types.{Result, ok, err}

-- `endpointUpdatePoller`; the time is a number.
pub record Poller : Type 0 where
  pub network_id : String
  pub endpoint_id : String
  pub add : Bool
  pub timeout : ℕ

-- `isTimeout`
abbrev pub is_timeout : Poller → ℕ → Bool
is_timeout p now = ltb p.timeout now

-- `pollers`. The map from networks to maps from endpoints is a list of its values: each stands under
-- its own network and endpoint.
pub record Pollers : Type 0 where
  pub size : ℕ
  pub entries : List Poller

abbrev pub new_pollers : Pollers
new_pollers = record { size = 0; entries = [] }

abbrev pub stands_at : String → String → Poller → Bool
stands_at network endpoint p = (p.network_id == network) && (p.endpoint_id == endpoint)

abbrev pub find : String → String → List Poller → Option Poller
find network endpoint [] = none
find network endpoint (p ∷ ps) =
    if stands_at network endpoint p then some p else find network endpoint ps

abbrev pub delete : String → String → List Poller → List Poller
delete network endpoint = keep (λ p. not (stands_at network endpoint p))

-- What `newPoller` does, given the poller that stands at the endpoint. Where the size is lowered an
-- entry is deleted, so that it is not 0.
abbrev pub placed : Pollers → Poller → Option Poller → Pollers
placed ps p none = record { size = suc ps.size; entries = p ∷ ps.entries }
placed ps p (some prev) =
    if prev.add && not p.add
    then record { size = ps.size - 1; entries = delete p.network_id p.endpoint_id ps.entries }
    else ps

-- `newPoller`
unfoldable pub new_poller : Pollers → Poller → Pollers
new_poller ps p = placed ps p (find p.network_id p.endpoint_id ps.entries)

-- The answer of an event on a poller says whether the poller is done.
abbrev pub is_over : Poller → ℕ → Result Bool → Bool
is_over p now (err e) = false
is_over p now (ok matched) = matched || is_timeout p now

module _ {S : Type 0} (event : S → Poller → Result Bool × S) (now : ℕ) where
  -- The loop of `match`: the pollers that stay, how many were deleted, and the event's state.
  unfoldable pub match_loop : S → List Poller → List Poller × (ℕ × S)
  match_loop s [] = ([], (0, s))
  match_loop s (p ∷ ps) =
      let (r, s') = event s p in
      let (left, (deleted, s'')) = match_loop s' ps in
      if is_over p now r then (left, (suc deleted, s'')) else (p ∷ left, (deleted, s''))

  -- `match`
  unfoldable pub match : Pollers → S → Pollers × S
  unfolding match_loop
  match ps s =
      let (left, (deleted, s')) = match_loop s ps.entries in
      (record { size = ps.size - deleted; entries = left }, s')
