-- ===== src/Proxy/Chain.antt =====
-- `ServeHTTP` of proxy/proxy.go: the first handler that does not pass a request on answers it.
use barrel.Prelude.{Bool, true, false, List, [], ◌∷◌, ◌++◌, ◌≡◌, refl, if◌then◌else◌}
use barrel.Types.{Result, ok, err}
use barrel.Method.{M, pure, ◌>>=◌}
use barrel.Proxy.Daemon.{Request}
use barrel.Proxy.Connect.{Answer, passed_on, forwarded}

-- `RequestHandler`
abbrev pub Handler : Type 0 → Type 0
Handler S = Request → M S Answer

abbrev pub is_passed : Answer → Bool
is_passed passed_on = true
is_passed (forwarded resp) = false

module _ {S : Type 0} where
  abbrev pub or_next : M S Answer → Answer → M S Answer
  or_next next a = if is_passed a then next else pure a

  -- `ServeHTTP`; `proxy` forwards what no handler has answered.
  unfoldable pub serve_http : List (Handler S) → Handler S → Handler S
  serve_http [] proxy req = proxy req
  serve_http (h ∷ hs) proxy req = h req >>= or_next (serve_http hs proxy req)

  continued :
      (m n : M S Answer) (r : Result Answer) (w : S)
      → ((u : S) → m u ≡ n u)
      → ((λ _. (r, w)) >>= or_next m) w ≡ ((λ _. (r, w)) >>= or_next n) w
  continued m n (ok passed_on) w e = e w
  continued m n (ok (forwarded resp)) w e = refl
  continued m n (err d) w e = refl

  -- The later handlers stand to the earlier ones as the proxy does.
  pub serve_http-++ :
      (hs ks : List (Handler S)) (proxy : Handler S) (req : Request) (w : S)
      → serve_http (hs ++ ks) proxy req w ≡ serve_http hs (serve_http ks proxy) req w
  unfolding serve_http
  serve_http-++ [] ks proxy req w = refl
  serve_http-++ (h ∷ hs) ks proxy req w =
      continued (serve_http (hs ++ ks) proxy req) (serve_http hs (serve_http ks proxy) req)
        (h req w).0 (h req w).1 (serve_http-++ hs ks proxy req)
