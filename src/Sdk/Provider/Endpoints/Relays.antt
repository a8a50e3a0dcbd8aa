-- ===== src/Sdk/Provider/Endpoints/Relays.antt =====
-- When a method that only reads is relayed to the wallet, and how many endpoints are asked.
use walletpair.Json.{Json}
use walletpair.Common.{
  ◌≢◌, ℕ, zero, suc, ◌≤◌, ◌≡◌, ◌↔◌, refl, arith, String, Bool, true, false, ◌&&◌, Option, none,
  some, List, [], ◌∷◌, every, length, take, Bool-cases, inl, inr,
}
use walletpair.Sdk.Provider.Endpoints.{
  keep, kept_from, kept_after, Reply, result, failed, Outcome, answered, rethrown, unavailable,
  is_transient, try_next, json_rpc_fetch_failover, ChainUrls, prefer, from_service, fetched_urls,
  add_each, resolve_endpoints, by_wallet, serve_from, serve_read_only, unless_unavailable,
  max_rpc_failover_endpoints,
}

-- An error that another endpoint may not give.
abbrev pub gives_up : Reply → Bool
gives_up (result v) = false
gives_up (failed none) = true
gives_up (failed (some code)) = is_transient code

length-take : (n : ℕ) (xs : List String) → length (take n xs) ≤ n
length-take zero xs = omega arith
length-take (suc n) [] = omega arith
length-take (suc n) (x ∷ xs) = omega (arith, length-take n xs)

pub length-resolve_endpoints :
    (c : ChainUrls) → length (resolve_endpoints c) ≤ max_rpc_failover_endpoints
unfolding resolve_endpoints
length-resolve_endpoints c =
    go (add_each (add_each [] c.static_urls) c.wallet_urls) c.kept c.asks_service
  where
    go :
        (us : List String) (kept : Option (List String)) (asks : Bool)
        → length (prefer us (from_service kept asks c.service)) ≤ 4
    go (u ∷ us) kept asks = length-take 4 (u ∷ us)
    go [] (some urls) asks = length-take 4 urls
    go [] none true = length-take 4 (fetched_urls c.service)
    go [] none false = omega arith

-- Endpoints that were found are found again, whatever the service says then.
resolve_endpoints-kept :
    (c : ChainUrls) (later : Option Json)
    → resolve_endpoints c ≢ []
    → resolve_endpoints (record c { kept = kept_after c; service = later }) ≡ resolve_endpoints c
unfolding resolve_endpoints kept_after
resolve_endpoints-kept c later found =
    go (add_each (add_each [] c.static_urls) c.wallet_urls) c.kept c.asks_service found
  where
    fetched : (us : List String) → take 4 us ≢ [] → from_service (keep us) true later ≡ take 4 us
    fetched [] h = absurd (h refl)
    fetched (u ∷ us) h = refl

    go :
        (us : List String) (kept : Option (List String)) (asks : Bool)
        → prefer us (from_service kept asks c.service) ≢ []
        → prefer us (from_service (kept_from us kept asks c.service) asks later)
          ≡ prefer us (from_service kept asks c.service)
    go (u ∷ us) kept asks h = refl
    go [] (some urls) asks h = refl
    go [] none true h = fetched (fetched_urls c.service) h
    go [] none false h = absurd (h refl)

module _ (call : String → Reply) where
  failover-unavailable :
      (us : List String)
      → ((json_rpc_fetch_failover call us).0 ≡ unavailable)
        ↔ (every (λ u. gives_up (call u)) us ≡ true)
  unfolding json_rpc_fetch_failover
  failover-unavailable [] = (λ e. refl, λ e. refl)
  failover-unavailable (u ∷ us) =
      go (call u) (json_rpc_fetch_failover call us) (failover-unavailable us)
    where
      go :
          (r : Reply) (rest : Outcome × List String)
          → (rest.0 ≡ unavailable) ↔ (every (λ x. gives_up (call x)) us ≡ true)
          → ((try_next call r u rest).0 ≡ unavailable)
            ↔ ((gives_up r && every (λ x. gives_up (call x)) us) ≡ true)
      go (result v) rest h = (λ e. cc, λ e. cc)
      go (failed none) (o, urls) h = h
      go (failed (some code)) (o, urls) h = elim (Bool-cases (is_transient code)) [
        | inl e ↦ rw e h
        | inr e ↦ rw e ((λ f. cc), (λ f. cc))
      ]

  -- Without an RPC provider, a method that only reads is relayed to the wallet exactly if every
  -- endpoint of the chain fails with an error that has no numeric code or a transient one; and
  -- there are at most four endpoints.
  pub read_only_relayed_iff :
      (c : ChainUrls)
      → ((serve_read_only false call c ≡ by_wallet)
          ↔ (every (λ u. gives_up (call u)) (resolve_endpoints c) ≡ true))
        × (length (resolve_endpoints c) ≤ max_rpc_failover_endpoints)
  unfolding serve_read_only
  read_only_relayed_iff c = (go (resolve_endpoints c), length-resolve_endpoints c)
    where
      plain : (o : Outcome) → (unless_unavailable o ≡ by_wallet) ↔ (o ≡ unavailable)
      plain (answered v) = (λ e. cc, λ e. cc)
      plain (rethrown code) = (λ e. cc, λ e. cc)
      plain unavailable = (λ e. refl, λ e. refl)

      go :
          (us : List String)
          → (serve_from call us ≡ by_wallet) ↔ (every (λ u. gives_up (call u)) us ≡ true)
      go [] = (λ e. refl, λ e. refl)
      go (u ∷ us) =
          let p = plain (json_rpc_fetch_failover call (u ∷ us)).0 in
          let q = failover-unavailable (u ∷ us) in (λ e. q.0 (p.0 e), λ e. p.1 (q.1 e))
