-- ===== src/Generated/Clientset/OrDie.antt =====
-- The two ways to make the clients from a configuration, and what they have in common.
use bitcoin_controller.Base.{
  ◌≡◌, refl, ap, sym, ◌∙◌, true, false, Option, none, some, arith, Bool-cases, inl, inr, ◌⊎◌,
}
use bitcoin_controller.Client.{Result, ok, err}
use bitcoin_controller.Generated.Clientset.{
  RestLibrary, ConfigOf, Clientset, set_config_defaults, v1_new_for_config,
  v1_new_for_config_or_die, with_rate_limiter, make_clients, new_for_config, new_for_config_or_die,
}

-- A result whose error is a panic.
abbrev pub or_die : {A : Type 0} → Result A → Option A
or_die (ok a) = some a
or_die (err e) = none

module _ {W : Type 0} (L : RestLibrary W) where
  -- Both clients are made with the same configuration: the given one, if it has a rate limiter or no
  -- positive rate, and otherwise the given one with a new limiter.
  pub record Shares (c : ConfigOf L) (w w' : W) (made : Clientset L) : Type 0 where
    pub config : ConfigOf L
    pub made_client :
        L.rest_client_for (set_config_defaults L config) ≡ ok made.bitcoincontroller_v1
    pub made_discovery : L.new_discovery_client_for_config config ≡ ok made.discovery_client
    pub limiter :
        ((config ≡ c)
          × (w' ≡ w)
          × (((l : L.Limiter) × (c.rate_limiter ≡ some l)) ⊎ (L.is_positive c.qps ≡ false)))
        ⊎ ((c.rate_limiter ≡ none)
            × (L.is_positive c.qps ≡ true)
            × (config ≡ record c {
              rate_limiter = some (L.new_token_bucket_rate_limiter c.qps c.burst w).0;
            })
            × (w' ≡ (L.new_token_bucket_rate_limiter c.qps c.burst w).1))

  -- The configuration and the world after the limiter has been seen to.
  data Limits (c : ConfigOf L) (w : W) (r : ConfigOf L × W) : Type 0 where
    as_given :
        r ≡ (c, w)
        → ((l : L.Limiter) × (c.rate_limiter ≡ some l)) ⊎ (L.is_positive c.qps ≡ false)
        → Limits c w r
    new_limiter :
        c.rate_limiter ≡ none
        → L.is_positive c.qps ≡ true
        → r ≡ (
          record c { rate_limiter = some (L.new_token_bucket_rate_limiter c.qps c.burst w).0 },
          (L.new_token_bucket_rate_limiter c.qps c.burst w).1,
        )
        → Limits c w r

  with_rate_limiter-Limits : (c : ConfigOf L) (w : W) → Limits c w (with_rate_limiter L c w)
  unfolding with_rate_limiter
  with_rate_limiter-Limits c w = by_limiter c.rate_limiter refl (Bool-cases (L.is_positive c.qps))
    where
      by_limiter :
          (l : Option L.Limiter)
          → c.rate_limiter ≡ l
          → (L.is_positive c.qps ≡ true) ⊎ (L.is_positive c.qps ≡ false)
          → Limits c w (with_rate_limiter L c w)
      by_limiter (some l) e q = as_given (ground (arith, e)) (inl (l, e))
      by_limiter none e (inl t) = new_limiter e t (ground (arith, e, t))
      by_limiter none e (inr f) = as_given (ground (arith, e, f)) (inr f)

  make_clients-made :
      (config : ConfigOf L) (made : Clientset L)
      → make_clients L config ≡ ok made
      → (L.rest_client_for (set_config_defaults L config) ≡ ok made.bitcoincontroller_v1)
        × (L.new_discovery_client_for_config config ≡ ok made.discovery_client)
  unfolding make_clients v1_new_for_config
  make_clients-made config made e =
      by_client (L.rest_client_for (set_config_defaults L config)) refl
    where
      Made : Type 0
      Made =
          (L.rest_client_for (set_config_defaults L config) ≡ ok made.bitcoincontroller_v1)
          × (L.new_discovery_client_for_config config ≡ ok made.discovery_client)

      by_discovery :
          (client : L.RestClient)
          → L.rest_client_for (set_config_defaults L config) ≡ ok client
          → (r : Result L.DiscoveryClient) → L.new_discovery_client_for_config config ≡ r
          → Made
      by_discovery client f (ok d) g = ground (arith, e, f, g)
      by_discovery client f (err x) g = ground (arith, e, f, g)

      by_client :
          (r : Result L.RestClient) → L.rest_client_for (set_config_defaults L config) ≡ r → Made
      by_client (ok client) f =
          by_discovery client f (L.new_discovery_client_for_config config) refl
      by_client (err x) f = ground (arith, e, f)

  -- The clients that `NewForConfig` returns without an error are made with the same configuration,
  -- which is the given one but for the rate limiter: if none is given and the rate is positive, that
  -- is one new limiter for both clients, with the rate and the burst of the configuration; in every
  -- other case the configuration is the given one, and no limiter is made.
  pub new_for_config-Shares :
      (c : ConfigOf L) (w : W) (made : Clientset L)
      → (new_for_config L c w).0 ≡ ok made
      → Shares c w (new_for_config L c w).1 made
  unfolding new_for_config
  new_for_config-Shares c w made e =
      let r = with_rate_limiter L c w in
      let clients = make_clients-made r.0 made e in
      elim (with_rate_limiter-Limits c w) [
        | as_given f k ↦ record {
          config = r.0;
          made_client = clients.0;
          made_discovery = clients.1;
          limiter = inl (ap (λ x. x.0) f, ap (λ x. x.1) f, k);
        }
        | new_limiter f g h ↦ record {
          config = r.0;
          made_client = clients.0;
          made_discovery = clients.1;
          limiter = inr (f, g, ap (λ x. x.0) h, ap (λ x. x.1) h);
        }
      ]

  or_die-make_clients :
      ((c : ConfigOf L)
        → L.new_discovery_client_for_config_or_die c ≡ or_die (L.new_discovery_client_for_config c))
      → (c : ConfigOf L) → new_for_config_or_die L c ≡ or_die (make_clients L c)
  unfolding make_clients new_for_config_or_die v1_new_for_config_or_die
  or_die-make_clients h c = by_client (v1_new_for_config L c) refl
    where
      Agrees : Type 0
      Agrees = new_for_config_or_die L c ≡ or_die (make_clients L c)

      by_discovery :
          (client : L.RestClient)
          → v1_new_for_config L c ≡ ok client
          → (r : Result L.DiscoveryClient) → L.new_discovery_client_for_config c ≡ r
          → Agrees
      by_discovery client f (ok d) g = ground (arith, h c, f, g)
      by_discovery client f (err x) g = ground (arith, h c, f, g)

      by_client : (r : Result L.RestClient) → v1_new_for_config L c ≡ r → Agrees
      by_client (ok client) f = by_discovery client f (L.new_discovery_client_for_config c) refl
      by_client (err x) f = ground (arith, f)

  -- `NewForConfigOrDie` returns what `NewForConfig` does, with a panic in place of an error, for a
  -- configuration with a rate limiter or without a positive rate, if the discovery package does so;
  -- and in this case `NewForConfig` makes no rate limiter.
  new_for_config_or_die-agrees :
      ((c : ConfigOf L)
        → L.new_discovery_client_for_config_or_die c ≡ or_die (L.new_discovery_client_for_config c))
      → (c : ConfigOf L) (w : W) → (c.rate_limiter ≡ none → L.is_positive c.qps ≡ false)
      → (new_for_config_or_die L c ≡ or_die (new_for_config L c w).0)
        × ((new_for_config L c w).1 ≡ w)
  unfolding new_for_config
  new_for_config_or_die-agrees h c w l = elim (with_rate_limiter-Limits c w) [
    | as_given f m ↦
        (or_die-make_clients h c ∙ ap (λ x. or_die (make_clients L x.0)) (sym f), ap (λ x. x.1) f)
    | new_limiter f g k ↦ let none_positive = l f in absurd (ground arith)
  ]
