-- ===== src/Generated/Clientset.antt =====
-- internal/generated/clientset/versioned/clientset.go and
-- internal/generated/clientset/versioned/typed/bitcoincontroller/v1/bitcoincontroller_client.go: how the
-- clients are made from a configuration. The packages rest, discovery and flowcontrol are a parameter.
pub mod OrDie
use bitcoin_controller.Base.{
  ℤ, String, ◌==◌, Bool, true, false, Option, none, some, ◌&&◌, if◌then◌else◌,
}
use bitcoin_controller.Apis.{scheme_group_version}
use bitcoin_controller.Kube.{GroupVersion}
use bitcoin_controller.Client.{Error, Result, ok, err}

-- `rest.Config`, with the fields that are not read or written here as `other`.
pub record RestConfig (Qps Limiter Serializer Other : Type 0) : Type 0 where
  pub group_version : Option GroupVersion
  pub api_path : String
  pub negotiated_serializer : Option Serializer
  pub user_agent : String
  pub qps : Qps
  pub burst : ℤ
  pub rate_limiter : Option Limiter
  pub other : Other

pub record RestLibrary (W : Type 0) : Type 1 where
  pub Qps : Type 0
  pub Limiter : Type 0
  pub Serializer : Type 0
  pub Other : Type 0
  pub RestClient : Type 0
  pub DiscoveryClient : Type 0
  -- `qps > 0`
  pub is_positive : Qps → Bool
  pub new_token_bucket_rate_limiter : Qps → ℤ → W → Limiter × W
  pub rest_client_for : RestConfig Qps Limiter Serializer Other → Result RestClient
  pub new_discovery_client_for_config :
      RestConfig Qps Limiter Serializer Other → Result DiscoveryClient
  -- `none` is a panic.
  pub new_discovery_client_for_config_or_die :
      RestConfig Qps Limiter Serializer Other → Option DiscoveryClient
  pub new_discovery_client : RestClient → DiscoveryClient
  pub default_kubernetes_user_agent : String
  -- `scheme.Codecs.WithoutConversion()`
  pub codecs : Serializer

module _ {W : Type 0} (L : RestLibrary W) where
  abbrev pub ConfigOf : Type 0
  ConfigOf = RestConfig L.Qps L.Limiter L.Serializer L.Other

  -- The embedded discovery client, and the client of the group.
  pub record Clientset : Type 0 where
    pub discovery_client : L.DiscoveryClient
    pub bitcoincontroller_v1 : L.RestClient

  -- Its error is always nil.
  unfoldable pub set_config_defaults : ConfigOf → ConfigOf
  set_config_defaults config = record config {
    group_version = some scheme_group_version;
    api_path = "/apis";
    negotiated_serializer = some L.codecs;
    user_agent =
        if config.user_agent == "" then L.default_kubernetes_user_agent else config.user_agent;
  }

  -- `NewForConfig` of the client of the group, which is its `restClient`.
  unfoldable pub v1_new_for_config : ConfigOf → Result L.RestClient
  unfolding set_config_defaults
  v1_new_for_config c = L.rest_client_for (set_config_defaults c)

  unfoldable pub v1_new_for_config_or_die : ConfigOf → Option L.RestClient
  unfolding v1_new_for_config
  v1_new_for_config_or_die c = elim (v1_new_for_config c) [ err e ↦ none | ok client ↦ some client ]

  abbrev is_nil : Option L.Limiter → Bool
  is_nil none = true
  is_nil (some l) = false

  -- `configShallowCopy`
  unfoldable pub with_rate_limiter : ConfigOf → W → ConfigOf × W
  with_rate_limiter c w =
      let (limiter, w') = L.new_token_bucket_rate_limiter c.qps c.burst w in
      if is_nil c.rate_limiter && L.is_positive c.qps
      then (record c { rate_limiter = some limiter }, w')
      else (c, w)

  -- Both clients, with the copy of the configuration.
  unfoldable pub make_clients : ConfigOf → Result Clientset
  unfolding v1_new_for_config
  make_clients config = elim (v1_new_for_config config) [
    | err e ↦ err e
    | ok client ↦ elim (L.new_discovery_client_for_config config) [
      | err e ↦ err e
      | ok discovery ↦ ok (record { discovery_client = discovery; bitcoincontroller_v1 = client })
    ]
  ]

  unfoldable pub new_for_config : ConfigOf → W → Result Clientset × W
  unfolding with_rate_limiter make_clients
  new_for_config c w = let (config, w') = with_rate_limiter c w in (make_clients config, w')

  -- `none` is a panic.
  unfoldable pub new_for_config_or_die : ConfigOf → Option Clientset
  unfolding v1_new_for_config_or_die
  new_for_config_or_die c = elim (v1_new_for_config_or_die c) [
    | none ↦ none
    | some client ↦ elim (L.new_discovery_client_for_config_or_die c) [
      | none ↦ none
      | some discovery ↦
          some (record { discovery_client = discovery; bitcoincontroller_v1 = client })
    ]
  ]

  unfoldable pub new_clientset : L.RestClient → Clientset
  new_clientset c = record { discovery_client = L.new_discovery_client c; bitcoincontroller_v1 = c }

  -- `Discovery()` and `RESTClient()`, of a nil pointer too.
  unfoldable pub discovery : Option Clientset → Option L.DiscoveryClient
  discovery none = none
  discovery (some c) = some c.discovery_client

  unfoldable pub rest_client : Option L.RestClient → Option L.RestClient
  rest_client none = none
  rest_client (some c) = some c
