-- ===== src/Generated/Rest.antt =====
-- internal/generated/clientset/versioned/typed/bitcoincontroller/v1/bitcoinnetwork.go: the requests
-- that the typed client builds. The options for single networks are those of apimachinery.
pub mod Sent
pub mod Timeout
use bitcoin_controller.Base.{
  String, List, [], ◌∷◌, Option, none, some, ℕ, suc, ◌*◌, ◌-◌, ◌%◌, ℤ, pos, negsuc, ltb, true,
  if◌then◌else◌,
}
use bitcoin_controller.Kube.{ListOptions}
use bitcoin_controller.Apis.{BitcoinNetwork}

pub data Verb : Type 0 where
  get_verb post_verb put_verb delete_verb : Verb
  patch_verb : String → Verb

-- The `int64` with this residue modulo 2 ^ 64.
abbrev pub int64_of : ℕ → ℤ
int64_of r = if ltb r 9223372036854775808 then pos r else negsuc (18446744073709551615 - r)

-- `time.Duration(seconds) * time.Second`, on 64 bits
abbrev pub seconds_to_duration : ℤ → ℤ
seconds_to_duration (pos n) = int64_of (n * 1000000000 % 18446744073709551616)
seconds_to_duration (negsuc n) =
    int64_of
      ((18446744073709551616 - suc n * 1000000000 % 18446744073709551616) % 18446744073709551616)

-- `timeout`, which is 0 if there are no `TimeoutSeconds`.
abbrev pub timeout_of : Option ℤ → ℤ
timeout_of none = pos 0
timeout_of (some seconds) = seconds_to_duration seconds

module _ (GetOptions DeleteOptions : Type 0) where
  pub data Body : Type 0 where
    no_body : Body
    network_body : BitcoinNetwork → Body
    options_body : Option DeleteOptions → Body
    bytes_body : String → Body

  -- What the methods of a `rest.Request` have collected when `Do` is called.
  pub record RestRequest : Type 0 where
    pub verb : Verb
    pub namespace : String
    pub resource : String
    pub name : Option String
    pub subresources : List String
    pub params : Option GetOptions
    pub list_params : Option ListOptions
    -- The argument of `Timeout`
    pub timeout : Option ℤ
    pub body : Body

  -- The methods of `BitcoinNetworkInterface` for single networks, with their arguments.
  pub data Method : Type 0 where
    get_network : String → GetOptions → Method
    create_network : BitcoinNetwork → Method
    update_network : BitcoinNetwork → Method
    update_network_status : BitcoinNetwork → Method
    delete_network : String → Option DeleteOptions → Method
    patch_network : String → String → String → List String → Method

module _ {GetOptions DeleteOptions : Type 0} where
  -- `c.client.Verb().Namespace(c.ns).Resource("bitcoinnetworks")`
  abbrev pub request_to : Verb → String → RestRequest GetOptions DeleteOptions
  request_to verb ns = record {
    verb = verb;
    namespace = ns;
    resource = "bitcoinnetworks";
    name = none;
    subresources = [];
    params = none;
    list_params = none;
    timeout = none;
    body = no_body;
  }

  unfoldable pub get_request : String → String → GetOptions → RestRequest GetOptions DeleteOptions
  get_request ns name options = record (request_to get_verb ns) {
    name = some name;
    params = some options;
  }

  unfoldable pub create_request : String → BitcoinNetwork → RestRequest GetOptions DeleteOptions
  create_request ns network = record (request_to post_verb ns) { body = network_body network }

  unfoldable pub update_request : String → BitcoinNetwork → RestRequest GetOptions DeleteOptions
  update_request ns network = record (request_to put_verb ns) {
    name = some network.meta.name;
    body = network_body network;
  }

  unfoldable pub update_status_request :
      String → BitcoinNetwork → RestRequest GetOptions DeleteOptions
  update_status_request ns network = record (request_to put_verb ns) {
    name = some network.meta.name;
    subresources = "status" ∷ [];
    body = network_body network;
  }

  unfoldable pub delete_request :
      String → String → Option DeleteOptions → RestRequest GetOptions DeleteOptions
  delete_request ns name options = record (request_to delete_verb ns) {
    name = some name;
    body = options_body options;
  }

  unfoldable pub patch_request :
      String → String → String → String → List String → RestRequest GetOptions DeleteOptions
  patch_request ns name type data_bytes subresources = record (request_to (patch_verb type) ns) {
    subresources = subresources;
    name = some name;
    body = bytes_body data_bytes;
  }

  unfoldable pub list_request : String → ListOptions → RestRequest GetOptions DeleteOptions
  list_request ns opts = record (request_to get_verb ns) {
    list_params = some opts;
    timeout = some (timeout_of opts.timeout_seconds);
  }

  unfoldable pub watch_request : String → ListOptions → RestRequest GetOptions DeleteOptions
  watch_request ns opts = record (request_to get_verb ns) {
    list_params = some (record opts { watch = true });
    timeout = some (timeout_of opts.timeout_seconds);
  }

  unfoldable pub delete_collection_request :
      String → Option DeleteOptions → ListOptions → RestRequest GetOptions DeleteOptions
  delete_collection_request ns options list_options = record (request_to delete_verb ns) {
    list_params = some list_options;
    timeout = some (timeout_of list_options.timeout_seconds);
    body = options_body options;
  }

  unfoldable pub request_of :
      String → Method GetOptions DeleteOptions → RestRequest GetOptions DeleteOptions
  unfolding get_request create_request update_request update_status_request delete_request
      patch_request
  request_of ns (get_network name options) = get_request ns name options
  request_of ns (create_network network) = create_request ns network
  request_of ns (update_network network) = update_request ns network
  request_of ns (update_network_status network) = update_status_request ns network
  request_of ns (delete_network name options) = delete_request ns name options
  request_of ns (patch_network name type data_bytes subresources) =
      patch_request ns name type data_bytes subresources
