-- ===== src/Generated/Rest/Sent.antt =====
-- What a request says of the method that sent it.
use mathlib.Core.Option.{some-injective}
use bitcoin_controller.Base.{◌≡◌, refl, ap, sym, ◌∙◌, String, List, [], ◌∷◌, Option, none, some}
use bitcoin_controller.Generated.Rest.{
  Verb, get_verb, post_verb, put_verb, delete_verb, patch_verb, Body, network_body, options_body,
  bytes_body, RestRequest, Method, get_network, create_network, update_network,
  update_network_status, delete_network, patch_network, request_of,
}

module _ {GetOptions DeleteOptions : Type 0} where
  read_put : List String → Body GetOptions DeleteOptions → Option (Method GetOptions DeleteOptions)
  read_put [] (network_body n) = some (update_network n)
  read_put (_ ∷ _) (network_body n) = some (update_network_status n)
  read_put _ _ = none

  read_named :
      Option String
      → Verb
      → RestRequest GetOptions DeleteOptions
      → Option (Method GetOptions DeleteOptions)
  read_named _ put_verb r = read_put r.subresources r.body
  read_named _ post_verb r = elim r.body [ network_body n ↦ some (create_network n) | _ ↦ none ]
  read_named (some name) get_verb r = elim r.params [
    | some options ↦ some (get_network name options)
    | none ↦ none
  ]
  read_named (some name) delete_verb r = elim r.body [
    | options_body o ↦ some (delete_network name o)
    | _ ↦ none
  ]
  read_named (some name) (patch_verb type) r = elim r.body [
    | bytes_body b ↦ some (patch_network name type b r.subresources)
    | _ ↦ none
  ]
  read_named none _ r = none

  -- The method, by the verb, the name, the subresources and the body of a request.
  unfoldable pub method_of :
      RestRequest GetOptions DeleteOptions → Option (Method GetOptions DeleteOptions)
  unfolding read_put read_named
  method_of r = read_named r.name r.verb r

  method_of-request_of :
      (ns : String) (m : Method GetOptions DeleteOptions) → method_of (request_of ns m) ≡ some m
  unfolding method_of request_of
  method_of-request_of ns (get_network name options) = refl
  method_of-request_of ns (create_network network) = refl
  method_of-request_of ns (update_network network) = refl
  method_of-request_of ns (update_network_status network) = refl
  method_of-request_of ns (delete_network name options) = refl
  method_of-request_of ns (patch_network name type data_bytes subresources) = refl

  request_of-namespace :
      (ns : String) (m : Method GetOptions DeleteOptions) → (request_of ns m).namespace ≡ ns
  unfolding request_of
  request_of-namespace ns (get_network name options) = refl
  request_of-namespace ns (create_network network) = refl
  request_of-namespace ns (update_network network) = refl
  request_of-namespace ns (update_network_status network) = refl
  request_of-namespace ns (delete_network name options) = refl
  request_of-namespace ns (patch_network name type data_bytes subresources) = refl

  -- Two calls on single networks that send the same request are the same call, in the same
  -- namespace: in particular an update of the status is never taken for an update.
  pub request_of-inj :
      (ns ms : String) (m n : Method GetOptions DeleteOptions)
      → request_of ns m ≡ request_of ms n
      → (ns ≡ ms) × (m ≡ n)
  request_of-inj ns ms m n e = (
    sym (request_of-namespace ns m) ∙ (ap (λ r. r.namespace) e ∙ request_of-namespace ms n),
    some-injective m n
        (sym (method_of-request_of ns m) ∙ (ap method_of e ∙ method_of-request_of ms n)),
  )
