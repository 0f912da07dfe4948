-- ===== src/Tests/Created.antt =====
-- A new network, and the controller as `NewController` makes it.
use bitcoin_controller.Base.{◌≡◌, refl, pos, String, true, [], ◌∷◌, ◌++◌, map, some, arith, ◌<>◌}
use bitcoin_controller.Kube.{Pod}
use bitcoin_controller.Client.{Error, Result, err, foreign}
use bitcoin_controller.Cluster.{Cluster}
use bitcoin_controller.Effects.{update_status, unlogged}
use bitcoin_controller.Controller.Create.{new_stateful_set, new_headless_service, secret_source}
use bitcoin_controller.Controller.Create.Fit.{Fits, new_stateful_set-Fits}
use bitcoin_controller.Controller.Status.{node_of_pod}
use bitcoin_controller.Controller.Status.Stable.{StableCache, Benign, expected_nodes}
use bitcoin_controller.Controller.Recon.{do_recon}
use bitcoin_controller.Controller.Recon.Steady.{adjustment}
use bitcoin_controller.Controller.Recon.Created.{
  sent_service, sent_set, creation, IsNew, do_recon-created,
}
use bitcoin_controller.Controller.Setup.{Controller, pods}
use bitcoin_controller.Tests.Lab.{client, cluster, network, not_found, pod}

abbrev service_missing : Error
service_missing = foreign "NotFound" "service net-svc not found"

abbrev set_missing : Error
set_missing = foreign "NotFound" "statefulset net-sts not found"

-- The caches have nothing but the network, and the API server returns what it is sent.
abbrev nothing : String → Result Pod
nothing name = err not_found

abbrev bare : Cluster
bare = record cluster {
  get_service = λ ns name w. (err service_missing, w);
  get_stateful_set = λ ns name w. (err set_missing, w);
  create_stateful_set = λ ns s w. (Result.ok s, w);
  pods = λ ns. some (λ name w. (nothing name, w));
}

bare_stable : StableCache bare "default" nothing
bare_stable = record {
  get = λ name w. (nothing name, w);
  has_lister = refl;
  stable = λ name w. refl;
}

bare-Benign : Benign bare "default" "net-sts" "net-svc" nothing bare_stable 3
bare-Benign i e h p = ground arith

bare-IsNew : IsNew bare network "net" "default" (sent_set bare network "net") (pos 3)
unfolding new_stateful_set
bare-IsNew = record {
  cached = λ w. refl;
  alive = refl;
  missing_service = service_missing;
  missing_set = set_missing;
  service_not_found = refl;
  set_not_found = refl;
  no_service = λ w. refl;
  no_set = λ w. refl;
  stored_service = sent_service bare network "net";
  takes_service = λ w. refl;
  takes_set = λ w. refl;
  has_replicas = refl;
}

no_nodes :
    network.status.nodes ≡ expected_nodes bare network "net-sts" "net-svc" nothing bare_stable
no_nodes = refl

do_recon-created_example :
    ((do_recon bare client "default/net" []).result ≡ some true)
    × (unlogged (do_recon bare client "default/net" []).calls
        ≡ creation bare network "net"
          ++ (adjustment network (sent_set bare network "net") (pos 3)
              ++ update_status "default" network ∷ []))
do_recon-created_example =
    do_recon-created bare network "net" "default" (sent_set bare network "net") (pos 3) bare-IsNew
      client "default/net" nothing bare_stable [] refl bare-Benign no_nodes

new_stateful_set-Fits_example :
    let service = new_headless_service cluster network "net-svc" in
    let set = new_stateful_set cluster network "net-sts" "net-svc" in
    Fits service set
    × (set.spec.replicas ≡ some (pos 3))
    × (map (λ c. c.env_from) set.spec.template.containers ≡ (secret_source "keys" ∷ []) ∷ [])
    × ((node_of_pod 0 "net-svc" (pod "net-sts-0" "10.0.0.1")).dns_name
        ≡ "net-sts-0" <> "." <> service.meta.name)
new_stateful_set-Fits_example =
    new_stateful_set-Fits cluster network "net-sts" "net-svc" 0 (pod "net-sts-0" "10.0.0.1")
