-- ===== src/Tests/Recon.antt =====
-- `updateNetworkStatus` and `doRecon` at work.
use bitcoin_controller.Base.{
  ◌≡◌, refl, String, ◌==◌, eq_iff, true, [], ◌∷◌, ◌++◌, some, pos, arith, ◌≢◌, All, if◌then◌else◌,
}
use bitcoin_controller.Apis.{Slice, nil_slice, slice, elements, BitcoinNetworkNode, BitcoinNetwork}
use bitcoin_controller.Kube.{Pod}
use bitcoin_controller.Client.{Error, Result, ok, err, foreign, Request}
use bitcoin_controller.Cluster.{Cluster}
use bitcoin_controller.Effects.{update_status, unlogged}
use bitcoin_controller.Secrets.{credentials_for_secret}
use bitcoin_controller.Controller.Status.{pod_name, node_of_pod, update_network_status}
use bitcoin_controller.Controller.Status.Ordinals.{IsNumbered, update_network_status-IsNumbered}
use bitcoin_controller.Controller.Status.Stable.{
  StableCache, Benign, expected_nodes, update_network_status-present,
  update_network_status-unreadable,
}
use bitcoin_controller.Controller.Connect.{with_credentials}
use bitcoin_controller.Controller.Connect.Rounds.{ready_at}
use bitcoin_controller.Controller.Recon.{do_recon}
use bitcoin_controller.Controller.Recon.Again.{stored, later, connecting, do_recon-again}
use bitcoin_controller.Controller.Recon.Own.{IsOwn}
use bitcoin_controller.Controller.Recon.Frame.{do_recon-IsOwn}
use bitcoin_controller.Controller.Recon.Outcome.{HasListers, DefaultsReplicas, do_recon-result}
use bitcoin_controller.Controller.Recon.Steady.{IsDeployed, adjustment, do_recon-deployed}
use bitcoin_controller.Controller.Recon.Mesh.{AcceptsSecret, do_recon-mesh}
use bitcoin_controller.Tests.Lab.{
  World, has, client, client-TracksPeers, cluster_of, cluster, cluster-RangesOnce, network,
  settled_network, set, service, pods, not_found, both_nodes,
}

abbrev pub stable : StableCache cluster "default" pods
stable = record { get = λ name w. (pods name, w); has_lister = refl; stable = λ name w. refl }

abbrev settled_stable : StableCache (cluster_of settled_network) "default" pods
settled_stable = record {
  get = λ name w. (pods name, w);
  has_lister = refl;
  stable = λ name w. refl;
}

-- What is not there is not found.
pods_missing : (name : String) (e : Error) → pods name ≡ err e → e ≡ not_found
pods_missing name e h = ground arith

pub pods-Benign : Benign cluster "default" "net-sts" "net-svc" pods stable 3
pods-Benign i e h p = rw (pods_missing (pod_name "net-sts" i) e p) refl

settled-Benign :
    Benign (cluster_of settled_network) "default" "net-sts" "net-svc" pods settled_stable 3
settled-Benign i e h p = rw (pods_missing (pod_name "net-sts" i) e p) refl

pub deployed : IsDeployed cluster network "default" "net" set (pos 2)
deployed = record {
  cached = λ w. refl;
  alive = refl;
  service = service;
  has_service = λ w. refl;
  has_set = λ w. refl;
  has_replicas = refl;
}

settled : IsDeployed (cluster_of settled_network) settled_network "default" "net" set (pos 2)
settled = record {
  cached = λ w. refl;
  alive = refl;
  service = service;
  has_service = λ w. refl;
  has_set = λ w. refl;
  has_replicas = refl;
}

expected_run : expected_nodes cluster network "net-sts" "net-svc" pods stable ≡ slice both_nodes
unfolding pod_name node_of_pod
expected_run = refl

update_network_status-present_example :
    ((update_network_status cluster network "net-sts" "net-svc" []).result
      ≡ some (expected_nodes cluster network "net-sts" "net-svc" pods stable))
    × (unlogged (update_network_status cluster network "net-sts" "net-svc" []).calls
        ≡ update_status "default" (record network {
          status = record {
            nodes = expected_nodes cluster network "net-sts" "net-svc" pods stable;
          };
        })
          ∷ [])
update_network_status-present_example =
    update_network_status-present cluster network "net-sts" "net-svc" pods stable [] pods-Benign

update_network_status-IsNumbered_example :
    (nodes : Slice BitcoinNetworkNode) × ((update_network_status cluster network "net-sts" "net-svc"
        []).result
      ≡ some nodes)
    × IsNumbered "net-svc" 0 3 (elements nodes)
update_network_status-IsNumbered_example =
    update_network_status-IsNumbered cluster network "net-sts" "net-svc" stable.get [] refl
      (omega arith)

-- A cache that fails on the second pod.
abbrev timeout : Error
timeout = foreign "Timeout" "timed out"

abbrev shaky_pods : String → Result Pod
shaky_pods name = if name == "net-sts-1" then err timeout else pods name

abbrev shaky : Cluster
shaky = record cluster { pods = λ ns. some (λ name w. (shaky_pods name, w)) }

abbrev shaky_stable : StableCache shaky "default" shaky_pods
shaky_stable = record {
  get = λ name w. (shaky_pods name, w);
  has_lister = refl;
  stable = λ name w. refl;
}

update_network_status-unreadable_example :
    ((update_network_status shaky network "net-sts" "net-svc" []).result ≡ some nil_slice)
    × (unlogged (update_network_status shaky network "net-sts" "net-svc" []).calls ≡ [])
unfolding pod_name
update_network_status-unreadable_example =
    update_network_status-unreadable shaky network "net-sts" "net-svc" shaky_pods shaky_stable [] 1
      timeout (omega arith) refl refl

pub listers : HasListers cluster
listers = record { lister = λ ns. (stable.get, refl) }

pub replicas : DefaultsReplicas cluster
replicas = record {
  cached = λ ns name w sts e h. ground arith;
  created = λ ns sent w sts e h. ground arith;
}

do_recon-result_example : (do_recon cluster client "default/net" []).result ≡ some true
do_recon-result_example = do_recon-result cluster client listers replicas "default/net" []

do_recon-deployed_example :
    ((do_recon (cluster_of settled_network) client "default/net" []).result ≡ some true)
    × (unlogged (do_recon (cluster_of settled_network) client "default/net" []).calls
        ≡ adjustment settled_network set (pos 2) ++ update_status "default" settled_network ∷ [])
unfolding pod_name node_of_pod
do_recon-deployed_example =
    do_recon-deployed (cluster_of settled_network) client settled_network "default/net" "default"
      "net" set (pos 2) pods settled_stable [] refl settled settled-Benign refl

pub fresh_nodes :
    network.status.nodes ≢ expected_nodes cluster network "net-sts" "net-svc" pods stable
unfolding pod_name node_of_pod
fresh_nodes e = cc

accepts_secret :
    AcceptsSecret cluster client client-TracksPeers cluster-RangesOnce network
      (elements (expected_nodes cluster network "net-sts" "net-svc" pods stable))
unfolding credentials_for_secret with_credentials
accepts_secret w cred ip got r = ground arith

do_recon-mesh_example :
    ((do_recon cluster client "default/net" []).result ≡ some true)
    × (has (do_recon cluster client "default/net" []).world "10.0.0.1" "10.0.0.3"
        ≡ ready_at both_nodes "10.0.0.3")
unfolding pod_name node_of_pod ready_at
do_recon-mesh_example =
    do_recon-mesh cluster client client-TracksPeers cluster-RangesOnce network "default/net"
      "default" "net" set (pos 2) pods stable [] "10.0.0.1" "10.0.0.3" refl deployed pods-Benign
      fresh_nodes accepts_secret refl (λ e. ground (arith, eq_iff "10.0.0.3" "10.0.0.1"))

do_recon-IsOwn_example :
    All (IsOwn cluster network "default" "net") (do_recon cluster client "default/net" []).calls
do_recon-IsOwn_example =
    do_recon-IsOwn cluster network "default" "net" client "default/net" [] refl refl refl

-- The second run, with the stored node list in the cache.
abbrev found_network : String → String → Request World BitcoinNetwork
found_network ns name w =
    (if name == "net" then ok (stored cluster network "net" pods stable) else err not_found, w)

found_again :
    IsDeployed
      (later cluster network "net" pods stable found_network cluster.get_stateful_set)
      (stored cluster network "net" pods stable)
      "default"
      "net"
      set
      (pos 2)
found_again = record {
  cached = λ w. refl;
  alive = refl;
  service = service;
  has_service = λ w. refl;
  has_set = λ w. refl;
  has_replicas = refl;
}

do_recon-again_example :
    let after_it = later cluster network "net" pods stable found_network cluster.get_stateful_set in
    let second = do_recon after_it client "default/net" [] in
    ((u : World) × (unlogged (do_recon cluster client "default/net" []).calls
        ≡ adjustment network set (pos 2)
          ++ (update_status "default" (stored cluster network "net" pods stable)
              ∷ connecting cluster network "net" pods stable client pods-Benign u)))
    × (second.result ≡ some true)
    × (unlogged second.calls
        ≡ adjustment (stored cluster network "net" pods stable) set (pos 2)
          ++ update_status "default" (stored cluster network "net" pods stable) ∷ [])
do_recon-again_example =
    do_recon-again cluster network "net" pods stable client pods-Benign found_network
      cluster.get_stateful_set "default/net" "default" set set (pos 2) (pos 2) [] [] refl deployed
      found_again
