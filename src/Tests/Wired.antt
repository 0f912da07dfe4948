-- ===== src/Tests/Wired.antt =====
-- The controller as it is made, with daemons on the level of HTTP.
use bitcoin_controller.Base.{◌≡◌, refl, pos, true, some, none, [], arith, eq_iff}
use bitcoin_controller.Apis.{elements}
use bitcoin_controller.Secrets.{credentials_for_secret}
use bitcoin_controller.Client.Impl.{new_client_for_config}
use bitcoin_controller.Controller.Status.{pod_name, node_of_pod}
use bitcoin_controller.Controller.Status.Stable.{expected_nodes}
use bitcoin_controller.Controller.Connect.{with_credentials}
use bitcoin_controller.Controller.Connect.Rounds.{ready_at}
use bitcoin_controller.Controller.Recon.{do_recon}
use bitcoin_controller.Controller.Recon.Mesh.{AcceptsSecret}
use bitcoin_controller.Controller.Setup.{Controller, registrations, new_controller}
use bitcoin_controller.Program.Wired.{rpc_client, rpc_client-TracksPeers, do_recon-Bitcoind}
use bitcoin_controller.Tests.Lab.{
  World, cluster, cluster-RangesOnce, network, set, pods, both_nodes,
}
use bitcoin_controller.Tests.Client.{http, wire, daemons, has_at}
use bitcoin_controller.Tests.Recon.{stable, deployed, pods-Benign, fresh_nodes}

takes_secret :
    AcceptsSecret cluster
      (rpc_client http)
      (rpc_client-TracksPeers http wire daemons)
      cluster-RangesOnce
      network
      (elements (expected_nodes cluster network "net-sts" "net-svc" pods stable))
unfolding credentials_for_secret with_credentials new_client_for_config
takes_secret w cred ip got r = ground arith

do_recon-Bitcoind_example :
    (c : Controller World _) × (new_controller cluster http none (λ kind w. true)
      ≡ some (c, registrations cluster))
    × ((do_recon cluster c.rpc_client "default/net" []).result ≡ some true)
    × (has_at (do_recon cluster c.rpc_client "default/net" []).world "10.0.0.1" "10.0.0.3"
        ≡ ready_at both_nodes "10.0.0.3")
unfolding pod_name node_of_pod ready_at
do_recon-Bitcoind_example =
    do_recon-Bitcoind cluster http wire daemons cluster-RangesOnce network (λ kind w. true)
      "default/net" "default" "net" set (pos 2) pods stable [] "10.0.0.1" "10.0.0.3" refl deployed
      pods-Benign fresh_nodes takes_secret refl (λ e. ground (arith, eq_iff "10.0.0.3" "10.0.0.1"))
