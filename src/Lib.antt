-- ===== src/Lib.antt =====
-- The bitcoin controller: a Kubernetes operator that keeps a network of bitcoin daemons as a
-- stateful set, and connects them to each other by RPC.
--
-- Event handlers put keys of networks into a work queue. Workers take the keys out again and
-- reconcile: they create the service and the stateful set of a network, adjust the number of
-- replicas, write the status from the pods, and, if the list of nodes has changed, make every ready
-- daemon know every other one.
--
-- The parts, and the files that model them:
--
-- Apis, Kube: the records of internal/apis/bitcoincontroller/v1/types.go with the names of
-- internal/apis/bitcoincontroller/v1/register.go, and what the code reads or
-- writes of the Kubernetes objects. A slice keeps nil and empty apart, as reflect.DeepEqual does.
-- `int` and `int32` are integers; the conversion of a loop counter to int32 wraps around (`int32`).
--
-- Client: internal/bitcoinclient/bitcoinclient.go. Client holds the types, the errors with
-- IsNodeAlreadyAdded and IsNodeNotAdded, and the interface BitcoinClient, which the controller takes
-- as a parameter. Client.Impl is bitcoinClientImpl, with RawRequest as `raw_request` (`request_with`
-- once the configuration is settled) and AddNode, RemoveNode and GetAddedNodes as `impl_...`, over
-- net/http and encoding/json as a parameter (`Http`). Client.Peers states what the controller needs
-- of daemons, Client.Impl.Daemon what daemons do on the level of HTTP, and Client.Impl.Answer what it
-- is for a daemon to have answered with a code.
--
-- Effects: code that runs in a world. A run has a result, or none if it panics, a world after it, and
-- the list of the calls that it made, in order. Effects.Loops is the loop over a list; Effects.Makes
-- and Effects.Returns are the rules for "all calls satisfy" and "it returns".
--
-- Cluster: the clients, listers, caches, the work queue, the helpers of apimachinery and client-go, and
-- the order of `range` over a map, all as one parameter. Each request takes the world on, so another
-- party may act between two of them. Laws of these parts are records of their own (RangesOnce,
-- RefersToOwner, HasKey), and a theorem names those that it uses.
--
-- Secrets: internal/secrets/secrets.go, CredentialsForSecret.
--
-- Controller: internal/controller/controller.go.
--   Controller.Create: createStatefulSet, createHeadlessService, updateStatefulSet. The objects are
--     functions of their own (`new_stateful_set`, `new_headless_service`).
--   Controller.Status: podReady and updateNetworkStatus. The loop over the ordinals is `collect_nodes`,
--     by recursion on the rounds left, which are the number of nodes of the specification, or none if
--     it is negative.
--   Controller.Connect: connectNode (its two loops' bodies are `add_missing` and `remove_stale`) and
--     syncNodes. A Go map that is used as a set is a list without repetition, and a `range` over it is
--     a loop over any permutation that the environment chooses (`for_range`).
--   Controller.Recon: doRecon, cut at its early returns: `ensure_service`, `ensure_stateful_set`,
--     `adjust_replicas`, `refresh_status`.
--   Controller.Queue: enqueue, handleObject and the handlers, the worker loop, and Run up to its wait
--     for the stop channel. `worker_main_loop` has a number of rounds as fuel; more rounds than the
--     queue hands out items before its shutdown are enough. An item is a text or another value.
--     Controller.Queue.Touches says what a call of the code does to the queue.
--   Controller.Pool: the workers that Run starts, and the handlers, on one work queue of client-go,
--     which is a parameter (`WorkQueue`). A step is Get of one worker, its next call on the way through
--     what it does with its item (`process_item`), its end, or the calls of a handler; those of the queue
--     are played on it. The steps come in any order. The world in which a worker deals with an item is
--     any; it answers for all that the others do meanwhile. The stop channel is open, so that a worker
--     that has returned is called again.
--   Controller.Setup: NewController, with the handlers that it registers (`registrations`),
--     AddEventSink, and the setters for tests. The fields of the controller that these change are a
--     record; all others are the cluster's.
--
-- Generated: parts of the generated code.
--   Generated.Factory: the informer factory of
--     internal/generated/informers/externalversions/factory.go. Each operation is one step, since it
--     holds the lock; types are texts, and `range` over a map goes through its keys in an order that is
--     a parameter. WaitForCacheSync is the step that reads the started informers, and then a loop.
--   Generated.Informer: the informer for networks of
--     internal/generated/informers/externalversions/bitcoincontroller/v1/bitcoinnetwork.go and
--     ForResource of generic.go beside the factory. The package cache is a parameter
--     (`CacheLibrary`).
--   Generated.Lister: internal/generated/listers/bitcoincontroller/v1/bitcoinnetwork.go, over an index
--     that is a parameter.
--   Generated.DeepCopy: internal/apis/bitcoincontroller/v1/deepcopy_generated.go, on a heap of arrays.
--     The items of a list are a value here: the copies are new, and nothing is assigned to an item.
--   Generated.Rest: the requests that the typed client of
--     internal/generated/clientset/versioned/typed/bitcoincontroller/v1/bitcoinnetwork.go builds, with
--     timeouts on 64 bits.
--   Generated.Clientset: NewForConfig and its companions in
--     internal/generated/clientset/versioned/clientset.go and
--     internal/generated/clientset/versioned/typed/bitcoincontroller/v1/bitcoincontroller_client.go,
--     over the packages rest, discovery and flowcontrol as a parameter (`RestLibrary`).
--   Generated.Scheme: how the types come into a scheme, internal/apis/bitcoincontroller/v1/register.go,
--     internal/generated/clientset/versioned/scheme/register.go and
--     internal/generated/clientset/versioned/fake/register.go.
--   Generated.Fake: the client for unit tests of
--     internal/generated/clientset/versioned/typed/bitcoincontroller/v1/fake/fake_bitcoinnetwork.go,
--     over client-go/testing as a parameter (`Fake`). Generated.Fake.Simple is NewSimpleClientset of
--     internal/generated/clientset/versioned/fake/clientset_generated.go, which makes such a `Fake`
--     with its reactors from the tracker (`FakeLibrary`).
--
-- Program: main of cmd/controller/main.go, the order in which the clients, the informers and the
-- controller are made and started, with its exits. It ends, or has started everything and waits.
-- Program.Wired puts the controller and the client that it is made with together, Program.Cached the
-- controller and the generated lister. Program.Life is the end of the program: createSignalHandler, and
-- the waits for the stop channel in Run and in main, as events in any order.
--
-- Base: Booleans, lists, the integers over the native numbers, and decimal notation (`format_int`,
-- whose digits are computed with one more step than the number, which is enough).
--
-- Tests: a small cluster, daemons, caches and trackers in which the theorems are applied.
--
-- Not modelled: the informational log lines (klog.Info and Infof; errors that are logged are
-- calls) and the integration tests. The broadcaster of events, the command line and the informer
-- factory of client-go in main are parameters. A panic of a worker ends the program; Controller.Pool
-- lets the others go on. In Controller a deep copy is the identity, since no value there is assigned
-- to after it has been shared.
pub mod Base
pub mod Kube
pub mod Apis
pub mod Client
pub mod Effects
pub mod Cluster
pub mod Secrets
pub mod Controller
pub mod Generated
pub mod Program
mod Tests
