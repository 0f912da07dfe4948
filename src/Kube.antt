-- ===== src/Kube.antt =====
-- The Kubernetes objects (metav1, corev1, appsv1, schema), with the fields that the code reads, writes or
-- passes on. A Go map of texts is a list of pairs.
use bitcoin_controller.Base.{ℕ, ℤ, String, Bool, Option, List}

pub record GroupVersionKind : Type 0 where
  pub group : String
  pub version : String
  pub kind : String

pub record GroupVersionResource : Type 0 where
  pub group : String
  pub version : String
  pub resource : String

pub record GroupKind : Type 0 where
  pub group : String
  pub kind : String

pub record GroupResource : Type 0 where
  pub group : String
  pub resource : String

-- `schema.GroupVersion`
pub record GroupVersion : Type 0 where
  pub group : String
  pub version : String

pub record ListMeta : Type 0 where
  pub resource_version : String
  pub continue_token : String

pub record ListOptions : Type 0 where
  pub label_selector : String
  pub field_selector : String
  pub timeout_seconds : Option ℤ
  pub watch : Bool

pub record OwnerReference : Type 0 where
  pub api_version : String
  pub kind : String
  pub name : String
  pub uid : String
  pub controller : Bool

pub record ObjectMeta : Type 0 where
  pub name : String
  pub namespace : String
  pub uid : String
  pub labels : List (String × String)
  pub owner_references : List OwnerReference
  pub deletion_timestamp : Option ℕ

pub record TypeMeta : Type 0 where
  pub kind : String
  pub api_version : String

pub record Service : Type 0 where
  pub type_meta : TypeMeta
  pub meta : ObjectMeta
  pub cluster_ip : String
  pub selector : List (String × String)

pub data PullPolicy : Type 0 where
  pull_always pull_never pull_if_not_present : PullPolicy

-- A readiness probe that runs a command in the container.
pub record Probe : Type 0 where
  pub initial_delay_seconds : ℕ
  pub period_seconds : ℕ
  pub command : List String

-- An `EnvFromSource` with a `SecretRef`.
pub record SecretEnvSource : Type 0 where
  pub optional : Bool
  pub name : String

pub record Container : Type 0 where
  pub name : String
  pub image : String
  pub image_pull_policy : PullPolicy
  pub readiness_probe : Probe
  pub env_from : List SecretEnvSource

pub record PodTemplate : Type 0 where
  pub meta : ObjectMeta
  pub containers : List Container

-- `replicas` is a pointer.
pub record StatefulSetSpec : Type 0 where
  pub replicas : Option ℤ
  pub service_name : String
  pub match_labels : List (String × String)
  pub template : PodTemplate

pub record StatefulSet : Type 0 where
  pub type_meta : TypeMeta
  pub meta : ObjectMeta
  pub spec : StatefulSetSpec

pub record PodCondition : Type 0 where
  pub type : String
  pub status : String

pub record Pod : Type 0 where
  pub meta : ObjectMeta
  pub conditions : List PodCondition
  pub pod_ip : String

-- `Data` of a secret, as texts.
pub record Secret : Type 0 where
  pub entries : List (String × String)

-- The value of a key in a map.
abbrev pub Labels : Type 0
Labels = List (String × String)

pub data EventType : Type 0 where
  normal warning : EventType

-- What an informer hands to a handler as `interface{}`: a value that implements `metav1.Object`, or
-- one that does not.
pub data AnyObject : Type 0 where
  object : ObjectMeta → AnyObject
  not_object : AnyObject
