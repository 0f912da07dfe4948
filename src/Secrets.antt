-- ===== src/Secrets.antt =====
-- internal/secrets/secrets.go
pub mod Origin
use bitcoin_controller.Base.{String, ◌<>◌, List, [], ◌∷◌, Option, none, some, ◌==◌, if◌then◌else◌}
use bitcoin_controller.Kube.{Secret}
use bitcoin_controller.Client.{Error, foreign, error_text, ok, err}
use bitcoin_controller.Effects.{get_secret, Exec, pure, request, error_log, ◌>>=◌, ◌>>◌}
use bitcoin_controller.Cluster.{Cluster}

abbrev pub user_key : String
user_key = "BC_RPC_USER"

abbrev pub password_key : String
password_key = "BC_RPC_PASSWORD"

abbrev pub default_rpc_user : String
default_rpc_user = "user"

abbrev pub default_rpc_password : String
default_rpc_password = "password"

-- User, password, and the error if there is one.
pub record Credentials : Type 0 where
  pub user : String
  pub password : String
  pub error : Option Error

-- `secret.Data[key]`
unfoldable pub lookup : String → List (String × String) → Option String
lookup k [] = none
lookup k ((j, v) ∷ entries) = if j == k then some v else lookup k entries

-- `fmt.Errorf("Secret does not contain key %s", key)`
abbrev pub missing_key : String → Error
missing_key key = foreign "fmt.Errorf" ("Secret does not contain key " <> key)

abbrev pub defaults : Option Error → Credentials
defaults e = record { user = default_rpc_user; password = default_rpc_password; error = e }

-- The user first, then the password.
unfoldable pub from_secret : Secret → Credentials
unfolding lookup
from_secret s = elim (lookup user_key s.entries) [
  | none ↦ defaults (some (missing_key user_key))
  | some user ↦ elim (lookup password_key s.entries) [
    | none ↦ defaults (some (missing_key password_key))
    | some password ↦ record { user = user; password = password; error = none }
  ]
]

module _ (K : Cluster) where
  unfoldable pub credentials_for_secret : String → String → Exec K.World Credentials
  unfolding from_secret
  credentials_for_secret name namespace = if name == "" then pure (defaults none) else do
    reply ← request (get_secret namespace name) (K.get_secret namespace name)
    elim reply [
      | err e ↦ do
        error_log ("Could not get secret, error is " <> error_text e <> "\n")
        pure (defaults (some e))
      | ok secret ↦ pure (from_secret secret)
    ]
