-- ===== src/Secrets/Origin.antt =====
-- Where the credentials come from.
use bitcoin_controller.Base.{
  ◌≡◌, refl, String, ◌==◌, eq_iff, Bool-cases, Option-cases, inl, inr, [], ◌∷◌, none, some, arith,
  if◌then◌else◌, false, ◌⊎◌,
}
use bitcoin_controller.Kube.{Secret}
use bitcoin_controller.Client.{Error, Result, ok, err}
use bitcoin_controller.Effects.{get_secret, unlogged}
use bitcoin_controller.Cluster.{Cluster}
use bitcoin_controller.Secrets.{
  Credentials, user_key, password_key, lookup, from_secret, defaults, missing_key,
  credentials_for_secret,
}

-- The three ways to come by credentials, given the answer of the API server: the defaults where
-- no secret is named, both values of the secret where it has both, and otherwise the defaults
-- with an error, which is that of the API server if there is one.
pub data Origin (name : String) (answer : Result Secret) (c : Credentials) : Type 0 where
  unnamed : name ≡ "" → c ≡ defaults none → Origin name answer c
  stored :
      (s : Secret)
      → (name == "") ≡ false
      → answer ≡ ok s
      → lookup user_key s.entries ≡ some c.user
      → lookup password_key s.entries ≡ some c.password
      → c.error ≡ none
      → Origin name answer c
  refused :
      (e : Error)
      → (name == "") ≡ false
      → answer ≡ err e
      → c ≡ defaults (some e)
      → Origin name answer c
  incomplete :
      (s : Secret) (e : Error) (key : String)
      → (name == "") ≡ false
      → answer ≡ ok s
      → (key ≡ user_key) ⊎ (key ≡ password_key)
      → lookup key s.entries ≡ none
      → c ≡ defaults (some e)
      → Origin name answer c

from_secret-Origin :
    (name : String) (s : Secret) (answer : Result Secret)
    → (name == "") ≡ false
    → answer ≡ ok s
    → Origin name answer (from_secret s)
unfolding from_secret
from_secret-Origin name s answer named e = elim (Option-cases (lookup user_key s.entries)) [
  | inl p ↦ incomplete s (missing_key user_key) user_key named e (inl refl) p (ground arith)
  | inr (u, p) ↦ elim (Option-cases (lookup password_key s.entries)) [
    | inl q ↦
        incomplete s (missing_key password_key) password_key named e (inr refl) q (ground arith)
    | inr (v, q) ↦ stored s named e (ground arith) (ground arith) (ground arith)
  ]
]

module _ (K : Cluster) (name namespace : String) (w : K.World) where
  -- `CredentialsForSecret` returns, and asks the API server once, for the named secret, or not at
  -- all if the name is empty. What it returns has one of the four origins.
  pub credentials_for_secret-Origin :
      (c : Credentials) × ((credentials_for_secret K name namespace w).result ≡ some c)
      × (unlogged (credentials_for_secret K name namespace w).calls
          ≡ (if name == "" then [] else get_secret namespace name ∷ []))
      × Origin name (K.get_secret namespace name w).0 c
  unfolding credentials_for_secret
  credentials_for_secret-Origin = elim (Bool-cases (name == "")) [
    | inl e ↦ (defaults none, ground arith, ground arith, unnamed ((eq_iff name "").0 e) refl)
    | inr e ↦ by_answer e (K.get_secret namespace name w).0 refl
  ]
    where
      by_answer :
          (name == "") ≡ false
          → (r : Result Secret) → (K.get_secret namespace name w).0 ≡ r
          → (c : Credentials) × ((credentials_for_secret K name namespace w).result ≡ some c)
            × (unlogged (credentials_for_secret K name namespace w).calls
                ≡ (if name == "" then [] else get_secret namespace name ∷ []))
            × Origin name (K.get_secret namespace name w).0 c
      by_answer named (ok s) e =
          (from_secret s, ground arith, ground arith, from_secret-Origin name s _ named e)
      by_answer named (err f) e =
          (defaults (some f), ground arith, ground arith, refused f named e refl)
