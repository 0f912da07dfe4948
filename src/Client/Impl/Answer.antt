-- ===== src/Client/Impl/Answer.antt =====
-- What a daemon's answer makes of the error of a request.
use mathlib.Core.Option.{some-injective}
use bitcoin_controller.Base.{
  ◌≡◌, refl, sym, ◌∙◌, ℤ, pos, ℤ_eqb, ℤ_eqb_iff, String, Bool, true, false, [], ◌∷◌, some, none,
  Option, arith, Bool-cases, inl, inr, ◌↔◌, if◌then◌else◌,
}
use bitcoin_controller.Apis.{Slice, slice}
use bitcoin_controller.Client.{
  Error, rpc_error, foreign, Result, ok, err, Config, is_node_already_added, is_node_not_added,
  error_code_node_already_added, error_code_node_not_added, is_ok,
}
use bitcoin_controller.Client.Impl.{
  RpcRequest, RpcResponse, Http, url_of, rpc_request, prepare, interpret, request_with, raw_request,
  impl_add_node, impl_remove_node, drop_result,
}

both : {A B C : Type 0} → A ↔ B → B ↔ C → A ↔ C
both f g = (λ a. g.0 (f.0 a), λ c. f.1 (g.1 c))

-- An error that is no `RPCError`: those of the packages net/http and encoding/json.
abbrev pub IsForeign : Error → Type 0
IsForeign (rpc_error e) = ⊥
IsForeign (foreign kind message) = Unit

-- The code that a result stands for: 0 if there is no error, and none for an error from elsewhere.
abbrev pub code_of : {A : Type 0} → Result A → Option ℤ
code_of (ok a) = some (pos 0)
code_of (err (rpc_error e)) = if ℤ_eqb e.code (pos 0) then none else some e.code
code_of (err (foreign kind message)) = none

foreign-code_of :
    (A : Type 0) (e : Error) (n : ℤ) → IsForeign e → code_of {A = A} (err e) ≡ some n → ⊥
foreign-code_of A (rpc_error e) n h k = h
foreign-code_of A (foreign kind message) n h k = cc

module _ {W Json : Type 0} (H : Http W Json) where
  -- The packages report their own errors.
  pub record Reports : Type 0 where
    pub encodes : (r : RpcRequest) (e : Error) → H.encode r ≡ err e → IsForeign e
    pub builds :
        (method url : String) (b : H.Bytes) (e : Error)
        → H.new_request method url b ≡ err e
        → IsForeign e
    pub sends : (r : H.HttpRequest) (w : W) (e : Error) → (H.send r w).0 ≡ err e → IsForeign e
    pub decodes : (r : H.HttpResponse) (e : Error) → H.decode r ≡ err e → IsForeign e

  -- The daemon has received the request, and its answer, which could be read, has this code.
  pub record Answered (method : String) (params : Slice String) (c : Config) (w : W) (code : ℤ)
      : Type 0 where
    pub request : H.HttpRequest
    pub prepared : prepare H method params c ≡ ok request
    pub response : H.HttpResponse
    pub received : (H.send (H.set_basic_auth c.rpc_user c.rpc_password request) w).0 ≡ ok response
    pub answer : RpcResponse Json
    pub decoded : H.decode response ≡ ok answer
    pub has_code : answer.error.code ≡ code

  module _ (reports : Reports) (method : String) (params : Slice String) (c : Config) (w : W) where
    prepare-IsForeign : (x : Error) → prepare H method params c ≡ err x → IsForeign x
    unfolding prepare
    prepare-IsForeign x h = by_body (H.encode (rpc_request method params)) refl
      where
        by_body : (r : Result H.Bytes) → H.encode (rpc_request method params) ≡ r → IsForeign x
        by_body (ok b) e = reports.builds "POST" (url_of c) b x (ground (arith, e, h))
        by_body (err y) e = reports.encodes (rpc_request method params) x (ground (arith, e, h))

    interpret-code :
        (response : H.HttpResponse) (answer : RpcResponse Json)
        → H.decode response ≡ ok answer
        → code_of (interpret H response) ≡ some answer.error.code
    unfolding interpret
    interpret-code response answer e = elim (Bool-cases (ℤ_eqb answer.error.code (pos 0))) [
      | inl t ↦ ground (arith, e, t, ℤ_eqb_iff answer.error.code (pos 0))
      | inr t ↦ ground (arith, e, t)
    ]

    interpret-error :
        (response : H.HttpResponse) (x : Error)
        → H.decode response ≡ err x
        → interpret H response ≡ err x
    unfolding interpret
    interpret-error response x e = ground (arith, e)

    request_with-code_of :
        (n : ℤ)
        → Answered method params c w n
        → code_of (request_with H method params c w).0 ≡ some n
    unfolding request_with
    request_with-code_of n a =
        let code = interpret-code a.response a.answer a.decoded in
        ground (arith, a.prepared, a.received, code, a.has_code)

    request_with-Answered :
        (n : ℤ)
        → code_of (request_with H method params c w).0 ≡ some n
        → Answered method params c w n
    unfolding request_with
    request_with-Answered n h = by_request (prepare H method params c) refl
      where
        by_decoded :
            (request : H.HttpRequest)
            → prepare H method params c ≡ ok request
            → (response : H.HttpResponse)
            → (H.send (H.set_basic_auth c.rpc_user c.rpc_password request) w).0 ≡ ok response
            → (r : Result (RpcResponse Json)) → H.decode response ≡ r
            → Answered method params c w n
        by_decoded request e response f (ok answer) g = record {
          request = request;
          prepared = e;
          response = response;
          received = f;
          answer = answer;
          decoded = g;
          has_code =
              some-injective answer.error.code n
                (ground (arith, e, f, h, interpret-code response answer g));
        }
        by_decoded request e response f (err x) g = absurd (
            foreign-code_of Json x n (reports.decodes response x g)
              (ground (arith, e, f, h, interpret-error response x g)))

        by_response :
            (request : H.HttpRequest)
            → prepare H method params c ≡ ok request
            → (r : Result H.HttpResponse)
            → (H.send (H.set_basic_auth c.rpc_user c.rpc_password request) w).0 ≡ r
            → Answered method params c w n
        by_response request e (ok response) f =
            by_decoded request e response f (H.decode response) refl
        by_response request e (err x) f =
            absurd (foreign-code_of Json x n (reports.sends _ w x f) (ground (arith, e, f, h)))

        by_request :
            (r : Result H.HttpRequest)
            → prepare H method params c ≡ r
            → Answered method params c w n
        by_request (ok request) e =
            by_response request e (H.send (H.set_basic_auth c.rpc_user c.rpc_password request) w).0
              refl
        by_request (err x) e =
            absurd (foreign-code_of Json x n (prepare-IsForeign x e) (ground (arith, e, h)))

-- Whether the error of a call is taken for the known one: that the node had been added, or had not been.
abbrev pub was_added : Result (Unit {0}) → Bool
was_added (ok _) = false
was_added (err e) = is_node_already_added e

abbrev pub was_missing : Result (Unit {0}) → Bool
was_missing (ok _) = false
was_missing (err e) = is_node_not_added e

was_added-code_of :
    (r : Result (Unit {0}))
    → (was_added r ≡ true) ↔ (code_of r ≡ some error_code_node_already_added)
unfolding is_node_already_added
was_added-code_of (ok a) = ground arith
was_added-code_of (err (rpc_error e)) =
    ground (arith, ℤ_eqb_iff e.code error_code_node_already_added, ℤ_eqb_iff e.code (pos 0))
was_added-code_of (err (foreign kind message)) = ground arith

was_missing-code_of :
    (r : Result (Unit {0})) → (was_missing r ≡ true) ↔ (code_of r ≡ some error_code_node_not_added)
unfolding is_node_not_added
was_missing-code_of (ok a) = ground arith
was_missing-code_of (err (rpc_error e)) =
    ground (arith, ℤ_eqb_iff e.code error_code_node_not_added, ℤ_eqb_iff e.code (pos 0))
was_missing-code_of (err (foreign kind message)) = ground arith

is_ok-code_of : (r : Result (Unit {0})) → (is_ok r ≡ true) ↔ (code_of r ≡ some (pos 0))
is_ok-code_of (ok a) = ground arith
is_ok-code_of (err (rpc_error e)) = ground (arith, ℤ_eqb_iff e.code (pos 0))
is_ok-code_of (err (foreign kind message)) = ground arith

module _ {W Json : Type 0} (H : Http W Json) where
  drop_result-code_of : (r : Result Json) → code_of (drop_result H r) ≡ code_of r
  drop_result-code_of (ok a) = refl
  drop_result-code_of (err (rpc_error e)) = refl
  drop_result-code_of (err (foreign kind message)) = refl

  module _ (reports : Reports H) (own : Config) (node : String) (c : Config) (w : W) where
    add_node-code :
        (n : ℤ)
        → (code_of (impl_add_node H own node c w).0 ≡ some n)
          ↔ Answered H "addnode" (slice (node ∷ "add" ∷ [])) c w n
    unfolding impl_add_node raw_request
    add_node-code n =
        let params = slice (node ∷ "add" ∷ []) in
        let dropped = drop_result-code_of (request_with H "addnode" params c w).0 in
        (
          λ h. request_with-Answered H reports "addnode" params c w n (sym dropped ∙ h),
          λ a. dropped ∙ request_with-code_of H reports "addnode" params c w n a,
        )

    remove_node-code :
        (n : ℤ)
        → (code_of (impl_remove_node H own node c w).0 ≡ some n)
          ↔ Answered H "addnode" (slice (node ∷ "remove" ∷ [])) c w n
    unfolding impl_remove_node raw_request
    remove_node-code n =
        let params = slice (node ∷ "remove" ∷ []) in
        let dropped = drop_result-code_of (request_with H "addnode" params c w).0 in
        (
          λ h. request_with-Answered H reports "addnode" params c w n (sym dropped ∙ h),
          λ a. dropped ∙ request_with-code_of H reports "addnode" params c w n a,
        )

    -- If net/http and encoding/json report their own errors: `AddNode` returns no error exactly if the
    -- daemon received the request and its answer could be read and has code 0, and returns an error
    -- that `IsNodeAlreadyAdded` knows exactly if the answer has the code of that error; and so for
    -- `RemoveNode` and `IsNodeNotAdded`.
    pub add_node-Answered :
        let added = impl_add_node H own node c w in
        let removed = impl_remove_node H own node c w in
        ((is_ok added.0 ≡ true) ↔ Answered H "addnode" (slice (node ∷ "add" ∷ [])) c w (pos 0))
        × ((was_added added.0 ≡ true)
            ↔ Answered H "addnode" (slice (node ∷ "add" ∷ [])) c w error_code_node_already_added)
        × ((is_ok removed.0 ≡ true)
            ↔ Answered H "addnode" (slice (node ∷ "remove" ∷ [])) c w (pos 0))
        × ((was_missing removed.0 ≡ true)
            ↔ Answered H "addnode" (slice (node ∷ "remove" ∷ [])) c w error_code_node_not_added)
    add_node-Answered = (
      both (is_ok-code_of _) (add_node-code (pos 0)),
      both (was_added-code_of _) (add_node-code error_code_node_already_added),
      both (is_ok-code_of _) (remove_node-code (pos 0)),
      both (was_missing-code_of _) (remove_node-code error_code_node_not_added),
    )
