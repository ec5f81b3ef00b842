-- ===== src/Rpc/Unary.antt =====
-- A call with one request and one answer: `impl_call!` on the client, the `unary` arm of
-- `impl_trait_methods!` on the server.
use armoni_k_api.Common.{◌≡◌, refl, ap, ◌∙◌}
use armoni_k_api.Common.Outcome.{Result, ok, err, map_err, map_ok, map_ok-map_ok}
use armoni_k_api.Rpc.Calls.{Status, RequestError, grpc, Call, then_result, finish}

module _ {S Req Resp V3Req V3Resp : Type 0} where
  -- `self.inner.method(request).await.context(GrpcSnafu {})?.into_inner().into()`, where the stub
  -- `inner` is generated code.
  unfoldable pub client_call :
      (Req → V3Req)
      → (V3Resp → Resp)
      → (V3Req → Call S Status V3Resp)
      → Req
      → Call S RequestError Resp
  client_call into from stub request = finish from grpc (stub (into request))

module _ {S Req Resp V3Req V3Resp Context : Type 0} where
  -- The request is converted, the handler is run with it and the context, and a success is converted.
  unfoldable pub unary :
      (V3Req → Req)
      → (Resp → V3Resp)
      → (Req → Context → Call S Status Resp)
      → V3Req
      → Context
      → Call S Status V3Resp
  unary from into handler request context s =
      let (result, s') = handler (from request) context s in (map_ok into result, s')

module _ {Resp V3Resp : Type 0} (resp_into : Resp → V3Resp) (resp_from : V3Resp → Resp)
    (resp_back : (r : Resp) → resp_from (resp_into r) ≡ r) where
  pub back_ok :
      (r : Result Resp Status)
      → map_ok resp_from (map_err grpc (map_ok resp_into r)) ≡ map_err grpc r
  back_ok (ok a) = ap ok (resp_back a)
  back_ok (err e) = refl

module _ {S Req Resp V3Req V3Resp Context : Type 0} (req_into : Req → V3Req)
    (req_from : V3Req → Req) (resp_into : Resp → V3Resp) (resp_from : V3Resp → Resp)
    (req_back : (r : Req) → req_from (req_into r) ≡ r)
    (resp_back : (r : Resp) → resp_from (resp_into r) ≡ r) where
  -- A client whose stub reaches this server gets what the handler returns for the very request, its
  -- error wrapped and its effect kept, if both conversions of each type undo one another.
  pub client_call-unary :
      (handler : Req → Context → Call S Status Resp) (context : Context) (request : Req) (s : S)
      → client_call req_into resp_from (λ w. unary req_from resp_into handler w context) request s
        ≡ (map_err grpc (handler request context s).0, (handler request context s).1)
  unfolding client_call unary
  client_call-unary handler context request s = rw (req_back request) (
      ap (λ (r : Result Resp RequestError). (r, (handler request context s).1))
        (back_ok resp_into resp_from resp_back (handler request context s).0))

  -- What is made of the answer is made of the handler's, its error wrapped and its effect kept.
  pub call_served :
      {B : Type 0} (answer : Resp → B) (handler : Req → Context → Call S Status Resp)
      (context : Context) (request : Req) (s : S)
      → then_result
          (map_ok answer)
          (client_call req_into resp_from (λ w. unary req_from resp_into handler w context) request)
          s
        ≡ finish answer grpc (handler request context) s
  call_served answer handler context request s =
      ap (λ c. (map_ok answer c.0, c.1)) (client_call-unary handler context request s)

  -- The same in two steps, the first of which takes a part of the answer.
  pub part_served :
      {A B : Type 0} (project : Resp → A) (answer : A → B)
      (handler : Req → Context → Call S Status Resp) (context : Context) (request : Req) (s : S)
      → then_result
          (map_ok answer)
          (then_result (map_ok project) (
            client_call req_into resp_from
              (λ w. unary req_from resp_into handler w context)
              request))
          s
        ≡ finish (λ r. answer (project r)) grpc (handler request context) s
  part_served project answer handler context request s =
      ap (λ c. (map_ok answer c.0, c.1)) (call_served project handler context request s)
      ∙ ap (λ r. (r, (handler request context s).1))
          (map_ok-map_ok answer project (map_err grpc (handler request context s).0))

module _ {Resp V3Resp : Type 0} (resp_into : Resp → V3Resp) (resp_from : V3Resp → Resp)
    (resp_read : Resp → Resp) (resp_back : (r : Resp) → resp_from (resp_into r) ≡ resp_read r) where
  result_read :
      {B : Type 0} (answer : Resp → B) (r : Result Resp Status)
      → map_ok answer (map_ok resp_from (map_err grpc (map_ok resp_into r)))
        ≡ map_ok (λ a. answer (resp_read a)) (map_err grpc r)
  result_read answer (ok a) = ap (λ b. ok (answer b)) (resp_back a)
  result_read answer (err e) = refl

module _ {S Req Resp V3Req V3Resp Context : Type 0} (req_into : Req → V3Req)
    (req_from : V3Req → Req) (resp_into : Resp → V3Resp) (resp_from : V3Resp → Resp)
    (req_read : Req → Req) (resp_read : Resp → Resp)
    (req_back : (r : Req) → req_from (req_into r) ≡ req_read r)
    (resp_back : (r : Resp) → resp_from (resp_into r) ≡ resp_read r) where
  -- Where the conversions change a request or an answer, the handler gets the changed request, and what
  -- is made of the answer is made of the changed one.
  pub read_served :
      {B : Type 0} (answer : Resp → B) (handler : Req → Context → Call S Status Resp)
      (context : Context) (request : Req) (s : S)
      → then_result
          (map_ok answer)
          (client_call req_into resp_from (λ w. unary req_from resp_into handler w context) request)
          s
        ≡ finish (λ r. answer (resp_read r)) grpc (handler (req_read request) context) s
  unfolding client_call unary
  read_served answer handler context request s = rw (req_back request) (
      let reply = handler (req_read request) context s in
      ap (λ r. (r, reply.1)) (result_read resp_into resp_from resp_read resp_back answer reply.0))

  pub part_read_served :
      {A B : Type 0} (project : Resp → A) (answer : A → B)
      (handler : Req → Context → Call S Status Resp) (context : Context) (request : Req) (s : S)
      → then_result
          (map_ok answer)
          (then_result (map_ok project) (
            client_call req_into resp_from
              (λ w. unary req_from resp_into handler w context)
              request))
          s
        ≡ finish (λ r. answer (project (resp_read r))) grpc (handler (req_read request) context) s
  part_read_served project answer handler context request s =
      let reply = handler (req_read request) context s in
      ap (λ c. (map_ok answer c.0, c.1)) (read_served project handler context request s)
      ∙ ap (λ r. (r, reply.1))
          (map_ok-map_ok answer (λ a. project (resp_read a)) (map_err grpc reply.0))
