-- ===== src/Rpc/Replies.antt =====
-- The stream of answers of a server of the crate on its way to a client, over a network that may break:
-- tonic ends a stream at its first error.
use armoni_k_api.Common.{◌≡◌, refl, ap, ap₂, subst, sym, ◌∙◌, List, [], ◌∷◌, map, map-map}
use armoni_k_api.Common.Outcome.{Result, ok, err, map_err, map_ok}
use armoni_k_api.Rpc.Calls.{Status, grpc, Call, finish}
use armoni_k_api.Rpc.Streams.{stream_server, client_stream}

-- What arrives of the items that a server answers with: all of them in order, up to the first error of
-- the server, or some first ones and an error of the network.
pub data Forwards {A : Type 0} : List (Result A Status) → List (Result A Status) → Type 0 where
  ended : Forwards [] []
  failed : (e : Status) (rest : List (Result A Status)) → Forwards (err e ∷ rest) (err e ∷ [])
  broken : (sent : List (Result A Status)) (e : Status) → Forwards sent (err e ∷ [])
  arrived :
      (a : A) {sent received : List (Result A Status)}
      → Forwards sent received
      → Forwards (ok a ∷ sent) (ok a ∷ received)

-- What arrives of a call: its error, its stream, or an error of the network.
pub data Answers {A : Type 0}
    : Result (List (Result A Status)) Status → Result (List (Result A Status)) Status → Type 0 where
  refused : (e : Status) → Answers (err e) (err e)
  streamed :
      {sent received : List (Result A Status)}
      → Forwards sent received
      → Answers (ok sent) (ok received)
  lost : (sent : Result (List (Result A Status)) Status) (e : Status) → Answers sent (err e)

module _ {A B : Type 0} (f : A → B) where
  abbrev pub convert :
      Result (List (Result A Status)) Status → Result (List (Result B Status)) Status
  convert = map_ok (map (map_ok f))

  Forwards-map :
      {sent received : List (Result A Status)}
      → Forwards sent received
      → Forwards (map (map_ok f) sent) (map (map_ok f) received)
  Forwards-map ended = ended
  Forwards-map (failed e rest) = failed e (map (map_ok f) rest)
  Forwards-map (broken sent e) = broken (map (map_ok f) sent) e
  Forwards-map (arrived a d) = arrived (f a) (Forwards-map d)

  Answers-convert :
      {sent received : Result (List (Result A Status)) Status}
      → Answers sent received
      → Answers (convert sent) (convert received)
  Answers-convert (refused e) = refused e
  Answers-convert (streamed d) = streamed (Forwards-map d)
  Answers-convert (lost sent e) = lost (convert sent) e

module _ {A B : Type 0} (into : A → B) (from : B → A) (back : (a : A) → from (into a) ≡ a) where
  item_back : (item : Result A Status) → map_ok from (map_ok into item) ≡ item
  item_back (ok a) = ap ok (back a)
  item_back (err e) = refl

  items_back :
      (items : List (Result A Status)) → map (map_ok from) (map (map_ok into) items) ≡ items
  items_back [] = refl
  items_back (item ∷ items) = ap₂ (λ a l. a ∷ l) (item_back item) (items_back items)

  convert_back :
      (reply : Result (List (Result A Status)) Status) → convert from (convert into reply) ≡ reply
  convert_back (ok items) = ap ok (items_back items)
  convert_back (err e) = refl

  -- What arrives of the converted answers of a server is the conversion of what would arrive of the
  -- answers themselves.
  pub Answers-back :
      (reply : Result (List (Result A Status)) Status)
      (received : Result (List (Result B Status)) Status)
      → Answers (convert into reply) received
      → Answers reply (convert from received)
  Answers-back reply received d =
      subst (λ r. Answers r (convert from received)) (convert_back reply) (Answers-convert from d)

module _ {S Req V3Resp : Type 0} where
  -- A stub whose answers come over a network.
  unfoldable pub over :
      (Result (List (Result V3Resp Status)) Status → Result (List (Result V3Resp Status)) Status)
      → (Req → Call S Status (List (Result V3Resp Status)))
      → Req
      → Call S Status (List (Result V3Resp Status))
  over carry server request s = let (reply, s') = server request s in (carry reply, s')

module _ {A B : Type 0} (from : B → A) where
  -- The client wraps every error of what it reads.
  client_stream-convert :
      (received : Result (List (Result B Status)) Status)
      → map_ok (client_stream from) (map_err grpc received)
        ≡ map_ok (map (map_err grpc)) (map_err grpc (convert from received))
  client_stream-convert (ok items) = ap ok (sym (map-map (map_err grpc) (map_ok from) items))
  client_stream-convert (err e) = refl

module _ {S Context Req V3Req Resp V3Resp : Type 0} (req_into : Req → V3Req)
    (req_from : V3Req → Req) (req_back : (r : Req) → req_from (req_into r) ≡ r)
    (into : Resp → V3Resp) (from : V3Resp → Resp) (back : (a : Resp) → from (into a) ≡ a)
    (carry : Result (List (Result V3Resp Status)) Status
      → Result (List (Result V3Resp Status)) Status)
    (answers : (sent : Result (List (Result V3Resp Status)) Status)
      → Answers sent (carry sent)) where
  pub client_stream-over :
      (handler : Req → Context → Call S Status (List (Result Resp Status))) (context : Context)
      (request : Req) (s : S)
      → let reply = handler request context s in
        (received : Result (List (Result Resp Status)) Status) × Answers reply.0 received
        × (finish
              (client_stream from)
              grpc
              (over carry (λ w. stream_server req_from into handler w context) (req_into request))
              s
            ≡ (map_ok (map (map_err grpc)) (map_err grpc received), reply.1))
  unfolding over stream_server
  client_stream-over handler context request s =
      let reply = handler request context s in
      (
        convert from (carry (convert into reply.0)),
        Answers-back into from back reply.0 _ (answers (convert into reply.0)),
        ap
              (λ (r : Req).
                let now = handler r context s in
                (map_ok (client_stream from) (map_err grpc (carry (convert into now.0))), now.1))
              (req_back request)
            ∙ ap (λ r. (r, reply.1)) (client_stream-convert from (carry (convert into reply.0))),
      )
