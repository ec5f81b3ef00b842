-- ===== src/Rpc/Streams.antt =====
-- Calls with a stream of requests or of answers. A stream is the list of its items, each a value or an
-- error; what the network makes of a sent list is a relation.
use armoni_k_api.Common.{◌≡◌, refl, ap, ap₂, List, [], ◌∷◌, map}
use armoni_k_api.Common.Outcome.{Result, ok, err, map_err, map_ok}
use armoni_k_api.Rpc.Calls.{Status, RequestError, grpc, Call}

-- What arrives of the values that are sent: all of them in order, or some first ones and an error.
pub data Delivers {A : Type 0} : List A → List (Result A Status) → Type 0 where
  ended : Delivers [] []
  broken : (sent : List A) (e : Status) → Delivers sent (err e ∷ [])
  arrived :
      (a : A) {sent : List A} {received : List (Result A Status)}
      → Delivers sent received
      → Delivers (a ∷ sent) (ok a ∷ received)

module _ {A B : Type 0} (f : A → B) where
  -- Converting what arrives is the same as sending what is converted.
  pub Delivers-map :
      {sent : List A} {received : List (Result A Status)}
      → Delivers sent received
      → Delivers (map f sent) (map (map_ok f) received)
  Delivers-map ended = ended
  Delivers-map (broken sent e) = broken (map f sent) e
  Delivers-map (arrived a d) = arrived (f a) (Delivers-map d)

module _ {S Req Resp V3Req V3Resp Context : Type 0} where
  -- `stream client` arm of `impl_trait_methods!`.
  unfoldable pub stream_client :
      (V3Req → Req)
      → (Resp → V3Resp)
      → (List (Result Req Status) → Context → Call S Status Resp)
      → List (Result V3Req Status)
      → Context
      → Call S Status V3Resp
  stream_client from into handler requests context s =
      let (result, s') = handler (map (map_ok from) requests) context s in (map_ok into result, s')

  -- `stream server` arm.
  unfoldable pub stream_server :
      (V3Req → Req)
      → (Resp → V3Resp)
      → (Req → Context → Call S Status (List (Result Resp Status)))
      → V3Req
      → Context
      → Call S Status (List (Result V3Resp Status))
  stream_server from into handler request context s =
      let (result, s') = handler (from request) context s in (map_ok (map (map_ok into)) result, s')

module _ {A B : Type 0} where
  -- The stream that a client returns: every item converted, every error wrapped.
  abbrev pub client_item : (B → A) → Result B Status → Result A RequestError
  client_item from item = map_err grpc (map_ok from item)

  abbrev pub client_stream : (B → A) → List (Result B Status) → List (Result A RequestError)
  client_stream from = map (client_item from)

  module _ (into : A → B) (from : B → A) (back : (a : A) → from (into a) ≡ a) where
    item_back : (item : Result A Status) → client_item from (map_ok into item) ≡ map_err grpc item
    item_back (ok a) = ap ok (back a)
    item_back (err e) = refl

    -- The items of the server reach the client in order, each error wrapped.
    pub client_stream_back :
        (items : List (Result A Status))
        → client_stream from (map (map_ok into) items) ≡ map (map_err grpc) items
    client_stream_back [] = refl
    client_stream_back (item ∷ items) =
        ap₂ (λ a l. a ∷ l) (item_back item) (client_stream_back items)
