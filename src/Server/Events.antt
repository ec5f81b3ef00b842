-- ===== src/Server/Events.antt =====
-- packages/rust/armonik/src/server/events.rs: the trait of the handler, and the server that is made of it.
use armoni_k_api.Common.{List}
use armoni_k_api.Common.Outcome.{Result}
use armoni_k_api.Rpc.Calls.{Status, Call}
use armoni_k_api.Rpc.Streams.{stream_server}
use armoni_k_api.Objects.Events.Subscribe.{
  SubscribeRequest, V3SubscribeRequest, subscribe_from, Event, V3Event, event_into,
}

-- The calls of the generated service, of its client as of its server.
pub record EventsWire (S : Type 0) : Type 0 where
  pub get_events : V3SubscribeRequest → Call S Status (List (Result V3Event Status))

-- The trait of the handlers.
pub record EventsService (S Context : Type 0) : Type 0 where
  pub subscribe : SubscribeRequest → Context → Call S Status (List (Result Event Status))

-- The server of the handlers, for calls that come with the given context.
unfoldable pub serve : {S Context : Type 0} → EventsService S Context → Context → EventsWire S
serve service context = record {
  get_events = λ w. stream_server subscribe_from event_into service.subscribe w context;
}
