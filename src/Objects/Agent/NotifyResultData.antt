-- ===== src/Objects/Agent/NotifyResultData.antt =====
-- packages/rust/armonik/src/objects/agent/notify_result_data.rs: the results that a worker declares
-- available. The client has one session and many results, the protocol a session for each result.
use armoni_k_api.Common.{
  String, ◌≡◌, refl, ap, ◌∙◌, Option, none, some, List, [], ◌∷◌, map, unwrap_or,
}

pub record Request : Type 0 where
  pub communication_token : String
  pub session_id : String
  pub result_ids : List String

pub record ResultIdentifier : Type 0 where
  pub session_id : String
  pub result_id : String

pub record V3Request : Type 0 where
  pub ids : List ResultIdentifier
  pub communication_token : String

unfoldable pub request_into : Request → V3Request
request_into value = record {
  ids = map (λ id. record { session_id = value.session_id; result_id = id }) value.result_ids;
  communication_token = value.communication_token;
}

-- The closure of the `map`: it keeps the first session that it meets in a variable.
note_session : Option String → String → Option String
note_session none session = some session
note_session (some first) session = some first

collect_ids : Option String → List ResultIdentifier → Option String × List String
collect_ids session [] = (session, [])
collect_ids session (id ∷ ids) =
    let rest = collect_ids (note_session session id.session_id) ids in
    (rest.0, id.result_id ∷ rest.1)

unfoldable pub request_from : V3Request → Request
unfolding collect_ids note_session
request_from value =
    let collected = collect_ids none value.ids in
    record {
      communication_token = value.communication_token;
      session_id = unwrap_or "" collected.0;
      result_ids = collected.1;
    }

-- The results in the order of the message, and the first session.
collect_ids-session :
    (session : String) (ids : List ResultIdentifier)
    → collect_ids (some session) ids
      ≡ (some session, map (λ (id : ResultIdentifier). id.result_id) ids)
unfolding collect_ids note_session
collect_ids-session session [] = refl
collect_ids-session session (id ∷ ids) =
    ap (λ (c : Option String × List String). (c.0, id.result_id ∷ c.1))
      (collect_ids-session session ids)

map-result_id :
    (session : String) (ids : List String)
    → map
        (λ (id : ResultIdentifier). id.result_id)
        (map (λ id. record { session_id = session; result_id = id }) ids)
      ≡ ids
map-result_id session [] = refl
map-result_id session (id ∷ ids) = ap (λ l. id ∷ l) (map-result_id session ids)

-- A message with a first result is read with the session of that result, whatever the sessions of the
-- others, and with every result in order.
pub request_from_first :
    (token : String) (first : ResultIdentifier) (ids : List ResultIdentifier)
    → request_from (record { ids = first ∷ ids; communication_token = token }) ≡ record {
      communication_token = token;
      session_id = first.session_id;
      result_ids = map (λ (id : ResultIdentifier). id.result_id) (first ∷ ids);
    }
unfolding request_from
request_from_first token first ids = rw (collect_ids-session first.session_id ids)

-- The session that survives: the message has no place for the session of no result.
abbrev pub session_kept : String → List String → String
session_kept session [] = ""
session_kept session (_ ∷ _) = session

-- What becomes of a notification on its way.
abbrev pub request_read : Request → Request
request_read r = record r { session_id = session_kept r.session_id r.result_ids }

read_back :
    (token session : String) (ids : List String)
    → request_from (
        request_into
          (record { communication_token = token; session_id = session; result_ids = ids }))
      ≡ record {
        communication_token = token;
        session_id = session_kept session ids;
        result_ids = ids;
      }
unfolding request_from request_into
read_back token session [] = refl
read_back token session (id ∷ ids) =
    request_from_first token (record { session_id = session; result_id = id })
      (map (λ j. record { session_id = session; result_id = j }) ids)
    ∙ ap
        (λ (l : List String).
          let r : Request = record {
            communication_token = token;
            session_id = session;
            result_ids = l;
          } in
          r)
        (map-result_id session (id ∷ ids))

-- A request is read back from its message with its token and its results in order, and with its
-- session if it names a result; with none, the session is read as empty.
pub request_back :
    (r : Request)
    → request_from (request_into r)
      ≡ record r { session_id = session_kept r.session_id r.result_ids }
request_back r = read_back r.communication_token r.session_id r.result_ids
