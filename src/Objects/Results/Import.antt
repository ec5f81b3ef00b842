-- ===== src/Objects/Results/Import.antt =====
-- packages/rust/armonik/src/objects/results/import.rs: data that is there already, imported as results.
use armoni_k_api.Common.{String, ◌≡◌, refl, ap₂, List, [], ◌∷◌, map, ◌=s=◌, map-map_retract}
use armoni_k_api.Common.HashMap.{HashMap, Iteration, collect}
use armoni_k_api.Objects.DataChunk.{Bytes}
use armoni_k_api.Objects.Results.Raw.{Raw, V3Raw, raw_into, raw_from, raw_from-raw_into}

pub record ImportRequest : Type 0 where
  pub results : HashMap String Bytes
  pub session_id : String

pub record V3ResultOpaqueId : Type 0 where
  pub result_id : String
  pub opaque_id : Bytes

pub record V3ImportRequest : Type 0 where
  pub results : List V3ResultOpaqueId
  pub session_id : String

abbrev import_request_entry_into : String × Bytes → V3ResultOpaqueId
import_request_entry_into (k, v) = record { result_id = k; opaque_id = v }

abbrev import_request_entry_from : V3ResultOpaqueId → String × Bytes
import_request_entry_from w = (w.result_id, w.opaque_id)

unfoldable pub import_request_into : Iteration → ImportRequest → V3ImportRequest
import_request_into it r = record {
  results = map import_request_entry_into (it.order r.results);
  session_id = r.session_id;
}

unfoldable pub import_request_from : V3ImportRequest → ImportRequest
import_request_from w = record {
  results = collect ◌=s=◌ (map import_request_entry_from w.results);
  session_id = w.session_id;
}

-- The map is collected again from its entries, in the order in which it was iterated over.
abbrev pub import_request_read : Iteration → ImportRequest → ImportRequest
import_request_read it r = record r { results = collect ◌=s=◌ (it.order r.results) }

pub import_request_back :
    (it : Iteration) (r : ImportRequest)
    → import_request_from (import_request_into it r) ≡ import_request_read it r
unfolding import_request_from import_request_into
import_request_back it r = λ i. record {
  results = collect ◌=s=◌ (
      map-map_retract import_request_entry_into import_request_entry_from (λ e. refl)
        (it.order r.results) i);
  session_id = r.session_id;
}

pub record ImportResponse : Type 0 where
  pub results : HashMap String Raw

pub record V3ImportResponse : Type 0 where
  pub results : List V3Raw

-- The keys are not sent.
unfoldable pub import_response_into : Iteration → ImportResponse → V3ImportResponse
import_response_into it r = record { results = map (λ (_, raw). raw_into raw) (it.order r.results) }

abbrev pub filed : V3Raw → String × Raw
filed x = (x.name, raw_from x)

abbrev pub named : String × Raw → String × Raw
named (_, raw) = (raw.name, raw)

-- Every result is filed under its name.
unfoldable pub import_response_from : V3ImportResponse → ImportResponse
import_response_from w = record { results = collect ◌=s=◌ (map filed w.results) }

-- The results of an answer, filed under their names in the order in which they were iterated over.
abbrev pub import_response_read : Iteration → ImportResponse → ImportResponse
import_response_read it r = record { results = collect ◌=s=◌ (map named (it.order r.results)) }

refiled : (l : List (String × Raw)) → map filed (map (λ (_, raw). raw_into raw) l) ≡ map named l
unfolding raw_into
refiled [] = refl
refiled ((_, raw) ∷ l) = ap₂ (λ a b. (raw.name, a) ∷ b) (raw_from-raw_into raw) (refiled l)

pub import_response_back :
    (it : Iteration) (r : ImportResponse)
    → import_response_from (import_response_into it r) ≡ import_response_read it r
unfolding import_response_from import_response_into
import_response_back it r = λ i. record { results = collect ◌=s=◌ (refiled (it.order r.results) i) }
