-- ===== src/Db/Elastic.antt =====
-- The client of the search index (backend/src/db/elastic.rs), over a client for HTTP.
use mini_siem_project.Prelude.{
  ℕ, ◌==◌, leb, ltb, Bool, true, false, ◌&&◌, ◌||◌, String, none, some, List, [], ◌∷◌,
  if◌then◌else◌,
}
use mini_siem_project.Prelude.Int.{ℤ}
use mini_siem_project.Prelude.Text.{◌++ₛ◌, str_eq}
use mini_siem_project.Prelude.Eff.{Result, ok, err, Eff, pure, fail, ◌>>=◌, ◌>>◌}
use mini_siem_project.Types.Json.{
  Value, Fields, null, bool, number, pos_int, string, object, field, end, get,
}
use mini_siem_project.Types.Log.{Log}

pub data HttpMethod : Type 0 where
  http_get : HttpMethod
  http_post : HttpMethod
  http_delete : HttpMethod

pub data HttpBody : Type 0 where
  no_body : HttpBody
  json_body : Value → HttpBody
  -- a text and its content type
  text_body : String → String → HttpBody

-- What can be read from a response: its status, its body as a text and as JSON.
pub record HttpResponse : Type 0 where
  pub status : ℕ
  pub text : Result String
  pub json : Result Value

-- The client for HTTP and the encodings: of a log, of JSON as a text, of identifiers, moments and
-- statuses, and `insert` into a JSON object.
pub record Http (S : Type 0) : Type 0 where
  pub send : HttpMethod → String → HttpBody → Eff S HttpResponse
  pub log_value : Log → Result Value
  pub show_value : Value → Result String
  pub display_value : Value → String
  pub show_id : ℕ → String
  pub rfc3339 : ℤ → String
  pub show_status : ℕ → String
  pub insert : String → Value → Fields → Fields

pub record ElasticClient : Type 0 where
  pub base_url : String

abbrev pub is_success : ℕ → Bool
is_success status = leb 200 status && ltb status 300

-- `trim_end_matches('/')`
unfoldable pub trim_slashes : String → String
trim_slashes String.[] = ""
trim_slashes (String.◌∷◌ c s) =
    let rest = trim_slashes s in
    if str_eq rest "" && str_eq (String.◌∷◌ c String.[]) "/" then "" else String.◌∷◌ c rest

abbrev pub ok_or : {A : Type 0} → A → Result A → A
ok_or d (ok a) = a
ok_or d (err e) = d

abbrev pub of_result : {S A : Type 0} → Result A → Eff S A
of_result r s = (r, s)

-- The response's `errors`, where that is a Boolean.
abbrev as_bool : Value → Bool
as_bool (bool b) = b
as_bool v = false

unfoldable pub has_errors : Value → Bool
has_errors v = elim (get v "errors") [ some e ↦ as_bool e | none ↦ false ]

module _ {S : Type 0} (http : Http S) where
  open http use {send, log_value, show_value, display_value, show_id, rfc3339, show_status, insert}

  -- The error of a status: a label, the status and the text of the body, if it can be read.
  abbrev pub failed : {A : Type 0} → String → HttpResponse → Eff S A
  failed label res = fail (label ++ₛ show_status res.status ++ₛ " - " ++ₛ ok_or "" res.text)

  abbrev pub or_failed : String → HttpResponse → Eff S (Unit {0})
  or_failed label res = if is_success res.status then pure tt else failed label res

  unfoldable pub health : ElasticClient → Eff S Bool
  health client = do
    res ← send http_get (client.base_url ++ₛ "/_cluster/health") no_body
    (if is_success res.status
        then pure true
        else fail ("elasticsearch health check failed: " ++ₛ show_status res.status))

  unfoldable pub new_client : String → Eff S ElasticClient
  unfolding trim_slashes health
  new_client base_url = do
    let client : ElasticClient = record { base_url = trim_slashes base_url }
    health client
    pure client

  unfoldable pub with_timestamp : Log → Value → Value
  with_timestamp log (object fields) =
      object (insert "@timestamp" (string (rfc3339 log.timestamp)) fields)
  with_timestamp log v = v

  unfoldable pub index_log : ElasticClient → String → Log → Eff S (Unit {0})
  unfolding with_timestamp
  index_log client index log = do
    body ← of_result (log_value log)
    res ←
        send http_post
          (client.base_url ++ₛ "/" ++ₛ index ++ₛ "/_doc/" ++ₛ show_id log.id ++ₛ "?refresh=false")
          (json_body (with_timestamp log body))
    or_failed "failed to index log: " res

  -- The two lines of each log.
  unfoldable pub bulk_payload : List Log → Eff S String
  unfolding with_timestamp
  bulk_payload [] = pure ""
  bulk_payload (log ∷ logs) = do
    meta ← of_result (
        show_value
          (object (field "index" (object (field "_id" (string (show_id log.id)) end)) end)))
    doc ← of_result (log_value log)
    line ← of_result (show_value (with_timestamp log doc))
    rest ← bulk_payload logs
    pure (meta ++ₛ "\n" ++ₛ line ++ₛ "\n" ++ₛ rest)

  -- An answer that is no JSON counts as one without errors.
  unfoldable pub bulk_answer : HttpResponse → Eff S (Unit {0})
  unfolding has_errors
  bulk_answer res =
      if is_success res.status
      then (let v = ok_or null res.json in
          if has_errors v
          then fail ("bulk index reported errors: " ++ₛ display_value v)
          else pure tt)
      else failed "bulk index failed: " res

  unfoldable pub bulk_index : ElasticClient → String → List Log → Eff S (Unit {0})
  unfolding bulk_payload bulk_answer
  bulk_index client index [] = pure tt
  bulk_index client index (log ∷ logs) = do
    payload ← bulk_payload (log ∷ logs)
    res ←
        send http_post (client.base_url ++ₛ "/" ++ₛ index ++ₛ "/_bulk?refresh=false")
          (text_body payload "application/x-ndjson")
    bulk_answer res

  unfoldable pub search : ElasticClient → String → Value → ℕ → ℕ → Eff S Value
  search client index query from size = do
    res ← send http_post (client.base_url ++ₛ "/" ++ₛ index ++ₛ "/_search") (
        json_body (
          object (
            field "from" (number (pos_int from))
              (field "query" query (field "size" (number (pos_int size)) end)))))
    (if is_success res.status then of_result res.json else failed "search failed: " res)

  -- An index that is not there counts as deleted.
  unfoldable pub delete_index : ElasticClient → String → Eff S (Unit {0})
  delete_index client index = do
    res ← send http_delete (client.base_url ++ₛ "/" ++ₛ index) no_body
    (if is_success res.status || res.status == 404
        then pure tt
        else failed "delete index failed: " res)

  unfoldable pub delete_by_query : ElasticClient → String → Value → Eff S (Unit {0})
  delete_by_query client index query = do
    res ←
        send http_post (client.base_url ++ₛ "/" ++ₛ index ++ₛ "/_delete_by_query?refresh=true")
          (json_body (object (field "query" query end)))
    or_failed "delete_by_query failed: " res
