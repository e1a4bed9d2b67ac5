-- ===== src/Sender.antt =====
-- scripts/send_sample.py: the signing and posting of the sample webhooks. The sample files, the
-- clock, the signature of standardwebhooks and the `post` of requests are parameters.
pub mod Exit
pub mod Signed
mod Tests
use glacis_webhook_service.Base.{
  ◌++◌, ℕ, String, Bool, true, false, not, ◌&&◌, Option, none, some, List, [], ◌∷◌, map, Result, ok,
  err, if◌then◌else◌, eqb,
}
use glacis_webhook_service.Base.Texts.{prefix, show, join, comes_before}
use glacis_webhook_service.Exceptions.{Exn, json_decode_error, attribute_error}
use glacis_webhook_service.Json.{Json, str, obj, Members, member, end}
use glacis_webhook_service.Json.Access.{get}
use glacis_webhook_service.Storage.Queries.{sort_by}

abbrev pub endpoint : String
endpoint = "http://localhost:8000/webhook"

abbrev pub vendor_id : String
vendor_id = "demo"

abbrev pub secret : String
secret = "whsec_MfKQ9r8GKYqrTwjUPD8ILPZIo2LaLaSw"

-- What `requests.post` is called with; the timeout is in seconds.
pub record Posted : Type 0 where
  pub url : String
  pub body : String
  pub headers : List (String × String)
  pub timeout : ℕ

-- A response with what its `json()` answers.
pub record HttpResponse : Type 0 where
  pub status_code : ℕ
  pub text : String
  pub json : Result Exn Json

-- `requests.post` answers, cannot connect, or raises another exception.
pub data Reply : Type 0 where
  answered : HttpResponse → Reply
  connection_error : Reply
  raised : Exn → Reply

-- What is printed, with the values that the line shows.
pub data Line : Type 0 where
  sample_not_found : String → Line
  could_not_reach : Line
  docker_hint : Line
  report : (good : Bool) (name : String) (status_code : ℕ) (key : Json) → Line
  body : Members → Line

-- Two readings of the clock, and the posting. A sample is the text of its file, if that is there.
pub record Outside : Type 1 where
  pub State : Type 0
  pub sample : String → Option String
  pub time_ms : State → ℕ
  pub timestamp : State → ℕ
  pub sign : String → String → ℕ → String → String
  pub post : Posted → State → Reply × State

-- `data = {"raw": r.text[:200]}` where the body is no JSON.
unfoldable pub response_data : HttpResponse → Result Exn Json
response_data r = elim r.json [
  | ok v ↦ ok v
  | err (json_decode_error _) ↦ ok (obj (member "raw" (str (prefix 200 r.text)) end))
  | err e ↦ err e
]

abbrev pub key_of : Members → Json
key_of m = elim (get "idempotency_key" m) [ some key ↦ key | none ↦ str "—" ]

module _ (o : Outside) where
  open o use {State, sample, time_ms, timestamp, sign, post}

  pub record Console : Type 0 where
    pub state : State
    pub printed : List Line

  abbrev pub print : Line → Console → Console
  print line w = record w { printed = w.printed ++ line ∷ [] }

  -- `f"demo-{name}-{int(time.time() * 1000)}"`
  unfoldable pub msg_id : String → State → String
  msg_id name s = join "demo-" (join name (join "-" (show (time_ms s))))

  -- The call of `requests.post` for a sample and its text.
  unfoldable pub request : String → String → State → Posted
  unfolding msg_id
  request name text s =
      let id = msg_id name s in
      let ts = timestamp s in
      record {
        url = endpoint;
        body = text;
        headers =
            ("Content-Type", "application/json")
            ∷ ("webhook-id", id)
            ∷ ("webhook-timestamp", show ts)
            ∷ ("webhook-signature", sign secret id ts text)
            ∷ ("x-vendor-id", vendor_id)
            ∷ [];
        timeout = 10;
      }

  -- The report of a response; `data.get` wants an object.
  unfoldable pub reported :
      String → HttpResponse → Result Exn Json → Console → Result Exn Bool × Console
  reported name r (ok (obj m)) w =
      let good = eqb r.status_code 200 in
      let told = print (report good name r.status_code (key_of m)) w in
      (ok good, if good then told else print (body m) told)
  reported name r (ok _) w = (err attribute_error, w)
  reported name r (err e) w = (err e, w)

  unfoldable pub after_post : String → Reply × State → Console → Result Exn Bool × Console
  unfolding response_data reported
  after_post name (answered r, s) w = reported name r (response_data r) (record w { state = s })
  after_post name (connection_error, s) w =
      (ok false, print docker_hint (print could_not_reach (record w { state = s })))
  after_post name (raised e, s) w = (err e, record w { state = s })

  unfoldable pub post_sample : String → Console → Result Exn Bool × Console
  unfolding request after_post
  post_sample name w = elim (sample name) [
    | none ↦ (ok false, print (sample_not_found name) w)
    | some text ↦ after_post name (post (request name text w.state) w.state) w
  ]

  -- The loop of `main`; an exception ends it.
  abbrev pub next_sample :
      (Bool → Console → Result Exn Bool × Console)
      → Bool
      → Result Exn Bool × Console
      → Result Exn Bool × Console
  next_sample rest all_ok (ok good, w) = rest (all_ok && good) w
  next_sample rest all_ok (err e, w) = (err e, w)

  unfoldable pub post_all : List String → Bool → Console → Result Exn Bool × Console
  unfolding post_sample
  post_all [] all_ok w = (ok all_ok, w)
  post_all (name ∷ names) all_ok w = next_sample (post_all names) all_ok (post_sample name w)

  -- With `--all` the names come from the directory; `name` has its default.
  abbrev pub chosen : Bool → Option String → List String → List String
  chosen true name stems = sort_by comes_before stems
  chosen false none stems = "shipment_fedex" ∷ []
  chosen false (some name) stems = name ∷ []

  abbrev pub exit_code : Result Exn Bool × Console → Result Exn ℕ × Console
  exit_code (ok all_ok, w) = (ok (if all_ok then 0 else 1), w)
  exit_code (err e, w) = (err e, w)

  unfoldable pub main : Bool → Option String → List String → Console → Result Exn ℕ × Console
  unfolding post_all sort_by
  main all name stems w = exit_code (post_all (chosen all name stems) true w)
