-- ===== src/Sender/Tests.antt =====
-- Two samples, posted to a server that accepts every post.
use glacis_webhook_service.Base.{
  ◌≡◌, refl, String, ℕ, true, false, none, some, [], ◌∷◌, Result, ok, err, ◌==◌, ◌↔◌, arith,
  if◌then◌else◌, length, leb, ◌+◌,
}
use glacis_webhook_service.Base.Texts.{comes_before, show, digits_from}
use glacis_webhook_service.Exceptions.{Exn, webhook_verification_error, json_decode_error}
use glacis_webhook_service.Json.{obj, member, str, end}
use glacis_webhook_service.Json.Access.{get}
use glacis_webhook_service.Models.{VendorCredential}
use glacis_webhook_service.Responses.{get_header}
use glacis_webhook_service.Storage.Queries.{sort_by, insert_by}
use glacis_webhook_service.Auth.{AuthRequest, SignedHeaders, authenticate}
use glacis_webhook_service.Ingest.{is_valid_id}
use glacis_webhook_service.Sender.{
  Outside, Console, Posted, answered, main, post_all, post_sample, after_post, reported,
  response_data, request, msg_id, vendor_id, secret, chosen,
}
use glacis_webhook_service.Sender.Exit.{AllPosted, main-AllPosted}
use glacis_webhook_service.Sender.Signed.{request_authenticated}

-- The state is the number of posts; every second of them has a body that is no JSON.
abbrev server : Outside
server = record {
  State = ℕ;
  sample = λ name. if name == "lost" then none else some "{}";
  time_ms = λ s. 1700000000123;
  timestamp = λ s. 1700000000;
  sign = λ secret id ts text. "v1";
  post = λ p s. (
    answered (record {
      status_code = 200;
      text = "ok";
      json =
          if leb s 0
          then ok (obj (member "idempotency_key" (str "demo:a") end))
          else err (json_decode_error "no JSON");
    }),
    s + 1,
  );
}

abbrev quiet : Console server
quiet = record { state = 0; printed = [] }

abbrev outcome : Result Exn ℕ × Console server
outcome = main server true none ("b" ∷ "a" ∷ []) quiet

posts_two : (outcome.1.state ≡ 2) × (length outcome.1.printed ≡ 2)
unfolding main post_all post_sample after_post reported response_data request sort_by insert_by
    comes_before get
posts_two = (refl, refl)

exits : outcome ≡ (ok 0, outcome.1)
unfolding main post_all post_sample after_post reported response_data request sort_by insert_by
    comes_before get
exits = refl

stops_at_none : (main server false (some "lost") [] quiet).0 ≡ ok 1
unfolding main post_all post_sample
stops_at_none = refl

main-AllPosted_example :
    (outcome ≡ (ok 0, outcome.1))
    ↔ AllPosted server (chosen server true none ("b" ∷ "a" ∷ [])) quiet outcome.1
main-AllPosted_example = main-AllPosted server true none ("b" ∷ "a" ∷ []) quiet outcome.1

abbrev demo : VendorCredential
demo = record { vendor_id = vendor_id; hmac_secret = secret; active = true }

abbrev posted : Posted
posted = request server "a" "{}" 0

abbrev received : AuthRequest
received = record { headers = posted.headers; body = posted.body }

verify_all : String → String → SignedHeaders → Result Exn (Unit {0})
verify_all hmac_secret text h =
    if h.webhook_signature == "v1" then ok tt else err webhook_verification_error

request_authenticated_example :
    (authenticate verify_all (demo ∷ []) received ≡ ok (some demo))
    × (get_header "webhook-id" received.headers ≡ some (msg_id server "a" 0))
    × (is_valid_id (msg_id server "a" 0) ≡ true)
unfolding verify_all
request_authenticated_example =
    request_authenticated server verify_all "a" "{}" 0 received
      (record { headers = λ name. refl; body = refl }) (demo ∷ []) demo refl refl refl refl refl
      (unfold show digits_from in omega arith)
