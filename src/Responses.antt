-- ===== src/Responses.antt =====
-- webhooks/responses.py: the bodies and headers of the ingest API's answers.
pub mod Laws
use Prim.Native.String.{◌++◌}
use glacis_webhook_service.Base.{
  ℕ, String, Bool, true, false, Option, none, some, List, [], ◌∷◌, ◌==◌, if◌then◌else◌,
}
use glacis_webhook_service.Json.{Json, num, str, Members, end, member, Decimal, ℤ}
use glacis_webhook_service.Json.Access.{set}

pub record Response : Type 0 where
  pub status : ℕ
  pub body : Members
  pub content_type : String
  pub headers : List (String × String)

-- `response[name] = value`
unfoldable pub set_header : String → String → List (String × String) → List (String × String)
set_header name value [] = (name, value) ∷ []
set_header name value ((n, v) ∷ hs) =
    if n == name then (name, value) ∷ hs else (n, v) ∷ set_header name value hs

unfoldable pub get_header : String → List (String × String) → Option String
get_header name [] = none
get_header name ((n, v) ∷ hs) = if n == name then some v else get_header name hs

abbrev pub with_header : String → String → Response → Response
with_header name value r = record r { headers = set_header name value r.headers }

unfoldable pub no_store : Response → Response
unfolding set_header
no_store r = with_header "Cache-Control" "no-store" r

-- A JSON integer.
abbrev pub int : ℕ → Json
int n = num (record { negative = false; coefficient = n; exponent = ℤ.pos 0 })

abbrev pub receipt : String → String → Members
receipt status idempotency_key =
    member "status" (str status) (member "idempotency_key" (str idempotency_key) end)

abbrev pub plain : Members → Response
plain body = record { status = 200; body = body; content_type = "application/json"; headers = [] }

unfoldable pub accepted : String → Response
unfolding no_store
accepted idempotency_key = no_store (plain (receipt "accepted" idempotency_key))

unfoldable pub already_received : String → Response
unfolding no_store
already_received idempotency_key =
    no_store (
      with_header "Idempotent-Replayed" "true" (plain (receipt "already_received" idempotency_key)))

-- `body.update(extra)`
unfoldable pub update : Members → Members → Members
unfolding set
update body end = body
update body (member k v extra) = update (set k v body) extra

abbrev pub with_instance : Option String → Members → Members
with_instance none body = body
with_instance (some path) body = set "instance" (str path) body

-- Problem Details; no `extra` is the empty dict.
unfoldable pub problem : ℕ → String → String → String → Option String → Members → Response
unfolding no_store update
problem status title detail type_slug path extra = no_store (record {
  status = status;
  body =
      update
        (with_instance path (
          member "type" (str ("/errors/" ++ type_slug)) (
            member "title" (str title)
              (member "status" (int status) (member "detail" (str detail) end)))))
        extra;
  content_type = "application/problem+json";
  headers = [];
})
