-- ===== src/Responses/Laws.antt =====
-- Every builder forbids caching, whatever it is given.
use glacis_webhook_service.Base.{
  [], ◌∷◌, ◌≡◌, List, some, ◌==◌, if◌then◌else◌, false, arith, eq_iff, refl,
}
use glacis_webhook_service.Responses.{
  Response, set_header, get_header, with_header, no_store, String,
}

pub get_header-set_header :
    (name n v : String) (hs : List (String × String))
    → get_header name (set_header n v hs) ≡ (if n == name then some v else get_header name hs)
unfolding get_header set_header
get_header-set_header name n v [] = refl
get_header-set_header name n v ((m, w) ∷ hs) =
    ground (arith, eq_iff n name, eq_iff m name, eq_iff m n, get_header-set_header name n v hs)

-- The header that forbids caching.
abbrev pub IsUncached : Response → Type 0
IsUncached r = get_header "Cache-Control" r.headers ≡ some "no-store"

pub no_store-IsUncached : (r : Response) → IsUncached (no_store r)
unfolding no_store
no_store-IsUncached r = get_header-set_header "Cache-Control" "Cache-Control" "no-store" r.headers

-- Setting another header keeps it.
pub with_header-IsUncached :
    (name value : String) (r : Response)
    → (name == "Cache-Control") ≡ false
    → IsUncached r
    → IsUncached (with_header name value r)
with_header-IsUncached name value r n h =
    rw (get_header-set_header "Cache-Control" name value r.headers, n) h
