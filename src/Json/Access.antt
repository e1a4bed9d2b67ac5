-- ===== src/Json/Access.antt =====
-- How the code reads and writes dicts: `d.get(k)`, `d[k]`, `k in d`, `d[k] = v` and truth tests.
use glacis_webhook_service.Base.{
  String, ◌≡◌, refl, Bool, true, false, not, Option, none, some, ◌==◌, if◌then◌else◌, Result, ok,
  err, arith, eq_iff, eqb,
}
use glacis_webhook_service.Base.Texts.{is_empty}
use glacis_webhook_service.Exceptions.{Exn, key_error, type_error, attribute_error}
use glacis_webhook_service.Json.{
  Json, null, bool, num, str, arr, obj, nil, cons, Members, end, member,
}

-- `d.get(k)`: a missing key gives `None`, which is `none` here.
unfoldable pub get : String → Members → Option Json
get k end = none
get k (member j v m) = if j == k then some v else get k m

-- `d[k] = v` keeps the place of a key that is there.
unfoldable pub set : String → Json → Members → Members
set k v end = member k v end
set k v (member j w m) = if j == k then member k v m else member j w (set k v m)

-- `v[k]` on a value that should be a dict.
unfoldable pub subscript : String → Json → Result Exn Json
unfolding get
subscript k (obj m) = elim (get k m) [ none ↦ err (key_error k) | some v ↦ ok v ]
subscript k _ = err type_error

-- `v.get(k)` on a value that should be a dict.
unfoldable pub get_attribute : String → Json → Result Exn (Option Json)
get_attribute k (obj m) = ok (get k m)
get_attribute k _ = err attribute_error

-- `bool(v)`
abbrev pub truthy : Json → Bool
truthy null = false
truthy (bool b) = b
truthy (num n) = not (eqb n.coefficient 0)
truthy (str s) = not (is_empty s)
truthy (arr nil) = false
truthy (arr (cons x xs)) = true
truthy (obj end) = false
truthy (obj (member k v m)) = true

abbrev pub truthy_get : Option Json → Bool
truthy_get none = false
truthy_get (some v) = truthy v

-- `d.get(k) == s` for a text `s`
abbrev pub is_str : String → Option Json → Bool
is_str s (some (str t)) = t == s
is_str s _ = false

-- `d.get(k) is None`
abbrev pub is_none : Option Json → Bool
is_none none = true
is_none (some null) = true
is_none (some v) = false

pub get-set :
    (k j : String) (v : Json) (m : Members)
    → get j (set k v m) ≡ (if k == j then some v else get j m)
unfolding get set
get-set k j v end = refl
get-set k j v (member i w m) = ground (arith, eq_iff k j, eq_iff i k, eq_iff i j, get-set k j v m)
