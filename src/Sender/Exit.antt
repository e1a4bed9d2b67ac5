-- ===== src/Sender/Exit.antt =====
-- When scripts/send_sample.py ends with the exit code 0.
use glacis_webhook_service.Base.{
  ℕ, String, Bool, true, false, ◌&&◌, ◌≡◌, refl, sym, ap, subst, Option, some, List, [], ◌∷◌,
  Result, ok, err, eqb, Bool-cases, Option-cases, inl, inr, ◌↔◌, arith, ok_inj,
}
use glacis_webhook_service.Exceptions.{Exn}
use glacis_webhook_service.Json.{Json, null, bool, num, str, arr, obj, Members}
use glacis_webhook_service.Sender.{
  Outside, Console, HttpResponse, Reply, answered, connection_error, raised, report, print, request,
  response_data, reported, after_post, post_sample, next_sample, post_all, chosen, exit_code, main,
  key_of,
}

module _ (o : Outside) where
  open o use {State, sample, post}

  -- The sample has a file, its post is answered with a 200, and the body can be reported.
  pub record HasPosted (name : String) (w v : Console o) : Type 0 where
    pub text : String
    pub found : sample name ≡ some text
    pub response : HttpResponse
    pub after : State
    pub replied : post (request o name text w.state) w.state ≡ (answered response, after)
    pub good : response.status_code ≡ 200
    pub data_of : Members
    pub read : response_data response ≡ ok (obj data_of)
    pub left : v ≡ print o (report true name 200 (key_of data_of)) (record w { state = after })

  -- Every sample is posted so, one after the other.
  pub data AllPosted : List String → Console o → Console o → Type 0 where
    done : {w : Console o} → AllPosted [] w w
    posts :
        {name : String} {names : List String} {w v u : Console o}
        → HasPosted name w v
        → AllPosted names v u
        → AllPosted (name ∷ names) w u

  both_same :
      {A : Type 0} {a b : A} {w v : Console o}
      → ◌≡◌ {A = A × Console o} (a, w) (b, v)
      → (a ≡ b) × (w ≡ v)
  both_same {A} h = (ap (λ (x : A × Console o). x.0) h, ap (λ (x : A × Console o). x.1) h)

  bad_is_not_good : ◌≡◌ {A = Result Exn Bool} (ok false) (ok true) → ⊥
  bad_is_not_good h = cc

  raise_is_no_result : {e : Exn} {b : Bool} → ◌≡◌ {A = Result Exn Bool} (err e) (ok b) → ⊥
  raise_is_no_result h = cc

  reported_good :
      (name : String) (r : HttpResponse) (d : Result Exn Json) (w v : Console o)
      → reported o name r d w ≡ (ok true, v)
      → (m : Members) × (d ≡ ok (obj m))
        × (r.status_code ≡ 200)
        × (v ≡ print o (report true name 200 (key_of m)) w)
  unfolding reported
  reported_good name r (ok (obj m)) w v h = elim (Bool-cases (eqb r.status_code 200)) [
    | inl t ↦
        let q : r.status_code ≡ 200 = ground arith in
        (
          m,
          refl,
          q,
          subst (λ n. v ≡ print o (report true name n (key_of m)) w) q
              (sym (both_same (rw (t, reported) at h)).1),
        )
    | inr n ↦ absurd (bad_is_not_good (both_same (rw (n, reported) at h)).0)
  ]
  reported_good name r (ok null) w v h = cc
  reported_good name r (ok (bool b)) w v h = cc
  reported_good name r (ok (num n)) w v h = cc
  reported_good name r (ok (str s)) w v h = cc
  reported_good name r (ok (arr xs)) w v h = cc
  reported_good name r (err e) w v h = cc

  post_sample_good :
      (name : String) (w v : Console o) → post_sample o name w ≡ (ok true, v) → HasPosted name w v
  unfolding post_sample after_post
  post_sample_good name w v h = elim (Option-cases (sample name)) [
    | inl missing ↦ absurd (bad_is_not_good (both_same (rw (missing, post_sample) at h)).0)
    | inr (text, found) ↦
        sent text found (post (request o name text w.state) w.state) refl
          (rw (found, post_sample) at h)
  ]
    where
      sent :
          (text : String) (found : sample name ≡ some text) (x : Reply × State)
          → post (request o name text w.state) w.state ≡ x
          → after_post o name (post (request o name text w.state) w.state) w ≡ (ok true, v)
          → HasPosted name w v
      sent text found (answered r, s) e k =
          let (m, read, good, left) =
            reported_good name r (response_data r) (record w { state = s }) v
              (rw (e, after_post) at k) in
          record {
            text = text;
            found = found;
            response = r;
            after = s;
            replied = e;
            good = good;
            data_of = m;
            read = read;
            left = left;
          }
      sent text found (connection_error, s) e k =
          absurd (bad_is_not_good (both_same (rw (e, after_post) at k)).0)
      sent text found (raised x, s) e k =
          absurd (raise_is_no_result (both_same (rw (e, after_post) at k)).0)

  HasPosted-good :
      (name : String) (w v : Console o) → HasPosted name w v → post_sample o name w ≡ (ok true, v)
  unfolding post_sample after_post reported
  HasPosted-good name w v p = rw (p.found, post_sample, p.replied, p.read, p.good, p.left) refl

  post_all_good :
      (names : List String) (b : Bool) (w v : Console o)
      → post_all o names b w ≡ (ok true, v)
      → (b ≡ true) × AllPosted names w v
  unfolding post_all
  post_all_good [] b w v h =
      let (q, same) = both_same h in (ok_inj q, subst (AllPosted [] w) same done)
  post_all_good (name ∷ names) b w v h = first (post_all_good names) (post_sample o name w) refl h
    where
      first :
          ((c : Bool) (u x : Console o)
            → post_all o names c u ≡ (ok true, x)
            → (c ≡ true) × AllPosted names u x)
          → (y : Result Exn Bool × Console o) → post_sample o name w ≡ y
          → next_sample o (post_all o names) b y ≡ (ok true, v)
          → (b ≡ true) × AllPosted (name ∷ names) w v
      first rest (ok good, u) e k =
          let (both, ps) = rest (b && good) u v k in
          let g : good ≡ true = ground arith in
          (
            ground arith,
            posts (post_sample_good name w u (subst (λ c. post_sample o name w ≡ (ok c, u)) g e))
                ps,
          )
      first rest (err x, u) e k = absurd (raise_is_no_result (both_same k).0)

  AllPosted-good :
      {names : List String} {w v : Console o}
      → AllPosted names w v
      → post_all o names true w ≡ (ok true, v)
  unfolding post_all
  AllPosted-good done = refl
  AllPosted-good (posts {name} {names} {w} {v} p ps) =
      rw (HasPosted-good name w v p) (AllPosted-good ps)

  exit_good :
      (x : Result Exn Bool × Console o) (v : Console o)
      → exit_code o x ≡ (ok 0, v)
      → x ≡ (ok true, v)
  exit_good (ok true, w) v h = ap (λ (x : Console o). (ok true, x)) (both_same h).1
  exit_good (ok false, w) v h = absurd (failing (both_same h).0)
    where
      failing : ◌≡◌ {A = Result Exn ℕ} (ok 1) (ok 0) → ⊥
      failing q = let one : ◌≡◌ {A = ℕ} 1 0 = ok_inj q in absurd (omega (arith, one))
  exit_good (err e, w) v h = absurd (raising (both_same h).0)
    where
      raising : ◌≡◌ {A = Result Exn ℕ} (err e) (ok 0) → ⊥
      raising q = cc

  -- The script exits with 0 exactly if it has posted each chosen sample, in order and one after the
  -- other, and each has a file and was answered with a 200 and a body that can be reported: a JSON
  -- object, or none that is JSON at all. With `--all` the chosen ones are those of the directory,
  -- sorted; else it is the named one, or the default.
  pub main-AllPosted :
      (all : Bool) (name : Option String) (stems : List String) (w v : Console o)
      → (main o all name stems w ≡ (ok 0, v)) ↔ AllPosted (chosen o all name stems) w v
  unfolding main
  main-AllPosted all name stems w v = (
    λ h. (post_all_good (chosen o all name stems) true w v (exit_good _ v h)).1,
    λ ps. rw (AllPosted-good ps) refl,
  )
