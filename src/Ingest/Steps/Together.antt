-- ===== src/Ingest/Steps/Together.antt =====
-- Many requests at once: the threads of the view step in any order, and between their steps the
-- workers write the tables and the services change as they like.
use glacis_webhook_service.Base.{ℕ, String, ◌≡◌, subst, Result, ok}
use glacis_webhook_service.Exceptions.{Exn}
use glacis_webhook_service.Json.{Json}
use glacis_webhook_service.Storage.History.{Reach}
use glacis_webhook_service.Responses.{Response, accepted}
use glacis_webhook_service.Services.{Services}
use glacis_webhook_service.Bridge.Threads.{move, moved_at}
use glacis_webhook_service.Ingest.{Request, World}
use glacis_webhook_service.Ingest.Durability.{IsAccepted, Took}
use glacis_webhook_service.Ingest.Steps.{Stage, arrived, finished, step}
use glacis_webhook_service.Ingest.Steps.Knows.{Sound, Sound-stays}
use glacis_webhook_service.Ingest.Steps.Sounds.{step-Sound, step-Reach}

module _ (s : Services) (loads : String → Result Exn Json) (cap : ℕ) where
  open s use {start_workflow}

  -- The requests are numbered, each with its thread.
  pub record System : Type 0 where
    pub world : World s
    pub at : ℕ → Stage

  module _ (requests : ℕ → Request) where
    -- A thread takes a step; or the world changes otherwise, the tables by the helpers of storage.py.
    pub data Move (sys : System) : System → Type 0 where
      thread :
          (i : ℕ)
          → Move sys (record {
            world = (step s loads cap (requests i) (sys.at i) sys.world).1;
            at = move sys.at i (step s loads cap (requests i) (sys.at i) sys.world).0;
          })
      outside :
          (w : World s) → Reach sys.world.db w.db → Move sys (record { world = w; at = sys.at })

    -- From a world in which no request has been read.
    pub data Moves (w : World s) : System → Type 0 where
      begin : Moves w (record { world = w; at = λ i. arrived })
      later : {a b : System} → Moves w a → Move a b → Moves w b

  module _ (requests : ℕ → Request) where
    Move-Sound :
        {a b : System}
        → Move requests a b
        → ((j : ℕ) → Sound s loads cap (requests j) (a.at j) a.world)
        → (j : ℕ) → Sound s loads cap (requests j) (b.at j) b.world
    Move-Sound {a} (thread i) h j =
        let w = (step s loads cap (requests i) (a.at i) a.world).1 in
        moved_at (λ k st. Sound s loads cap (requests k) st w) a.at i _ j
          (step-Sound s loads cap (requests i) (a.at i) a.world (h i))
          (Sound-stays s loads cap (requests j) (a.at j) a.world w
            (step-Reach s loads cap (requests i) (a.at i) a.world) (h j))
    Move-Sound {a} (outside w r) h j =
        Sound-stays s loads cap (requests j) (a.at j) a.world w r (h j)

    Moves-Sound :
        {w : World s} {sys : System}
        → Moves requests w sys
        → (j : ℕ) → Sound s loads cap (requests j) (sys.at j) sys.world
    Moves-Sound begin j = tt
    Moves-Sound (later m st) j = Move-Sound st (Moves-Sound m) j

    -- However the threads of any number of requests interleave, and whatever the workers write and
    -- the services do in between: once a request has been answered with a 200 that is no replay, and
    -- from then on, a row with the key of its vendor and webhook id is in the table, and Temporal has
    -- confirmed the start of the workflow for that key, the id of the row and the payload of the
    -- request.
    pub answered_accepted :
        (w : World s) (sys : System) (i : ℕ) (r : Response)
        → Moves requests w sys
        → sys.at i ≡ finished (ok r)
        → IsAccepted r
        → Took s loads (requests i) sys.world
    answered_accepted w sys i r m e accepted =
        subst (λ st. Sound s loads cap (requests i) st sys.world) e (Moves-Sound m i) accepted
