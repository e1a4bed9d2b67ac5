-- ===== src/Workflow/Sweep/Recovery.antt =====
-- What a sweep that returns has done, while other processes write the tables between its steps.
use glacis_webhook_service.Base.{ℕ, ◌≡◌, List, All, ◌++◌, length}
use glacis_webhook_service.Llm.{Llm}
use glacis_webhook_service.Models.{Db}
use glacis_webhook_service.Services.{Services}
use glacis_webhook_service.Storage.History.{Reach}
use glacis_webhook_service.Storage.Queries.{StuckRow, list_stuck_received, list_stuck_processing}
use glacis_webhook_service.Workflow.Temporal.{Engine, EngineLaws}
use glacis_webhook_service.Workflow.Sweep.{Sweeper}
use glacis_webhook_service.Workflow.Sweep.Handled.{History, Others, Handled}

module _ (llm : Llm) (s : Services) (history : History s) where
  module _ (engine : Engine (Sweeper llm s))
      (laws : EngineLaws (Sweeper llm s) (Others llm s history) engine) (first : Db) where
    open engine use {execute_activity}

    abbrev After : Sweeper llm s → Type 0
    After u = Reach first u.worker.db

    -- What a listing of the sweep returned, and when.
    pub record Listed (list : Sweeper llm s → List StuckRow) (rows : List StuckRow) : Type 0 where
      pub state : Sweeper llm s
      pub later : Reach first state.worker.db
      pub listed : rows ≡ list state

    module _ (received_grace_seconds processing_grace_seconds limit : ℕ) where
      abbrev pub received : Sweeper llm s → List StuckRow
      received u = list_stuck_received received_grace_seconds limit u.worker.now u.worker.db

      abbrev pub processing : Sweeper llm s → List StuckRow
      processing u = list_stuck_processing processing_grace_seconds limit u.worker.now u.worker.db

      -- The rows of both listings, each of them handled at the end.
      pub record Recovered (n : ℕ) (last : Sweeper llm s) : Type 0 where
        pub received_rows : List StuckRow
        pub received_listed : Listed received received_rows
        pub processing_rows : List StuckRow
        pub processing_listed : Listed processing processing_rows
        pub all_handled :
            All (Handled llm s history engine laws first last) (received_rows ++ processing_rows)
        pub count : n ≡ length (received_rows ++ processing_rows)
