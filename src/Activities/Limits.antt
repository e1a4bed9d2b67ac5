-- ===== src/Activities/Limits.antt =====
-- The bounds on what the activities write.
use Prim.Native.String.{◌++◌}
use glacis_webhook_service.Base.{eq_iff, ◌≤◌, arith, ◌≡◌, ◌<◌, ◌⊎◌, inr, refl, none}
use glacis_webhook_service.Base.Texts.{len, prefix, len-prefix, len-append}
use glacis_webhook_service.Json.{Json, str, obj, bool, null, num, arr}
use glacis_webhook_service.Json.Access.{get}
use glacis_webhook_service.Activities.{
  bounded_error_message, llm_claimed_event_type, claimed_type, String, Option, some,
}

-- The stored error message fits its 2048 characters; a message that fits already is stored as it is,
-- and of a longer one the first 2034 characters are, with the mark of truncation behind them.
pub bounded_error_message_lem :
    (m : String)
    → (len (bounded_error_message m) ≤ 2048)
      × (((len m ≤ 2048) × (bounded_error_message m ≡ m))
          ⊎ ((2048 < len m) × (bounded_error_message m ≡ prefix 2034 m ++ "...[truncated]")))
unfolding bounded_error_message
bounded_error_message_lem m =
    let a = len-append (prefix 2034 m) "...[truncated]" in let b = len-prefix 2034 m in ground arith

claimed_type_lem :
    (o : Option Json)
    → (claimed_type o ≡ "shipment")
      ⊎ ((claimed_type o ≡ "invoice") ⊎ (claimed_type o ≡ "unclassified"))
unfolding claimed_type
claimed_type_lem (some (str t)) = ground (arith, eq_iff t "shipment", eq_iff t "invoice")
claimed_type_lem (some null) = inr (inr refl)
claimed_type_lem (some (bool b)) = inr (inr refl)
claimed_type_lem (some (num n)) = inr (inr refl)
claimed_type_lem (some (arr xs)) = inr (inr refl)
claimed_type_lem (some (obj m)) = inr (inr refl)
claimed_type_lem none = inr (inr refl)

-- The type that a rejected output is stored under is one of the three that there are, whatever the
-- output holds.
pub llm_claimed_event_type_lem :
    (raw : Json)
    → (llm_claimed_event_type raw ≡ "shipment")
      ⊎ ((llm_claimed_event_type raw ≡ "invoice") ⊎ (llm_claimed_event_type raw ≡ "unclassified"))
unfolding llm_claimed_event_type
llm_claimed_event_type_lem null = inr (inr refl)
llm_claimed_event_type_lem (bool b) = inr (inr refl)
llm_claimed_event_type_lem (num n) = inr (inr refl)
llm_claimed_event_type_lem (str s) = inr (inr refl)
llm_claimed_event_type_lem (arr xs) = inr (inr refl)
llm_claimed_event_type_lem (obj m) = claimed_type_lem (get "event_type" m)
