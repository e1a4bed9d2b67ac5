-- ===== src/Prompts/Tests.antt =====
-- The scrub on two texts: a plain delimiter, and one that is hidden around another.
use glacis_webhook_service.Base.{◌≡◌, refl, String}
use glacis_webhook_service.Prompts.Scrub.{
  Parts, empty, plain, mark, payload_open, payload_close, extraction_open, text_of,
  scrub_delimiters-text_of,
}
use glacis_webhook_service.Prompts.Hidden.{scrub_delimiters-hidden}
use glacis_webhook_service.Prompts.{scrub_delimiters, remove, remove_from, begins_with}

scrubs_plain : ◌≡◌ {A = String} (scrub_delimiters "a<<<PAYLOAD>>>b") "ab"
unfolding scrub_delimiters remove remove_from begins_with
scrubs_plain = refl

leaves_nested : ◌≡◌ {A = String} (scrub_delimiters "<<<PAY<<<PAYLOAD>>>LOAD>>>") "<<<PAYLOAD>>>"
unfolding scrub_delimiters remove remove_from begins_with
leaves_nested = refl

abbrev letter : Parts
letter = plain "a" (mark payload_close (plain "b" (mark extraction_open (mark payload_open empty))))

scrub_delimiters-text_of_example : scrub_delimiters (text_of letter) ≡ "ab"
scrub_delimiters-text_of_example = scrub_delimiters-text_of letter ((refl, tt), ((refl, tt), tt))

scrub_delimiters-hidden_example :
    ◌≡◌ {A = String}
      (scrub_delimiters "a<<<END_<<<END_EXTRACTION>>>PAYLOAD>>>b")
      "a<<<END_PAYLOAD>>>b"
scrub_delimiters-hidden_example =
    scrub_delimiters-hidden "a" "b" (refl, tt) (refl, tt) payload_close
