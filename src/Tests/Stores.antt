-- ===== src/Tests/Stores.antt =====
-- The theorems about the store, at sample values.
use mathlib.Core.List.{Memᴰ}
use ai_memmail.Prelude.{
  ℕ, ◌+◌, ◌≤◌, Bool, true, false, Option, none, some, List, [], ◌∷◌, All, find, ◌≡◌, refl, length,
  take, ltb, if◌then◌else◌, ◌==◌,
}
use ai_memmail.Text.{Text_eq, text}
use ai_memmail.Mail.{DedupeKey_eq, dedupe_key}
use ai_memmail.Classification.{ResolvedEmailClassification, EmailLabel, EmailRule}
use ai_memmail.Storage.{ProcessingClaim, inbound_body_storage_max_chars, inbound_body_for_storage}
use ai_memmail.Storage.{NewThreadHandoffDelivery}
use ai_memmail.Storage.Memory.{begin_thread_handoff_delivery, finish_thread_handoff_delivery}
use ai_memmail.Storage.Memory.Deliveries.{begin_thread_handoff_delivery-finish}
use ai_memmail.Storage.Claims.Lifecycle.{answers, promised, lives_of, answers-promised}
use ai_memmail.Storage.Claims.{
  StatusStep, claim_step, update_step, grants, releases, claimable, grants-releases,
}
use ai_memmail.Storage.Bodies.{inbound_body_for_storage-take}
use ai_memmail.Storage.Labels.{named, resolve_email_classification}
use ai_memmail.Storage.Labels.Again.{resolve_email_classification-again}
use ai_memmail.Storage.Rules.{
  rule_applies, rule_before, sort_rules, find_matching_email_rule,
  ensure_default_classification_policy,
}
use ai_memmail.Storage.Rules.Matching.{
  find_matching_email_rule-first, find_matching_email_rule-none,
}
use ai_memmail.Storage.Rules.Defaults.{
  HasRule, ensure_default_classification_policy-HasRule,
  ensure_default_classification_policy_idempotent,
}
use ai_memmail.Tests.Samples.{
  sample_config, sample_labels, sample_classification, sample_rule, empty_store, question,
}

-- Two workers claim the question; the first one's mail is refused, and a third run claims it again.
abbrev two_workers : List StatusStep
two_workers =
    claim_step question
    ∷ claim_step question
    ∷ update_step (dedupe_key question.metadata) "send_failed"
    ∷ claim_step question
    ∷ []

grants-releases_example :
    grants (dedupe_key question.metadata) two_workers empty_store
    ≤ releases (dedupe_key question.metadata) two_workers
      + claimable (dedupe_key question.metadata) empty_store
grants-releases_example = grants-releases (dedupe_key question.metadata) two_workers empty_store

answers-promised_example :
    answers two_workers empty_store ≡ promised two_workers (lives_of empty_store)
answers-promised_example = answers-promised two_workers empty_store

-- A rule for all topics, and a less important one for the topic 5.
abbrev two_rules : List EmailRule
two_rules = sample_rule 1 [] 10 ∷ sample_rule 2 (5 ∷ []) 20 ∷ []

abbrev about_topic : ℕ → ResolvedEmailClassification
about_topic topic = record {
  category_id = 1;
  category = text "community";
  topic_ids = topic ∷ [];
  topics = text "joining" ∷ [];
  reason = text "asks";
  confidence = 90;
}

finds_rule :
    find_matching_email_rule (text "support") (about_topic 5) two_rules
    ≡ some (sample_rule 2 (5 ∷ []) 20)
unfolding find_matching_email_rule rule_applies rule_before sort_rules text
    ai_memmail.Prelude.list_beq ai_memmail.Prelude.contains ai_memmail.Storage.Rules.insert_rule
finds_rule = refl

find_matching_email_rule-first_example :
    Memᴰ (sample_rule 2 (5 ∷ []) 20) two_rules
    × (rule_applies (text "support") (about_topic 5) (sample_rule 2 (5 ∷ []) 20) ≡ true)
    × All
        (λ q.
          rule_applies (text "support") (about_topic 5) q ≡ true
          → rule_before q (sample_rule 2 (5 ∷ []) 20) ≡ false)
        two_rules
find_matching_email_rule-first_example =
    find_matching_email_rule-first (text "support") (about_topic 5) two_rules
      (sample_rule 2 (5 ∷ []) 20) finds_rule

finds_none : find_matching_email_rule (text "sales") (about_topic 5) two_rules ≡ none
unfolding find_matching_email_rule rule_applies rule_before sort_rules text
    ai_memmail.Prelude.list_beq ai_memmail.Prelude.contains ai_memmail.Storage.Rules.insert_rule
finds_none = refl

find_matching_email_rule-none_example :
    All (λ q. rule_applies (text "sales") (about_topic 5) q ≡ false) two_rules
find_matching_email_rule-none_example =
    find_matching_email_rule-none (text "sales") (about_topic 5) two_rules finds_none

resolve_email_classification-again_example :
    resolve_email_classification sample_classification
      (resolve_email_classification sample_classification sample_labels).1
    ≡ resolve_email_classification sample_classification sample_labels
resolve_email_classification-again_example =
    resolve_email_classification-again sample_classification sample_labels

abbrev marketing : EmailLabel
unfolding ai_memmail.Storage.Labels.memory_label
marketing =
    ai_memmail.Storage.Labels.memory_label 1 (text "marketing_vendor") (text "offers") "system"

finds_marketing :
    find (named (text "marketing_vendor")) sample_labels.categories.labels ≡ some marketing
unfolding named text ai_memmail.Prelude.list_beq ai_memmail.Storage.Labels.memory_label
finds_marketing = refl

ensure_default_classification_policy-HasRule_example :
    All
      (HasRule marketing (ensure_default_classification_policy sample_config sample_labels).rules)
      sample_config.mailboxes
ensure_default_classification_policy-HasRule_example =
    ensure_default_classification_policy-HasRule sample_config sample_labels marketing
      finds_marketing

ensure_default_classification_policy_idempotent_example :
    ensure_default_classification_policy sample_config
      (ensure_default_classification_policy sample_config sample_labels)
    ≡ ensure_default_classification_policy sample_config sample_labels
ensure_default_classification_policy_idempotent_example =
    ensure_default_classification_policy_idempotent sample_config sample_labels

inbound_body_for_storage-take_example : inbound_body_for_storage question ≡ (
  take inbound_body_storage_max_chars question.plain_text,
  ltb inbound_body_storage_max_chars (length question.plain_text),
)
inbound_body_for_storage-take_example = inbound_body_for_storage-take question

abbrev sample_delivery : NewThreadHandoffDelivery
sample_delivery = record {
  request_id = text "u2";
  mailbox_id = text "support";
  thread_id = text "t1";
  source_run_id = none;
  destination = text "mark@example.org";
  remote_target = text "ann@example.com";
  outbound_message_id = text "<u1@example.org>";
}

begin_thread_handoff_delivery-finish_example :
    begin_thread_handoff_delivery sample_delivery (
      finish_thread_handoff_delivery
        (text "support")
        (text "t1")
        (text "u2")
        "sent"
        none
        (begin_thread_handoff_delivery sample_delivery empty_store).1)
    ≡ (
      record (begin_thread_handoff_delivery sample_delivery empty_store).0 {
        status = "sent";
        error = none;
      },
      finish_thread_handoff_delivery
          (text "support")
          (text "t1")
          (text "u2")
          "sent"
          none
          (begin_thread_handoff_delivery sample_delivery empty_store).1,
    )
begin_thread_handoff_delivery-finish_example =
    begin_thread_handoff_delivery-finish sample_delivery "sent" none empty_store
