-- ===== src/Storage/Claims.antt =====
-- Claims by several workers: whatever the order in which claims and updates of statuses reach the
-- store, a message is granted again only after it was released.
pub mod Lifecycle
use ai_memmail.Prelude.{
  ℕ, ◌+◌, ◌≤◌, String, false, Option, none, some, List, [], ◌∷◌, ◌≡◌, arith, if◌then◌else◌, ◌==◌,
  String_eq, ◌&&◌, ◌||◌,
}
use ai_memmail.Prelude.Assoc.{lookup, lookup-insert}
use ai_memmail.Mail.{DedupeKey, DedupeKey_eq, InboundMessage, dedupe_key}
use ai_memmail.Storage.{
  status_processing, ProcessingClaim, claimed, in_progress, already_finished,
  processing_status_can_reclaim, processing_claim_for_existing_status,
}
use ai_memmail.Storage.Memory.{
  MemoryProcessingStore, set_status, claim_message, update_message_status,
}

-- What the workers do with the statuses of messages.
pub data StatusStep : Type 0 where
  claim_step : InboundMessage → StatusStep
  update_step : DedupeKey → String → StatusStep

unfoldable pub take_step : StatusStep → MemoryProcessingStore → MemoryProcessingStore
unfolding claim_message update_message_status
take_step (claim_step message) s = (claim_message message s).1
take_step (update_step key status) s = update_message_status key status s

abbrev granted : ProcessingClaim → ℕ
granted claimed = 1
granted (in_progress status) = 0
granted (already_finished status) = 0

unfoldable pub grants_of : DedupeKey → StatusStep → MemoryProcessingStore → ℕ
unfolding claim_message
grants_of key (claim_step message) s =
    if dedupe_key message.metadata == key then granted (claim_message message s).0 else 0
grants_of key (update_step updated status) s = 0

-- How often the message of a key is granted in the course of the steps.
unfoldable pub grants : DedupeKey → List StatusStep → MemoryProcessingStore → ℕ
unfolding take_step grants_of
grants key [] s = 0
grants key (step ∷ steps) s = grants_of key step s + grants key steps (take_step step s)

abbrev releases_of : DedupeKey → StatusStep → ℕ
releases_of key (claim_step message) = 0
releases_of key (update_step updated status) =
    if updated == key && processing_status_can_reclaim status false then 1 else 0

-- How often it is released: its status is set to one that a worker may claim again.
unfoldable pub releases : DedupeKey → List StatusStep → ℕ
unfolding processing_status_can_reclaim
releases key [] = 0
releases key (step ∷ steps) = releases_of key step + releases key steps

abbrev claimable_status : Option String → ℕ
claimable_status none = 1
claimable_status (some status) = if processing_status_can_reclaim status false then 1 else 0

-- One where the message may be claimed: it has no status, or one that a worker may claim.
unfoldable pub claimable : DedupeKey → MemoryProcessingStore → ℕ
unfolding processing_status_can_reclaim lookup
claimable key s = claimable_status (lookup key s.statuses)

-- A claim of the key uses up that it may be claimed; another claim or an update that is no release
-- grants nothing.
step-balance :
    (key : DedupeKey) (step : StatusStep) (s : MemoryProcessingStore)
    → grants_of key step s + claimable key (take_step step s)
      ≤ releases_of key step + claimable key s
unfolding grants_of take_step claimable claim_message update_message_status set_status
    processing_status_can_reclaim processing_claim_for_existing_status
step-balance key (claim_step message) s = ground (
  arith,
  lookup-insert (dedupe_key message.metadata) key status_processing s.statuses,
  DedupeKey_eq.beq_iff (dedupe_key message.metadata) key,
)
step-balance key (update_step updated status) s =
    ground (arith, lookup-insert updated key status s.statuses, DedupeKey_eq.beq_iff updated key)

-- In every sequence of claims and updates, of whichever workers, a message is granted at most once
-- more often than it is released, and not more often where it may not be claimed at the start.
pub grants-releases :
    (key : DedupeKey) (steps : List StatusStep) (s : MemoryProcessingStore)
    → grants key steps s ≤ releases key steps + claimable key s
unfolding grants releases
grants-releases key [] s = omega arith
grants-releases key (step ∷ steps) s =
    omega (arith, step-balance key step s, grants-releases key steps (take_step step s))
