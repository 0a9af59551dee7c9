-- ===== src/Storage/Claims/Lifecycle.antt =====
-- What the claims of the store promise, without its table of statuses: each message is waiting, busy or
-- finished.
use ai_memmail.Prelude.{
  Bool-cases, inl, inr, sym, String, Bool, true, false, Option, none, some, List, [], ◌∷◌, ◌≡◌,
  refl, ap, ◌∙◌, arith, if◌then◌else◌, ◌==◌, String_eq, ◌||◌,
}
use ai_memmail.Prelude.Assoc.{lookup, lookup-insert}
use ai_memmail.Mail.{DedupeKey, DedupeKey_eq, InboundMessage, dedupe_key}
use ai_memmail.Storage.{
  status_processing, ProcessingClaim, claimed, in_progress, already_finished,
  processing_status_can_reclaim, processing_claim_for_existing_status,
}
use ai_memmail.Storage.Memory.{
  MemoryProcessingStore, set_status, claim_known, claim_message, update_message_status,
}
use ai_memmail.Storage.Claims.{StatusStep, claim_step, update_step, take_step}

pub data Life : Type 0 where
  waiting busy : Life
  finished : String → Life

-- The specification: the life of each message, what a claim of it answers, and what it becomes.
abbrev pub Lives : Type 0
Lives = DedupeKey → Life

abbrev pub promised_answer : Life → ProcessingClaim
promised_answer waiting = claimed
promised_answer busy = in_progress "processing"
promised_answer (finished status) = already_finished status

abbrev pub claimed_life : Life → Life
claimed_life waiting = busy
claimed_life busy = busy
claimed_life (finished status) = finished status

abbrev pub life_of_status : String → Life
life_of_status status =
    if status == "send_failed" || status == "retryable_failed"
    then waiting
    else if status == "processing"
    then busy
    else finished status

unfoldable pub live : StatusStep → Lives → Lives
live (claim_step message) lives key =
    if dedupe_key message.metadata == key
    then claimed_life (lives (dedupe_key message.metadata))
    else lives key
live (update_step updated status) lives key =
    if updated == key then life_of_status status else lives key

unfoldable pub promised : List StatusStep → Lives → List ProcessingClaim
unfolding live
promised [] lives = []
promised (claim_step message ∷ steps) lives =
    promised_answer (lives (dedupe_key message.metadata))
    ∷ promised steps (live (claim_step message) lives)
promised (update_step updated status ∷ steps) lives =
    promised steps (live (update_step updated status) lives)

-- What the store answers to the claims among the steps.
unfoldable pub answers : List StatusStep → MemoryProcessingStore → List ProcessingClaim
unfolding claim_message take_step
answers [] s = []
answers (claim_step message ∷ steps) s =
    (claim_message message s).0 ∷ answers steps (take_step (claim_step message) s)
answers (update_step updated status ∷ steps) s =
    answers steps (take_step (update_step updated status) s)

-- The view of the store that forgets its table.
abbrev pub life_of : Option String → Life
life_of none = waiting
life_of (some status) = life_of_status status

unfoldable pub lives_of : MemoryProcessingStore → Lives
unfolding lookup
lives_of s key = life_of (lookup key s.statuses)

known-answer :
    (key : DedupeKey) (s : MemoryProcessingStore) (status : Option String)
    → (claim_known key s status).0 ≡ promised_answer (life_of status)
unfolding processing_status_can_reclaim processing_claim_for_existing_status
known-answer key s none = refl
known-answer key s (some status) = ground (arith, String_eq.beq_iff status "processing")

claim-answer :
    (message : InboundMessage) (s : MemoryProcessingStore)
    → (claim_message message s).0 ≡ promised_answer (lives_of s (dedupe_key message.metadata))
unfolding claim_message lives_of
claim-answer message s =
    known-answer (dedupe_key message.metadata) s (lookup (dedupe_key message.metadata) s.statuses)

life_of-if :
    (b : Bool) (status : String) (old : Option String)
    → life_of (if b then some status else old) ≡ (if b then life_of_status status else life_of old)
life_of-if true status old = refl
life_of-if false status old = refl

lives_of-set_status :
    (set key : DedupeKey) (status : String) (s : MemoryProcessingStore)
    → lives_of (set_status set status s) key
      ≡ (if set == key then life_of_status status else lives_of s key)
unfolding lives_of set_status
lives_of-set_status set key status s =
    ap life_of (lookup-insert set key status s.statuses)
    ∙ life_of-if (set == key) status (lookup key s.statuses)

-- A status is waiting, or its claim leaves it as it is.
reclaimed :
    (status : String)
    → processing_status_can_reclaim status false ≡ true
    → claimed_life (life_of_status status) ≡ busy
unfolding processing_status_can_reclaim
reclaimed status h = ground arith

not_reclaimed :
    (status : String)
    → processing_status_can_reclaim status false ≡ false
    → claimed_life (life_of_status status) ≡ life_of_status status
unfolding processing_status_can_reclaim
not_reclaimed status h = ground arith

unchanged :
    (set key : DedupeKey) (s : MemoryProcessingStore)
    → claimed_life (lives_of s set) ≡ lives_of s set
    → lives_of s key ≡ (if set == key then claimed_life (lives_of s set) else lives_of s key)
unchanged set key s h = elim (Bool-cases (set == key)) [
  | inl same ↦ rw same (ap (lives_of s) (sym ((DedupeKey_eq.beq_iff set key).0 same)) ∙ sym h)
  | inr other ↦ rw other refl
]

granted_live :
    (set key : DedupeKey) (s : MemoryProcessingStore)
    → claimed_life (lives_of s set) ≡ busy
    → lives_of (set_status set status_processing s) key
      ≡ (if set == key then claimed_life (lives_of s set) else lives_of s key)
granted_live set key s h =
    lives_of-set_status set key status_processing s
    ∙ ap (λ (l : Life). if set == key then l else lives_of s key) (sym h)

lives_of-lookup :
    (key : DedupeKey) (s : MemoryProcessingStore) (status : Option String)
    → lookup key s.statuses ≡ status
    → lives_of s key ≡ life_of status
unfolding lives_of
lives_of-lookup key s status h = ap life_of h

known-live :
    (set key : DedupeKey) (s : MemoryProcessingStore) (status : Option String)
    → lookup set s.statuses ≡ status
    → lives_of (claim_known set s status).1 key
      ≡ (if set == key then claimed_life (lives_of s set) else lives_of s key)
known-live set key s none h =
    granted_live set key s (ap claimed_life (lives_of-lookup set s none h))
known-live set key s (some status) h =
    elim (Bool-cases (processing_status_can_reclaim status false)) [
      | inl e ↦ rw e (
          granted_live set key s
            (ap claimed_life (lives_of-lookup set s (some status) h) ∙ reclaimed status e))
      | inr e ↦ rw e (
          unchanged set key s (
            ap claimed_life (lives_of-lookup set s (some status) h)
            ∙ (not_reclaimed status e ∙ sym (lives_of-lookup set s (some status) h))))
    ]

step-live :
    (step : StatusStep) (s : MemoryProcessingStore) (key : DedupeKey)
    → lives_of (take_step step s) key ≡ live step (lives_of s) key
unfolding take_step live claim_message update_message_status
step-live (claim_step message) s key =
    known-live (dedupe_key message.metadata) key s (lookup (dedupe_key message.metadata) s.statuses)
      refl
step-live (update_step updated status) s key = lives_of-set_status updated key status s

-- The store refines the life cycle: to the claims among any steps, of whichever workers, it gives
-- the answers that the lives of the messages promise.
pub answers-promised :
    (steps : List StatusStep) (s : MemoryProcessingStore)
    → answers steps s ≡ promised steps (lives_of s)
unfolding answers promised
answers-promised [] s = refl
answers-promised (claim_step message ∷ steps) s =
    ap (λ (a : ProcessingClaim). a ∷ answers steps (take_step (claim_step message) s))
      (claim-answer message s)
    ∙ ap
        (λ (l : List ProcessingClaim).
          promised_answer (lives_of s (dedupe_key message.metadata)) ∷ l)
        (answers-promised steps (take_step (claim_step message) s)
          ∙ ap (promised steps) (λ i key. step-live (claim_step message) s key i))
answers-promised (update_step updated status ∷ steps) s =
    answers-promised steps (take_step (update_step updated status) s)
    ∙ ap (promised steps) (λ i key. step-live (update_step updated status) s key i)
