-- ===== src/Worker/Protocol.antt =====
-- The order of the calls for one message, as a state machine over the notes of the calls, and the
-- rules to show that an action follows it.
pub mod Rules
pub mod Parts
pub mod Sending
pub mod Threads
pub mod Classifying
pub mod Deciding
pub mod Messages
pub mod Balance
pub mod Following
pub mod Counts
pub mod Facts
pub mod Traces
use ai_memmail.Prelude.{
  String, Bool, true, false, not, Option, some, none, List, [], ◌∷◌, ◌++◌, if◌then◌else◌, ◌≡◌, refl,
  ◌==◌, String_eq, ℕ_eq,
}
use ai_memmail.Prelude.Result.{Result, ok, err}
use ai_memmail.Mail.{DedupeKey, DedupeKey_eq, OutboundAction, OutboundActionKind, MailError}
use ai_memmail.Storage.{
  StorageError, ProcessingClaim, claimed, in_progress, already_finished, status_retryable_failed,
  status_send_failed, processing_status_can_reclaim,
}
use ai_memmail.Worker.Services.{
  Call, claim, status_set, asked, sent, seen, delivery_begun, delivery_finished, sender_reviewed,
  recorded, read, logged,
}

-- How far the processing of a message is.
pub data Phase : Type 0 where
  -- nothing is done; the claim was refused because the message is finished
  idle duplicate : Phase
  -- the message is claimed; SMTP took a mail; SMTP refused one
  working delivered undelivered : Phase
  -- the message has a final status; nothing is left to do; the order was broken
  settled stopped broken : Phase

-- A status from which no later run takes the message again.
unfoldable pub is_final : String → Bool
unfolding processing_status_can_reclaim
is_final status = not (processing_status_can_reclaim status true)

abbrev pub claim_phase : Result StorageError ProcessingClaim → Phase
claim_phase (ok claimed) = working
claim_phase (ok (already_finished _)) = duplicate
claim_phase (ok (in_progress _)) = stopped
claim_phase (err _) = stopped

abbrev pub send_phase : Result MailError (Unit {0}) → Phase
send_phase (ok _) = delivered
send_phase (err _) = undelivered

-- What a status may be, by the phase that it is set in.
unfoldable pub status_phase : Phase → String → Phase
unfolding is_final
status_phase working status =
    if status == status_retryable_failed
    then stopped
    else if is_final status
    then settled
    else broken
status_phase delivered status = if is_final status then settled else broken
status_phase undelivered status = if status == status_send_failed then stopped else broken
status_phase _ status = broken

abbrev only_in_work : Phase → Phase
only_in_work working = working
only_in_work _ = broken

-- A handoff's delivery is finished once its mail was taken or refused.
abbrev pub finish_phase : Phase → Phase
finish_phase delivered = delivered
finish_phase undelivered = undelivered
finish_phase _ = broken

abbrev pub seen_phase : Phase → Phase
seen_phase duplicate = stopped
seen_phase settled = stopped
seen_phase _ = broken

abbrev sent_phase : Phase → Phase → Phase
sent_phase working next = next
sent_phase _ next = broken

abbrev pub claimed_phase : Phase → Phase → Phase
claimed_phase idle next = next
claimed_phase _ next = broken

-- Which of the two phases, by a test.
abbrev pub of_message : Bool → Phase → Phase
of_message true next = next
of_message false next = broken

-- The phase after a call, while the message with the key `k` is processed. A claim, a status or a
-- mark of another message breaks the order.
unfoldable pub advance : DedupeKey → Phase → Call → Phase
unfolding status_phase
advance k p (claim key answer) = of_message (key == k) (claimed_phase p (claim_phase answer))
advance k p (status_set key status kind answer) = of_message (key == k) (status_phase p status)
advance k p (asked step) = only_in_work p
advance k p (sent smtp action answer) = sent_phase p (send_phase answer)
advance k p (seen uid answer) = of_message (uid == k.uid) (seen_phase p)
advance k p delivery_begun = only_in_work p
advance k p (delivery_finished status) = finish_phase p
advance k p (sender_reviewed sender) = only_in_work p
advance k p recorded = p
advance k p read = p
advance k p (logged event) = p

unfoldable pub after : DedupeKey → Phase → List Call → Phase
unfolding advance
after k p [] = p
after k p (c ∷ calls) = after k (advance k p c) calls

pub after-append :
    (k : DedupeKey) (p : Phase) (xs ys : List Call)
    → after k p (xs ++ ys) ≡ after k (after k p xs) ys
unfolding after
after-append k p [] ys = refl
after-append k p (c ∷ xs) ys = after-append k (advance k p c) xs ys
