-- ===== src/Worker/Protocol/Counts.antt =====
-- Tests on the notes of calls, and how many calls meet one.
use ai_memmail.Prelude.{ℕ, String_eq, ℕ_eq, Bool, true, false, ◌&&◌, List, if◌then◌else◌, ◌==◌}
use ai_memmail.Prelude.Result.{Result, ok, err}
use ai_memmail.Mail.{MailError, DedupeKey, DedupeKey_eq}
use ai_memmail.Storage.{
  StorageError, ProcessingClaim, claimed, already_finished, status_send_failed,
}
use ai_memmail.Worker.Services.{Call, claim, status_set, sent, seen}
use ai_memmail.Worker.Protocol.{is_final}
use ai_memmail.Worker.Protocol.Balance.{total}

abbrev pub weight_of : (Call → Bool) → Call → ℕ
weight_of p c = if p c then 1 else 0

abbrev pub count : (Call → Bool) → List Call → ℕ
count p calls = total (weight_of p) calls

abbrev is_claimed : Result StorageError ProcessingClaim → Bool
is_claimed (ok claimed) = true
is_claimed _ = false

abbrev was_finished : Result StorageError ProcessingClaim → Bool
was_finished (ok (already_finished _)) = true
was_finished _ = false

abbrev was_taken : Result MailError (Unit {0}) → Bool
was_taken (ok _) = true
was_taken (err _) = false

abbrev was_refused : Result MailError (Unit {0}) → Bool
was_refused (ok _) = false
was_refused (err _) = true

-- A claim that the store granted.
unfoldable pub is_grant : Call → Bool
is_grant (claim key answer) = is_claimed answer
is_grant _ = false

-- A mail that was handed to SMTP; one that it took; one that it refused.
unfoldable pub is_sent : Call → Bool
is_sent (sent smtp action answer) = true
is_sent _ = false

unfoldable pub is_accepted : Call → Bool
is_accepted (sent smtp action answer) = was_taken answer
is_accepted _ = false

unfoldable pub is_refused : Call → Bool
is_refused (sent smtp action answer) = was_refused answer
is_refused _ = false

-- A request to the server to mark a message as seen, whatever the answer; one for this message.
unfoldable pub is_mark : Call → Bool
is_mark (seen uid answer) = true
is_mark _ = false

unfoldable pub is_mark_of : DedupeKey → Call → Bool
is_mark_of k (seen uid answer) = uid == k.uid
is_mark_of k _ = false

-- A request to the store to set a status, whatever the answer: any; one of this message.
unfoldable pub is_update : Call → Bool
is_update (status_set key status kind answer) = true
is_update _ = false

unfoldable pub is_update_of : DedupeKey → Call → Bool
is_update_of k (status_set key status kind answer) = key == k
is_update_of k _ = false

-- One of a final status, and one of the status "send_failed" of this message.
unfoldable pub is_final_update : Call → Bool
unfolding is_final
is_final_update (status_set key status kind answer) = is_final status
is_final_update _ = false

unfoldable pub is_failure_of : DedupeKey → Call → Bool
is_failure_of k (status_set key status kind answer) = key == k && status == status_send_failed
is_failure_of k _ = false

-- A request to set a final status of this message, or the store's answer that an earlier run
-- finished it.
unfoldable pub is_finish_of : DedupeKey → Call → Bool
unfolding is_final
is_finish_of k (claim key answer) = key == k && was_finished answer
is_finish_of k (status_set key status kind answer) = key == k && is_final status
is_finish_of k _ = false

unfoldable pub is_final_update_of : DedupeKey → Call → Bool
unfolding is_final
is_final_update_of k (status_set key status kind answer) = key == k && is_final status
is_final_update_of k _ = false
