-- ===== src/Worker/Protocol/Facts.antt =====
-- What every call that keeps the order says of counts, and of what is still due.
use ai_memmail.Prelude.{ℕ, ◌+◌, Bool, true, false, String_eq, ℕ_eq, arith}
use ai_memmail.Mail.{DedupeKey, DedupeKey_eq}
use ai_memmail.Worker.Protocol.{
  Phase, idle, duplicate, working, delivered, undelivered, settled, stopped, advance, status_phase,
  is_final,
}
use ai_memmail.Worker.Protocol.Balance.{Balanced}
use ai_memmail.Worker.Protocol.Counts.{
  weight_of, is_grant, is_sent, is_accepted, is_refused, is_mark, is_mark_of, is_update,
  is_update_of, is_final_update, is_final_update_of, is_failure_of, is_finish_of,
}
use ai_memmail.Worker.Protocol.Following.{Dues, Clears}

-- The potentials.
abbrev pub claimed_once : Phase → ℕ
claimed_once idle = 0
claimed_once _ = 1

abbrev pub unsent : Phase → ℕ
unsent working = 0
unsent _ = 1

abbrev pub status_due : Phase → ℕ
status_due working = 1
status_due delivered = 1
status_due undelivered = 1
status_due _ = 0

abbrev pub status_spent : Phase → ℕ
status_spent working = 0
status_spent delivered = 0
status_spent undelivered = 0
status_spent _ = 1

abbrev pub mark_or_refusal : Phase → ℕ
mark_or_refusal undelivered = 1
mark_or_refusal stopped = 1
mark_or_refusal _ = 0

abbrev pub final_or_refusal : Phase → ℕ
final_or_refusal undelivered = 1
final_or_refusal settled = 1
final_or_refusal stopped = 1
final_or_refusal _ = 0

-- What is due, and what is not there yet.
abbrev pub is_undelivered : Phase → Bool
is_undelivered undelivered = true
is_undelivered _ = false

abbrev pub is_delivered : Phase → Bool
is_delivered delivered = true
is_delivered _ = false

abbrev pub is_settled : Phase → Bool
is_settled settled = true
is_settled _ = false

abbrev pub in_work : Phase → Bool
in_work working = true
in_work delivered = true
in_work undelivered = true
in_work _ = false

-- No claim was granted so far, or nothing more is done.
abbrev pub without_claim : Phase → Bool
without_claim idle = true
without_claim duplicate = true
without_claim stopped = true
without_claim _ = false

abbrev pub is_unfinished : Phase → Bool
is_unfinished duplicate = false
is_unfinished settled = false
is_unfinished _ = true

module _ (k : DedupeKey) where
  pub granted_once-Balanced : Balanced k (weight_of is_grant) (λ _. 0) claimed_once
  unfolding is_grant advance status_phase is_final
  granted_once-Balanced p c h = ground arith

  pub sends-Balanced : Balanced k (weight_of is_sent) (weight_of is_grant) unsent
  unfolding is_sent is_grant advance status_phase is_final
  sends-Balanced p c h = ground arith

  pub grants-Balanced : Balanced k (weight_of is_grant) (weight_of is_update) status_due
  unfolding is_grant is_update advance status_phase is_final
  grants-Balanced p c h = ground arith

  pub updates-Balanced : Balanced k (weight_of is_update) (weight_of is_grant) status_spent
  unfolding is_grant is_update advance status_phase is_final
  updates-Balanced p c h = ground arith

  pub refused_or_marked-Balanced :
      Balanced k (λ c. weight_of is_refused c + weight_of is_mark c) (λ _. 0) mark_or_refusal
  unfolding is_refused is_mark advance status_phase is_final
  refused_or_marked-Balanced p c h = ground arith

  pub refused_or_final-Balanced :
      Balanced k
        (λ c. weight_of is_refused c + weight_of is_final_update c)
        (λ _. 0)
        final_or_refusal
  unfolding is_refused is_final_update advance status_phase is_final
  refused_or_final-Balanced p c h = ground arith

  pub refused-Dues : Dues k is_refused (is_failure_of k) is_undelivered
  unfolding is_refused is_failure_of advance status_phase is_final
  refused-Dues p c h = ground arith

  pub accepted-Dues : Dues k is_accepted (is_final_update_of k) is_delivered
  unfolding is_accepted is_final_update_of advance status_phase is_final
  accepted-Dues p c h = ground arith

  pub final-Dues : Dues k is_final_update (is_mark_of k) is_settled
  unfolding is_final_update is_mark_of advance status_phase is_final
  final-Dues p c h = ground arith

  pub grants-Dues : Dues k is_grant (is_update_of k) in_work
  unfolding is_grant is_update_of advance status_phase is_final
  grants-Dues p c h = ground arith

  pub updates-Clears : Clears k is_update is_grant without_claim
  unfolding is_update is_grant advance status_phase is_final
  updates-Clears p c h d = ground arith

  pub marks-Clears : Clears k is_mark (is_finish_of k) is_unfinished
  unfolding is_mark is_finish_of advance status_phase is_final
  marks-Clears p c h d = ground arith
