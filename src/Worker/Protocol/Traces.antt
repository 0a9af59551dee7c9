-- ===== src/Worker/Protocol/Traces.antt =====
-- What the order of the calls says about how often each of them is made for one message, and which
-- of them come behind which.
use ai_memmail.Prelude.{ℕ, ◌+◌, ◌≤◌, List, [], ◌∷◌, ◌≡◌, true, refl, subst, arith}
use ai_memmail.Text.{Text}
use ai_memmail.Config.{AppConfig, MailboxConfig}
use ai_memmail.Mail.{DedupeKey, dedupe_key, InboundMessage}
use ai_memmail.Worker.Services.{Services, Call}
use ai_memmail.Worker.Process.{process_message}
use ai_memmail.Worker.Protocol.{Phase, idle, stopped, after}
use ai_memmail.Worker.Protocol.Balance.{total, Balanced, balance}
use ai_memmail.Worker.Protocol.Counts.{
  weight_of, count, is_grant, is_sent, is_accepted, is_refused, is_mark, is_mark_of, is_update,
  is_update_of, is_final_update, is_final_update_of, is_failure_of, is_finish_of,
}
use ai_memmail.Worker.Protocol.Following.{followed_by, preceded_by, followed, preceded}
use ai_memmail.Worker.Protocol.Messages.{process_message-Leads}
use ai_memmail.Worker.Protocol.Facts.{
  granted_once-Balanced, sends-Balanced, grants-Balanced, updates-Balanced,
  refused_or_marked-Balanced, refused_or_final-Balanced, refused-Dues, accepted-Dues, final-Dues,
  grants-Dues, updates-Clears, marks-Clears,
}

total-zero : (calls : List Call) → total (λ _. 0) calls ≡ 0
unfolding total
total-zero [] = refl
total-zero (c ∷ calls) = omega (arith, total-zero calls)

total-sum :
    (f g : Call → ℕ) (calls : List Call)
    → total (λ c. f c + g c) calls ≡ total f calls + total g calls
unfolding total
total-sum f g [] = refl
total-sum f g (c ∷ calls) = omega (arith, total-sum f g calls)

module _ (x : Services) (config : AppConfig) (mailbox : MailboxConfig) (run_id : Text)
    (message : InboundMessage) (w : x.World) where
  abbrev pub calls_of : List Call
  calls_of = (process_message x config mailbox run_id message w).calls

  abbrev key : DedupeKey
  key = dedupe_key message.metadata

  -- The calls that `process_message` makes keep to the order of `advance`, claim, update and mark
  -- only the message itself, and leave nothing undone, whatever the services answer.
  pub process_message-order : after (dedupe_key message.metadata) idle calls_of ≡ stopped
  process_message-order = (process_message-Leads x config mailbox run_id message).at w

  balanced :
      (weight credit : Call → ℕ) (potential : Phase → ℕ)
      → Balanced key weight credit potential
      → total weight calls_of + potential idle ≤ total credit calls_of + potential stopped
  balanced weight credit potential h =
      subst
        (λ (q : Phase).
          total weight calls_of + potential idle ≤ total credit calls_of + potential q)
        process_message-order
        (balance key weight credit potential h idle calls_of
          (λ e. ground (arith, process_message-order)))

  -- A message is mailed at most as often as its claim was granted, and that at most once.
  pub process_message-sent :
      (count is_sent calls_of ≤ count is_grant calls_of) × (count is_grant calls_of ≤ 1)
  process_message-sent = omega (
    arith,
    balanced _ _ _ (sends-Balanced key),
    balanced _ _ _ (granted_once-Balanced key),
    total-zero calls_of,
  )

  -- A granted claim is followed by a request to set a status of the message, and no such request is
  -- made without a granted claim before it; there are as many of these requests as granted claims,
  -- whatever the store answers to them.
  pub process_message-closed :
      (followed_by is_grant (is_update_of (dedupe_key message.metadata)) calls_of ≡ true)
      × (preceded_by is_update is_grant calls_of ≡ true)
      × (count is_update calls_of ≡ count is_grant calls_of)
  process_message-closed = (
    followed key _ _ _ (grants-Dues key) refl idle calls_of process_message-order,
    preceded key _ _ _ (updates-Clears key) idle calls_of process_message-order refl,
    omega (arith, balanced _ _ _ (grants-Balanced key), balanced _ _ _ (updates-Balanced key)),
  )

  -- A mail that SMTP refused is followed by a request to set the status "send_failed" of the
  -- message; where a mail is refused, no other is, no final status is requested and the server is
  -- not asked to mark the message.
  pub process_message-refused :
      (followed_by is_refused (is_failure_of (dedupe_key message.metadata)) calls_of ≡ true)
      × (count is_refused calls_of + count is_final_update calls_of ≤ 1)
      × (count is_refused calls_of + count is_mark calls_of ≤ 1)
  process_message-refused = (
    followed key _ _ _ (refused-Dues key) refl idle calls_of process_message-order,
    omega (
      arith,
      balanced _ _ _ (refused_or_final-Balanced key),
      total-sum (weight_of is_refused) (weight_of is_final_update) calls_of,
      total-zero calls_of,
    ),
    omega (
      arith,
      balanced _ _ _ (refused_or_marked-Balanced key),
      total-sum (weight_of is_refused) (weight_of is_mark) calls_of,
      total-zero calls_of,
    ),
  )

  -- A mail that SMTP took is followed by a request to set a final status of the message, and each
  -- such request by one to mark the message as seen; before each request to mark a message there is
  -- a request to set a final status of the message, or the store's answer that an earlier run
  -- finished it. A request counts whatever is answered to it, an error included.
  pub process_message-seen :
      (followed_by is_accepted (is_final_update_of (dedupe_key message.metadata)) calls_of ≡ true)
      × (followed_by is_final_update (is_mark_of (dedupe_key message.metadata)) calls_of ≡ true)
      × (preceded_by is_mark (is_finish_of (dedupe_key message.metadata)) calls_of ≡ true)
  process_message-seen = (
    followed key _ _ _ (accepted-Dues key) refl idle calls_of process_message-order,
    followed key _ _ _ (final-Dues key) refl idle calls_of process_message-order,
    preceded key _ _ _ (marks-Clears key) idle calls_of process_message-order refl,
  )
