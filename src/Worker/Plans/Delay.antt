-- ===== src/Worker/Plans/Delay.antt =====
-- How long the worker sleeps between two runs.
use ai_memmail.Prelude.{
  ℕ, ◌≤◌, ◌<◌, List, [], ◌∷◌, map, select, All, ◌≡◌, arith, Bool-cases, inl, inr,
}
use ai_memmail.Prelude.Result.{ok}
use ai_memmail.Config.{AppConfig, MailboxConfig}
use ai_memmail.Config.Validation.{Checks, validate}
use ai_memmail.Config.Validation.Valid.{IsMailbox}
use ai_memmail.Config.Validation.Guarantees.{validate_iff}
use ai_memmail.Worker.Plans.{
  MailboxPollPlan, mailbox_poll_plan, poll_plans, min_interval, delay_of, next_poll_delay, lesser,
}

abbrev IsPositive : MailboxPollPlan → Type 0
IsPositive plan = 0 < plan.interval

abbrev pub AtLeast : ℕ → MailboxPollPlan → Type 0
AtLeast n plan = n ≤ plan.interval

min_interval-bound : (least : ℕ) (plans : List MailboxPollPlan) → min_interval least plans ≤ least
min_interval-bound least [] = omega arith
min_interval-bound least (plan ∷ plans) =
    ground (arith, min_interval-bound (lesser least plan.interval) plans)

min_interval-AtLeast :
    (least : ℕ) (plans : List MailboxPollPlan) → All (AtLeast (min_interval least plans)) plans
min_interval-AtLeast least [] = tt
min_interval-AtLeast least (plan ∷ plans) = (
  ground (arith, min_interval-bound (lesser least plan.interval) plans),
  min_interval-AtLeast (lesser least plan.interval) plans,
)

min_interval-positive :
    (least : ℕ) (plans : List MailboxPollPlan)
    → 0 < least
    → All IsPositive plans
    → 0 < min_interval least plans
min_interval-positive least [] h k = h
min_interval-positive least (plan ∷ plans) h (p, ps) =
    min_interval-positive (lesser least plan.interval) plans (ground arith) ps

delay_of-AtLeast : (plans : List MailboxPollPlan) → All (AtLeast (delay_of plans)) plans
delay_of-AtLeast [] = tt
delay_of-AtLeast (plan ∷ plans) =
    (min_interval-bound plan.interval plans, min_interval-AtLeast plan.interval plans)

delay_of-positive : (plans : List MailboxPollPlan) → All IsPositive plans → 0 < delay_of plans
delay_of-positive [] h = ground arith
delay_of-positive (plan ∷ plans) (h, hs) = min_interval-positive plan.interval plans h hs

-- Each mailbox has a positive interval, so each plan has.
plans-IsPositive :
    (checks : Checks) (config : AppConfig) (mailboxes : List MailboxConfig)
    → All (IsMailbox checks config.mcp_servers) mailboxes
    → All IsPositive (map mailbox_poll_plan (select (λ mailbox. mailbox.enabled) mailboxes))
unfolding mailbox_poll_plan
plans-IsPositive checks config [] h = tt
plans-IsPositive checks config (mailbox ∷ mailboxes) (h, hs) = elim (Bool-cases mailbox.enabled) [
  | inl on ↦ rw on (h.1.0, plans-IsPositive checks config mailboxes hs)
  | inr off ↦ rw off (plans-IsPositive checks config mailboxes hs)
]

-- Under a configuration that validates, the worker sleeps at least a second between two runs, and
-- no longer than the interval of any enabled mailbox.
pub next_poll_delay-bounds :
    (checks : Checks) (config : AppConfig)
    → validate checks config ≡ ok tt
    → (0 < next_poll_delay config) × All (AtLeast (next_poll_delay config)) (poll_plans config)
unfolding next_poll_delay poll_plans
next_poll_delay-bounds checks config valid =
    let (_, (_, (_, (_, (_, (_, (_, (mailboxes, _)))))))) = (validate_iff checks config).0 valid in
    (
      delay_of-positive (poll_plans config)
          (plans-IsPositive checks config config.mailboxes mailboxes),
      delay_of-AtLeast (poll_plans config),
    )
