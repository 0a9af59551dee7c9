-- ===== src/Worker/Plans.antt =====
-- worker.rs: when the mailboxes are polled.
pub mod Delay
use ai_memmail.Prelude.{
  ℕ, Bool, Option, none, some, List, [], ◌∷◌, map, select, length, leb, if◌then◌else◌,
}
use ai_memmail.Prelude.Result.{Result, ◌>>=◌, ◌>>◌, ok}
use ai_memmail.Text.{Text}
use ai_memmail.Config.{AppConfig, MailboxConfig}
use ai_memmail.Config.Errors.{ConfigError}
use ai_memmail.Config.Validation.{Checks, validate}
use ai_memmail.Config.Saving.{Disk, load}

-- A duration is its seconds.
pub record MailboxPollPlan : Type 0 where
  pub mailbox_id : Text
  pub interval : ℕ
  pub mcp_server_count : ℕ

unfoldable pub mailbox_poll_plan : MailboxConfig → MailboxPollPlan
mailbox_poll_plan mailbox = record {
  mailbox_id = mailbox.id;
  interval = mailbox.poll_interval_seconds;
  mcp_server_count = length mailbox.mcp_servers;
}

abbrev pub enabled_mailboxes : AppConfig → List MailboxConfig
enabled_mailboxes config = select (λ mailbox. mailbox.enabled) config.mailboxes

unfoldable pub poll_plans : AppConfig → List MailboxPollPlan
unfolding mailbox_poll_plan
poll_plans config = map mailbox_poll_plan (enabled_mailboxes config)

-- Iterator::min of the intervals, with a default for no interval.
abbrev pub lesser : ℕ → ℕ → ℕ
lesser m n = if leb m n then m else n

abbrev pub min_interval : ℕ → List MailboxPollPlan → ℕ
min_interval least [] = least
min_interval least (plan ∷ plans) = min_interval (lesser least plan.interval) plans

abbrev pub delay_of : List MailboxPollPlan → ℕ
delay_of [] = 60
delay_of (plan ∷ plans) = min_interval plan.interval plans

unfoldable pub next_poll_delay : AppConfig → ℕ
unfolding poll_plans
next_poll_delay config = delay_of (poll_plans config)

unfoldable pub load_and_plan :
    (disk : Disk) → Checks → disk.Files → Text → Result ConfigError (List MailboxPollPlan)
unfolding load validate poll_plans
load_and_plan disk checks files path =
    load disk files path >>= λ config. validate checks config >> ok (poll_plans config)
