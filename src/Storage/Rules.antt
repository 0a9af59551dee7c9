-- ===== src/Storage/Rules.antt =====
-- storage/memory_store.rs: the rules of a mailbox, and the one that applies to an email.
pub mod Matching
pub mod Defaults
use ai_memmail.Prelude.{
  ℕ, ◌+◌, String, Bool, true, false, ◌&&◌, ◌||◌, not, Option, none, some, List, [], ◌∷◌, ◌++◌, map,
  find, any, select, is_empty, contains, ltb, ◌==◌, ℕ_eq, String_eq, if◌then◌else◌,
}
use ai_memmail.Prelude.Int.{ℤ, pos, ltb_ℤ, pos_part, neg_part}
use ai_memmail.Text.{Text, Text_eq, text, trim}
use ai_memmail.Config.{MailboxConfig, AppConfig}
use ai_memmail.Classification.{
  EmailLabel, ResolvedEmailClassification, EmailRule, EmailRuleAction, reply, NewEmailRule,
}
use ai_memmail.Storage.Labels.{LabelTable, ClassificationState, named}

-- The test of `find_matching_email_rule`.
unfoldable pub rule_applies : Text → ResolvedEmailClassification → EmailRule → Bool
rule_applies mailbox_id c rule =
    rule.enabled
    && (rule.mailbox_id == mailbox_id
        && (rule.category_id == c.category_id
            && (is_empty rule.topic_ids || any (contains c.topic_ids) rule.topic_ids)))

-- The key that rules are sorted by: those with topics first, then by priority, then by identifier.
abbrev topic_rank : EmailRule → ℕ
topic_rank rule = if is_empty rule.topic_ids then 1 else 0

unfoldable pub rule_before : EmailRule → EmailRule → Bool
rule_before a b =
    ltb (topic_rank a) (topic_rank b)
    || (topic_rank a == topic_rank b
        && (ltb_ℤ a.priority b.priority || (not (ltb_ℤ b.priority a.priority) && ltb a.id b.id)))

-- `sort_by_key`, which keeps the order of rules with equal keys.
unfoldable pub insert_rule : EmailRule → List EmailRule → List EmailRule
unfolding rule_before
insert_rule rule [] = rule ∷ []
insert_rule rule (r ∷ rules) =
    let later = r ∷ insert_rule rule rules in if rule_before r rule then later else rule ∷ r ∷ rules

unfoldable pub sort_rules : List EmailRule → List EmailRule
unfolding insert_rule
sort_rules [] = []
sort_rules (rule ∷ rules) = insert_rule rule (sort_rules rules)

-- `into_iter().next()`
abbrev pub first_rule : List EmailRule → Option EmailRule
first_rule [] = none
first_rule (rule ∷ rules) = some rule

unfoldable pub find_matching_email_rule :
    Text → ResolvedEmailClassification → List EmailRule → Option EmailRule
unfolding rule_applies sort_rules
find_matching_email_rule mailbox_id c rules =
    first_rule (sort_rules (select (rule_applies mailbox_id c) rules))

-- `ensure_default_classification_policy`: a rule for marketing mail in each mailbox without one.
unfoldable pub marketing_rule : ℕ → Text → EmailLabel → Text → EmailRule
marketing_rule id mailbox_id category goal = record {
  id = id;
  mailbox_id = mailbox_id;
  name = text "Auto-decline marketing/vendor outreach";
  category_id = category.id;
  category = category.name;
  topic_ids = [];
  topics = [];
  action = reply;
  reply_goal = goal;
  enabled = true;
  priority = pos 100;
  created_at = "memory";
  updated_at = "memory";
}

unfoldable pub default_marketing_reply_goal : Text
default_marketing_reply_goal =
    text
      "Politely thank the sender and decline paid marketing, growth, SEO, lead-generation, advertising, PR, or vendor service offers. Say Mark is focused on organic community growth, free/open-source collaboration, and relevant contributors for now. Do not ask follow-up questions."

unfoldable pub has_rule_for : Text → ℕ → EmailRule → Bool
has_rule_for mailbox_id category_id rule =
    rule.mailbox_id == mailbox_id && rule.category_id == category_id

abbrev pub seed_rule : EmailLabel → MailboxConfig → List EmailRule × ℕ → List EmailRule × ℕ
seed_rule category mailbox (rules, next) =
    if any (has_rule_for mailbox.id category.id) rules then (rules, next) else (
      rules ++ marketing_rule next mailbox.id category default_marketing_reply_goal ∷ [],
      next + 1,
    )

unfoldable pub seed_rules :
    EmailLabel → List MailboxConfig → List EmailRule × ℕ → List EmailRule × ℕ
unfolding has_rule_for marketing_rule
seed_rules category [] s = s
seed_rules category (mailbox ∷ rest) s = seed_rules category rest (seed_rule category mailbox s)

abbrev pub seed_state : AppConfig → ClassificationState → Option EmailLabel → ClassificationState
seed_state config state none = state
seed_state config state (some category) =
    let (rules', next') = seed_rules category config.mailboxes (state.rules, state.next_rule_id) in
    record state { rules = rules'; next_rule_id = next' }

unfoldable pub ensure_default_classification_policy :
    AppConfig → ClassificationState → ClassificationState
unfolding seed_rules named
ensure_default_classification_policy config state =
    seed_state config state (find (named (text "marketing_vendor")) state.categories.labels)

-- `add_email_rule`: the names of the category and of the topics are looked up.
abbrev name_or_other : Option EmailLabel → Text
name_or_other none = text "other"
name_or_other (some label) = label.name

unfoldable pub has_id : ℕ → EmailLabel → Bool
has_id id label = label.id == id

abbrev push_name : Option EmailLabel → List Text → List Text
push_name none names = names
push_name (some label) names = label.name ∷ names

unfoldable pub names_of : List EmailLabel → List ℕ → List Text
unfolding has_id
names_of labels [] = []
names_of labels (id ∷ ids) = push_name (find (has_id id) labels) (names_of labels ids)

unfoldable pub add_email_rule : NewEmailRule → ClassificationState → EmailRule × ClassificationState
unfolding names_of
add_email_rule rule state =
    let stored : EmailRule = record {
      id = state.next_rule_id;
      mailbox_id = rule.mailbox_id;
      name = trim rule.name;
      category_id = rule.category_id;
      category = name_or_other (find (has_id rule.category_id) state.categories.labels);
      topic_ids = rule.topic_ids;
      topics = names_of state.topics.labels rule.topic_ids;
      action = rule.action;
      reply_goal = rule.reply_goal;
      enabled = rule.enabled;
      priority = rule.priority;
      created_at = "memory";
      updated_at = "memory";
    } in
    (
      stored,
      record state { rules = state.rules ++ stored ∷ []; next_rule_id = state.next_rule_id + 1 },
    )
