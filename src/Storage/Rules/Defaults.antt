-- ===== src/Storage/Rules/Defaults.antt =====
-- The rules that `ensure_default_classification_policy` adds.
use ai_memmail.Prelude.{
  ℕ, Bool, true, Option, none, some, List, [], ◌∷◌, ◌++◌, ◌≡◌, refl, arith, find, any, All,
  Bool-cases, inl, inr, ==-refl, ℕ_eq,
}
use ai_memmail.Text.{Text_eq, text}
use ai_memmail.Config.{AppConfig, MailboxConfig}
use ai_memmail.Classification.{EmailLabel, EmailRule}
use ai_memmail.Storage.Labels.{ClassificationState, named}
use ai_memmail.Storage.Rules.{
  marketing_rule, has_rule_for, seed_rule, seed_rules, seed_state,
  ensure_default_classification_policy,
}

-- The mailbox has a rule for the category.
abbrev pub HasRule : EmailLabel → List EmailRule → MailboxConfig → Type 0
HasRule category rules mailbox = any (has_rule_for mailbox.id category.id) rules ≡ true

any-append :
    (p : EmailRule → Bool) (xs ys : List EmailRule) → any p xs ≡ true → any p (xs ++ ys) ≡ true
any-append p [] ys h = absurd (ground (arith, h))
any-append p (x ∷ xs) ys h = ground (arith, any-append p xs ys)

any-last :
    (p : EmailRule → Bool) (xs : List EmailRule) (r : EmailRule)
    → p r ≡ true
    → any p (xs ++ r ∷ []) ≡ true
any-last p [] r h = rw h
any-last p (x ∷ xs) r h = ground (arith, any-last p xs r h)

seed_rule-keeps :
    (category : EmailLabel) (mailbox other : MailboxConfig) (rules : List EmailRule) (next : ℕ)
    → HasRule category rules other
    → HasRule category (seed_rule category mailbox (rules, next)).0 other
unfolding has_rule_for
seed_rule-keeps category mailbox other rules next h =
    elim (Bool-cases (any (has_rule_for mailbox.id category.id) rules)) [
      | inl e ↦ rw e h
      | inr e ↦ rw e (any-append (has_rule_for other.id category.id) rules _ h)
    ]

seed_rule-adds :
    (category : EmailLabel) (mailbox : MailboxConfig) (rules : List EmailRule) (next : ℕ)
    → HasRule category (seed_rule category mailbox (rules, next)).0 mailbox
unfolding has_rule_for marketing_rule
seed_rule-adds category mailbox rules next =
    elim (Bool-cases (any (has_rule_for mailbox.id category.id) rules)) [
      | inl e ↦ rw e e
      | inr e ↦ rw e (
          any-last (has_rule_for mailbox.id category.id) rules _
            (rw (==-refl mailbox.id, ==-refl category.id)))
    ]

seed_rules-keeps :
    (category : EmailLabel) (mailboxes : List MailboxConfig) (other : MailboxConfig)
    (s : List EmailRule × ℕ)
    → HasRule category s.0 other
    → HasRule category (seed_rules category mailboxes s).0 other
unfolding seed_rules
seed_rules-keeps category [] other s h = h
seed_rules-keeps category (mailbox ∷ rest) other s h =
    seed_rules-keeps category rest other (seed_rule category mailbox s)
      (seed_rule-keeps category mailbox other s.0 s.1 h)

seed_rules-adds :
    (category : EmailLabel) (mailboxes : List MailboxConfig) (s : List EmailRule × ℕ)
    → All (HasRule category (seed_rules category mailboxes s).0) mailboxes
unfolding seed_rules
seed_rules-adds category [] s = tt
seed_rules-adds category (mailbox ∷ rest) s =
    let t = seed_rule category mailbox s in
    (
      seed_rules-keeps category rest mailbox t (seed_rule-adds category mailbox s.0 s.1),
      seed_rules-adds category rest t,
    )

seed_rules-known :
    (category : EmailLabel) (mailboxes : List MailboxConfig) (s : List EmailRule × ℕ)
    → All (HasRule category s.0) mailboxes
    → seed_rules category mailboxes s ≡ s
unfolding seed_rules
seed_rules-known category [] s h = refl
seed_rules-known category (mailbox ∷ rest) s (h, hs) = rw h (seed_rules-known category rest s hs)

-- Once the policy was set up, each mailbox has a rule for the category of marketing mail, where
-- there is one.
pub ensure_default_classification_policy-HasRule :
    (config : AppConfig) (state : ClassificationState) (category : EmailLabel)
    → find (named (text "marketing_vendor")) state.categories.labels ≡ some category
    → All
        (HasRule category (ensure_default_classification_policy config state).rules)
        config.mailboxes
unfolding ensure_default_classification_policy
ensure_default_classification_policy-HasRule config state category h =
    rw h (seed_rules-adds category config.mailboxes (state.rules, state.next_rule_id))

-- Setting the policy up once more, as each start of the program does, changes nothing.
pub ensure_default_classification_policy_idempotent :
    (config : AppConfig) (state : ClassificationState)
    → ensure_default_classification_policy config
        (ensure_default_classification_policy config state)
      ≡ ensure_default_classification_policy config state
unfolding ensure_default_classification_policy
ensure_default_classification_policy_idempotent config state =
    twice (find (named (text "marketing_vendor")) state.categories.labels) refl
  where
    twice :
        (o : Option EmailLabel)
        → find (named (text "marketing_vendor")) state.categories.labels ≡ o
        → seed_state config
            (seed_state config state o)
            (find (named (text "marketing_vendor")) (seed_state config state o).categories.labels)
          ≡ seed_state config state o
    twice none e = rw e refl
    twice (some category) e = rw (
      e,
      seed_rules-known category config.mailboxes
          (seed_rules category config.mailboxes (state.rules, state.next_rule_id))
          (seed_rules-adds category config.mailboxes (state.rules, state.next_rule_id)),
    )
