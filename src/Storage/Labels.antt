-- ===== src/Storage/Labels.antt =====
-- crates/server/src/storage.rs and storage/memory_store.rs: the categories and topics that the
-- store keeps, and `resolve_email_classification`, which finds or adds those of an email.
pub mod Again
use Prim.Native.Nat.{min}
use ai_memmail.Prelude.{
  ℕ, ◌+◌, String, Bool, true, false, Option, none, some, List, [], ◌∷◌, ◌++◌, map, find, select,
  is_empty, contains, ◌==◌, ℕ_eq, String_eq, if◌then◌else◌,
}
use ai_memmail.Text.{Text, Text_eq, text}
use ai_memmail.Classification.{
  EmailLabel, EmailTaxonomy, EmailClassification, ResolvedEmailClassification, EmailRule,
  normalize_label_name,
}

-- `memory_category` and `memory_topic`.
unfoldable pub memory_label : ℕ → Text → Text → String → EmailLabel
memory_label id name description source = record {
  id = id;
  name = name;
  description = description;
  status = "active";
  source = source;
  created_at = "memory";
  updated_at = "memory";
}

-- The labels of one sort, with the identifier that the next one gets.
pub record LabelTable : Type 0 where
  pub labels : List EmailLabel
  pub next_id : ℕ

unfoldable pub named : Text → EmailLabel → Bool
named name label = label.name == name

-- The first label of a name; a new one is put at the end where there is none.
abbrev add_label : Text → Text → LabelTable → EmailLabel × LabelTable
add_label name description t =
    let label = memory_label t.next_id name description "ai" in
    (label, record { labels = t.labels ++ label ∷ []; next_id = t.next_id + 1 })

abbrev pub found_or_added : Text → Text → LabelTable → Option EmailLabel → EmailLabel × LabelTable
found_or_added name description t (some label) = (label, t)
found_or_added name description t none = add_label name description t

unfoldable pub find_or_add : Text → Text → LabelTable → EmailLabel × LabelTable
unfolding memory_label named
find_or_add name description t = found_or_added name description t (find (named name) t.labels)

-- The loop over the topics: the identifiers and the names so far, without repetition.
abbrev pub push_topic : EmailLabel → List ℕ → List Text → List ℕ × List Text
push_topic topic ids names =
    if contains ids topic.id then (ids, names) else (ids ++ topic.id ∷ [], names ++ topic.name ∷ [])

unfoldable pub resolve_topics :
    List Text → LabelTable → List ℕ → List Text → List ℕ × List Text × LabelTable
unfolding find_or_add contains
resolve_topics [] t ids names = (ids, names, t)
resolve_topics (name ∷ rest) t ids names =
    let (topic, t') = find_or_add name (text "AI-created topic") t in
    let (ids', names') = push_topic topic ids names in resolve_topics rest t' ids' names'

-- The names to look for: those of the classification, or "general".
abbrev pub topic_names : List Text → List Text
topic_names [] = text "general" ∷ []
topic_names (topic ∷ topics) = map normalize_label_name (topic ∷ topics)

-- MemoryClassificationState, without the records of single messages.
pub record ClassificationState : Type 0 where
  pub categories : LabelTable
  pub topics : LabelTable
  pub rules : List EmailRule
  pub next_rule_id : ℕ

unfoldable pub resolve_email_classification :
    EmailClassification → ClassificationState → ResolvedEmailClassification × ClassificationState
unfolding resolve_topics
resolve_email_classification c state =
    let (category, categories') =
      find_or_add (normalize_label_name c.category) (text "AI-created category") state.categories in
    let (ids, names, topics') = resolve_topics (topic_names c.topics) state.topics [] [] in
    (
      record {
        category_id = category.id;
        category = category.name;
        topic_ids = ids;
        topics = names;
        reason = c.reason;
        confidence = min c.confidence 100;
      },
      record state { categories = categories'; topics = topics' },
    )

abbrev is_active : EmailLabel → Bool
is_active label = label.status == "active"

unfoldable pub active_email_taxonomy : ClassificationState → EmailTaxonomy
active_email_taxonomy state = record {
  categories = select is_active state.categories.labels;
  topics = select is_active state.topics.labels;
}
