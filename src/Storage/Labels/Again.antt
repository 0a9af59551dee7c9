-- ===== src/Storage/Labels/Again.antt =====
-- Resolving a classification that was resolved before.
use ai_memmail.Prelude.{
  ℕ, Bool, true, Option, none, some, List, [], ◌∷◌, ◌++◌, ◌≡◌, refl, arith, find, ==-refl, ℕ_eq,
}
use ai_memmail.Text.{Text, Text_eq, text}
use ai_memmail.Classification.{EmailLabel, EmailClassification, normalize_label_name}
use ai_memmail.Storage.Labels.{
  LabelTable, memory_label, named, found_or_added, find_or_add, push_topic, resolve_topics,
  topic_names, ClassificationState, resolve_email_classification,
}

-- The first label of a name in a table.
abbrev Known : Text → LabelTable → EmailLabel → Type 0
Known name t label = find (named name) t.labels ≡ some label

-- A table that knows what another one knows.
abbrev Extends : LabelTable → LabelTable → Type 0
Extends u t = (name : Text) (label : EmailLabel) → Known name t label → Known name u label

find-append :
    (p : EmailLabel → Bool) (xs ys : List EmailLabel) (label : EmailLabel)
    → find p xs ≡ some label
    → find p (xs ++ ys) ≡ some label
find-append p [] ys label h = absurd (ground (arith, h))
find-append p (x ∷ xs) ys label h = ground (arith, find-append p xs ys label)

find-last :
    (p : EmailLabel → Bool) (xs : List EmailLabel) (label : EmailLabel)
    → find p xs ≡ none
    → p label ≡ true
    → find p (xs ++ label ∷ []) ≡ some label
find-last p [] label h k = rw k
find-last p (x ∷ xs) label h k = ground (arith, find-last p xs label)

find_or_add-Known :
    (name description : Text) (t : LabelTable)
    → Known name (find_or_add name description t).1 (find_or_add name description t).0
unfolding find_or_add named memory_label
find_or_add-Known name description t = found (find (named name) t.labels) refl
  where
    found :
        (o : Option EmailLabel)
        → find (named name) t.labels ≡ o
        → Known name (found_or_added name description t o).1 (found_or_added name description t o).0
    found (some label) e = e
    found none e = find-last (named name) t.labels _ e (==-refl name)

find_or_add-Extends :
    (name description : Text) (t : LabelTable) → Extends (find_or_add name description t).1 t
unfolding find_or_add named memory_label
find_or_add-Extends name description t = added (find (named name) t.labels)
  where
    added : (o : Option EmailLabel) → Extends (found_or_added name description t o).1 t
    added (some label) n l h = h
    added none n l h = find-append (named n) t.labels _ l h

resolve_topics-Extends :
    (names : List Text) (t : LabelTable) (ids : List ℕ) (resolved : List Text)
    → Extends (resolve_topics names t ids resolved).2 t
unfolding resolve_topics
resolve_topics-Extends [] t ids resolved n l h = h
resolve_topics-Extends (name ∷ names) t ids resolved n l h =
    let step = find_or_add name (text "AI-created topic") t in
    let pushed = push_topic step.0 ids resolved in
    resolve_topics-Extends names step.1 pushed.0 pushed.1 n l
      (find_or_add-Extends name (text "AI-created topic") t n l h)

find_or_add-again :
    (name description : Text) (u : LabelTable) (label : EmailLabel)
    → Known name u label
    → find_or_add name description u ≡ (label, u)
unfolding find_or_add named memory_label
find_or_add-again name description u label h = rw h

-- The same topics, from a table that knows all that the first run left behind.
resolve_topics-again :
    (names : List Text) (t u : LabelTable) (ids : List ℕ) (resolved : List Text)
    → Extends u (resolve_topics names t ids resolved).2
    → resolve_topics names u ids resolved
      ≡ ((resolve_topics names t ids resolved).0, (resolve_topics names t ids resolved).1, u)
unfolding resolve_topics
resolve_topics-again [] t u ids resolved h = refl
resolve_topics-again (name ∷ names) t u ids resolved h =
    let step = find_or_add name (text "AI-created topic") t in
    let pushed = push_topic step.0 ids resolved in
    rw
      (find_or_add-again name (text "AI-created topic") u step.0 (
        h name step.0 (
          resolve_topics-Extends names step.1 pushed.0 pushed.1 name step.0
            (find_or_add-Known name (text "AI-created topic") t))))
      (resolve_topics-again names step.1 u pushed.0 pushed.1 h)

-- Once a classification was resolved, resolving it again gives the same labels and adds none.
pub resolve_email_classification-again :
    (c : EmailClassification) (state : ClassificationState)
    → resolve_email_classification c (resolve_email_classification c state).1
      ≡ resolve_email_classification c state
unfolding resolve_email_classification
resolve_email_classification-again c state =
    let name = normalize_label_name c.category in
    let category = find_or_add name (text "AI-created category") state.categories in
    let topics = resolve_topics (topic_names c.topics) state.topics [] [] in
    rw (
      find_or_add-again name (text "AI-created category") category.1 category.0
          (find_or_add-Known name (text "AI-created category") state.categories),
      resolve_topics-again (topic_names c.topics) state.topics topics.2 [] [] (λ n l h. h),
    )
