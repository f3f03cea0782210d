-- ===== src/Infrastructure/Events/Lookups.antt =====
-- What the lookups of src/infrastructure/blockchain/event-topics.ts find.
use spawn_backend.Prelude.{
  ◌≡◌, refl, sym, ◌∙◌, if◌then◌else◌, List, [], ◌∷◌, ◌++◌, inl, inr, Bool-cases,
}
use mathlib.Core.List.{append-nil, append_assoc}
use spawn_backend.Common.Decimal.{Text}
use spawn_backend.Common.TextDict.{
  TextDict, find_text, find_text-put_text, find_text-put_text_other,
}
use spawn_backend.Common.Texts.{same_text, same_text-eq, to_lower_case}
use spawn_backend.Infrastructure.Events.{
  EventTopicEntry, EventHashes, add_by_topic, topics_from, or_empty, topic_entries,
  entries_by_topic,
}

-- The entries that a test of their texts picks, in order.
pub with_text : (EventTopicEntry → Text) → Text → List EventTopicEntry → List EventTopicEntry
with_text field text [] = []
with_text field text (entry ∷ rest) =
    let later = with_text field text rest in
    if same_text (field entry) text then entry ∷ later else later

topics_from-eq-append :
    (by_topic : TextDict (List EventTopicEntry)) (entries : List EventTopicEntry) (topic0 : Text)
    → or_empty (find_text (topics_from by_topic entries) topic0)
      ≡ or_empty (find_text by_topic topic0) ++ with_text (λ e. e.topic0) topic0 entries
unfolding topics_from add_by_topic with_text or_empty
topics_from-eq-append by_topic [] topic0 = sym (append-nil _)
topics_from-eq-append by_topic (entry ∷ rest) topic0 =
    elim (Bool-cases (same_text entry.topic0 topic0)) [
      | inl same ↦
          let e : entry.topic0 ≡ topic0 = same_text-eq entry.topic0 topic0 same in
          topics_from-eq-append (add_by_topic by_topic entry) rest topic0
          ∙ rw (same, e, find_text-put_text by_topic topic0 _, append_assoc) refl
      | inr other ↦
          topics_from-eq-append (add_by_topic by_topic entry) rest topic0
          ∙ rw (other, find_text-put_text_other by_topic entry.topic0 topic0 _ other) refl
    ]

-- The lookup by topic gives exactly the entries whose topic is the given one in lower case, in the order
-- of the table, whatever the hashes are.
pub entries_by_topic-eq-with_text :
    (viem : EventHashes) (topic0 : Text)
    → entries_by_topic viem topic0
      ≡ with_text (λ e. e.topic0) (to_lower_case topic0) (topic_entries viem)
unfolding entries_by_topic find_text or_empty
entries_by_topic-eq-with_text viem topic0 =
    topics_from-eq-append [] (topic_entries viem) (to_lower_case topic0)
