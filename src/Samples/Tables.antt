-- ===== src/Samples/Tables.antt =====
-- A table of retained messages.
use arbor_mq.Base.{
  ◌≡◌, ◌≢◌, refl, true, not, ◌||◌, ◌==◌, none, some, List, [], ◌∷◌, Bytes, arith, length, ◌⊎◌, inr,
  list_eq, if◌then◌else◌,
}
use arbor_mq.Broker.State.{Retained}
use arbor_mq.Broker.Tables.{find_retained, find_free_retained, find_index}
use arbor_mq.Broker.Forward.{retain_message, unused_retained}
use arbor_mq.Broker.Retained.{lookup, UniqueTopics}
use arbor_mq.Broker.Retained.Message.{retain_message-UniqueTopics, retain_message-lookup}

abbrev lamp : Bytes
lamp = b'l' ∷ []

abbrev door : Bytes
door = b'd' ∷ []

abbrev payload : Bytes
payload = 2 ∷ []

-- One message and one free entry.
abbrev table : List Retained
table = record { topic = lamp; payload = 1 ∷ []; qos = 0; used = true } ∷ unused_retained ∷ []

table-UniqueTopics : UniqueTopics table
unfolding lookup
table-UniqueTopics = ((λ _. refl), ((λ _. refl), tt))

door-room : (find_retained table door ≢ none) ⊎ (find_free_retained table ≢ none)
unfolding find_free_retained find_index
door-room = inr (λ e. cc)

retain_message-UniqueTopics_example : UniqueTopics (retain_message table door payload 1 1)
retain_message-UniqueTopics_example =
    retain_message-UniqueTopics table door payload 1 1 table-UniqueTopics (omega arith)

retain_message-lookup_example : lookup (retain_message table door payload 1 1) door ≡ (
    if (1 == 0) || not (list_eq door door)
    then lookup table door
    else if length payload == 0
    then none
    else some (payload, 1))
retain_message-lookup_example =
    retain_message-lookup table door payload 1 1 door table-UniqueTopics (omega arith) (omega arith)
      door-room
