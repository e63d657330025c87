-- ===== src/Broker/Received.antt =====
-- The messages that a subscriber was sent, and those that a publication adds.
use hyu_2021_network_protoco.Common.{
  ℕ, ◌≡◌, ◌≢◌, refl, true, false, List, [], ◌∷◌, ◌++◌, if◌then◌else◌, ◌==◌, arith,
}
use hyu_2021_network_protoco.Clib.Text.{Text, text_eq, text_eq_iff, text_eq_refl}
use hyu_2021_network_protoco.Broker.Topics.{log, contents_for}
use hyu_2021_network_protoco.Broker.{
  Message, register_message, distribute_message, publish, Broker, interests_of, Sent, addressed,
}

-- What a subscriber was sent on a topic.
unfoldable pub received_on : ℕ → Text → List Sent → List Text
received_on id t [] = []
received_on id t (s ∷ out) = elim (s.subscriber == id) [
  | false ↦ received_on id t out
  | true ↦ elim (text_eq s.message.topic t) [
    | true ↦ s.message.contents ∷ received_on id t out
    | false ↦ received_on id t out
  ]
]

pub received_on-append :
    (id : ℕ) (t : Text) (out outs : List Sent)
    → received_on id t (out ++ outs) ≡ received_on id t out ++ received_on id t outs
unfolding received_on
received_on-append id t [] outs = refl
received_on-append id t (s ∷ out) outs = ground (arith, received_on-append id t out outs)

pub received_on_self :
    (id : ℕ) (t : Text) (ms : List Message) → received_on id t (addressed id ms) ≡ contents_for t ms
unfolding received_on contents_for
received_on_self id t [] = refl
received_on_self id t (m ∷ ms) = ground (arith, received_on_self id t ms)

pub received_on_other :
    (id j : ℕ) (t : Text) (ms : List Message) → j ≢ id → received_on id t (addressed j ms) ≡ []
unfolding received_on
received_on_other id j t [] d = refl
received_on_other id j t (m ∷ ms) d = ground (arith, received_on_other id j t ms)

-- A publisher's message is behind the others of its topic, and on no other topic.
pub log-publish :
    (t : Text) (m : Message) (b : Broker)
    → log t (publish m b).topics
      ≡ (if text_eq t m.topic then log t b.topics ++ m.contents ∷ [] else log t b.topics)
unfolding publish register_message distribute_message
log-publish t m b = ground (arith, text_eq_iff t m.topic, text_eq_refl m.topic)

pub interests-publish :
    (id : ℕ) (m : Message) (b : Broker) → interests_of id (publish m b) ≡ interests_of id b
unfolding publish register_message distribute_message
interests-publish id m b = ground arith
