-- ===== src/Broker/Topics.antt =====
-- The messages of a topic, and what one turn of a sender thread makes of them.
use hyu_2021_network_protoco.Common.{
  ℕ, append-nil, ◌^◌, ◌≤◌, ◌<◌, ◌≡◌, ◌≢◌, refl, inl, inr, true, false, List, [], ◌∷◌, ◌++◌, none,
  some, arith, length, drop, drop_all, Bool-cases,
}
use hyu_2021_network_protoco.Clib.Text.{Text, text_eq, text_eq_iff, text_eq_refl}
use hyu_2021_network_protoco.Broker.Subscriptions.{Interests, find, Absent, IsUnique}
use hyu_2021_network_protoco.Broker.{Message, TopicMap, subscript, messages_of, send_topics}

-- The messages of a topic, none if it is not there.
abbrev pub log : Text → TopicMap → List Text
log t topics = elim (topics t) [ none ↦ [] | some v ↦ v ]

-- What some messages say on a topic.
unfoldable pub contents_for : Text → List Message → List Text
contents_for t [] = []
contents_for t (m ∷ ms) = elim (text_eq m.topic t) [
  | true ↦ m.contents ∷ contents_for t ms
  | false ↦ contents_for t ms
]

contents_for-append :
    (t : Text) (ms ns : List Message)
    → contents_for t (ms ++ ns) ≡ contents_for t ms ++ contents_for t ns
unfolding contents_for
contents_for-append t [] ns = refl
contents_for-append t (m ∷ ms) ns = ground (arith, contents_for-append t ms ns)

contents_for_same : (t : Text) (cs : List Text) → contents_for t (messages_of t cs) ≡ cs
unfolding contents_for
contents_for_same t [] = refl
contents_for_same t (c ∷ cs) = ground (arith, text_eq_refl t, contents_for_same t cs)

contents_for_other : (t u : Text) (cs : List Text) → u ≢ t → contents_for t (messages_of u cs) ≡ []
unfolding contents_for
contents_for_other t u [] d = refl
contents_for_other t u (c ∷ cs) d = ground (arith, text_eq_iff u t, contents_for_other t u cs d)

subscript-log : (t : Text) (topics : TopicMap) → (subscript t topics).0 ≡ log t topics
unfolding subscript
subscript-log t topics = ground arith

log-subscript : (t u : Text) (topics : TopicMap) → log u (subscript t topics).1 ≡ log u topics
unfolding subscript
log-subscript t u topics = ground (arith, text_eq_iff u t)

-- A sender's turn changes no topic's messages.
pub log-send_topics :
    (u : Text) (topics : TopicMap) (m : Interests) → log u (send_topics topics m).0 ≡ log u topics
unfolding send_topics
log-send_topics u topics [] = refl
log-send_topics u topics ((t, (false, n)) ∷ m) = log-send_topics u topics m
log-send_topics u topics ((t, (true, n)) ∷ m) =
    ground (arith, log-send_topics u (subscript t topics).1 m, log-subscript t u topics)

send_topics-Absent :
    (t : Text) (topics : TopicMap) (m : Interests)
    → Absent t m
    → Absent t (send_topics topics m).1 × (contents_for t (send_topics topics m).2 ≡ [])
unfolding send_topics contents_for
send_topics-Absent t topics [] h = (tt, refl)
send_topics-Absent t topics ((u, (false, n)) ∷ m) h =
    let (a, e) = send_topics-Absent t topics m h.1 in ((h.0, a), e)
send_topics-Absent t topics ((u, (true, n)) ∷ m) h =
    let (l, grown) = subscript u topics in
    let (a, e) = send_topics-Absent t grown m h.1 in
    ground (
      arith,
      contents_for-append t (messages_of u (drop n l)) (send_topics grown m).2,
      contents_for_other t u (drop n l) h.0,
    )

pub send_topics-IsUnique :
    (topics : TopicMap) (m : Interests) → IsUnique m → IsUnique (send_topics topics m).1
unfolding send_topics
send_topics-IsUnique topics [] h = tt
send_topics-IsUnique topics ((u, (false, n)) ∷ m) h =
    ((send_topics-Absent u topics m h.0).0, send_topics-IsUnique topics m h.1)
send_topics-IsUnique topics ((u, (true, n)) ∷ m) h =
    let (l, grown) = subscript u topics in
    ground (arith, (send_topics-Absent u grown m h.0).0, send_topics-IsUnique grown m h.1)

-- A turn of the sender on a topic that is subscribed and read up to message n: the messages from there on
-- are sent, in order, and the topic is read up to its end.
pub send_topics_lem :
    (t : Text) (n : ℕ) (topics : TopicMap) (m : Interests)
    → IsUnique m
    → find t m ≡ some (true, n)
    → n ≤ length (log t topics)
    → length (log t topics) < 2 ^ 31
    → (find t (send_topics topics m).1 ≡ some (true, length (log t topics)))
      × (contents_for t (send_topics topics m).2 ≡ drop n (log t topics))
unfolding send_topics find contents_for
send_topics_lem t n topics [] u h le small = absurd (cc h)
send_topics_lem t n topics ((v, (false, k)) ∷ m) u h le small =
    ground (arith, send_topics_lem t n topics m u.1)
send_topics_lem t n topics ((v, (true, k)) ∷ m) u h le small =
    let grown = (subscript v topics).1 in
    let l = (subscript v topics).0 in
    elim (Bool-cases (text_eq v t)) [
      | inl e ↦ ground (
        arith,
        text_eq_iff v t,
        send_topics-Absent v grown m u.0,
        contents_for-append v (messages_of v (drop k l)) (send_topics grown m).2,
        contents_for_same v (drop k l),
        append-nil (drop k l),
        subscript-log v topics,
        drop_all k l,
      )
      | inr e ↦ ground (
        arith,
        text_eq_iff v t,
        contents_for-append t (messages_of v (drop k l)) (send_topics grown m).2,
        contents_for_other t v (drop k l),
        log-subscript v t topics,
        send_topics_lem t n grown m u.1,
      )
    ]
