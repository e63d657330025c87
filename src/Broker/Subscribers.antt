-- ===== src/Broker/Subscribers.antt =====
-- What the broker promises a subscriber, and where it falls short.
use hyu_2021_network_protoco.Common.{
  ℕ, zero, suc, ◌+◌, ◌^◌, ◌<◌, ◌≡◌, ◌∙◌, ap, ◌⊎◌, false, List, [], ◌∷◌, ◌++◌, append-nil, none,
  some, arith, length, length-append, All, drop, take, get_elem?, get_elem?-set_self, get_elem?-lt,
  map,
}
use hyu_2021_network_protoco.Clib.Text.{Text, text_eq_refl}
use hyu_2021_network_protoco.Broker.Subscriptions.{
  find, assign, IsUnique, assign-IsUnique, find-assign_same,
}
use hyu_2021_network_protoco.Broker.Topics.{log, send_topics-IsUnique, send_topics_lem}
use hyu_2021_network_protoco.Broker.Received.{
  received_on, log-publish, interests-publish, received_on_self,
}
use hyu_2021_network_protoco.Broker.Delivery.{Reads, Leaves, run-ReadsOn, publish-Reads}
use hyu_2021_network_protoco.Broker.{
  Message, register_message, distribute_message, publish, Phase, away, waiting, woken, wake, Broker,
  opening, accept, interests_of, toggle, ask, send_topics, send_new, Event, joined, published,
  asked, settled, spurious, resumed, sender_step, at_sender, step, run,
}

-- No subscriber has two entries for the same topic.
abbrev pub AllUnique : Broker → Type 0
AllUnique b = (id : ℕ) → IsUnique (interests_of id b)

step-AllUnique : (e : Event) (b : Broker) → AllUnique b → AllUnique (step e b).0
unfolding step accept ask at_sender sender_step send_new
step-AllUnique joined b u id = u id
step-AllUnique (published m) b u id = rw (interests-publish id m b) (u id)
step-AllUnique (asked j t) b u id =
    let mine = interests_of j b in
    ground (arith, u id, assign-IsUnique t (toggle (find t mine)) mine (u j))
step-AllUnique (settled j) b u id = ground (arith, u id)
step-AllUnique (spurious j) b u id = ground (arith, u id)
step-AllUnique (resumed j) b u id =
    ground (arith, u id, send_topics-IsUnique b.topics (interests_of j b) (u j))

run-AllUnique : (es : List Event) (b : Broker) → AllUnique b → AllUnique (run b es).0
unfolding run
run-AllUnique [] b u = u
run-AllUnique (e ∷ es) b u = run-AllUnique es (step e b).0 (step-AllUnique e b u)

-- The subscriber does not read the topic.
abbrev pub IsUnread : ℕ → Text → Broker → Type 0
IsUnread id t b =
    (find t (interests_of id b) ≡ none) ⊎ ((n : ℕ) × (find t (interests_of id b) ≡ some (false, n)))

ask_starts :
    (id : ℕ) (t : Text) (b : Broker) → AllUnique b → IsUnread id t b → Reads id t 0 (ask id t b)
unfolding ask
ask_starts id t b u h =
    let mine = interests_of id b in
    let i = toggle (find t mine) in
    record {
      subscribed = ground (arith, find-assign_same t i mine);
      there = omega arith;
      unique = ground (arith, assign-IsUnique t i mine (u id));
    }

-- After any run from the start, when a subscriber asks for a topic that it does not read: whatever
-- happens then but that it asks for that topic again, what it is sent on the topic is the topic's messages
-- up to the one that it is marked to read it to, each once and in order of publication, those published
-- before it asked included. The topic has fewer than 2 ^ 31 messages.
pub subscription_delivers :
    (es fs : List Event) (id : ℕ) (t : Text)
    → IsUnread id t (run opening es).0
    → All (Leaves id t) fs
    → length (log t (run (ask id t (run opening es).0) fs).0.topics) < 2 ^ 31
    → (now : ℕ) × Reads id t now (run (ask id t (run opening es).0) fs).0
      × (received_on id t (run (ask id t (run opening es).0) fs).1
          ≡ take now (log t (run (ask id t (run opening es).0) fs).0.topics))
subscription_delivers es fs id t unread leaves small =
    let b = (run opening es).0 in
    let on =
      run-ReadsOn id t 0 fs (ask id t b) leaves
        (ask_starts id t b (run-AllUnique es opening (λ _. tt)) unread) small in
    (on.now, on.reads, on.in_order)

resumed_sends :
    (id : ℕ) (b : Broker)
    → get_elem? b.senders id ≡ some woken
    → at_sender id (resumed id) b ≡ send_new id b
unfolding at_sender sender_step
resumed_sends id b at = ground (arith, at)

-- A turn of a woken sender catches up: on a topic that its subscriber reads up to message n, it sends all
-- messages from there on.
send_new_catches_up :
    (id : ℕ) (t : Text) (n : ℕ) (b : Broker)
    → Reads id t n b
    → length (log t b.topics) < 2 ^ 31
    → received_on id t (send_new id b).1 ≡ drop n (log t b.topics)
unfolding send_new
send_new_catches_up id t n b h small =
    let mine = interests_of id b in
    received_on_self id t (send_topics b.topics mine).2
    ∙ (send_topics_lem t n b.topics mine h.unique h.subscribed h.there small).1

wakes :
    (ps : List Phase) (i : ℕ)
    → get_elem? ps i ≡ some waiting
    → get_elem? (map wake ps) i ≡ some woken
wakes [] i h = absurd (cc h)
wakes (p ∷ ps) zero h = ground arith
wakes (p ∷ ps) (suc i) h = wakes ps i h

sleeps :
    (ps : List Phase) (i : ℕ) → get_elem? ps i ≡ some away → get_elem? (map wake ps) i ≡ some away
sleeps [] i h = absurd (cc h)
sleeps (p ∷ ps) zero h = ground arith
sleeps (p ∷ ps) (suc i) h = sleeps ps i h

-- A published message is on its topic, so its publication wakes the senders.
senders-publish : (m : Message) (b : Broker) → (publish m b).senders ≡ map wake b.senders
unfolding publish register_message distribute_message
senders-publish m b = ground (arith, text_eq_refl m.topic)

-- If a sender waits as a message is published on a topic that its subscriber reads up to message n,
-- then with its next turn the subscriber is sent all messages from n on, the new one last. The
-- topic has fewer than 2 ^ 31 - 1 messages before.
pub published_reaches :
    (id n : ℕ) (m : Message) (b : Broker)
    → get_elem? b.senders id ≡ some waiting
    → Reads id m.topic n b
    → length (log m.topic b.topics) + 1 < 2 ^ 31
    → received_on id m.topic (run b (published m ∷ resumed id ∷ [])).1
      ≡ drop n (log m.topic b.topics ++ m.contents ∷ [])
unfolding run step
published_reaches id n m b at h small =
    let t = m.topic in
    let c = publish m b in
    let longer = length-append (log t b.topics) (m.contents ∷ []) in
    let grown : log t c.topics ≡ log t b.topics ++ m.contents ∷ [] =
      ground (arith, log-publish t m b, text_eq_refl t) in
    let up : get_elem? c.senders id ≡ some woken =
      rw (senders-publish m b) (wakes b.senders id at) in
    let small' : length (log t c.topics) < 2 ^ 31 = ground arith in
    ap (received_on id t) (append-nil (at_sender id (resumed id) c).1)
    ∙ ap (λ r. received_on id t r.1) (resumed_sends id c up)
    ∙ send_new_catches_up id t n c (publish-Reads id t n m b h) small'
    ∙ ap (drop n) grown

-- If a message is published while a sender is on its way to `pthread_cond_wait`, the broadcast does not
-- reach that sender: the message is on its topic, and the sender waits and sends nothing.
pub published_missed :
    (id : ℕ) (m : Message) (b : Broker)
    → get_elem? b.senders id ≡ some away
    → ((run b (published m ∷ settled id ∷ resumed id ∷ [])).1 ≡ [])
      × (get_elem? (run b (published m ∷ settled id ∷ resumed id ∷ [])).0.senders id ≡ some waiting)
      × (log m.topic (run b (published m ∷ settled id ∷ resumed id ∷ [])).0.topics
          ≡ log m.topic b.topics ++ m.contents ∷ [])
unfolding run step at_sender sender_step
published_missed id m b at =
    let c = publish m b in
    let asleep : get_elem? c.senders id ≡ some away =
      rw (senders-publish m b) (sleeps b.senders id at) in
    let inside = get_elem?-lt c.senders id away asleep in
    ground (
      arith,
      get_elem?-set_self c.senders id waiting inside,
      log-publish m.topic m b,
      text_eq_refl m.topic,
    )

-- A subscriber that asks twice for a topic that it reads starts over: it reads the topic from its first
-- message, so that what it had already is sent to it again.
pub asking_twice_restarts :
    (id n : ℕ) (t : Text) (b : Broker) → Reads id t n b → Reads id t 0 (ask id t (ask id t b))
unfolding ask
asking_twice_restarts id n t b h =
    let mine = interests_of id b in
    let off = assign t (toggle (find t mine)) mine in
    let found = find-assign_same t (toggle (find t mine)) mine in
    record {
      subscribed =
          ground (arith, h.subscribed, found, find-assign_same t (toggle (find t off)) off);
      there = omega arith;
      unique = ground (
        arith,
        assign-IsUnique t (toggle (find t mine)) mine h.unique,
        assign-IsUnique t (toggle (find t off)) off,
      );
    }
