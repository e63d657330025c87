-- ===== src/Broker/Delivery.antt =====
-- What the broker sends a subscriber.
use hyu_2021_network_protoco.Common.{
  ℕ, ◌^◌, ◌≤◌, ◌<◌, ◌≡◌, ◌≢◌, refl, ◌∙◌, sym, ap, ◌⊎◌, inl, inr, true, List, [], ◌∷◌, ◌++◌,
  append_assoc, append-nil, some, ◌==◌, ==_iff, arith, length, length-append, All, take, take-drop,
  take_of_le, take-append_le, get_elem?, Bool-cases, Option-cases,
}
use hyu_2021_network_protoco.Clib.Text.{Text}
use hyu_2021_network_protoco.Broker.Subscriptions.{
  find, IsUnique, assign-IsUnique, find-assign_other,
}
use hyu_2021_network_protoco.Broker.Topics.{
  log, log-send_topics, send_topics-IsUnique, send_topics_lem,
}
use hyu_2021_network_protoco.Broker.{
  Message, publish, Phase, away, waiting, woken, Broker, accept, interests_of, toggle, ask,
  send_topics, Result, send_new, Event, joined, published, asked, settled, spurious, resumed,
  sender_step, at_sender, step, run,
}
use hyu_2021_network_protoco.Broker.Received.{
  received_on, received_on-append, received_on_self, received_on_other, log-publish,
  interests-publish,
}

-- The subscriber reads the topic, up to a message that is there.
pub record Reads (id : ℕ) (t : Text) (n : ℕ) (b : Broker) : Type 0 where
  pub subscribed : find t (interests_of id b) ≡ some (true, n)
  pub there : n ≤ length (log t b.topics)
  pub unique : IsUnique (interests_of id b)

-- It reads on: what it had of the topic, with what it was sent, is what it has now.
pub record ReadsOn (id : ℕ) (t : Text) (n : ℕ) (b : Broker) (r : Result) : Type 0 where
  pub now : ℕ
  pub reads : Reads id t now r.0
  pub in_order : take n (log t b.topics) ++ received_on id t r.1 ≡ take now (log t r.0.topics)

-- The event is no request of the subscriber about the topic.
abbrev pub Leaves : ℕ → Text → Event → Type 0
Leaves id t (asked j u) = (j ≢ id) ⊎ (u ≢ t)
Leaves id t _ = Unit

same_topics :
    (id : ℕ) (t : Text) (n : ℕ) (b c : Broker)
    → Reads id t n b
    → c.topics ≡ b.topics
    → interests_of id c ≡ interests_of id b
    → ReadsOn id t n b (c, [])
unfolding received_on
same_topics id t n b c h e f = record {
  now = n;
  reads = record { subscribed = rw f h.subscribed; there = rw e h.there; unique = rw f h.unique };
  in_order = rw e (append-nil (take n (log t b.topics)));
}

pub publish-Reads :
    (id : ℕ) (t : Text) (n : ℕ) (m : Message) (b : Broker)
    → Reads id t n b
    → Reads id t n (publish m b)
publish-Reads id t n m b h =
    let longer = length-append (log t b.topics) (m.contents ∷ []) in
    record {
      subscribed = rw (interests-publish id m b) h.subscribed;
      there = ground (arith, log-publish t m b, h.there);
      unique = rw (interests-publish id m b) h.unique;
    }

publish-ReadsOn :
    (id : ℕ) (t : Text) (n : ℕ) (m : Message) (b : Broker)
    → Reads id t n b
    → ReadsOn id t n b (publish m b, [])
unfolding received_on
publish-ReadsOn id t n m b h =
    let l = log t b.topics in
    record {
      now = n;
      reads = publish-Reads id t n m b h;
      in_order = ground (
        arith,
        append-nil (take n l),
        log-publish t m b,
        take-append_le n l (m.contents ∷ []),
        h.there,
      );
    }

ask-Reads :
    (id j : ℕ) (t u : Text) (n : ℕ) (b : Broker)
    → (j ≢ id) ⊎ (u ≢ t)
    → Reads id t n b
    → Reads id t n (ask j u b)
unfolding ask
ask-Reads id j t u n b d h =
    let mine = interests_of j b in
    let i = toggle (find u mine) in
    record {
      subscribed = ground (arith, h.subscribed, find-assign_other u t i mine);
      there = h.there;
      unique = ground (arith, h.unique, assign-IsUnique u i mine);
    }

ask-ReadsOn :
    (id j : ℕ) (t u : Text) (n : ℕ) (b : Broker)
    → (j ≢ id) ⊎ (u ≢ t)
    → Reads id t n b
    → ReadsOn id t n b (ask j u b, [])
unfolding received_on ask
ask-ReadsOn id j t u n b d h = record {
  now = n;
  reads = ask-Reads id j t u n b d h;
  in_order = append-nil (take n (log t b.topics));
}

send_new-ReadsOn :
    (id j : ℕ) (t : Text) (n : ℕ) (b : Broker)
    → Reads id t n b
    → length (log t b.topics) < 2 ^ 31
    → ReadsOn id t n b (send_new j b)
unfolding send_new
send_new-ReadsOn id j t n b h small = elim (Bool-cases (id == j)) [
  | inl e ↦
      let l = log t b.topics in
      let mine = interests_of j b in
      let same : id ≡ j = (==_iff id j).0 e in
      let (found, sent) =
        send_topics_lem t n b.topics mine (ground (arith, h.unique)) (ground (arith, h.subscribed))
          h.there small in
      let kept = log-send_topics t b.topics mine in
      record {
        now = length l;
        reads = record {
          subscribed = ground (arith, found);
          there = ground (arith, kept);
          unique = ground (arith, h.unique, send_topics-IsUnique b.topics mine);
        };
        in_order = ground (
          arith,
          kept,
          sent,
          received_on_self j t (send_topics b.topics mine).2,
          take-drop n l,
          take_of_le (length l) l,
        );
      }
  | inr e ↦
      let mine = interests_of j b in
      let kept = log-send_topics t b.topics mine in
      record {
        now = n;
        reads = record {
          subscribed = ground (arith, h.subscribed);
          there = ground (arith, kept, h.there);
          unique = ground (arith, h.unique);
        };
        in_order = ground (
          arith,
          kept,
          received_on_other id j t (send_topics b.topics mine).2,
          append-nil (take n (log t b.topics)),
        );
      }
]

sender_step-ReadsOn :
    (id : ℕ) (t : Text) (n : ℕ) (e : Event) (p : Phase) (b : Broker)
    → Reads id t n b
    → length (log t b.topics) < 2 ^ 31
    → ReadsOn id t n b (sender_step e p b)
unfolding sender_step
sender_step-ReadsOn id t n (settled j) away b h small = same_topics id t n b _ h refl refl
sender_step-ReadsOn id t n (spurious j) waiting b h small = same_topics id t n b _ h refl refl
sender_step-ReadsOn id t n (resumed j) woken b h small = send_new-ReadsOn id j t n b h small
sender_step-ReadsOn id t n _ _ b h small = same_topics id t n b b h refl refl

at_sender-ReadsOn :
    (id j : ℕ) (t : Text) (n : ℕ) (e : Event) (b : Broker)
    → Reads id t n b
    → length (log t b.topics) < 2 ^ 31
    → ReadsOn id t n b (at_sender j e b)
unfolding at_sender
at_sender-ReadsOn id j t n e b h small = elim (Option-cases (get_elem? b.senders j)) [
  | inl q ↦ rw (q, at_sender) (same_topics id t n b b h refl refl)
  | inr (p, q) ↦ rw (q, at_sender) (sender_step-ReadsOn id t n e p b h small)
]

step-ReadsOn :
    (id : ℕ) (t : Text) (n : ℕ) (e : Event) (b : Broker)
    → Leaves id t e
    → Reads id t n b
    → length (log t b.topics) < 2 ^ 31
    → ReadsOn id t n b (step e b)
unfolding step accept
step-ReadsOn id t n joined b l h small = same_topics id t n b _ h refl refl
step-ReadsOn id t n (published m) b l h small = publish-ReadsOn id t n m b h
step-ReadsOn id t n (asked j u) b l h small = ask-ReadsOn id j t u n b l h
step-ReadsOn id t n (settled j) b l h small = at_sender-ReadsOn id j t n (settled j) b h small
step-ReadsOn id t n (spurious j) b l h small = at_sender-ReadsOn id j t n (spurious j) b h small
step-ReadsOn id t n (resumed j) b l h small = at_sender-ReadsOn id j t n (resumed j) b h small

-- No step takes a message off a topic.
step_grows :
    (t : Text) (e : Event) (b : Broker)
    → length (log t b.topics) ≤ length (log t (step e b).0.topics)
unfolding step accept ask at_sender sender_step send_new
step_grows t joined b = omega arith
step_grows t (published m) b =
    ground (arith, log-publish t m b, length-append (log t b.topics) (m.contents ∷ []))
step_grows t (asked j u) b = omega arith
step_grows t (settled j) b = ground arith
step_grows t (spurious j) b = ground arith
step_grows t (resumed j) b = ground (arith, log-send_topics t b.topics (interests_of j b))

run_grows :
    (t : Text) (es : List Event) (b : Broker)
    → length (log t b.topics) ≤ length (log t (run b es).0.topics)
unfolding run
run_grows t [] b = omega arith
run_grows t (e ∷ es) b = omega (arith, step_grows t e b, run_grows t es (step e b).0)

pub run-ReadsOn :
    (id : ℕ) (t : Text) (n : ℕ) (es : List Event) (b : Broker)
    → All (Leaves id t) es
    → Reads id t n b
    → length (log t (run b es).0.topics) < 2 ^ 31
    → ReadsOn id t n b (run b es)
unfolding run
run-ReadsOn id t n [] b l h small = same_topics id t n b b h refl refl
run-ReadsOn id t n (e ∷ es) b l h small =
    let c = (step e b).0 in
    let first = step-ReadsOn id t n e b l.0 h (omega (arith, step_grows t e b, run_grows t es c)) in
    let later = run-ReadsOn id t first.now es c l.1 first.reads small in
    let out = (step e b).1 in
    let outs = (run c es).1 in
    record {
      now = later.now;
      reads = later.reads;
      in_order =
          ap (λ r. take n (log t b.topics) ++ r) (received_on-append id t out outs)
          ∙ sym (
              append_assoc (take n (log t b.topics)) (received_on id t out) (received_on id t outs))
          ∙ ap (λ r. r ++ received_on id t outs) first.in_order
          ∙ later.in_order;
    }
