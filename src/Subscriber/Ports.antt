-- ===== src/Subscriber/Ports.antt =====
-- The ports on which the broker and a subscriber connect.
use hyu_2021_network_protoco.Common.{
  ℕ, ◌+◌, ◌*◌, ◌<◌, ◌≡◌, ◌∙◌, refl, ap, subst, true, List, [], ◌∷◌, ◌++◌, some, arith, length,
  get_elem?, get_elem?-snoc, set-snoc,
}
use hyu_2021_network_protoco.Clib.Decimal.{int32}
use hyu_2021_network_protoco.Broker as Broker
use hyu_2021_network_protoco.Broker.{Port}
use hyu_2021_network_protoco.Broker.Process as Process
use hyu_2021_network_protoco.Broker.Process.{
  User, Opens, open_socket, starting, opening, accepting, ports, subscriber_accepts, sender_opens,
  receiver_opens, serve_subscriber,
}
use hyu_2021_network_protoco.Broker.Process.Arguments.{user, Good}
use hyu_2021_network_protoco.Subscriber.{
  prompting, listening, Dials, connects, dials, listens, dial, receiver_init, take_ports,
  dial_topics, main_step, listen_at, receiver_step, live_step, step, run, start,
}

-- All calls of the operating system work.
abbrev pub all_open : Opens
all_open = record { socket_ok = true; setsockopt_ok = true; bind_ok = true; listen_ok = true }

abbrev pub all_dial : Dials
all_dial = record { socket_ok = true; setsockopt_ok = true; connect_ok = true }

-- The events that bring the threads of both programs to their ports.
abbrev pub broker_events : ℕ → List Process.Event
broker_events n =
    subscriber_accepts true true true ∷ sender_opens n true true ∷ receiver_opens n all_open ∷ []

-- The ports of subscriber `n`.
abbrev pub ports_of : ℕ → Port
ports_of n = record { receiver = 20000 + 2 * n; sender = 20001 + 2 * n }

run-cons :
    (e : Process.Event) (es : List Process.Event) (p q r : Process.Process)
    (out outs : List Process.Output)
    → Process.step e p ≡ (q, out)
    → Process.run q es ≡ (r, outs)
    → Process.run p (e ∷ es) ≡ (r, out ++ outs)
unfolding Process.run
run-cons e es p q r out outs h k = rw (h, k) refl

run-nil : (p : Process.Process) → Process.run p [] ≡ (p, [])
unfolding Process.run
run-nil p = refl

module _ (p : Process.Process) (live : p.running ≡ true)
    (ready : p.subscriber_handler ≡ accepting) where
  accepts_step :
      Process.step (subscriber_accepts true true true) p ≡ serve_subscriber true true true p
  unfolding Process.step Process.live_step Process.subscriber_step
  accepts_step = ground (arith, live, ready)

  sender_step :
      Process.step
        (sender_opens (length p.senders) true true)
        (record p { senders = p.senders ++ starting ∷ [] })
      ≡ (record p { senders = p.senders ++ opening p.data_sender ∷ [] }, [])
  unfolding Process.step Process.live_step Process.at_sender Process.sender_step Process.open_sender
  sender_step = ground (
    arith,
    live,
    get_elem?-snoc p.senders starting,
    set-snoc p.senders starting (opening p.data_sender),
  )

  receiver_step_lem :
      Process.step
        (receiver_opens (length p.receivers) all_open)
        (record p { receivers = p.receivers ++ starting ∷ [] })
      ≡ (record p { receivers = p.receivers ++ opening p.data_receiver ∷ [] }, [])
  unfolding Process.step Process.live_step Process.at_receiver Process.receiver_step
      Process.open_receiver open_socket
  receiver_step_lem = ground (
    arith,
    live,
    get_elem?-snoc p.receivers starting,
    set-snoc p.receivers starting (opening p.data_receiver),
  )

-- A subscriber that is given the ports takes them.
takes_ports :
    (n : ℕ)
    → n < 22767
    → (run start
        (connects all_dial (some (ports_of n)) true ∷ listens all_open ∷ dials all_dial ∷ [])).0
      ≡ record {
        main = prompting (20000 + 2 * n);
        receiver = listening (20001 + 2 * n);
        running = true;
      }
unfolding run step live_step main_step dial take_ports receiver_init dial_topics receiver_step
    listen_at open_socket
takes_ports n small = ground arith

same_ports :
    (a b c d : ℕ)
    → a ≡ c
    → b ≡ d
    → ◌≡◌ {A = Port} (record { receiver = a; sender = b }) (record { receiver = c; sender = d })
same_ports a b c d p q = λ i. record { receiver = p i; sender = q i }

same_user :
    (a b c d : ℕ)
    → a ≡ c
    → b ≡ d
    → ◌≡◌ {A = User} (record { port = a; id = b }) (record { port = c; id = d })
same_user a b c d p q = λ i. record { port = p i; id = q i }

-- When a subscriber is accepted, all calls work, and its threads read their arguments before another one is
-- accepted: the broker sends it its two ports; the new sender thread of the broker goes to the port at which the
-- subscriber's receiver then listens, and the new receiver thread listens at the port to which the subscriber's
-- main thread sends its topics. The process was as it should be, and has given out fewer than 22767 pairs.
pub ports_meet :
    (p : Process.Process)
    → p.running ≡ true
    → p.subscriber_handler ≡ accepting
    → Good p
    → length p.senders < 22767
    → let n = length p.senders in
      let r = Process.run p (broker_events n) in
      let s =
        (run start (
          connects all_dial (some (ports_of n)) true ∷ listens all_open ∷ dials all_dial ∷ [])).0 in
      (r.1 ≡ ports (ports_of n) ∷ [])
      × (get_elem? r.0.senders n ≡ some (opening (user 20001 n)))
      × (get_elem? r.0.receivers n ≡ some (opening (user 20000 n)))
      × (s.receiver ≡ listening (user 20001 n).port)
      × (s.main ≡ prompting (user 20000 n).port)
unfolding serve_subscriber Broker.accept
ports_meet p live ready g small =
    let n = length p.senders in
    let p1 = (serve_subscriber true true true p).0 in
    let p2 = record p1 { senders = p.senders ++ opening p1.data_sender ∷ [] } in
    let p3 = record p2 { receivers = p.receivers ++ opening p1.data_receiver ∷ [] } in
    let base : p.broker.port_for_each_subscriber ≡ 20000 + 2 * n = g.next_port in
    let own : int32 (p.broker.port_for_each_subscriber + 1) ≡ 20001 + 2 * n = omega arith in
    let out = same_ports _ _ _ _ base own in
    let end = run-cons _ _ p p1 p3 _ _ (accepts_step p live ready) (
      run-cons _ _ p1 p2 p3 _ _ (sender_step (record p1 { senders = p.senders }) live ready) (
        run-cons _ _ p2 p3 p3 _ _
          (subst (λ k. Process.step (receiver_opens k all_open) p2 ≡ (p3, [])) g.paired
            (receiver_step_lem (record p2 { receivers = p.receivers }) live ready))
          (run-nil p3))) in
    let up = takes_ports n small in
    (
      ap (λ x. x.1) end ∙ ap (λ q. ports q ∷ []) out,
      ap (λ x. get_elem? x.0.senders n) end
          ∙ get_elem?-snoc p.senders (opening p1.data_sender)
          ∙ ap (λ u. some (opening u)) (same_user _ _ _ _ own g.next_id),
      ap (λ x. get_elem? x.0.receivers n) end
          ∙ subst (λ k. get_elem? p3.receivers k ≡ some (opening p1.data_receiver)) g.paired
              (get_elem?-snoc p.receivers (opening p1.data_receiver))
          ∙ ap (λ u. some (opening u)) (same_user _ _ _ _ base g.next_id),
      ap (λ x. x.receiver) up,
      ap (λ x. x.main) up,
    )
