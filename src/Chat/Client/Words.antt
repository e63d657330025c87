-- ===== src/Chat/Client/Words.antt =====
-- From the prompt of a client through the room to the screens of the others.
use hyu_2021_network_protoco.Common.{
  ℕ, ◌<◌, ◌≡◌, ◌∙◌, refl, sym, ap, subst, true, false, List, [], ◌∷◌, ◌++◌, some, arith, length,
  get_elem?, set, replicate, get_elem?-set_self, get_elem?-lt,
}
use hyu_2021_network_protoco.Clib.Text.{Text}
use hyu_2021_network_protoco.Chat.Queue.{Message, Queue, nowhere, is_full, is_empty, insert, remove}
use hyu_2021_network_protoco.Chat.Queue.Slots.{length-slots}
use hyu_2021_network_protoco.Chat.Queue.Fifo.{
  IsValid, no_message, held, contents, insert-IsValid, contents-insert, is_full-false, remove_slots,
  dequeue_takes,
}
use hyu_2021_network_protoco.Chat.Room as Room
use hyu_2021_network_protoco.Chat.Room.{
  Room, Receiver, reading, entering, looking, removing, sending, max_num_client, Sent, Event,
  incoming, entered, looked, removed, receive, enter, receiver_step, sender_step, at_receiver,
  live_step, step, run,
}
use hyu_2021_network_protoco.Chat.Room.Invariant.{IsSafe, run-IsSafe}
use hyu_2021_network_protoco.Chat.Client as Client
use hyu_2021_network_protoco.Chat.Client.{Client, prompting, send_word, printed}
use hyu_2021_network_protoco.Chat.Client.Screen.{
  IsReading, count, arrivals, messages_to, broadcast_to_screen,
}

module _ (r : Room) (i : ℕ) (w : Text) where
  -- The message as the room has it, and the room behind each step.
  abbrev pub labelled : Message
  labelled = record { user_id = r.user_id; text = w }

  abbrev holding : Room
  holding = record r { receivers = set r.receivers i (entering labelled) }

  abbrev queued : Room
  queued = record r {
    queue = insert labelled r.queue;
    receivers = set (set r.receivers i (entering labelled)) i reading;
  }

  abbrev taken : Room
  taken = record queued {
    queue = (remove (insert labelled r.queue)).1;
    sender = sending (insert labelled r.queue).front 0;
  }

  takes_in :
      is_full r.queue ≡ false
      → r.running ≡ true
      → get_elem? r.receivers i ≡ some reading
      → step (incoming i w) r ≡ (holding, [])
  unfolding step live_step at_receiver receiver_step receive
  takes_in room live here = ground (arith, room, live, here)

  enters :
      r.running ≡ true
      → get_elem? r.receivers i ≡ some reading
      → step (entered i) holding ≡ (queued, [])
  unfolding step live_step at_receiver receiver_step enter
  enters live here = ground (
    arith,
    live,
    get_elem?-set_self r.receivers i (entering labelled) (get_elem?-lt r.receivers i reading here),
  )

  looks :
      r.running ≡ true
      → r.sender ≡ looking
      → is_empty (insert labelled r.queue) ≡ false
      → step looked queued ≡ (record queued { sender = removing }, [])
  unfolding step live_step sender_step
  looks live at some_held = ground (arith, live, at, some_held)

  removes : r.running ≡ true → step removed (record queued { sender = removing }) ≡ (taken, [])
  unfolding step live_step sender_step remove
  removes live = ground (arith, live)

more_held : (q : Queue) → IsValid q → held q ≡ 2 → is_empty q ≡ false
unfolding is_empty
more_held q v h = ground arith

run-cons :
    (e : Event) (es : List Event) (r s : Room) → step e r ≡ (s, []) → run r (e ∷ es) ≡ run s es
unfolding run
run-cons e es r s h = rw h refl

-- The steps that bring a word into the queue, and the one before it out.
abbrev pub turn_of : ℕ → Text → List Event
turn_of i w = incoming i w ∷ entered i ∷ looked ∷ removed ∷ []

types_word :
    (w : Text) (c : Client)
    → length w < 1024
    → c.main ≡ prompting
    → c.running ≡ true
    → Client.step (Client.types w true) c
      ≡ (c, Client.sent (record { user_id = nowhere; text = w }) ∷ [])
unfolding Client.step Client.live_step Client.main_step send_word
types_word w c short at live = ground (arith, short, at, live)

module _ (r : Room) (w : Text) (x : Message) where
  -- One more message in a queue that holds one: the older of the two is what `dequeue` points to.
  older_first :
      IsValid r.queue
      → contents r.queue ≡ x ∷ []
      → let q = insert (record { user_id = r.user_id; text = w }) r.queue in
        (is_full r.queue ≡ false)
        × (is_empty q ≡ false)
        × (get_elem? (remove q).1.messages q.front ≡ some x)
        × (contents (remove q).1 ≡ record { user_id = r.user_id; text = w } ∷ [])
  older_first v h =
      let m : Message = record { user_id = r.user_id; text = w } in
      let q : Queue = insert m r.queue in
      let one : held r.queue ≡ 1 =
        sym (length-slots no_message r.queue.messages r.queue.front (held r.queue)) ∙ ap length h in
      let two = contents-insert m r.queue v (omega arith) ∙ ap (λ l. l ++ m ∷ []) h in
      let count : held q ≡ 2 =
        sym (length-slots no_message q.messages q.front (held q)) ∙ ap length two in
      let valid = insert-IsValid m r.queue v in
      let (first, older, left) = dequeue_takes q x m [] valid two in
      let (near, takes, next, same, fewer) = remove_slots q 0 valid count in
      (
        is_full-false r.queue v (omega arith),
        more_held q valid count,
        ap (λ ms. get_elem? ms q.front) same ∙ older,
        sym (ap (λ d. contents d.1) takes) ∙ left,
      )

  -- The room from a word that comes in to the loop of `send`.
  turns :
      (i : ℕ) (es : List Event)
      → IsValid r.queue
      → r.running ≡ true
      → r.sender ≡ looking
      → get_elem? r.receivers i ≡ some reading
      → contents r.queue ≡ x ∷ []
      → run r (turn_of i w ++ es) ≡ run (taken r i w) es
  turns i es v live at here h =
      let (room, some_held, older, left) = older_first v h in
      run-cons (incoming i w) (entered i ∷ looked ∷ removed ∷ es) r (holding r i w)
        (takes_in r i w room live here)
      ∙ run-cons (entered i) (looked ∷ removed ∷ es) (holding r i w) (queued r i w)
          (enters r i w live here)
      ∙ run-cons looked (removed ∷ es) (queued r i w) (record (queued r i w) { sender = removing })
          (looks r i w live at some_held)
      ∙ run-cons removed es (record (queued r i w) { sender = removing }) (taken r i w)
          (removes r i w live)

run-nil : (r : Room) → run r [] ≡ (r, [])
unfolding run
run-nil r = refl

taken-IsSafe :
    (i : ℕ) (w : Text) (x : Message) (r : Room)
    → IsSafe r
    → r.running ≡ true
    → r.sender ≡ looking
    → get_elem? r.receivers i ≡ some reading
    → contents r.queue ≡ x ∷ []
    → IsSafe (taken r i w)
taken-IsSafe i w x r safe live at here h =
    let turn = turns r w x i [] safe.valid live at here h ∙ run-nil (taken r i w) in
    subst (λ s. IsSafe s.0) turn (run-IsSafe (turn_of i w) r safe)

-- In a safe state of the running room in which the sender looks for a message, receiver `i` waits in `recv`, and the
-- queue holds one message: a client at its prompt sends the word that is typed, of fewer than 1024 characters, under
-- the user id -1. When receiver `i` gets that, and the sender then has its turns, over connections that all stand, the
-- screen of any client whose thread is in its loop shows the older message, once for each time that its socket stands
-- in the table, and nothing of the new one; the new one is held back in the queue, alone, with what `user_id` of the
-- room holds.
pub word_pushes_out :
    (i fd : ℕ) (w : Text) (x : Message) (r : Room) (a b : Client)
    → IsSafe r
    → r.running ≡ true
    → r.sender ≡ looking
    → get_elem? r.receivers i ≡ some reading
    → contents r.queue ≡ x ∷ []
    → length w < 1024
    → a.main ≡ prompting
    → a.running ≡ true
    → IsReading b
    → let room = run r (turn_of i w ++ replicate max_num_client (Room.sent true)) in
      (Client.step (Client.types w true) a
        ≡ (a, Client.sent (record { user_id = nowhere; text = w }) ∷ []))
      × ((Client.run b (arrivals (messages_to fd room.1))).1
          ≡ replicate (count fd r.sockets) (printed x))
      × (contents room.0.queue ≡ record { user_id = r.user_id; text = w } ∷ [])
word_pushes_out i fd w x r a b safe up at here h short prompt live reads =
    let (room, some_held, older, left) = older_first r w x safe.valid h in
    let slot = (insert (labelled r i w) r.queue).front in
    let (free, screen) =
      broadcast_to_screen slot fd x (taken r i w) b up refl (taken-IsSafe i w x r safe up at here h)
        older reads in
    let all = turns r w x i (replicate max_num_client (Room.sent true)) safe.valid up at here h in
    (
      types_word w a short prompt live,
      ap (λ s. (Client.run b (arrivals (messages_to fd s.1))).1) all ∙ screen,
      ap (λ s. contents s.0.queue) all ∙ ap (λ s. contents s.queue) free ∙ left,
    )
