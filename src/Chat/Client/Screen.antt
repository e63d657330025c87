-- ===== src/Chat/Client/Screen.antt =====
-- What the screens of the chat room show.
use hyu_2021_network_protoco.Common.{
  ℕ, suc, ◌≡◌, ◌∙◌, refl, ap, true, false, List, [], ◌∷◌, map, some, arith, get_elem?, replicate,
  if◌then◌else◌, ◌==◌,
}
use hyu_2021_network_protoco.Chat.Queue.{Message}
use hyu_2021_network_protoco.Chat.Room as Room
use hyu_2021_network_protoco.Chat.Room.{Room, Sent, sending, looking, max_num_client}
use hyu_2021_network_protoco.Chat.Room.Invariant.{IsSafe}
use hyu_2021_network_protoco.Chat.Room.Broadcast.{to_all, broadcast_reaches_all}
use hyu_2021_network_protoco.Chat.Client.{
  Client, printed, message, Event, receives, show, live_step, step, run,
}

-- The messages that were sent to a socket, in order.
abbrev pub messages_to : ℕ → List Sent → List Message
messages_to fd [] = []
messages_to fd (s ∷ out) = elim (s.socket == fd) [
  | true ↦ s.message ∷ messages_to fd out
  | false ↦ messages_to fd out
]

-- How often a socket stands in the table.
unfoldable pub count : ℕ → List ℕ → ℕ
count fd [] = 0
count fd (x ∷ xs) = if x == fd then suc (count fd xs) else count fd xs

-- The thread of `workload` is in its loop.
pub record IsReading (c : Client) : Type 0 where
  pub thread : c.reading ≡ true
  pub live : c.running ≡ true

abbrev pub arrivals : List Message → List Event
arrivals ms = map (λ m. receives (message m)) ms

shows :
    (m : Message) (c : Client)
    → IsReading c
    → step (receives (message m)) c ≡ (record c { message_from_server = m }, printed m ∷ [])
unfolding step live_step show
shows m c r = ground (arith, r.thread, r.live)

prints_all :
    (ms : List Message) (c : Client)
    → IsReading c
    → (run c (arrivals ms)).1 ≡ map (λ m. printed m) ms
unfolding run
prints_all [] c r = refl
prints_all (m ∷ ms) c r =
    let d : Client = record c { message_from_server = m } in
    let later = prints_all ms d (record { thread = r.thread; live = r.live }) in
    simp (shows m c r, later) refl

messages_to_all :
    (fd : ℕ) (m : Message) (fds : List ℕ)
    → map (λ x. printed x) (messages_to fd (to_all m fds)) ≡ replicate (count fd fds) (printed m)
unfolding count
messages_to_all fd m [] = refl
messages_to_all fd m (x ∷ fds) = ground (arith, messages_to_all fd m fds)

-- In a safe state of the running room, ten turns of the sender, over connections that all stand, with no other thread between them, from the message in its
-- slot on: the sender looks for the next message, and the screen of a client whose thread is in its loop shows the
-- message once for each time that its socket stands in the table, and nothing else.
pub broadcast_to_screen :
    (slot fd : ℕ) (m : Message) (r : Room) (c : Client)
    → r.running ≡ true
    → r.sender ≡ sending slot 0
    → IsSafe r
    → get_elem? r.queue.messages slot ≡ some m
    → IsReading c
    → let b = Room.run r (replicate max_num_client (Room.sent true)) in
      (b.0 ≡ record r { sender = looking })
      × ((run c (arrivals (messages_to fd b.1))).1 ≡ replicate (count fd r.sockets) (printed m))
broadcast_to_screen slot fd m r c live at safe here reads =
    let b = Room.run r (replicate max_num_client (Room.sent true)) in
    let reaches = broadcast_reaches_all slot m r live at safe here in
    (
      ap (λ x. x.0) reaches,
      prints_all (messages_to fd b.1) c reads
          ∙ ap (λ x. map (λ y. printed y) (messages_to fd x.1)) reaches
          ∙ messages_to_all fd m r.sockets,
    )
