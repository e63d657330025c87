-- ===== src/Ftp/Network/Lockstep/Asks.antt =====
-- A line of the user, and the turns of the two sides.
use hyu_2021_network_protoco.Common.{◌≡◌, refl, ◌∙◌, sym, ◌⊎◌, inl, inr, List, [], ◌∷◌, ◌++◌, arith}
use hyu_2021_network_protoco.Clib.Text.{Text}
use hyu_2021_network_protoco.Ftp.Protocol.{Command, Message, interpret}
use hyu_2021_network_protoco.Ftp.Server.System as Server
use hyu_2021_network_protoco.Ftp.Client.System as Client
use hyu_2021_network_protoco.Ftp.Network.Lockstep.{InStep, InLockstep}
use hyu_2021_network_protoco.Ftp.Client.{Request, ready, starved, prompt, remember}
use hyu_2021_network_protoco.Ftp.Network.Lockstep.Threads.{after_client, stopped-InStep}
use hyu_2021_network_protoco.Ftp.Network.Lockstep.Takes.{open_InStep}
use hyu_2021_network_protoco.Ftp.Exchange.Requests.{prompt_ready}
use hyu_2021_network_protoco.Ftp.Network.{Network, client_does}

sent_command-remember :
    (c : Command) (m : Message) (s : hyu_2021_network_protoco.Ftp.Client.Client)
    → (remember c m s).sent_command ≡ c
unfolding remember
sent_command-remember c m s = ground arith

-- What the prompt does with a line.
Request-cases :
    (x : Request)
    → (x ≡ starved)
      ⊎ (x ≡ Request.faults)
      ⊎ ((c : Command) × (m : Message) × (left : List Text) × (x ≡ ready c m left))
Request-cases starved = inl refl
Request-cases Request.faults = inr (inl refl)
Request-cases (ready c m left) = inr (inr (c, m, left, refl))

asked-InStep :
    (sm : Server.Main) (m : Message) (c d : Command) (qs rs : List Message)
    → interpret m.command ≡ c
    → InStep sm Client.prompting d qs rs
    → InStep sm Client.receiving c (qs ++ m ∷ []) rs
asked-InStep Server.stopped m c d qs rs e k = tt
asked-InStep Server.accepting m c d qs rs e k = absurd k
asked-InStep Server.receiving m c d [] [] e k = e
asked-InStep Server.receiving m c d [] (r ∷ rs) e k = absurd k
asked-InStep Server.receiving m c d (q ∷ qs) rs e k = absurd k
asked-InStep (Server.awaiting x) m c d qs rs e k = absurd k

enter-InLockstep :
    (line : Text) (n : Network)
    → n.client.main ≡ Client.prompting
    → InLockstep n
    → InLockstep (after_client (Client.enter line n.client) n)
unfolding Client.enter
enter-InLockstep line n b k = elim (Request-cases (prompt (line ∷ []))) [
  | inl h ↦ rw (h, Client.enter) k
  | inr (inl h) ↦
      rw (h, Client.enter)
        (stopped-InStep n.server.main n.client.client.sent_command n.requests n.replies)
  | inr (inr (c, m, left, h)) ↦
      rw (h, Client.enter)
        (asked-InStep n.server.main m (remember c m n.client.client).sent_command
          n.client.client.sent_command n.requests n.replies
          ((prompt_ready (line ∷ []) c m left h).same
            ∙ sym (sent_command-remember c m n.client.client))
          (open_InStep Client.prompting n.replies n b refl k))
]

types_step-InLockstep :
    (line : Text) (cm : Client.Main) (n : Network)
    → n.client.main ≡ cm
    → InLockstep n
    → InLockstep (after_client (Client.main_step (Client.typed line) cm n.client) n)
unfolding Client.main_step
types_step-InLockstep line Client.prompting n b k = enter-InLockstep line n b k
types_step-InLockstep line Client.receiving n b k = k
types_step-InLockstep line Client.closing n b k = k
types_step-InLockstep line Client.joining n b k = k
types_step-InLockstep line Client.stopped n b k = k

pub types-InLockstep :
    (line : Text) (n : Network) → InLockstep n → InLockstep (client_does (Client.typed line) n).0
unfolding client_does Client.step
types-InLockstep line n k = types_step-InLockstep line n.client.main n refl k
