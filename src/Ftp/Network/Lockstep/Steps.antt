-- ===== src/Ftp/Network/Lockstep/Steps.antt =====
-- The steps of the server, and the turns of the two sides.
use hyu_2021_network_protoco.Common.{
  ℕ, ◌≡◌, refl, inl, inr, Bool, List, [], ◌∷◌, ◌++◌, arith, subst,
}
use hyu_2021_network_protoco.Clib.Text.{codes}
use hyu_2021_network_protoco.Ftp.Protocol.{Command, Message, interpret}
use hyu_2021_network_protoco.Ftp.Server.State.{Files}
use hyu_2021_network_protoco.Ftp.Server.Execute.{Surroundings}
use hyu_2021_network_protoco.Ftp.Server.System as Server
use hyu_2021_network_protoco.Ftp.Client.System as Client
use hyu_2021_network_protoco.Ftp.Network.Lockstep.{
  Transfers, IsFinal, IsAwaited, IsQuiet, IsOpened, IsClosing, InStep, InLockstep,
}
use hyu_2021_network_protoco.Ftp.Network.Lockstep.Answers.{
  Answered, closes, opens, Aside, handle-Answered, join-Closes, with_thread-Aside, opened-Aside,
  served-Aside, send_final, idle,
}
use hyu_2021_network_protoco.Ftp.Network.{Network, server_does, read_request}
use hyu_2021_network_protoco.Ftp.Network.Lockstep.Posted.{
  after_server, sends-InLockstep, Closes-InLockstep, Aside-InLockstep,
}

-- The server takes the request `m` from its connection and handles it.
handled-InLockstep :
    (cm : Client.Main) (m : Message) (qs rs : List Message) (r : Server.Result) (n : Network)
    → Answered (interpret m.command) r
    → n.client.main ≡ cm
    → n.replies ≡ rs
    → InStep Server.receiving cm n.client.client.sent_command (m ∷ qs) rs
    → InLockstep (after_server r (record n { requests = qs }))
handled-InLockstep Client.stopped m qs rs r n (closes h) b d k =
    Closes-InLockstep Client.stopped rs r (record n { requests = qs }) h b d (λ x f. tt)
handled-InLockstep Client.stopped m qs rs r n (opens x main out op t) b d k =
    sends-InLockstep (Server.awaiting (interpret m.command)) Client.stopped rs x r
      (record n { requests = qs }) main out b d tt
handled-InLockstep Client.receiving m [] [] r n (closes h) b d k =
    Closes-InLockstep Client.receiving [] r (record n { requests = [] }) h b d (λ x f. f)
handled-InLockstep Client.receiving m [] [] r n (opens x main out op t) b d k =
    sends-InLockstep (Server.awaiting (interpret m.command)) Client.receiving [] x r
      (record n { requests = [] }) main out b d (k, subst Transfers k t, op)
handled-InLockstep Client.receiving m [] (r0 ∷ rs) r n h b d k = absurd k
handled-InLockstep Client.receiving m (q ∷ qs) rs r n h b d k = absurd k
handled-InLockstep Client.joining m qs rs r n h b d k = absurd k
handled-InLockstep Client.closing m qs rs r n h b d k = absurd k
handled-InLockstep Client.prompting m qs rs r n h b d k = absurd k

pub receives :
    (e : Surroundings) (m : Message) (s : Server.System)
    → s.main ≡ Server.receiving
    → Server.step (Server.received e (Server.message m)) s ≡ Server.handle e m s.server
unfolding Server.step Server.main_step Server.receive
receives e m s a = rw (a, Server.main_step) refl

pub read-InLockstep :
    (e : Surroundings) (sm : Server.Main) (qs : List Message) (n : Network)
    → n.server.main ≡ sm
    → n.requests ≡ qs
    → InLockstep n
    → InLockstep (read_request e sm qs n)
unfolding read_request server_does
read-InLockstep e Server.receiving [] n a c k = k
read-InLockstep e Server.receiving (m ∷ qs) n a c k = simp (receives e m n.server a) (
    handled-InLockstep n.client.main m qs n.replies (Server.handle e m n.server.server) n
      (handle-Answered e m n.server.server) refl refl
      (subst (λ x. InStep x n.client.main n.client.client.sent_command (m ∷ qs) n.replies) a
        (subst (λ q. InStep n.server.main n.client.main n.client.client.sent_command q n.replies) c
          k)))
read-InLockstep e Server.accepting qs n a c k = k
read-InLockstep e Server.stopped qs n a c k = k
read-InLockstep e (Server.awaiting d) qs n a c k = k

pub quiet-IsAwaited :
    (c : Command) (qs rs : List Message) (m : Message)
    → IsQuiet qs rs
    → IsFinal m
    → IsAwaited c qs (rs ++ m ∷ [])
quiet-IsAwaited c [] [] m q f = f
quiet-IsAwaited c [] (r ∷ rs) m q f = absurd q
quiet-IsAwaited c (x ∷ qs) rs m q f = absurd q

pub quiet-IsClosing :
    (qs rs : List Message) (m : Message) → IsQuiet qs rs → IsClosing qs (rs ++ m ∷ [])
quiet-IsClosing [] [] m q = tt
quiet-IsClosing [] (r ∷ rs) m q = absurd q
quiet-IsClosing (x ∷ qs) rs m q = absurd q

-- The closing answer of a transfer.
opened-IsAwaited :
    (c : Command) (qs rs : List Message) (m : Message)
    → Transfers c
    → IsOpened qs rs
    → IsAwaited c qs (rs ++ m ∷ [])
opened-IsAwaited c [] (i ∷ []) m t o = (o, t)
opened-IsAwaited c [] (i ∷ j ∷ rs) m t o = absurd o
opened-IsAwaited c [] [] m t o = absurd o
opened-IsAwaited c (x ∷ qs) rs m t o = absurd o

closing-InStep :
    (d : Command) (cm : Client.Main) (c : Command) (qs rs : List Message) (m : Message)
    → InStep (Server.awaiting d) cm c qs rs
    → InStep Server.receiving cm c qs (rs ++ m ∷ [])
closing-InStep d Client.stopped c qs rs m k = tt
closing-InStep d Client.receiving c qs rs m k = opened-IsAwaited c qs rs m k.1 k.2
closing-InStep d Client.joining c qs rs m k = quiet-IsClosing qs rs m k.2
closing-InStep d Client.closing c qs rs m k = quiet-IsClosing qs rs m k.2
closing-InStep d Client.prompting c qs rs m k = absurd k

greeting-InStep :
    (cm : Client.Main) (c : Command) (qs rs : List Message) (m : Message)
    → InStep Server.accepting cm c qs rs
    → IsFinal m
    → InStep Server.receiving cm c qs (rs ++ m ∷ [])
greeting-InStep Client.stopped c qs rs m k f = tt
greeting-InStep Client.receiving c qs rs m k f = quiet-IsAwaited c qs rs m k f
greeting-InStep Client.joining c qs rs m k f = absurd k
greeting-InStep Client.closing c qs rs m k f = absurd k
greeting-InStep Client.prompting c qs rs m k f = absurd k

greet-InLockstep :
    (sm : Server.Main) (n : Network)
    → n.server.main ≡ sm
    → InLockstep n
    → InLockstep (after_server (Server.main_step Server.accepted sm n.server) n)
unfolding Server.main_step
greet-InLockstep Server.accepting n a k =
    Closes-InLockstep n.client.main n.replies
      (Server.send_control 220 (codes "Server ready") Server.receiving n.server) n
      (send_final 220 (codes "Server ready") n.server (omega arith)) refl refl
      (λ m f.
        greeting-InStep n.client.main n.client.client.sent_command n.requests n.replies m
          (subst (λ x. InStep x n.client.main n.client.client.sent_command n.requests n.replies) a
            k)
          f)
greet-InLockstep Server.receiving n a k = k
greet-InLockstep Server.stopped n a k = k
greet-InLockstep (Server.awaiting d) n a k = k

end-InLockstep :
    (sm : Server.Main) (n : Network)
    → n.server.main ≡ sm
    → InLockstep n
    → InLockstep (after_server (Server.main_step Server.joined sm n.server) n)
unfolding Server.main_step
end-InLockstep Server.accepting n a k = k
end-InLockstep Server.receiving n a k = k
end-InLockstep Server.stopped n a k = k
end-InLockstep (Server.awaiting d) n a k = elim (join-Closes d n.server) [
  | inl e ↦ simp e k
  | inr h ↦
      Closes-InLockstep n.client.main n.replies (Server.join_thread d n.server) n h refl refl
        (λ m f. closing-InStep d n.client.main n.client.client.sent_command n.requests n.replies m (
          subst (λ x. InStep x n.client.main n.client.client.sent_command n.requests n.replies) a
            k))
]

refuses_step-Aside :
    (sm : Server.Main) (s : Server.System) → Aside s.main (Server.main_step Server.refused sm s)
unfolding Server.main_step
refuses_step-Aside Server.accepting s = record { silent = tt; stays = inr refl }
refuses_step-Aside Server.receiving s = idle s
refuses_step-Aside Server.stopped s = idle s
refuses_step-Aside (Server.awaiting c) s = idle s

opened_step-Aside :
    (i : ℕ) (ok : Bool) (b : Server.Bind) (sm : Server.Main) (s : Server.System)
    → Aside s.main (Server.main_step (Server.opened i ok b) sm s)
unfolding Server.main_step
opened_step-Aside i ok b Server.stopped s = idle s
opened_step-Aside i ok b Server.accepting s =
    with_thread-Aside i _ _ s (λ t. opened-Aside i t ok b s)
opened_step-Aside i ok b Server.receiving s =
    with_thread-Aside i _ _ s (λ t. opened-Aside i t ok b s)
opened_step-Aside i ok b (Server.awaiting c) s =
    with_thread-Aside i _ _ s (λ t. opened-Aside i t ok b s)

wakes_step-Aside :
    (i : ℕ) (sm : Server.Main) (s : Server.System)
    → Aside s.main (Server.main_step (Server.spurious i) sm s)
unfolding Server.main_step
wakes_step-Aside i Server.stopped s = idle s
wakes_step-Aside i Server.accepting s =
    with_thread-Aside i _ _ s (λ t. record { silent = tt; stays = inl refl })
wakes_step-Aside i Server.receiving s =
    with_thread-Aside i _ _ s (λ t. record { silent = tt; stays = inl refl })
wakes_step-Aside i (Server.awaiting c) s =
    with_thread-Aside i _ _ s (λ t. record { silent = tt; stays = inl refl })

serves_step-Aside :
    (i : ℕ) (files : Files) (memory : List ℕ) (l a : Bool) (sm : Server.Main) (s : Server.System)
    → Aside s.main (Server.main_step (Server.served i files memory l a) sm s)
unfolding Server.main_step
serves_step-Aside i files memory l a Server.stopped s = idle s
serves_step-Aside i files memory l a Server.accepting s =
    with_thread-Aside i _ _ s (λ t. served-Aside i t files memory l a s)
serves_step-Aside i files memory l a Server.receiving s =
    with_thread-Aside i _ _ s (λ t. served-Aside i t files memory l a s)
serves_step-Aside i files memory l a (Server.awaiting c) s =
    with_thread-Aside i _ _ s (λ t. served-Aside i t files memory l a s)

-- A step of the server's own, with no request.
pub server-InLockstep :
    (e : Server.Event) (n : Network)
    → ((s : Server.System) → Aside s.main (Server.step e s))
    → InLockstep n
    → InLockstep (server_does e n)
unfolding server_does
server-InLockstep e n a k = Aside-InLockstep (Server.step e n.server) n (a n.server) k

pub greets-InLockstep : (n : Network) → InLockstep n → InLockstep (server_does Server.accepted n)
unfolding server_does Server.step
greets-InLockstep n k = greet-InLockstep n.server.main n refl k

pub server_joins-InLockstep :
    (n : Network) → InLockstep n → InLockstep (server_does Server.joined n)
unfolding server_does Server.step
server_joins-InLockstep n k = end-InLockstep n.server.main n refl k

pub refused_event-Aside : (s : Server.System) → Aside s.main (Server.step Server.refused s)
unfolding Server.step
refused_event-Aside s = refuses_step-Aside s.main s

pub opened_event-Aside :
    (i : ℕ) (ok : Bool) (b : Server.Bind) (s : Server.System)
    → Aside s.main (Server.step (Server.opened i ok b) s)
unfolding Server.step
opened_event-Aside i ok b s = opened_step-Aside i ok b s.main s

pub spurious_event-Aside :
    (i : ℕ) (s : Server.System) → Aside s.main (Server.step (Server.spurious i) s)
unfolding Server.step
spurious_event-Aside i s = wakes_step-Aside i s.main s

pub served_event-Aside :
    (i : ℕ) (files : Files) (memory : List ℕ) (l a : Bool) (s : Server.System)
    → Aside s.main (Server.step (Server.served i files memory l a) s)
unfolding Server.step
served_event-Aside i files memory l a s = serves_step-Aside i files memory l a s.main s
