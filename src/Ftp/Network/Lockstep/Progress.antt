-- ===== src/Ftp/Network/Lockstep/Progress.antt =====
-- How the two sides go on where the client waits for an answer.
use hyu_2021_network_protoco.Common.{
  ℕ, ◌≡◌, ◌≢◌, refl, ◌∙◌, sym, ap, subst, ◌⊎◌, inl, inr, Bool, true, false, List, [], ◌∷◌, ◌++◌,
  arith,
}
use hyu_2021_network_protoco.Clib.Text.{codes}
use hyu_2021_network_protoco.Ftp.Protocol.{Command, Message, interpret}
use hyu_2021_network_protoco.Ftp.Server.Execute.{Surroundings}
use hyu_2021_network_protoco.Ftp.Server.System as Server
use hyu_2021_network_protoco.Ftp.Client.System as Client
use hyu_2021_network_protoco.Ftp.Client.{
  callback, Reaction, nothing, fetch, exit_success, complain, spawn,
}
use hyu_2021_network_protoco.Ftp.Network.Lockstep.{IsAwaited, IsOpened, InStep}
use hyu_2021_network_protoco.Ftp.Network.Lockstep.Answers.{
  Closes, answers, stops, Answered, closes, opens, handle-Answered, send_final,
}
use hyu_2021_network_protoco.Ftp.Network.Lockstep.Posted.{after_server}
use hyu_2021_network_protoco.Ftp.Network.Lockstep.Steps.{greets-InLockstep, receives}
use hyu_2021_network_protoco.Ftp.Network.Lockstep.Takes.{takes}
use hyu_2021_network_protoco.Ftp.Network.Lockstep.Runs.{run-InLockstep}
use hyu_2021_network_protoco.Ftp.Network.{
  Network, Event, greets, server_reads, client_reads, port_of, posted, asked, server_does,
  client_does, read_request, read_reply, step, start, run,
}

-- The server is gone, or an answer is on its way.
abbrev IsServed : Network → Type 0
IsServed n =
    (n.server.main ≡ Server.stopped) ⊎ ((m : Message) × (rs : List Message) × (n.replies ≡ m ∷ rs))

behind :
    (rs : List Message) (m : Message)
    → (x : Message) × (xs : List Message) × (rs ++ m ∷ [] ≡ x ∷ xs)
behind [] m = (m, [], refl)
behind (r ∷ rs) m = (r, rs ++ m ∷ [], refl)

sent-IsServed :
    (m : Message) (r : Server.Result) (n : Network)
    → r.1 ≡ Server.control m ∷ []
    → IsServed (after_server r n)
sent-IsServed m r n out = rw out (inr (behind n.replies m))

Closes-IsServed : (r : Server.Result) (n : Network) → Closes r → IsServed (after_server r n)
Closes-IsServed r n (answers m main out final) = sent-IsServed m r n out
Closes-IsServed r n (stops main out) = rw (out, main) (inl refl)

Answered-IsServed :
    (c : Command) (r : Server.Result) (n : Network) → Answered c r → IsServed (after_server r n)
Answered-IsServed c r n (closes h) = Closes-IsServed r n h
Answered-IsServed c r n (opens m main out opening t) = sent-IsServed m r n out

-- A step of the server leaves the client alone.
client-posted :
    (out : List Server.Output) (s : Server.System) (n : Network)
    → (posted out s n).client ≡ n.client
client-posted [] s n = refl
client-posted (Server.control m ∷ out) s n =
    client-posted out s (record n { replies = n.replies ++ m ∷ [] })
client-posted (Server.channel i m ∷ out) s n =
    client-posted out s (record n { parcels = n.parcels ++ (port_of s, m) ∷ [] })

awaited_nonempty :
    (c : Command) (rs : List Message)
    → IsAwaited c [] rs
    → (m : Message) × (xs : List Message) × (rs ≡ m ∷ xs)
awaited_nonempty c [] k = absurd k
awaited_nonempty c (m ∷ rs) k = (m, rs, refl)

opened_nonempty :
    (qs rs : List Message) → IsOpened qs rs → (m : Message) × (xs : List Message) × (rs ≡ m ∷ xs)
opened_nonempty [] [] k = absurd k
opened_nonempty [] (m ∷ rs) k = (m, rs, refl)
opened_nonempty (q ∷ qs) rs k = absurd k

Closes-moves :
    (r : Server.Result) (n : Network) → Closes r → (after_server r n).server.main ≢ Server.accepting
Closes-moves r n (answers m main out final) h =
    let e : r.0.main ≡ Server.accepting = rw out at h in cc
Closes-moves r n (stops main out) h = let e : r.0.main ≡ Server.accepting = rw out at h in cc

-- The greeting is sent, if it was not.
greeted :
    (sm : Server.Main) (n : Network)
    → n.server.main ≡ sm
    → (after_server (Server.main_step Server.accepted sm n.server) n).server.main ≢ Server.accepting
unfolding Server.main_step
greeted Server.accepting n a =
    Closes-moves _ n (send_final 220 (codes "Server ready") n.server (omega arith))
greeted Server.receiving n a = λ h. cc
greeted Server.stopped n a = λ h. cc
greeted (Server.awaiting d) n a = λ h. cc

greets_does : (n : Network) → (server_does Server.accepted n).server.main ≢ Server.accepting
unfolding server_does Server.step
greets_does n = greeted n.server.main n refl

-- The server answers the request that is on its way, if no answer is.
reads-IsServed :
    (e : Surroundings) (sm : Server.Main) (c : Command) (qs : List Message) (n : Network)
    → n.server.main ≡ sm
    → sm ≢ Server.accepting
    → InStep sm Client.receiving c qs n.replies
    → IsServed (read_request e sm qs n)
unfolding read_request server_does
reads-IsServed e Server.stopped c qs n a ready k = inl a
reads-IsServed e Server.accepting c qs n a ready k = absurd (ready refl)
reads-IsServed e Server.receiving c [] n a ready k = inr (awaited_nonempty c n.replies k)
reads-IsServed e Server.receiving c (m ∷ qs) n a ready k = simp (receives e m n.server a) (
    Answered-IsServed (interpret m.command) (Server.handle e m n.server.server)
      (record n { requests = qs }) (handle-Answered e m n.server.server))
reads-IsServed e (Server.awaiting d) c qs n a ready k = inr (opened_nonempty qs n.replies k.2)

client-server_does : (e : Server.Event) (n : Network) → (server_does e n).client ≡ n.client
unfolding server_does
client-server_does e n =
    let r = Server.step e n.server in client-posted r.1 r.0 (record n { server = r.0 })

client-read_request :
    (e : Surroundings) (sm : Server.Main) (qs : List Message) (n : Network)
    → (read_request e sm qs n).client ≡ n.client
unfolding read_request
client-read_request e Server.receiving [] n = refl
client-read_request e Server.receiving (m ∷ qs) n =
    client-server_does (Server.received e (Server.message m)) (record n { requests = qs })
client-read_request e Server.stopped qs n = refl
client-read_request e Server.accepting qs n = refl
client-read_request e (Server.awaiting d) qs n = refl

-- The client takes an answer, and does not wait for it any more.
react_moves :
    (x : Reaction) (made : Bool) (pick : ℕ) (s : Client.System)
    → ((Client.react x made pick s).1 ≡ [])
      × ((Client.react x made pick s).0.main ≢ Client.receiving)
unfolding Client.react Client.spawn_thread
react_moves nothing made pick s = (refl, λ h. cc)
react_moves complain made pick s = (refl, λ h. cc)
react_moves exit_success made pick s = (refl, λ h. cc)
react_moves (spawn text) true pick s = (refl, λ h. cc)
react_moves (spawn text) false pick s = (refl, λ h. cc)
react_moves fetch made pick s = (refl, λ h. cc)

answered_moves :
    (m : Message) (rs : List Message) (made : Bool) (pick : ℕ) (n : Network)
    → n.client.main ≡ Client.receiving
    → (read_reply made pick Client.receiving (m ∷ rs) n).0.client.main ≢ Client.receiving
unfolding read_reply client_does Client.receive
answered_moves m rs made pick n b h =
    let x = callback n.client.client.sent_command m in
    let (silent, moves) = react_moves x made pick n.client in
    let same : (Client.react x made pick n.client).0.main ≡ Client.receiving =
      simp (takes (Client.message m) made pick n.client b, silent) at h in
    moves same

server-asked : (out : List Client.Output) (n : Network) → (asked out n).0.server ≡ n.server
server-asked [] n = refl
server-asked (Client.request m ∷ out) n =
    server-asked out (record n { requests = n.requests ++ m ∷ [] })
server-asked (Client.delivery d ∷ out) n = server-asked out n

server-client_does : (e : Client.Event) (n : Network) → (client_does e n).0.server ≡ n.server
unfolding client_does
server-client_does e n =
    let r = Client.step e n.client in server-asked r.1 (record n { client = r.0 })

server-read_reply :
    (made : Bool) (pick : ℕ) (cm : Client.Main) (rs : List Message) (n : Network)
    → (read_reply made pick cm rs n).0.server ≡ n.server
unfolding read_reply
server-read_reply made pick Client.receiving (m ∷ rs) n =
    server-client_does (Client.answered (Client.message m) made pick) (record n { replies = rs })
server-read_reply made pick Client.closing (m ∷ rs) n =
    server-client_does (Client.closed (Client.message m)) (record n { replies = rs })
server-read_reply made pick Client.receiving [] n = refl
server-read_reply made pick Client.closing [] n = refl
server-read_reply made pick Client.joining rs n = refl
server-read_reply made pick Client.prompting rs n = refl
server-read_reply made pick Client.stopped rs n = refl

-- The end of a turn.
turn_ends :
    (made : Bool) (pick : ℕ) (n : Network)
    → n.client.main ≡ Client.receiving
    → IsServed n
    → let m = (read_reply made pick n.client.main n.replies n).0 in
      (m.server.main ≡ Server.stopped) ⊎ (m.client.main ≢ Client.receiving)
turn_ends made pick n b (inl gone) =
    inl (ap (λ s. s.main) (server-read_reply made pick n.client.main n.replies n) ∙ gone)
turn_ends made pick n b (inr (m, rs, e)) = inr (
    subst (λ x. (read_reply made pick x n.replies n).0.client.main ≢ Client.receiving) (sym b)
      (subst (λ x. (read_reply made pick Client.receiving x n).0.client.main ≢ Client.receiving)
        (sym e) (answered_moves m rs made pick n b)))

-- Whatever has happened, while the client waits for an answer: three steps at most, the greeting, the server's
-- `recv`, and the client's, with any answers of the operating system, bring it the answer, so that it does not wait
-- for it any more; or the server's process is gone.
pub answer_comes :
    (es : List Event) (e : Surroundings) (made : Bool) (pick : ℕ)
    → (run start es).0.client.main ≡ Client.receiving
    → let n = (run (run start es).0 (greets ∷ server_reads e ∷ client_reads made pick ∷ [])).0 in
      (n.server.main ≡ Server.stopped) ⊎ (n.client.main ≢ Client.receiving)
unfolding run step
answer_comes es e made pick b =
    let n0 = (run start es).0 in
    let n1 = server_does Server.accepted n0 in
    let n2 = read_request e n1.server.main n1.requests n1 in
    let b1 : n1.client.main ≡ Client.receiving =
      ap (λ c. c.main) (client-server_does Server.accepted n0) ∙ b in
    let b2 : n2.client.main ≡ Client.receiving =
      ap (λ c. c.main) (client-read_request e n1.server.main n1.requests n1) ∙ b1 in
    let k = greets-InLockstep n0 (run-InLockstep es) in
    turn_ends made pick n2 b2 (
      reads-IsServed e n1.server.main n1.client.client.sent_command n1.requests n1 refl
        (greets_does n0)
        (subst (λ x. InStep n1.server.main x n1.client.client.sent_command n1.requests n1.replies)
          b1 k))
