-- ===== src/Ftp/Network/Lockstep/Runs.antt =====
-- Runs of the network, and the turns of the two sides.
use hyu_2021_network_protoco.Common.{refl, List, [], ◌∷◌}
use hyu_2021_network_protoco.Ftp.Network.Lockstep.{InLockstep}
use hyu_2021_network_protoco.Ftp.Network.Lockstep.Steps.{
  read-InLockstep, server-InLockstep, greets-InLockstep, server_joins-InLockstep,
  refused_event-Aside, opened_event-Aside, spurious_event-Aside, served_event-Aside,
}
use hyu_2021_network_protoco.Ftp.Network.Lockstep.Threads.{
  starts-InLockstep, wakes-InLockstep, fails-InLockstep, fetches-InLockstep,
}
use hyu_2021_network_protoco.Ftp.Network.Lockstep.Takes.{
  client_reads-InLockstep, client_joins-InLockstep,
}
use hyu_2021_network_protoco.Ftp.Network.Lockstep.Asks.{types-InLockstep}
use hyu_2021_network_protoco.Ftp.Server.System as Server
use hyu_2021_network_protoco.Ftp.Network.{
  Network, Event, greets, server_refuses, server_reads, server_opens, server_wakes, server_serves,
  server_joins, client_reads, client_joins, types, client_starts, client_wakes, client_fails,
  client_fetches, step, start, run,
}

step-InLockstep : (e : Event) (n : Network) → InLockstep n → InLockstep (step e n).0
unfolding step
step-InLockstep greets n k = greets-InLockstep n k
step-InLockstep server_refuses n k = server-InLockstep Server.refused n refused_event-Aside k
step-InLockstep (server_reads e) n k = read-InLockstep e n.server.main n.requests n refl refl k
step-InLockstep (server_opens i ok b) n k =
    server-InLockstep (Server.opened i ok b) n (opened_event-Aside i ok b) k
step-InLockstep (server_wakes i) n k =
    server-InLockstep (Server.spurious i) n (spurious_event-Aside i) k
step-InLockstep (server_serves i files memory l a) n k =
    server-InLockstep (Server.served i files memory l a) n (served_event-Aside i files memory l a) k
step-InLockstep server_joins n k = server_joins-InLockstep n k
step-InLockstep (client_reads made pick) n k =
    client_reads-InLockstep made pick n.client.main n.replies n refl refl k
step-InLockstep client_joins n k = client_joins-InLockstep n k
step-InLockstep (types line) n k = types-InLockstep line n k
step-InLockstep (client_starts i ok garbage) n k = starts-InLockstep i ok garbage n k
step-InLockstep (client_wakes i) n k = wakes-InLockstep i n k
step-InLockstep (client_fails i) n k = fails-InLockstep i n k
step-InLockstep (client_fetches i fopen_ok) n k = fetches-InLockstep i fopen_ok n k

steps-InLockstep : (es : List Event) (n : Network) → InLockstep n → InLockstep (run n es).0
unfolding run
steps-InLockstep [] n k = k
steps-InLockstep (e ∷ es) n k = steps-InLockstep es (step e n).0 (step-InLockstep e n k)

-- From the start, whatever the schedule, what the operating system answers, and what the user
-- types: until one of the two processes is gone, their main threads are in step. Before the
-- greeting nothing is on its way on the control connection, and none is while the client is at its
-- prompt, where the server waits for a request. While both wait for a message, either exactly one
-- is under way, the request of the client's last command or an answer that opens no transfer; or
-- two are, both answers of a transfer that was the client's last command. While the server waits
-- for its data thread, the client's last command is that transfer, and its opening answer alone is
-- under way, or the client has taken it. Behind it the client waits for its data thread or for the
-- closing answer, which is under way exactly if the server waits for a request again.
pub run-InLockstep : (es : List Event) → InLockstep (run start es).0
run-InLockstep es = steps-InLockstep es start tt
