-- ===== src/Ftp/Network/Lockstep.antt =====
-- The turns of the two sides on the control connection: what it means that they are in step.
pub mod Answers
pub mod Asks
pub mod Posted
pub mod Progress
pub mod Runs
pub mod Steps
pub mod Takes
pub mod Threads
use hyu_2021_network_protoco.Common.{◌/◌, ◌≡◌, ◌≢◌, List, [], ◌∷◌}
use hyu_2021_network_protoco.Ftp.Protocol.{Command, nlst, retr, Message, interpret}
use hyu_2021_network_protoco.Ftp.Server.State.{joining}
use hyu_2021_network_protoco.Ftp.Server.System as Server
use hyu_2021_network_protoco.Ftp.Client.System as Client
use hyu_2021_network_protoco.Ftp.Network.{Network}

-- The commands with a transfer.
abbrev pub Transfers : Command → Type 0
Transfers nlst = Unit
Transfers retr = Unit
Transfers _ = ⊥

-- The answer is not the one that opens a data connection.
abbrev pub IsFinal : Message → Type 0
IsFinal m = m.status / 100 ≢ 1

abbrev pub IsOpening : Message → Type 0
IsOpening m = m.status ≡ 150

-- What may be on its way while the client waits for an answer and the server for a request: the request
-- of the command, or its answer, or both answers of a transfer.
abbrev pub IsAwaited : Command → List Message → List Message → Type 0
IsAwaited c (m ∷ []) [] = interpret m.command ≡ c
IsAwaited c [] (r ∷ []) = IsFinal r
IsAwaited c [] (i ∷ r ∷ []) = IsOpening i × Transfers c
IsAwaited c _ _ = ⊥

abbrev pub IsQuiet : List Message → List Message → Type 0
IsQuiet [] [] = Unit
IsQuiet _ _ = ⊥

-- Only the opening answer.
abbrev pub IsOpened : List Message → List Message → Type 0
IsOpened [] (i ∷ []) = IsOpening i
IsOpened _ _ = ⊥

-- Only the closing answer.
abbrev pub IsClosing : List Message → List Message → Type 0
IsClosing [] (r ∷ []) = Unit
IsClosing _ _ = ⊥

-- Where the two main threads may stand, with the command that the client sent last.
abbrev pub InStep : Server.Main → Client.Main → Command → List Message → List Message → Type 0
InStep Server.stopped _ c requests replies = Unit
InStep _ Client.stopped c requests replies = Unit
InStep Server.accepting Client.receiving c requests replies = IsQuiet requests replies
InStep Server.receiving Client.receiving c requests replies = IsAwaited c requests replies
InStep Server.receiving Client.prompting c requests replies = IsQuiet requests replies
InStep Server.receiving Client.joining c requests replies = IsClosing requests replies
InStep Server.receiving Client.closing c requests replies = IsClosing requests replies
InStep (Server.awaiting d) Client.receiving c requests replies =
    (d ≡ c) × Transfers c × IsOpened requests replies
InStep (Server.awaiting d) Client.joining c requests replies =
    (d ≡ c) × Transfers c × IsQuiet requests replies
InStep (Server.awaiting d) Client.closing c requests replies =
    (d ≡ c) × Transfers c × IsQuiet requests replies
InStep _ _ c requests replies = ⊥

abbrev pub InLockstep : Network → Type 0
InLockstep n = InStep n.server.main n.client.main n.client.client.sent_command n.requests n.replies
