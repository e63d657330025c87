-- ===== src/Ftp/Network/Lockstep/Posted.antt =====
-- What the server sends in a step, and the turns of the two sides.
use hyu_2021_network_protoco.Common.{◌≡◌, refl, sym, ap, inl, inr, List, [], ◌∷◌, ◌++◌, All, subst}
use hyu_2021_network_protoco.Ftp.Protocol.{Message}
use hyu_2021_network_protoco.Ftp.Server.System as Server
use hyu_2021_network_protoco.Ftp.Client.System as Client
use hyu_2021_network_protoco.Ftp.Network.Lockstep.{IsFinal, InStep, InLockstep}
use hyu_2021_network_protoco.Ftp.Network.Lockstep.Answers.{Closes, answers, stops, Aside, IsParcel}
use hyu_2021_network_protoco.Ftp.Network.{Network, port_of, posted}

-- The network when the server has made a step.
abbrev pub after_server : Server.Result → Network → Network
after_server r n = posted r.1 r.0 (record n { server = r.0 })

-- What a part of the network is, when it is known, is put in its place.
pub stays-InLockstep :
    (sm : Server.Main) (cm : Client.Main) (qs rs : List Message) (n : Network)
    → n.server.main ≡ sm
    → n.client.main ≡ cm
    → n.requests ≡ qs
    → n.replies ≡ rs
    → InStep sm cm n.client.client.sent_command qs rs
    → InLockstep n
stays-InLockstep sm cm qs rs n a b c d k =
    subst (λ q. InStep n.server.main n.client.main n.client.client.sent_command q n.replies) (sym c)
      (subst (λ r. InStep n.server.main n.client.main n.client.client.sent_command qs r) (sym d)
        (subst (λ x. InStep x n.client.main n.client.client.sent_command qs rs) (sym a)
          (subst (λ x. InStep sm x n.client.client.sent_command qs rs) (sym b) k)))

-- The server sends `m` and goes on as `sm`.
pub sends-InLockstep :
    (sm : Server.Main) (cm : Client.Main) (rs : List Message) (m : Message) (r : Server.Result)
    (n : Network)
    → r.0.main ≡ sm
    → r.1 ≡ Server.control m ∷ []
    → n.client.main ≡ cm
    → n.replies ≡ rs
    → InStep sm cm n.client.client.sent_command n.requests (rs ++ m ∷ [])
    → InLockstep (after_server r n)
sends-InLockstep sm cm rs m r n main out b d k = rw out (
    stays-InLockstep sm cm n.requests (rs ++ m ∷ [])
      (record n { server = r.0; replies = n.replies ++ m ∷ [] }) main b refl
      (ap (λ x. x ++ m ∷ []) d) k)

pub Closes-InLockstep :
    (cm : Client.Main) (rs : List Message) (r : Server.Result) (n : Network)
    → Closes r
    → n.client.main ≡ cm
    → n.replies ≡ rs
    → ((m : Message)
        → IsFinal m
        → InStep Server.receiving cm n.client.client.sent_command n.requests (rs ++ m ∷ []))
    → InLockstep (after_server r n)
Closes-InLockstep cm rs r n (answers m main out final) b d k =
    sends-InLockstep Server.receiving cm rs m r n main out b d (k m final)
Closes-InLockstep cm rs r n (stops main out) b d k = rw (out, main) tt

posted-InLockstep :
    (out : List Server.Output) (s : Server.System) (n : Network)
    → All IsParcel out
    → InLockstep n
    → InLockstep (posted out s n)
posted-InLockstep [] s n silent k = k
posted-InLockstep (Server.control m ∷ out) s n silent k = absurd silent.0
posted-InLockstep (Server.channel i m ∷ out) s n silent k =
    posted-InLockstep out s (record n { parcels = n.parcels ++ (port_of s, m) ∷ [] }) silent.1 k

pub Aside-InLockstep :
    (r : Server.Result) (n : Network)
    → Aside n.server.main r
    → InLockstep n
    → InLockstep (after_server r n)
Aside-InLockstep r n a k =
    posted-InLockstep r.1 r.0 (record n { server = r.0 }) a.silent
      (elim a.stays [ inl same ↦ rw same k | inr gone ↦ rw gone tt ])
