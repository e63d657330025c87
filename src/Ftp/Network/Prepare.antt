-- ===== src/Ftp/Network/Prepare.antt =====
-- PASV and PORT, from the line of the user until both sides have a data thread that waits.
use hyu_2021_network_protoco.Common.{
  ℕ, ◌%◌, ◌^◌, ◌≡◌, refl, ◌∙◌, ap, true, List, [], ◌∷◌, some, arith, length, get_elem?,
  All-get_elem?,
}
use hyu_2021_network_protoco.Clib.Text.{Text}
use hyu_2021_network_protoco.Ftp.Protocol.{Command, Message, logged_in}
use hyu_2021_network_protoco.Ftp.Server.State.{opening, waiting, Server, ports, created}
use hyu_2021_network_protoco.Ftp.Server.Execute.{Surroundings, passive_text, active_text}
use hyu_2021_network_protoco.Ftp.Server.System as Server
use hyu_2021_network_protoco.Ftp.Client as Ftp
use hyu_2021_network_protoco.Ftp.Client.{
  decoded, spawn, callback, Delivery, ready, prompt, remember,
}
use hyu_2021_network_protoco.Ftp.Client.System as Client
use hyu_2021_network_protoco.Ftp.Exchange.Address.{passive_port}
use hyu_2021_network_protoco.Ftp.Exchange.Agreement.{
  IsListed, ports_sound, active_port, active_range,
}
use hyu_2021_network_protoco.Ftp.Exchange.Requests.{prompt_ready}
use hyu_2021_network_protoco.Ftp.Exchange.Download.{
  Address, IsAddress, address_body, address_port, after_port, port_step,
}
use hyu_2021_network_protoco.Ftp.Exchange.Session.{after_pasv, pasv_step}
use hyu_2021_network_protoco.Ftp.Exchange.Thread as Thread
use hyu_2021_network_protoco.Ftp.Network.Turns as Turns
use hyu_2021_network_protoco.Ftp.Network.Steps.{
  net, run-cons, read_step, open_step, type_step, answer_step, start_step,
}
use hyu_2021_network_protoco.Ftp.Network.{
  Network, Event, server_reads, server_opens, client_reads, types, client_starts, run,
}

-- Both sides at rest: the server in `recv`, the client at its prompt, nothing on its way.
abbrev pub at_rest : Server → Client.System → Network
at_rest s c =
    net (record { server = s; main = Server.receiving }) (record c { main = Client.prompting }) []
      [] []

-- Both sides at rest, with a last data thread each, for port `n`, that waits for a transfer.
abbrev pub prepared : Server → Ftp.Client → List Client.Phase → ℕ → Network
prepared s c ts n =
    net (record { server = Thread.with_last s n waiting; main = Server.receiving })
      (Turns.with_last c ts Client.waiting (n % 2 ^ 16) Client.prompting) [] [] []

abbrev pub numbered : ℕ → Text → Message
numbered status text = record { status = status; command = []; body = text }

abbrev pub with_command : Command → Ftp.Client → Ftp.Client
with_command cmd c = record c { sent_command = cmd }

-- The schedule of PASV or PORT, with the line of the user.
abbrev pub preparation : Text → Server → Client.System → Surroundings → List Event → List Event
preparation line s c e es =
    types line
    ∷ server_reads e
    ∷ client_reads true 0
    ∷ server_opens (length s.data_threads) true Server.bound
    ∷ client_starts (length c.threads) true 0
    ∷ es

-- A command that is answered with a port, from which both sides make a data thread.
prepare_run :
    (cmd : Command) (s s1 : Server) (c : Client.System) (n status : ℕ) (text line : Text)
    (m : Message) (left : List Text) (e : Surroundings) (es : List Event) (k : Network)
    (ds : List Delivery)
    → s1.data_threads ≡ s.data_threads
    → prompt (line ∷ []) ≡ ready cmd m left
    → remember cmd m c.client ≡ with_command cmd c.client
    → Server.step
        (Server.received e (Server.message m))
        (record { server = s; main = Server.receiving })
      ≡ (
        record { server = Thread.with_last s1 n opening; main = Server.receiving },
        Thread.answer status text ∷ [],
      )
    → callback cmd (numbered status text) ≡ spawn text
    → Client.target cmd text 0 ≡ decoded n
    → run (prepared (Thread.listening n s1) (with_command cmd c.client) c.threads n) es ≡ (k, ds)
    → run (at_rest s c) (preparation line s c e es) ≡ (k, ds)
prepare_run cmd s s1 c n status text line m left e es k ds same h r does reacts goes rest =
    let c1 = with_command cmd c.client in
    run-cons _ _ _ _ _ _ _
      (type_step _ _ _ line m (
        Turns.type_step line cmd m left (record c { main = Client.prompting }) h refl
        ∙ ap (λ x. (record c { client = x; main = Client.receiving }, Client.request m ∷ [])) r))
      (run-cons _ _ _ _ _ _ _ (read_step _ _ _ e m (numbered status text) refl does) (
        run-cons _ _ _ _ _ _ _
          (answer_step _ _ _ true 0 _ refl (
            Turns.spawn_step (numbered status text) 0
              (record c { client = c1; main = Client.receiving }) reacts refl))
          (run-cons _ _ _ _ _ _ _
            (open_step _ _ _ _ true Server.bound [] []
              (rw (ap length same) at (Thread.open_step s1 n)))
            (run-cons _ _ _ _ _ _ _
              (start_step _ _ _ _ true 0 (Turns.start_step c1 c.threads text n c.data_port 0 goes))
              rest))))

passive_goes :
    (s : Server) (n : ℕ)
    → get_elem? ports s.port_idx ≡ some n
    → Client.target Command.pasv (passive_text n) 0 ≡ decoded n
unfolding Client.target
passive_goes s n listed =
    let (small, octet) = All-get_elem? IsListed ports s.port_idx ports_sound listed in
    ground (arith, passive_port n small)

pub passive_run :
    (s : Server) (c : Client.System) (n : ℕ) (line : Text) (m : Message) (left : List Text)
    (e : Surroundings) (es : List Event) (k : Network) (ds : List Delivery)
    → s.auth_status ≡ logged_in
    → get_elem? ports s.port_idx ≡ some n
    → prompt (line ∷ []) ≡ ready Command.pasv m left
    → e.create ≡ created
    → run
        (prepared
          (Thread.listening n (after_pasv s))
          (with_command Command.pasv c.client)
          c.threads
          n)
        es
      ≡ (k, ds)
    → run (at_rest s c) (preparation line s c e es) ≡ (k, ds)
unfolding callback remember
passive_run s c n line m left e es k ds login listed h made rest =
    prepare_run Command.pasv s (after_pasv s) c n 227 (passive_text n) line m left e es k ds refl h
      refl (pasv_step s n login listed e m (prompt_ready _ _ m left h).same made) refl
      (passive_goes s n listed) rest

active_goes :
    (a : Address)
    → IsAddress a
    → Client.target Command.port (active_text (address_port a)) 0 ≡ decoded (address_port a)
unfolding Client.target
active_goes a small =
    active_port (address_port a)
      (omega (arith, active_range a.high a.low (omega arith) (omega arith)))

pub active_run :
    (s : Server) (c : Client.System) (a : Address) (line : Text) (m : Message) (left : List Text)
    (e : Surroundings) (es : List Event) (k : Network) (ds : List Delivery)
    → s.auth_status ≡ logged_in
    → IsAddress a
    → prompt (line ∷ []) ≡ ready Command.port m left
    → m.body ≡ address_body a
    → e.create ≡ created
    → run
        (prepared
          (Thread.listening (address_port a) (after_port s))
          (with_command Command.port c.client)
          c.threads
          (address_port a))
        es
      ≡ (k, ds)
    → run (at_rest s c) (preparation line s c e es) ≡ (k, ds)
unfolding callback remember
active_run s c a line m left e es k ds login small h body made rest =
    let n = address_port a in
    prepare_run Command.port s (after_port s) c n 200 (active_text n) line m left e es k ds refl h
      refl (port_step a s e m small login (prompt_ready _ _ m left h).same body made) refl
      (active_goes a small) rest
