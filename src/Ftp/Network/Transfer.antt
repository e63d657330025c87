-- ===== src/Ftp/Network/Transfer.antt =====
-- NLST and RETR, from the line of the user until both sides are at rest again.
use hyu_2021_network_protoco.Common.{
  ℕ, ◌+◌, ◌%◌, ◌^◌, ◌<◌, ◌≡◌, ◌≢◌, refl, ◌∙◌, ap, true, List, [], ◌∷◌, ◌++◌, none, some, length,
  get_elem?-snoc,
}
use hyu_2021_network_protoco.Clib.Text.{Text}
use hyu_2021_network_protoco.Ftp.Protocol.{Command, Message, max_buffer_size}
use hyu_2021_network_protoco.Ftp.Server.State.{waiting, woken, done, Server, Files}
use hyu_2021_network_protoco.Ftp.Server.Execute.{Surroundings}
use hyu_2021_network_protoco.Ftp.Server.System as Server
use hyu_2021_network_protoco.Ftp.Client as Ftp
use hyu_2021_network_protoco.Ftp.Client.{
  fetch, callback, Delivery, deliver, ready, prompt, remember,
}
use hyu_2021_network_protoco.Ftp.Client.System as Client
use hyu_2021_network_protoco.Ftp.Exchange.Data.{data_message}
use hyu_2021_network_protoco.Ftp.Exchange.Thread as Thread
use hyu_2021_network_protoco.Ftp.Network.Turns as Turns
use hyu_2021_network_protoco.Ftp.Network.Prepare.{at_rest, prepared, numbered}
use hyu_2021_network_protoco.Ftp.Network.Steps.{
  net, run-cons, run-nil, read_step, join_step, type_step, answer_step, close_step, fetch_step,
  end_step,
}
use hyu_2021_network_protoco.Ftp.Network.Steps as Steps
use hyu_2021_network_protoco.Ftp.Network.{
  Event, server_reads, server_serves, server_joins, client_reads, client_joins, types,
  client_fetches, step, run,
}

-- The client when its last data thread is at its end and has been joined.
abbrev pub finished : Ftp.Client → List Client.Phase → ℕ → Client.System
finished c ts port = record {
  client = c;
  threads = ts ++ Client.ended ∷ [];
  data_thread = none;
  data_port = port;
  main = Client.prompting;
}

-- The schedule of a transfer, with the line of the user.
abbrev pub transfer_schedule :
    Text → Server → List Client.Phase → Files → List ℕ → Surroundings → List Event
transfer_schedule line s ts files memory e =
    types line
    ∷ server_reads e
    ∷ client_reads true (length ts)
    ∷ server_serves (length s.data_threads) files memory true true
    ∷ client_fetches (length ts) true
    ∷ client_joins
    ∷ server_joins
    ∷ client_reads true 0
    ∷ []

module _ (cmd : Command) (s1 s2 : Server) (c c2 : Ftp.Client) (ts : List Client.Phase) (n : ℕ)
    (body : Text) (files : Files) (memory : List ℕ) where
  -- The parcel of the server's data thread is for the port of the client's.
  serves :
      s2.data_server_fd ≡ some n
      → Server.step
          (Server.served (length s2.data_threads) files memory true true)
          (record { server = Thread.with_last s2 n woken; main = Server.awaiting cmd })
        ≡ (
          record { server = Thread.with_last s2 n (done true); main = Server.awaiting cmd },
          Server.channel (length s2.data_threads) (data_message body) ∷ [],
        )
      → step (server_serves (length s2.data_threads) files memory true true) (
          net
            (record { server = Thread.with_last s2 n woken; main = Server.awaiting cmd })
            (Turns.with_last c2 ts Client.woken (n % 2 ^ 16) Client.joining)
            []
            []
            [])
        ≡ (
          net
              (record { server = Thread.with_last s2 n (done true); main = Server.awaiting cmd })
              (Turns.with_last c2 ts Client.woken (n % 2 ^ 16) Client.joining)
              []
              []
              ((n % 2 ^ 16, data_message body) ∷ []),
          [],
        )
  serves bound does =
      Steps.serve_step _ _ _ _ files memory (data_message body) does
      ∙ ap
          (λ x. (
            net (record { server = Thread.with_last s2 n (done true); main = Server.awaiting cmd })
                (Turns.with_last c2 ts Client.woken (n % 2 ^ 16) Client.joining) [] []
                ((x, data_message body) ∷ []),
            [],
          ))
          (ap (λ o. elim o [ none ↦ 2 ^ 16 | some number ↦ number % 2 ^ 16 ]) bound)

  pub transfer_run :
      (line : Text) (m : Message) (left : List Text) (f : Surroundings) (d : Delivery)
      → s2.data_threads ≡ s1.data_threads
      → s2.data_server_fd ≡ some n
      → s2.data_thread ≡ some (length s2.data_threads)
      → prompt (line ∷ []) ≡ ready cmd m left
      → remember cmd m c ≡ c2
      → Server.step
          (Server.received f (Server.message m))
          (record { server = Thread.with_last s1 n waiting; main = Server.receiving })
        ≡ (
          record { server = Thread.with_last s2 n woken; main = Server.awaiting cmd },
          Thread.answer 150 [] ∷ [],
        )
      → callback c2.sent_command (numbered 150 []) ≡ fetch
      → Server.step
          (Server.served (length s2.data_threads) files memory true true)
          (record { server = Thread.with_last s2 n woken; main = Server.awaiting cmd })
        ≡ (
          record { server = Thread.with_last s2 n (done true); main = Server.awaiting cmd },
          Server.channel (length s2.data_threads) (data_message body) ∷ [],
        )
      → deliver c2.sent_command true c2.file_name body ≡ d
      → d ≢ Delivery.faults
      → length (Server.subject cmd s2) + 26 < max_buffer_size
      → run (prepared s1 c ts n) (transfer_schedule line s2 ts files memory f) ≡ (
        at_rest
            (Thread.with_last (Thread.after_transfer s2) n (done true))
            (finished (Client.renamed c2.sent_command c2) ts (n % 2 ^ 16)),
        d ∷ [],
      )
  unfolding Client.step Client.main_step
  transfer_run line m left f d same bound handle h r does wakes serve delivers works fits =
      run-cons _ _ _ _ _ _ _
        (type_step _ _ _ line m (
          Turns.type_step line cmd m left
            (Turns.with_last c ts Client.waiting (n % 2 ^ 16) Client.prompting) h refl
          ∙ ap
              (λ x. (
                Turns.with_last x ts Client.waiting (n % 2 ^ 16) Client.receiving,
                Client.request m ∷ [],
              ))
              r))
        (run-cons _ _ _ _ _ _ _ (read_step _ _ _ f m (numbered 150 []) refl does) (
          run-cons _ _ _ _ _ _ _
            (answer_step _ _ _ true (length ts) _ refl
              (Turns.fetch_step c2 ts (numbered 150 []) true (n % 2 ^ 16) wakes))
            (run-cons _ _ _ _ _ _ _ (serves bound serve) (
              run-cons _ _ _ _ _ _ _
                (fetch_step _ _ _ (length ts) (n % 2 ^ 16) _ true d (get_elem?-snoc ts Client.woken)
                  refl
                  (Turns.delivers c2 ts (data_message body) true (n % 2 ^ 16) d delivers works))
                (run-cons _ _ _ _ _ _ _
                  (end_step _ _ _
                    (Turns.join_step (Client.renamed c2.sent_command c2) ts (n % 2 ^ 16)))
                  (run-cons _ _ _ _ _ _ _
                    (join_step _ _ _ _ (Thread.join_step cmd s2 n handle fits))
                    (run-cons _ _ _ _ _ _ _ (close_step _ _ _ true 0 _ refl refl) (run-nil _))))))))
