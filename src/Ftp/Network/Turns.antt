-- ===== src/Ftp/Network/Turns.antt =====
-- The turns of the client in a transfer: its prompt, the answers, and its last data thread.
use hyu_2021_network_protoco.Common.{
  ℕ, ◌%◌, ◌^◌, ◌≡◌, ◌≢◌, refl, true, Bool, List, [], ◌∷◌, ◌++◌, none, some, arith, length,
  get_elem?-snoc, set-snoc,
}
use hyu_2021_network_protoco.Clib.Text.{Text}
use hyu_2021_network_protoco.Ftp.Protocol.{Command, Message}
use hyu_2021_network_protoco.Ftp.Client as Ftp
use hyu_2021_network_protoco.Ftp.Client.{
  decoded, fetch, spawn, callback, Delivery, deliver, ready, prompt, remember,
}
use hyu_2021_network_protoco.Ftp.Client.System.{
  Phase, starting, waiting, woken, ended, Main, receiving, joining, closing, prompting, System,
  request, delivery, message, answered, joined, typed, started, fetched, signal, spawn_thread,
  react, receive, join_thread, enter, target, start_thread, renamed, take_data, fetch_data,
  thread_step, at_thread, main_step, step,
}

-- A state of the client with a last data thread in some phase, which is the one to join.
abbrev pub with_last : Ftp.Client → List Phase → Phase → ℕ → Main → System
with_last c ts p port m = record {
  client = c;
  threads = ts ++ p ∷ [];
  data_thread = some (length ts);
  data_port = port;
  main = m;
}

pub type_step :
    (line : Text) (c : Command) (m : Message) (left : List Text) (s : System)
    → prompt (line ∷ []) ≡ ready c m left
    → s.main ≡ prompting
    → step (typed line) s
      ≡ (record s { client = remember c m s.client; main = receiving }, request m ∷ [])
unfolding step main_step enter
type_step line c m left s h k = rw (k, main_step) (rw (h, enter))

-- The answer to PASV or PORT starts a data thread.
pub spawn_step :
    (m : Message) (pick : ℕ) (s : System)
    → callback s.client.sent_command m ≡ spawn m.body
    → s.main ≡ receiving
    → step (answered (message m) true pick) s
      ≡ (with_last s.client s.threads (starting m.body) s.data_port prompting, [])
unfolding step main_step receive react spawn_thread
spawn_step m pick s h k = rw (k, main_step) (rw (h, react))

module _ (c : Ftp.Client) (ts : List Phase) where
  pub start_step :
      (text : Text) (port old garbage : ℕ)
      → target c.sent_command text garbage ≡ decoded port
      → step (started (length ts) true garbage) (with_last c ts (starting text) old prompting)
        ≡ (with_last c ts waiting (port % 2 ^ 16) prompting, [])
  unfolding step main_step at_thread thread_step start_thread
  start_step text port old garbage h =
      ground (arith, h, get_elem?-snoc ts (starting text), set-snoc ts (starting text) waiting)

  -- The opening answer of a transfer wakes the data thread.
  pub fetch_step :
      (m : Message) (made : Bool) (port : ℕ)
      → callback c.sent_command m ≡ fetch
      → step (answered (message m) made (length ts)) (with_last c ts waiting port receiving)
        ≡ (with_last c ts woken port joining, [])
  unfolding step main_step receive react signal
  fetch_step m made port h = ground (arith, h, get_elem?-snoc ts waiting, set-snoc ts waiting woken)

  takes :
      (port : ℕ) (d : Delivery)
      → d ≢ Delivery.faults
      → take_data (length ts) d (with_last c ts woken port joining)
        ≡ (with_last (renamed c.sent_command c) ts ended port joining, delivery d ∷ [])
  unfolding take_data
  takes port Delivery.faults h = absurd (h refl)
  takes port d h = simp (set-snoc ts woken ended) refl

  pub delivers :
      (m : Message) (fopen_ok : Bool) (port : ℕ) (d : Delivery)
      → deliver c.sent_command fopen_ok c.file_name m.body ≡ d
      → d ≢ Delivery.faults
      → step (fetched (length ts) (message m) fopen_ok) (with_last c ts woken port joining)
        ≡ (with_last (renamed c.sent_command c) ts ended port joining, delivery d ∷ [])
  unfolding step main_step at_thread thread_step fetch_data
  delivers m fopen_ok port d h k = ground (arith, h, takes port d k, get_elem?-snoc ts woken)

  pub join_step :
      (port : ℕ)
      → step joined (with_last c ts ended port joining) ≡ (
        record {
          client = c;
          threads = ts ++ ended ∷ [];
          data_thread = none;
          data_port = port;
          main = closing;
        },
        [],
      )
  unfolding step main_step join_thread
  join_step port = ground (arith, get_elem?-snoc ts ended)
