-- ===== src/Ftp/Client/System.antt =====
-- FTP/client.c: `main` and `dataThreadRoutine` as threads that take turns. A step is what one thread does
-- up to the next call at which another may run.
use hyu_2021_network_protoco.Common.{
  ℕ, ◌%◌, ◌^◌, Bool, true, false, List, [], ◌∷◌, ◌++◌, Option, none, some, length, get_elem?, set,
}
use hyu_2021_network_protoco.Clib.Text.{Text, codes}
use hyu_2021_network_protoco.Ftp.Protocol.{Command, user, retr, pasv, port, Message}
use hyu_2021_network_protoco.Ftp.Client.{
  decoded, malformed, DataPort, data_port_of, nothing, fetch, exit_success, complain, spawn,
  Reaction, callback, Delivery, deliver, ready, starved, Request, prompt, Client, remember,
}

-- Where a data thread stands: before it looks at `sentCommand`, with the text of the answer; in
-- `pthread_cond_wait`, or past it; at its end.
pub data Phase : Type 0 where
  starting : Text → Phase
  waiting woken ended : Phase

-- Where the main thread stands: in `recv` for an answer, in `pthread_join`, in the `recv` behind that, in
-- `scanf`, or gone with the process.
pub data Main : Type 0 where
  receiving joining closing prompting stopped : Main

pub record System : Type 0 where
  pub client : Client
  pub threads : List Phase  -- all that were created, in order
  pub data_thread : Option ℕ  -- the handle `dataThread`, an index of `threads`
  pub data_port : ℕ  -- data_server_addr.sin_port, which the data threads share
  pub main : Main

-- What the client sends on the control connection, and what it does with data.
pub data Output : Type 0 where
  request : Message → Output
  delivery : Delivery → Output

abbrev pub Result : Type 0
Result = System × List Output

-- What `recv` gives: an error or the end of the stream, which leave the message zeroed, or a message.
pub data Received : Type 0 where
  failed : Received
  message : Message → Received

-- What happens next, with what the operating system answers.
pub data Event : Type 0 where
  answered : Received → (created : Bool) → (pick : ℕ) → Event
  joined : Event
  closed : Received → Event
  typed : Text → Event
  started : (thread : ℕ) → (socket_ok : Bool) → (garbage : ℕ) → Event
  spurious : (thread : ℕ) → Event
  unreachable : (thread : ℕ) → Event
  fetched : (thread : ℕ) → Received → (fopen_ok : Bool) → Event

abbrev pub stop : System → Result
stop s = (record s { main = stopped }, [])

abbrev pub set_phase : ℕ → Phase → System → System
set_phase i p s = record s { threads = set s.threads i p }

-- Wake the first thread that waits.
unfoldable pub wake_first : List Phase → List Phase
wake_first [] = []
wake_first (waiting ∷ ts) = woken ∷ ts
wake_first (t ∷ ts) = t ∷ wake_first ts

-- `pthread_cond_signal(&gcond)`: thread `pick` goes on if it waits, or else the first that does.
unfoldable pub signal : ℕ → List Phase → List Phase
signal pick ts = elim (get_elem? ts pick) [ some waiting ↦ set ts pick woken | _ ↦ wake_first ts ]

-- `pthread_create(&dataThread, NULL, dataThreadRoutine, body)`; it returns no -1.
unfoldable pub spawn_thread : Bool → Text → System → System
spawn_thread true text s = record s {
  threads = s.threads ++ starting text ∷ [];
  data_thread = some (length s.threads);
  main = prompting;
}
spawn_thread false text s = record s { main = prompting }

-- `callback(sentCommand, res)`, up to `pthread_join`
unfoldable pub react : Reaction → Bool → ℕ → System → Result
react nothing created pick s = (record s { main = prompting }, [])
react complain created pick s = (record s { main = prompting }, [])
react exit_success created pick s = stop s
react (spawn text) created pick s = (spawn_thread created text s, [])
react fetch created pick s = (record s { threads = signal pick s.threads; main = joining }, [])

-- What `*res` holds, which was zeroed.
abbrev pub arrived : Received → Message
arrived failed = record { status = 0; command = []; body = [] }
arrived (message m) = m

unfoldable pub receive : Received → Bool → ℕ → System → Result
receive r created pick s = react (callback s.client.sent_command (arrived r)) created pick s

-- `pthread_join` comes back when the thread is at its end; to join no thread is undefined behaviour.
unfoldable pub join_thread : System → Result
join_thread s = elim s.data_thread [
  | none ↦ stop s
  | some i ↦ elim (get_elem? s.threads i) [
    | none ↦ stop s
    | some ended ↦ (record s { data_thread = none; main = closing }, [])
    | some _ ↦ (s, [])
  ]
]

-- A line at the prompt.
unfoldable pub enter : Text → System → Result
enter line s = elim (prompt (line ∷ [])) [
  | ready c m left ↦ (record s { client = remember c m s.client; main = receiving }, request m ∷ [])
  | starved ↦ (s, [])
  | Request.faults ↦ stop s
]

-- Where a data thread goes: on to wait for the port of the answer, or, if the command was another by then,
-- for what an uninitialised `dataPort` holds; `htons` takes the lower 16 bits.
unfoldable pub target : Command → Text → ℕ → DataPort
target pasv text garbage = data_port_of pasv text
target port text garbage = data_port_of port text
target _ text garbage = decoded garbage

-- `dataThreadRoutine` up to `pthread_cond_wait`
unfoldable pub start_thread : ℕ → DataPort → Bool → System → Result
start_thread i (decoded p) true s =
    (record s { threads = set s.threads i waiting; data_port = p % 2 ^ 16 }, [])
start_thread i (decoded p) false s = stop s
start_thread i malformed ok s = (set_phase i ended s, [])
start_thread i DataPort.faults ok s = stop s

-- `strcat(fileName, "fromServer")`
abbrev pub renamed : Command → Client → Client
renamed retr c = record c { file_name = c.file_name ++ codes "fromServer" }
renamed _ c = c

-- `dataThreadRoutine` behind `connect`
unfoldable pub take_data : ℕ → Delivery → System → Result
take_data i Delivery.faults s = stop s
take_data i d s = (
  record s { client = renamed s.client.sent_command s.client; threads = set s.threads i ended },
  delivery d ∷ [],
)

unfoldable pub fetch_data : ℕ → Received → Bool → System → Result
fetch_data i r fopen_ok s =
    take_data i (deliver s.client.sent_command fopen_ok s.client.file_name (arrived r).body) s

-- A step of data thread `i`.
unfoldable pub thread_step : Event → Phase → System → Result
thread_step (started i ok garbage) (starting text) s =
    start_thread i (target s.client.sent_command text garbage) ok s
thread_step (spurious i) waiting s = (set_phase i woken s, [])
thread_step (unreachable i) woken s = stop s
thread_step (fetched i r fopen_ok) woken s = fetch_data i r fopen_ok s
thread_step _ _ s = (s, [])

unfoldable pub at_thread : ℕ → Event → System → Result
at_thread i e s = elim (get_elem? s.threads i) [ none ↦ (s, []) | some p ↦ thread_step e p s ]

-- A step of the whole process; an event that cannot happen now changes nothing.
unfoldable pub main_step : Event → Main → System → Result
main_step e stopped s = (s, [])
main_step (answered r created pick) receiving s = receive r created pick s
main_step joined joining s = join_thread s
main_step (closed r) closing s = (record s { main = prompting }, [])
main_step (typed line) prompting s = enter line s
main_step (started i ok garbage) _ s = at_thread i (started i ok garbage) s
main_step (spurious i) _ s = at_thread i (spurious i) s
main_step (unreachable i) _ s = at_thread i (unreachable i) s
main_step (fetched i r fopen_ok) _ s = at_thread i (fetched i r fopen_ok) s
main_step _ _ s = (s, [])

unfoldable pub step : Event → System → Result
step e s = main_step e s.main s

abbrev pub start : System
start = record {
  client = record { sent_command = user; file_name = [] };
  threads = [];
  data_thread = none;
  data_port = 0;
  main = receiving;
}
