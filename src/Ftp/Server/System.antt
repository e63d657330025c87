-- ===== src/Ftp/Server/System.antt =====
-- FTP/server.c: `main`, `dataThreadRoutine`, and how the main thread and the data threads take
-- turns. A step is what one thread does up to the next call at which another may run.
use hyu_2021_network_protoco.Common.{
  ℕ, Bool, true, false, List, [], ◌∷◌, ◌++◌, Option, none, some, if◌then◌else◌, ltb, length,
  get_elem?, set,
}
use hyu_2021_network_protoco.Clib.Text.{Text, codes, c_string}
use hyu_2021_network_protoco.Ftp.Protocol.{Command, Message, max_buffer_size, minus_one, interpret}
use hyu_2021_network_protoco.Ftp.Server.State.{
  Phase, opening, waiting, woken, done, DataThread, Server, initial, Outcome, reply, joining,
  exited, crash, Files,
}
use hyu_2021_network_protoco.Ftp.Server.Directory.{
  get_directory_entries, null, block, Stream, get_stream_from_file,
}
use hyu_2021_network_protoco.Ftp.Server.Execute.{Surroundings, execute, after_join}

-- `newMessage`; `none` is an overrun of `body`.
unfoldable pub new_message : ℕ → Text → Option Message
new_message status body =
    if ltb (length body) max_buffer_size
    then some (record { status = status; command = []; body = body })
    else none

-- Where the main thread stands: in `accept`, in `recv`, in `pthread_join` for a command, or gone
-- with the process.
pub data Main : Type 0 where
  accepting receiving stopped : Main
  awaiting : Command → Main

pub record System : Type 0 where
  pub server : Server
  pub main : Main

-- What the server sends: on the control connection, or as data thread `i` on the connection that it accepted, on the
-- socket that is in `data_server_fd` then.
pub data Output : Type 0 where
  control : Message → Output
  channel : ℕ → Message → Output

abbrev pub Result : Type 0
Result = System × List Output

-- The outcome of `bind` on a data socket.
pub data Bind : Type 0 where
  bound address_in_use other_error : Bind

-- What `recv` gives: an error, the end of the stream, or a message.
pub data Received : Type 0 where
  broken closed : Received
  message : Message → Received

-- What happens next, with what the operating system answers.
pub data Event : Type 0 where
  accepted : Event
  refused : Event  -- `listen` or `accept` fails
  received : Surroundings → Received → Event
  opened : (thread : ℕ) → (socket_ok : Bool) → Bind → Event
  spurious : (thread : ℕ) → Event
  served : (thread : ℕ) → Files → (memory : List ℕ) → (listen_ok accept_ok : Bool) → Event
  joined : Event

abbrev pub stop : System → Result
stop s = (record s { main = stopped }, [])

-- `send(cfd, newMessage(status, text), …)`, then the main thread goes on as `next`.
unfoldable pub send_control : ℕ → Text → Main → System → Result
send_control status text next s = elim (new_message status text) [
  | none ↦ stop s
  | some m ↦ (record s { main = next }, control m ∷ [])
]

-- What `main` does with the outcome of `execute` for a command.
unfoldable pub conclude : Command → Outcome × Server → Result
conclude c (reply status text, s) =
    send_control status text receiving (record { server = s; main = receiving })
conclude c (joining, s) = send_control 150 [] (awaiting c) (record { server = s; main = receiving })
conclude c (exited, s) = stop (record { server = s; main = receiving })
conclude c (crash, s) = stop (record { server = s; main = receiving })

-- What `*req` holds, which was zeroed, when the stream has ended: `recv` gives 0, not an error.
abbrev pub empty_request : Message
empty_request = record { status = 0; command = []; body = [] }

unfoldable pub handle : Surroundings → Message → Server → Result
handle e req s = conclude (interpret req.command) (execute e req s)

-- One turn of the inner loop of `main`.
unfoldable pub receive : Surroundings → Received → System → Result
receive e broken s = (record s { main = accepting }, [])
receive e closed s = handle e empty_request s.server
receive e (message m) s = handle e m s.server

abbrev pub set_phase : ℕ → DataThread → Phase → Server → Server
set_phase i t p s = record s { data_threads = set s.data_threads i (record t { phase = p }) }

-- `dataThreadRoutine` up to `pthread_cond_wait`; a `bind` that fails otherwise is passed over.
unfoldable pub open_socket : ℕ → DataThread → Bool → Bind → System → Result
open_socket i t false b s = stop s
open_socket i t true address_in_use s = stop s
open_socket i t true bound s = (
  record s { server = record (set_phase i t waiting s.server) { data_server_fd = some t.number } },
  [],
)
open_socket i t true other_error s =
    (record s { server = record (set_phase i t waiting s.server) { data_server_fd = none } }, [])

-- `send(data_client_fd, newMessage(-1, text), …); return "Success";`
unfoldable pub send_channel : ℕ → DataThread → Text → System → Result
send_channel i t text s = elim (new_message minus_one text) [
  | none ↦ stop s
  | some m ↦ (record s { server = set_phase i t (done true) s.server }, channel i m ∷ [])
]

-- What the thread sends when its client is there: the `switch` on `dataCommand`.
unfoldable pub transfer : ℕ → DataThread → Files → List ℕ → System → Result
transfer i t files memory s = elim s.server.data_command [
  | Command.retr ↦
      elim (get_stream_from_file files memory s.server.relative_path s.server.file_name) [
        | null ↦ stop s
        | block b ↦ send_channel i t (c_string b) s
        | Stream.faults ↦ stop s
      ]
  | Command.nlst ↦ elim (get_directory_entries files s.server.relative_path) [
    | none ↦ stop s
    | some text ↦ send_channel i t text s
  ]
  | _ ↦ (record s { server = set_phase i t (done false) s.server }, [])
]

-- `dataThreadRoutine` behind `pthread_cond_wait`
unfoldable pub serve : ℕ → DataThread → Files → List ℕ → Bool → Bool → System → Result
serve i t files memory true true s = transfer i t files memory s
serve i t files memory false _ s = stop s
serve i t files memory true false s = stop s

-- A step of thread `i`, if it stands at the phase that the step starts from.
unfoldable pub at_phase : Phase → Phase → Result → Result → Result
at_phase opening opening next stay = next
at_phase waiting waiting next stay = next
at_phase woken woken next stay = next
at_phase _ _ next stay = stay

unfoldable pub with_thread : ℕ → Phase → (DataThread → Result) → System → Result
with_thread i p f s = elim (get_elem? s.server.data_threads i) [
  | none ↦ (s, [])
  | some t ↦ at_phase p t.phase (f t) (s, [])
]

-- `relativePath` for nlst, `fileName` for retr
abbrev pub subject : Command → Server → Text
subject Command.retr s = elim s.file_name [ none ↦ [] | some n ↦ n ]
subject _ s = s.relative_path

-- `pthread_join` comes back when the thread is at its end.
unfoldable pub finish_join : Command → Phase → System → Result
finish_join c (done ended) s =
    conclude c (after_join ended (subject c s.server) (record s.server { data_thread = none }))
finish_join c _ s = (s, [])

-- To join a thread again, or with no thread, is undefined behaviour.
unfoldable pub join_thread : Command → System → Result
join_thread c s = elim s.server.data_thread [
  | none ↦ stop s
  | some i ↦ elim (get_elem? s.server.data_threads i) [
    | none ↦ stop s
    | some t ↦ finish_join c t.phase s
  ]
]

-- A step of the whole process; an event that cannot happen now changes nothing.
unfoldable pub main_step : Event → Main → System → Result
main_step e stopped s = (s, [])
main_step accepted accepting s = send_control 220 (codes "Server ready") receiving s
main_step refused accepting s = stop s
main_step (received e r) receiving s = receive e r s
main_step joined (awaiting c) s = join_thread c s
main_step (opened i ok b) _ s = with_thread i opening (λ t. open_socket i t ok b s) s
main_step (spurious i) _ s =
    with_thread i waiting (λ t. (record s { server = set_phase i t woken s.server }, [])) s
main_step (served i files memory l a) _ s =
    with_thread i woken (λ t. serve i t files memory l a s) s
main_step _ _ s = (s, [])

unfoldable pub step : Event → System → Result
step e s = main_step e s.main s

abbrev pub start : System
start = record { server = initial; main = accepting }

-- All outputs of a run, and where it ends.
unfoldable pub run : System → List Event → Result
run s [] = (s, [])
run s (e ∷ es) = let (s', out) = step e s in let (t, outs) = run s' es in (t, out ++ outs)
