-- ===== src/Chat/Client.antt =====
-- Socket (Multi Threaded)/client.c: the main thread, which sends words, and the thread of `workload`, which prints
-- messages. A step is what one thread does up to the next call at which another may run.
pub mod Screen
pub mod Words
use hyu_2021_network_protoco.Common.{
  ℕ, Bool, true, false, List, [], ◌∷◌, ◌++◌, if◌then◌else◌, ltb, length,
}
use hyu_2021_network_protoco.Clib.Text.{Text}
use hyu_2021_network_protoco.Chat.Queue.{Message, nowhere}

abbrev pub max_buffer_size : ℕ
max_buffer_size = 1024

-- Where the main thread stands: before its socket, or at `scanf`.
pub data Main : Type 0 where
  starting prompting : Main

-- `message_from_server` is what the last message left there. The global `broken` is 0 and stays so.
pub record Client : Type 0 where
  pub main : Main
  pub reading : Bool  -- whether the thread of `workload` was made
  pub message_from_server : Message
  pub running : Bool

pub data Output : Type 0 where
  sent printed : Message → Output

abbrev pub Result : Type 0
Result = Client × List Output

-- What `recv` gives: an error; the end of the stream, which writes nothing; or a message.
pub data Received : Type 0 where
  failed closed : Received
  message : Message → Received

-- What happens next, with what the operating system answers; a `send` on a connection that is gone raises
-- SIGPIPE.
pub data Event : Type 0 where
  connects : (socket_ok connect_ok thread_made : Bool) → Event
  types : Text → (connected : Bool) → Event
  receives : Received → Event

-- `exit`, also that of `handlerOnConnectionBroken`
abbrev pub exit_process : Client → Client
exit_process c = record c { running = false }

-- `main` up to its loop; `pthread_create` returns nothing below 0.
unfoldable pub connect : Bool → Bool → Bool → Client → Client
connect true true made c = record c { main = prompting; reading = made }
connect true false made c = exit_process c
connect false ok made c = exit_process c

-- One turn of its loop; a word that overruns `message` is undefined behaviour.
unfoldable pub send_word : Text → Bool → Client → Result
send_word word true c =
    if ltb (length word) max_buffer_size
    then (c, sent (record { user_id = nowhere; text = word }) ∷ [])
    else (exit_process c, [])
send_word word false c = (exit_process c, [])

-- One turn of the loop of `workload`: what is printed is what `messageFromServer` holds.
unfoldable pub show : Received → Client → Result
show failed c = (exit_process c, [])
show closed c = (c, printed c.message_from_server ∷ [])
show (message m) c = (record c { message_from_server = m }, printed m ∷ [])

unfoldable pub main_step : Event → Main → Client → Result
main_step (connects s k made) starting c = (connect s k made c, [])
main_step (types word connected) prompting c = send_word word connected c
main_step _ _ c = (c, [])

-- A step while the process runs; an event that cannot happen now changes nothing.
unfoldable pub live_step : Event → Client → Result
live_step (connects s k made) c = main_step (connects s k made) c.main c
live_step (types word connected) c = main_step (types word connected) c.main c
live_step (receives r) c = if c.reading then show r c else (c, [])

unfoldable pub step : Event → Client → Result
step e c = if c.running then live_step e c else (c, [])

unfoldable pub run : Client → List Event → Result
run c [] = (c, [])
run c (e ∷ es) = let (d, out) = step e c in let (f, outs) = run d es in (f, out ++ outs)

-- The globals are zeroed at the start.
abbrev pub start : Client
start = record {
  main = starting;
  reading = false;
  message_from_server = record { user_id = 0; text = [] };
  running = true;
}
