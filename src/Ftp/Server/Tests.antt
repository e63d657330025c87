-- ===== src/Ftp/Server/Tests.antt =====
-- The theorems about FTP/server.c on concrete inputs.
use hyu_2021_network_protoco.Common.{
  ◌⊎◌, ◌≤◌, ◌≡◌, ◌≢◌, ◌↔◌, refl, List, [], ◌∷◌, none, some, arith, true, replicate,
}
use hyu_2021_network_protoco.Clib.Text.{Text, codes, text_eq, tolower, elem}
use hyu_2021_network_protoco.Clib.Strtok.{skip, word, after, strtok, first_token}
use hyu_2021_network_protoco.Clib.Decimal.{decimal, digits_fuel, print_int}
use hyu_2021_network_protoco.Ftp.Protocol.{
  Command, logged_in, Message, to_lowercase, interpret_lower, interpret,
}
use hyu_2021_network_protoco.Ftp.Server.State.{
  Server, initial, Files, created, signal, respond, crash, user_id, user_password,
}
use hyu_2021_network_protoco.Ftp.Server.Directory.{
  strcat, valid_directory_entry, found, list_entries, get_directory_entries,
}
use hyu_2021_network_protoco.Ftp.Server.Directory.Laws.{valid_directory_entry_accepts}
use hyu_2021_network_protoco.Ftp.Server.Execute.{
  Surroundings, execute_user, execute_pass, execute_nlst, execute_pasv, announce, after_join,
  start_data_thread, passive_text, dispatch, execute,
}
use hyu_2021_network_protoco.Ftp.Server.System.{
  new_message, Event, receiving, accepted, received, opened, served, joined, message, bound, closed,
  send_control, conclude, handle, receive, open_socket, send_channel, transfer, serve, at_phase,
  with_thread, finish_join, join_thread, main_step, step, start, run,
}
use hyu_2021_network_protoco.Ftp.Server.Replies.{Same, IsError, error_reply_keeps_state}
use hyu_2021_network_protoco.Ftp.Server.Total.{Answers, Named, execute-Answers}
use hyu_2021_network_protoco.Ftp.Server.Locked.{Untouched, untouched_without_credentials}
use hyu_2021_network_protoco.Ftp.Server.Login.{rank, login_exact}
use hyu_2021_network_protoco.Ftp.Server.Secrecy.{
  HasCredentials, sends_data, handled, data_needs_credentials, login_needs_credentials,
}
use hyu_2021_network_protoco.Ftp.Server.Connection.{answer, closed_stream_loops, pasv_exhausts}

abbrev dot : Text
dot = codes "."

abbrev dots : Text
dots = codes ".."

abbrev two_entries : Files
two_entries = record { opendir = λ _. some (dot ∷ dots ∷ []); fopen = λ _. none }

abbrev around : Surroundings
around = record { files = two_entries; create = created; pick = 0 }

abbrev request : Text → Text → Message
request word body = record { status = 0; command = word; body = body }

abbrev asks : Text → Text → Event
asks word body = received around (message (request word body))

-- A client that logs in, asks for passive mode and for a listing.
abbrev listing_session : List Event
listing_session =
    accepted
    ∷ asks (codes "USER") user_id
    ∷ asks (codes "PASS") user_password
    ∷ asks (codes "PASV") []
    ∷ opened 0 true bound
    ∷ asks (codes "NLST") []
    ∷ served 0 two_entries [] true true
    ∷ joined
    ∷ []

listing_session_sends : sends_data (run start listing_session).1 ≡ true
unfolding run step main_step receive handle execute dispatch conclude send_control new_message
    execute_user execute_pass execute_pasv execute_nlst announce after_join start_data_thread
    passive_text respond signal with_thread at_phase open_socket serve transfer send_channel
    get_directory_entries list_entries strcat join_thread finish_join interpret interpret_lower
    to_lowercase tolower text_eq print_int decimal digits_fuel
listing_session_sends = refl

data_needs_credentials_example : HasCredentials (handled start listing_session)
data_needs_credentials_example = data_needs_credentials listing_session listing_session_sends

listing_session_ends : 2 ≤ rank (run start listing_session).0.server.auth_status
unfolding run step main_step receive handle execute dispatch conclude send_control new_message
    execute_user execute_pass execute_pasv execute_nlst announce after_join start_data_thread
    passive_text respond signal with_thread at_phase open_socket serve transfer send_channel
    get_directory_entries list_entries strcat join_thread finish_join interpret interpret_lower
    to_lowercase tolower text_eq print_int decimal digits_fuel
listing_session_ends = omega arith

login_needs_credentials_example : HasCredentials (handled start listing_session)
login_needs_credentials_example = login_needs_credentials listing_session listing_session_ends

-- Requests of a client that has given the name alone.
abbrev stranger : List Event
stranger =
    accepted
    ∷ received around (message (request (codes "USER") user_id))
    ∷ received around (message (request (codes "TYPE") (codes "I")))
    ∷ received around (message (request (codes "PASV") []))
    ∷ []

untouched_without_credentials_example :
    HasCredentials (handled start stranger) ⊎ Untouched (run start stranger).0.server
untouched_without_credentials_example = untouched_without_credentials stranger

abbrev logged : Server
logged = record initial { auth_status = logged_in }

wrong_password : IsError (execute around (request (codes "pass") dot) initial).0
unfolding execute dispatch execute_pass respond interpret interpret_lower to_lowercase tolower
    text_eq
wrong_password = omega arith

error_reply_keeps_state_example :
    Same initial (execute around (request (codes "pass") dot) initial).1
error_reply_keeps_state_example =
    error_reply_keeps_state around (request (codes "pass") dot) initial wrong_password

retr_names : Named two_entries initial.relative_path dots
unfolding first_token strtok skip word after elem
retr_names = record { name = dots; names = dot ∷ dots ∷ []; token = refl; opens = refl }

execute-Answers_example : Answers (execute around (request (codes "retr") dots) logged).0
unfolding interpret interpret_lower to_lowercase tolower text_eq
execute-Answers_example =
    execute-Answers around (request (codes "retr") dots) logged (omega arith) (omega arith)
      retr_names

says_user : interpret (codes "USER") ≡ Command.user
unfolding interpret interpret_lower to_lowercase tolower text_eq
says_user = refl

says_pass : interpret (codes "Pass") ≡ Command.pass
unfolding interpret interpret_lower to_lowercase tolower text_eq
says_pass = refl

login_exact_example :
    ((execute around
        (request (codes "Pass") user_password)
        (execute around (request (codes "USER") user_id) initial).1).1.auth_status
      ≡ logged_in)
    ↔ ((user_id ≡ user_id) × (user_password ≡ user_password))
login_exact_example =
    login_exact around around (request (codes "USER") user_id)
      (request (codes "Pass") user_password) initial refl says_user says_pass

dots_differ : dot ≢ dots
dots_differ h = cc

valid_directory_entry_accepts_example :
    valid_directory_entry two_entries (codes "./") (some (codes "nofile")) ≡ found true
valid_directory_entry_accepts_example =
    valid_directory_entry_accepts two_entries (codes "./") (codes "nofile") dot dots [] refl
      dots_differ

closed_stream_loops_example :
    run (record { server = logged; main = receiving }) (replicate 3 (received around closed)) ≡ (
      record { server = logged; main = receiving },
      replicate 3 (answer 404 (codes "unknown command")),
    )
closed_stream_loops_example = closed_stream_loops around logged 3

pasv_exhausts_example : ((execute_pasv created logged).0 ≡ crash) ↔ (18 ≤ logged.port_idx)
pasv_exhausts_example = pasv_exhausts created logged refl
