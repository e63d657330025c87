-- ===== src/Ftp/Server/Execute.antt =====
-- FTP/server.c: `execute`, a handler for each case of its `switch`.
use hyu_2021_network_protoco.Common.{
  ℕ, ◌+◌, ◌*◌, ◌/◌, ◌%◌, Bool, true, false, List, [], ◌∷◌, ◌++◌, Option, none, some, if◌then◌else◌,
  ltb, ◌==◌, length, get_elem?,
}
use hyu_2021_network_protoco.Clib.Text.{Text, codes, text_eq, tolower}
use hyu_2021_network_protoco.Clib.Strtok.{first_token, tokens}
use hyu_2021_network_protoco.Clib.Decimal.{int32, atoi, print_int}
use hyu_2021_network_protoco.Ftp.Protocol.{
  Command, not_logged_in, need_password, logged_in, mode_selected, Message, max_buffer_size,
  whitespaces, comma_whitespaces, interpret,
}
use hyu_2021_network_protoco.Ftp.Server.State.{
  user_id, user_password, opening, Server, ports, Outcome, joining, exited, crash, respond, Files,
  Create, created, failed, returned_minus_one, signal,
}
use hyu_2021_network_protoco.Ftp.Server.Directory.{
  Lookup, found, exits, faults, valid_directory_entry, refused, changed, change_working_directory,
}

abbrev pub login_first : Text
login_first = codes "operation not authroized. Please login first."

abbrev pub select_mode_first : Text
select_mode_first = codes "please select ftp mode first (active, passive)"

abbrev pub internal_error : Text
internal_error = codes "Internal Server Error"

-- case user
unfoldable pub execute_user : Text → Server → Outcome × Server
execute_user body s = elim s.auth_status [
  | not_logged_in ↦
      if text_eq body user_id
      then (
        respond 331 (codes "Password required for \"" ++ (user_id ++ codes "\"")),
        record s { auth_status = need_password },
      )
      else (
        respond 400 (codes "wrong username. try again"),
        record s { auth_status = not_logged_in },
      )
  | _ ↦ (respond 400 (codes "user id already given"), s)
]

-- case pass
unfoldable pub execute_pass : Text → Server → Outcome × Server
execute_pass body s = elim s.auth_status [
  | not_logged_in ↦ (respond 400 (codes "enter user name"), s)
  | need_password ↦
      if text_eq body user_password
      then (respond 230 (codes "Logged on"), record s { auth_status = logged_in })
      else (respond 400 (codes "wrong password. try again"), s)
  | logged_in ↦ (respond 200 (codes "already logined"), s)
  | mode_selected ↦ (respond 200 (codes "already logined"), s)
]

-- `sprintf(intermediateMessage, …)`, then the 150 message and `pthread_join`.
unfoldable pub announce : Text → Outcome
announce text = if ltb (length text) max_buffer_size then joining else crash

-- case nlst, up to `pthread_join`; `pick` is the thread that the signal reaches.
unfoldable pub execute_nlst : ℕ → Server → Outcome × Server
execute_nlst pick s = elim s.auth_status [
  | mode_selected ↦ (
    announce (codes "Opening data channel of directory listing of " ++ s.relative_path),
    record s { data_command = Command.nlst; data_threads = signal pick s.data_threads },
  )
  | _ ↦ (respond 401 select_mode_first, s)
]

-- case retr, behind the test of `authStatus`, with the file name that was found valid or not
unfoldable pub retr_named : ℕ → Option Text → Lookup → Server → Outcome × Server
retr_named pick name Lookup.exits s = (exited, s)
retr_named pick name Lookup.faults s = (crash, s)
retr_named pick none (found b) s = (crash, s)
retr_named pick (some n) (found false) s = (respond 404 (codes "failed opening " ++ n), s)
retr_named pick (some n) (found true) s = (
  announce (codes "Opening data Channel of file donwload from server of \"" ++ (n ++ codes "\"")),
  record s { data_command = Command.retr; data_threads = signal pick s.data_threads },
)

-- case retr, up to `pthread_join`
unfoldable pub execute_retr : Files → ℕ → Text → Server → Outcome × Server
execute_retr files pick body s = elim s.auth_status [
  | mode_selected ↦
      let name : Option Text = first_token whitespaces body in
      retr_named pick name (valid_directory_entry files s.relative_path name)
        (record s { file_name = name })
  | _ ↦ (respond 401 select_mode_first, s)
]

-- cases nlst and retr, behind `pthread_join`: `ended` tells whether the thread's pointer is not
-- NULL, and `subject` is what the last line names.
unfoldable pub after_join : Bool → Text → Server → Outcome × Server
after_join false subject s = (respond 500 (internal_error ++ 10 ∷ []), s)
after_join true subject s = (
  respond 226 (codes "Successfully transferred " ++ (subject ++ 10 ∷ [])),
  record s { auth_status = logged_in },
)

-- case cwd
unfoldable pub execute_cwd : Files → Text → Server → Outcome × Server
execute_cwd files body s = elim s.auth_status [
  | logged_in ↦ elim (change_working_directory files s.relative_path body) [
    | refused ↦ (
      respond 500 (
          codes "changing directory failed. current working directory is \""
          ++ (s.relative_path ++ codes "\"")),
      s,
    )
    | changed p ↦ (
      respond 226 (codes "changed current working directory to \"" ++ (p ++ codes "\"")),
      record s { relative_path = p },
    )
    | exits ↦ (exited, s)
    | faults ↦ (crash, s)
  ]
  | _ ↦ (respond 401 login_first, s)
]

-- case quit
unfoldable pub execute_quit : Server → Outcome × Server
execute_quit s = (respond 221 (codes "Goodbye"), record s { auth_status = not_logged_in })

-- case type, behind the test of `authStatus`
unfoldable pub set_type : Text → Server → Outcome × Server
set_type (c ∷ []) s =
    if tolower c == b'i'
    then (
      respond 200 (codes "Type set to " ++ ((c ∷ []) ++ codes " (Binary)")),
      record s { ascii_mode = false },
    )
    else if tolower c == b'a'
    then (
      respond 200 (codes "Type set to " ++ ((c ∷ []) ++ codes " (Ascii)")),
      record s { ascii_mode = true },
    )
    else (respond 401 (codes "invalid file transfer type \"" ++ ((c ∷ []) ++ codes "\"")), s)
set_type body s = (
  respond 401 (
      codes "type must be a single character \""
      ++ (body ++ codes "\" is not a single character.")),
  s,
)

-- case type
unfoldable pub execute_type : Text → Server → Outcome × Server
execute_type body s = elim s.auth_status [
  | logged_in ↦ set_type body s
  | _ ↦ (respond 401 login_first, s)
]

-- `pthread_create(&dataThread, NULL, dataThreadRoutine, (void *) port) == -1`, and the two ends of
-- the cases pasv and port.
unfoldable pub start_data_thread : Create → ℕ → ℕ → Text → Server → Outcome × Server
start_data_thread created number status text s = (
  respond status text,
  record s {
    data_threads = s.data_threads ++ (record { number = number; phase = opening }) ∷ [];
    data_thread = some (length s.data_threads);
    auth_status = mode_selected;
  },
)
start_data_thread failed number status text s =
    (respond status text, record s { auth_status = mode_selected })
start_data_thread returned_minus_one number status text s = (respond 500 internal_error, s)

-- "Entering Passive Mode | 192,168,0,1,%d,%d"
unfoldable pub passive_text : ℕ → Text
passive_text number =
    codes "Entering Passive Mode | 192,168,0,1,"
    ++ (print_int (number / 256) ++ (b',' ∷ print_int (number % 256)))

-- case pasv; an index past `ports` is undefined behaviour.
unfoldable pub execute_pasv : Create → Server → Outcome × Server
execute_pasv made s = elim s.auth_status [
  | logged_in ↦ elim (get_elem? ports s.port_idx) [
    | none ↦ (crash, record s { port_idx = s.port_idx + 1 })
    | some number ↦
        start_data_thread made number 227 (passive_text number)
          (record s { port_idx = s.port_idx + 1 })
  ]
  | _ ↦ (respond 401 login_first, s)
]

-- The `strtok` loop of case port over its tokens: `none` is "invalid port number encountered". The
-- address and the port are `int`s that wrap; only the port is used.
unfoldable pub decode_port : ℕ → ℕ → ℕ → List Text → Option ℕ
decode_port idx address number [] = some number
decode_port idx address number (t ∷ ts) =
    let value = atoi t in
    let keep = decode_port (idx + 1) address number ts in
    let host = decode_port (idx + 1) (int32 (int32 (address * 256) + value)) number ts in
    let low = decode_port (idx + 1) address (int32 (int32 (number * 256) + value)) ts in
    if ltb 3 (length t) then none else if value == 0 then keep else if ltb idx 4 then host else low

-- "Port command successful :%d"
unfoldable pub active_text : ℕ → Text
active_text number = codes "Port command successful :" ++ print_int number

-- case port
unfoldable pub execute_port : Create → Text → Server → Outcome × Server
execute_port made body s = elim s.auth_status [
  | logged_in ↦ elim (decode_port 0 0 0 (tokens comma_whitespaces body)) [
    | none ↦ (respond 400 (codes "invalid port number encountered. Try Agiain"), s)
    | some number ↦ start_data_thread made number 200 (active_text number) s
  ]
  | _ ↦ (respond 401 login_first, s)
]

-- What a call of `execute` finds in its surroundings.
pub record Surroundings : Type 0 where
  pub files : Files
  pub create : Create
  pub pick : ℕ

unfoldable pub dispatch : Command → Surroundings → Text → Server → Outcome × Server
dispatch Command.user e body s = execute_user body s
dispatch Command.pass e body s = execute_pass body s
dispatch Command.nlst e body s = execute_nlst e.pick s
dispatch Command.retr e body s = execute_retr e.files e.pick body s
dispatch Command.cwd e body s = execute_cwd e.files body s
dispatch Command.quit e body s = execute_quit s
dispatch Command.type e body s = execute_type body s
dispatch Command.pasv e body s = execute_pasv e.create s
dispatch Command.port e body s = execute_port e.create body s
dispatch Command.unknown e body s = (respond 404 (codes "unknown command"), s)

-- `execute`, up to `pthread_join` for the two commands that transfer
unfoldable pub execute : Surroundings → Message → Server → Outcome × Server
execute e req s = dispatch (interpret req.command) e req.body s
