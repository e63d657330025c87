-- ===== src/Ftp/Client.antt =====
-- FTP/client.c: what the client asks, how it takes the answers, and what its data thread does.
pub mod System
use hyu_2021_network_protoco.Common.{
  ℕ, ◌+◌, ◌*◌, ◌/◌, Bool, List, [], ◌∷◌, ◌++◌, Option, none, some, if◌then◌else◌, ltb, ◌==◌, length,
}
use hyu_2021_network_protoco.Clib.Text.{Text, codes}
use hyu_2021_network_protoco.Clib.Strtok.{strtok, first_token, tokens}
use hyu_2021_network_protoco.Clib.Decimal.{int32, atoi}
use hyu_2021_network_protoco.Ftp.Protocol.{
  Command, user, pass, nlst, pasv, retr, cwd, quit, type, port, unknown, Message,
  max_relative_path_length, whitespaces, comma_whitespaces, to_lowercase, interpret,
}

-- "| \t\n\v\f\r"
abbrev pub bar_whitespaces : Text
bar_whitespaces = b'|' ∷ whitespaces

-- The port that the data thread goes on with; `malformed` is its `return NULL`, and `faults` the
-- `atoi` of a NULL pointer.
pub data DataPort : Type 0 where
  decoded : ℕ → DataPort
  malformed faults : DataPort

-- The loop of `dataThreadRoutine` over the tokens of the address.
unfoldable pub decode_address : ℕ → ℕ → ℕ → List Text → DataPort
decode_address idx address data_port [] = decoded data_port
decode_address idx address data_port (t ∷ ts) =
    let value = atoi t in
    let keep = decode_address (idx + 1) address data_port ts in
    let host = decode_address (idx + 1) (int32 (int32 (address * 256) + value)) data_port ts in
    let low = decode_address (idx + 1) address (int32 (int32 (data_port * 256) + value)) ts in
    if ltb 3 (length t)
    then malformed
    else if value == 0
    then keep
    else if ltb idx 4
    then host
    else low

-- The second token of a text: `strtok(text, d)`, then `strtok(NULL, d)`.
unfoldable pub second_token : Text → Text → Option Text
second_token delims text = elim (strtok delims text) [
  | none ↦ none
  | some (_, rest) ↦ first_token delims rest
]

-- The first part of `dataThreadRoutine`, on the text of the answer. With no address part the loop's
-- `strtok(NULL, …)` finds nothing.
unfoldable pub data_port_of : Command → Text → DataPort
data_port_of pasv body = elim (second_token (b'|' ∷ []) body) [
  | none ↦ decode_address 0 0 0 []
  | some address ↦ decode_address 0 0 0 (tokens comma_whitespaces address)
]
data_port_of port body = elim (second_token (b':' ∷ []) body) [
  | none ↦ faults
  | some number ↦ decoded (atoi number)
]
data_port_of _ body = malformed

-- `extractClass`
unfoldable pub extract_class : ℕ → ℕ
extract_class status = status / 100

-- `toVerbal`
unfoldable pub to_verbal : ℕ → Text
to_verbal status =
    let kind = status / 100 in
    if kind == 1
    then codes "INIT"
    else if kind == 2
    then codes "OK"
    else if kind == 3
    then codes "REDIRECT"
    else if kind == 4
    then codes "error"
    else if kind == 5
    then codes "server error"
    else codes "unknown"

-- What `callback` does: nothing more; wake the data thread, join it and take the closing answer; end
-- the process; start a data thread on the answer's text; complain.
pub data Reaction : Type 0 where
  nothing fetch exit_success complain : Reaction
  spawn : Text → Reaction

unfoldable pub callback : Command → Message → Reaction
unfolding extract_class
callback user res = nothing
callback pass res = nothing
callback cwd res = nothing
callback type res = nothing
callback nlst res = if extract_class res.status == 1 then fetch else nothing
callback retr res = if extract_class res.status == 1 then fetch else nothing
callback quit res = exit_success
callback pasv res = spawn res.body
callback port res = spawn res.body
callback unknown res = complain

-- The end of `dataThreadRoutine`: a file written, names printed, or NULL.
pub data Delivery : Type 0 where
  wrote : (name contents : Text) → Delivery
  printed : List Text → Delivery
  undelivered faults : Delivery

-- `serverData` is the body of the message that came on the data connection.
unfoldable pub deliver : Command → Bool → Text → Text → Delivery
deliver retr fopen_ok file_name server_data =
    let name = file_name ++ codes "fromServer" in
    if ltb (length name) max_relative_path_length
    then if fopen_ok then wrote name server_data else undelivered
    else Delivery.faults
deliver nlst fopen_ok file_name server_data = printed (tokens bar_whitespaces server_data)
deliver _ fopen_ok file_name server_data = undelivered

-- A request that is ready to be sent, with the command that it stands for and the lines that are
-- left; `starved` means that the user typed no more.
pub data Request : Type 0 where
  ready : Command → Message → List Text → Request
  starved faults : Request

abbrev pub argument : Option Text → Text
argument none = []
argument (some t) = t

-- One line of the user that holds a known command: the lowered word, and the next word as the body.
abbrev pub request_message : Text → Text → Message
request_message word rest = record {
  status = 0;
  command = to_lowercase word;
  body = argument (first_token whitespaces rest);
}

-- The prompt of `main`, with its loop over lines that hold no known command. `scanf` passes over leading
-- white space, so that each word stands at the start of `userInput`, where the outer `inputCommand`, which
-- the loop's own shadows, points to it.
unfoldable pub prompt : List Text → Request
prompt [] = starved
prompt (line ∷ lines) =
    let again = prompt lines in
    elim (strtok whitespaces line) [
      | none ↦ Request.faults
      | some (word, rest) ↦ elim (interpret word) [
        | unknown ↦ again
        | c ↦ ready c (request_message word rest) lines
      ]
    ]

-- The globals of the client that outlive a turn.
pub record Client : Type 0 where
  pub sent_command : Command
  pub file_name : Text

-- The rest of a turn of `main`: `sentCommand`, and `fileName` for retr.
unfoldable pub remember : Command → Message → Client → Client
remember retr m c = record { sent_command = retr; file_name = m.body }
remember cmd m c = record c { sent_command = cmd }
