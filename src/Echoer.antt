-- ===== src/Echoer.antt =====
-- Socket (Single Threaded)/echoer.c: the server, which prints what it receives from the one buffer that it
-- never clears, and the client, which sends words.
pub mod Reuse
mod Tests
use hyu_2021_network_protoco.Common.{
  ℕ, ◌+◌, Bool, true, List, [], ◌∷◌, ◌++◌, if◌then◌else◌, ltb, length, take, drop,
}
use hyu_2021_network_protoco.Clib.Text.{Text, codes, text_eq, c_string}

abbrev pub max_buffer_size : ℕ
max_buffer_size = 1024

-- What the user's choice makes of the program: `strcmp(nodeType + 1, "server") == 0`.
pub data Node : Type 0 where
  server client : Node

unfoldable pub choose : Text → Node
choose word = if text_eq word (codes "server") then server else client

-- The globals `buff` and `broken`.
pub record Echoer : Type 0 where
  pub buff : List ℕ
  pub broken : Bool

-- What `recv` gives: an error or the end of the stream, which write nothing, or bytes.
pub data Received : Type 0 where
  nothing : Received
  bytes : List ℕ → Received

-- `recv(cfd, buff, MAX_BUFFER_SIZE, 0)`: the bytes go over the start of the buffer; those that do not fit
-- are left for the next call.
unfoldable pub recv : Received → List ℕ → List ℕ
recv nothing buff = buff
recv (bytes bs) buff = take max_buffer_size bs ++ drop (length (take max_buffer_size bs)) buff

-- How a turn of a loop ends: the process exits, or goes on with a text printed or sent; `crash` is an
-- overrun of the buffer.
pub data Turn : Type 0 where
  exits crash : Turn
  goes_on : Text → Echoer → Turn

-- A turn of the server's loop, with the text that it prints.
unfoldable pub serve : Received → Echoer → Turn
serve r e =
    let buff = recv r e.buff in
    if e.broken then exits else goes_on (c_string buff) (record e { buff = buff })

-- A turn of the client's loop, on a word from `scanf` into `buff + 1`, with the text that it sends.
unfoldable pub send_word : Text → Echoer → Turn
send_word word e =
    let buff = take 1 e.buff ++ (word ++ 0 ∷ drop (length word + 2) e.buff) in
    if e.broken
    then exits
    else if ltb (length word + 1) max_buffer_size
    then goes_on (c_string (drop 1 buff)) (record e { buff = buff })
    else crash

-- `handler`, on SIGPIPE
abbrev pub handler : Echoer → Echoer
handler e = record e { broken = true }

-- All texts that the server prints for a list of messages.
unfoldable pub serve_all : List Received → Echoer → List Text
serve_all [] e = []
serve_all (r ∷ rs) e = elim (serve r e) [
  | exits ↦ []
  | crash ↦ []
  | goes_on text e' ↦ text ∷ serve_all rs e'
]

-- All texts that the client sends for a list of words.
unfoldable pub send_all : List Text → Echoer → List Text
send_all [] e = []
send_all (w ∷ ws) e = elim (send_word w e) [
  | exits ↦ []
  | crash ↦ []
  | goes_on text e' ↦ text ∷ send_all ws e'
]
