-- ===== src/Ftp/Protocol.antt =====
-- What FTP/server.c and FTP/client.c share: commands, messages, and the words that they compare.
pub mod Laws
mod Tests
use hyu_2021_network_protoco.Common.{ℕ, ◌-◌, ◌^◌, [], ◌∷◌, if◌then◌else◌}
use hyu_2021_network_protoco.Clib.Text.{Text, codes, text_eq, tolower}

pub data Command : Type 0 where
  user pass nlst pasv retr cwd quit type port unknown : Command

pub data AuthorizationStatus : Type 0 where
  not_logged_in need_password logged_in mode_selected : AuthorizationStatus

-- The fixed buffers of a message hold NUL-terminated texts; `status` is an `int`.
pub record Message : Type 0 where
  pub status : ℕ
  pub command : Text
  pub body : Text

abbrev pub max_buffer_size : ℕ
max_buffer_size = 1024

abbrev pub max_len_command : ℕ
max_len_command = 5

abbrev pub max_relative_path_length : ℕ
max_relative_path_length = 2021

-- `(int) -1`
abbrev pub minus_one : ℕ
minus_one = 2 ^ 32 - 1

-- " \t\n\v\f\r"
abbrev pub whitespaces : Text
whitespaces = 32 ∷ 9 ∷ 10 ∷ 11 ∷ 12 ∷ 13 ∷ []

-- ", \t\n\v\f\r"
abbrev pub comma_whitespaces : Text
comma_whitespaces = 44 ∷ whitespaces

-- The loop over `strlen(inputString)` bytes that lowers each in place.
unfoldable pub to_lowercase : Text → Text
to_lowercase [] = []
to_lowercase (c ∷ s) = tolower c ∷ to_lowercase s

-- The chain of `strcmp` over a lowered word.
unfoldable pub interpret_lower : Text → Command
interpret_lower w =
    if text_eq w (codes "user")
    then user
    else if text_eq w (codes "pass")
    then pass
    else if text_eq w (codes "nlst")
    then nlst
    else if text_eq w (codes "pasv")
    then pasv
    else if text_eq w (codes "retr")
    then retr
    else if text_eq w (codes "cwd")
    then cwd
    else if text_eq w (codes "quit")
    then quit
    else if text_eq w (codes "type")
    then type
    else if text_eq w (codes "port")
    then port
    else unknown

-- `interpret`; its argument is left lowered, which the callers that go on to use it write out.
unfoldable pub interpret : Text → Command
interpret w = interpret_lower (to_lowercase w)
