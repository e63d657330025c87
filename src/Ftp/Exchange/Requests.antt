-- ===== src/Ftp/Exchange/Requests.antt =====
-- What the client sends for a line of its user, and how the server takes it.
use hyu_2021_network_protoco.Common.{
  ◌<◌, ◌≡◌, ◌≢◌, List, [], ◌∷◌, arith, Option-cases, inl, inr, length,
}
use hyu_2021_network_protoco.Clib.Text.{Text}
use hyu_2021_network_protoco.Clib.Strtok.{strtok}
use hyu_2021_network_protoco.Ftp.Protocol.{
  Command, unknown, Message, max_len_command, whitespaces, interpret,
}
use hyu_2021_network_protoco.Ftp.Protocol.Laws.{
  interpret-to_lowercase, known_command_fits, length-to_lowercase,
}
use hyu_2021_network_protoco.Ftp.Client.{ready, prompt, request_message}

-- What a request must be for the server to take it as the client means it.
pub record IsReady (c : Command) (m : Message) : Type 0 where
  pub known : c ≢ unknown
  pub same : interpret m.command ≡ c
  pub fits : length m.command < max_len_command

line-IsReady :
    (word rest : Text)
    → interpret word ≢ unknown
    → IsReady (interpret word) (request_message word rest)
line-IsReady word rest known = record {
  known = known;
  same = interpret-to_lowercase word;
  fits = omega (arith, length-to_lowercase word, known_command_fits word known);
}

-- Whatever the user types, a request that the client's prompt has ready stands for a known command, the
-- server interprets it as that command, and its word fits the buffer of the message.
pub prompt_ready :
    (lines : List Text) (c : Command) (m : Message) (left : List Text)
    → prompt lines ≡ ready c m left
    → IsReady c m
unfolding prompt
prompt_ready [] c m left h = cc
prompt_ready (line ∷ lines) c m left h = elim (Option-cases (strtok whitespaces line)) [
  | inl e ↦ ground arith
  | inr ((word, rest), e) ↦ ground (arith, line-IsReady word rest, prompt_ready lines c m left)
]
