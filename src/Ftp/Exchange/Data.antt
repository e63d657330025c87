-- ===== src/Ftp/Exchange/Data.antt =====
-- What goes over the data connection: the listing of a directory and the contents of a file.
use hyu_2021_network_protoco.Common.{
  ℕ, ◌+◌, ◌<◌, ◌≡◌, ◌∙◌, sym, refl, ap, Bool, true, List, [], ◌∷◌, ◌++◌, append-nil, some, lt→ltb,
  arith, length, length-append, All, get_elem?,
}
use hyu_2021_network_protoco.Clib.Text.{Text, codes, elem, IsText}
use hyu_2021_network_protoco.Clib.Strtok.{tokens_fuel, tokens}
use hyu_2021_network_protoco.Clib.Strtok.Laws.{IsWord, tokens_delim, tokens_word, tokens_last}
use hyu_2021_network_protoco.Ftp.Protocol.{
  Command, Message, minus_one, max_buffer_size, max_relative_path_length,
}
use hyu_2021_network_protoco.Ftp.Server.State.{done, DataThread, Files}
use hyu_2021_network_protoco.Ftp.Server.Directory.{get_directory_entries, get_stream_from_file}
use hyu_2021_network_protoco.Ftp.Server.Directory.Laws.{
  listing, strcat_fits, list_entries-listing, c_string-fread,
}
use hyu_2021_network_protoco.Ftp.Server.System.{
  new_message, System, Result, channel, set_phase, send_channel, transfer,
}
use hyu_2021_network_protoco.Ftp.Client.{bar_whitespaces, wrote, printed, deliver}

-- A name that the client's `strtok` leaves whole: not empty, with no bar and no white space.
abbrev pub IsEntry : Text → Type 0
IsEntry e = (0 < length e) × IsWord bar_whitespaces e

bar_delimiter : elem b'|' bar_whitespaces ≡ true
unfolding elem
bar_delimiter = refl

tokens-nil : tokens bar_whitespaces [] ≡ []
unfolding tokens tokens_fuel
tokens-nil = refl

-- The client's loop over a listing gives the names back.
tokens-listing : (es : List Text) → All IsEntry es → tokens bar_whitespaces (listing es) ≡ es
tokens-listing [] h = tokens-nil
tokens-listing ([] ∷ es) h = absurd (omega arith)
tokens-listing ((x ∷ e) ∷ []) h =
    tokens_delim bar_whitespaces b'|' (x ∷ e ++ []) bar_delimiter
    ∙ ap (tokens bar_whitespaces) (append-nil (x ∷ e))
    ∙ tokens_last bar_whitespaces x e h.0.1
tokens-listing ((x ∷ e) ∷ f ∷ es) h =
    tokens_delim bar_whitespaces b'|' (x ∷ e ++ listing (f ∷ es)) bar_delimiter
    ∙ tokens_word bar_whitespaces x e b'|' (f ++ listing es) h.0.1 bar_delimiter
    ∙ ap (λ ts. (x ∷ e) ∷ ts)
        (sym (tokens_delim bar_whitespaces b'|' (f ++ listing es) bar_delimiter)
          ∙ tokens-listing (f ∷ es) h.1)

-- The message of a data thread with a body, and the state in which the thread is at its end.
abbrev pub data_message : Text → Message
data_message body = record { status = minus_one; command = []; body = body }

abbrev pub delivered : ℕ → DataThread → Text → System → Result
delivered i t body s =
    (record s { server = set_phase i t (done true) s.server }, channel i (data_message body) ∷ [])

sends :
    (i : ℕ) (t : DataThread) (body : Text) (s : System)
    → length body < max_buffer_size
    → send_channel i t body s ≡ delivered i t body s
unfolding send_channel new_message
sends i t body s h = ground arith

-- For a directory whose names the client leaves whole, and whose listing fits the buffer: woken for
-- NLST, the data thread sends one message and ends well, and the client prints from its body exactly the
-- names of the directory, in order.
pub nlst_delivers :
    (i : ℕ) (t : DataThread) (files : Files) (memory : List ℕ) (s : System) (names : List Text)
    (fopen_ok : Bool) (file_name : Text)
    → s.server.data_command ≡ Command.nlst
    → files.opendir s.server.relative_path ≡ some names
    → All IsEntry names
    → length (listing names) < max_buffer_size
    → (transfer i t files memory s ≡ delivered i t (listing names) s)
      × (deliver Command.nlst fopen_ok file_name (listing names) ≡ printed names)
unfolding transfer get_directory_entries deliver
nlst_delivers i t files memory s names fopen_ok file_name command opens entries fits = (
  ground (arith, list_entries-listing [] names (omega arith), sends i t (listing names) s fits),
  ap printed (tokens-listing names entries),
)

-- For a text file with no NUL that is shorter than the buffer, whose path fits `filePath`, and a block of
-- `malloc` with a NUL just behind the contents: woken for RETR, the data thread sends one message and
-- ends well, and the client writes exactly the contents of the file, under its name with "fromServer"
-- behind it.
pub retr_delivers :
    (i : ℕ) (t : DataThread) (files : Files) (memory : List ℕ) (s : System) (name contents : Text)
    → s.server.data_command ≡ Command.retr
    → s.server.file_name ≡ some name
    → length s.server.relative_path + length name < max_relative_path_length
    → length name + 10 < max_relative_path_length
    → files.fopen (s.server.relative_path ++ name) ≡ some contents
    → IsText contents
    → length contents < max_buffer_size
    → get_elem? memory (length contents) ≡ some 0
    → (transfer i t files memory s ≡ delivered i t contents s)
      × (deliver Command.retr true name contents ≡ wrote (name ++ codes "fromServer") contents)
unfolding transfer get_stream_from_file deliver
retr_delivers i t files memory s name contents command named path_fits name_fits opens text fits
      ends =
    (
      ground (
        arith,
        strcat_fits max_relative_path_length s.server.relative_path name path_fits,
        c_string-fread contents memory text (omega arith) ends,
        sends i t contents s fits,
      ),
      rw (
          lt→ltb (length (name ++ codes "fromServer")) max_relative_path_length
            (omega (arith, length-append name (codes "fromServer")))),
    )
