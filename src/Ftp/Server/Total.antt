-- ===== src/Ftp/Server/Total.antt =====
-- Where `execute` is sure to answer: what keeps its texts within their buffers, and its pointers valid.
use hyu_2021_network_protoco.Common.{
  ℕ, ◌+◌, ◌-◌, ◌*◌, ◌/◌, ◌%◌, ◌^◌, ◌≤◌, ◌<◌, ◌≡◌, ◌⊎◌, inl, inr, Bool, true, false, List, [], ◌∷◌,
  ◌++◌, some, lt→ltb, arith, Option-cases, length, length-append, get_elem?, get_elem?-some,
  All-get_elem?,
}
use hyu_2021_network_protoco.Clib.Text.{Text, codes}
use hyu_2021_network_protoco.Clib.Strtok.{first_token, tokens}
use hyu_2021_network_protoco.Clib.Strtok.Laws.{length-first_token}
use hyu_2021_network_protoco.Clib.Decimal.{int32, atoi, print_int}
use hyu_2021_network_protoco.Clib.Decimal.Laws.{length-decimal}
use hyu_2021_network_protoco.Ftp.Protocol.{
  Command, Message, whitespaces, comma_whitespaces, max_buffer_size, interpret,
}
use hyu_2021_network_protoco.Ftp.Server.State.{
  Server, ports, Outcome, reply, joining, exited, crash, respond, Files, Create, created, failed,
  returned_minus_one,
}
use hyu_2021_network_protoco.Ftp.Server.Directory.{
  strcat, found, valid_directory_entry, refused, changed, change_working_directory, scan_entries,
}
use hyu_2021_network_protoco.Ftp.Server.Execute.{
  Surroundings, execute_user, execute_pass, execute_nlst, execute_retr, retr_named, announce,
  execute_cwd, execute_quit, execute_type, set_type, start_data_thread, passive_text, active_text,
  execute_pasv, decode_port, execute_port, dispatch, execute,
}

-- The call comes back with an answer, or waits for the data thread.
abbrev pub Answers : Outcome → Type 0
Answers (reply status text) = Unit
Answers joining = Unit
Answers exited = ⊥
Answers crash = ⊥

-- The body has a first word, and the directory opens.
pub record Named (files : Files) (path body : Text) : Type 0 where
  pub name : Text
  pub names : List Text
  pub token : first_token whitespaces body ≡ some name
  pub opens : files.opendir path ≡ some names

respond-Answers :
    (status : ℕ) (text : Text) → length text < max_buffer_size → Answers (respond status text)
unfolding respond
respond-Answers status text h = rw (lt→ltb (length text) max_buffer_size h) tt

announce-Answers : (text : Text) → length text < max_buffer_size → Answers (announce text)
unfolding announce
announce-Answers text h = rw (lt→ltb (length text) max_buffer_size h) tt

user-Answers : (body : Text) (s : Server) → Answers (execute_user body s).0
unfolding execute_user respond
user-Answers body s = ground arith

pass-Answers : (body : Text) (s : Server) → Answers (execute_pass body s).0
unfolding execute_pass respond
pass-Answers body s = ground arith

set_type-Answers : (body : Text) (s : Server) → length body ≤ 900 → Answers (set_type body s).0
unfolding set_type
set_type-Answers [] s h = respond-Answers 401 _ (omega arith)
set_type-Answers (c ∷ []) s h = unfold respond in ground arith
set_type-Answers (c ∷ d ∷ r) s h =
    respond-Answers 401 _
      (omega (arith, length-append (c ∷ d ∷ r) (codes "\" is not a single character.")))

type-Answers : (body : Text) (s : Server) → length body ≤ 900 → Answers (execute_type body s).0
unfolding execute_type respond
type-Answers body s h = ground (arith, set_type-Answers body s h)

nlst-Answers :
    (pick : ℕ) (s : Server) → length s.relative_path ≤ 900 → Answers (execute_nlst pick s).0
unfolding execute_nlst respond
nlst-Answers pick s h = ground (
  arith,
  announce-Answers (codes "Opening data channel of directory listing of " ++ s.relative_path),
  length-append (codes "Opening data channel of directory listing of ") s.relative_path,
)

-- A directory that opens, and a name to look for, lead to an answer of `validDirectoryEntry`.
lookup_found :
    (files : Files) (path t : Text) (es : List Text)
    → files.opendir path ≡ some es
    → (b : Bool) × (valid_directory_entry files path (some t) ≡ found b)
unfolding valid_directory_entry
lookup_found files path t [] h = (false, ground arith)
lookup_found files path t (e ∷ es) h = (scan_entries t false (e ∷ es), ground arith)

retr_named-Answers :
    (pick : ℕ) (t : Text) (b : Bool) (s : Server)
    → length t ≤ 900
    → Answers (retr_named pick (some t) (found b) s).0
unfolding retr_named
retr_named-Answers pick t false s h = respond-Answers 404 _ (omega arith)
retr_named-Answers pick t true s h =
    announce-Answers _ (omega (arith, length-append t (codes "\"")))

retr-Answers :
    (files : Files) (pick : ℕ) (body t : Text) (es : List Text) (s : Server)
    → length body ≤ 900
    → first_token whitespaces body ≡ some t
    → files.opendir s.relative_path ≡ some es
    → Answers (execute_retr files pick body s).0
unfolding execute_retr respond
retr-Answers files pick body t es s h token opens =
    let (b, e) = lookup_found files s.relative_path t es opens in
    let short = length-first_token whitespaces body t token in
    ground (arith, retr_named-Answers pick t b (record s { file_name = some t }))

change_path :
    (files : Files) (path body t : Text) (es : List Text)
    → length path + length body ≤ 900
    → first_token whitespaces body ≡ some t
    → files.opendir path ≡ some es
    → (change_working_directory files path body ≡ refused)
      ⊎ ((change_working_directory files path body ≡ changed (path ++ t))
          × (length (path ++ t) ≤ 900))
unfolding change_working_directory strcat
change_path files path body t es h token opens =
    let (b, e) = lookup_found files path t es opens in
    let short = length-first_token whitespaces body t token in
    let sum = length-append path t in ground arith

cwd-Answers :
    (files : Files) (body t : Text) (es : List Text) (s : Server)
    → length s.relative_path + length body ≤ 900
    → first_token whitespaces body ≡ some t
    → files.opendir s.relative_path ≡ some es
    → Answers (execute_cwd files body s).0
unfolding execute_cwd
cwd-Answers files body t es s h token opens = ground (
  arith,
  change_path files s.relative_path body t es h token opens,
  respond-Answers 401 (codes "operation not authroized. Please login first."),
  respond-Answers 500 (
      codes "changing directory failed. current working directory is \""
      ++ (s.relative_path ++ codes "\"")),
  respond-Answers 226
      (codes "changed current working directory to \"" ++ ((s.relative_path ++ t) ++ codes "\"")),
  length-append s.relative_path (codes "\""),
  length-append (s.relative_path ++ t) (codes "\""),
)

length-print_int : (n : ℕ) → n < 2 ^ 32 → length (print_int n) ≤ 11
unfolding print_int
length-print_int n h = ground (arith, length-decimal n 9, length-decimal (2 ^ 32 - n) 9)

decode_port_bound :
    (ts : List Text) (idx address number n : ℕ)
    → number < 2 ^ 32
    → decode_port idx address number ts ≡ some n
    → n < 2 ^ 32
unfolding decode_port
decode_port_bound [] idx address number n h e = ground arith
decode_port_bound (t ∷ ts) idx address number n h e =
    let value : ℕ = atoi t in
    ground (
      arith,
      decode_port_bound ts (idx + 1) address number n,
      decode_port_bound ts (idx + 1) (int32 (int32 (address * 256) + value)) number n,
      decode_port_bound ts (idx + 1) address (int32 (int32 (number * 256) + value)) n,
    )

start-Answers :
    (made : Create) (number status : ℕ) (text : Text) (s : Server)
    → length text < max_buffer_size
    → Answers (start_data_thread made number status text s).0
unfolding start_data_thread
start-Answers created number status text s h = respond-Answers status text h
start-Answers failed number status text s h = respond-Answers status text h
start-Answers returned_minus_one number status text s h = respond-Answers 500 _ (omega arith)

active_text_fits : (n : ℕ) → n < 2 ^ 32 → length (active_text n) < max_buffer_size
unfolding active_text
active_text_fits n h = omega (arith, length-print_int n h)

passive_text_fits : (n : ℕ) → n < 65536 → length (passive_text n) < max_buffer_size
unfolding passive_text
passive_text_fits n h = omega (
  arith,
  length-append (print_int (n / 256)) (b',' ∷ print_int (n % 256)),
  length-print_int (n / 256) (omega arith),
  length-print_int (n % 256) (omega arith),
)

port-Answers : (made : Create) (body : Text) (s : Server) → Answers (execute_port made body s).0
unfolding execute_port respond
port-Answers made body s = elim (Option-cases (decode_port 0 0 0 (tokens comma_whitespaces body))) [
  | inl e ↦ ground arith
  | inr (n, e) ↦
      let bound = decode_port_bound (tokens comma_whitespaces body) 0 0 0 n (omega arith) e in
      ground (arith, start-Answers made n 200 (active_text n) s (active_text_fits n bound))
]

listed_port : (i n : ℕ) → get_elem? ports i ≡ some n → n < 65536
listed_port i n h = All-get_elem? (λ p. p < 65536) ports i (omega arith) h

pub pasv-Answers : (made : Create) (s : Server) → s.port_idx < 18 → Answers (execute_pasv made s).0
unfolding execute_pasv respond
pasv-Answers made s h =
    let (n, e) = get_elem?-some ports s.port_idx h in
    ground (
      arith,
      start-Answers made n 227 (passive_text n) (record s { port_idx = s.port_idx + 1 })
          (passive_text_fits n (listed_port s.port_idx n e)),
    )

-- What a command asks of the directory and of its body.
abbrev pub HasSubject : Command → Files → Text → Text → Type 0
HasSubject Command.retr files path body = Named files path body
HasSubject Command.cwd files path body = Named files path body
HasSubject _ files path body = Unit

dispatch-Answers :
    (c : Command) (e : Surroundings) (body : Text) (s : Server)
    → length s.relative_path + length body ≤ 900
    → s.port_idx < 18
    → HasSubject c e.files s.relative_path body
    → Answers (dispatch c e body s).0
unfolding dispatch execute_quit respond
dispatch-Answers Command.user e body s fits left h = user-Answers body s
dispatch-Answers Command.pass e body s fits left h = pass-Answers body s
dispatch-Answers Command.nlst e body s fits left h = nlst-Answers e.pick s (omega arith)
dispatch-Answers Command.retr e body s fits left h =
    retr-Answers e.files e.pick body h.name h.names s (omega arith) h.token h.opens
dispatch-Answers Command.cwd e body s fits left h =
    cwd-Answers e.files body h.name h.names s fits h.token h.opens
dispatch-Answers Command.quit e body s fits left h = ground arith
dispatch-Answers Command.type e body s fits left h = type-Answers body s (omega arith)
dispatch-Answers Command.pasv e body s fits left h = pasv-Answers e.create s left
dispatch-Answers Command.port e body s fits left h = port-Answers e.create body s
dispatch-Answers Command.unknown e body s fits left h = ground arith

-- Every request is answered, or waits for its data thread, and no buffer is overrun, as long as the working
-- directory and the body have at most 900 bytes together, a port of the list is left, and for RETR and
-- CWD the directory opens and the body names something.
pub execute-Answers :
    (e : Surroundings) (req : Message) (s : Server)
    → length s.relative_path + length req.body ≤ 900
    → s.port_idx < 18
    → HasSubject (interpret req.command) e.files s.relative_path req.body
    → Answers (execute e req s).0
unfolding execute
execute-Answers e req s fits left h =
    dispatch-Answers (interpret req.command) e req.body s fits left h
