-- ===== src/Ftp/Exchange/Agreement.antt =====
-- The ports of the two data threads after PASV and after PORT.
use hyu_2021_network_protoco.Common.{
  ℕ, ◌+◌, ◌*◌, ◌/◌, ◌%◌, ◌^◌, ◌<◌, ◌≡◌, ◌≢◌, ◌∙◌, refl, ap, List, [], ◌∷◌, ◌++◌, some,
  if◌then◌else◌, ltb, ◌==◌, arith, length, length-append, All, All-get_elem?, get_elem?,
}
use hyu_2021_network_protoco.Clib.Text.{Text, codes, elem}
use hyu_2021_network_protoco.Clib.Strtok.{skip, word, after, strtok, tokens}
use hyu_2021_network_protoco.Clib.Strtok.Laws.{strtok_last}
use hyu_2021_network_protoco.Clib.Decimal.{atoi, decimal}
use hyu_2021_network_protoco.Clib.Decimal.Laws.{
  decimal-IsDigit, atoi-decimal, length-decimal, decimal-cons,
}
use hyu_2021_network_protoco.Ftp.Protocol.{
  Command, logged_in, mode_selected, comma_whitespaces, max_buffer_size,
}
use hyu_2021_network_protoco.Ftp.Server.State.{Server, Outcome, reply, opening, created, ports}
use hyu_2021_network_protoco.Ftp.Server.Execute.{
  passive_text, active_text, decode_port, start_data_thread, execute_pasv, execute_port,
}
use hyu_2021_network_protoco.Ftp.Server.Replies.{respond_fits}
use hyu_2021_network_protoco.Ftp.Client.{decoded, data_port_of, second_token}
use hyu_2021_network_protoco.Ftp.Exchange.Address.{
  tokens_number, tokens_last_number, print_int-decimal, digits-no_bar, second_token_is, shift_in,
  passive_port,
}

-- The answer `out`, with the state that the server is then in: a reply from which the client decodes
-- `number`, and a new data thread on `number` behind those of `before`.
pub record Agreed (number status : ℕ) (c : Command) (before : Server) (out : Outcome × Server)
    : Type 0 where
  pub text : Text
  pub answer : out.0 ≡ reply status text
  pub decodes : data_port_of c text ≡ decoded number
  pub opens :
      out.1.data_threads ≡ before.data_threads ++ (record { number = number; phase = opening }) ∷ []
  pub handle : out.1.data_thread ≡ some (length before.data_threads)
  pub mode : out.1.auth_status ≡ mode_selected

-- A port number whose lower octet is not 0.
abbrev pub IsListed : ℕ → Type 0
IsListed n = (n < 65536) × (n % 256 ≢ 0)

-- All ports of the server's list are such.
pub ports_sound : All IsListed ports
-- All ports of the server's list are such.
ports_sound = omega arith

pub length-passive_text : (n : ℕ) → n < 65536 → length (passive_text n) < max_buffer_size
unfolding passive_text
length-passive_text n h =
    let a = length-decimal (n / 256) 2 (omega arith) in
    let b = length-decimal (n % 256) 2 (omega arith) in
    rw (print_int-decimal (n / 256) (omega arith), print_int-decimal (n % 256) (omega arith))
      (omega (arith, length-append (decimal (n / 256)) (b',' ∷ decimal (n % 256))))

-- In a session that is logged in, with a port of the list left, if the thread is made: PASV is
-- answered with 227, the client decodes the answer to the very port that the new data thread was
-- created with, that thread is the one to join, and the mode is selected.
pub passive-Agreed :
    (s : Server) (n : ℕ)
    → s.auth_status ≡ logged_in
    → get_elem? ports s.port_idx ≡ some n
    → Agreed n 227 Command.pasv s (execute_pasv created s)
unfolding execute_pasv start_data_thread
passive-Agreed s n login listed =
    let (small, octet) = All-get_elem? IsListed ports s.port_idx ports_sound listed in
    record {
      text = passive_text n;
      answer = ground (arith, respond_fits 227 (passive_text n) (length-passive_text n small));
      decodes = ground (arith, passive_port n small);
      opens = ground arith;
      handle = ground arith;
      mode = ground arith;
    }

atoi_last :
    (n : ℕ) (body : Text)
    → second_token (b':' ∷ []) body ≡ some (decimal n)
    → data_port_of Command.port body ≡ decoded (atoi (decimal n))
unfolding data_port_of
atoi_last n body h = rw (h, data_port_of)

active_head :
    (s : Text)
    → strtok (b':' ∷ []) (codes "Port command successful :" ++ s)
      ≡ some (codes "Port command successful ", s)
unfolding strtok skip word after elem
active_head s = refl

-- The client reads the port back from the answer to PORT.
pub active_port : (n : ℕ) → n < 2 ^ 31 → data_port_of Command.port (active_text n) ≡ decoded n
unfolding active_text
active_port n h =
    let (c, w, e) = decimal-cons n in
    let whole : strtok (b':' ∷ []) (decimal n) ≡ some (decimal n, []) = rw e (
      strtok_last (b':' ∷ []) c w
        (rw e at (digits-no_bar (decimal n) b':' (decimal-IsDigit n) (omega arith)))) in
    rw (print_int-decimal n h) (
      atoi_last n _
        (second_token_is (b':' ∷ []) _ _ _ (decimal n) [] (active_head (decimal n)) whole)
      ∙ ap decoded (atoi-decimal n h))

pub length-active_text : (n : ℕ) → n < 65536 → length (active_text n) < max_buffer_size
unfolding active_text
length-active_text n h =
    rw (print_int-decimal n (omega arith)) (omega (arith, length-decimal n 4 (omega arith)))

-- The server's loop over one number of the body: the first four go to the address.
decode_number :
    (idx address number value : ℕ) (ts : List Text)
    → value < 1000
    → decode_port idx address number (decimal value ∷ ts) ≡ (
        if ltb idx 4
        then decode_port (idx + 1) (shift_in address value) number ts
        else decode_port (idx + 1) address (shift_in number value) ts)
unfolding decode_port
decode_number idx address number value ts small =
    ground (arith, atoi-decimal value, length-decimal value 2)

-- The body of PORT: the address and the port in six numbers.
abbrev pub port_body : ℕ → ℕ → ℕ → ℕ → ℕ → ℕ → Text
port_body h1 h2 h3 h4 a b =
    decimal h1
    ++ b','
      ∷ (decimal h2
          ++ b',' ∷ (decimal h3 ++ b',' ∷ (decimal h4 ++ b',' ∷ (decimal a ++ b',' ∷ decimal b))))

port_tokens :
    (h1 h2 h3 h4 a b : ℕ)
    → tokens comma_whitespaces (port_body h1 h2 h3 h4 a b)
      ≡ decimal h1 ∷ decimal h2 ∷ decimal h3 ∷ decimal h4 ∷ decimal a ∷ decimal b ∷ []
port_tokens h1 h2 h3 h4 a b = simp (tokens_number, tokens_last_number)

decode_port_end : (idx address number : ℕ) → decode_port idx address number [] ≡ some number
unfolding decode_port
decode_port_end idx address number = refl

decode_body :
    (h1 h2 h3 h4 a b : ℕ)
    → All (λ h. h < 256) (h1 ∷ h2 ∷ h3 ∷ h4 ∷ a ∷ b ∷ [])
    → decode_port 0 0 0
        (decimal h1 ∷ decimal h2 ∷ decimal h3 ∷ decimal h4 ∷ decimal a ∷ decimal b ∷ [])
      ≡ some (shift_in (shift_in 0 a) b)
decode_body h1 h2 h3 h4 a b small =
    decode_number 0 0 0 h1 _ (omega arith)
    ∙ decode_number 1 (shift_in 0 h1) 0 h2 _ (omega arith)
    ∙ decode_number 2 (shift_in (shift_in 0 h1) h2) 0 h3 _ (omega arith)
    ∙ decode_number 3 address 0 h4 _ (omega arith)
    ∙ decode_number 4 (shift_in address h4) 0 a _ (omega arith)
    ∙ decode_number 5 (shift_in address h4) (shift_in 0 a) b [] (omega arith)
    ∙ decode_port_end 6 (shift_in address h4) (shift_in (shift_in 0 a) b)
  where
    address : ℕ
    address = shift_in (shift_in (shift_in 0 h1) h2) h3

-- The port that both ends make of the last two numbers of PORT.
abbrev pub active_number : ℕ → ℕ → ℕ
active_number a b = if b == 0 then a else a * 256 + b

pub active_range : (a b : ℕ) → a < 256 → b < 256 → active_number a b < 65536
active_range a b ha hb = ground arith

pub port_decoded :
    (h1 h2 h3 h4 a b : ℕ)
    → All (λ h. h < 256) (h1 ∷ h2 ∷ h3 ∷ h4 ∷ a ∷ b ∷ [])
    → decode_port 0 0 0 (tokens comma_whitespaces (port_body h1 h2 h3 h4 a b))
      ≡ some (active_number a b)
port_decoded h1 h2 h3 h4 a b small =
    let joins : shift_in (shift_in 0 a) b ≡ active_number a b = ground arith in
    ap (decode_port 0 0 0) (port_tokens h1 h2 h3 h4 a b)
    ∙ decode_body h1 h2 h3 h4 a b small
    ∙ ap some joins

-- In a session that is logged in, if the thread is made: PORT with six numbers below 256 is
-- answered with 200, the client decodes the answer to the very port that the new data thread was
-- created with, that thread is the one to join, and the mode is selected. The port is the number
-- with the upper and lower octets given, but the upper octet alone where the lower is 0.
pub active-Agreed :
    (s : Server) (h1 h2 h3 h4 a b : ℕ)
    → s.auth_status ≡ logged_in
    → All (λ h. h < 256) (h1 ∷ h2 ∷ h3 ∷ h4 ∷ a ∷ b ∷ [])
    → Agreed
        (active_number a b)
        200
        Command.port
        s
        (execute_port created (port_body h1 h2 h3 h4 a b) s)
unfolding execute_port start_data_thread
active-Agreed s h1 h2 h3 h4 a b login small =
    let n : ℕ = active_number a b in
    let range : n < 65536 = active_range a b (omega arith) (omega arith) in
    let parsed = port_decoded h1 h2 h3 h4 a b small in
    record {
      text = active_text n;
      answer =
          ground (arith, parsed, respond_fits 200 (active_text n) (length-active_text n range));
      decodes = active_port n (omega arith);
      opens = ground arith;
      handle = ground arith;
      mode = ground arith;
    }
