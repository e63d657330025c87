-- ===== src/Ftp/Exchange/Address.antt =====
-- The port of a data connection: in the answers to PASV and PORT, and in the body of PORT.
use hyu_2021_network_protoco.Common.{
  ℕ, ◌+◌, ◌*◌, ◌/◌, ◌%◌, ◌^◌, ◌≤◌, ◌<◌, ◌≡◌, ◌∙◌, refl, ap, true, false, List, [], ◌∷◌, ◌++◌, some,
  if◌then◌else◌, ◌==◌, arith, All, All-append,
}
use hyu_2021_network_protoco.Clib.Text.{Text, codes, elem, isspace}
use hyu_2021_network_protoco.Clib.Strtok.{skip, word, after, strtok, first_token, tokens}
use hyu_2021_network_protoco.Clib.Strtok.Laws.{
  IsWord, is_word_sound, tokens_delim, tokens_word, strtok_last, tokens_last,
}
use hyu_2021_network_protoco.Clib.Decimal.{
  int32, isdigit, digits_value, skip_space, signed_value, atoi, decimal, print_int,
}
use hyu_2021_network_protoco.Clib.Decimal.Laws.{
  IsDigit, decimal-IsDigit, atoi-decimal, length-decimal, decimal-cons,
}
use hyu_2021_network_protoco.Ftp.Protocol.{Command, comma_whitespaces}
use hyu_2021_network_protoco.Ftp.Server.Execute.{passive_text}
use hyu_2021_network_protoco.Ftp.Client.{decoded, decode_address, data_port_of, second_token}

-- The delimiters of the protocol are no digits.
digit_no_delimiter : (c : ℕ) → IsDigit c → elem c comma_whitespaces ≡ false
unfolding elem
digit_no_delimiter c h = ground arith

digits-IsWord : (s : Text) → All IsDigit s → IsWord comma_whitespaces s
digits-IsWord [] h = tt
digits-IsWord (c ∷ s) h = (digit_no_delimiter c h.0, digits-IsWord s h.1)

comma_delimiter : elem b',' comma_whitespaces ≡ true
unfolding elem
comma_delimiter = refl

space_delimiter : elem 32 comma_whitespaces ≡ true
unfolding elem
space_delimiter = refl

-- A number in front of a comma, and a number at the end, are tokens.
pub tokens_number :
    (n : ℕ) (s : Text)
    → tokens comma_whitespaces (decimal n ++ b',' ∷ s) ≡ decimal n ∷ tokens comma_whitespaces s
tokens_number n s =
    let (c, w, e) = decimal-cons n in
    rw e (
      tokens_word comma_whitespaces c w b',' s
        (rw e at (digits-IsWord (decimal n) (decimal-IsDigit n))) comma_delimiter)

pub tokens_last_number : (n : ℕ) → tokens comma_whitespaces (decimal n) ≡ decimal n ∷ []
tokens_last_number n =
    let (c, w, e) = decimal-cons n in
    rw e
      (tokens_last comma_whitespaces c w (rw e at (digits-IsWord (decimal n) (decimal-IsDigit n))))

-- What an octet does to the port that was decoded so far.
abbrev pub shift_in : ℕ → ℕ → ℕ
shift_in number value = if value == 0 then number else int32 (int32 (number * 256) + value)

-- Past the four numbers of the address, the loop of the client shifts the numbers in, and leaves out
-- those that are 0.
decode_octet :
    (idx address number value : ℕ) (ts : List Text)
    → 4 ≤ idx
    → value < 1000
    → decode_address idx address number (decimal value ∷ ts)
      ≡ decode_address (idx + 1) address (shift_in number value) ts
unfolding decode_address
decode_octet idx address number value ts past small =
    ground (arith, atoi-decimal value, length-decimal value 2)

pub print_int-decimal : (n : ℕ) → n < 2 ^ 31 → print_int n ≡ decimal n
unfolding print_int
print_int-decimal n h = ground arith

digit_no_bar : (c d : ℕ) → IsDigit c → b'9' < d → elem c (d ∷ []) ≡ false
unfolding elem
digit_no_bar c d h k = ground arith

pub digits-no_bar : (s : Text) (d : ℕ) → All IsDigit s → b'9' < d → IsWord (d ∷ []) s
digits-no_bar [] d h k = tt
digits-no_bar (c ∷ s) d h k = (digit_no_bar c d h.0 k, digits-no_bar s d h.1 k)

-- The two octets as they stand in the text of PASV.
abbrev octets : ℕ → ℕ → Text
octets a b = decimal a ++ (b',' ∷ decimal b)

octets-no_bar : (a b : ℕ) → IsWord (b'|' ∷ []) (octets a b)
unfolding elem
octets-no_bar a b =
    All-append _ (decimal a) (b',' ∷ decimal b)
      (digits-no_bar (decimal a) b'|' (decimal-IsDigit a) (omega arith))
      (refl, digits-no_bar (decimal b) b'|' (decimal-IsDigit b) (omega arith))

abbrev host : Text
host = codes "192,168,0,1,"

pub second_token_is :
    (d text w rest t r : Text)
    → strtok d text ≡ some (w, rest)
    → strtok d rest ≡ some (t, r)
    → second_token d text ≡ some t
unfolding second_token first_token
second_token_is d text w rest t r h k = ground arith

passive_head :
    (a b : ℕ)
    → strtok (b'|' ∷ []) (codes "Entering Passive Mode | 192,168,0,1," ++ octets a b)
      ≡ some (codes "Entering Passive Mode ", 32 ∷ (host ++ octets a b))
unfolding strtok skip word after elem
passive_head a b = refl

passive_address :
    (a b : ℕ)
    → second_token (b'|' ∷ []) (codes "Entering Passive Mode | 192,168,0,1," ++ octets a b)
      ≡ some (32 ∷ (host ++ octets a b))
unfolding elem
passive_address a b =
    second_token_is (b'|' ∷ []) _ _ _ (32 ∷ (host ++ octets a b)) [] (passive_head a b) (
      strtok_last (b'|' ∷ []) 32 (host ++ octets a b) (
        All-append _ (32 ∷ host) (octets a b) (is_word_sound (b'|' ∷ []) (32 ∷ host) refl)
          (octets-no_bar a b)))

passive_tokens :
    (a b : ℕ)
    → tokens comma_whitespaces (32 ∷ (host ++ octets a b))
      ≡ codes "192" ∷ codes "168" ∷ codes "0" ∷ codes "1" ∷ decimal a ∷ decimal b ∷ []
unfolding elem
passive_tokens a b =
    let d : Text = comma_whitespaces in
    tokens_delim d 32 (host ++ octets a b) refl
    ∙ tokens_word d b'1' (codes "92") b',' (codes "168,0,1," ++ octets a b)
        (is_word_sound d (codes "192") refl) refl
    ∙ ap (λ ts. codes "192" ∷ ts)
        (tokens_word d b'1' (codes "68") b',' (codes "0,1," ++ octets a b)
            (is_word_sound d (codes "168") refl) refl
          ∙ ap (λ ts. codes "168" ∷ ts)
              (tokens_word d b'0' [] b',' (codes "1," ++ octets a b) (refl, tt) refl
                ∙ ap (λ ts. codes "0" ∷ ts)
                    (tokens_word d b'1' [] b',' (octets a b) (refl, tt) refl
                      ∙ ap (λ ts. codes "1" ∷ ts)
                          (tokens_number a (decimal b)
                            ∙ ap (λ ts. decimal a ∷ ts) (tokens_last_number b)))))

decode_host :
    (ts : List Text)
    → decode_address 0 0 0 (codes "192" ∷ codes "168" ∷ codes "0" ∷ codes "1" ∷ ts)
      ≡ decode_address 4 12625921 0 ts
unfolding decode_address atoi signed_value skip_space isspace digits_value isdigit
decode_host ts = refl

decode_end : (idx address number : ℕ) → decode_address idx address number [] ≡ decoded number
unfolding decode_address
decode_end idx address number = refl

-- The port that the client makes of the two octets.
abbrev pub joined_octets : ℕ → ℕ → ℕ
joined_octets a b = shift_in (shift_in 0 a) b

decode_octets :
    (a b : ℕ)
    → a < 256
    → b < 256
    → decode_address 4 12625921 0 (decimal a ∷ decimal b ∷ []) ≡ decoded (joined_octets a b)
decode_octets a b ha hb =
    decode_octet 4 12625921 0 a (decimal b ∷ []) (omega arith) (omega arith)
    ∙ decode_octet 5 12625921 (shift_in 0 a) b [] (omega arith) (omega arith)
    ∙ decode_end 6 12625921 (joined_octets a b)

pasv_with_address :
    (body address : Text)
    → second_token (b'|' ∷ []) body ≡ some address
    → data_port_of Command.pasv body ≡ decode_address 0 0 0 (tokens comma_whitespaces address)
unfolding data_port_of
pasv_with_address body address h = rw (h, data_port_of)

passive_octets :
    (a b : ℕ)
    → a < 256
    → b < 256
    → data_port_of Command.pasv (codes "Entering Passive Mode | 192,168,0,1," ++ octets a b)
      ≡ decoded (joined_octets a b)
passive_octets a b ha hb =
    pasv_with_address (codes "Entering Passive Mode | 192,168,0,1," ++ octets a b) _
      (passive_address a b)
    ∙ ap (decode_address 0 0 0) (passive_tokens a b)
    ∙ decode_host (decimal a ∷ decimal b ∷ [])
    ∙ decode_octets a b ha hb

-- For every port number the client decodes the answer to PASV to the port that the server opened, but
-- where the lower octet is 0: that it leaves out, and takes the upper octet for the port.
pub passive_port :
    (number : ℕ)
    → number < 65536
    → data_port_of Command.pasv (passive_text number)
      ≡ decoded (if number % 256 == 0 then number / 256 else number)
unfolding passive_text
passive_port number h =
    let a : ℕ = number / 256 in
    let b : ℕ = number % 256 in
    let joins : joined_octets a b ≡ (if b == 0 then a else number) = ground arith in
    rw (print_int-decimal a (omega arith), print_int-decimal b (omega arith))
      (passive_octets a b (omega arith) (omega arith) ∙ ap decoded joins)
