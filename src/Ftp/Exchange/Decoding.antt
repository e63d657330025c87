-- ===== src/Ftp/Exchange/Decoding.antt =====
-- The two loops that decode an address: `execute` of FTP/server.c in the case port, and `dataThreadRoutine` of
-- FTP/client.c.
use hyu_2021_network_protoco.Common.{
  ℕ, ◌+◌, ◌*◌, ◌≡◌, refl, List, [], ◌∷◌, Option, none, some, arith,
}
use hyu_2021_network_protoco.Clib.Text.{Text}
use hyu_2021_network_protoco.Clib.Decimal.{int32, atoi}
use hyu_2021_network_protoco.Ftp.Server.Execute.{decode_port}
use hyu_2021_network_protoco.Ftp.Client.{DataPort, decoded, malformed, decode_address}

-- The server refuses what the client's thread ends at.
abbrev pub as_data_port : Option ℕ → DataPort
as_data_port none = malformed
as_data_port (some n) = decoded n

-- On every list of tokens, whatever the length and however the numbers wrap, the client's loop comes to the
-- port that the server's loop comes to, or is malformed exactly where the server's refuses; from the same
-- token and the same port so far, whatever they have of the address.
pub decode_address-decode_port :
    (idx address host number : ℕ) (ts : List Text)
    → decode_address idx address number ts ≡ as_data_port (decode_port idx host number ts)
unfolding decode_address decode_port
decode_address-decode_port idx address host number [] = refl
decode_address-decode_port idx address host number (t ∷ ts) =
    let value = atoi t in
    ground (
      arith,
      decode_address-decode_port (idx + 1) address host number ts,
      decode_address-decode_port (idx + 1) (int32 (int32 (address * 256) + value))
          (int32 (int32 (host * 256) + value)) number ts,
      decode_address-decode_port (idx + 1) address host (int32 (int32 (number * 256) + value)) ts,
    )
