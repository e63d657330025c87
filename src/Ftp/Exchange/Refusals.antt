-- ===== src/Ftp/Exchange/Refusals.antt =====
-- What the client makes of a refusal.
use hyu_2021_network_protoco.Common.{ℕ, ◌≤◌, ◌≡◌, refl, [], ◌∷◌, none, arith}
use hyu_2021_network_protoco.Clib.Text.{Text, codes, elem}
use hyu_2021_network_protoco.Clib.Strtok.{skip, word, after, strtok, first_token}
use hyu_2021_network_protoco.Ftp.Protocol.{Command}
use hyu_2021_network_protoco.Ftp.Server.State.{Server, reply, respond, Create}
use hyu_2021_network_protoco.Ftp.Server.Execute.{
  login_first, internal_error, start_data_thread, execute_port,
}
use hyu_2021_network_protoco.Ftp.Client.{faults, data_port_of, second_token}

no_number :
    (text : Text) → second_token (b':' ∷ []) text ≡ none → data_port_of Command.port text ≡ faults
unfolding data_port_of
no_number text h = rw (h, data_port_of)

-- The texts of the refusals have no colon.
refusals_without_number :
    (data_port_of Command.port login_first ≡ faults)
    × (data_port_of Command.port (codes "invalid port number encountered. Try Agiain") ≡ faults)
    × (data_port_of Command.port internal_error ≡ faults)
unfolding second_token first_token strtok skip word after elem
refusals_without_number = (no_number _ refl, no_number _ refl, no_number _ refl)

-- Whatever the reason for which the server refuses a PORT, the client's data thread, which looks at no
-- status, calls `atoi` on a NULL pointer.
pub refused_port_faults :
    (made : Create) (body : Text) (s : Server) (status : ℕ) (text : Text)
    → (execute_port made body s).0 ≡ reply status text
    → 400 ≤ status
    → data_port_of Command.port text ≡ faults
unfolding execute_port start_data_thread respond
refused_port_faults made body s status text h error =
    let (login, invalid, internal) = refusals_without_number in ground arith
