-- ===== src/Ftp/Server/Connection.antt =====
-- FTP/server.c: the end of a stream, which `main` does not notice, and the end of the list of ports.
use hyu_2021_network_protoco.Common.{
  ℕ, zero, suc, ◌≤◌, ◌≡◌, ◌↔◌, refl, [], ◌∷◌, arith, ltb, ltb→lt, subst, Bool-cases, inl, inr,
  replicate, get_elem?-none,
}
use hyu_2021_network_protoco.Clib.Text.{Text, codes, text_eq}
use hyu_2021_network_protoco.Ftp.Protocol.{
  unknown, logged_in, to_lowercase, interpret_lower, interpret,
}
use hyu_2021_network_protoco.Ftp.Server.State.{Server, ports, crash, respond, Create}
use hyu_2021_network_protoco.Ftp.Server.Execute.{Surroundings, dispatch, execute, execute_pasv}
use hyu_2021_network_protoco.Ftp.Server.Total.{Answers, pasv-Answers}
use hyu_2021_network_protoco.Ftp.Server.System.{
  new_message, receiving, Output, control, closed, received, send_control, conclude, handle,
  receive, main_step, step, run,
}

abbrev pub answer : ℕ → Text → Output
answer status text = control (record { status = status; command = []; body = text })

interpret-nil : interpret [] ≡ unknown
unfolding interpret to_lowercase interpret_lower text_eq
interpret-nil = refl

closed_step :
    (e : Surroundings) (s : Server)
    → step (received e closed) (record { server = s; main = receiving })
      ≡ (record { server = s; main = receiving }, answer 404 (codes "unknown command") ∷ [])
unfolding step main_step receive handle execute dispatch respond conclude send_control new_message
closed_step e s = rw interpret-nil refl

-- When the client has closed its side, the server answers 404 for every round of its loop, however many
-- there are, and does not go back to `accept`.
pub closed_stream_loops :
    (e : Surroundings) (s : Server) (rounds : ℕ)
    → run (record { server = s; main = receiving }) (replicate rounds (received e closed)) ≡ (
      record { server = s; main = receiving },
      replicate rounds (answer 404 (codes "unknown command")),
    )
unfolding run
closed_stream_loops e s zero = refl
closed_stream_loops e s (suc rounds) = rw (closed_step e s, closed_stream_loops e s rounds) refl

-- In a session that is logged in PASV reads past the list of ports exactly if 18 or more were taken
-- from it before.
pub pasv_exhausts :
    (made : Create) (s : Server)
    → s.auth_status ≡ logged_in
    → ((execute_pasv made s).0 ≡ crash) ↔ (18 ≤ s.port_idx)
unfolding execute_pasv
pasv_exhausts made s login = (
  λ h. elim (Bool-cases (ltb s.port_idx 18)) [
    | inl left ↦ absurd (subst Answers h (pasv-Answers made s (ltb→lt s.port_idx 18 left)))
    | inr none_left ↦ ground arith
  ],
  λ h. ground (arith, get_elem?-none ports s.port_idx h),
)
