-- ===== src/Ftp/Exchange/Thread.antt =====
-- The turns of the last data thread that was made, whatever is transferred.
use hyu_2021_network_protoco.Common.{
  ℕ, ◌+◌, ◌<◌, ◌≡◌, refl, ap, true, List, [], ◌∷◌, ◌++◌, none, some, arith, length, length-append,
  get_elem?, get_elem?-snoc, set-snoc,
}
use hyu_2021_network_protoco.Clib.Text.{Text, codes}
use hyu_2021_network_protoco.Ftp.Protocol.{Command, logged_in, max_buffer_size}
use hyu_2021_network_protoco.Ftp.Server.State.{
  Phase, opening, waiting, woken, done, Server, respond, signal,
}
use hyu_2021_network_protoco.Ftp.Server.Execute.{after_join}
use hyu_2021_network_protoco.Ftp.Server.System.{
  new_message, receiving, awaiting, System, Output, control, bound, Event, opened, joined,
  send_control, conclude, handle, set_phase, subject, open_socket, at_phase, with_thread,
  finish_join, join_thread, main_step, step, run,
}

-- A message on the control connection.
abbrev pub answer : ℕ → Text → Output
answer status text = control (record { status = status; command = []; body = text })

-- A state of the server with a last data thread in some phase.
abbrev pub with_last : Server → ℕ → Phase → Server
with_last s n p = record s {
  data_threads = s.data_threads ++ (record { number = n; phase = p }) ∷ [];
}

-- The state when the last data thread has bound the data socket.
abbrev pub listening : ℕ → Server → Server
listening n s = record s { data_server_fd = some n }

-- The last data thread, and what a step of it does to the state.
module _ (s : Server) (n : ℕ) (p q : Phase) where
  pub last_thread :
      get_elem? (with_last s n p).data_threads (length s.data_threads)
      ≡ some (record { number = n; phase = p })
  last_thread = get_elem?-snoc s.data_threads (record { number = n; phase = p })

  pub last_moves :
      set_phase (length s.data_threads) (record { number = n; phase = p }) q (with_last s n p)
      ≡ with_last s n q
  last_moves =
      ap (λ ts. record s { data_threads = ts })
        (set-snoc s.data_threads (record { number = n; phase = p })
          (record { number = n; phase = q }))

pub open_step :
    (s : Server) (n : ℕ)
    → step
        (opened (length s.data_threads) true bound)
        (record { server = with_last s n opening; main = receiving })
      ≡ (record { server = with_last (listening n s) n waiting; main = receiving }, [])
unfolding step main_step with_thread at_phase open_socket
open_step s n = ground (arith, last_thread s n opening waiting, last_moves s n opening waiting)

pub signal_last :
    (s : Server) (n : ℕ)
    → signal (length s.data_threads) (with_last s n waiting).data_threads
      ≡ (with_last s n woken).data_threads
unfolding signal
signal_last s n = ground (
  arith,
  last_thread s n waiting woken,
  set-snoc s.data_threads (record { number = n; phase = waiting })
      (record { number = n; phase = woken }),
)

-- The end of a transfer: the state is logged in again, and has no thread to join.
abbrev pub after_transfer : Server → Server
after_transfer s = record s { data_thread = none; auth_status = logged_in }

subject-with_last :
    (c : Command) (s : Server) (n : ℕ) (p : Phase) → subject c (with_last s n p) ≡ subject c s
subject-with_last Command.retr s n p = refl
subject-with_last _ s n p = refl

-- The end of `pthread_join` for a command that transfers.
pub join_step :
    (c : Command) (s : Server) (n : ℕ)
    → s.data_thread ≡ some (length s.data_threads)
    → length (subject c s) + 26 < max_buffer_size
    → step joined (record { server = with_last s n (done true); main = awaiting c }) ≡ (
      record { server = with_last (after_transfer s) n (done true); main = receiving },
      answer 226 (codes "Successfully transferred " ++ (subject c s ++ 10 ∷ [])) ∷ [],
    )
unfolding step main_step join_thread finish_join after_join respond conclude send_control
    new_message
join_step c s n handle fits = ground (
  arith,
  last_thread s n (done true) (done true),
  subject-with_last c s n (done true),
  length-append (subject c s) (10 ∷ []),
)

pub run-cons :
    (e : Event) (es : List Event) (s t u : System) (out outs : List Output)
    → step e s ≡ (t, out)
    → run t es ≡ (u, outs)
    → run s (e ∷ es) ≡ (u, out ++ outs)
unfolding run
run-cons e es s t u out outs h k = rw (h, k) refl

pub run-nil : (s : System) → run s [] ≡ (s, [])
unfolding run
run-nil s = refl
