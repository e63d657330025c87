-- ===== src/Ftp/Server/State.antt =====
-- The globals of FTP/server.c, what a call of `execute` can end in, and what the server asks of the
-- operating system.
use hyu_2021_network_protoco.Common.{
  ℕ, Bool, true, List, [], ◌∷◌, Option, none, some, if◌then◌else◌, ltb, length, get_elem?, set,
}
use hyu_2021_network_protoco.Clib.Text.{Text, codes}
use hyu_2021_network_protoco.Ftp.Protocol.{
  Command, AuthorizationStatus, not_logged_in, unknown, max_buffer_size,
}

abbrev pub user_id : Text
user_id = codes "auaicn"

abbrev pub user_password : Text
user_password = codes "thislove1!"

-- Where a data thread stands: before its socket is bound, in `pthread_cond_wait`, past it, or at
-- its end with the pointer that it returns (whether that is not NULL).
pub data Phase : Type 0 where
  opening waiting woken : Phase
  done : Bool → Phase

-- A data thread and the argument that it was created with.
pub record DataThread : Type 0 where
  pub number : ℕ
  pub phase : Phase

pub record Server : Type 0 where
  pub data_command : Command
  pub auth_status : AuthorizationStatus
  pub ascii_mode : Bool
  pub relative_path : Text
  pub file_name : Option Text
  pub port_idx : ℕ
  pub data_threads : List DataThread  -- all that were created, in order
  pub data_server_fd : Option ℕ  -- the number that the data socket opened last was bound to, if it was
  pub data_thread : Option ℕ  -- the handle `dataThread`, an index of `data_threads`

-- The globals when `main` has set `relativePath`.
abbrev pub initial : Server
initial = record {
  data_command = unknown;
  auth_status = not_logged_in;
  ascii_mode = true;
  relative_path = codes "./";
  file_name = none;
  port_idx = 0;
  data_threads = [];
  data_server_fd = none;
  data_thread = none;
}

abbrev pub ports : List ℕ
ports =
    1025 ∷ 1026 ∷ 1027 ∷ 1028 ∷ 1197 ∷ 1235 ∷ 1236 ∷ 12347 ∷ 12348 ∷ 12342 ∷ 4321 ∷ 2311 ∷ 1239
    ∷ 1184 ∷ 1216 ∷ 1193 ∷ 1143 ∷ 1266 ∷ []

-- What `execute` comes to: it returns a status beside the response text, or waits in
-- `pthread_join`; `exited` is the `exit` of `handle_error`, `crash` is undefined behaviour.
pub data Outcome : Type 0 where
  reply : (status : ℕ) → (text : Text) → Outcome
  joining : Outcome
  exited crash : Outcome

-- `sprintf(responseMessage, …); return status;` into a buffer of `MAX_BUFFER_SIZE` bytes.
unfoldable pub respond : ℕ → Text → Outcome
respond status text = if ltb (length text) max_buffer_size then reply status text else crash

-- The server's file system, at the moment of a call: `opendir` with the names of `readdir`, and
-- `fopen` with the bytes of the file.
pub record Files : Type 0 where
  pub opendir : Text → Option (List Text)
  pub fopen : Text → Option (List ℕ)

-- What `pthread_create` does: it makes the thread, or returns an error number, or -1.
pub data Create : Type 0 where
  created failed returned_minus_one : Create

-- Wake the first thread that waits.
unfoldable pub wake_first : List DataThread → List DataThread
wake_first [] = []
wake_first (t ∷ ts) = elim t.phase [
  | waiting ↦ (record t { phase = woken }) ∷ ts
  | _ ↦ t ∷ wake_first ts
]

-- `pthread_cond_signal(&gcond)`: one thread that waits goes on, if there is one. Which one is up to
-- the scheduler: thread `pick` if that waits.
unfoldable pub signal : ℕ → List DataThread → List DataThread
signal pick ts = elim (get_elem? ts pick) [
  | none ↦ wake_first ts
  | some t ↦ elim t.phase [ waiting ↦ set ts pick (record t { phase = woken }) | _ ↦ wake_first ts ]
]
