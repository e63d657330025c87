-- ===== src/Publisher/Process.antt =====
-- publisher.cpp as a process: the files that it opens, the socket of `post`, and the descriptors that these take.
pub mod Descriptors
pub mod Leak
pub mod Posts
use hyu_2021_network_protoco.Common.{
  ℕ, ◌+◌, Bool, true, false, ◌&&◌, List, [], ◌∷◌, ◌++◌, none, some, if◌then◌else◌, ltb, length,
}
use hyu_2021_network_protoco.Clib.Text.{Text, c_string}
use hyu_2021_network_protoco.Broker.{Message}
use hyu_2021_network_protoco.Publisher.{
  max_topic_length, max_filename_length, Disk, is_valid_file_name, read_from_file, Prompt, topic,
  crashed, file_name,
}

-- What `send` does: it takes the whole message; it returns -1; or it raises SIGPIPE.
pub data Sending : Type 0 where
  whole failed broken : Sending

-- What the operating system answers in `post`, where a descriptor is left.
pub record Answers : Type 0 where
  pub socket_ok : Bool
  pub option_ok : Bool
  pub connect_ok : Bool
  pub sending : Sending

-- `post` returns 0 behind a message that was sent or lost, returns -1, or the process ends in it.
pub data Posted : Type 0 where
  sent lost refused ended : Posted

-- Where `main` stands, and how many descriptors are open.
pub record Process : Type 0 where
  pub prompt : Prompt
  pub files : ℕ
  pub running : Bool

abbrev pub Result : Type 0
Result = Process × List Message

-- What `post` comes to behind its `send`; the socket is closed then.
unfoldable pub after_send : Sending → Posted
after_send whole = sent
after_send failed = lost
after_send broken = ended

-- `exit`, `return 0` in `main`, a signal
abbrev halt : Process → Process
halt p = record p { running = false }

-- `main` behind `post`
unfoldable pub conclude : Posted → Message → Process → Result
conclude sent m p = (p, m ∷ [])
conclude lost m p = (p, [])
conclude refused m p = (halt p, [])
conclude ended m p = (halt p, [])

module _ (limit : ℕ) where
  -- `fopen` of a process that has as many descriptors open: none beyond the limit.
  abbrev pub fopen : Disk → ℕ → Disk
  fopen disk files name = if ltb files limit then disk name else none

  -- The descriptors that are open behind a `fopen`: nothing closes a file.
  unfoldable pub opened : Disk → Text → ℕ → ℕ
  opened disk name files = elim (fopen disk files name) [ none ↦ files | some _ ↦ files + 1 ]

  -- `post`
  unfoldable pub post : Answers → ℕ → Posted
  post a files =
      if ltb files limit && a.socket_ok
      then if a.option_ok then if a.connect_ok then after_send a.sending else ended else refused
      else ended

  -- `main` behind the loop over names: `readFromFile`, and `post`.
  unfoldable pub send_file : Disk → Answers → Text → Text → Process → Result
  send_file disk a t name p =
      let q : Process = record p { prompt = topic; files = opened disk name p.files } in
      conclude (post a q.files)
        (record { topic = t; contents = c_string (read_from_file (fopen disk p.files) name) }) q

  -- A word for a file name: `isValidFileName` leaves the file open, and `main` goes on.
  unfoldable pub name_entered : Disk → Answers → Text → Text → Process → Result
  name_entered disk a t name p =
      if ltb (length name) max_filename_length
      then if is_valid_file_name (fopen disk p.files) name
        then send_file disk a t name (record p { files = opened disk name p.files })
        else (p, [])
      else (record p { prompt = crashed; running = false }, [])

  unfoldable pub prompted : Disk → Answers → Text → Prompt → Process → Result
  prompted disk a word topic p =
      if ltb (length word) max_topic_length
      then (record p { prompt = file_name word }, [])
      else (record p { prompt = crashed; running = false }, [])
  prompted disk a word (file_name t) p = name_entered disk a t word p
  prompted disk a word crashed p = (p, [])

  -- One word from the user, and what the operating system answers if it leads to `post`.
  unfoldable pub step : Disk → Text × Answers → Process → Result
  step disk (word, a) p = if p.running then prompted disk a word p.prompt p else (p, [])

  unfoldable pub run : Disk → Process → List (Text × Answers) → Result
  run disk p [] = (p, [])
  run disk p (e ∷ es) =
      let (q, out) = step disk e p in let (r, outs) = run disk q es in (r, out ++ outs)
