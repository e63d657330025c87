-- ===== src/Publisher.antt =====
-- publisher and subscriber architecture/publisher.cpp: the loop of `main` over the words that its user
-- types, which are a topic and then names of files until one opens.
pub mod Reach
pub mod Process
pub mod Tests
use hyu_2021_network_protoco.Common.{
  ℕ, Bool, true, false, List, [], ◌∷◌, ◌++◌, Option, none, some, if◌then◌else◌, ltb, length, take,
  drop, replicate,
}
use hyu_2021_network_protoco.Clib.Text.{Text, c_string}
use hyu_2021_network_protoco.Broker.{Message}

abbrev pub max_topic_length : ℕ
max_topic_length = 1024

abbrev pub max_filename_length : ℕ
max_filename_length = 1024

abbrev pub max_file_length : ℕ
max_file_length = 16384

-- `fopen` of the publisher's file system, with the bytes of the file.
abbrev pub Disk : Type 0
Disk = Text → Option (List ℕ)

-- `isValidFileName`
unfoldable pub is_valid_file_name : Disk → Text → Bool
is_valid_file_name disk name = elim (disk name) [ none ↦ false | some _ ↦ true ]

-- `readFromFile`: what the zeroed `contents` hold then.
unfoldable pub read_from_file : Disk → Text → List ℕ
read_from_file disk name = elim (disk name) [
  | none ↦ replicate max_file_length 0
  | some bytes ↦
      take max_file_length bytes
      ++ drop (length (take max_file_length bytes)) (replicate max_file_length 0)
]

-- Where `main` stands: at the topic, at a file name for a topic, or behind an overrun of a buffer.
pub data Prompt : Type 0 where
  topic crashed : Prompt
  file_name : Text → Prompt

-- What `main` does with one word: where it stands then, and what it posts.
unfoldable pub enter : Disk → Prompt → Text → Prompt × List Message
enter disk topic word =
    if ltb (length word) max_topic_length then (file_name word, []) else (crashed, [])
enter disk (file_name t) word =
    if ltb (length word) max_filename_length
    then if is_valid_file_name disk word
      then (topic, record { topic = t; contents = c_string (read_from_file disk word) } ∷ [])
      else (file_name t, [])
    else (crashed, [])
enter disk crashed word = (crashed, [])

-- All that is posted for some words.
unfoldable pub posts : Disk → Prompt → List Text → List Message
posts disk p [] = []
posts disk p (w ∷ ws) = let (q, out) = enter disk p w in out ++ posts disk q ws
