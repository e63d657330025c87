-- ===== src/Publisher/Reach.antt =====
-- From a file of the publisher to a subscriber of the broker.
use hyu_2021_network_protoco.Common.{
  ℕ, ◌+◌, ◌-◌, ◌^◌, ◌<◌, ◌≡◌, ◌∙◌, ap, List, [], ◌∷◌, ◌++◌, map, none, some, arith, length, All,
  drop, take_of_le, get_elem?,
}
use hyu_2021_network_protoco.Clib.Text.{Text, c_string, IsText}
use hyu_2021_network_protoco.Clib.Buffers.{drop-replicate, c_string-holding}
use hyu_2021_network_protoco.Broker.{waiting, Broker, published, resumed, run}
use hyu_2021_network_protoco.Broker.Received.{received_on}
use hyu_2021_network_protoco.Broker.Topics.{log}
use hyu_2021_network_protoco.Broker.Delivery.{Reads}
use hyu_2021_network_protoco.Broker.Subscribers.{published_reaches}
use hyu_2021_network_protoco.Publisher.{
  max_topic_length, max_filename_length, max_file_length, Disk, is_valid_file_name, read_from_file,
  topic, file_name, enter, posts,
}

-- A file whose text leaves room for a NUL is read whole.
read_from_file_lem :
    (disk : Disk) (name contents : Text)
    → disk name ≡ some contents
    → IsText contents
    → length contents < max_file_length
    → c_string (read_from_file disk name) ≡ contents
unfolding read_from_file
read_from_file_lem disk name contents opens text fits =
    let n : ℕ = length contents in
    let whole = take_of_le max_file_length contents (omega arith) in
    let zeros = drop-replicate n max_file_length in
    ground (arith, opens, whole, zeros)
    ∙ c_string-holding contents (max_file_length - n) (omega arith) text

-- A name that is asked for again: it fits the buffer, and no such file opens.
abbrev pub IsWrong : Disk → Text → Type 0
IsWrong disk name = (length name < max_filename_length) × (disk name ≡ none)

-- A file that can be posted.
pub record IsPostable (disk : Disk) (name contents : Text) : Type 0 where
  pub short : length name < max_filename_length
  pub opens : disk name ≡ some contents
  pub text : IsText contents
  pub fits : length contents < max_file_length

posts_file :
    (disk : Disk) (t name contents : Text) (wrong : List Text)
    → All (IsWrong disk) wrong
    → IsPostable disk name contents
    → posts disk (file_name t) (wrong ++ name ∷ []) ≡ record { topic = t; contents = contents } ∷ []
unfolding posts enter is_valid_file_name
posts_file disk t name contents [] w file = ground (
  arith,
  file.short,
  file.opens,
  read_from_file_lem disk name contents file.opens file.text file.fits,
)
posts_file disk t name contents (x ∷ wrong) w file =
    ground (arith, w.0.0, w.0.1, posts_file disk t name contents wrong w.1 file)

posts_topic :
    (disk : Disk) (t : Text) (ws : List Text)
    → length t < max_topic_length
    → posts disk topic (t ∷ ws) ≡ posts disk (file_name t) ws
unfolding posts enter
posts_topic disk t ws h = ground arith

-- From a file to a subscriber: a user of the publisher types a topic, any names that do not open, and the
-- name of a text file; the words and the file fit their buffers. A subscriber of the topic has read up to
-- message n, its sender waits, and the topic has fewer than 2 ^ 31 - 1 messages. Then what is posted,
-- published by the broker, reaches the subscriber: with the sender's next turn it is sent the messages
-- from n on, and the contents of that file last.
pub file_reaches :
    (disk : Disk) (t name contents : Text) (wrong : List Text) (id n : ℕ) (b : Broker)
    → length t < max_topic_length
    → All (IsWrong disk) wrong
    → IsPostable disk name contents
    → get_elem? b.senders id ≡ some waiting
    → Reads id t n b
    → length (log t b.topics) + 1 < 2 ^ 31
    → received_on id t
        (run b (
          map (λ m. published m) (posts disk topic (t ∷ (wrong ++ name ∷ [])))
          ++ resumed id ∷ [])).1
      ≡ drop n (log t b.topics ++ contents ∷ [])
file_reaches disk t name contents wrong id n b short w file at reads small =
    ap (λ ms. received_on id t (run b (map (λ m. published m) ms ++ resumed id ∷ [])).1)
      (posts_topic disk t (wrong ++ name ∷ []) short ∙ posts_file disk t name contents wrong w file)
    ∙ published_reaches id n (record { topic = t; contents = contents }) b at reads small
