-- ===== src/Publisher/Process/Posts.antt =====
-- The publisher's process beside the loop of `main` alone.
use hyu_2021_network_protoco.Common.{
  ℕ, ◌+◌, ◌*◌, ◌≤◌, ◌<◌, ◌≡◌, ◌∙◌, refl, sym, subst, ap, ap₂, true, false, ◌⊎◌, inl, inr, none,
  List, [], ◌∷◌, ◌++◌, map, arith, length, if◌then◌else◌, ltb,
}
use hyu_2021_network_protoco.Clib.Text.{Text, c_string}
use hyu_2021_network_protoco.Broker.{Message}
use hyu_2021_network_protoco.Publisher.{
  Disk, max_filename_length, is_valid_file_name, read_from_file, Prompt, topic, crashed, file_name,
  enter, posts,
}
use hyu_2021_network_protoco.Publisher.Process.{
  whole, Answers, sent, Process, Result, after_send, conclude, fopen, opened, post, send_file,
  name_entered, prompted, step, run,
}

-- Every call works.
abbrev pub all_well : Answers
all_well = record { socket_ok = true; option_ok = true; connect_ok = true; sending = whole }

abbrev pub with_answers : List Text → List (Text × Answers)
with_answers ws = map (λ w. (w, all_well)) ws

-- The process runs, or a buffer was overrun.
abbrev Lives : Process → Type 0
Lives p = (p.running ≡ true) ⊎ (p.prompt ≡ crashed)

posts_crashed : (disk : Disk) (ws : List Text) → posts disk crashed ws ≡ []
unfolding posts enter
posts_crashed disk [] = refl
posts_crashed disk (w ∷ ws) = posts_crashed disk ws

-- What the process comes to, against what `enter` says.
record Follows (before : ℕ) (r : Result) (s : Prompt × List Message) : Type 0 where
  prompt : r.0.prompt ≡ s.0
  out : r.1 ≡ s.1
  files : r.0.files ≤ before + 2
  lives : Lives r.0

module _ (limit : ℕ) (disk : Disk) where
  fopen_room : (k : ℕ) → k < limit → fopen limit disk k ≡ disk
  fopen_room k h =
      let room : ltb k limit ≡ true = ground arith in
      ap (λ b. λ name. if b then disk name else none) room

  opened_bound : (name : Text) (k : ℕ) → opened limit disk name k ≤ k + 1
  unfolding opened
  opened_bound name k = ground arith

  post_sent : (k : ℕ) → k < limit → post limit all_well k ≡ sent
  unfolding post after_send
  post_sent k h = ground arith

  send_file_well :
      (t word : Text) (q : Process)
      → q.files + 1 < limit
      → send_file limit disk all_well t word q ≡ (
        record q { prompt = topic; files = opened limit disk word q.files },
        record { topic = t; contents = c_string (read_from_file disk word) } ∷ [],
      )
  unfolding send_file conclude
  send_file_well t word q room =
      let one = opened_bound word q.files in
      let goes = post_sent (opened limit disk word q.files) (omega arith) in
      rw (goes, fopen_room q.files (omega arith)) refl

  -- A name, where descriptors are left.
  name_well :
      (t word : Text) (p : Process)
      → p.files + 2 < limit
      → name_entered limit disk all_well t word p ≡ (
          if ltb (length word) max_filename_length
          then if is_valid_file_name disk word
            then (
              record p {
                prompt = topic;
                files = opened limit disk word (opened limit disk word p.files);
              },
              record { topic = t; contents = c_string (read_from_file disk word) } ∷ [],
            )
            else (p, [])
          else (record p { prompt = crashed; running = false }, []))
  unfolding name_entered
  name_well t word p room =
      let one = opened_bound word p.files in
      let posts_it =
        send_file_well t word (record p { files = opened limit disk word p.files }) (omega arith) in
      rw (fopen_room p.files (omega arith), posts_it) refl

  prompted-Follows :
      (word : Text) (at : Prompt) (p : Process)
      → p.prompt ≡ at
      → p.running ≡ true
      → p.files + 2 < limit
      → Follows p.files (prompted limit disk all_well word at p) (enter disk at word)
  unfolding prompted enter
  prompted-Follows word topic p at live room = ground (arith, at, live)
  prompted-Follows word (file_name t) p at live room =
      let one = opened_bound word p.files in
      let two = opened_bound word (opened limit disk word p.files) in
      rw (name_well t word p room) (ground (arith, at, live, one, two))
  prompted-Follows word crashed p at live room = ground (arith, at, live)

  step-Follows :
      (word : Text) (p : Process)
      → p.running ≡ true
      → p.files + 2 < limit
      → Follows p.files (step limit disk (word, all_well) p) (enter disk p.prompt word)
  unfolding step
  step-Follows word p live room =
      subst
        (λ b.
          Follows p.files (if b then prompted limit disk all_well word p.prompt p else (p, []))
            (enter disk p.prompt word))
        (sym live) (prompted-Follows word p.prompt p refl live room)

  -- Behind an overrun nothing is posted.
  run_crashed :
      (ws : List Text) (p : Process)
      → p.prompt ≡ crashed
      → (run limit disk p (with_answers ws)).1 ≡ []
  unfolding run step prompted
  run_crashed [] p at = refl
  run_crashed (w ∷ ws) p at = ground (arith, at, run_crashed ws p at)

  crashed_posts :
      (ws : List Text) (p : Process)
      → p.prompt ≡ crashed
      → (run limit disk p (with_answers ws)).1 ≡ posts disk p.prompt ws
  crashed_posts ws p at =
      run_crashed ws p at ∙ sym (ap (λ q. posts disk q ws) at ∙ posts_crashed disk ws)

  live_posts :
      (ws : List Text) (p : Process)
      → Lives p
      → p.files + 2 * length ws < limit
      → (run limit disk p (with_answers ws)).1 ≡ posts disk p.prompt ws
  unfolding run posts
  live_posts ws p (inr at) room = crashed_posts ws p at
  live_posts [] p (inl live) room = refl
  live_posts (w ∷ ws) p (inl live) room =
      let now = step-Follows w p live (omega arith) in
      let next = (step limit disk (w, all_well) p).0 in
      let later = live_posts ws next now.lives (omega (arith, now.files)) in
      ap₂ ◌++◌ now.out (later ∙ ap (λ q. posts disk q ws) now.prompt)

-- As long as every call works and the descriptors last, two for each word that is typed, and one for the socket:
-- the process sends, in order, exactly the messages that the loop of `main` has posted for those words.
pub process_posts :
    (limit : ℕ) (disk : Disk) (ws : List Text) (p : Process)
    → p.running ≡ true
    → p.files + 2 * length ws < limit
    → (run limit disk p (with_answers ws)).1 ≡ posts disk p.prompt ws
process_posts limit disk ws p live room = live_posts limit disk ws p (inl live) room
