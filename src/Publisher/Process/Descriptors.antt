-- ===== src/Publisher/Process/Descriptors.antt =====
-- What the publisher posts with the descriptors that it has.
use hyu_2021_network_protoco.Common.{
  ℕ, ◌+◌, ◌*◌, ◌≤◌, ◌<◌, ◌≡◌, refl, true, List, [], ◌∷◌, arith, length, Bool, Option, length-append,
  some, if◌then◌else◌, ltb, Bool-cases, inl, inr, false, ◌∙◌, none,
}
use hyu_2021_network_protoco.Clib.Text.{Text, c_string}
use hyu_2021_network_protoco.Broker.{Message}
use hyu_2021_network_protoco.Publisher.{
  Disk, is_valid_file_name, read_from_file, Prompt, topic, crashed, file_name,
}
use hyu_2021_network_protoco.Publisher.Process.{
  Answers, Process, Result, after_send, conclude, fopen, opened, post, send_file, name_entered,
  prompted, step, run,
}

-- Two descriptors behind every message that went out, and never more than the limit.
pub record IsPaid (limit before : ℕ) (r : Result) : Type 0 where
  pub paid : before + 2 * length r.1 ≤ r.0.files
  pub within : r.0.files ≤ limit

module _ (limit : ℕ) (disk : Disk) where
  some_of :
      (o : Option (List ℕ))
      → elim o [ none ↦ false | some _ ↦ true ] ≡ true
      → (bytes : List ℕ) × (o ≡ some bytes)
  some_of none h = absurd (ground (arith, h))
  some_of (some bytes) h = (bytes, refl)

  opens_if :
      (room : Bool) (name : Text)
      → is_valid_file_name (λ x. if room then disk x else none) name ≡ true
      → (room ≡ true) × (bytes : List ℕ) × (disk name ≡ some bytes)
  unfolding is_valid_file_name
  opens_if false name h = absurd (ground (arith, h))
  opens_if true name h = let (bytes, opens) = some_of (disk name) h in (refl, bytes, opens)

  -- A name that is taken opens, and a descriptor was left for it.
  valid_opens :
      (k : ℕ) (name : Text)
      → is_valid_file_name (fopen limit disk k) name ≡ true
      → (k < limit) × (bytes : List ℕ) × (disk name ≡ some bytes)
  valid_opens k name h =
      let (room, bytes, opens) = opens_if (ltb k limit) name h in
      (ground (arith, room), bytes, opens)

  pub opened_lem :
      (k : ℕ) (name : Text) (bytes : List ℕ)
      → disk name ≡ some bytes
      → opened limit disk name k ≡ (if ltb k limit then k + 1 else k)
  unfolding opened
  opened_lem k name bytes e = ground (arith, e)

  post-IsPaid :
      (a : Answers) (m : Message) (k : ℕ) (p : Process)
      → k < limit
      → p.files ≡ (if ltb (k + 1) limit then k + 1 + 1 else k + 1)
      → IsPaid limit k (conclude (post limit a p.files) m p)
  unfolding conclude post after_send
  post-IsPaid a m k p h e = ground (arith, h, e)

  file-IsPaid :
      (a : Answers) (t name : Text) (p : Process)
      → is_valid_file_name (fopen limit disk p.files) name ≡ true
      → IsPaid limit p.files
          (send_file limit disk a t name (record p { files = opened limit disk name p.files }))
  unfolding send_file
  file-IsPaid a t name p valid =
      let (room, bytes, opens) = valid_opens p.files name valid in
      let one : opened limit disk name p.files ≡ p.files + 1 =
        opened_lem p.files name bytes opens ∙ ground (arith, room) in
      let k : ℕ = opened limit disk name p.files in
      let q : Process = record p { prompt = topic; files = opened limit disk name k } in
      let m : Message = record {
        topic = t;
        contents = c_string (read_from_file (fopen limit disk k) name);
      } in
      post-IsPaid a m p.files q room (opened_lem k name bytes opens ∙ rw one refl)

  name-IsPaid :
      (a : Answers) (t name : Text) (p : Process)
      → p.files ≤ limit
      → IsPaid limit p.files (name_entered limit disk a t name p)
  unfolding name_entered
  name-IsPaid a t name p h =
      elim (Bool-cases (is_valid_file_name (fopen limit disk p.files) name)) [
        | inr wrong ↦ rw wrong (ground arith)
        | inl right ↦ rw right (ground (arith, file-IsPaid a t name p right))
      ]

  prompted-IsPaid :
      (a : Answers) (word : Text) (at : Prompt) (p : Process)
      → p.files ≤ limit
      → IsPaid limit p.files (prompted limit disk a word at p)
  unfolding prompted
  prompted-IsPaid a word topic p h = ground arith
  prompted-IsPaid a word (file_name t) p h = name-IsPaid a t word p h
  prompted-IsPaid a word crashed p h = ground arith

  step-IsPaid :
      (e : Text × Answers) (p : Process)
      → p.files ≤ limit
      → IsPaid limit p.files (step limit disk e p)
  unfolding step
  step-IsPaid (word, a) p h = ground (arith, prompted-IsPaid a word p.prompt p h)

  run-IsPaid :
      (es : List (Text × Answers)) (p : Process)
      → p.files ≤ limit
      → IsPaid limit p.files (run limit disk p es)
  unfolding run
  run-IsPaid [] p h = ground arith
  run-IsPaid (e ∷ es) p h =
      let (q, out) = step limit disk e p in
      let now = step-IsPaid e p h in
      let later = run-IsPaid es q now.within in
      ground (arith, length-append out (run limit disk q es).1, now.paid, later.paid, later.within)

-- From any state of `main`, whatever the user types and the operating system answers: two descriptors stay open
-- behind every message that went out, so that the messages of a run are at most half of the descriptors that were
-- left.
pub descriptors_bound_posts :
    (limit : ℕ) (disk : Disk) (es : List (Text × Answers)) (p : Process)
    → p.files ≤ limit
    → (p.files + 2 * length (run limit disk p es).1 ≤ (run limit disk p es).0.files)
      × ((run limit disk p es).0.files ≤ limit)
descriptors_bound_posts limit disk es p h =
    let r = run-IsPaid limit disk es p h in (r.paid, r.within)
