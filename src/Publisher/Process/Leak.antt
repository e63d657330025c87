-- ===== src/Publisher/Process/Leak.antt =====
-- The descriptors of the publisher's process, and its end.
use hyu_2021_network_protoco.Common.{
  ℕ, ◌+◌, ◌*◌, ◌≤◌, ◌<◌, ◌≡◌, ◌∙◌, refl, ap, true, false, ◌⊎◌, inl, inr, some, none, List, [], ◌∷◌,
  arith, length, if◌then◌else◌, ltb, Bool-cases,
}
use hyu_2021_network_protoco.Clib.Text.{Text, c_string}
use hyu_2021_network_protoco.Broker.{Message}
use hyu_2021_network_protoco.Publisher.{
  Disk, max_topic_length, max_filename_length, is_valid_file_name, read_from_file, topic, file_name,
}
use hyu_2021_network_protoco.Publisher.Process.{
  Answers, Posted, sent, lost, refused, ended, Process, conclude, fopen, opened, post, send_file,
  name_entered, prompted, step, run,
}
use hyu_2021_network_protoco.Publisher.Process.Descriptors.{opened_lem}

-- The user types a topic and the name of a file, again and again.
abbrev pub rounds : Text → Text → List Answers → List (Text × Answers)
rounds t name [] = []
rounds t name (a ∷ later) = (t, a) ∷ (name, a) ∷ rounds t name later

conclude-cases :
    (o : Posted) (m : Message) (p : Process)
    → ((conclude o m p).0.running ≡ false) ⊎ ((conclude o m p).0 ≡ p)
unfolding conclude
conclude-cases sent m p = inr refl
conclude-cases lost m p = inr refl
conclude-cases refused m p = inl refl
conclude-cases ended m p = inl refl

conclude_ended :
    (o : Posted) (m : Message) (p : Process) → o ≡ ended → (conclude o m p).0.running ≡ false
unfolding conclude
conclude_ended o m p e = rw e refl

-- Either the process has ended, or it is at its prompt, with two descriptors fewer to come.
abbrev Spent : ℕ → ℕ → Process → Type 0
Spent limit before q =
    (q.running ≡ false)
    ⊎ ((q.running ≡ true) × (q.prompt ≡ topic) × (q.files ≡ before + 2) × (before + 2 < limit))

module _ (limit : ℕ) (disk : Disk) where
  post-cases : (a : Answers) (n : ℕ) → (post limit a n ≡ ended) ⊎ (n < limit)
  unfolding post
  post-cases a n = elim (Bool-cases (ltb n limit)) [
    | inl room ↦ inr (ground (arith, room))
    | inr full ↦ inl (rw full refl)
  ]

  conclude-Spent :
      (a : Answers) (m : Message) (k : ℕ) (p : Process)
      → p.running ≡ true
      → p.prompt ≡ topic
      → k < limit
      → p.files ≡ (if ltb (k + 1) limit then k + 1 + 1 else k + 1)
      → Spent limit k (conclude (post limit a p.files) m p).0
  conclude-Spent a m k p live at room e = elim (post-cases a p.files) [
    | inl over ↦ inl (conclude_ended (post limit a p.files) m p over)
    | inr left ↦ elim (conclude-cases (post limit a p.files) m p) [
      | inl over ↦ inl over
      | inr same ↦ inr (
        ap (λ q. q.running) same ∙ live,
        ap (λ q. q.prompt) same ∙ at,
        ap (λ q. q.files) same ∙ ground (arith, left, e),
        ground (arith, left, e),
      )
    ]
  ]

  valid :
      (name : Text) (bytes : List ℕ) (k : ℕ)
      → disk name ≡ some bytes
      → k < limit
      → is_valid_file_name (fopen limit disk k) name ≡ true
  unfolding is_valid_file_name
  valid name bytes k opens room =
      let left : ltb k limit ≡ true = ground arith in
      ap (λ b. is_valid_file_name (λ x. if b then disk x else none) name) left
      ∙ ap (λ o. elim o [ none ↦ false | some _ ↦ true ]) opens

  name-Spent :
      (a : Answers) (t name : Text) (bytes : List ℕ) (p : Process)
      → length name < max_filename_length
      → disk name ≡ some bytes
      → p.running ≡ true
      → p.files < limit
      → Spent limit p.files (name_entered limit disk a t name p).0
  unfolding name_entered send_file
  name-Spent a t name bytes p short opens live room =
      let fits : ltb (length name) max_filename_length ≡ true = ground arith in
      let k : ℕ = opened limit disk name p.files in
      let one : k ≡ p.files + 1 =
        opened_lem limit disk p.files name bytes opens ∙ ground (arith, room) in
      let q : Process = record p { prompt = topic; files = opened limit disk name k } in
      let m : Message = record {
        topic = t;
        contents = c_string (read_from_file (fopen limit disk k) name);
      } in
      let two =
        conclude-Spent a m p.files q live refl room
          (opened_lem limit disk k name bytes opens ∙ rw one refl) in
      simp (fits, valid name bytes p.files opens room) two

  run_over :
      (es : List (Text × Answers)) (p : Process) → p.running ≡ false → (run limit disk p es).0 ≡ p
  unfolding run step
  run_over [] p over = refl
  run_over (e ∷ es) p over = ground (arith, over, run_over es p over)

  module _ (t name : Text) (bytes : List ℕ) (short : length t < max_topic_length) where
    -- A round from the prompt for a topic.
    round :
        (a b : Answers) (es : List (Text × Answers)) (p : Process)
        → p.running ≡ true
        → p.prompt ≡ topic
        → (run limit disk p ((t, a) ∷ (name, b) ∷ es)).0
          ≡ (run limit disk
              (name_entered limit disk b t name (record p { prompt = file_name t })).0
              es).0
    unfolding run step prompted
    round a b es p live at =
        let fits : ltb (length t) max_topic_length ≡ true = ground (arith, short) in
        rw (live, at, fits) refl

    rounds_end :
        (answers : List Answers) (p : Process)
        → length name < max_filename_length
        → disk name ≡ some bytes
        → p.running ≡ true
        → p.prompt ≡ topic
        → p.files < limit
        → limit ≤ p.files + 2 * length answers
        → (run limit disk p (rounds t name answers)).0.running ≡ false
    rounds_end [] p fits opens live at room enough = absurd (omega arith)
    rounds_end (a ∷ later) p fits opens live at room enough =
        let asked : Process = record p { prompt = file_name t } in
        let next : Process = (name_entered limit disk a t name asked).0 in
        let after = name-Spent a t name bytes asked fits opens live room in
        ap (λ q. q.running) (round a a (rounds t name later) p live at) ∙ elim after [
          | inl over ↦ ap (λ q. q.running) (run_over (rounds t name later) next over) ∙ over
          | inr (goes, back, two, left) ↦
              rounds_end later next fits opens goes back (omega arith) (omega arith)
        ]

-- At the prompt for a topic, with a descriptor left: when the user types a topic and the name of a file that opens,
-- again and again, and these are at least as many words as there are descriptors left, then the process has ended,
-- whatever the operating system answers. Both words fit their buffers.
pub descriptors_run_out :
    (limit : ℕ) (disk : Disk) (t name : Text) (bytes : List ℕ) (answers : List Answers)
    (p : Process)
    → length t < max_topic_length
    → length name < max_filename_length
    → disk name ≡ some bytes
    → p.running ≡ true
    → p.prompt ≡ topic
    → p.files < limit
    → limit ≤ p.files + 2 * length answers
    → (run limit disk p (rounds t name answers)).0.running ≡ false
descriptors_run_out limit disk t name bytes answers p short fits opens live at room enough =
    rounds_end limit disk t name bytes short answers p fits opens live at room enough
