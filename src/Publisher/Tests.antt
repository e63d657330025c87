-- ===== src/Publisher/Tests.antt =====
-- The theorems about the publisher's process on concrete inputs.
use hyu_2021_network_protoco.Common.{
  ◌+◌, ◌*◌, ◌≤◌, ◌≡◌, refl, true, false, List, [], ◌∷◌, none, some, arith, length, replicate,
  if◌then◌else◌,
}
use hyu_2021_network_protoco.Clib.Text.{Text, codes, text_eq}
use hyu_2021_network_protoco.Publisher.{Disk, topic, posts}
use hyu_2021_network_protoco.Publisher.Process.{Answers, failed, Process, run}
use hyu_2021_network_protoco.Publisher.Process.Descriptors.{descriptors_bound_posts}
use hyu_2021_network_protoco.Publisher.Process.Leak.{rounds, descriptors_run_out}
use hyu_2021_network_protoco.Publisher.Process.Posts.{all_well, with_answers, process_posts}

abbrev sport : Text
sport = codes "sport"

abbrev male_txt : Text
male_txt = codes "male.txt"

abbrev one_file : Disk
one_file = λ name. if text_eq name male_txt then some (codes "run") else none

-- The three standard streams are open.
abbrev started : Process
started = record { prompt = topic; files = 3; running = true }

-- A topic, a name that does not open, and one that does.
abbrev typed : List Text
typed = sport ∷ codes "mail" ∷ male_txt ∷ []

process_posts_example :
    (run 10 one_file started (with_answers typed)).1 ≡ posts one_file topic typed
process_posts_example = process_posts 10 one_file typed started refl (omega arith)

-- The third message is lost.
abbrev three_answers : List Answers
three_answers = all_well ∷ all_well ∷ record all_well { sending = failed } ∷ []

descriptors_bound_posts_example :
    (3 + 2 * length (run 10 one_file started (rounds sport male_txt three_answers)).1
      ≤ (run 10 one_file started (rounds sport male_txt three_answers)).0.files)
    × ((run 10 one_file started (rounds sport male_txt three_answers)).0.files ≤ 10)
descriptors_bound_posts_example =
    descriptors_bound_posts 10 one_file (rounds sport male_txt three_answers) started (omega arith)

male_txt_opens : one_file male_txt ≡ some (codes "run")
unfolding text_eq
male_txt_opens = refl

descriptors_run_out_example :
    (run 10 one_file started (rounds sport male_txt (replicate 4 all_well))).0.running ≡ false
descriptors_run_out_example =
    descriptors_run_out 10 one_file sport male_txt (codes "run") (replicate 4 all_well) started
      (omega arith) (omega arith) male_txt_opens refl refl (omega arith) (omega arith)
