-- ===== src/Tests/StreamTests.antt =====
-- The reader of run_eval.py at concrete streams.
use my_besu_net.Base.{ℕ, true, false, List, [], ◌∷◌, ◌≡◌, refl}
use my_besu_net.Base.Text.{Text, codes, is, includes, strip}
use my_besu_net.Json.{get, is_str, add_text}
use my_besu_net.Stream.Cleanup.{run_single_query, run_single_query-clean, started}
use my_besu_net.Stream.Early.{IsStart, IsPart, IsStop, stop, part, on_events, on_events-IsStart}
use my_besu_net.Stream.Query.{
  returned, chunk, exited, idle, read_loop, read_loop-chunk-append, read_loop-exited,
}
use my_besu_net.Stream.Scan.{initial, done, on_event, on_line, drain_all, drain}
use my_besu_net.Tests.Samples.{loads, start_of, part_of, stop_event}

abbrev same : List ℕ → Text
same bytes = bytes

abbrev name : Text
name = codes "my-skill"

read_to_the_end :
    read_loop loads same name
      (chunk (codes "S\nP") ∷ idle ∷ chunk (codes "\n") ∷ [])
      []
      (initial name)
    ≡ returned true
unfolding read_loop drain_all drain on_line on_event strip loads get is is_str add_text includes
read_to_the_end = refl

-- The same bytes, found when the process has exited.
lost_at_exit :
    read_loop loads same name (exited (codes "S\nP\n") ∷ []) [] (initial name) ≡ returned false
unfolding read_loop
lost_at_exit = refl

read_loop-chunk-append_example :
    read_loop loads same name
      (chunk (codes "S\nP") ∷ idle ∷ chunk (codes "\nR\n") ∷ [])
      []
      (initial name)
    ≡ read_loop loads same name (chunk (codes "S\nP\nR\n") ∷ []) [] (initial name)
read_loop-chunk-append_example =
    read_loop-chunk-append loads same name b'S' (codes "\nP") b'\n' (codes "R\n") [] []
      (initial name) refl

read_loop-exited_example :
    read_loop loads same name (chunk (codes "S\n") ∷ exited (codes "P\n") ∷ []) [] (initial name)
    ≡ read_loop loads same name (chunk (codes "S\n") ∷ []) [] (initial name)
read_loop-exited_example =
    read_loop-exited loads same name (chunk (codes "S\n") ∷ []) [] (codes "P\n") [] (initial name)

run_single_query-clean_example :
    let after =
      (run_single_query loads same name started
        (chunk (codes "S\nP\n") ∷ [])
        true
        (record { command_file = false; running = false })).1 in
    (after.command_file ≡ false) × (after.running ≡ false)
run_single_query-clean_example =
    run_single_query-clean loads same name started (chunk (codes "S\nP\n") ∷ []) true
      (record { command_file = false; running = false }) refl

start_of-IsStart : IsStart (start_of "Skill") (codes "Skill")
unfolding get is
start_of-IsStart = record {
  se = _;
  se_type = codes "content_block_start";
  frame = record {
    kind = codes "stream_event";
    kind_at = λ d. refl;
    kind_is = refl;
    event_at = λ d. refl;
    type_at = λ d. refl;
  };
  se_is = refl;
  block = _;
  block_at = λ d. refl;
  block_kind = codes "tool_use";
  block_kind_at = λ d. refl;
  block_kind_is = refl;
  name_at = λ d. refl;
}

my_IsPart : IsPart (part_of "my-") (codes "my-")
unfolding get is
my_IsPart = record {
  se = _;
  se_type = codes "content_block_delta";
  frame = record {
    kind = codes "stream_event";
    kind_at = λ d. refl;
    kind_is = refl;
    event_at = λ d. refl;
    type_at = λ d. refl;
  };
  not_start = refl;
  se_is = refl;
  delta = _;
  delta_at = λ d. refl;
  delta_kind = codes "input_json_delta";
  delta_kind_at = λ d. refl;
  delta_kind_is = refl;
  part_at = λ d. refl;
}

skill_IsPart : IsPart (part_of "skill") (codes "skill")
unfolding get is
skill_IsPart = record {
  se = _;
  se_type = codes "content_block_delta";
  frame = record {
    kind = codes "stream_event";
    kind_at = λ d. refl;
    kind_is = refl;
    event_at = λ d. refl;
    type_at = λ d. refl;
  };
  not_start = refl;
  se_is = refl;
  delta = _;
  delta_at = λ d. refl;
  delta_kind = codes "input_json_delta";
  delta_kind_at = λ d. refl;
  delta_kind_is = refl;
  part_at = λ d. refl;
}

stop_event-IsStop : IsStop stop_event
unfolding get is
stop_event-IsStop = record {
  se = _;
  se_type = codes "content_block_stop";
  frame = record {
    kind = codes "stream_event";
    kind_at = λ d. refl;
    kind_is = refl;
    event_at = λ d. refl;
    type_at = λ d. refl;
  };
  not_start = refl;
  not_delta = refl;
  se_is = refl;
}

on_events-IsStart_example :
    on_events name
      (start_of "Skill" ∷ part_of "my-" ∷ part_of "skill" ∷ stop_event ∷ [])
      (initial name)
    ≡ done true
unfolding is includes
on_events-IsStart_example =
    on_events-IsStart name (start_of "Skill") (codes "Skill")
      (part_of "my-" ∷ part_of "skill" ∷ stop_event ∷ []) (codes "my-" ∷ codes "skill" ∷ [])
      (initial name) start_of-IsStart (part my_IsPart (part skill_IsPart (stop stop_event-IsStop)))
