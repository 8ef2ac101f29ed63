-- ===== src/Lib.antt =====
-- Verification of the Python scripts of this repository that write and evaluate agent skills, and of
-- those that extract and draw diagrams. File names below are relative to
-- .agents/skills/skill-creator/scripts, where no directory is given.
--
-- The program and its parts
--   run_eval.py starts `claude -p` for each query of an eval set, reads the JSON events that it
--   prints, and decides early whether the skill was triggered. run_loop.py evaluates a description
--   with run_eval.py, has improve_description.py propose a better one from the failures, and keeps
--   the best; generate_report.py makes a page of its history. utils.py reads the front matter of
--   SKILL.md, quick_validate.py checks it, package_skill.py zips the folder of a skill that it
--   accepts, and aggregate_benchmark.py makes statistics of graded runs. extract_mermaid.py finds
--   the diagrams of a Markdown file, mermaid_to_image.py draws them, and resilient_diagram.py
--   names, saves and draws one, with advice from a guide where that fails. generate_review.py finds
--   the runs of a workspace and serves a page on which they are reviewed.
--
-- The files
--   Base, Json, Floats: texts as lists of character codes, Python's dicts in insertion order,
--     regular expressions, the values of `json.loads` with the exceptions that operations on them
--     raise, numbers.
--   Stream: `run_single_query` of run_eval.py. Scan has the reader's state (`pending_tool_name`,
--     `accumulated_json`, `triggered`), one definition for each kind of event, and the loop over the
--     complete lines of the buffer; Query the loop that reads the process, as a list of rounds of
--     `select`; Cleanup the two `finally` blocks; Chunks and Early hold proofs.
--   Eval: `run_eval`. Pool has the submitted futures and the dicts that collect the results in the
--     order of completion, Report the verdicts, Root `find_project_root`; Total, Counts, Order and
--     Threshold hold proofs.
--   Improve: what `improve_description` makes of the model's answer. Prompt and Attempts have the
--     prompts, Call `_call_claude` and the whole function; Failures holds proofs.
--     Loop takes the prompts as parameters.
--   Loop: `run_loop`. Split is `split_eval_set`, History the entries and `blinded_history`, Cells
--     their values as the other scripts read them, Best Python's `max` with a key, Run the loop
--     with its live report; Exit, Tested, Result, Live, Returns and Vacuous hold proofs.
--   HtmlReport: generate_report.py. Escape is `html.escape`, Style and Parts have the texts of the
--     page, Page `generate_html`, Live and Written the reports that run_loop.py makes with it;
--     Entries, Outcome, Best and Runs hold proofs.
--   Validate: `validate_skill` of quick_validate.py.
--   Frontmatter: `parse_skill_md` of utils.py, and the command file of `run_single_query`.
--   Benchmark: aggregate_benchmark.py. Numbers is the arithmetic that it calls, Stats
--     `calculate_stats`, Load `load_run_results`, Aggregate `aggregate_results`, Generate
--     `generate_benchmark`, Markdown `generate_markdown`; Loaded and Table hold proofs.
--   Package: package_skill.py. Exclude is `should_exclude`, Archive `package_skill`, with the file
--     system and the writes that raise as a record.
--   Extract: .agents/skills/design-doc-mermaid/scripts/extract_mermaid.py. Scan has the matches of
--     `MERMAID_PATTERN`, Diagrams the diagrams, their file names and their replacement by images,
--     Check the validation with `mmdc`, Program the listing and `main`; Lossless, Blocks and Status
--     hold proofs.
--   Resilient: .agents/skills/design-doc-mermaid/scripts/resilient_diagram.py. Detect has
--     `detect_diagram_type`, Filename `generate_filename`, Guide `TroubleshootingParser.search`,
--     Parse `TroubleshootingParser._parse`, with the regular expressions of Base.Regex, Generate
--     `render_image` and `generate`, Program `main`; Exclusive, Characters, Safe, Sections, Ranking
--     and Outcome hold proofs.
--   Render: .agents/skills/design-doc-mermaid/scripts/mermaid_to_image.py. Renderer has the options
--     and `render`, Batch `batch_render` and the exit status; Exits holds proofs.
--   Viewer: .agents/skills/skill-creator/eval-viewer/generate_review.py. Tree is the workspace,
--     Embed has `embed_file`, Build `build_run`, Find `find_runs`, Previous
--     `load_previous_iteration`, Page `generate_html`, Server `ReviewHandler`; Kept, Sorted,
--     Discover, Keys, Merged, Unique, Shown, Feedback and RoundTrip hold proofs.
--   Tests: runs at concrete data.
--
-- State, errors, loops
--   A statement that may raise returns `Result`, one inside the read loop `Flow`, which also says
--   that the function has returned. An operation that a JSON value lacks raises as in Python. The
--   loops are structural recursions over what they consume. Fuel have `drain`, the loop over
--   the lines of the buffer, its length and one more, as each line takes at least its newline;
--   `scan` of Extract, the length of the text, as each piece takes at least a character; `digits`,
--   the number and one more; `replace` of Viewer, the length of the template and one more, as each
--   round takes the marker; and the matcher of Base.Regex, the length of the text and one more, as
--   each round of a repetition takes a character (Base.RegexFuel).
--
-- Parameters, which stand for what is no Python code of the repository
--   `json.loads`, `yaml.safe_load`, the decoder of the process output, `claude`, `mmdc`, the
--   shuffle of `random`, `int` on a text, MD5, base64, the table of MIME types, Python's tables of
--   letters (`str.lower`, `\w`, `\d`), its comparison of JSON values, `json.dumps`, the text of
--   viewer.html, `str.title`, and arithmetic on floats and their formats, with what a theorem relies on as a hypothesis. The
--   directories of a benchmark are given as what the script finds in them, in sorted order.
--
-- Not modelled
--   Most of the printing, the command lines of the `main` functions but those of the scripts for
--   Mermaid, and the parts of the repository that are not Python.
pub mod Base
pub mod Benchmark
pub mod Eval
pub mod Extract
pub mod Floats
pub mod Frontmatter
pub mod HtmlReport
pub mod Improve
pub mod Json
pub mod Loop
pub mod Package
pub mod Render
pub mod Resilient
pub mod Stream
mod Tests
pub mod Validate
pub mod Viewer
