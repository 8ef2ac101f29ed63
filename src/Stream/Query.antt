-- ===== src/Stream/Query.antt =====
-- The read loop of `run_single_query` (run_eval.py, lines 93 to 171).
-- The clock, the process and the pipe are a list of rounds of the loop: what each round finds. The
-- list ends when `time.time() - start_time < timeout` fails.
use my_besu_net.Base.{ℕ, Bool, List, [], ◌∷◌, ◌++◌, Option, ◌≡◌, refl, ap, ◌∙◌, sym, append_assoc}
use my_besu_net.Base.Text.{Text}
use my_besu_net.Json.{Value, Exc}
use my_besu_net.Stream.Chunks.{drain_all-append}
use my_besu_net.Stream.Scan.{Scan, Flow, next, done, raised, ◌>>=◌, on_line, drain_all}

-- One round: the process has exited and `read()` gives the rest of its output; nothing is ready; or
-- a chunk is read, empty at the end of the stream.
pub data Round : Type 0 where
  exited : List ℕ → Round
  idle : Round
  chunk : List ℕ → Round

pub data Outcome : Type 0 where
  returned : Bool → Outcome
  failed : Exc → Outcome

module _ {N : Type 0} where
  -- what the loop does with the lines of one chunk, before its next round
  unfoldable pub settle : Flow (Text × Scan N) → (Text → Scan N → Outcome) → Outcome
  settle (next (buffer, s)) more = more buffer s
  settle (done b) more = returned b
  settle (raised e) more = failed e

  -- `loads` is `json.loads`, `decode` is `bytes.decode("utf-8", errors="replace")`.
  module _ (loads : Text → Option (Value N)) (decode : List ℕ → Text) (clean_name : Text) where
    -- behind the loop: the buffer is dropped
    unfoldable pub leave : Text → Scan N → Outcome
    leave buffer s = returned s.triggered

    unfoldable pub read_loop : List Round → Text → Scan N → Outcome
    unfolding leave settle
    read_loop [] buffer s = leave buffer s
    read_loop (exited remaining ∷ rounds) buffer s = leave (buffer ++ decode remaining) s
    read_loop (idle ∷ rounds) buffer s = read_loop rounds buffer s
    read_loop (chunk [] ∷ rounds) buffer s = leave buffer s
    read_loop (chunk (b ∷ bs) ∷ rounds) buffer s =
        settle (drain_all (on_line clean_name loads) (buffer ++ decode (b ∷ bs)) s)
          (read_loop rounds)

    settle-bind :
        (m : Flow (Text × Scan N)) (f : Text × Scan N → Flow (Text × Scan N))
        (more : Text → Scan N → Outcome)
        → settle (m >>= f) more ≡ settle m (λ buffer s. settle (f (buffer, s)) more)
    unfolding settle
    settle-bind (next r) f more = refl
    settle-bind (done b) f more = refl
    settle-bind (raised e) f more = refl

    -- Two chunks that are decoded apart as they are together have the effect of one chunk.
    pub read_loop-chunk-append :
        (a : ℕ) (xs : List ℕ) (b : ℕ) (bs : List ℕ) (rounds : List Round) (buffer : Text)
        (s : Scan N)
        → decode ((a ∷ xs) ++ (b ∷ bs)) ≡ decode (a ∷ xs) ++ decode (b ∷ bs)
        → read_loop (chunk (a ∷ xs) ∷ idle ∷ chunk (b ∷ bs) ∷ rounds) buffer s
          ≡ read_loop (chunk ((a ∷ xs) ++ (b ∷ bs)) ∷ rounds) buffer s
    unfolding read_loop
    read_loop-chunk-append a xs b bs rounds buffer s h =
        sym (
          settle-bind (drain_all (on_line clean_name loads) (buffer ++ decode (a ∷ xs)) s)
            (λ r. drain_all (on_line clean_name loads) (r.0 ++ decode (b ∷ bs)) r.1)
            (read_loop rounds))
        ∙ ap (λ m. settle m (read_loop rounds))
            (sym (
              drain_all-append (on_line clean_name loads) (buffer ++ decode (a ∷ xs))
                (decode (b ∷ bs)) s))
        ∙ rw (h, append_assoc)

    settle-congr :
        (m : Flow (Text × Scan N)) (f g : Text → Scan N → Outcome)
        → ((buffer : Text) (s : Scan N) → f buffer s ≡ g buffer s)
        → settle m f ≡ settle m g
    unfolding settle
    settle-congr (next (buffer, s)) f g h = h buffer s
    settle-congr (done b) f g h = refl
    settle-congr (raised e) f g h = refl

    -- The output that is still unread when the exit is noticed never matters: the query ends as if
    -- the time had run out after the same rounds.
    pub read_loop-exited :
        (rounds later : List Round) (remaining : List ℕ) (buffer : Text) (s : Scan N)
        → read_loop (rounds ++ exited remaining ∷ later) buffer s ≡ read_loop rounds buffer s
    unfolding read_loop
    read_loop-exited [] later remaining buffer s = refl
    read_loop-exited (exited _ ∷ rounds) later remaining buffer s = refl
    read_loop-exited (idle ∷ rounds) later remaining buffer s =
        read_loop-exited rounds later remaining buffer s
    read_loop-exited (chunk [] ∷ rounds) later remaining buffer s = refl
    read_loop-exited (chunk (b ∷ bs) ∷ rounds) later remaining buffer s =
        settle-congr (drain_all (on_line clean_name loads) (buffer ++ decode (b ∷ bs)) s) _ _
          (read_loop-exited rounds later remaining)
