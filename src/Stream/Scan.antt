-- ===== src/Stream/Scan.antt =====
-- The reader's state, and what it does with one event, one line and one chunk of output
-- (run_eval.py, the body of the `while` loop).
use my_besu_net.Base.{◌≡◌, refl}
use my_besu_net.Base.{
  ℕ, zero, suc, Bool, true, false, ◌&&◌, ◌||◌, [], ◌∷◌, Option, none, some, ◌==◌, if◌then◌else◌,
  length,
}
use my_besu_net.Base.Text.{Text, strip, includes}
use my_besu_net.Json.{
  Value, null, str, arr, obj, Items, nil, cons, end, Exc, Result, ok, raise, get, is_str, iterate,
  contains, add_text,
}

-- `pending_tool_name`, `accumulated_json` and `triggered`.
pub record Scan (N : Type 0) : Type 0 where
  pub pending : Option (Value N)
  pub accumulated : Text
  pub triggered : Bool

-- How a statement of the loop ends: it falls through, it returns, or it raises.
pub data Flow {ℓ} (A : Type ℓ) : Type ℓ where
  next : A → Flow A
  done : Bool → Flow A
  raised : Exc → Flow A

infixl 5 ◌>>=◌
abbrev pub ◌>>=◌ {ℓ κ} : {X : Type ℓ} {Y : Type κ} → Flow X → (X → Flow Y) → Flow Y
raised e >>= k = raised e
done answer >>= k = done answer
next x >>= k = k x

pub bind-congr {ℓ κ} :
    {A : Type ℓ} {B : Type κ} (m : Flow A) (f g : A → Flow B)
    → ((a : A) → f a ≡ g a)
    → (m >>= f) ≡ (m >>= g)
bind-congr (next a) f g h = h a
bind-congr (done b) f g h = refl
bind-congr (raised e) f g h = refl

pub bind_assoc {ℓ κ μ} :
    {A : Type ℓ} {B : Type κ} {C : Type μ} (m : Flow A) (f : A → Flow B) (g : B → Flow C)
    → (m >>= f >>= g) ≡ (m >>= λ a. f a >>= g)
bind_assoc (next a) f g = refl
bind_assoc (done b) f g = refl
bind_assoc (raised e) f g = refl

abbrev pub lift {ℓ} : {A : Type ℓ} → Result A → Flow A
lift (ok a) = next a
lift (raise e) = raised e

abbrev pub is_some {ℓ} : {A : Type ℓ} → Option A → Bool
is_some none = false
is_some (some a) = true

module _ {N : Type 0} (clean_name : Text) where
  abbrev pub initial : Scan N
  initial = record { pending = none; accumulated = []; triggered = false }

  -- `content_block_start`
  unfoldable pub start_block : Value N → Scan N → Flow (Scan N)
  start_block se s = do
    cb ← lift (get se "content_block" (obj end))
    kind ← lift (get cb "type" null)
    if is_str "tool_use" kind
        then (do
          tool_name ← lift (get cb "name" (str []))
          if is_str "Skill" tool_name || is_str "Read" tool_name
              then next (record s { pending = some tool_name; accumulated = [] })
              else done false)
        else next s

  -- `content_block_delta`, with a tool pending
  unfoldable pub delta_block : Value N → Scan N → Flow (Scan N)
  delta_block se s = do
    delta ← lift (get se "delta" (obj end))
    kind ← lift (get delta "type" null)
    if is_str "input_json_delta" kind
        then (do
          part ← lift (get delta "partial_json" (str []))
          json ← lift (add_text s.accumulated part)
          if includes clean_name json then done true else next (record s { accumulated = json }))
        else next s

  -- `content_block_stop` and `message_stop`; the flag is `se_type == "message_stop"`
  unfoldable pub stop_block : Bool → Scan N → Flow (Scan N)
  stop_block message_stop s =
      if is_some s.pending
      then done (includes clean_name s.accumulated)
      else if message_stop
      then done false
      else next s

  unfoldable pub stream_event : Value N → Scan N → Flow (Scan N)
  unfolding start_block delta_block stop_block
  stream_event event s = do
    se ← lift (get event "event" (obj end))
    se_type ← lift (get se "type" (str []))
    if is_str "content_block_start" se_type
        then start_block se s
        else if is_str "content_block_delta" se_type && is_some s.pending
        then delta_block se s
        else if is_str "content_block_stop" se_type || is_str "message_stop" se_type
        then stop_block (is_str "message_stop" se_type) s
        else next s

  -- the first `tool_use` item of a full message; it always returns
  unfoldable pub judge_tool : Value N → Scan N → Flow (Scan N)
  judge_tool item s = do
    tool_name ← lift (get item "name" (str []))
    tool_input ← lift (get item "input" (obj end))
    if is_str "Skill" tool_name
        then (do
          skill ← lift (get tool_input "skill" (str []))
          hit ← lift (contains clean_name skill)
          done (if hit then true else s.triggered))
        else if is_str "Read" tool_name
        then (do
          file_path ← lift (get tool_input "file_path" (str []))
          hit ← lift (contains clean_name file_path)
          done (if hit then true else s.triggered))
        else done s.triggered

  unfoldable pub content_items : Items N → Scan N → Flow (Scan N)
  unfolding judge_tool
  content_items nil s = next s
  content_items (cons item items) s = do
    kind ← lift (get item "type" null)
    if is_str "tool_use" kind then judge_tool item s else content_items items s

  unfoldable pub assistant_event : Value N → Scan N → Flow (Scan N)
  unfolding content_items
  assistant_event event s = do
    message ← lift (get event "message" (obj end))
    content ← lift (get message "content" (arr nil))
    items ← lift (iterate content)
    content_items items s

  unfoldable pub on_event : Value N → Scan N → Flow (Scan N)
  unfolding stream_event assistant_event
  on_event event s = do
    kind ← lift (get event "type" null)
    if is_str "stream_event" kind
        then stream_event event s
        else if is_str "assistant" kind
        then assistant_event event s
        else if is_str "result" kind
        then done s.triggered
        else next s

  module _ (loads : Text → Option (Value N)) where
    -- one line of output; `loads` is `json.loads`, `none` its `JSONDecodeError`
    unfoldable pub on_line : Text → Scan N → Flow (Scan N)
    on_line line s = blank (strip line)
      where
        decoded : Option (Value N) → Flow (Scan N)
        decoded none = next s
        decoded (some event) = on_event event s

        blank : Text → Flow (Scan N)
        blank [] = next s
        blank (c ∷ t) = decoded (loads (c ∷ t))

-- `buffer.split("\n", 1)`; `none` where the buffer holds no newline
unfoldable pub split_line : Text → Option (Text × Text)
split_line [] = none
split_line (c ∷ t) = if c == b'\n' then some ([], t) else cons_line c (split_line t)
  where
    cons_line : ℕ → Option (Text × Text) → Option (Text × Text)
    cons_line c none = none
    cons_line c (some (line, rest)) = some (c ∷ line, rest)

module _ {S : Type 0} (step : Text → S → Flow S) where
  -- `while "\n" in buffer`, on fuel; a buffer has fewer lines than characters
  unfoldable pub drain : ℕ → Text → S → Flow (Text × S)
  unfolding split_line
  drain zero buffer s = next (buffer, s)
  drain (suc fuel) buffer s = elim (split_line buffer) [
    | none ↦ next (buffer, s)
    | some (line, rest) ↦ step line s >>= drain fuel rest
  ]

  -- the loop with the fuel that the buffer needs
  unfoldable pub drain_all : Text → S → Flow (Text × S)
  drain_all buffer = drain (suc (length buffer)) buffer
