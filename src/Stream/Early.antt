-- ===== src/Stream/Early.antt =====
-- Early detection agrees with judging the whole tool input (run_eval.py, lines 128 to 154).
use my_besu_net.Base.{
  true, false, ◌&&◌, ◌||◌, List, [], ◌∷◌, ◌++◌, some, ◌≡◌, refl, ◌∙◌, arith, if◌then◌else◌,
  Bool-cases, inl, inr, append_assoc, append-nil, String,
}
use my_besu_net.Base.Text.{Text, is, starts_with, includes}
use my_besu_net.Json.{Value, null, str, obj, end, ok, get, is_str, add_text}
use my_besu_net.Stream.Scan.{Scan, Flow, next, done, ◌>>=◌, on_event, stream_event}

starts_with-append : (s t p : Text) → starts_with s p ≡ true → starts_with (s ++ t) p ≡ true
unfolding starts_with
starts_with-append s t [] h = refl
starts_with-append [] t (y ∷ p) h = cc
starts_with-append (x ∷ s) t (y ∷ p) h = ground (arith, starts_with-append s t p)

-- Text that holds the name still holds it when more is appended.
pub includes-append : (p s t : Text) → includes p s ≡ true → includes p (s ++ t) ≡ true
unfolding includes
includes-append [] [] [] h = refl
includes-append [] [] (_ ∷ _) h = refl
includes-append (_ ∷ _) [] t h = cc
includes-append p (x ∷ s) t h = elim (Bool-cases (starts_with (x ∷ s) p)) [
  | inl e ↦ rw (starts_with-append (x ∷ s) t p e) refl
  | inr e ↦ ground (arith, includes-append p s t)
]

-- `"".join(pieces)`
abbrev pub join_pieces : List Text → Text
join_pieces [] = []
join_pieces (piece ∷ pieces) = piece ++ join_pieces pieces

module _ {N : Type 0} where
  -- The value under the key is `x`, whatever default is asked for.
  abbrev pub At : Value N → String → Value N → Type 0
  At v k x = (d : Value N) → get v k d ≡ ok x

  -- `{"type": "stream_event", "event": se}`, with any further keys
  pub record IsStreamEvent (event se : Value N) (se_type : Text) : Type 0 where
    pub kind : Text
    pub kind_at : At event "type" (str kind)
    pub kind_is : is "stream_event" kind ≡ true
    pub event_at : At event "event" se
    pub type_at : At se "type" (str se_type)

  -- a `content_block_start` of the tool `name`
  pub record IsStart (event : Value N) (name : Text) : Type 0 where
    pub se : Value N
    pub se_type : Text
    pub frame : IsStreamEvent event se se_type
    pub se_is : is "content_block_start" se_type ≡ true
    pub block : Value N
    pub block_at : At se "content_block" block
    pub block_kind : Text
    pub block_kind_at : At block "type" (str block_kind)
    pub block_kind_is : is "tool_use" block_kind ≡ true
    pub name_at : At block "name" (str name)

  -- a `content_block_delta` that carries the piece `part` of a tool's input
  pub record IsPart (event : Value N) (part : Text) : Type 0 where
    pub se : Value N
    pub se_type : Text
    pub frame : IsStreamEvent event se se_type
    pub not_start : is "content_block_start" se_type ≡ false
    pub se_is : is "content_block_delta" se_type ≡ true
    pub delta : Value N
    pub delta_at : At se "delta" delta
    pub delta_kind : Text
    pub delta_kind_at : At delta "type" (str delta_kind)
    pub delta_kind_is : is "input_json_delta" delta_kind ≡ true
    pub part_at : At delta "partial_json" (str part)

  -- a `content_block_stop`
  pub record IsStop (event : Value N) : Type 0 where
    pub se : Value N
    pub se_type : Text
    pub frame : IsStreamEvent event se se_type
    pub not_start : is "content_block_start" se_type ≡ false
    pub not_delta : is "content_block_delta" se_type ≡ false
    pub se_is : is "content_block_stop" se_type ≡ true

  -- the events of one tool's input, piece by piece, up to its end
  pub data IsInput : List (Value N) → List Text → Type 0 where
    stop : {event : Value N} → IsStop event → IsInput (event ∷ []) []
    part :
        {event : Value N} {piece : Text} {events : List (Value N)} {pieces : List Text}
        → IsPart event piece
        → IsInput events pieces
        → IsInput (event ∷ events) (piece ∷ pieces)

  module _ (clean_name : Text) where
    on_event-IsStreamEvent :
        (event se : Value N) (se_type : Text) (s : Scan N)
        → IsStreamEvent event se se_type
        → on_event clean_name event s ≡ stream_event clean_name event s
    unfolding on_event is_str
    on_event-IsStreamEvent event se se_type s f = rw (f.kind_at null, f.kind_is)

    on_event-IsPart :
        (event : Value N) (piece : Text) (s : Scan N) (tool : Value N)
        → s.pending ≡ some tool
        → IsPart event piece
        → on_event clean_name event s ≡ (
            if includes clean_name (s.accumulated ++ piece)
            then done true
            else next (record s { accumulated = s.accumulated ++ piece }))
    unfolding stream_event is_str add_text
    on_event-IsPart event piece s tool h e =
        on_event-IsStreamEvent event e.se e.se_type s e.frame
        ∙ rw (
          e.frame.event_at (obj end),
          e.frame.type_at (str []),
          e.not_start,
          e.se_is,
          h,
          e.delta_at (obj end),
          e.delta_kind_at null,
          e.delta_kind_is,
          e.part_at (str []),
        )

    on_event-IsStop :
        (event : Value N) (s : Scan N) (tool : Value N)
        → s.pending ≡ some tool
        → IsStop event
        → on_event clean_name event s ≡ done (includes clean_name s.accumulated)
    unfolding stream_event is_str
    on_event-IsStop event s tool h e =
        on_event-IsStreamEvent event e.se e.se_type s e.frame
        ∙ rw (
          e.frame.event_at (obj end),
          e.frame.type_at (str []),
          e.not_start,
          e.not_delta,
          e.se_is,
          h,
        )

    -- The events in turn.
    unfoldable pub on_events : List (Value N) → Scan N → Flow (Scan N)
    on_events [] s = next s
    on_events (event ∷ events) s = on_event clean_name event s >>= on_events events

    on_events-IsInput :
        (events : List (Value N)) (pieces : List Text) (s : Scan N) (tool : Value N)
        → s.pending ≡ some tool
        → IsInput events pieces
        → on_events events s ≡ done (includes clean_name (s.accumulated ++ join_pieces pieces))
    unfolding on_events
    on_events-IsInput _ _ s tool h (stop {event} e) =
        rw (on_event-IsStop event s tool h e) (rw append-nil)
    on_events-IsInput _ _ s tool h (part {event} {piece} {events} {pieces} e more) =
        elim (Bool-cases (includes clean_name (s.accumulated ++ piece))) [
          | inl found ↦
              rw (on_event-IsPart event piece s tool h e, found)
                (rw (← append_assoc s.accumulated piece (join_pieces pieces))
                  (rw (includes-append clean_name _ (join_pieces pieces) found)))
          | inr missing ↦
              rw (on_event-IsPart event piece s tool h e, missing)
                (on_events-IsInput events pieces (record s { accumulated = s.accumulated ++ piece })
                    tool h more
                  ∙ rw append_assoc)
        ]

    on_event-IsStart :
        (event : Value N) (name : Text) (s : Scan N)
        → IsStart event name
        → on_event clean_name event s ≡ (
            if is "Skill" name || is "Read" name
            then next (record s { pending = some (str name); accumulated = [] })
            else done false)
    unfolding stream_event is_str
    on_event-IsStart event name s e =
        on_event-IsStreamEvent event e.se e.se_type s e.frame
        ∙ rw (
          e.frame.event_at (obj end),
          e.frame.type_at (str []),
          e.se_is,
          e.block_at (obj end),
          e.block_kind_at null,
          e.block_kind_is,
          e.name_at (str []),
        )

    -- Whatever was read before, the start of a tool decides the query: a tool other than `Skill` and
    -- `Read` ends it with False, and the input of one of those ends it with whether its pieces,
    -- joined, hold the name; that the reader returns at the first piece that completes the name
    -- makes no difference.
    pub on_events-IsStart :
        (start : Value N) (name : Text) (events : List (Value N)) (pieces : List Text) (s : Scan N)
        → IsStart start name
        → IsInput events pieces
        → on_events (start ∷ events) s
          ≡ done ((is "Skill" name || is "Read" name) && includes clean_name (join_pieces pieces))
    unfolding on_events
    on_events-IsStart start name events pieces s e input =
        elim (Bool-cases (is "Skill" name || is "Read" name)) [
          | inl watched ↦
              rw (on_event-IsStart start name s e, watched)
                (on_events-IsInput events pieces
                  (record s { pending = some (str name); accumulated = [] }) (str name) refl input)
          | inr other ↦ rw (on_event-IsStart start name s e, other)
        ]
