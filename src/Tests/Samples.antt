-- ===== src/Tests/Samples.antt =====
-- Data for the tests: exact fractions in place of floats, events of the stream.
use my_besu_net.Base.{
  map, ◌&&◌, ◌+◌, ℕ, ◌*◌, ◌≤◌, true, not, Option, none, some, ◌≡◌, refl, arith, leb, if◌then◌else◌,
  String,
}
use my_besu_net.Base.Text.{Text, codes, is}
use my_besu_net.Floats.{Floats, IsOrdered, IsMonotone}
use my_besu_net.Json.{Value, str, obj, end, field}

abbrev pub fractions : Floats
fractions = record {
  F = ℕ × ℕ;
  ratio = λ a b. (a, b);
  geb = λ x y. leb (y.0 * x.1) (x.0 * y.1);
  ltb = λ x y. not (leb (y.0 * x.1) (x.0 * y.1));
}

pub fractions-IsOrdered : IsOrdered fractions
fractions-IsOrdered x y = refl

scaled : (p a b d : ℕ) → leb p (a * d) ≡ true → a ≤ b → leb p (b * d) ≡ true
scaled p a b d h le = grind arith

pub fractions-IsMonotone : IsMonotone fractions
fractions-IsMonotone a b n y le h = scaled (y.0 * n) a b y.1 h le

-- one field and no other
abbrev pub one : String → Value ℕ → Value ℕ
one k v = obj (field (codes k) v end)

abbrev pub two : String → Value ℕ → String → Value ℕ → Value ℕ
two k v j w = obj (field (codes k) v (field (codes j) w end))

abbrev pub word : String → Value ℕ
word s = str (codes s)

abbrev pub framed : Value ℕ → Value ℕ
framed se = two "type" (word "stream_event") "event" se

abbrev pub start_of : String → Value ℕ
start_of name = framed (
    two "type" (word "content_block_start") "content_block"
      (two "type" (word "tool_use") "name" (word name)))

abbrev pub part_of : String → Value ℕ
part_of piece = framed (
    two "type" (word "content_block_delta") "delta"
      (two "type" (word "input_json_delta") "partial_json" (word piece)))

abbrev pub stop_event : Value ℕ
stop_event = framed (one "type" (word "content_block_stop"))

-- A decoder that knows a few lines.
unfoldable pub loads : Text → Option (Value ℕ)
unfolding is
loads line =
    if is "S" line
    then some (start_of "Skill")
    else if is "P" line
    then some (part_of "my-skill")
    else if is "R" line
    then some (one "type" (word "result"))
    else none

-- Every front matter is read as the same two fields.
abbrev pub safe_load : Text → Option (Value ℕ)
safe_load text = some (two "name" (str (codes "my-skill")) "description" (str (codes "Does it.")))

abbrev pub skill : Text
skill = codes "---\nname: my-skill\ndescription: Does it.\n---\nText.\n"

-- `str.lower` on ASCII
abbrev pub ascii_lower : Text → Text
ascii_lower = map (λ c. if leb b'A' c && leb c b'Z' then c + 32 else c)
