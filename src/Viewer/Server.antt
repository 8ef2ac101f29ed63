-- ===== src/Viewer/Server.antt =====
-- `ReviewHandler` of generate_review.py: the requests that the server answers, and the file that they
-- change.
use my_besu_net.Base.{
  ℕ, Bool, false, not, ◌||◌, List, [], ◌∷◌, ◌++◌, Option, none, some, if◌then◌else◌, take,
}
use my_besu_net.Base.Text.{Text, codes, is}
use my_besu_net.Json.{Value, obj, Result, ok, raise, Exc, value_error, os_error}
use my_besu_net.Validate.Rules.{has_key}

-- What becomes of a write: it is done, or it raises and leaves the file as it was, or raises with a
-- part of the text written.
pub data Write : Type 0 where
  done : Write
  refused : Write
  cut : Text → Write

-- The header `Content-Length`: absent, a number, or no number.
pub data Length : Type 0 where
  absent : Length
  number : ℕ → Length
  malformed : Length

-- A request: its path, with the page that the workspace gives at that time, or for a POST the length
-- and the body, with what becomes of the write.
pub data Request : Type 0 where
  get : Text → Result Text → Request
  post : Text → Length → Text → Write → Request

-- A response: the status and the content; `dropped` where the handler raises before it answers.
pub data Response : Type 0 where
  response : ℕ → Text → Response
  dropped : Response

-- `self.path == "/api/feedback"`
unfoldable pub is_feedback : Text → Bool
unfolding is
is_feedback path = is "/api/feedback" path

-- `isinstance(data, dict) and "reviews" in data`
unfoldable pub has_reviews : {N : Type 0} → Value N → Bool
unfolding has_key
has_reviews (obj fields) = has_key "reviews" fields
has_reviews _ = false

-- the number of bytes that are read of the body
unfoldable pub body_length : Length → Result ℕ
body_length absent = ok 0
body_length (number n) = ok n
body_length malformed = raise value_error

-- the content of the feedback file, `{}` where there is none
abbrev pub feedback_of : Option Text → Text
feedback_of none = codes "{}"
feedback_of (some text) = text

-- `loads` is `json.loads` on bytes, `none` a `ValueError`; `dumps` is `json.dumps(…, indent=2)`;
-- `error_page` is the JSON with the message of the exception.
module _ {N : Type 0} (loads : Text → Option (Value N)) (dumps : Value N → Text)
    (error_page : Exc → Text) where
  -- the feedback file and the response behind a body that is read
  unfoldable pub save_feedback : Option Text → Option (Value N) → Write → Option Text × Response
  unfolding has_reviews
  save_feedback file none write = (file, response 500 (error_page value_error))
  save_feedback file (some value) write =
      if not (has_reviews value)
      then (file, response 500 (error_page value_error))
      else (elim write [
        | done ↦ (some (dumps value ++ codes "\n"), response 200 (codes "{\"ok\":true}"))
        | refused ↦ (file, response 500 (error_page os_error))
        | cut part ↦ (some part, response 500 (error_page os_error))
      ])

  unfoldable pub do_post : Option Text → Text → Length → Text → Write → Option Text × Response
  unfolding save_feedback is_feedback body_length
  do_post file path length body write =
      if is_feedback path
      then (elim (body_length length) [
        | raise e ↦ (file, dropped)
        | ok n ↦ save_feedback file (loads (take n body)) write
      ])
      else (file, response 404 [])

  unfoldable pub do_get : Option Text → Text → Result Text → Response
  unfolding is_feedback is
  do_get file path page =
      if is "/" path || is "/index.html" path
      then (elim page [ ok html ↦ response 200 html | raise e ↦ dropped ])
      else if is_feedback path
      then response 200 (feedback_of file)
      else response 404 []

  -- one request
  unfoldable pub handle : Option Text → Request → Option Text × Response
  unfolding do_get do_post
  handle file (get path page) = (file, do_get file path page)
  handle file (post path length body write) = do_post file path length body write

  -- the requests one after the other: the server has one thread
  unfoldable pub serve : Option Text → List Request → Option Text × List Response
  unfolding handle
  serve file [] = (file, [])
  serve file (r ∷ rs) =
      let (file', answer) = handle file r in
      let (last, answers) = serve file' rs in (last, answer ∷ answers)
