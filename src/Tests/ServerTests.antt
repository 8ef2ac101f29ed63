-- ===== src/Tests/ServerTests.antt =====
-- The requests of generate_review.py at concrete data.
use my_besu_net.Base.{
  ℕ, true, false, List, [], ◌∷◌, ◌++◌, Option, none, some, ◌≡◌, ◌⊎◌, inl, inr, refl, if◌then◌else◌,
  take,
}
use my_besu_net.Base.Text.{Text, codes, is, equal}
use my_besu_net.Json.{Value, obj, arr, Fields, Items, Result, ok, Exc}
use my_besu_net.Validate.Rules.{has_key}
use my_besu_net.Viewer.Server
use my_besu_net.Viewer.Server.{
  Write, done, refused, cut, Length, Request, post, Response, response, serve, is_feedback,
  has_reviews, body_length,
}
use my_besu_net.Viewer.Feedback.{IsSaved, serve-IsSaved}
use my_besu_net.Viewer.RoundTrip.{accepts, serve-saved-get}

abbrev reviews : Value ℕ
reviews = obj (Fields.field (codes "reviews") (arr Items.nil) Fields.end)

-- a reader that knows one text
abbrev loads : Text → Option (Value ℕ)
loads t = if is "R" t then some reviews else none

abbrev dumps : Value ℕ → Text
dumps v = codes "R"

abbrev error_page : Exc → Text
error_page e = codes "error"

abbrev feedback : Write → Request
feedback w = post (codes "/api/feedback") (Length.number 1) (codes "RR") w

abbrev page : Result Text
page = ok (codes "page")

served :
    serve loads dumps error_page none (feedback refused ∷ feedback done ∷ [])
    ≡ (some (codes "R\n"), response 500 (codes "error") ∷ response 200 (codes "{\"ok\":true}") ∷ [])
unfolding serve Server.handle Server.do_post Server.save_feedback is_feedback has_reviews
    body_length has_key is equal
served = refl

serve-IsSaved_example :
    ((serve loads dumps error_page none (feedback refused ∷ feedback done ∷ [])).0 ≡ none)
    ⊎ IsSaved loads dumps error_page
        (serve loads dumps error_page none (feedback refused ∷ feedback done ∷ [])).0
serve-IsSaved_example =
    serve-IsSaved loads dumps error_page none (feedback refused ∷ feedback done ∷ []) (tt, (tt, tt))

loaded : loads (take 1 (codes "RR")) ≡ some reviews
unfolding is equal
loaded = refl

reviewed : has_reviews reviews ≡ true
unfolding has_reviews has_key is equal
reviewed = refl

-- a POST whose body the reader does not know
abbrev junk : Request
junk = post (codes "/api/feedback") (Length.number 1) (codes "XX") done

rejected : accepts loads dumps error_page (loads (take 1 (codes "XX"))) ≡ false
unfolding is equal
rejected = refl

one_byte : body_length (Length.number 1) ≡ ok 1
unfolding body_length
one_byte = refl

serve-saved-get_example :
    (answers : List Response) × (serve loads dumps error_page none
        (feedback done ∷ feedback refused ∷ junk ∷ Request.get (codes "/api/feedback") page ∷ [])
      ≡ (
        some (codes "R\n"),
        response 200 (codes "{\"ok\":true}") ∷ (answers ++ response 200 (codes "R\n") ∷ []),
      ))
serve-saved-get_example =
    serve-saved-get loads dumps error_page none 1 (codes "RR") reviews
      (feedback refused ∷ junk ∷ []) page loaded reviewed
      (inr (inr (inl refl)), (inr (inr (inr (1, one_byte, rejected))), tt))
