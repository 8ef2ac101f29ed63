-- ===== src/Viewer/Feedback.antt =====
-- What the feedback file of generate_review.py holds, whatever requests arrive.
use my_besu_net.Base.{
  ℕ, Bool, true, false, List, [], ◌∷◌, ◌++◌, Option, none, some, ◌≡◌, ◌⊎◌, inl, inr, refl, ◌∙◌,
  take, All, Bool-cases,
}
use my_besu_net.Base.Text.{Text, codes}
use my_besu_net.Json.{Value, Result, ok, raise, Exc}
use my_besu_net.Viewer.Server.{
  Write, done, refused, cut, Length, Request, get, post, Response, dropped, is_feedback,
  has_reviews, body_length, save_feedback, do_post, handle, serve,
}

-- No write of the request is cut short.
abbrev pub IsWhole : Request → Type 0
IsWhole (get path page) = Unit
IsWhole (post path length body (cut part)) = ⊥
IsWhole (post path length body _) = Unit

abbrev is_refused : Write → Bool
is_refused refused = true
is_refused _ = false

module _ {N : Type 0} (loads : Text → Option (Value N)) (dumps : Value N → Text)
    (error_page : Exc → Text) where
  -- The file holds a dictionary with reviews, as it is printed.
  abbrev pub IsSaved : Option Text → Type 0
  IsSaved file = (v : Value N) × (has_reviews v ≡ true) × (file ≡ some (dumps v ++ codes "\n"))

  abbrev Keeps : Option Text → Option Text → Type 0
  Keeps file file' = (file' ≡ file) ⊎ IsSaved file'

  save_feedback-Keeps :
      (file : Option Text) (o : Option (Value N)) (path body : Text) (length : Length)
      (write : Write)
      → IsWhole (post path length body write)
      → Keeps file (save_feedback loads dumps error_page file o write).0
  unfolding save_feedback
  save_feedback-Keeps file none path body length write h = inl refl
  save_feedback-Keeps file (some v) path body length write h = elim (Bool-cases (has_reviews v)) [
    | inl e ↦ written write e h
    | inr e ↦ rw e (inl refl)
  ]
    where
      written :
          (w : Write)
          → has_reviews v ≡ true
          → IsWhole (post path length body w)
          → Keeps file (save_feedback loads dumps error_page file (some v) w).0
      written done e h = rw e (inr (v, e, refl))
      written refused e h = rw e (inl refl)
      written (cut part) e h = absurd h

  handle-Keeps :
      (file : Option Text) (r : Request)
      → IsWhole r
      → Keeps file (handle loads dumps error_page file r).0
  unfolding handle do_post
  handle-Keeps file (get path page) h = inl refl
  handle-Keeps file (post path length body write) h = elim (Bool-cases (is_feedback path)) [
    | inl e ↦ rw e (read (body_length length))
    | inr e ↦ rw e (inl refl)
  ]
    where
      read :
          (n : Result ℕ)
          → Keeps file (
              (elim n as (λ x. Option Text × Response) [
                | raise e ↦ (file, dropped)
                | ok k ↦ save_feedback loads dumps error_page file (loads (take k body)) write
              ]).0)
      read (raise e) = inl refl
      read (ok k) = save_feedback-Keeps file (loads (take k body)) path body length write h

  -- Whatever requests arrive, the feedback file is as it was at first or holds a dictionary with
  -- reviews, unless a write is cut short.
  pub serve-IsSaved :
      (file : Option Text) (rs : List Request)
      → All IsWhole rs
      → ((serve loads dumps error_page file rs).0 ≡ file)
        ⊎ IsSaved (serve loads dumps error_page file rs).0
  unfolding serve
  serve-IsSaved file [] h = inl refl
  serve-IsSaved file (r ∷ rs) h =
      elim (serve-IsSaved (handle loads dumps error_page file r).0 rs h.1) [
        | inr saved ↦ inr saved
        | inl same ↦ elim (handle-Keeps file r h.0) [
          | inl e ↦ inl (same ∙ e)
          | inr (v, good, at) ↦ inr (v, good, same ∙ at)
        ]
      ]
