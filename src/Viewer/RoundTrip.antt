-- ===== src/Viewer/RoundTrip.antt =====
-- Feedback that is sent to generate_review.py and asked for again.
use my_besu_net.Base.{
  ℕ, Bool, true, false, List, [], ◌∷◌, ◌++◌, Option, none, some, ◌≡◌, ◌⊎◌, inl, inr, refl, sym, ap,
  subst, ◌∙◌, take, All, Bool-cases,
}
use my_besu_net.Base.Text.{Text, codes, is, equal}
use my_besu_net.Json.{Value, Result, ok, raise, Exc}
use my_besu_net.Viewer.Server.{
  Write, done, refused, Length, number, malformed, Request, get, post, Response, response, dropped,
  is_feedback, has_reviews, body_length, save_feedback, do_post, handle, serve, feedback_of, do_get,
}

module _ {N : Type 0} (loads : Text → Option (Value N)) (dumps : Value N → Text)
    (error_page : Exc → Text) where
  abbrev pub accepts : Option (Value N) → Bool
  accepts none = false
  accepts (some v) = has_reviews v

  -- The body is no JSON, or no dictionary with reviews.
  abbrev pub IsRejected : Length → Text → Type 0
  IsRejected length body =
      (n : ℕ) × (body_length length ≡ ok n) × (accepts (loads (take n body)) ≡ false)

  -- The request is a GET, or a POST to another path, or one of which nothing is written: its length is
  -- no number, its body is rejected, or the write is refused.
  abbrev pub IsQuiet : Request → Type 0
  IsQuiet (get path page) = Unit
  IsQuiet (post path length body write) =
      (is_feedback path ≡ false) ⊎ (length ≡ malformed) ⊎ (write ≡ refused) ⊎ IsRejected length body

  save_feedback-rejected :
      (file : Option Text) (o : Option (Value N)) (write : Write)
      → accepts o ≡ false
      → (save_feedback loads dumps error_page file o write).0 ≡ file
  unfolding save_feedback
  save_feedback-rejected file none write h = refl
  save_feedback-rejected file (some v) write h = rw h refl

  post-rejected :
      (file : Option Text) (path body : Text) (length : Length) (write : Write)
      → IsRejected length body
      → (handle loads dumps error_page file (post path length body write)).0 ≡ file
  unfolding handle do_post
  post-rejected file path body length write (n, e, h) = elim (Bool-cases (is_feedback path)) [
    | inl p ↦ rw p (rw e (save_feedback-rejected file (loads (take n body)) write h))
    | inr p ↦ rw p refl
  ]

  save_feedback-refused :
      (file : Option Text) (o : Option (Value N))
      → (save_feedback loads dumps error_page file o refused).0 ≡ file
  unfolding save_feedback
  save_feedback-refused file none = refl
  save_feedback-refused file (some v) = elim (Bool-cases (has_reviews v)) [
    | inl e ↦ rw e refl
    | inr e ↦ rw e refl
  ]

  post-malformed :
      (file : Option Text) (path body : Text) (write : Write)
      → (handle loads dumps error_page file (post path malformed body write)).0 ≡ file
  unfolding handle do_post
  post-malformed file path body write = elim (Bool-cases (is_feedback path)) [
    | inl e ↦ rw e refl
    | inr e ↦ rw e refl
  ]

  post-refused :
      (file : Option Text) (path body : Text) (length : Length)
      → (handle loads dumps error_page file (post path length body refused)).0 ≡ file
  unfolding handle do_post
  post-refused file path body length = elim (Bool-cases (is_feedback path)) [
    | inl e ↦ rw e (read (body_length length))
    | inr e ↦ rw e refl
  ]
    where
      read :
          (n : Result ℕ)
          → (elim n as (λ x. Option Text × Response) [
            | raise e ↦ (file, dropped)
            | ok k ↦ save_feedback loads dumps error_page file (loads (take k body)) refused
          ]).0
            ≡ file
      read (raise e) = refl
      read (ok k) = save_feedback-refused file (loads (take k body))

  handle-IsQuiet :
      (file : Option Text) (r : Request)
      → IsQuiet r
      → (handle loads dumps error_page file r).0 ≡ file
  handle-IsQuiet file (get path page) h = unfold handle in refl
  handle-IsQuiet file (post path length body write) (inl e) = unfold handle do_post in rw e refl
  handle-IsQuiet file (post path length body write) (inr (inl e)) =
      subst (λ l. (handle loads dumps error_page file (post path l body write)).0 ≡ file) (sym e)
        (post-malformed file path body write)
  handle-IsQuiet file (post path length body write) (inr (inr (inr h))) =
      post-rejected file path body length write h
  handle-IsQuiet file (post path length body write) (inr (inr (inl e))) =
      subst (λ w. (handle loads dumps error_page file (post path length body w)).0 ≡ file) (sym e)
        (post-refused file path body length)

  -- A GET of the feedback behind quiet requests answers with the file that was there before them.
  get_last :
      (file : Option Text) (rs : List Request) (page : Result Text)
      → All IsQuiet rs
      → (answers : List Response) × (serve loads dumps error_page file
            (rs ++ get (codes "/api/feedback") page ∷ [])
          ≡ (file, answers ++ response 200 (feedback_of file) ∷ []))
  unfolding serve
  get_last file [] page h = ([], unfold handle do_get is is_feedback equal in refl)
  get_last file (r ∷ rs) page h =
      let (answers, at) = get_last file rs page h.1 in
      let same = handle-IsQuiet file r h.0 in
      (
        (handle loads dumps error_page file r).1 ∷ answers,
        ap
              (λ f.
                let (last, more) =
                  serve loads dumps error_page f (rs ++ get (codes "/api/feedback") page ∷ []) in
                (last, (handle loads dumps error_page file r).1 ∷ more))
              same
            ∙ ap
                (λ (p : Option Text × List Response).
                  (p.0, (handle loads dumps error_page file r).1 ∷ p.1))
                at,
      )

  accepted :
      (file : Option Text) (n : ℕ) (body : Text) (v : Value N)
      → loads (take n body) ≡ some v
      → has_reviews v ≡ true
      → handle loads dumps error_page file (post (codes "/api/feedback") (number n) body done)
        ≡ (some (dumps v ++ codes "\n"), response 200 (codes "{\"ok\":true}"))
  unfolding handle do_post save_feedback is_feedback is equal
  accepted file n body v h good = rw (h, good) refl

  -- Feedback that is a dictionary with reviews and is written comes back at the next GET, whatever
  -- requests stand between them of which nothing is written.
  pub serve-saved-get :
      (file : Option Text) (n : ℕ) (body : Text) (v : Value N) (rs : List Request)
      (page : Result Text)
      → loads (take n body) ≡ some v
      → has_reviews v ≡ true
      → All IsQuiet rs
      → (answers : List Response) × (serve loads dumps error_page file (
            post (codes "/api/feedback") (number n) body done
            ∷ (rs ++ get (codes "/api/feedback") page ∷ []))
          ≡ (
            some (dumps v ++ codes "\n"),
            response 200 (codes "{\"ok\":true}")
                ∷ (answers ++ response 200 (dumps v ++ codes "\n") ∷ []),
          ))
  unfolding serve
  serve-saved-get file n body v rs page h good quiet =
      let saved = some (dumps v ++ codes "\n") in
      let (answers, at) = get_last saved rs page quiet in
      (
        answers,
        ap
              (λ (p : Option Text × Response).
                let (last, more) =
                  serve loads dumps error_page p.0 (rs ++ get (codes "/api/feedback") page ∷ []) in
                (last, p.1 ∷ more))
              (accepted file n body v h good)
            ∙ ap
                (λ (p : Option Text × List Response).
                  (p.0, response 200 (codes "{\"ok\":true}") ∷ p.1))
                at,
      )
