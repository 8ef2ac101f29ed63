-- ===== src/Extract/Check.antt =====
-- `validate_diagrams` of extract_mermaid.py, and the exit status that `main` makes of it. What a call of
-- `mmdc` does is a parameter; printing is not modelled.
use my_besu_net.Base.{
  ℕ, zero, suc, Bool, true, false, not, ◌||◌, List, [], ◌∷◌, Option, none, some, ◌≡◌, ◌↔◌, ◌⊎◌, inl,
  inr, refl, sym, ap, subst, ◌∙◌, arith, if◌then◌else◌, Bool-cases, All,
}
use my_besu_net.Base.Text.{Text, codes, strip}
use my_besu_net.Extract.Diagrams.{Diagram}
use my_besu_net.Json.{>>=-ok, Result, ok, raise, ◌>>=◌, os_error}

-- A call of `mmdc`: whether its return code is 0, its stderr, and the size of its output where there is
-- one; or the call times out, or raises another exception; or the temporary directory or the file in it
-- raises, which is not caught.
pub data Rendered : Type 0 where
  finished : Bool → Text → Option ℕ → Rendered
  timed_out : Rendered
  failed : Text → Rendered
  aborted : Rendered

-- `s or default`
unfoldable pub or_text : Text → Text → Text
or_text [] default = default
or_text (c ∷ t) default = c ∷ t

-- the error, `none` for a diagram that renders
unfoldable pub validate_single_diagram : Rendered → Result (Option Text)
unfolding or_text
validate_single_diagram (finished false stderr size) =
    ok (some (or_text (strip stderr) (codes "Unknown rendering error")))
validate_single_diagram (finished true stderr none) =
    ok (some (codes "Rendering produced no output"))
validate_single_diagram (finished true stderr (some zero)) =
    ok (some (codes "Rendering produced no output"))
validate_single_diagram (finished true stderr (some (suc size))) = ok none
validate_single_diagram timed_out = ok (some (codes "Rendering timed out after 30 seconds"))
validate_single_diagram (failed message) = ok (some message)
validate_single_diagram aborted = raise os_error

-- the dict `results`; the numbers of the diagrams are distinct
unfoldable pub results_of : (Diagram → Rendered) → List Diagram → Result (List (ℕ × Option Text))
unfolding validate_single_diagram
results_of render [] = ok []
results_of render (d ∷ ds) = do
  error ← validate_single_diagram (render d)
  results ← results_of render ds
  ok ((d.index, error) ∷ results)

-- `none` where the program ends because `mmdc` is missing; the test for it may raise
unfoldable pub validate_diagrams :
    Result Bool → (Diagram → Rendered) → List Diagram → Result (Option (List (ℕ × Option Text)))
unfolding results_of
validate_diagrams installed render ds = do
  found ← installed
  if not found then ok none else (do results ← results_of render ds; ok (some results))

-- `if err`
unfoldable pub is_error : Option Text → Bool
is_error none = false
is_error (some []) = false
is_error (some (c ∷ t)) = true

-- `any(results.values())`
unfoldable pub any_error : List (ℕ × Option Text) → Bool
unfolding is_error
any_error [] = false
any_error ((index, error) ∷ rest) = is_error error || any_error rest

-- the exit status of `--validate`
unfoldable pub exit_status : Result (Option (List (ℕ × Option Text))) → ℕ
unfolding any_error
exit_status (raise e) = 1
exit_status (ok none) = 1
exit_status (ok (some results)) = if any_error results then 1 else 0

-- `mmdc` ended with return code 0 and wrote output, or the call raised an exception without a message.
abbrev pub Renders : Rendered → Type 0
Renders r =
    ((stderr : Text) × (size : ℕ) × (r ≡ finished true stderr (some (suc size)))) ⊎ (r ≡ failed [])

abbrev IsValid : Result (Option Text) → Type 0
IsValid (raise e) = ⊥
IsValid (ok error) = is_error error ≡ false

unknown :
    (t : Text)
    → is_error (some (or_text t (codes "Unknown rendering error"))) ≡ false
    → true ≡ false
unfolding is_error or_text
unknown [] h = h
unknown (c ∷ t) h = h

single_iff : (r : Rendered) → IsValid (validate_single_diagram r) ↔ Renders r
unfolding is_error validate_single_diagram
single_iff (finished false stderr size) =
    (λ h. cc (unknown (strip stderr) h), λ h. elim h [ inl (s, n, e) ↦ cc | inr e ↦ cc ])
single_iff (finished true stderr none) = (λ h. cc, λ h. elim h [ inl (s, n, e) ↦ cc | inr e ↦ cc ])
single_iff (finished true stderr (some zero)) =
    (λ h. cc, λ h. elim h [ inl (s, n, e) ↦ cc | inr e ↦ cc ])
single_iff (finished true stderr (some (suc size))) = (λ h. inl (stderr, size, refl), λ h. refl)
single_iff timed_out = (λ h. cc, λ h. elim h [ inl (s, n, e) ↦ cc | inr e ↦ cc ])
single_iff (failed []) = (λ h. inr refl, λ h. refl)
single_iff (failed (c ∷ t)) = (λ h. cc, λ h. elim h [ inl (s, n, e) ↦ cc | inr e ↦ cc ])
single_iff aborted = (λ h. absurd h, λ h. elim h [ inl (s, n, e) ↦ cc | inr e ↦ cc ])

valid_single :
    (r : Rendered)
    → Renders r
    → (error : Option Text) × (validate_single_diagram r ≡ ok error) × (is_error error ≡ false)
valid_single r h = of_valid (validate_single_diagram r) ((single_iff r).1 h)
  where
    of_valid :
        (o : Result (Option Text))
        → IsValid o
        → (error : Option Text) × (o ≡ ok error) × (is_error error ≡ false)
    of_valid (raise e) v = absurd v
    of_valid (ok error) v = (error, refl, v)

results_of-All :
    (render : Diagram → Rendered) (ds : List Diagram) {results : List (ℕ × Option Text)}
    → results_of render ds ≡ ok results
    → any_error results ≡ false
    → All (λ d. Renders (render d)) ds
unfolding results_of any_error
results_of-All render [] e h = tt
results_of-All render (d ∷ ds) {results} e h =
    let (error, single, next) =
      >>=-ok (validate_single_diagram (render d))
        (λ error. results_of render ds >>= λ rest. ok ((d.index, error) ∷ rest)) e in
    let (rest, below, last) =
      >>=-ok (results_of render ds) (λ rest. ok ((d.index, error) ∷ rest)) next in
    let split : any_error ((d.index, error) ∷ rest) ≡ false =
      let same : (d.index, error) ∷ rest ≡ results = cc in ap any_error same ∙ h in
    elim (Bool-cases (is_error error)) [
      | inl bad ↦ cc (rw bad at split)
      | inr good ↦ (
        (single_iff (render d)).0 (subst IsValid (sym single) good),
        results_of-All render ds below (rw good at split),
      )
    ]

All-results_of :
    (render : Diagram → Rendered) (ds : List Diagram)
    → All (λ d. Renders (render d)) ds
    → (results : List (ℕ × Option Text)) × (results_of render ds ≡ ok results)
      × (any_error results ≡ false)
unfolding results_of any_error
All-results_of render [] h = ([], refl, refl)
All-results_of render (d ∷ ds) h =
    let (error, single, good) = valid_single (render d) h.0 in
    let (rest, below, fine) = All-results_of render ds h.1 in
    ((d.index, error) ∷ rest, rw (single, below) refl, rw good fine)

-- The validation exits with status 0 exactly when `mmdc` is installed and, for each diagram, ended with
-- return code 0 and wrote output, or raised an exception whose text is empty.
pub exit_status_iff :
    (installed : Result Bool) (render : Diagram → Rendered) (ds : List Diagram)
    → (exit_status (validate_diagrams installed render ds) ≡ 0)
      ↔ ((installed ≡ ok true) × All (λ d. Renders (render d)) ds)
unfolding exit_status validate_diagrams
exit_status_iff (raise e) render ds = (λ h. ground arith, λ h. cc)
exit_status_iff (ok false) render ds = (λ h. ground arith, λ h. cc)
exit_status_iff (ok true) render ds = (
  λ h. (refl, from_results (results_of render ds) refl h),
  λ h. let (results, run, fine) = All-results_of render ds h.1 in rw run (rw fine refl),
)
  where
    from_results :
        (r : Result (List (ℕ × Option Text)))
        → results_of render ds ≡ r
        → exit_status (r >>= λ results. ok (some results)) ≡ 0
        → All (λ d. Renders (render d)) ds
    from_results (raise e) run h = ground arith
    from_results (ok results) run h = elim (Bool-cases (any_error results)) [
      | inl e ↦ ground (arith, rw e at h)
      | inr e ↦ results_of-All render ds run e
    ]
