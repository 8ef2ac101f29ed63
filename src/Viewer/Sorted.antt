-- ===== src/Viewer/Sorted.antt =====
-- What `find_runs` of generate_review.py returns.
use mathlib.Core.List.{map-append}
use my_besu_net.Base.{
  ℕ, Bool, true, false, List, [], ◌∷◌, ◌++◌, ◌≡◌, ◌⊎◌, inl, inr, refl, sym, ap, subst, ◌∙◌, ◌==◌,
  ◌||◌, if◌then◌else◌, All, map, append_assoc, Option,
}
use my_besu_net.Base.Text.{Text, join}
use my_besu_net.Json.{Value, null, num, ok, raise, >>=-ok, type_error}
use my_besu_net.Viewer.Build.{Run, run_id}
use my_besu_net.Viewer.Embed.{Library}
use my_besu_net.Viewer.Find.{Order, IsPython, run_less, insert_run, sort_runs, visit, find_runs}
use my_besu_net.Viewer.Kept.{insert_run-All}
use my_besu_net.Viewer.Tree.{Node, Nodes}

module _ {N : Type 0} where
  abbrev pub IsNull : Run N → Type 0
  IsNull r = r.eval_id ≡ null

  abbrev pub IsNum : Run N → Type 0
  IsNum r = (n : N) × (r.eval_id ≡ num n)

  module _ (o : Order N) (python : IsPython o) where
    run_less-num-null : (a b : Run N) → IsNum a → IsNull b → run_less o a b ≡ raise type_error
    unfolding run_less
    run_less-num-null a b (n, e) f =
        let (unequal, raises) = python.num_null n in rw (e, f, unequal, raises) refl

    run_less-null-num : (a b : Run N) → IsNull a → IsNum b → run_less o a b ≡ raise type_error
    unfolding run_less
    run_less-null-num a b f (n, e) =
        let (unequal, raises) = python.null_num n in rw (e, f, unequal, raises) refl

    insert_run-compares :
        (r s : Run N) (runs : List (Run N)) {sorted : List (Run N)}
        → insert_run o r (s ∷ runs) ≡ ok sorted
        → run_less o s r ≡ raise type_error
        → false ≡ true
    unfolding insert_run
    insert_run-compares r s runs e h = cc (rw h at e)

    inserted :
        (r : Run N) (sorted : List (Run N)) {runs : List (Run N)}
        → IsNull r ⊎ IsNum r
        → All IsNull sorted ⊎ All IsNum sorted
        → insert_run o r sorted ≡ ok runs
        → All IsNull runs ⊎ All IsNum runs
    inserted r sorted (inl p) (inl h) e = inl (insert_run-All o IsNull r sorted p h e)
    inserted r sorted (inr p) (inr h) e = inr (insert_run-All o IsNum r sorted p h e)
    inserted r [] (inl p) (inr h) e = inl (insert_run-All o IsNull r [] p tt e)
    inserted r [] (inr p) (inl h) e = inr (insert_run-All o IsNum r [] p tt e)
    inserted r (s ∷ sorted) (inl p) (inr h) e =
        cc (insert_run-compares r s sorted e (run_less-num-null s r h.0 p))
    inserted r (s ∷ sorted) (inr p) (inl h) e =
        cc (insert_run-compares r s sorted e (run_less-null-num s r h.0 p))

    sort_runs-uniform :
        (runs : List (Run N)) {sorted : List (Run N)}
        → All (λ r. IsNull r ⊎ IsNum r) runs
        → sort_runs o runs ≡ ok sorted
        → All IsNull sorted ⊎ All IsNum sorted
    unfolding sort_runs
    sort_runs-uniform [] {sorted} h e =
        let same : [] ≡ sorted = cc in inl (subst (All IsNull) same tt)
    sort_runs-uniform (r ∷ runs) {sorted} h e =
        let (below, first, last) = >>=-ok (sort_runs o runs) (insert_run o r) e in
        inserted r below h.0 (sort_runs-uniform runs h.1 first) last

    -- If each run that is found has a number as its eval id or none, the runs are returned only if all
    -- have one or none has one: runs of both kinds raise an exception.
    pub find_runs-uniform :
        (is_zero : N → Bool) (loads : Text → Option (Value N)) (library : Library) (parent : Nodes)
        (workspace : Node) {found runs : List (Run N)}
        → visit is_zero loads library [] parent workspace ≡ ok found
        → All (λ r. IsNull r ⊎ IsNum r) found
        → find_runs is_zero loads library o parent workspace ≡ ok runs
        → All IsNull runs ⊎ All IsNum runs
    unfolding find_runs
    find_runs-uniform is_zero loads library parent workspace {found} {runs} v h e =
        let (again, first, last) =
          >>=-ok (visit is_zero loads library [] parent workspace) (sort_runs o) e in
        let same : again ≡ found = cc in
        sort_runs-uniform found h (subst (λ rs. sort_runs o rs ≡ ok runs) same last)

abbrev hyphen : ℕ → ℕ
hyphen c = if c == b'/' || c == b'\\' then b'-' else c

run_id-two : (a b : Text) → run_id (a ∷ b ∷ []) ≡ map hyphen a ++ b'-' ∷ map hyphen b
unfolding run_id join
run_id-two a b = map-append hyphen a (b'/' ∷ b)

-- The id of a run does not tell where a directory's name ends: a hyphen in a name looks like the end of
-- one, and two directories can have one id.
pub run_id_ambiguous :
    (a b c : Text) → run_id ((a ++ b'-' ∷ b) ∷ c ∷ []) ≡ run_id (a ∷ (b ++ b'-' ∷ c) ∷ [])
run_id_ambiguous a b c =
    run_id-two (a ++ b'-' ∷ b) c
    ∙ ap (λ t. t ++ b'-' ∷ map hyphen c) (map-append hyphen a (b'-' ∷ b))
    ∙ append_assoc (map hyphen a) (b'-' ∷ map hyphen b) (b'-' ∷ map hyphen c)
    ∙ ap (λ t. map hyphen a ++ b'-' ∷ t) (sym (map-append hyphen b (b'-' ∷ c)))
    ∙ sym (run_id-two a (b ++ b'-' ∷ c))
