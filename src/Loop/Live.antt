-- ===== src/Loop/Live.antt =====
-- What becomes of the live report in the loop of run_loop.py (lines 139 to 151).
use my_besu_net.Base.{
  ℕ, zero, suc, true, List, [], ◌∷◌, Option, none, some, ◌≡◌, ◌≢◌, refl, length, All,
}
use my_besu_net.Base.Dict.{lookup}
use my_besu_net.Base.Text.{Text, equal}
use my_besu_net.Eval.Pool.{Item}
use my_besu_net.Floats.{Floats}
use my_besu_net.HtmlReport.Live.{partial_info, live_report}
use my_besu_net.HtmlReport.Outcome.{Reported, generate_html-Reported}
use my_besu_net.HtmlReport.Page.{IsPython}
use my_besu_net.Json.{Result, ok, raise, ◌>>=◌, value_error, type_error}
use my_besu_net.Loop.History.{Entry}
use my_besu_net.Loop.Run.{LivePage, Calls, write_live}
use my_besu_net.Loop.Tested.{Tested}

-- The live report, if there is one, compares ints as Python does, and each write of it is done.
abbrev pub IsWritable : {F : Type 0} → Option (LivePage F) → Type 0
IsWritable none = Unit
IsWritable (some page) =
    IsPython page.order × ((i : ℕ) (html : Text) → page.write_text i html ≡ ok tt)

module _ {F : Type 0} where
  -- The live report can be made: there is none, or there is a test set.
  abbrev pub Runs : Option (LivePage F) → List Item → Type 0
  Runs none test_set = Unit
  Runs (some page) [] = ⊥
  Runs (some page) (t ∷ ts) = Unit

  -- There is a result, but a TypeError where the live report has no test set.
  abbrev pub Ended : {A : Type 0} → Option (LivePage F) → List Item → Result A → Type 0
  Ended {A} none test_set r = (a : A) × (r ≡ ok a)
  Ended (some page) [] r = r ≡ raise type_error
  Ended {A} (some page) (t ∷ ts) r = (a : A) × (r ≡ ok a)

  -- There is a result where there is an iteration and the live report, if any, has a test set; without
  -- an iteration there is a ValueError, and else a TypeError.
  abbrev pub Returns : {A : Type 0} → ℕ → Option (LivePage F) → List Item → Result A → Type 0
  Returns zero live test_set r = r ≡ raise value_error
  Returns (suc limit) live test_set r = Ended live test_set r

  pub Ended-Runs :
      {A : Type 0} (o : Option (LivePage F)) (test_set : List Item) (r : Result A)
      → Runs o test_set
      → Ended o test_set r
      → (a : A) × (r ≡ ok a)
  Ended-Runs none test_set r h e = e
  Ended-Runs (some page) [] r h e = absurd h
  Ended-Runs (some page) (t ∷ ts) r h e = e

  pub Ended->>= :
      {A B : Type 0} (o : Option (LivePage F)) (test_set : List Item) (m : Result A)
      (k : A → Result B)
      → Ended o test_set m
      → ((a : A) → m ≡ ok a → Runs o test_set → (b : B) × (k a ≡ ok b))
      → Ended o test_set (m >>= k)
  Ended->>= none test_set m k (a, e) more = let (b, e') = more a e tt in (b, rw e e')
  Ended->>= (some page) [] m k e more = rw e refl
  Ended->>= (some page) (t ∷ ts) m k (a, e) more = let (b, e') = more a e tt in (b, rw e e')

module _ (fl : Floats) (trigger_threshold : fl.F) (calls : Calls fl.F) (skill_name : Text)
    (train_set : List Item) where
  live_report-Reported :
      (page : LivePage fl.F) (python : IsPython page.order) (test_set : List Item)
      (original d : Text) (train_size test_size : ℕ) (history : List (Entry fl.F))
      → history ≢ []
      → All (Tested test_set) history
      → Reported fl page.four_fifths page.half page.order python page.repr test_set (
          live_report fl page.four_fifths page.half page.order page.repr skill_name original d
            train_size test_size history)
  unfolding live_report partial_info lookup equal
  live_report-Reported page python test_set original d train_size test_size [] ne tested =
      absurd (ne refl)
  live_report-Reported page python test_set original d train_size test_size (e ∷ es) ne tested =
      generate_html-Reported fl page.four_fifths page.half page.order python page.repr test_set
        (partial_info original d train_size test_size (e ∷ es)) e es true skill_name
        ((original, refl), (d, refl)) tested

  pub write_live-Ended :
      (o : Option (LivePage fl.F)) (test_set : List Item) (limit : ℕ) (original : Text) (i : ℕ)
      (d : Text) (history : List (Entry fl.F))
      → IsWritable o
      → history ≢ []
      → All (Tested test_set) history
      → Ended o test_set (
          write_live fl trigger_threshold calls skill_name train_set test_set limit original o i d
            history)
  unfolding write_live
  write_live-Ended none test_set limit original i d history w ne tested = (tt, refl)
  write_live-Ended (some page) [] limit original i d history (python, writes) ne tested =
      rw (live_report-Reported page python [] original d (length train_set) 0 history ne tested)
        refl
  write_live-Ended (some page) (t ∷ ts) limit original i d history (python, writes) ne tested =
      let (html, made) =
        live_report-Reported page python (t ∷ ts) original d (length train_set) (length (t ∷ ts))
          history ne tested in
      (tt, rw made (writes i html))
