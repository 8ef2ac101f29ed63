-- ===== src/Eval/Order.antt =====
-- The reports do not depend on the order in which the futures complete (run_eval.py).
use mathlib.Core.List.{Perm, Mem, mem-cons, not-mem-nil}
use mathlib.Core.List.Perm
use mathlib.Core.Logic.Or
use my_besu_net.Base.{
  Bool, ◌&&◌, List, [], ◌∷◌, Option, none, some, ◌≡◌, refl, sym, ap, ap₂, subst, All, ◌∙◌, arith,
  length, count_if, count_if-perm, Bool-cases, inl, inr,
}
use my_besu_net.Base.Text.{Text, equal, equal_iff}
use my_besu_net.Eval.Pool.{Item, Completion, bit, outcomes_for, last_item, extend}
use my_besu_net.Eval.Report.{Report, EvalOutput, run_eval, find, self}
use my_besu_net.Eval.Total.{expected, verdict, report_by, run_eval-ok}
use my_besu_net.Floats.{Floats}
use my_besu_net.Json.{ok}

abbrev about : Text → Completion → Bool
about q c = equal c.item.query q

abbrev triggered_by : Text → Completion → Bool
triggered_by q c = equal c.item.query q && bit c.outcome

length-outcomes_for-about :
    (q : Text) (cs : List Completion) → length (outcomes_for q cs) ≡ count_if (about q) cs
unfolding outcomes_for
length-outcomes_for-about q [] = refl
length-outcomes_for-about q (c ∷ cs) = ground (arith, length-outcomes_for-about q cs)

triggers-outcomes_for :
    (q : Text) (cs : List Completion)
    → count_if self (outcomes_for q cs) ≡ count_if (triggered_by q) cs
unfolding outcomes_for
triggers-outcomes_for q [] = refl
triggers-outcomes_for q (c ∷ cs) = ground (arith, triggers-outcomes_for q cs)

-- Entries with the same query are one entry: each completion's item is that of its query.
abbrev pub Agree : (Text → Item) → List Completion → Type 0
Agree entry cs = (c : Completion) → Mem c cs → c.item ≡ entry c.item.query

Item-set : IsSet Item
Item-set = hlevel

-- The agreement, checked for one completion after the other.
pub Agree-of_All :
    (entry : Text → Item) (cs : List Completion)
    → All (λ (c : Completion). c.item ≡ entry c.item.query) cs
    → Agree entry cs
Agree-of_All entry [] h c m = absurd (not-mem-nil m)
Agree-of_All entry (d ∷ cs) h c m =
    Or.elim (Item-set _ _) (mem-cons.0 m)
      (λ e. subst (λ (x : Completion). x.item ≡ entry x.item.query) (sym e) h.0)
      (Agree-of_All entry cs h.1 c)

Agree-tail :
    (entry : Text → Item) (c : Completion) (cs : List Completion)
    → Agree entry (c ∷ cs)
    → Agree entry cs
Agree-tail entry c cs h d m = h d (mem-cons.1 (Or.inr m))

abbrev pick : List Bool → Option Item → Item → Option Item
pick [] before item = before
pick (b ∷ bs) before item = some item

pick_same : (bs : List Bool) (item : Item) → pick bs (some item) item ≡ some item
pick_same [] item = refl
pick_same (b ∷ bs) item = refl

last_item-Agree :
    (entry : Text → Item) (q : Text) (cs : List Completion) (before : Option Item)
    → Agree entry cs
    → last_item q before cs ≡ pick (outcomes_for q cs) before (entry q)
unfolding last_item outcomes_for
last_item-Agree entry q [] before h = refl
last_item-Agree entry q (c ∷ cs) before h = elim (Bool-cases (equal c.item.query q)) [
  | inl e ↦
      let same = h c (mem-cons.1 (Or.inl refl)) ∙ ap entry ((equal_iff c.item.query q).0 e) in
      rw e (
        last_item-Agree entry q cs (some c.item) (Agree-tail entry c cs h)
        ∙ rw same (pick_same (outcomes_for q cs) (entry q)))
  | inr e ↦ rw e (last_item-Agree entry q cs before (Agree-tail entry c cs h))
]

module _ (fl : Floats) (trigger_threshold : fl.F) where
  abbrev due : Text → Item → List Bool → Option (Report fl.F)
  due q item bs = verdict fl trigger_threshold q (pick bs none item) (extend none bs)

  due-by_counts :
      (q : Text) (item : Item) (bs cs : List Bool)
      → count_if self bs ≡ count_if self cs
      → length bs ≡ length cs
      → due q item bs ≡ due q item cs
  due-by_counts q item [] [] h k = refl
  due-by_counts q item [] (_ ∷ _) h k = absurd (omega arith)
  due-by_counts q item (_ ∷ _) [] h k = absurd (omega arith)
  due-by_counts q item (b ∷ bs) (c ∷ cs) h k =
      ap₂ (λ triggers runs. some (report_by fl trigger_threshold q item triggers runs)) h k

  expected-due :
      (entry : Text → Item) (q : Text) (cs : List Completion)
      → Agree entry cs
      → expected fl trigger_threshold q cs ≡ due q (entry q) (outcomes_for q cs)
  expected-due entry q cs h = rw (last_item-Agree entry q cs none h)

  expected-perm :
      (entry : Text → Item) (q : Text) (cs ds : List Completion)
      → Agree entry cs
      → Perm cs ds
      → expected fl trigger_threshold q cs ≡ expected fl trigger_threshold q ds
  expected-perm entry q cs ds h p =
      expected-due entry q cs h
      ∙ due-by_counts q (entry q) (outcomes_for q cs) (outcomes_for q ds)
          (triggers-outcomes_for q cs
            ∙ count_if-perm (triggered_by q) p
            ∙ sym (triggers-outcomes_for q ds))
          (length-outcomes_for-about q cs
            ∙ count_if-perm (about q) p
            ∙ sym (length-outcomes_for-about q ds))
      ∙ sym (expected-due entry q ds (λ c m. h c ((Perm.mem_iff p).1 m)))

  -- Where no two entries of the eval set give one query different labels, the order in which the
  -- futures complete changes no query's report.
  pub run_eval-perm :
      (entry : Text → Item) (skill_name description : Text) (cs ds : List Completion)
      {out out' : EvalOutput fl.F}
      → Agree entry cs
      → Perm cs ds
      → run_eval fl trigger_threshold skill_name description cs ≡ ok out
      → run_eval fl trigger_threshold skill_name description ds ≡ ok out'
      → (q : Text) → find q out.results ≡ find q out'.results
  run_eval-perm entry skill_name description cs ds {out} {out'} h p e e' q =
      let (o, run, reads, _, _) = run_eval-ok fl trigger_threshold skill_name description cs in
      let (o', run', reads', _, _) = run_eval-ok fl trigger_threshold skill_name description ds in
      let same : out ≡ o = cc in
      let same' : out' ≡ o' = cc in
      rw (same, same') (reads q ∙ expected-perm entry q cs ds h p ∙ sym (reads' q))
