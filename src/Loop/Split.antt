-- ===== src/Loop/Split.antt =====
-- `split_eval_set` (run_loop.py, lines 24 to 44).
use mathlib.Core.List.{Perm}
use mathlib.Core.List.Perm
use my_besu_net.Base.{
  ℕ, ◌+◌, ◌≤◌, Bool, true, false, not, List, [], ◌++◌, ◌≡◌, sym, ap₂, ◌∙◌, arith, if◌then◌else◌,
  leb, keep, take, drop, length, count_if, take-append-drop, length-take, drop_all, length-append,
  length-take-add-drop, count_if-take-add-drop, count_if-keep, count_if-keep-not, length-keep,
  length-perm, blocks-perm, count_if-le-length, min, keep-perm, count_if-perm, count_if-append,
}
use my_besu_net.Eval.Pool.{Item}

abbrev pub labelled : Item → Bool
labelled e = e.should_trigger

abbrev pub unlabelled : Item → Bool
unlabelled e = not e.should_trigger

-- `max(1, n)`
abbrev pub at_least_one : ℕ → ℕ
at_least_one n = if leb n 1 then 1 else n

-- The train and the test set. `portion n` is `int(n * holdout)`, a product of floats; `shuffle` is
-- `random.shuffle` after `random.seed`, in its two calls.
module _ (portion : ℕ → ℕ) (shuffle : Bool → List Item → List Item) where
  abbrev pub trigger : List Item → List Item
  trigger eval_set = shuffle true (keep labelled eval_set)

  abbrev pub no_trigger : List Item → List Item
  no_trigger eval_set = shuffle false (keep unlabelled eval_set)

  unfoldable pub split_eval_set : List Item → List Item × List Item
  split_eval_set eval_set =
      let t = trigger eval_set in
      let f = no_trigger eval_set in
      let n_trigger_test = at_least_one (portion (length t)) in
      let n_no_trigger_test = at_least_one (portion (length f)) in
      (
        drop n_trigger_test t ++ drop n_no_trigger_test f,
        take n_trigger_test t ++ take n_no_trigger_test f,
      )

  module _ (shuffles : (b : Bool) (xs : List Item) → Perm (shuffle b xs) xs) where
    -- No entry is lost or doubled: train and test set together are the eval set, in another order.
    pub split_eval_set-perm :
        (eval_set : List Item)
        → Perm ((split_eval_set eval_set).0 ++ (split_eval_set eval_set).1) eval_set
    unfolding split_eval_set
    split_eval_set-perm eval_set =
        let t = trigger eval_set in
        let f = no_trigger eval_set in
        let m = at_least_one (portion (length t)) in
        let n = at_least_one (portion (length f)) in
        Perm.trans (blocks-perm (drop m t) (drop n f) (take m t) (take n f)) (
          rw (take-append-drop m t, take-append-drop n f)
            (Perm.trans (Perm.append (shuffles true _) (shuffles false _))
              (keep-perm labelled eval_set)))

    count_if-trigger :
        (eval_set : List Item) → count_if labelled (trigger eval_set) ≡ length (trigger eval_set)
    count_if-trigger eval_set =
        count_if-perm labelled (shuffles true _)
        ∙ count_if-keep labelled eval_set
        ∙ sym (length-perm (shuffles true _))

    count_if-no_trigger : (eval_set : List Item) → count_if labelled (no_trigger eval_set) ≡ 0
    count_if-no_trigger eval_set =
        count_if-perm labelled (shuffles false _) ∙ count_if-keep-not labelled eval_set

    length-trigger : (eval_set : List Item) → length (trigger eval_set) ≡ count_if labelled eval_set
    length-trigger eval_set = length-perm (shuffles true _) ∙ length-keep labelled eval_set

    length-no_trigger :
        (eval_set : List Item) → length (no_trigger eval_set) ≡ count_if unlabelled eval_set
    length-no_trigger eval_set = length-perm (shuffles false _) ∙ length-keep unlabelled eval_set

    -- The test set is stratified: of the entries with either label it takes `int(n * holdout)`, but
    -- at least one, and no more than there are. (The second count is the rest of its length.)
    pub split_eval_set_stratified :
        (eval_set : List Item)
        → let yes_count = count_if labelled eval_set in
          let no_count = count_if unlabelled eval_set in
          let test = (split_eval_set eval_set).1 in
          let from_yes = min (at_least_one (portion yes_count)) yes_count in
          (count_if labelled test ≡ from_yes)
          × (length test ≡ from_yes + min (at_least_one (portion no_count)) no_count)
    unfolding split_eval_set
    split_eval_set_stratified eval_set =
        let t = trigger eval_set in
        let f = no_trigger eval_set in
        let m = at_least_one (portion (length t)) in
        let n = at_least_one (portion (length f)) in
        rw (← length-trigger eval_set, ← length-no_trigger eval_set)
          (
            omega (
              arith,
              count_if-append labelled (take m t) (take n f),
              count_if-take-add-drop labelled m t,
              count_if-take-add-drop labelled n f,
              length-take-add-drop m t,
              count_if-le-length labelled (take m t),
              count_if-le-length labelled (drop m t),
              count_if-trigger eval_set,
              count_if-no_trigger eval_set,
              length-take m t,
            ),
            length-append (take m t) (take n f) ∙ ap₂ ◌+◌ (length-take m t) (length-take n f),
          )

    -- With at most one entry of each label, the test set takes them all.
    pub split_eval_set_small :
        (eval_set : List Item)
        → count_if labelled eval_set ≤ 1
        → count_if unlabelled eval_set ≤ 1
        → (split_eval_set eval_set).0 ≡ []
    unfolding split_eval_set
    split_eval_set_small eval_set h k =
        rw
          (drop_all (at_least_one (portion (length (trigger eval_set)))) (trigger eval_set)
            (ground (arith, length-trigger eval_set)))
          (drop_all (at_least_one (portion (length (no_trigger eval_set)))) (no_trigger eval_set)
            (ground (arith, length-no_trigger eval_set)))
