-- ===== src/Eval/Pool.antt =====
-- The futures of `run_eval` (run_eval.py, lines 198 to 225): what is submitted, and the two dicts that
-- collect the results in the order in which the futures complete.
use my_besu_net.Base.{
  ℕ, zero, suc, Bool, false, List, [], ◌∷◌, ◌++◌, Option, some, ◌≡◌, refl, ap, ◌∙◌, arith,
  if◌then◌else◌, append_assoc, Bool-cases, inl, inr,
}
use my_besu_net.Base.Dict.{
  Dict, lookup, insert, NodupKeys, lookup-insert, or_empty, ensure, append_at, lookup-ensure,
  lookup-append_at, ensure-NodupKeys, append_at-NodupKeys,
}
use my_besu_net.Base.Text.{Text, equal, equal_iff, equal_refl}
use my_besu_net.Json.{Result, ok, raise}

-- an entry of the eval set
pub record Item : Type 0 where
  pub query : Text
  pub should_trigger : Bool

-- the loop over `range(runs_per_query)`
unfoldable pub repeat_onto : ℕ → Item → List Item → List Item
repeat_onto zero item rest = rest
repeat_onto (suc runs) item rest = item ∷ repeat_onto runs item rest

-- `runs_per_query` futures for each entry
unfoldable pub submissions : ℕ → List Item → List Item
unfolding repeat_onto
submissions runs [] = []
submissions runs (item ∷ items) = repeat_onto runs item (submissions runs items)

-- a future that has completed, with its result or its exception
pub record Completion : Type 0 where
  pub item : Item
  pub outcome : Result Bool

-- a failed query counts as one that did not trigger
unfoldable pub bit : Result Bool → Bool
bit (ok b) = b
bit (raise e) = false

pub record Pool : Type 0 where
  pub query_triggers : Dict (List Bool)
  pub query_items : Dict Item

abbrev pub empty : Pool
empty = record { query_triggers = []; query_items = [] }

-- the body of the loop over `as_completed`
unfoldable pub absorb : Completion → Pool → Pool
unfolding ensure append_at bit
absorb c p = record {
  query_items = insert c.item.query c.item p.query_items;
  query_triggers = append_at c.item.query (bit c.outcome) (ensure c.item.query p.query_triggers);
}

unfoldable pub collect : List Completion → Pool → Pool
unfolding absorb
collect [] p = p
collect (c ∷ cs) p = collect cs (absorb c p)

-- The results of one query, in the order of completion.
unfoldable pub outcomes_for : Text → List Completion → List Bool
outcomes_for q [] = []
outcomes_for q (c ∷ cs) =
    let rest = outcomes_for q cs in if equal c.item.query q then bit c.outcome ∷ rest else rest

-- The entry that the last completion of a query belongs to.
unfoldable pub last_item : Text → Option Item → List Completion → Option Item
last_item q before [] = before
last_item q before (c ∷ cs) = last_item q (if equal c.item.query q then some c.item else before) cs

-- What a dict entry becomes when results are appended.
abbrev pub extend : Option (List Bool) → List Bool → Option (List Bool)
extend before [] = before
extend before (b ∷ bs) = some (or_empty before ++ b ∷ bs)

lookup-absorb :
    (q : Text) (c : Completion) (p : Pool)
    → lookup q (absorb c p).query_triggers ≡ (
        if equal c.item.query q
        then some (or_empty (lookup q p.query_triggers) ++ bit c.outcome ∷ [])
        else lookup q p.query_triggers)
unfolding absorb
lookup-absorb q c p =
    lookup-append_at q k (bit c.outcome) (ensure k d) (or_empty (lookup k d))
      (lookup-ensure k k d ∙ rw (equal_refl k))
    ∙ ground (arith, equal_iff k q, lookup-ensure q k d)
  where
    open c.item use {query as k}
    open p use {query_triggers as d}

extend-extend :
    (before : Option (List Bool)) (b : Bool) (bs : List Bool)
    → extend (some (or_empty before ++ b ∷ [])) bs ≡ extend before (b ∷ bs)
extend-extend before b [] = refl
extend-extend before b (c ∷ bs) = ap some (append_assoc (or_empty before) (b ∷ []) (c ∷ bs))

-- The dict holds, for each query, the results of its completions in their order; a query with no
-- completion has no entry.
pub lookup-collect :
    (q : Text) (cs : List Completion) (p : Pool)
    → lookup q (collect cs p).query_triggers
      ≡ extend (lookup q p.query_triggers) (outcomes_for q cs)
unfolding collect outcomes_for
lookup-collect q [] p = refl
lookup-collect q (c ∷ cs) p = elim (Bool-cases (equal c.item.query q)) [
  | inl e ↦ rw e (
      lookup-collect q cs (absorb c p)
      ∙ rw (lookup-absorb q c p, e)
          (extend-extend (lookup q p.query_triggers) (bit c.outcome) (outcomes_for q cs)))
  | inr e ↦ rw e (lookup-collect q cs (absorb c p) ∙ rw (lookup-absorb q c p, e))
]

pub lookup-collect-items :
    (q : Text) (cs : List Completion) (p : Pool)
    → lookup q (collect cs p).query_items ≡ last_item q (lookup q p.query_items) cs
unfolding collect last_item
lookup-collect-items q [] p = refl
lookup-collect-items q (c ∷ cs) p =
    lookup-collect-items q cs (absorb c p)
    ∙ ap (λ o. last_item q o cs) (lookup-insert q c.item.query c.item p.query_items)

absorb-NodupKeys :
    (c : Completion) (p : Pool) → NodupKeys p.query_triggers → NodupKeys (absorb c p).query_triggers
unfolding absorb
absorb-NodupKeys c p u =
    append_at-NodupKeys c.item.query (bit c.outcome) _ (ensure-NodupKeys c.item.query _ u)

-- The dict has one entry for a query.
pub collect-NodupKeys :
    (cs : List Completion) (p : Pool)
    → NodupKeys p.query_triggers
    → NodupKeys (collect cs p).query_triggers
unfolding collect
collect-NodupKeys [] p u = u
collect-NodupKeys (c ∷ cs) p u = collect-NodupKeys cs (absorb c p) (absorb-NodupKeys c p u)
