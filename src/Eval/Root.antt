-- ===== src/Eval/Root.antt =====
-- `find_project_root` of run_eval.py. A path is the list of its names, the last one first; `has_claude` says
-- whether a directory has a directory `.claude`.
use my_besu_net.Base.{
  Bool, true, false, List, [], ◌∷◌, ◌≡◌, ◌⊎◌, inl, inr, refl, sym, subst, ◌∙◌, if◌then◌else◌,
  Bool-cases,
}
use my_besu_net.Base.Text.{Text}

abbrev Dir : Type 0
Dir = List Text

-- the path and its parents, of which the root is the last
unfoldable pub with_parents : Dir → List Dir
with_parents [] = [] ∷ []
with_parents (name ∷ dir) = (name ∷ dir) ∷ with_parents dir

module _ (has_claude : Dir → Bool) where
  -- the loop, with what is returned behind it
  unfoldable pub first_root : Dir → List Dir → Dir
  first_root current [] = current
  first_root current (parent ∷ parents) =
      let rest = first_root current parents in if has_claude parent then parent else rest

  unfoldable pub find_project_root : Dir → Dir
  unfolding with_parents first_root
  find_project_root current = first_root current (with_parents current)

  -- The directory is at or below `dir`, and those between have no `.claude`.
  abbrev IsBelow : Dir → Dir → Type 0
  IsBelow dir [] = dir ≡ []
  IsBelow dir (name ∷ above) =
      (dir ≡ name ∷ above) ⊎ ((has_claude (name ∷ above) ≡ false) × IsBelow dir above)

  -- No directory from the path up has `.claude`.
  abbrev HasNone : Dir → Type 0
  HasNone [] = has_claude [] ≡ false
  HasNone (name ∷ above) = (has_claude (name ∷ above) ≡ false) × HasNone above

  first_root-IsBelow :
      (start current : Dir)
      → ((has_claude (first_root start (with_parents current)) ≡ true)
          × IsBelow (first_root start (with_parents current)) current)
        ⊎ ((first_root start (with_parents current) ≡ start) × HasNone current)
  unfolding with_parents first_root
  first_root-IsBelow start [] = elim (Bool-cases (has_claude [])) [
    | inl e ↦ inl (rw e (e, refl))
    | inr e ↦ inr (rw e refl, e)
  ]
  first_root-IsBelow start (name ∷ dir) = elim (Bool-cases (has_claude (name ∷ dir))) [
    | inl e ↦ inl (rw e (e, inl refl))
    | inr e ↦
        let up : first_root start (with_parents (name ∷ dir))
            ≡ first_root start (with_parents dir) =
          rw e refl in
        elim (first_root-IsBelow start dir) [
          | inl h ↦ inl (
              subst (λ r. (has_claude r ≡ true) × IsBelow r (name ∷ dir)) (sym up)
                (h.0, inr (e, h.1)))
          | inr h ↦ inr (up ∙ h.0, (e, h.1))
        ]
  ]

  -- The root of the project is the nearest directory with `.claude` from the working directory up, or the
  -- working directory itself, where there is none.
  find_project_root-IsBelow :
      (current : Dir)
      → ((has_claude (find_project_root current) ≡ true)
          × IsBelow (find_project_root current) current)
        ⊎ ((find_project_root current ≡ current) × HasNone current)
  unfolding find_project_root
  find_project_root-IsBelow current = first_root-IsBelow current current
