-- ===== src/Stream/Chunks.antt =====
-- How the output is cut into chunks does not matter (run_eval.py, `while "\n" in buffer`).
use my_besu_net.Base.{
  ℕ, zero, suc, ◌<◌, true, false, [], ◌∷◌, ◌++◌, none, some, ◌≡◌, refl, sym, ◌∙◌, ◌==◌, length,
  append_assoc, append-nil, arith, Bool-cases, inl, inr,
}
use my_besu_net.Base.Text.{Text}
use my_besu_net.Stream.Scan.{
  Flow, next, ◌>>=◌, split_line, drain, drain_all, bind-congr, bind_assoc,
}

-- no newline among the characters
abbrev pub NewlineFree : Text → Type 0
NewlineFree [] = Unit
NewlineFree (c ∷ t) = ((c == b'\n') ≡ false) × NewlineFree t

split_line-free : (t : Text) → NewlineFree t → split_line t ≡ none
unfolding split_line
split_line-free [] h = refl
split_line-free (c ∷ t) h = ground (arith, split_line-free t h.1)

split_line-at :
    (line rest : Text) → NewlineFree line → split_line (line ++ b'\n' ∷ rest) ≡ some (line, rest)
unfolding split_line
split_line-at [] rest h = refl
split_line-at (c ∷ line) rest h = ground (arith, split_line-at line rest h.1)

==_eq : (c : ℕ) → (c == b'\n') ≡ true → c ≡ b'\n'
==_eq c h = ground arith

free-append : (s t : Text) → NewlineFree s → NewlineFree t → NewlineFree (s ++ t)
free-append [] t h k = k
free-append (c ∷ s) t h k = (h.0, free-append s t h.1 k)

module _ {S : Type 0} (step : Text → S → Flow S) where
  -- The loop one character at a time: `line` is the unfinished line.
  pub feed : Text → Text → S → Flow (Text × S)
  feed line [] s = next (line, s)
  feed line (c ∷ t) s = elim (c == b'\n') [
    | true ↦ step line s >>= feed [] t
    | false ↦ feed (line ++ c ∷ []) t s
  ]

  drain-feed :
      (t line : Text) (fuel : ℕ) (s : S)
      → NewlineFree line
      → length t < fuel
      → drain step fuel (line ++ t) s ≡ feed line t s
  unfolding drain feed
  drain-feed t line zero s h lt = absurd (omega arith)
  drain-feed [] line (suc fuel) s h lt = rw (append-nil line) (rw (split_line-free line h, drain))
  drain-feed (c ∷ t) line (suc fuel) s h lt = elim (Bool-cases (c == b'\n')) [
    | inl e ↦
        rw (e, feed)
          (rw (==_eq c e) (
            rw (split_line-at line t h, drain)
              (bind-congr (step line s) _ _ (λ s'. drain-feed t [] fuel s' tt (omega arith)))))
    | inr e ↦
        rw (e, feed)
          (rw (← append_assoc line (c ∷ []) t) (
            drain-feed t (line ++ c ∷ []) (suc fuel) s (free-append line _ h (e, tt))
              (omega arith)))
  ]

  feed-free :
      (line t u : Text) (s : S) → NewlineFree t → feed line (t ++ u) s ≡ feed (line ++ t) u s
  unfolding feed
  feed-free line [] u s h = rw append-nil
  feed-free line (c ∷ t) u s (hc, ht) =
      rw (hc, feed) (feed-free (line ++ c ∷ []) t u s ht ∙ rw append_assoc)

  feed-append :
      (t u line : Text) (s : S)
      → NewlineFree line
      → feed line (t ++ u) s ≡ (feed line t s >>= λ r. feed [] (r.0 ++ u) r.1)
  unfolding feed
  feed-append [] u line s h = sym (feed-free [] line u s h)
  feed-append (c ∷ t) u line s h = elim (Bool-cases (c == b'\n')) [
    | inl e ↦
        rw (e, feed)
          (bind-congr (step line s) _ _ (λ s'. feed-append t u [] s' tt)
            ∙ sym (bind_assoc (step line s) (feed [] t) _))
    | inr e ↦ rw (e, feed) (feed-append t u (line ++ c ∷ []) s (free-append line _ h (e, tt)))
  ]

  drain_all-feed : (t : Text) (s : S) → drain_all step t s ≡ feed [] t s
  unfolding drain_all
  drain_all-feed t s = drain-feed t [] _ s tt (omega arith)

  -- Draining a buffer, appending to what is left and draining again is draining it all at once.
  pub drain_all-append :
      (t u : Text) (s : S)
      → drain_all step (t ++ u) s ≡ (drain_all step t s >>= λ r. drain_all step (r.0 ++ u) r.1)
  drain_all-append t u s =
      drain_all-feed (t ++ u) s
      ∙ feed-append t u [] s tt
      ∙ bind-congr (feed [] t s) _ _ (λ r. sym (drain_all-feed (r.0 ++ u) r.1))
      ∙ rw (← drain_all-feed t s)
