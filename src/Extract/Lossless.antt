-- ===== src/Extract/Lossless.antt =====
-- The blocks that extract_mermaid.py finds, and what is between them, make up the whole file.
use my_besu_net.Base.{
  ℕ, zero, suc, ◌≤◌, ◌<◌, true, List, [], ◌∷◌, ◌++◌, Option, none, some, ◌≡◌, refl, sym, ap, ◌∙◌,
  arith, if◌then◌else◌, ◌==◌, length, Bool-cases, inl, inr, append_assoc, length-append,
}
use my_besu_net.Base.Text.{Text, is_space, starts_with, partition, drop_prefix}
use my_besu_net.Extract.Scan.{
  opening, fence, header, match_here, scan, pieces_of, glued, Piece, plain, block,
}

starts_with-drop_prefix : (s p : Text) → starts_with s p ≡ true → s ≡ p ++ drop_prefix p s
unfolding starts_with
starts_with-drop_prefix s [] h = refl
starts_with-drop_prefix [] (y ∷ p) h = cc
starts_with-drop_prefix (x ∷ s) (y ∷ p) h =
    let same : x ≡ y = ground (arith, h) in
    let rest = starts_with-drop_prefix s p (ground (arith, h)) in rw same (ap (◌∷◌ y) rest)

partition-append :
    (p s before after : Text) → partition p s ≡ some (before, after) → s ≡ before ++ (p ++ after)
unfolding partition
partition-append p [] before after h = elim (Bool-cases (starts_with [] p)) [
  | inl e ↦
      let found : ◌≡◌ {A = Option (Text × Text)} (some ([], drop_prefix p []))
          (some (before, after)) =
        rw e at h in
      let one : [] ≡ before = cc in
      let two : drop_prefix p [] ≡ after = cc in rw (← one, ← two) (starts_with-drop_prefix [] p e)
  | inr e ↦ cc (rw e at h)
]
partition-append p (x ∷ s) before after h = elim (Bool-cases (starts_with (x ∷ s) p)) [
  | inl e ↦
      let found : ◌≡◌ {A = Option (Text × Text)} (some ([], drop_prefix p (x ∷ s)))
          (some (before, after)) =
        rw e at h in
      let one : [] ≡ before = cc in
      let two : drop_prefix p (x ∷ s) ≡ after = cc in
      rw (← one, ← two) (starts_with-drop_prefix (x ∷ s) p e)
  | inr e ↦ later (λ b a k. partition-append p s b a k) (partition p s) refl (rw e at h)
]
  where
    later :
        ((b a : Text) → partition p s ≡ some (b, a) → s ≡ b ++ (p ++ a))
        → (o : Option (Text × Text)) → partition p s ≡ o
        → (elim o as (λ y. Option (Text × Text)) [ none ↦ none | some (b, a) ↦ some (x ∷ b, a) ])
          ≡ some (before, after)
        → x ∷ s ≡ before ++ (p ++ after)
    later rec none e k = cc
    later rec (some (b, a)) e k =
        let one : x ∷ b ≡ before = cc in
        let two : a ≡ after = cc in rw (← one, ← two) (ap (◌∷◌ x) (rec b a e))

header-append : (t h r : Text) → header t ≡ some (h, r) → t ≡ h ++ r
unfolding header
header-append [] h r e = cc
header-append (c ∷ t) h r e = elim (Bool-cases (is_space c)) [
  | inl s ↦ later (λ h' r' k. header-append t h' r' k) (header t) refl (rw s at e)
  | inr s ↦ cc (rw s at e)
]
  where
    later :
        ((h' r' : Text) → header t ≡ some (h', r') → t ≡ h' ++ r')
        → (o : Option (Text × Text)) → header t ≡ o
        → (elim o as (λ y. Option (Text × Text)) [
          | none ↦ if c == b'\n' then some (c ∷ [], t) else none
          | some (h', r') ↦ some (c ∷ h', r')
        ])
          ≡ some (h, r)
        → c ∷ t ≡ h ++ r
    later rec none q k = elim (Bool-cases (c == b'\n')) [
      | inl n ↦
          let found : ◌≡◌ {A = Option (Text × Text)} (some (c ∷ [], t)) (some (h, r)) = rw n at k in
          let one : c ∷ [] ≡ h = cc in let two : t ≡ r = cc in rw (← one, ← two) refl
      | inr n ↦ cc (rw n at k)
    ]
    later rec (some (h', r')) q k =
        let one : c ∷ h' ≡ h = cc in
        let two : r' ≡ r = cc in rw (← one, ← two) (ap (◌∷◌ c) (rec h' r' q))

-- A match is what the text begins with, and it is not empty.
match_here-append :
    (t inside whole rest : Text)
    → match_here t ≡ some (inside, whole, rest)
    → (t ≡ whole ++ rest) × (length rest < length t)
unfolding match_here
match_here-append t inside whole rest e = elim (Bool-cases (starts_with t opening)) [
  | inl s ↦ headed (header (drop_prefix opening t)) refl s (rw s at e)
  | inr s ↦ cc (rw s at e)
]
  where
    fenced :
        (h r : Text) (o : Option (Text × Text))
        → drop_prefix opening t ≡ h ++ r
        → partition fence r ≡ o
        → starts_with t opening ≡ true
        → (elim o as (λ x. Option (Text × Text × Text)) [
          | none ↦ none
          | some (g, after) ↦ some (g, opening ++ (h ++ (g ++ fence)), after)
        ])
          ≡ some (inside, whole, rest)
        → (t ≡ whole ++ rest) × (length rest < length t)
    fenced h r none d p s k = cc
    fenced h r (some (g, after)) d p s k =
        let one : opening ++ (h ++ (g ++ fence)) ≡ whole = cc in
        let two : after ≡ rest = cc in
        let split : r ≡ g ++ (fence ++ after) = partition-append fence r g after p in
        let all : t ≡ whole ++ rest =
          starts_with-drop_prefix t opening s
          ∙ ap (λ x. opening ++ x)
              (d
                ∙ ap (λ x. h ++ x) (split ∙ sym (append_assoc g fence after))
                ∙ sym (append_assoc h (g ++ fence) after))
          ∙ ap (λ x. x ++ after) one
          ∙ ap (λ x. whole ++ x) two in
        (
          all,
          omega (
            arith,
            ap length all,
            length-append whole rest,
            ap length one,
            length-append opening (h ++ (g ++ fence)),
          ),
        )

    headed :
        (o : Option (Text × Text))
        → header (drop_prefix opening t) ≡ o
        → starts_with t opening ≡ true
        → (elim o as (λ x. Option (Text × Text × Text)) [
          | none ↦ none
          | some (h, r) ↦ elim (partition fence r) as (λ x. Option (Text × Text × Text)) [
            | none ↦ none
            | some (g, after) ↦ some (g, opening ++ (h ++ (g ++ fence)), after)
          ]
        ])
          ≡ some (inside, whole, rest)
        → (t ≡ whole ++ rest) × (length rest < length t)
    headed none q s k = cc
    headed (some (h, r)) q s k =
        fenced h r (partition fence r) (header-append (drop_prefix opening t) h r q) refl s k

scan-glued : (fuel : ℕ) (t : Text) → length t ≤ fuel → glued (scan fuel t) ≡ t
unfolding scan
scan-glued zero [] h = refl
scan-glued zero (c ∷ t) h = ground arith
scan-glued (suc fuel) [] h = refl
scan-glued (suc fuel) (c ∷ t) h = go (λ r less. scan-glued fuel r less) (match_here (c ∷ t)) refl
  where
    go :
        ((r : Text) → length r ≤ fuel → glued (scan fuel r) ≡ r)
        → (o : Option (Text × Text × Text)) → match_here (c ∷ t) ≡ o
        → glued (elim o as (λ x. List Piece) [
          | none ↦ plain c ∷ scan fuel t
          | some (inside, whole, rest) ↦ block inside whole ∷ scan fuel rest
        ])
          ≡ c ∷ t
    go rec none e = ap (◌∷◌ c) (rec t (omega (arith, h)))
    go rec (some (inside, whole, rest)) e =
        let (split, less) = match_here-append (c ∷ t) inside whole rest e in
        ap (λ x. whole ++ x) (rec rest (omega (arith, h, less))) ∙ sym split

-- The pieces that a text is cut into are the text, whatever blocks it has.
pub pieces_of-glued : (t : Text) → glued (pieces_of t) ≡ t
unfolding pieces_of
pieces_of-glued t = scan-glued (length t) t (omega arith)
