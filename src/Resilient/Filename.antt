-- ===== src/Resilient/Filename.antt =====
-- `generate_filename` of resilient_diagram.py. `lower` is `str.lower`, whose tables of letters are not
-- modelled.
use my_besu_net.Base.{
  ℕ, suc, Bool, false, ◌&&◌, ◌||◌, [], ◌∷◌, ◌++◌, leb, ltb, ◌==◌, if◌then◌else◌, map, take,
}
use my_besu_net.Base.Text.{Text, codes, strip_char, rstrip_by}
use my_besu_net.Base.Int.{ℤ, pos, negsuc, digits}
use my_besu_net.Resilient.Detect.{DiagramType, value}

abbrev pub underscore : ℕ
underscore = b'_'

-- `[a-zA-Z0-9]`
unfoldable pub is_alnum : ℕ → Bool
is_alnum c = leb b'a' c && leb c b'z' || leb b'A' c && leb c b'Z' || leb b'0' c && leb c b'9'

-- `[a-zA-Z0-9_-]`
unfoldable pub is_file_char : ℕ → Bool
unfolding is_alnum
is_file_char c = is_alnum c || c == underscore || c == b'-'

-- `re.sub(r'[^…]', '_', t)`, for the characters that pass the test
unfoldable pub replace_others : (ℕ → Bool) → Text → Text
replace_others p = map (λ c. if p c then c else underscore)

abbrev pub begins_with : ℕ → Text → Bool
begins_with c [] = false
begins_with c (x ∷ t) = x == c

-- `re.sub(r'_+', '_', t)`
unfoldable pub collapse : Text → Text
collapse [] = []
collapse (c ∷ t) =
    let rest = collapse t in if c == underscore && begins_with underscore t then rest else c ∷ rest

unfoldable pub safe_md : (Text → Text) → Text → Text
unfolding is_file_char replace_others collapse strip_char
safe_md lower markdown_file =
    strip_char underscore (collapse (replace_others is_file_char (lower markdown_file)))

unfoldable pub safe_title : (Text → Text) → Text → Text
unfolding is_alnum replace_others collapse strip_char
safe_title lower title =
    rstrip_by (λ c. c == underscore)
      (take 20 (strip_char underscore (collapse (replace_others is_alnum (lower title)))))

-- `f"{n:02d}"`
unfoldable pub two_digits : ℤ → Text
unfolding digits
two_digits (pos n) =
    let shown = digits (suc n) n [] in if ltb n 10 then codes "0" ++ shown else shown
two_digits (negsuc n) = codes "-" ++ digits (suc (suc n)) (suc n) []

unfoldable pub generate_filename : (Text → Text) → Text → ℤ → DiagramType → Text → Text
unfolding safe_md safe_title two_digits
generate_filename lower markdown_file diagram_num diagram_type title =
    safe_md lower markdown_file
    ++ (codes "_"
        ++ (two_digits diagram_num
            ++ (codes "_" ++ (value diagram_type ++ (codes "_" ++ safe_title lower title)))))
