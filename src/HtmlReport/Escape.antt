-- ===== src/HtmlReport/Escape.antt =====
-- `html.escape`, which generate_report.py calls.
use my_besu_net.Base.{ℕ, [], ◌∷◌, ◌++◌, ◌==◌, if◌then◌else◌}
use my_besu_net.Base.Text.{Text, codes}

unfoldable pub escape_char : ℕ → Text
escape_char c =
    if c == b'&'
    then codes "&amp;"
    else if c == b'<'
    then codes "&lt;"
    else if c == b'>'
    then codes "&gt;"
    else if c == b'"'
    then codes "&quot;"
    else if c == 0x27
    then codes "&#x27;"
    else c ∷ []

unfoldable pub escape : Text → Text
unfolding escape_char
escape [] = []
escape (c ∷ t) = escape_char c ++ escape t
