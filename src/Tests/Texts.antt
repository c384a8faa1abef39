-- ===== src/Tests/Texts.antt =====
-- The decimal text at concrete inputs.
use venue_core.Prelude.{◌≡◌, some, none, [], arith}
use venue_core.Prelude.Int.{pos, negsuc}
use venue_core.Decwire.{parse, append}
use venue_core.Decwire.Text.{parse-append}

parse-append_example :
    (parse (append [] (pos 150000000)) ≡ some 150000000)
    × (parse (append [] (negsuc 150000000)) ≡ none)
parse-append_example = parse-append 150000000 (omega arith)
