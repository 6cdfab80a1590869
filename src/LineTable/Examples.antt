-- ===== src/LineTable/Examples.antt =====
-- Lookups in a small source.
use pawnlint.Base.{
  ◌≡◌, refl, Text, codes, length, pos, negsuc, ◌≤ℤ◌, ◌-ℤ◌, ◌+ℤ◌, arith, ◌++◌, ◌∷◌, [],
}
use pawnlint.LineTable.{
  LineTable, new_line_table, search_line, lookup, range, clamp_offset, line_text, display_width,
}
use pawnlint.LineTable.Lookup.{position_of, lookup-eq-position_of, range_bounds, range_exact}

-- new x\nmain()\n
abbrev sample : Text
sample = codes "new x" ++ (10 ∷ codes "main()") ++ 10 ∷ []

abbrev table : LineTable
table = record { source = sample; line_start = 0 ∷ 6 ∷ 13 ∷ [] }

new_line_table-sample : new_line_table sample ≡ table
unfolding new_line_table
new_line_table-sample = refl

lookup-sample : lookup table (pos 8) ≡ record { offset = pos 8; line = pos 2; col = pos 3 }
unfolding lookup search_line ◌-ℤ◌ ◌+ℤ◌
lookup-sample = refl

line_text-sample : line_text table (pos 2) ≡ codes "main()"
unfolding line_text
line_text-sample = refl

display_width-sample : display_width table (pos 8) (pos 20) ≡ pos 4
unfolding display_width search_line ◌-ℤ◌ ◌+ℤ◌
display_width-sample = refl

lookup-eq-position_of_example :
    lookup (new_line_table sample) (pos 8)
    ≡ position_of sample (clamp_offset (length sample) (pos 8))
lookup-eq-position_of_example = lookup-eq-position_of sample (pos 8)

range_bounds_example :
    (pos 0 ≤ℤ (range table (negsuc 3) (pos 99)).start.offset)
    × ((range table (negsuc 3) (pos 99)).start.offset
        ≤ℤ (range table (negsuc 3) (pos 99)).end.offset)
    × ((range table (negsuc 3) (pos 99)).end.offset ≤ℤ pos 13)
range_bounds_example = range_bounds table (negsuc 3) (pos 99)

range_exact_example :
    ((range table (pos 2) (pos 8)).start.offset ≡ pos 2)
    × ((range table (pos 2) (pos 8)).end.offset ≡ pos 8)
range_exact_example = range_exact table 2 8 (omega arith) (omega arith)
