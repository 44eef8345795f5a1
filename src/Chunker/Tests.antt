-- ===== src/Chunker/Tests.antt =====
-- Runs of the chunker, and its theorem at a concrete input.
use onepark_smart_park.Prelude.{◌≡◌, refl, true, [], ◌∷◌, ◌++◌, codes}
use onepark_smart_park.Strings.{trim_space, split}
use onepark_smart_park.Chunker.{
  Options, split_document, lines_of, line_ends, drop_fences, on_lines, on_line, on_header, on_blank,
  on_text, flush, add_pieces, hard_split, split_from, renumber, header_of, is_table_line,
  drop_quote, trim_blanks, join_headings, newline,
}
use onepark_smart_park.Chunker.Pieces.{concat, AreCut, hard_split-concat}

abbrev short : Options
short = record { max_len = 4; min_len = 1 }

-- Cut at the first sentence end from the fourth character on: a piece may be longer than `MaxLen`.
cut_late :
    hard_split 4 (97 ∷ 10 ∷ 98 ∷ 99 ∷ 100 ∷ 101 ∷ 10 ∷ 102 ∷ [])
    ≡ (97 ∷ 10 ∷ 98 ∷ 99 ∷ 100 ∷ 101 ∷ 10 ∷ []) ∷ (102 ∷ []) ∷ []
unfolding hard_split split_from
cut_late = refl

hard_split-concat_example :
    (concat (hard_split 4 (codes "abc def")) ≡ codes "abc def")
    × AreCut 4 (hard_split 4 (codes "abc def"))
hard_split-concat_example = hard_split-concat 4 (codes "abc def")

-- A paragraph, a blank line, a title and a paragraph: each stands under its own title.
titled :
    split_document
      (codes "# A"
        ++ newline
        ++ codes "one"
        ++ newline
        ++ newline
        ++ codes "# B"
        ++ newline
        ++ codes "two")
      short
    ≡ record { seq = 0; heading = codes "A"; content = codes "one" }
      ∷ record { seq = 1; heading = codes "B"; content = codes "two" }
      ∷ []
unfolding split_document lines_of line_ends drop_fences on_lines on_line on_header on_blank on_text
    flush add_pieces hard_split split_from renumber header_of is_table_line drop_quote trim_blanks
    join_headings trim_space split
titled = refl

-- Without the blank line, the paragraph goes under the title that follows it.
misplaced :
    split_document
      (codes "# A" ++ newline ++ codes "one" ++ newline ++ codes "# B" ++ newline ++ codes "two")
      (record { max_len = 40; min_len = 1 })
    ≡ record { seq = 0; heading = codes "B"; content = codes "one" ++ newline ++ codes "two" } ∷ []
unfolding split_document lines_of line_ends drop_fences on_lines on_line on_header on_blank on_text
    flush add_pieces hard_split split_from renumber header_of is_table_line drop_quote trim_blanks
    join_headings trim_space split
misplaced = refl

-- Code between fences is dropped, and so is the rule of a table.
fenced : lines_of (codes "a" ++ newline ++ codes "```x```b") ≡ codes "a" ∷ [] ∷ codes "b" ∷ []
unfolding lines_of line_ends drop_fences split
fenced = refl

ruled : is_table_line (codes " |--|:-:|") ≡ true
unfolding is_table_line trim_space
ruled = refl
