-- ===== src/Chunker.antt =====
-- Cutting a document into chunks: app/kb-service/internal/chunker/chunker.go. A text is the list of
-- its characters (runes); spaces are those of ASCII.
pub mod Pieces
pub mod Tests
use onepark_smart_park.Prelude.{
  ℕ, zero, suc, ◌+◌, ◌*◌, ◌/◌, Bool, true, false, ◌&&◌, ◌||◌, not, Option, none, some, List, [],
  ◌∷◌, ◌++◌, length, Text, codes, starts_with, is_empty, ltb, leb, ◌==◌, if◌then◌else◌,
}
use onepark_smart_park.Strings.{is_space, trim_space, trim_left, split}

pub record Chunk : Type 0 where
  pub seq : ℕ
  pub heading : Text
  pub content : Text

-- `MaxLen` and `MinLen`; one that is not positive is 0.
pub record Options : Type 0 where
  pub max_len : ℕ
  pub min_len : ℕ

-- `DefaultOptions`
abbrev pub default_options : Options
default_options = record { max_len = 400; min_len = 30 }

-- `strings.Join`
abbrev pub join : Text → List Text → Text
join sep [] = []
join sep (s ∷ []) = s
join sep (s ∷ t ∷ ts) = s ++ sep ++ join sep (t ∷ ts)

abbrev pub newline : Text
newline = 10 ∷ []

-- The two `ReplaceAll`: "\r\n" and then "\r" become "\n". `after_cr` is that a "\r" came before.
unfoldable pub line_ends : Bool → Text → Text
line_ends after_cr [] = []
line_ends after_cr (c ∷ s) =
    let ended = 10 ∷ line_ends true s in
    let skipped = line_ends false s in
    let kept = c ∷ line_ends false s in
    if c == 13 then ended else if after_cr && c == 10 then skipped else kept

abbrev pub is_fence : Text → Bool
is_fence s = starts_with s (codes "```")

abbrev pub skip_three : Text → Text
skip_three (a ∷ b ∷ c ∷ s) = s
skip_three s = []

-- What follows the next fence
unfoldable pub after_fence : Text → Option Text
after_fence [] = none
after_fence (c ∷ s) = if is_fence (c ∷ s) then some (skip_three (c ∷ s)) else after_fence s

-- A fence that is not closed stays.
abbrev pub resume : (Text → Text) → Text → Option Text → Text
resume go s none = s
resume go s (some rest) = 10 ∷ go rest

-- `reFence`: each pair of fences with what stands between becomes a line end. Each round takes at
-- least one character, so as many rounds as there are characters are enough.
unfoldable pub drop_fences : ℕ → Text → Text
unfolding after_fence
drop_fences zero s = s
drop_fences (suc rounds) [] = []
drop_fences (suc rounds) (c ∷ s) =
    let kept = c ∷ drop_fences rounds s in
    let dropped =
      resume (λ rest. drop_fences rounds rest) (c ∷ s) (after_fence (skip_three (c ∷ s))) in
    if is_fence (c ∷ s) then dropped else kept

abbrev pub trim_tail : ℕ → Text → Text
trim_tail c [] = if c == 32 || c == 9 then [] else c ∷ []
trim_tail c (d ∷ s) = c ∷ d ∷ s

-- `strings.TrimRight(raw, " \t")`
unfoldable pub trim_blanks : Text → Text
trim_blanks [] = []
trim_blanks (c ∷ s) = trim_tail c (trim_blanks s)

abbrev pub header_title : ℕ → Text → Option (ℕ × Text)
header_title level [] = none
header_title level (c ∷ s) =
    if is_space c && (leb 1 level && leb level 6) then some (level, trim_space s) else none

-- `reHeader`: one to six `#`, a space, and the title, trimmed
unfoldable pub header_of : ℕ → Text → Option (ℕ × Text)
header_of level [] = none
header_of level (c ∷ s) = if c == 35 then header_of (suc level) s else header_title level (c ∷ s)

abbrev pub is_rule_char : ℕ → Bool
is_rule_char c = is_space c || (c == 45 || (c == 58 || c == 124))

-- After the first bar: characters of a rule, at least one, and a last bar
abbrev pub is_rule_rest : Text → Bool
is_rule_rest [] = false
is_rule_rest (c ∷ []) = false
is_rule_rest (c ∷ d ∷ []) = is_rule_char c && d == 124
is_rule_rest (c ∷ d ∷ e ∷ s) = is_rule_char c && is_rule_rest (d ∷ e ∷ s)

abbrev pub is_rule_line : Text → Bool
is_rule_line [] = false
is_rule_line (c ∷ s) = c == 124 && is_rule_rest s

-- `reTableLine`
unfoldable pub is_table_line : Text → Bool
is_table_line line = is_rule_line (trim_space line)

abbrev pub drop_one_space : Text → Text
drop_one_space [] = []
drop_one_space (c ∷ s) = if is_space c then s else c ∷ s

abbrev pub unquoted : Text → Text → Text
unquoted line [] = line
unquoted line (c ∷ s) = if c == 62 then drop_one_space s else line

-- `reQuote`: spaces, a `>` and one space are taken off.
unfoldable pub drop_quote : Text → Text
drop_quote line = unquoted line (trim_left line)

-- 。！？； and the line end
abbrev pub is_sentence_end : ℕ → Bool
is_sentence_end r = r == 12290 || (r == 65281 || (r == 65311 || (r == 65307 || r == 10)))

abbrev pub last_piece : Text → List Text
last_piece [] = []
last_piece (c ∷ s) = (c ∷ s) ∷ []

-- The loop of `hardSplit`; `cur` is the piece begun.
unfoldable pub split_from : ℕ → Text → Text → List Text
split_from max cur [] = last_piece cur
split_from max cur (r ∷ s) =
    let piece = cur ++ r ∷ [] in
    let cut = piece ∷ split_from max [] s in
    let on = split_from max piece s in
    if is_sentence_end r && leb max (length piece) then cut else on

-- `hardSplit`
unfoldable pub hard_split : ℕ → Text → List Text
hard_split max s = if leb (length s) max then s ∷ [] else split_from max [] s

-- The titles in force, by level; those below the level of a new one go.
abbrev pub set_heading : ℕ → Text → List (ℕ × Text) → List (ℕ × Text)
set_heading level title [] = (level, title) ∷ []
set_heading level title ((k, t) ∷ hs) =
    if ltb k level then (k, t) ∷ set_heading level title hs else (level, title) ∷ []

abbrev pub titles : List (ℕ × Text) → List Text
titles [] = []
titles ((k, t) ∷ hs) = if is_empty t then titles hs else t ∷ titles hs

-- `joinHeadings`: the list is in the order of levels, and has none below the last.
unfoldable pub join_headings : List (ℕ × Text) → Text
join_headings hs = join (codes " > ") (titles hs)

-- The variables of `Split`; `seq` is the number of chunks.
pub record State : Type 0 where
  pub headings : List (ℕ × Text)
  pub cur_heading : Text
  pub buf : List Text
  pub para : List Text
  pub chunks : List Chunk

-- The loop of `flush` over the pieces
unfoldable pub add_pieces : Options → Text → List Text → List Chunk → List Chunk
add_pieces opt heading [] chunks = chunks
add_pieces opt heading (piece ∷ pieces) chunks = add_pieces opt heading pieces (
    if ltb (length (trim_space piece)) opt.min_len
    then chunks
    else chunks
      ++ record { seq = length chunks; heading = heading; content = trim_space piece } ∷ [])

abbrev pub flush_body : Options → State → Text → State
flush_body opt st body = if is_empty body then record st { buf = [] } else record st {
  buf = [];
  chunks = add_pieces opt st.cur_heading (hard_split opt.max_len body) st.chunks;
}

-- `flush`; an empty buffer gives an empty body.
unfoldable pub flush : Options → State → State
flush opt st = flush_body opt st (trim_space (join newline st.buf))

unfoldable pub on_header : Options → ℕ → Text → State → State
on_header opt level title st =
    let done = flush opt st in
    let hs = set_heading level title done.headings in
    record done { headings = hs; cur_heading = join_headings hs }

abbrev pub end_para : State → State
end_para st =
    if is_some_para st.para
    then record st { buf = st.buf ++ join newline st.para ∷ []; para = [] }
    else st
  where
    is_some_para : List Text → Bool
    is_some_para [] = false
    is_some_para (l ∷ ls) = true

-- A blank line ends the paragraph, and a buffer of three quarters of `MaxLen` is flushed.
unfoldable pub on_blank : Options → State → State
on_blank opt st =
    let ended = end_para st in
    if leb (opt.max_len * 3 / 4) (length (join newline ended.buf)) then flush opt ended else ended

unfoldable pub on_text : Options → Text → State → State
on_text opt line st =
    if is_empty (trim_space line)
    then on_blank opt st
    else record st { para = st.para ++ line ∷ [] }

abbrev pub on_header_or : Options → Text → State → Option (ℕ × Text) → State
on_header_or opt line st (some (level, title)) = on_header opt level title st
on_header_or opt line st none = if is_table_line line then st else on_text opt (drop_quote line) st

-- One line of the loop of `Split`
unfoldable pub on_line : Options → Text → State → State
on_line opt raw st = on_header_or opt (trim_blanks raw) st (header_of 0 (trim_blanks raw))

unfoldable pub on_lines : Options → List Text → State → State
on_lines opt [] st = st
on_lines opt (l ∷ ls) st = on_lines opt ls (on_line opt l st)

abbrev pub start : State
start = record { headings = []; cur_heading = []; buf = []; para = []; chunks = [] }

abbrev pub options_of : Options → Options
options_of opt = if opt.max_len == 0 then default_options else opt

unfoldable pub renumber : ℕ → List Chunk → List Chunk
renumber i [] = []
renumber i (c ∷ cs) = record c { seq = i } ∷ renumber (i + 1) cs

unfoldable pub lines_of : Text → List Text
lines_of markdown = let text = line_ends false markdown in split 10 (drop_fences (length text) text)

-- `Split`
unfoldable pub split_document : Text → Options → List Chunk
split_document markdown opt =
    let o = options_of opt in
    renumber 0 (flush o (end_para (on_lines o (lines_of markdown) start))).chunks
