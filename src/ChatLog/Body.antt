-- ===== src/ChatLog/Body.antt =====
-- `_encode_body` and `_decode_body`: a line of a body that looks like the header of an entry is
-- written with a backslash before it.
use playbook_harness.Base.{Bool, true, not, ◌&&◌, ◌||◌, [], ◌∷◌, ◌==◌, if◌then◌else◌}
use playbook_harness.Text.{Text, codes, after_prefix, starts_with}
use playbook_harness.ChatLog.{is_marker, is_stamp, split_at, pair_of, after}

-- A pattern that starts at the beginning of a line reads no further than the line's end.
unfoldable pub first_line : Text → Text
first_line [] = []
first_line (c ∷ t) = let rest = c ∷ first_line t in if c == b'\n' then [] else rest

abbrev pub is_label : Text → Bool
is_label t = is_marker t || is_stamp t

-- `_BODY_HEADER_LINE_RE` at the beginning of a line.
unfoldable pub is_header : Text → Bool
is_header line =
    after (after_prefix (codes "**[") line)
      (λ t. pair_of is_label (starts_with (codes "**")) (split_at b']' t))

-- Whether a header starts here.
abbrev pub at_header : Text → Bool
at_header t = is_header (first_line t)

-- The flag says that a line begins here.
unfoldable pub encode_from : Bool → Text → Text
encode_from start [] = []
encode_from start (c ∷ t) =
    let rest = c ∷ encode_from (c == b'\n') t in
    if start && at_header (c ∷ t) then b'\\' ∷ rest else rest

-- `_encode_body`
abbrev pub encode_body : Text → Text
encode_body message = encode_from true message

-- A backslash that is removed is no beginning of a line behind it.
unfoldable pub decode_from : Bool → Text → Text
decode_from start [] = []
decode_from start (c ∷ t) =
    let rest = decode_from (c == b'\n') t in
    if start && (c == b'\\' && at_header t) then rest else c ∷ rest

-- `_decode_body`
abbrev pub decode_body : Text → Text
decode_body message = decode_from true message

-- No line begins with a header.
unfoldable pub no_header : Bool → Text → Bool
no_header start [] = true
no_header start (c ∷ t) = not (start && at_header (c ∷ t)) && no_header (c == b'\n') t

-- No line begins with a backslash and a header.
unfoldable pub no_escaped : Bool → Text → Bool
no_escaped start [] = true
no_escaped start (c ∷ t) = not (start && (c == b'\\' && at_header t)) && no_escaped (c == b'\n') t
