-- ===== src/GateEdit/Patch.antt =====
-- `candidate_from_apply_patch`: the hunks of a patch for one file, applied in order.
use playbook_harness.Base.{
  Bool, true, false, not, ◌||◌, Option, none, some, List, [], ◌∷◌, ◌++◌, ◌==◌, if◌then◌else◌,
  Result, ok, err, ◌>>=◌, ltb,
}
use playbook_harness.Text.{Text, codes, text_eq, after_prefix, starts_with, ends_with, strip}
use playbook_harness.Text.Edit.{count, replace_first}
use playbook_harness.Text.Bare.{bare_lines, join_lines, contains}
use playbook_harness.Policy.{normalized}
use playbook_harness.GateEdit.Candidate.{
  GateEditError, hunk_missing, hunk_ambiguous, no_context, no_update,
}

-- `_replace_once`, on the joined lines.
unfoldable pub replace_once : Text → Text → Text → Result GateEditError Text
replace_once text old new =
    if not (contains old text)
    then (if not (contains (old ++ codes "\n") text)
        then err hunk_missing
        else ok (replace_first (old ++ codes "\n") (new ++ codes "\n") text))
    else if ltb 1 (count old text)
    then err hunk_ambiguous
    else ok (replace_first old new text)

-- `.lstrip("/")`
unfoldable pub drop_slashes : Text → Text
drop_slashes [] = []
drop_slashes (c ∷ t) = if c == b'/' then drop_slashes t else c ∷ t

abbrev pub normalize_path : Text → Text
normalize_path path = drop_slashes (normalized path)

pub record FileUpdate : Type 0 where
  pub path : Text
  pub section : List Text

-- A header opens the section that reaches to the next header; other headers open none.
abbrev pub place_line :
    Text → Option Text → List Text × List FileUpdate → List Text × List FileUpdate
place_line line (some raw) (section, updates) =
    ([], record { path = normalize_path (strip raw); section = section } ∷ updates)
place_line line none (section, updates) =
    if starts_with (codes "*** ") line then ([], updates) else (line ∷ section, updates)

-- The updates of a patch, from its last line on, behind the lines of a section that is open.
unfoldable pub split_updates : List Text → List Text × List FileUpdate
split_updates [] = ([], [])
split_updates (l ∷ ls) =
    place_line l (after_prefix (codes "*** Update File: ") l) (split_updates ls)

abbrev pub flush : List Text → List (List Text) → List (List Text)
flush [] chunks = chunks
flush (l ∷ ls) chunks = (l ∷ ls) ∷ chunks

-- The chunks between the `@@` lines, behind the lines of a chunk that is open.
unfoldable pub split_chunks : List Text → List Text × List (List Text)
split_chunks [] = ([], [])
split_chunks (l ∷ ls) =
    let (current, chunks) = split_chunks ls in
    if starts_with (codes "@@") l then ([], flush current chunks) else (l ∷ current, chunks)

abbrev pub chunks_of : List Text → List (List Text)
chunks_of section = let (current, chunks) = split_chunks section in flush current chunks

unfoldable pub old_side : List Text → List Text
old_side [] = []
old_side ([] ∷ ls) = [] ∷ old_side ls
old_side ((c ∷ t) ∷ ls) =
    let rest = old_side ls in
    if c == b'-'
    then t ∷ rest
    else if c == b'+'
    then rest
    else if c == b' '
    then t ∷ rest
    else (c ∷ t) ∷ rest

unfoldable pub new_side : List Text → List Text
new_side [] = []
new_side ([] ∷ ls) = [] ∷ new_side ls
new_side ((c ∷ t) ∷ ls) =
    let rest = new_side ls in
    if c == b'-'
    then rest
    else if c == b'+'
    then t ∷ rest
    else if c == b' '
    then t ∷ rest
    else (c ∷ t) ∷ rest

abbrev pub apply_hunk : Text → List Text → List Text → Result GateEditError Text
apply_hunk candidate [] new_lines = err no_context
apply_hunk candidate (l ∷ ls) new_lines =
    replace_once candidate (join_lines (l ∷ ls)) (join_lines new_lines)

unfoldable pub apply_chunks : Text → List (List Text) → Result GateEditError Text
unfolding old_side new_side
apply_chunks candidate [] = ok candidate
apply_chunks candidate (chunk ∷ chunks) = do
  next ← apply_hunk candidate (old_side chunk) (new_side chunk)
  apply_chunks next chunks

abbrev pub names_target : Text → Text → Bool
names_target target path =
    text_eq path target || ends_with (b'/' ∷ path) target || ends_with (b'/' ∷ target) path

-- The candidate, and whether an update named the target.
unfoldable pub apply_updates :
    Text → Text → Bool → List FileUpdate → Result GateEditError (Text × Bool)
apply_updates target candidate found [] = ok (candidate, found)
apply_updates target candidate found (u ∷ us) =
    if names_target target u.path
    then (do next ← apply_chunks candidate (chunks_of u.section); apply_updates target next true us)
    else apply_updates target candidate found us

abbrev pub require_found : Text × Bool → Result GateEditError Text
require_found (candidate, found) = if found then ok candidate else err no_update

unfoldable pub candidate_from_apply_patch : Text → Text → Text → Result GateEditError Text
candidate_from_apply_patch original patch target_path = do
  applied ←
      apply_updates (normalize_path target_path) original false (split_updates (bare_lines patch)).1
  require_found applied
