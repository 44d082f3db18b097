-- ===== src/Grading/Diff.antt =====
-- The filter of an agent's patch: `_looks_like_test_file`, `_diff_touched_files`, `_strip_diff_files`
-- and `_sanitize_patch_for_soma_eval` of src/soma_bench/benchmark/soma_task_eval.py.
pub mod Blocked
pub mod Changes
pub mod Chunks
use soma_benchmark.Base.{
  ℕ, Bool, true, false, not, ◌&&◌, ◌||◌, Option, none, some, List, [], ◌∷◌, ◌++◌, ◌==◌, ◌-◌, leb,
  ltb, if◌then◌else◌,
}
use soma_benchmark.Base.Lists.{length, drop, keep_if, concat}
use soma_benchmark.Base.Text.{Text, codes, text_eq, starts_with, strip, is_empty, contains}

abbrev ends_with : Text → Text → Bool
ends_with s suffix =
    leb (length suffix) (length s) && text_eq (drop (length s - length suffix) s) suffix

-- `s.lstrip("./")`
abbrev lstrip_dots : Text → Text
lstrip_dots [] = []
lstrip_dots (c ∷ s) = let rest = lstrip_dots s in if c == 46 || c == 47 then rest else c ∷ s

-- `s.rsplit("/", 1)[-1]`
abbrev last_part : Text → Text
last_part [] = []
last_part (c ∷ s) = let rest = last_part s in if contains (47 ∷ []) (c ∷ s) then rest else c ∷ s

abbrev has_test_name : Text → Bool
has_test_name f =
    starts_with f (codes "test_")
    || ends_with f (codes "_test.py")
    || ends_with f (codes "_tests.py")
    || ends_with f (codes "tests.py")

unfoldable pub looks_like_test_file : Text → Bool
looks_like_test_file path =
    let n = lstrip_dots (strip path) in
    not (is_empty n)
    && (starts_with n (codes "tests/")
        || contains (codes "/tests/") n
        || starts_with n (codes "test/")
        || contains (codes "/test/") n
        || has_test_name (last_part n))

-- The line breaks of `str.splitlines`, of which "\r\n" gives an empty line more here; such a line is
-- no header.
abbrev is_break : ℕ → Bool
is_break c = (leb 10 c && leb c 13) || (leb 28 c && leb c 30) || c == 133 || c == 8232 || c == 8233

abbrev on_line : ℕ → List Text → List Text
on_line c [] = (c ∷ []) ∷ []
on_line c (l ∷ ls) = (c ∷ l) ∷ ls

abbrev pub split_lines : Text → List Text
split_lines [] = []
split_lines (c ∷ s) = let rest = split_lines s in if is_break c then [] ∷ rest else on_line c rest

abbrev pub first_line : Text → Text
first_line [] = []
first_line (c ∷ s) = if is_break c then [] else c ∷ first_line s

abbrev pub git_header : Text
git_header = codes "diff --git "

-- The shortest first group and the rest of `(.+?) b/(.+)$`, from a first character on.
abbrev add_first : ℕ → Option (Text × Text) → Option (Text × Text)
add_first c none = none
add_first c (some (a, b)) = some (c ∷ a, b)

abbrev if_some : Text → Option (Text × Text)
if_some [] = none
if_some (c ∷ s) = some ([], c ∷ s)

abbrev groups_from : Text → Option (Text × Text)
groups_from [] = none
groups_from (c ∷ s) =
    let rest = add_first c (groups_from s) in
    if starts_with (c ∷ s) (codes " b/") then if_some (drop 3 (c ∷ s)) else rest

abbrev groups : Text → Option (Text × Text)
groups [] = none
groups (c ∷ s) = add_first c (groups_from s)

-- `re.match(r"diff --git a/(.+?) b/(.+)$", line)`
abbrev pub header_files : Text → Option (Text × Text)
header_files line = if starts_with line (codes "diff --git a/") then groups (drop 13 line) else none

abbrev pub among : Text → List Text → Bool
among t [] = false
among t (u ∷ us) = text_eq t u || among t us

abbrev pub add_new : Text → List Text → List Text
add_new t ts = if among t ts then ts else ts ++ t ∷ []

abbrev pub is_dev_null : Text → Bool
is_dev_null t = text_eq t (codes "/dev/null")

abbrev add_file : Text → List Text → List Text
add_file t files = if is_dev_null t then files else add_new t files

abbrev add_files : Option (Text × Text) → List Text → List Text
add_files none files = files
add_files (some (a, b)) files = add_file (strip b) (add_file (strip a) files)

unfoldable pub touched_from : List Text → List Text → List Text
touched_from files [] = files
touched_from files (l ∷ ls) = touched_from (add_files (header_files l) files) ls

-- `_diff_touched_files`
unfoldable pub diff_touched_files : Text → List Text
unfolding touched_from
diff_touched_files diff = touched_from [] (split_lines diff)

-- `re.split(r"(?=^diff --git )", diff_text, flags=re.MULTILINE)`, from a place that is at the start of
-- a line or not.
abbrev pub prepend : ℕ → List Text → List Text
prepend c [] = (c ∷ []) ∷ []
prepend c (l ∷ ls) = (c ∷ l) ∷ ls

unfoldable pub chunks_from : Bool → Text → List Text
chunks_from at_start [] = [] ∷ []
chunks_from at_start (c ∷ s) =
    let rest = prepend c (chunks_from (c == 10) s) in
    if at_start && starts_with (c ∷ s) git_header then [] ∷ rest else rest

abbrev pub touched : Option (Text × Text) → List Text
touched none = []
touched (some (a, b)) =
    keep_if (λ t. not (is_empty t) && not (is_dev_null t)) (strip a ∷ strip b ∷ [])

abbrev text_leb : Text → Text → Bool
text_leb [] t = true
text_leb (_ ∷ _) [] = false
text_leb (a ∷ s) (b ∷ t) =
    let rest = text_leb s t in if ltb a b then true else if ltb b a then false else rest

-- `sorted` of a set of at most two.
abbrev pub sorted_two : List Text → List Text
sorted_two (a ∷ b ∷ []) = if text_leb a b then a ∷ b ∷ [] else b ∷ a ∷ []
sorted_two ts = ts

-- The blocked files that a chunk touches. A chunk that does not start with the header touches none.
unfoldable pub blocked_in : List Text → Text → List Text
blocked_in blocked chunk =
    if starts_with chunk git_header
    then sorted_two (keep_if (λ t. among t blocked) (touched (header_files (first_line chunk))))
    else []

abbrev pub is_none {ℓ} : {A : Type ℓ} → List A → Bool
is_none [] = true
is_none (_ ∷ _) = false

abbrev pub add_all : List Text → List Text → List Text
add_all [] seen = seen
add_all (t ∷ ts) seen = add_all ts (add_new t seen)

unfoldable pub removed_files : List Text → List Text → List Text → List Text
unfolding blocked_in
removed_files blocked [] seen = seen
removed_files blocked (chunk ∷ chunks) seen =
    removed_files blocked chunks (add_all (blocked_in blocked chunk) seen)

-- `_strip_diff_files`: the kept text and the files of the removed chunks.
unfoldable pub strip_diff_files : Text → List Text → Text × List Text
unfolding chunks_from removed_files blocked_in
strip_diff_files diff blocked = if is_empty (strip diff) then (diff, []) else (
  concat (keep_if (λ c. is_none (blocked_in blocked c)) (chunks_from true diff)),
  removed_files blocked (chunks_from true diff) [],
)

abbrev pub or_these : List Text → List Text → List Text
or_these [] others = others
or_these (t ∷ ts) others = t ∷ ts

-- The set `blocked_files`.
unfoldable pub blocked_files : Text → Text → List Text
unfolding diff_touched_files looks_like_test_file
blocked_files test_patch diff =
    or_these (keep_if looks_like_test_file (diff_touched_files test_patch))
      (keep_if looks_like_test_file (diff_touched_files diff))

-- The text that `read_text` makes of a file's: each of "\r\n" and "\r" becomes "\n". `write_text` on
-- POSIX writes "\n" as it is.
abbrev newlines_from : Bool → Text → Text
newlines_from after_cr [] = []
newlines_from after_cr (c ∷ s) =
    let rest = newlines_from (c == 13) s in
    if c == 13 then 10 ∷ rest else if after_cr && c == 10 then rest else c ∷ rest

unfoldable pub universal_newlines : Text → Text
universal_newlines s = newlines_from false s

-- `_sanitize_patch_for_soma_eval`, on the test patch and the text of the patch's file: the text of the
-- effective patch's file.
unfoldable pub sanitize_patch_for_soma_eval : Text → Text → Text
unfolding universal_newlines strip_diff_files blocked_files
sanitize_patch_for_soma_eval test_patch file =
    let diff = universal_newlines file in
    let (text, stripped) = strip_diff_files diff (blocked_files test_patch diff) in
    if is_none stripped then file else text
