-- ===== src/Tasks/Evidence/Output.antt =====
-- The address that the output of a command ends with: the end of `PrEvidence.accept` of
-- apps/server/src/modules/tasks/adapters/outbound/pr-evidence.ts.
use palmagent.Common.{
  zero, suc, Text, codes, Bool, true, false, ◌&&◌, not, Option, none, some, List, [], ◌∷◌, ◌++◌,
  ◌==◌, nat_eq, list_eq, option_eq, if◌then◌else◌, is_empty, leb, trim, every,
}
use palmagent.Events.{
  Json, null, boolean, number, natural, below, other, string, object, array, Items, nil, cons, get,
  says, spell_item, agent_eq,
}
use palmagent.Tasks.Prs.{is_digit, is_name_unit, span, after}

-- `https://github.com/owner/repo/pull/n` and nothing else.
abbrev pub is_number_text : Text → Bool
is_number_text [] = false
is_number_text (c ∷ s) = (leb 49 c && leb c 57) && every is_digit s

abbrev pub ends_pull : Option Text → Bool
ends_pull none = false
ends_pull (some s) = is_number_text s

abbrev pub repo_pull : Text × Text → Bool
repo_pull (name, rest) = not (is_empty name) && ends_pull (after (codes "/pull/") rest)

abbrev pub repo_after : Option Text → Bool
repo_after none = false
repo_after (some s) = repo_pull (span is_name_unit s)

abbrev pub owner_repo : Text × Text → Bool
owner_repo (owner, rest) = not (is_empty owner) && repo_after (after (codes "/") rest)

abbrev pub hosted : Option Text → Bool
hosted none = false
hosted (some s) = owner_repo (span is_name_unit s)

unfoldable pub is_pull_url : Text → Bool
is_pull_url url = hosted (after (codes "https://github.com/") url)

-- `text.split(/\r?\n/).at(-1)`, for a text that is trimmed again.
abbrev pub last_line : Text → Text → Text
last_line line [] = line
last_line line (c ∷ s) =
    let fresh = last_line [] s in
    let same = last_line (line ++ c ∷ []) s in if c == 10 then fresh else same

-- The text of a block of content, and the join of the blocks with ends of line.
unfoldable pub block_text : Json → Text
unfolding spell_item
block_text b =
    if says (get "type" b) "text"
    then elim (get "text" b) [ some t ↦ spell_item t | none ↦ [] ]
    else []

abbrev pub blocks_text : Items → Text
blocks_text nil = []
blocks_text (cons b nil) = block_text b
blocks_text (cons b (cons c bs)) = block_text b ++ (10 ∷ blocks_text (cons c bs))

abbrev pub output_text : Option Json → Option Text
output_text none = none
output_text (some (string s)) = some s
output_text (some (array bs)) = some (blocks_text bs)
output_text (some null) = none
output_text (some (boolean b)) = none
output_text (some (number n)) = none
output_text (some (object fs)) = none

-- The address on the last line.
unfoldable pub confirmed_url : Option Text → List Text
unfolding is_pull_url
confirmed_url none = []
confirmed_url (some output) =
    let url = trim (last_line [] (trim output)) in if is_pull_url url then url ∷ [] else []

-- `v === 0`
abbrev pub is_zero : Option Json → Bool
is_zero (some (number (natural zero))) = true
is_zero (some (number (natural (suc n)))) = false
is_zero (some (number (below n))) = false
is_zero (some (number (other t))) = false
is_zero (some null) = false
is_zero (some (boolean b)) = false
is_zero (some (string s)) = false
is_zero (some (array xs)) = false
is_zero (some (object fs)) = false
is_zero none = false

abbrev pub is_null : Option Json → Bool
is_null (some null) = true
is_null (some (boolean b)) = false
is_null (some (number n)) = false
is_null (some (string s)) = false
is_null (some (array xs)) = false
is_null (some (object fs)) = false
is_null none = false
