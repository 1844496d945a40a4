-- ===== src/Tasks/Prs.antt =====
-- Pull requests of a task: `parsePrUrl` and `makePrRef` of packages/shared/src/task.ts and
-- apps/server/src/modules/tasks/domain/pr-projection.ts. A `Map` is the list of its values in the
-- order of insertion, each under its address.
use palmagent.Common.{
  ℕ, ◌+◌, ◌-◌, ◌*◌, Text, codes, Bool, ◌&&◌, ◌||◌, Option, none, some, List, [], ◌∷◌, ◌++◌, leb,
  ◌==◌, nat_eq, list_eq, if◌then◌else◌, any, find,
}

pub data PrLifecycle : Type 0 where
  open_pr draft merged closed : PrLifecycle

pub data PrChecks : Type 0 where
  passed pending failed none_run unknown : PrChecks

pub record PrRef : Type 0 where
  pub url : Text
  pub number : ℕ
  pub repo : Text
  pub title : Option Text
  pub status : PrLifecycle
  pub checks : PrChecks
  pub branch : Option Text
  pub fetched_at : Option ℕ

abbrev pub is_digit : ℕ → Bool
is_digit c = leb 48 c && leb c 57

-- `[\w.-]`
abbrev pub is_name_unit : ℕ → Bool
is_name_unit c =
    (leb 97 c && leb c 122)
    || (leb 65 c && leb c 90)
    || is_digit c
    || (c == 95)
    || (c == 46)
    || (c == 45)

-- The longest beginning that passes the test, and what follows it.
abbrev pub span : (ℕ → Bool) → Text → Text × Text
span p [] = ([], [])
span p (c ∷ s) = let rest = span p s in if p c then (c ∷ rest.0, rest.1) else ([], c ∷ s)

-- The text after a beginning.
abbrev pub after : Text → Text → Option Text
after [] s = some s
after (c ∷ t) [] = none
after (c ∷ t) (d ∷ s) = let rest = after t s in if c == d then rest else none

abbrev pub decimal_value : ℕ → Text → ℕ
decimal_value n [] = n
decimal_value n (c ∷ s) = decimal_value (n * 10 + (c - 48)) s

abbrev pub numbered : Text → Text × Text → Option (Text × ℕ)
numbered repo ([], rest) = none
numbered repo (d ∷ ds, rest) = some (repo, decimal_value 0 (d ∷ ds))

abbrev pub pulled : Text → Option Text → Option (Text × ℕ)
pulled repo none = none
pulled repo (some s) = numbered repo (span is_digit s)

abbrev pub named : Text → Text × Text → Option (Text × ℕ)
named owner ([], rest) = none
named owner (c ∷ name, rest) =
    pulled (owner ++ (codes "/" ++ c ∷ name)) (after (codes "/pull/") rest)

abbrev pub slashed : Text → Option Text → Option (Text × ℕ)
slashed owner none = none
slashed owner (some s) = named owner (span is_name_unit s)

abbrev pub owned : Text × Text → Option (Text × ℕ)
owned ([], rest) = none
owned (c ∷ owner, rest) = slashed (c ∷ owner) (after (codes "/") rest)

abbrev pub located : Option Text → Option (Text × ℕ)
located none = none
located (some s) = owned (span is_name_unit s)

-- No two choices of the expression overlap: a name has no slash, and the digits are read greedily.
unfoldable pub parse_pr_url : Text → Option (Text × ℕ)
parse_pr_url url = located (after (codes "https://github.com/") url)

abbrev pub fresh_pr : Text → Option (Text × ℕ) → Option PrRef
fresh_pr url none = none
fresh_pr url (some (repo, number)) = some (record {
  url = url;
  number = number;
  repo = repo;
  title = none;
  status = open_pr;
  checks = unknown;
  branch = none;
  fetched_at = none;
})

unfoldable pub make_pr_ref : Text → Option PrRef
unfolding parse_pr_url
make_pr_ref url = fresh_pr url (parse_pr_url url)

abbrev pub is_at : Text → PrRef → Bool
is_at url pr = pr.url == url

-- `map.set(pr.url, pr)`
abbrev pub put : PrRef → List PrRef → List PrRef
put pr [] = pr ∷ []
put pr (p ∷ ps) = let rest = put pr ps in if is_at pr.url p then pr ∷ ps else p ∷ rest

abbrev pub put_all : List PrRef → List PrRef → List PrRef
put_all [] m = m
put_all (pr ∷ prs) m = put_all prs (put pr m)

-- `metadata.get(url) ?? makePrRef(url)`
abbrev pub reference : List PrRef → Text → Option PrRef
reference metadata url = elim (find (is_at url) metadata) [
  | some pr ↦ some pr
  | none ↦ make_pr_ref url
]

abbrev pub admit : Text → Option PrRef → List PrRef → List PrRef
admit url none projected = projected
admit url (some pr) projected =
    if any (is_at url) projected then projected else projected ++ pr ∷ []

abbrev pub confirm : List PrRef → List Text → List PrRef → List PrRef
confirm metadata [] projected = projected
confirm metadata (url ∷ urls) projected =
    confirm metadata urls (admit url (reference metadata url) projected)

unfoldable pub project_confirmed_prs : List PrRef → List Text → Bool → List PrRef
project_confirmed_prs previous confirmed rebuild =
    let metadata = put_all previous [] in
    confirm metadata confirmed (if rebuild then [] else metadata)
