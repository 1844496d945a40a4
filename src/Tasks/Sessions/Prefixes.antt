-- ===== src/Tasks/Sessions/Prefixes.antt =====
-- Cumulative snapshots of a shared session are imported once: `importSessionEvents` of
-- apps/server/src/modules/tasks/adapters/outbound/sqlite-tasks.ts.
use palmagent.Common.{
  find-append-new, ◌≡◌, refl, ap, sym, ◌∙◌, ◌⊎◌, inl, inr, String, Text, Bool, true, Option, none,
  some, List, [], ◌∷◌, ◌++◌, length, length-append, take, drop, take-length, append_assoc,
  append-nil, eq_iff, string_eq, arith, find, any, modify, ok, beq_refl, nat_eq, Bool-cases,
}
use palmagent.Events.{
  AgentEvent, assistant_text, is_kind, Json, Members, end, field, member, get, as_string, string,
  object, null, boolean, number, array,
}
use palmagent.Tasks.Types.{Import}
use palmagent.Tasks.Sessions.{
  is_import, text_row, upsert, with_text, payload_with, text_of, fresh_text, prefix_of, taken,
  import_text, import_event, added, import_events,
}

take-append {ℓ} : {A : Type ℓ} (xs ys : List A) → take (length xs) (xs ++ ys) ≡ xs
take-append [] ys = refl
take-append (x ∷ xs) ys = ap (◌∷◌ x) (take-append xs ys)

drop-append {ℓ} : {A : Type ℓ} (xs ys : List A) → drop (length xs) (xs ++ ys) ≡ ys
drop-append [] ys = refl
drop-append (x ∷ xs) ys = drop-append xs ys

-- The table has the prefix `p` of the source: its length and its digest, or no row for no text.
abbrev pub Recorded : (Text → String) → String → String → Text → List Import → Type 0
Recorded hash id source p rows =
    ((p ≡ []) × (find (is_import id source) rows ≡ none))
    ⊎ (find (is_import id source) rows ≡ some (text_row id source (length p) (hash p)))

find-modify-any {ℓ} :
    {A : Type ℓ} (q : A → Bool) (x : A) (xs : List A)
    → any q xs ≡ true
    → q x ≡ true
    → find q (modify q (λ _. x) xs) ≡ some x
find-modify-any q x [] h t = cc
find-modify-any q x (y ∷ xs) h t = ground (arith, find-modify-any q x xs)

is_import_self :
    (id source : String) (row : Import)
    → row.task_id ≡ id
    → row.source_id ≡ source
    → is_import id source row ≡ true
is_import_self id source row p q =
    ground (arith, eq_iff row.task_id id, eq_iff row.source_id source)

find-upsert :
    (hash : Text → String) (id source : String) (p : Text) (rows : List Import)
    → find (is_import id source) (upsert (text_row id source (length p) (hash p)) rows)
      ≡ some (text_row id source (length p) (hash p))
find-upsert hash id source p rows =
    let row = text_row id source (length p) (hash p) in
    let own = is_import_self id source row refl refl in
    elim (Bool-cases (any (is_import id source) rows)) [
      | inl old ↦ rw old (find-modify-any (is_import id source) row rows old own)
      | inr new ↦ rw new (find-append-new (is_import id source) rows row new own)
    ]

get-with_text :
    (text : Text) (fs : Members) → member "text" (with_text text fs) ≡ some (string text)
get-with_text text end = refl
get-with_text text (field name v fs) = ground (arith, get-with_text text fs)

text_of-payload :
    (payload : Json) (text : Text) → as_string (get "text" (payload_with text payload)) ≡ some text
text_of-payload (object fs) text = rw (get-with_text text fs) refl
text_of-payload null text = refl
text_of-payload (boolean b) text = refl
text_of-payload (number n) text = refl
text_of-payload (string s) text = refl
text_of-payload (array xs) text = refl

-- What a snapshot adds to the prefix.
added_text : Text → Option Text
added_text [] = none
added_text (c ∷ u) = some (c ∷ u)

fresh_text-append :
    (hash : Text → String) (p u : Text)
    → fresh_text hash (some (length p, hash p)) (p ++ u) ≡ ok (added_text u)
unfolding fresh_text added_text
fresh_text-append hash p [] = rw (append-nil p, take-length p, beq_refl (hash p)) (ground arith)
fresh_text-append hash p (c ∷ u) =
    let l = length-append p (c ∷ u) in
    rw (take-append p (c ∷ u), drop-append p (c ∷ u), beq_refl (hash p)) (ground arith)

-- The snapshots of one source, each of which goes on where the one before it ended.
abbrev pub Grows : Text → List AgentEvent → List Text → Type 0
Grows p [] [] = Unit
Grows p [] (u ∷ us) = ⊥
Grows p (ev ∷ evs) [] = ⊥
Grows p (ev ∷ evs) (u ∷ us) =
    (is_kind ev.kind assistant_text ≡ true) × (text_of ev ≡ p ++ u) × Grows (p ++ u) evs us

abbrev pub concat : List Text → Text
concat [] = []
concat (u ∷ us) = u ++ concat us

abbrev pub texts : List AgentEvent → Text
texts [] = []
texts (ev ∷ evs) = text_of ev ++ texts evs

abbrev pub sources_of : String → List AgentEvent → List String
sources_of source [] = []
sources_of source (ev ∷ evs) = source ∷ sources_of source evs

module _ (hash : Text → String) (id source : String) where
  abbrev added_rows : Text → Text → List Import → List Import
  added_rows p [] rows = rows
  added_rows p (c ∷ u) rows =
      upsert (text_row id source (length (p ++ c ∷ u)) (hash (p ++ c ∷ u))) rows

  abbrev new_event : AgentEvent → Text → Option AgentEvent
  new_event ev [] = none
  new_event ev (c ∷ u) = some (record ev { payload = payload_with (c ∷ u) ev.payload })

  prefix-fresh :
      (p u : Text) (rows : List Import)
      → Recorded hash id source p rows
      → fresh_text hash (prefix_of (find (is_import id source) rows)) (p ++ u) ≡ ok (added_text u)
  unfolding fresh_text added_text
  prefix-fresh p [] rows (inl (e, n)) = rw (n, e) refl
  prefix-fresh p (c ∷ u) rows (inl (e, n)) = rw (n, e) refl
  prefix-fresh p u rows (inr f) = rw f (fresh_text-append hash p u)

  taken-added :
      (ev : AgentEvent) (p u : Text) (rows : List Import)
      → taken hash id source (p ++ u) ev rows (added_text u) ≡ (new_event ev u, added_rows p u rows)
  unfolding added_text
  taken-added ev p [] rows = refl
  taken-added ev p (c ∷ u) rows = refl

  import_event-Grows :
      (ev : AgentEvent) (p u : Text) (rows : List Import)
      → Recorded hash id source p rows
      → is_kind ev.kind assistant_text ≡ true
      → text_of ev ≡ p ++ u
      → import_event hash id source ev rows ≡ ok (new_event ev u, added_rows p u rows)
  unfolding import_event import_text
  import_event-Grows ev p u rows r k t =
      rw (k, t, prefix-fresh p u rows r) (ap ok (taken-added ev p u rows))

  added_rows-Recorded :
      (p u : Text) (rows : List Import)
      → Recorded hash id source p rows
      → Recorded hash id source (p ++ u) (added_rows p u rows)
  added_rows-Recorded p [] rows r = rw (append-nil p) r
  added_rows-Recorded p (c ∷ u) rows r = inr (find-upsert hash id source (p ++ c ∷ u) rows)

  texts-added :
      (ev : AgentEvent) (u : Text) (evs : List AgentEvent)
      → texts (added (new_event ev u) evs) ≡ u ++ texts evs
  texts-added ev [] evs = refl
  texts-added ev (c ∷ u) evs = rw (text_of-payload ev.payload (c ∷ u)) refl

  -- For a source of which the prefix `p` was imported before, snapshots of its text that each extend the
  -- one before, cut anywhere and repeated or not, import exactly the text after `p`: nothing twice and
  -- nothing left out. The table then has the whole text as the prefix.
  pub import_events-texts :
      (evs : List AgentEvent) (us : List Text) (p : Text) (rows : List Import)
      → Recorded hash id source p rows
      → Grows p evs us
      → (out : List AgentEvent) × (rows' : List Import) × (import_events hash id evs
            (sources_of source evs)
            rows
          ≡ ok (out, rows'))
        × (texts out ≡ concat us)
        × Recorded hash id source (p ++ concat us) rows'
  unfolding import_events
  import_events-texts [] [] p rows r g = ([], rows, refl, refl, rw (append-nil p) r)
  import_events-texts [] (u ∷ us) p rows r g = elim g [ ]
  import_events-texts (ev ∷ evs) [] p rows r g = elim g [ ]
  import_events-texts (ev ∷ evs) (u ∷ us) p rows r (k, t, g) =
      let next = added_rows-Recorded p u rows r in
      let (out, rows', e, q, w) =
        import_events-texts evs us (p ++ u) (added_rows p u rows) next g in
      (
        added (new_event ev u) out,
        rows',
        rw (import_event-Grows ev p u rows r k t, e) refl,
        texts-added ev u out ∙ ap (◌++◌ u) q,
        rw (sym (append_assoc p u (concat us))) w,
      )
