-- ===== src/Conversation/Log/Order.antt =====
-- A log loses and reorders nothing, and its keys grow: `appendHistoryEvent` of
-- packages/shared/src/conversation.ts.
use palmagent.Common.{
  map-append, ℕ, ◌≤◌, ◌<◌, ◌≡◌, refl, ap, ◌∙◌, sym, Text, Bool, true, false, Option, some, List, [],
  ◌∷◌, ◌++◌, map, append_assoc, append-nil, arith, if◌then◌else◌, if-cases, if-keeps,
}
use palmagent.Events.{AgentKind, AgentEvent, assistant_text, is_kind, get, as_string}
use palmagent.Conversation.Log.{
  AssistantPhase, Content, prose, other, LogItem, joins, extended, prose_item, push_prose,
  event_text, phase_of, is_native_environment_context, append_history_event,
}

-- What a log consists of: units of prose and whole events.
pub data Atom : Type 0 where
  unit : ℕ → Atom
  event : AgentEvent → Atom

abbrev pub content_atoms : Content → List Atom
content_atoms (prose agent text id phase) = map unit text
content_atoms (other ev deferred) = event ev ∷ []

abbrev pub atoms : List LogItem → List Atom
atoms [] = []
atoms (x ∷ xs) = content_atoms x.content ++ atoms xs

-- What an event adds: nothing, if it is the context of a native history.
abbrev pub event_atoms : AgentEvent → List Atom
event_atoms ev =
    if is_native_environment_context ev
    then []
    else if is_kind ev.kind assistant_text
    then map unit (event_text ev)
    else event ev ∷ []

atoms-append : (xs ys : List LogItem) → atoms (xs ++ ys) ≡ atoms xs ++ atoms ys
atoms-append [] ys = refl
atoms-append (x ∷ xs) ys =
    ap (◌++◌ (content_atoms x.content)) (atoms-append xs ys)
    ∙ sym (append_assoc (content_atoms x.content) (atoms xs) (atoms ys))

module _ (seq : ℕ) (agent : AgentKind) (text : Text) (id : Option Text)
    (phase : Option AssistantPhase) where
  extended-atoms :
      (c : Content)
      → joins agent id phase c ≡ true
      → content_atoms (extended text c) ≡ content_atoms c ++ map unit text
  extended-atoms (prose a t i p) h = map-append unit t text
  extended-atoms (other ev deferred) h = cc

  push_prose-atoms :
      (items : List LogItem)
      → atoms (push_prose seq agent text id phase items) ≡ atoms items ++ map unit text
  push_prose-atoms [] = append-nil (map unit text)
  push_prose-atoms (x ∷ []) =
      let new = prose_item seq agent text id phase in
      let c = content_atoms x.content in
      if-cases (λ (items : List LogItem). atoms items ≡ (c ++ []) ++ map unit text)
        (joins agent id phase x.content)
        (record x { end_seq = some seq; content = extended text x.content } ∷ []) (x ∷ new ∷ [])
        (λ h.
          append-nil (content_atoms (extended text x.content))
          ∙ extended-atoms x.content h
          ∙ ap (λ (front : List Atom). front ++ map unit text) (sym (append-nil c)))
        (λ _.
          ap (λ (back : List Atom). c ++ back) (append-nil (map unit text))
          ∙ ap (λ (front : List Atom). front ++ map unit text) (sym (append-nil c)))
  push_prose-atoms (x ∷ y ∷ ys) =
      ap (◌++◌ (content_atoms x.content)) (push_prose-atoms (y ∷ ys))
      ∙ sym (append_assoc (content_atoms x.content) (atoms (y ∷ ys)) (map unit text))

-- Keys that grow, all of them after `lo`.
abbrev pub Ordered : ℕ → List LogItem → Type 0
Ordered lo [] = Unit
Ordered lo (x ∷ xs) = (lo < x.key) × Ordered x.key xs

abbrev pub last_key : ℕ → List LogItem → ℕ
last_key lo [] = lo
last_key lo (x ∷ xs) = last_key x.key xs

-- What an append to a log of growing keys up to `hi` keeps, for a number after them.
abbrev Grown : ℕ → ℕ → List LogItem → Type 0
Grown lo seq items = Ordered lo items × (last_key lo items ≤ seq)

module _ (seq : ℕ) where
  push_prose-Grown :
      (agent : AgentKind) (text : Text) (id : Option Text) (phase : Option AssistantPhase) (lo : ℕ)
      (items : List LogItem)
      → Ordered lo items
      → last_key lo items < seq
      → Grown lo seq (push_prose seq agent text id phase items)
  push_prose-Grown agent text id phase lo [] h l = ((l, tt), omega arith)
  push_prose-Grown agent text id phase lo (x ∷ []) (p, h) l =
      if-cases (Grown lo seq) (joins agent id phase x.content)
        (record x { end_seq = some seq; content = extended text x.content } ∷ [])
        (x ∷ prose_item seq agent text id phase ∷ []) (λ _. ((p, tt), omega arith))
        (λ _. ((p, (l, tt)), omega arith))
  push_prose-Grown agent text id phase lo (x ∷ y ∷ ys) (p, h) l =
      let (g, m) = push_prose-Grown agent text id phase x.key (y ∷ ys) h l in ((p, g), m)

  append-Grown :
      (lo : ℕ) (items : List LogItem) (c : Content)
      → Ordered lo items
      → last_key lo items < seq
      → Grown lo seq (items ++ record { key = seq; end_seq = some seq; content = c } ∷ [])
  append-Grown lo [] c h l = ((l, tt), omega arith)
  append-Grown lo (x ∷ xs) c (p, h) l = let (g, m) = append-Grown x.key xs c h l in ((p, g), m)

append_history_event-Grown :
    (ev : AgentEvent) (seq : ℕ) (deferred : Bool) (lo : ℕ) (items : List LogItem)
    → Ordered lo items
    → last_key lo items < seq
    → Grown lo seq (append_history_event ev seq deferred items)
unfolding append_history_event
append_history_event-Grown ev seq deferred lo items h l =
    let id = as_string (get "messageId" ev.payload) in
    let phase = phase_of (get "phase" ev.payload) in
    let item : LogItem = record { key = seq; end_seq = some seq; content = other ev deferred } in
    if-keeps (Grown lo seq) (is_native_environment_context ev) items
      (if is_kind ev.kind assistant_text
        then push_prose seq ev.agent (event_text ev) id phase items
        else items ++ item ∷ [])
      (h, omega arith)
      (if-keeps (Grown lo seq) (is_kind ev.kind assistant_text)
        (push_prose seq ev.agent (event_text ev) id phase items) (items ++ item ∷ [])
        (push_prose-Grown seq ev.agent (event_text ev) id phase lo items h l)
        (append-Grown seq lo items (other ev deferred) h l))

branches : (P : Bool → Bool → Type 0) (b c : Bool) → P true c → P false true → P false false → P b c
branches P true c x y z = x
branches P false true x y z = y
branches P false false x y z = z

append_history_event-atoms :
    (ev : AgentEvent) (seq : ℕ) (deferred : Bool) (items : List LogItem)
    → atoms (append_history_event ev seq deferred items) ≡ atoms items ++ event_atoms ev
unfolding append_history_event
append_history_event-atoms ev seq deferred items =
    let id = as_string (get "messageId" ev.payload) in
    let phase = phase_of (get "phase" ev.payload) in
    let item : LogItem = record { key = seq; end_seq = some seq; content = other ev deferred } in
    let P : Bool → Bool → Type 0 = λ b c.
      atoms (
        if b
        then items
        else if c
        then push_prose seq ev.agent (event_text ev) id phase items
        else items ++ item ∷ [])
      ≡ atoms items ++ (if b then [] else if c then map unit (event_text ev) else event ev ∷ []) in
    branches P (is_native_environment_context ev) (is_kind ev.kind assistant_text)
      (sym (append-nil (atoms items)))
      (push_prose-atoms seq ev.agent (event_text ev) id phase items)
      (atoms-append items (item ∷ []))

-- The events of a history with their numbers, appended one after another.
abbrev pub append_all : List (AgentEvent × ℕ) → List LogItem → List LogItem
append_all [] items = items
append_all ((ev, seq) ∷ rows) items = append_all rows (append_history_event ev seq false items)

abbrev pub all_atoms : List (AgentEvent × ℕ) → List Atom
all_atoms [] = []
all_atoms ((ev, seq) ∷ rows) = event_atoms ev ++ all_atoms rows

-- The numbers of the rows grow, all of them after `n`.
abbrev pub Rising : ℕ → List (AgentEvent × ℕ) → Type 0
Rising n [] = Unit
Rising n ((ev, seq) ∷ rows) = (n < seq) × Rising seq rows

append_all-Ordered :
    (rows : List (AgentEvent × ℕ)) (lo n : ℕ) (items : List LogItem)
    → Ordered lo items
    → last_key lo items ≤ n
    → Rising n rows
    → Ordered lo (append_all rows items)
append_all-Ordered [] lo n items h l r = h
append_all-Ordered ((ev, seq) ∷ rows) lo n items h l (p, r) =
    let (g, m) = append_history_event-Grown ev seq false lo items h (omega arith) in
    append_all-Ordered rows lo seq (append_history_event ev seq false items) g m r

append_all-atoms :
    (rows : List (AgentEvent × ℕ)) (items : List LogItem)
    → atoms (append_all rows items) ≡ atoms items ++ all_atoms rows
append_all-atoms [] items = sym (append-nil (atoms items))
append_all-atoms ((ev, seq) ∷ rows) items =
    append_all-atoms rows (append_history_event ev seq false items)
    ∙ ap (λ (front : List Atom). front ++ all_atoms rows)
        (append_history_event-atoms ev seq false items)
    ∙ append_assoc (atoms items) (event_atoms ev) (all_atoms rows)

-- A log that is built from a history whose numbers grow has keys that grow, and consists of what the
-- events of the history give, in their order: each unit of prose and each other event once, but for
-- the contexts of native histories.
pub append_all_complete :
    (rows : List (AgentEvent × ℕ))
    → Rising 0 rows
    → Ordered 0 (append_all rows []) × (atoms (append_all rows []) ≡ all_atoms rows)
append_all_complete rows r =
    (append_all-Ordered rows 0 0 [] tt (omega arith) r, append_all-atoms rows [])
