-- ===== src/Tasks/History/Paging.antt =====
-- Reading a history page by page covers it: `historyStart` and `historyPage` of
-- apps/server/src/modules/tasks/adapters/outbound/sqlite-tasks.ts.
use palmagent.Common.{
  map-append, ℕ, zero, suc, ◌≤◌, ◌<◌, ◌≡◌, refl, ap, sym, String, Bool, true, false, Option, none,
  some, List, [], ◌∷◌, ◌++◌, keep, ltb, arith, if◌then◌else◌, map, nat_eq, not, ◌-◌, ◌⊎◌, inl, inr,
}
use palmagent.Events.{Json}
use palmagent.Tasks.Types.{TaskRow, EventLine}
use palmagent.Tasks.Store.{Store}
use palmagent.Tasks.Events.{events_of, joined}
use palmagent.Tasks.Events.Order.{Numbered}
use palmagent.Tasks.History.{
  TaskHistoryEvent, page_events, is_below, is_within, is_text, find_last, nth_last, after_previous,
  start_of, history_start, shown, full_event, compact_event, with_payload_of, history_page,
}

joined-append :
    (tasks : List TaskRow) (xs ys : List EventLine)
    → joined tasks (xs ++ ys) ≡ joined tasks xs ++ joined tasks ys
joined-append tasks [] ys = refl
joined-append tasks (x ∷ xs) ys = ground (arith, joined-append tasks xs ys)

shown-append :
    (tasks : List TaskRow) (compact : List (ℕ × Json)) (details : Bool) (xs ys : List EventLine)
    → shown tasks compact details (xs ++ ys)
      ≡ shown tasks compact details xs ++ shown tasks compact details ys
unfolding shown
shown-append tasks compact true xs ys =
    rw (joined-append tasks xs ys) (map-append full_event (joined tasks xs) (joined tasks ys))
shown-append tasks compact false xs ys =
    let f = with_payload_of compact in
    rw (map-append f xs ys, joined-append tasks (map f xs) (map f ys))
      (map-append compact_event (joined tasks (map f xs)) (joined tasks (map f ys)))

shown_none :
    (tasks : List TaskRow) (compact : List (ℕ × Json)) (details : Bool)
    → shown tasks compact details [] ≡ []
unfolding shown
shown_none tasks compact true = refl
shown_none tasks compact false = refl

-- Numbers from `start` on are not below it.
keep-below_none :
    (n start : ℕ) (es : List EventLine)
    → Numbered n es
    → start ≤ suc n
    → keep (is_below start) es ≡ []
keep-below_none n start [] h l = refl
keep-below_none n start (e ∷ es) (p, h) l = ground (arith, keep-below_none (suc n) start es h)

keep-within_all :
    (n start before : ℕ) (es : List EventLine)
    → Numbered n es
    → start ≤ suc n
    → keep (is_within start before) es ≡ keep (is_below before) es
keep-within_all n start before [] h l = refl
keep-within_all n start before (e ∷ es) (p, h) l =
    ground (arith, keep-within_all (suc n) start before es h)

keep-split :
    (n start before : ℕ) (es : List EventLine)
    → Numbered n es
    → start ≤ before
    → keep (is_below start) es ++ keep (is_within start before) es ≡ keep (is_below before) es
keep-split n start before [] h l = refl
keep-split n start before (e ∷ es) (p, h) l = ground (
  arith,
  keep-split (suc n) start before es h l,
  keep-below_none (suc n) start es h,
  keep-within_all (suc n) start before es h,
)

-- A row that a search from the end finds among the kept rows was kept.
nth_last_sound :
    (n : ℕ) (p : EventLine → Bool) (es : List EventLine) (e : EventLine)
    → nth_last n (keep p es) ≡ some e
    → p e ≡ true
nth_last_sound n p [] e h = cc
nth_last_sound n p (f ∷ es) e h = ground (arith, nth_last_sound n p es e)

find_last_sound :
    (q p : EventLine → Bool) (es : List EventLine) (e : EventLine)
    → find_last q (keep p es) ≡ some e
    → p e ≡ true
find_last_sound q p [] e h = cc
find_last_sound q p (f ∷ es) e h = ground (arith, find_last_sound q p es e)

below-lt : (e : EventLine) (before : ℕ) → is_below before e ≡ true → e.seq < before
below-lt e before h = ground arith

after_previous-le :
    (o : Option EventLine) (edge : ℕ)
    → ((e : EventLine) → o ≡ some e → e.seq < edge)
    → (after_previous o ≡ 1) ⊎ (after_previous o ≤ edge)
after_previous-le none edge h = inl refl
after_previous-le (some e) edge h = inr (omega (arith, h e refl))

further : (start before : ℕ) → ltb 1 start ≡ true → (start ≡ 1) ⊎ (start < before) → start < before
further start before more (inl one) = ground arith
further start before more (inr lt) = lt

page-start :
    (details : Bool) (x before : ℕ)
    → (x ≡ 1) ⊎ (x < before)
    → ((if details then x else 1) ≡ 1) ⊎ ((if details then x else 1) < before)
page-start true x before h = h
page-start false x before h = inl refl

if-start :
    (b : Bool) (x y before : ℕ)
    → (x ≡ 1) ⊎ (x < before)
    → y < before
    → ((if b then x else y) ≡ 1) ⊎ ((if b then x else y) < before)
if-start true x y before h l = h
if-start false x y before h l = inr l

start_of-lt :
    (events : List EventLine) (o : Option EventLine) (before : ℕ)
    → ((e : EventLine) → o ≡ some e → e.seq < before)
    → (start_of events o ≡ 1) ⊎ (start_of events o < before)
start_of-lt events none before h = inl refl
start_of-lt events (some edge) before h =
    let texts = λ (e : EventLine). not (is_text e) in
    let l = h edge refl in
    if-start (is_text edge) (after_previous (find_last texts (keep (is_below edge.seq) events)))
      edge.seq before
      (elim (after_previous-le (find_last texts (keep (is_below edge.seq) events)) edge.seq
        (λ e q. below-lt e edge.seq (find_last_sound texts (is_below edge.seq) events e q))) [
          | inl one ↦ inl one
          | inr le ↦ inr (omega arith)
        ])
      l

-- A page goes back: its start is 1 or before its end.
history_start-lt :
    (events : List EventLine) (before limit : ℕ)
    → (history_start events before limit ≡ 1) ⊎ (history_start events before limit < before)
unfolding history_start
history_start-lt events before limit =
    start_of-lt events (nth_last (limit - 1) (keep (is_below before) events)) before
      (λ e q. below-lt e before (nth_last_sound (limit - 1) (is_below before) events e q))

-- What a page adds to the pages before it.
abbrev pub follow :
    Option ℕ → List TaskHistoryEvent → (ℕ → List TaskHistoryEvent) → List TaskHistoryEvent
follow none events earlier = events
follow (some before) events earlier = earlier before ++ events

follow-cases :
    (b : Bool) (start : ℕ) (events : List TaskHistoryEvent) (earlier : ℕ → List TaskHistoryEvent)
    (all : List TaskHistoryEvent)
    → (b ≡ true → earlier start ++ events ≡ all)
    → (b ≡ false → events ≡ all)
    → follow (if b then some start else none) events earlier ≡ all
follow-cases true start events earlier all h g = h refl
follow-cases false start events earlier all h g = g refl

module _ {C : Type 0} (compact : List (ℕ × Json)) (id : String) (cursor : ℕ) (details : Bool) where
  -- A reader that starts before `before` and follows the places that the pages name, for `fuel` pages
  -- at most.
  unfoldable pub read_back : ℕ → ℕ → Store C → List TaskHistoryEvent
  unfolding history_page
  read_back zero before s = []
  read_back (suc fuel) before s =
      let page = history_page compact id before cursor details s in
      follow page.before page.events (λ start. read_back fuel start s)

  unfoldable pub below : ℕ → Store C → List TaskHistoryEvent
  unfolding shown
  below before s = shown s.tasks compact details (keep (is_below before) (events_of id s))

  page-below :
      (fuel start before : ℕ) (s : Store C)
      → Numbered 0 (events_of id s)
      → (start ≡ 1) ⊎ (start < before)
      → (start < before → read_back fuel start s ≡ below start s)
      → follow
          (if ltb 1 start then some start else none)
          (shown s.tasks compact details (keep (is_within start before) (events_of id s)))
          (λ next. read_back fuel next s)
        ≡ below before s
  unfolding below
  page-below fuel start before s h l rest =
      let es = events_of id s in
      let all = shown s.tasks compact details (keep (is_below before) es) in
      let page = shown s.tasks compact details (keep (is_within start before) es) in
      follow-cases (ltb 1 start) start page (λ next. read_back fuel next s) all
        (λ more.
          let lt : start < before = further start before more l in
          rw
            (
              rest lt,
              sym (
                  shown-append s.tasks compact details (keep (is_below start) es)
                    (keep (is_within start before) es)),
            )
            (ap (shown s.tasks compact details) (keep-split 0 start before es h (omega arith))))
        (λ last.
          ap (shown s.tasks compact details) (keep-within_all 0 start before es h (ground arith)))

  -- Reading page by page from any place, with details or without, ends after at most `before` pages and
  -- gives every event of the task with a number below it, once and in order, where the events of the
  -- task are numbered from 1 on without a gap.
  pub read_back-below :
      (fuel before : ℕ) (s : Store C)
      → Numbered 0 (events_of id s)
      → before ≤ fuel
      → read_back fuel before s ≡ below before s
  unfolding read_back below history_page
  read_back-below zero before s h l =
      rw (keep-below_none 0 before (events_of id s) h (omega arith))
        (sym (shown_none s.tasks compact details))
  read_back-below (suc fuel) before s h l =
      page-below fuel (if details then history_start (events_of id s) before page_events else 1)
        before s h
        (page-start details (history_start (events_of id s) before page_events) before
          (history_start-lt (events_of id s) before page_events))
        (λ lt.
          read_back-below fuel
            (if details then history_start (events_of id s) before page_events else 1) s h
            (omega arith))
