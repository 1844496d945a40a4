-- ===== src/Conversation/Transcript/Keeps.antt =====
-- The end of a turn keeps every row that is a message: `flush` within `presentTranscript` of
-- packages/shared/src/conversation.ts.
use palmagent.Common.{
  ℕ, ◌≡◌, refl, ap, ◌∙◌, sym, Text, Bool, true, false, ◌&&◌, ◌||◌, not, Option, none, some, List,
  [], ◌∷◌, ◌++◌, ◌==◌, nat_eq, list_eq, keep, any, if◌then◌else◌, if-keeps, arith, is_empty, trim,
  includes,
}
use palmagent.Events.{AgentKind, get, as_string, result}
use palmagent.Conversation.Log.{LogItem, prose, final, has_kind, payload, failed}
use palmagent.Conversation.Transcript.Rows.{
  Activity, RunFailure, Row, activity, failure, message, Placed, placed, Transcript, update_place,
  change_activity, change_failure, activities,
}
use palmagent.Conversation.Transcript.Flush.{
  absorb, absorb_items, absorb_groups, rekey, rekey_groups, is_work, stays, is_visible, enliven,
  settled_rows, worked, flush, or_last, after_key,
}
use palmagent.Conversation.Transcript.Work.{
  Work, push, fail, new_failure, join_failure, complete, mark, push_item, group_item, new_group,
  preview_group, preview_of, background, foreground, placed_item, sorted_in, is_run_error,
  is_marker, answer, answer_of, answered, agent_of, work_item, work_items, last_place, is_machinery,
}
use palmagent.Conversation.Transcript.Phases.{
  Phases, phases_of, latest_progress, answer_texts, in_progress,
}

module _ (q : Row → Bool) (no_activity : (a : Activity) → q (activity a) ≡ false)
    (no_failure : (r : RunFailure) → q (failure r) ≡ false) where
  -- A row with the property is there; neither activities nor failures have it.
  abbrev pub Has : List Placed → Type 0
  Has rows = any (λ (p : Placed). q p.row) rows ≡ true

  pub activity-same : (f : Activity → Activity) (r : Row) → q (change_activity f r) ≡ q r
  activity-same f (activity a) = no_activity (f a) ∙ sym (no_activity a)
  activity-same f (failure r) = refl
  activity-same f (message k item) = refl

  pub failure-same : (f : RunFailure → RunFailure) (r : Row) → q (change_failure f r) ≡ q r
  failure-same f (activity a) = refl
  failure-same f (failure r) = no_failure (f r) ∙ sym (no_failure r)
  failure-same f (message k item) = refl

  pub update-same :
      (n : ℕ) (f : Row → Row) (rows : List Placed)
      → ((r : Row) → q (f r) ≡ q r)
      → any (λ (p : Placed). q p.row) (update_place n f rows) ≡ any (λ (p : Placed). q p.row) rows
  update-same n f [] h = refl
  update-same n f (p ∷ ps) h =
      ap (λ (b : Bool). b || any (λ (r : Placed). q r.row) (update_place n f ps))
        (if-keeps (λ (r : Placed). q r.row ≡ q p.row) (p.place == n) (record p { row = f p.row }) p
          (h p.row) refl)
      ∙ ap (λ (b : Bool). q p.row || b) (update-same n f ps h)

  pub activity-Has :
      (n : ℕ) (f : Activity → Activity) (rows : List Placed)
      → Has rows
      → Has (update_place n (change_activity f) rows)
  activity-Has n f rows h = update-same n (change_activity f) rows (activity-same f) ∙ h

  pub failure-Has :
      (n : ℕ) (f : RunFailure → RunFailure) (rows : List Placed)
      → Has rows
      → Has (update_place n (change_failure f) rows)
  failure-Has n f rows h = update-same n (change_failure f) rows (failure-same f) ∙ h

  pub append-Has : (rows : List Placed) (p : Placed) → Has rows → Has (rows ++ p ∷ [])
  append-Has [] p h = let no : ⊥ = cc in elim no [ ]
  append-Has (r ∷ rows) p h = ground (arith, append-Has rows p)

  pub last-Has : (rows : List Placed) (p : Placed) → q p.row ≡ true → Has (rows ++ p ∷ [])
  last-Has [] p h = rw h refl
  last-Has (r ∷ rows) p h = ground (arith, last-Has rows p h)

  pub stays-shown :
      (start : ℕ) (work : List (ℕ × Activity)) (n : ℕ) (r : Row)
      → q r ≡ true
      → stays start work n r ≡ true
  stays-shown start work n (activity a) h =
      let none_such = no_activity a in let no : ⊥ = cc (h, none_such) in elim no [ ]
  stays-shown start work n (failure r) h = refl
  stays-shown start work n (message k item) h = refl

  pub visible-Has :
      (start : ℕ) (work : List (ℕ × Activity)) (rows : List Placed)
      → Has rows
      → Has (keep (is_visible start work) rows)
  visible-Has start work [] h = h
  visible-Has start work (p ∷ ps) h =
      ground (arith, visible-Has start work ps, stays-shown start work p.place p.row)

  pub push-Has : (row : Row) (w : Work) → Has w.rows → Has (push row w).rows
  push-Has row w h = append-Has w.rows (placed w.next row) h

  pub fail-Has : (item : LogItem) (o : Option ℕ) (w : Work) → Has w.rows → Has (fail item o w).rows
  fail-Has item none w h = push-Has (failure (new_failure item)) w h
  fail-Has item (some n) w h = failure-Has n (join_failure item) w.rows h

  pub complete-Has : (o : Option ℕ) (w : Work) → Has w.rows → Has (complete o w).rows
  complete-Has none w h = h
  complete-Has (some n) w h = failure-Has n (λ r. record r { completed = true }) w.rows h

  pub mark-Has : (item : LogItem) (o : Option ℕ) (w : Work) → Has w.rows → Has (mark item o w).rows
  mark-Has item none w h = h
  mark-Has item (some n) w h = activity-Has n (push_item item) w.rows h

  pub group_item-Has :
      (item : LogItem) (o : Option ℕ) (w : Work) → Has w.rows → Has (group_item item o w).rows
  group_item-Has item none w h = push-Has (activity (new_group item)) w h
  group_item-Has item (some n) w h = activity-Has n (push_item item) w.rows h

  pub preview_group-Has :
      (t : Option Text) (o : Option ℕ) (w : Work) → Has w.rows → Has (preview_group t o w).rows
  preview_group-Has (some t) (some n) w h =
      activity-Has n (λ a. record a { preview = some t }) w.rows h
  preview_group-Has (some t) none w h = h
  preview_group-Has none o w h = h

  pub answer-Has :
      (item : LogItem) (agent : AgentKind) (t : Text) (w : Work)
      → Has w.rows
      → Has (answer item agent t w).rows
  answer-Has item agent t w h =
      let row =
        message item.key
          (record { key = item.key; end_seq = none; content = prose agent t none (some final) }) in
      if-keeps (λ (v : Work). Has v.rows)
        (not (is_empty (trim t)) && not (includes w.texts (trim t)))
        (record (push row w) { texts = trim t ∷ w.texts }) w (push-Has row w h) h

  pub answer_of-Has :
      (item : LogItem) (agent : Option AgentKind) (t : Option Text) (w : Work)
      → Has w.rows
      → Has (answer_of item agent t w).rows
  answer_of-Has item (some agent) (some t) w h = answer-Has item agent t w h
  answer_of-Has item (some agent) none w h = h
  answer_of-Has item none t w h = h

  pub answered-Has : (item : LogItem) (w : Work) → Has w.rows → Has (answered item w).rows
  unfolding answered
  answered-Has item w h =
      let given =
        answer_of item (agent_of item.content) (as_string (get "result" (payload item))) w in
      if-keeps (λ (v : Work). Has v.rows) (has_kind item result && not (failed item)) given w
        (answer_of-Has item (agent_of item.content) (as_string (get "result" (payload item))) w h) h

  module _ (active : Bool) (start : ℕ) (ps : Phases) (latest : Option ℕ) where
    pub placed_item-Has :
        (item : LogItem) (w : Work)
        → Has w.rows
        → Has (placed_item active start ps latest item w).rows
    placed_item-Has item w h =
        let grouped = group_item item w.group w in
        if-keeps (λ (v : Work). Has v.rows) (is_machinery item || in_progress ps item)
          (background active start ps latest item w) (foreground item w)
          (preview_group-Has (preview_of active start ps latest item) grouped.group grouped
            (group_item-Has item w.group w h))
          (push-Has (message item.key item) (record w { group = none }) h)

    pub sorted_in-Has :
        (item : LogItem) (w : Work)
        → Has w.rows
        → Has (sorted_in active start ps latest item w).rows
    sorted_in-Has item w h =
        let completed = if has_kind item result then complete w.failing w else w in
        let g =
          if-keeps (λ (v : Work). Has v.rows) (has_kind item result) (complete w.failing w) w
            (complete-Has w.failing w h) h in
        if-keeps (λ (v : Work). Has v.rows) (is_marker item)
          (mark item (last_place (activities start completed.rows)) completed)
          (answered item (placed_item active start ps latest item completed))
          (mark-Has item (last_place (activities start completed.rows)) completed g)
          (answered-Has item (placed_item active start ps latest item completed)
            (placed_item-Has item completed g))

    pub work_items-Has :
        (items : List LogItem) (w : Work)
        → Has w.rows
        → Has (work_items active start ps latest items w).rows
    unfolding work_items work_item
    work_items-Has [] w h = h
    work_items-Has (item ∷ items) w h =
        work_items-Has items (work_item active start ps latest item w) (
          if-keeps (λ (v : Work). Has v.rows) (is_run_error item) (fail item w.failing w)
            (sorted_in active start ps latest item w) (fail-Has item w.failing w h)
            (sorted_in-Has item w h))

  pub absorb-Has :
      (o : Option ℕ) (a : Activity) (rows : List Placed) → Has rows → Has (absorb o a rows)
  absorb-Has none a rows h = h
  absorb-Has (some n) a rows h = activity-Has n (absorb_items a.items) rows h

  pub absorb_groups-Has :
      (ps : Phases) (work groups : List (ℕ × Activity)) (rows : List Placed)
      → Has rows
      → Has (absorb_groups ps work groups rows)
  absorb_groups-Has ps work [] rows h = h
  absorb_groups-Has ps work ((n, a) ∷ groups) rows h =
      let target = or_last (after_key a.key work) work in
      absorb_groups-Has ps work groups (if is_work ps (n, a) then rows else absorb target a rows) (
        if-keeps Has (is_work ps (n, a)) rows (absorb target a rows) h (absorb-Has target a rows h))

  pub rekey_groups-Has :
      (work : List (ℕ × Activity)) (rows : List Placed) → Has rows → Has (rekey_groups work rows)
  rekey_groups-Has [] rows h = h
  rekey_groups-Has ((n, a) ∷ work) rows h =
      rekey_groups-Has work (update_place n (change_activity rekey) rows)
        (activity-Has n rekey rows h)

  pub enliven-Has : (o : Option ℕ) (rows : List Placed) → Has rows → Has (enliven o rows)
  enliven-Has none rows h = h
  enliven-Has (some n) rows h = activity-Has n (λ a. record a { live = true }) rows h

  pub settled_rows-Has :
      (active : Bool) (start : ℕ) (ps : Phases) (rows : List Placed)
      → Has rows
      → Has (settled_rows active start ps rows)
  settled_rows-Has active start ps rows h =
      let groups = activities start rows in
      let work = keep (is_work ps) groups in
      let merged = rekey_groups work (absorb_groups ps work groups rows) in
      let visible = keep (is_visible start work) merged in
      let g = visible-Has start work merged (
        rekey_groups-Has work (absorb_groups ps work groups rows)
          (absorb_groups-Has ps work groups rows h)) in
      if-keeps Has active (enliven (last_place (activities start visible)) visible) visible
        (enliven-Has (last_place (activities start visible)) visible g) g

  pub flush-Has : (active : Bool) (t : Transcript) → Has t.rows → Has (flush active t).rows
  unfolding flush worked
  flush-Has active t h =
      let ps = phases_of t.turn [] in
      let w = worked active t in
      if-keeps (λ (u : Transcript). Has u.rows) (is_empty t.turn) t
        (record {
          rows = settled_rows active t.next ps w.rows;
          next = w.next;
          turn = [];
          failing = w.failing;
        })
        h
        (settled_rows-Has active t.next ps w.rows (
          work_items-Has active t.next ps (latest_progress ps t.turn) t.turn
            (record {
              rows = t.rows;
              next = t.next;
              failing = t.failing;
              group = none;
              texts = answer_texts ps t.turn;
            })
            h))
