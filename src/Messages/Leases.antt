-- ===== src/Messages/Leases.antt =====
-- A message that one device edits is not changed by another: the edit lease of message-controller.ts.
use palmagent.Common.{
  ◌≢◌, ℕ, String, ◌≡◌, refl, inl, inr, Bool, true, not, Option, some, find, Option-cases,
  Bool-cases, arith, ◌==◌, string_eq, option_eq, is_err, Refuses, checked-Refuses,
}
use palmagent.Messages.Types.{StoredMessage, MessageAction, edit, renew, release, delete}
use palmagent.Messages.Transitions.{by_id}
use palmagent.Messages.Controller.{World, Host, is_leased}
use palmagent.Messages.Requests.{
  action, act_on, act_on_found, stale, revise, revise_message, require_lease, send_message,
  send_checks,
}

-- The action does not come with the token `t`.
abbrev pub is_foreign : Option String → MessageAction → Bool
is_foreign t (edit version token) = not (t == some token)
is_foreign t (renew token) = not (t == some token)
is_foreign t (MessageAction.save token version text skills images) = not (t == some token)
is_foreign t (release token) = not (t == some token)
is_foreign t (delete version) = true
is_foreign t (MessageAction.send version run) = true

module _ {O : Type 0} (host : Host O) where
  revise_refused :
      (now : ℕ) (a : MessageAction) (m : StoredMessage)
      → is_leased now m ≡ true
      → is_foreign m.edit_token a ≡ true
      → ((v : ℕ) (r : Option String) → a ≢ MessageAction.send v r)
      → is_err (revise host now a m) ≡ true
  unfolding revise require_lease
  revise_refused now (edit version token) m l f n = ground arith
  revise_refused now (renew token) m l f n = ground arith
  revise_refused now (MessageAction.save token version text skills images) m l f n = ground arith
  revise_refused now (release token) m l f n = ground arith
  revise_refused now (delete version) m l f n = ground arith
  revise_refused now (MessageAction.send version run) m l f n = absurd (n version run refl)

  send_refused :
      (now : ℕ) (run : Option String) (m : StoredMessage) (w : World O)
      → is_leased now m ≡ true
      → is_err (send_checks host now run m w) ≡ true
  unfolding send_checks
  send_refused now run m w l = ground arith

  act_on_refused :
      (now : ℕ) (a : MessageAction) (m : StoredMessage) (w : World O)
      → is_leased now m ≡ true
      → is_foreign m.edit_token a ≡ true
      → Refuses (act_on host now a m w) w
  unfolding act_on revise_message send_message
  act_on_refused now (MessageAction.send version run) m w l f =
      checked-Refuses (send_checks host now run m w) w _ (send_refused now run m w l)
  act_on_refused now (edit version token) m w l f =
      checked-Refuses (revise host now (edit version token) m) w _
        (revise_refused now (edit version token) m l f (λ v r. cc))
  act_on_refused now (renew token) m w l f =
      checked-Refuses (revise host now (renew token) m) w _
        (revise_refused now (renew token) m l f (λ v r. cc))
  act_on_refused now (MessageAction.save token version text skills images) m w l f =
      checked-Refuses (revise host now (MessageAction.save token version text skills images) m) w _
        (revise_refused now (MessageAction.save token version text skills images) m l f (λ v r. cc))
  act_on_refused now (release token) m w l f =
      checked-Refuses (revise host now (release token) m) w _
        (revise_refused now (release token) m l f (λ v r. cc))
  act_on_refused now (delete version) m w l f =
      checked-Refuses (revise host now (delete version) m) w _
        (revise_refused now (delete version) m l f (λ v r. cc))

  -- While a device holds the edit lease of a message, every action on the message that does not come
  -- with the token of that lease (an edit, renewal, save or release with another token, a deletion,
  -- a send) throws and changes nothing.
  pub lease_excludes :
      (now : ℕ) (id : String) (a : MessageAction) (m : StoredMessage) (w : World O)
      → find (by_id id) (w.queue).messages ≡ some m
      → is_leased now m ≡ true
      → is_foreign m.edit_token a ≡ true
      → Refuses (action host now id a w) w
  unfolding action act_on_found
  lease_excludes now id a m w e l f = elim (Option-cases (host.assert_writable w)) [
    | inr (x, h) ↦ rw h (refl, refl)
    | inl h ↦
        rw (h, e)
          (elim (Bool-cases (stale host a m)) [
            | inl old ↦ rw old (refl, refl)
            | inr new ↦ rw new (act_on_refused now a m w l f)
          ])
  ]
