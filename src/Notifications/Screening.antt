-- ===== src/Notifications/Screening.antt =====
-- What a queued notification may contain, and what becomes of one that is rejected.
use Prim.Native.String.{count}
use agentic_control_tower.Prelude.{
  ◌≡◌, refl, String, Bool, true, false, Option, none, some, [], ◌∷◌, ltb, arith, eq_refl,
  if◌then◌else◌,
}
use agentic_control_tower.World.{World}
use agentic_control_tower.Exec.Returns.{
  Returns, Raises, after, bind-Raises, raise-Raises, on_option-none, pure-Returns,
}
use agentic_control_tower.Store.Rows.{NotificationRow}
use agentic_control_tower.Store.State.{Store, Action, Settings}
use agentic_control_tower.Store.Security.{has_secret_text}
use agentic_control_tower.Store.Sql.{row_at}
use agentic_control_tower.Store.Sql.Laws.{fetch-Returns, insert-Returns}
use agentic_control_tower.Table.Laws.{find?-append}
use agentic_control_tower.Store.Notifications.{notifications, create_notification, get_notification}
use agentic_control_tower.Notifications.{
  NotifyPayload, max_notification_title_chars, max_notification_body_chars,
  notification_rejection_reason, reject_notification, queue_notification,
  create_mobile_notification,
}

module _ (w : World) (p : NotifyPayload) where
  passed_screen :
      notification_rejection_reason w p ≡ none
      → (ltb max_notification_title_chars (count p.title) ≡ false)
        × (ltb max_notification_body_chars (count p.body) ≡ false)
        × (has_secret_text w (p.title ∷ p.body ∷ []) ≡ false)
  unfolding notification_rejection_reason
  passed_screen h =
      by_tests (ltb max_notification_title_chars (count p.title))
        (ltb max_notification_body_chars (count p.body)) (has_secret_text w (p.title ∷ p.body ∷ []))
        h
    where
      by_tests :
          (long_title long_body secret : Bool)
          → ◌≡◌ {A = Option String}
              (if long_title
                then some "title_too_large"
                else if long_body
                then some "body_too_large"
                else if secret
                then some "secret_scan_failed"
                else none)
              none
          → (long_title ≡ false) × (long_body ≡ false) × (secret ≡ false)
      by_tests true b s h = cc
      by_tests false true s h = cc
      by_tests false false true h = cc
      by_tests false false false h = (refl, refl, refl)

module _ (w : World) where
  create_notification-Returns :
      (n : NotificationRow) {s t : Store} {m : NotificationRow}
      → Returns (create_notification w n) s m t
      → (m.title_safe ≡ n.title_safe) × (m.body_safe ≡ n.body_safe)
  unfolding create_notification get_notification
  create_notification-Returns n {m = m} h = after _ _ h λ id s₁ drawn h₁.
      after _ _ h₁ λ created_at s₂ clock h₂. after _ _ h₂ λ _ s₃ inserted h₃.
        let (fresh, s₃_is) = insert-Returns notifications _ inserted in
        let (found, _) = fetch-Returns notifications id h₃ in
        let row = record n { notification_id = id; created_at = created_at } in
        let at_id = find?-append notifications.key id s₂.notifications row in
        let stored : row_at notifications id s₃ ≡ some row =
          rw (s₃_is) (ground (arith, at_id, eq_refl id, fresh)) in
        let m_is : m ≡ row = cc in (cc, cc)

module _ (w : World) (settings : Settings) (id_action : Action String) (p : NotifyPayload) where
  reject_notification-Raises :
      (reason : String) → Raises (reject_notification w settings id_action p reason)
  unfolding reject_notification
  reject_notification-Raises reason = bind-Raises _ _ λ id. bind-Raises _ _ λ event. raise-Raises _

  queue_notification-Returns :
      {s t : Store} {n : NotificationRow}
      → Returns (queue_notification w settings id_action p) s n t
      → (n.title_safe ≡ p.title) × (n.body_safe ≡ p.body)
  unfolding queue_notification
  queue_notification-Returns h = after _ _ h λ m s₁ created h₁. after _ _ h₁ λ id s₂ drawn h₂.
      after _ _ h₂ λ _ s₃ audit h₃. after _ _ h₃ λ _ s₄ event h₄.
        let (n_is, _) = pure-Returns h₄ in
        let (title, body) = create_notification-Returns w _ created in (cc, cc)

  -- A notification that is queued has a title of at most 120 characters and a body of at most 800, none
  -- of the secret markers is in them, and its row carries this title and this body.
  pub queued_is_screened :
      {s t : Store} {n : NotificationRow}
      → Returns (create_mobile_notification w settings id_action p) s n t
      → (ltb 120 (count n.title_safe) ≡ false)
        × (ltb 800 (count n.body_safe) ≡ false)
        × (has_secret_text w (n.title_safe ∷ n.body_safe ∷ []) ≡ false)
        × (n.title_safe ≡ p.title)
        × (n.body_safe ≡ p.body)
  unfolding create_mobile_notification
  queued_is_screened h =
      let (accepted, queued) = on_option-none _ _ _ reject_notification-Raises h in
      let (title, body, safe) = passed_screen w p accepted in
      let (title_is, body_is) = queue_notification-Returns queued in
      (rw title_is title, rw body_is body, rw (title_is, body_is) safe, title_is, body_is)
