-- ===== src/Coordinator/Rule.antt =====
-- One rule for every call of the coordinator: what plain effects, other events and `finish` keep,
-- the calls keep.
use pane_dock.Common.{
  ℕ, zero, suc, ◌≡◌, refl, Bool, true, false, List, [], ◌∷◌, Option, none, some, arith, ◌∙◌,
  if◌then◌else◌, ◌||◌, not, ◌==◌,
}
use pane_dock.Shutdown.{ShutdownEvent, ShutdownAction, State, step}
use pane_dock.Shutdown
use pane_dock.Shutdown.Phases.{
  is_teardown, step-closing_same, step-teardown_started, step-teardown_again, step-views_destroyed,
}
use pane_dock.Coordinator.{
  Effect, destroy_views, destroy_window, Outside, closes, event, World, Coordinator, hear, perform,
  finish, run, is_defer, and_then, close_event, save_event, drag_event, retry_close, after_post,
  post_close, settle_prompt, show_closing_caption, post_deferred_shutdown,
  ask_keep_open_after_save_failure, show_transfer_prompt, save_session,
  write_end_session_checkpoint, dismiss_transfer_prompt, run_defer, run_save_session,
  run_prompt_save_failure, tell, ask, answered, request_close_by, request_close,
  deferred_shutdown_ready, drag_changed, complete_deferred_close, transfer_chosen, TransferChoice,
  keep_open, close_after_transfer, cancel_and_close, end_session_confirmed, end_session_cancelled,
  Call, asks_close, readies, confirms_session_end, cancels_end, changes_drag, completes, chooses,
  tells, call, calls,
}

event-not_teardown : (o : Outside) → is_teardown (event o) ≡ false
event-not_teardown closes = refl
event-not_teardown _ = refl

-- What others tell the reducer never begins or ends a teardown.
pub hear-closing : (s : State) (os : List Outside) → (hear s os).closing ≡ s.closing
unfolding hear
hear-closing s [] = refl
hear-closing s (o ∷ os) =
    hear-closing (step s (event o)).0 os ∙ step-closing_same s (event o) (event-not_teardown o)

-- A second `finish` only repeats a refused event.
pub finish_again : (w : World) (c : Coordinator) → c.sequence.closing ≡ true → finish w c ≡ c
unfolding finish
finish_again w c h = ground (arith, step-teardown_again c.sequence h)

-- The first `finish` destroys the views, then the window, and leaves the teardown begun.
pub finish_first :
    (w : World) (c : Coordinator)
    → c.sequence.closing ≡ false
    → ((finish w c).trace ≡ destroy_window ∷ destroy_views c.sequence.end_session_pending ∷ c.trace)
      × ((finish w c).sequence.closing ≡ true)
unfolding finish
finish_first w c h =
    let begun = tell c Shutdown.teardown_started in
    let views = destroy_views c.sequence.end_session_pending in
    let gone = perform w views begun in
    let closed : gone.sequence.closing ≡ true =
      hear-closing begun.sequence (w.during (views ∷ c.trace))
      ∙ (step-teardown_started c.sequence h).1 in
    let last = hear-closing gone.sequence (w.during (destroy_window ∷ views ∷ c.trace)) in
    ground (
      arith,
      (step-teardown_started c.sequence h).0,
      step-views_destroyed gone.sequence closed,
      closed,
      last,
    )

close_event-not_teardown : (b : Bool) → is_teardown (close_event b) ≡ false
close_event-not_teardown true = refl
close_event-not_teardown false = refl

save_event-not_teardown : (b : Bool) → is_teardown (save_event b) ≡ false
save_event-not_teardown true = refl
save_event-not_teardown false = refl

drag_event-not_teardown : (b : Bool) → is_teardown (drag_event b) ≡ false
drag_event-not_teardown true = refl
drag_event-not_teardown false = refl

abbrev pub is_plain : Effect → Bool
is_plain (destroy_views ending) = false
is_plain destroy_window = false
is_plain _ = true

abbrev pub Ensures : (Coordinator → Type 0) → Option Coordinator → Type 0
Ensures P none = Unit
Ensures P (some c) = P c

pub Ensures-cond :
    (P : Coordinator → Type 0) (b : Bool) (x y : Option Coordinator)
    → Ensures P x
    → Ensures P y
    → Ensures P (if b then x else y)
Ensures-cond P true x y hx hy = hx
Ensures-cond P false x y hx hy = hy

-- The rule. `P` survives a plain effect, an event that is no teardown, and `finish`.
module _ (w : World) (P : Coordinator → Type 0)
    (performs : (e : Effect) (c : Coordinator) → is_plain e ≡ true → P c → P (perform w e c))
    (tells_keep : (e : ShutdownEvent) (c : Coordinator)
      → is_teardown e ≡ false
      → P c
      → P (tell c e))
    (finishes : (c : Coordinator) → P c → P (finish w c)) where
  abbrev Keeps : (ShutdownAction → Coordinator → Option Coordinator) → Type 0
  Keeps go = (a : ShutdownAction) (c : Coordinator) → P c → Ensures P (go a c)

  module _ (go : ShutdownAction → Coordinator → Option Coordinator) (keeps : Keeps go) where
    close-keeps : (c : Coordinator) → P c → Ensures P (request_close_by w go c)
    close-keeps c p = keeps _ _ (tells_keep _ c (close_event-not_teardown _) p)

    outcome-keeps :
        (b : Bool) (c : Coordinator)
        → P c
        → Ensures P (go (ask c (save_event b)) (tell c (save_event b)))
    outcome-keeps b c p = keeps _ _ (tells_keep _ c (save_event-not_teardown b) p)

    retry-keeps : (b : Bool) (c : Coordinator) → P c → Ensures P (retry_close w go b c)
    unfolding retry_close
    retry-keeps true c p = close-keeps c p
    retry-keeps false c p = p

    after_post-keeps : (b : Bool) (c : Coordinator) → P c → Ensures P (after_post w go b c)
    unfolding after_post
    after_post-keeps true c p = p
    after_post-keeps false c p =
        retry-keeps _ _ (tells_keep Shutdown.deferred_shutdown_queue_failed c refl p)

    post-keeps : (b : Bool) (c : Coordinator) → P c → Ensures P (post_close w go b c)
    unfolding post_close
    post-keeps true c p = p
    post-keeps false c p = after_post-keeps _ _ (
        performs post_deferred_shutdown _ refl
          (tells_keep Shutdown.deferred_shutdown_queued c refl p))

    settle-keeps :
        (a : ShutdownAction) (b : Bool) (c : Coordinator)
        → P c
        → Ensures P (settle_prompt w go a b c)
    unfolding settle_prompt
    settle-keeps ShutdownAction.destroy_views b c p = finishes c p
    settle-keeps _ true c p =
        performs (show_closing_caption false) _ refl (tells_keep Shutdown.save_keep_open c refl p)
    settle-keeps _ false c p = keeps _ _ (tells_keep Shutdown.save_discarded c refl p)

  pub run-Keeps : (n : ℕ) → Keeps (run w n)
  unfolding run run_defer run_save_session run_prompt_save_failure
  run-Keeps zero a c p = tt
  run-Keeps (suc n) ShutdownAction.defer c p =
      post-keeps (run w n) (run-Keeps n) _ _ (performs (show_closing_caption true) c refl p)
  run-Keeps (suc n) ShutdownAction.prompt_transfer c p = performs show_transfer_prompt c refl p
  run-Keeps (suc n) ShutdownAction.save_session c p =
      outcome-keeps (run w n) (run-Keeps n) _ _ (performs save_session c refl p)
  run-Keeps (suc n) ShutdownAction.prompt_save_failure c p =
      settle-keeps (run w n) (run-Keeps n) _ _ _ (
        tells_keep Shutdown.save_prompt_finished _ refl (
          performs ask_keep_open_after_save_failure _ refl
            (tells_keep Shutdown.save_prompt_started c refl p)))
  run-Keeps (suc n) ShutdownAction.destroy_views c p = finishes c p
  run-Keeps (suc n) _ c p = p

  module _ (n : ℕ) where
    complete-keeps : (c : Coordinator) → P c → Ensures P (complete_deferred_close w n c)
    unfolding complete_deferred_close request_close
    complete-keeps c p =
        Ensures-cond P
          (not c.sequence.close_after_file_operation
            || c.sequence.file_operation_call_active
            || c.sequence.file_operation_in_progress
            || c.sequence.closing
            || not (w.has_window c.trace))
          _ _ p (close-keeps (run w n) (run-Keeps n) _ (performs dismiss_transfer_prompt c refl p))

    transfer-keeps :
        (t : TransferChoice) (c : Coordinator) → P c → Ensures P (transfer_chosen w n t c)
    unfolding transfer_chosen
    transfer-keeps keep_open c p = tells_keep Shutdown.transfer_keep_open c refl p
    transfer-keeps close_after_transfer c p =
        complete-keeps _ (tells_keep Shutdown.transfer_close_after_transfer c refl p)
    transfer-keeps cancel_and_close c p = tells_keep Shutdown.transfer_cancel_and_close c refl p

    confirmed-keeps : (c : Coordinator) → P c → Ensures P (end_session_confirmed w n c)
    unfolding end_session_confirmed
    confirmed-keeps c p =
        let told = tells_keep Shutdown.end_session c refl p in
        let written = performs write_end_session_checkpoint _ refl told in
        let d = perform w write_end_session_checkpoint (tell c Shutdown.end_session) in
        Ensures-cond P
          (d.sequence.closing
            || not (is_defer (ask c Shutdown.end_session))
            || not (d.sequence.shell_call_depth == 0)
            || d.sequence.drag_in_progress)
          _ _ written
          (outcome-keeps (run w n) (run-Keeps n) (answered w d) _
            (tells_keep Shutdown.save_started d refl written))

    cancelled-keeps : (c : Coordinator) → P c → P (end_session_cancelled w c)
    unfolding end_session_cancelled
    cancelled-keeps c p =
        let told = tells_keep Shutdown.end_session_cancelled c refl p in
        ground (arith, told, performs (show_closing_caption false) _ refl told)

    drag-keeps : (b : Bool) (c : Coordinator) → P c → Ensures P (drag_changed w n b c)
    unfolding drag_changed
    drag-keeps b c p =
        let told = tells_keep (drag_event b) c (drag_event-not_teardown b) p in
        Ensures-cond P (is_defer (ask c (drag_event b))) _ _
          (run-Keeps n ShutdownAction.defer _ told) told

    pub call-keeps : (x : Call) (c : Coordinator) → P c → Ensures P (call w n x c)
    unfolding call request_close deferred_shutdown_ready
    call-keeps asks_close c p = close-keeps (run w n) (run-Keeps n) c p
    call-keeps readies c p = run-Keeps n _ _ (tells_keep Shutdown.deferred_shutdown_ready c refl p)
    call-keeps confirms_session_end c p = confirmed-keeps c p
    call-keeps cancels_end c p = cancelled-keeps c p
    call-keeps (changes_drag b) c p = drag-keeps b c p
    call-keeps completes c p = complete-keeps c p
    call-keeps (chooses t) c p = transfer-keeps t c p
    call-keeps (tells o) c p = tells_keep (event o) c (event-not_teardown o) p

    pub calls-keeps : (xs : List Call) (c : Coordinator) → P c → Ensures P (calls w n xs c)
    unfolding calls
    calls-keeps [] c p = p
    calls-keeps (x ∷ xs) c p = next (call w n x c) (call-keeps x c p) (calls-keeps xs)
      where
        next :
            (o : Option Coordinator)
            → Ensures P o
            → ((d : Coordinator) → P d → Ensures P (calls w n xs d))
            → Ensures P (and_then w n o (calls w n xs))
        next none q rest = tt
        next (some d) q rest = rest d q
