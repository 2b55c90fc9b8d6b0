-- ===== src/Coordinator/Total.antt =====
-- How much fuel the coordinator needs, and the run that no fuel is enough for.
use pane_dock.Common.{
  ℕ, zero, suc, ◌+◌, ◌≤◌, ◌≡◌, refl, Bool, true, false, List, ◌∷◌, Option, some, arith,
  if◌then◌else◌, ◌==◌, ◌||◌, not,
}
use pane_dock.Shutdown.{ShutdownEvent, ShutdownAction, State, step}
use pane_dock.Shutdown
use pane_dock.Coordinator.Order.{count}
use pane_dock.Coordinator.{
  Effect, save_session, show_closing_caption, post_deferred_shutdown, World, Coordinator, perform,
  finish, tell, ask, answered, show_transfer_prompt, is_defer, cannot_post,
  write_end_session_checkpoint, asks_close, readies, confirms_session_end, cancels_end,
  changes_drag, completes, chooses, tells, keep_open, close_after_transfer, cancel_and_close,
  complete_deferred_close, transfer_chosen, drag_changed, drag_event, end_session_confirmed,
  end_session_cancelled, event, save_event, retry_close, after_post, post_close, settle_prompt,
  run_defer, run_save_session, run_prompt_save_failure, run, request_close, deferred_shutdown_ready,
  Call, call,
}

abbrev pub Returns : Option Coordinator → Type 0
Returns o = (c : Coordinator) × (o ≡ some c)

abbrev pub is_post : Effect → Bool
is_post post_deferred_shutdown = true
is_post _ = false

-- Once `k` continuations have been posted, every further post lands.
abbrev pub PostsLandAfter : ℕ → World → Type 0
PostsLandAfter k w =
    (h : List Effect) → k ≤ count is_post h → w.answer (post_deferred_shutdown ∷ h) ≡ true

module _ (w : World) where
  settle_total :
      (n : ℕ) (a : ShutdownAction) (b : Bool) (c : Coordinator)
      → Returns (settle_prompt w (run w (suc n)) a b c)
  unfolding settle_prompt run step
  settle_total n ShutdownAction.destroy_views b c = (finish w c, refl)
  settle_total n _ true c =
      (perform w (show_closing_caption false) (tell c Shutdown.save_keep_open), refl)
  settle_total n _ false c = (finish w (tell c Shutdown.save_discarded), refl)

  prompt_total :
      (n : ℕ) (c : Coordinator) → Returns (run w (suc (suc n)) ShutdownAction.prompt_save_failure c)
  unfolding run run_prompt_save_failure
  prompt_total n c = settle_total n _ _ _

  outcome_total :
      (n : ℕ) (b : Bool) (c : Coordinator)
      → Returns (run w (suc (suc n)) (ask c (save_event b)) (tell c (save_event b)))
  unfolding run step
  outcome_total n true c = (finish w (tell c (save_event true)), refl)
  outcome_total n false c = failed c.sequence.end_session_pending refl
    where
      failed :
          (b : Bool)
          → c.sequence.end_session_pending ≡ b
          → Returns (run w (suc (suc n)) (ask c (save_event false)) (tell c (save_event false)))
      failed true e = (finish w (tell c (save_event false)), ground arith)
      failed false e = let (d, r) = prompt_total n (tell c (save_event false)) in (d, ground arith)

  retry_total :
      (n : ℕ) (b : Bool) (c : Coordinator)
      → ((a : ShutdownAction) (d : Coordinator) → d.trace ≡ c.trace → Returns (run w n a d))
      → Returns (retry_close w (run w n) b c)
  unfolding retry_close
  retry_total n true c f = f _ _ refl
  retry_total n false c f = (c, refl)

  after_total :
      (n : ℕ) (b : Bool) (c : Coordinator)
      → (b ≡ false
          → (a : ShutdownAction) (d : Coordinator) → d.trace ≡ c.trace
          → Returns (run w n a d))
      → Returns (after_post w (run w n) b c)
  unfolding after_post
  after_total n true c f = (c, refl)
  after_total n false c f = retry_total n _ _ (f refl)

  post_total :
      (n : ℕ) (b : Bool) (c : Coordinator)
      → (w.answer (post_deferred_shutdown ∷ c.trace) ≡ false
          → (a : ShutdownAction) (d : Coordinator) → d.trace ≡ post_deferred_shutdown ∷ c.trace
          → Returns (run w n a d))
      → Returns (post_close w (run w n) b c)
  unfolding post_close perform
  post_total n true c f = (c, refl)
  post_total n false c f = after_total n _ _ f

  -- If posts land once `k` of them have been tried, then fuel for the posts that are still missing,
  -- and four more, is enough for any action: the coordinator returns.
  pub run_total :
      (k : ℕ) (lands : PostsLandAfter k w) (j : ℕ) (a : ShutdownAction) (c : Coordinator)
      → k ≤ count is_post c.trace + j
      → Returns (run w (suc (suc (suc (suc j)))) a c)
  unfolding run run_defer run_save_session perform
  run_total k lands zero ShutdownAction.defer c h =
      let shown = perform w (show_closing_caption true) c in
      post_total (suc (suc (suc zero))) (cannot_post w shown) shown
        λ failed. absurd (ground (arith, lands (show_closing_caption true ∷ c.trace)))
  run_total k lands (suc j) ShutdownAction.defer c h =
      let shown = perform w (show_closing_caption true) c in
      post_total (suc (suc (suc (suc j)))) (cannot_post w shown) shown
        λ failed a d t. run_total k lands j a d (rw t (ground arith))
  run_total k lands j ShutdownAction.save_session c h =
      let saved = perform w save_session c in outcome_total (suc j) (answered w saved) saved
  run_total k lands j ShutdownAction.prompt_save_failure c h = prompt_total (suc (suc j)) c
  run_total k lands j ShutdownAction.prompt_transfer c h = (perform w show_transfer_prompt c, refl)
  run_total k lands j ShutdownAction.destroy_views c h = (finish w c, refl)
  run_total k lands j ShutdownAction.nothing c h = (c, refl)
  run_total k lands j ShutdownAction.destroy_window c h = (c, refl)
  run_total k lands j ShutdownAction.write_clean_marker c h = (c, refl)
  run_total k lands j ShutdownAction.request_quit c h = (c, refl)

  Returns-if :
      (b : Bool) (x y : Option Coordinator) → Returns x → Returns y → Returns (if b then x else y)
  Returns-if true x y hx hy = hx
  Returns-if false x y hx hy = hy

  module _ (k : ℕ) (lands : PostsLandAfter k w) (j : ℕ) where
    complete_total :
        (c : Coordinator)
        → k ≤ count is_post c.trace + j
        → Returns (complete_deferred_close w (suc (suc (suc (suc j)))) c)
    unfolding complete_deferred_close request_close perform
    complete_total c h =
        Returns-if
          (not c.sequence.close_after_file_operation
            || c.sequence.file_operation_call_active
            || c.sequence.file_operation_in_progress
            || c.sequence.closing
            || not (w.has_window c.trace))
          _ _ (c, refl) (run_total k lands j _ _ (ground arith))

    confirmed_total :
        (c : Coordinator)
        → k ≤ count is_post c.trace + j
        → Returns (end_session_confirmed w (suc (suc (suc (suc j)))) c)
    unfolding end_session_confirmed perform
    confirmed_total c h =
        let d = perform w write_end_session_checkpoint (tell c Shutdown.end_session) in
        Returns-if
          (d.sequence.closing
            || not (is_defer (ask c Shutdown.end_session))
            || not (d.sequence.shell_call_depth == 0)
            || d.sequence.drag_in_progress)
          _ _ (d, refl) (run_total k lands j _ _ (ground arith))

    -- So every call of the coordinator returns.
    pub call_total :
        (x : Call) (c : Coordinator)
        → k ≤ count is_post c.trace + j
        → Returns (call w (suc (suc (suc (suc j)))) x c)
    unfolding call request_close deferred_shutdown_ready transfer_chosen drag_changed
    call_total asks_close c h = run_total k lands j _ _ h
    call_total readies c h = run_total k lands j _ _ h
    call_total confirms_session_end c h = confirmed_total c h
    call_total cancels_end c h = (end_session_cancelled w c, refl)
    call_total (changes_drag b) c h =
        Returns-if (is_defer (ask c (drag_event b))) _ _ (run_total k lands j _ _ h)
          (tell c (drag_event b), refl)
    call_total completes c h = complete_total c h
    call_total (chooses keep_open) c h = (tell c Shutdown.transfer_keep_open, refl)
    call_total (chooses close_after_transfer) c h =
        complete_total (tell c Shutdown.transfer_close_after_transfer) h
    call_total (chooses cancel_and_close) c h = (tell c Shutdown.transfer_cancel_and_close, refl)
    call_total (tells o) c h = (tell c (event o), refl)
